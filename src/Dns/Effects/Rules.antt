-- ===== src/Dns/Effects/Rules.antt =====
-- The rule for `Domain.Get`, and rights as read from the tests on texts.
use dnsblockchain.Prelude.{ℕ, ◌≡◌, false, not, ◌&&◌, some, ◌⊎◌, arith}
use dnsblockchain.Go.Text.{Text}
use dnsblockchain.Sdk.{Handler, ◌>>=◌, Ensures, after_or_fail, key_not_found}
use dnsblockchain.Store.{nat_key, text_key, ◌==◌, lookup}
use dnsblockchain.Dns.Types.{Domain, Chain}
use dnsblockchain.Dns.Msg.{get_domain}

pub after_get_domain :
    {A B : Type 0} {Q : A → Chain B → Type 0} {E : Chain B → Type 0} (id : ℕ)
    (f : Domain → Handler (Chain B) A) (s : Chain B)
    → E s
    → ((d : Domain) → lookup id s.keeper.domain ≡ some d → Ensures Q E (f d s))
    → Ensures Q E ((get_domain id >>= f) s)
unfolding get_domain ◌>>=◌
after_get_domain id f s = after_or_fail (lookup id s.keeper.domain) key_not_found f s

-- A signer who passed the test is one of two.
pub one_of_two :
    (signer a b : Text)
    → (not (signer == a) && not (signer == b)) ≡ false
    → (signer ≡ a) ⊎ (signer ≡ b)
one_of_two signer a b h = ground (arith, text_key.beq_iff signer a, text_key.beq_iff signer b)

pub same_text : (s t : Text) → not (s == t) ≡ false → s ≡ t
same_text s t h = ground (arith, text_key.beq_iff s t)
