-- ===== src/Dns/Query/Listed.antt =====
-- `ListPermittedTLDs` against `IsTLDPermitted`, and `GetDomain` after a creation.
use dnsblockchain.Prelude.{ℕ, ◌≡◌, ◌≢◌, refl, false, some, List, [], ◌∷◌, map, any, arith}
use dnsblockchain.Go.Text.{Text, is_empty}
use dnsblockchain.Go.Text.Normal.{normal_tld}
use dnsblockchain.Sdk.{ok}
use dnsblockchain.Store.{KeySet, text_key, ◌==◌, has, lookup}
use dnsblockchain.Dns.Types.{Keeper}
use dnsblockchain.Dns.Permitted.{is_tld_permitted}
use dnsblockchain.Dns.Query.{list_permitted_tlds}

has-any : (t : Text) (m : KeySet Text) → has t m ≡ any (λ x. t == x) (map (λ e. e.0) m)
unfolding lookup
has-any t [] = refl
has-any t ((j, u) ∷ m) = ground (arith, has-any t m)

not_empty : (t : Text) → t ≢ [] → is_empty t ≡ false
not_empty [] n = absurd (n refl)
not_empty (c ∷ t) n = refl

-- The list that ListPermittedTLDs returns has the normal form of a text, where this is not empty,
-- just when IsTLDPermitted says yes to the text.
list_permitted_tlds-is_tld_permitted :
    (lower : ℕ → ℕ) (tld : Text) (k : Keeper) (ts : List Text)
    → normal_tld lower tld ≢ []
    → list_permitted_tlds (some tt) k ≡ ok ts
    → is_tld_permitted lower tld k ≡ any (λ t. normal_tld lower tld == t) ts
unfolding list_permitted_tlds is_tld_permitted
list_permitted_tlds-is_tld_permitted lower tld k ts n listed =
    ground
      (arith, not_empty (normal_tld lower tld) n, has-any (normal_tld lower tld) k.permitted_tlds)
