-- ===== src/Dns/Index/Handlers.antt =====
-- The invariant of the tables along runs of the calls that reach them
-- (x/dnsblockchain/keeper/msg_server_domain.go, x/dnsblockchain/keeper/msg_update_params.go,
-- x/dnsblockchain/keeper/keeper.go).
use dnsblockchain.Go.Text.{Text}
use dnsblockchain.Store.{KeySet}
use mathlib.Core.Path.{subst}
use dnsblockchain.Prelude.{ℕ, suc, ◌+◌, ◌<◌, ◌≤◌, sym, arith, Option}
use dnsblockchain.Go.Word.{u64_mod}
use dnsblockchain.Sdk.{Platform}
use dnsblockchain.Dns.Types.{Keeper, Chain, Params}
use dnsblockchain.Dns.Index.Changes.{
  IsIndexed, added-IsIndexed, replaced-IsIndexed, dropped-IsIndexed,
}
use dnsblockchain.Dns.Index.Steps.{
  Change, unchanged, adding, replacing, dropping, permitting_tld, setting, Reach, here, next,
  Step-Change,
}

-- The invariant, with a bound on the ids given so far.
abbrev pub Within : ℕ → Keeper → Type 0
Within n k = IsIndexed k × (k.domain_seq ≤ n)

-- The invariant does not look at the parameters and the TLDs.
pub other_stores :
    (k : Keeper) (ps : Option Params) (ts : KeySet Text)
    → IsIndexed k
    → IsIndexed (record k { params = ps; permitted_tlds = ts })
other_stores k ps ts v = record {
  indexed = v.indexed;
  named = v.named;
  keyed = v.keyed;
  below = v.below;
}

pub Change-Within :
    (p : Platform) (n : ℕ) (k k' : Keeper)
    → Within n k
    → suc n < u64_mod
    → Change p k k'
    → Within (suc n) k'
Change-Within p n k k' w room (unchanged e) = subst (Within (suc n)) (sym e) (w.0, omega arith)
Change-Within p n k k' w room (adding name d e full tld two permitted free next_id s) =
    subst (Within (suc n)) (sym s) (added-IsIndexed d k w.0 next_id free (omega arith), omega arith)
Change-Within p n k k' w room (replacing i old d found e same s) =
    subst (Within (suc n)) (sym s) (replaced-IsIndexed i d k w.0 found e same, omega arith)
Change-Within p n k k' w room (dropping i old found s) =
    subst (Within (suc n)) (sym s) (dropped-IsIndexed i k w.0 found, omega arith)
Change-Within p n k k' w room (permitting_tld tld t e full one s) =
    subst (Within (suc n)) (sym s) (other_stores k _ _ w.0, omega arith)
Change-Within p n k k' w room (setting ps valid s) =
    subst (Within (suc n)) (sym s) (other_stores k _ _ w.0, omega arith)

module _ (p : Platform) where
  open p use {Bank}

  pub Reach-Within :
      (s : Chain Bank) {n : ℕ} {t : Chain Bank}
      → Reach p s n t
      → IsIndexed s.keeper
      → s.keeper.domain_seq + n < u64_mod
      → Within (s.keeper.domain_seq + n) t.keeper
  Reach-Within s here v room = (v, omega arith)
  Reach-Within s (next {n} {t} {u} r st) v room =
      let before = Reach-Within s r v (omega arith) in
      let after =
        Change-Within p (s.keeper.domain_seq + n) t.keeper u.keeper before (omega arith)
          (Step-Change p t before.0 u st) in
      (after.0, omega arith)

  -- From stores in which the name index and the domains agree, every sequence of messages to
  -- x/dnsblockchain and calls of AddPermittedTLD, successful or not, leads to stores in which they
  -- agree: each domain is indexed under its name, each entry of the index leads to a domain of that
  -- name, each domain stands under its own id, and every id lies below the sequence. The condition
  -- is that the sequence plus the number of messages stays below 2^64; the sequence then grows by
  -- at most one for each message.
  pub Reach-IsIndexed :
      (s : Chain Bank) {n : ℕ} {t : Chain Bank}
      → Reach p s n t
      → IsIndexed s.keeper
      → s.keeper.domain_seq + n < u64_mod
      → IsIndexed t.keeper × (t.keeper.domain_seq ≤ s.keeper.domain_seq + n)
  Reach-IsIndexed s r v room = Reach-Within s r v room
