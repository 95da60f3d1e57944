-- ===== src/Dns/Genesis/Sound.antt =====
-- The stores of x/dnsblockchain along runs: key order, and normal names.
use mathlib.Core.Path.{subst}
use dnsblockchain.Prelude.{ℕ, ◌+◌, ◌<◌, ◌≡◌, ◌≢◌, sym, ap, ◌∙◌, false, arith, []}
use dnsblockchain.Go.Word.{u64_mod}
use dnsblockchain.Go.Text.{Text, IsLowering, has_dot}
use dnsblockchain.Go.Text.Normal.{normal_name, normal_tld, normal_name_idem, normal_name-no_dot}
use dnsblockchain.Sdk.{Platform}
use dnsblockchain.Store.{nat_key, text_key}
use dnsblockchain.Store.Order.{
  insert-IsOrdered, remove-IsOrdered, All-insert, All-remove, All-lookup,
}
use dnsblockchain.Dns.Types.{Keeper, Chain}
use dnsblockchain.Dns.Index.Changes.{IsIndexed}
use dnsblockchain.Dns.Index.Steps.{
  Change, unchanged, adding, replacing, dropping, permitting_tld, setting, Reach, here, next,
  Step-Change,
}
use dnsblockchain.Dns.Index.Handlers.{Reach-IsIndexed}
use dnsblockchain.Dns.Genesis.Loading.{IsName}
use dnsblockchain.Dns.Genesis.Restore.{IsTidy, IsSound}

module _ (lower : ℕ → ℕ) (l : IsLowering lower) where
  normal_name-IsName : (name n : Text) → n ≡ normal_name lower name → n ≢ [] → IsName lower n
  normal_name-IsName name n e full = record {
    normal = ap (normal_name lower) e ∙ normal_name_idem lower l name ∙ sym e;
    not_empty = full;
  }

  -- A normalised TLD has no dots to trim.
  tld-IsName :
      (tld t : Text) → t ≡ normal_tld lower tld → t ≢ [] → has_dot t ≡ false → IsName lower t
  tld-IsName tld t e full one = record {
    normal = normal_name-no_dot lower l tld t e one;
    not_empty = full;
  }

module _ (p : Platform) (l : IsLowering p.lower) where
  open p use {lower, Bank}

  pub Change-IsTidy : (k k' : Keeper) → IsTidy lower k → Change p k k' → IsTidy lower k'
  Change-IsTidy k k' v (unchanged e) = subst (IsTidy lower) (sym e) v
  Change-IsTidy k k' v (adding name d e full tld two permitted free next_id s) =
      subst (IsTidy lower) (sym s) (record {
        domains_ordered = insert-IsOrdered k.domain_seq d k.domain v.domains_ordered;
        names_ordered = insert-IsOrdered d.name k.domain_seq k.domain_name v.names_ordered;
        tlds_ordered = v.tlds_ordered;
        domains_named =
            All-insert _ k.domain_seq d k.domain
              (normal_name-IsName lower l name d.name e full, next_id) v.domains_named;
        tlds_named = v.tlds_named;
      })
  Change-IsTidy k k' v (replacing i old d found e same s) = subst (IsTidy lower) (sym s) (record {
    domains_ordered = insert-IsOrdered i d k.domain v.domains_ordered;
    names_ordered = v.names_ordered;
    tlds_ordered = v.tlds_ordered;
    domains_named =
        All-insert _ i d k.domain
          (subst (IsName lower) (sym same) (All-lookup _ i old k.domain v.domains_named found).0, e)
          v.domains_named;
    tlds_named = v.tlds_named;
  })
  Change-IsTidy k k' v (dropping i old found s) = subst (IsTidy lower) (sym s) (record {
    domains_ordered = remove-IsOrdered i k.domain v.domains_ordered;
    names_ordered = remove-IsOrdered old.name k.domain_name v.names_ordered;
    tlds_ordered = v.tlds_ordered;
    domains_named = All-remove _ i k.domain v.domains_named;
    tlds_named = v.tlds_named;
  })
  Change-IsTidy k k' v (permitting_tld tld t e full one s) = subst (IsTidy lower) (sym s) (record {
    domains_ordered = v.domains_ordered;
    names_ordered = v.names_ordered;
    tlds_ordered = insert-IsOrdered t tt k.permitted_tlds v.tlds_ordered;
    domains_named = v.domains_named;
    tlds_named =
        All-insert _ t tt k.permitted_tlds (tld-IsName lower l tld t e full one) v.tlds_named;
  })
  Change-IsTidy k k' v (setting ps valid s) = subst (IsTidy lower) (sym s) (record {
    domains_ordered = v.domains_ordered;
    names_ordered = v.names_ordered;
    tlds_ordered = v.tlds_ordered;
    domains_named = v.domains_named;
    tlds_named = v.tlds_named;
  })

  Reach-IsTidy :
      (s : Chain Bank) {n : ℕ} {t : Chain Bank}
      → Reach p s n t
      → IsIndexed s.keeper
      → s.keeper.domain_seq + n < u64_mod
      → IsTidy lower s.keeper
      → IsTidy lower t.keeper
  Reach-IsTidy s here v room tidy = tidy
  Reach-IsTidy s (next {n} {t} {u} r st) v room tidy =
      let before = Reach-IsIndexed p s r v (omega arith) in
      Change-IsTidy t.keeper u.keeper (Reach-IsTidy s r v (omega arith) tidy)
        (Step-Change p t before.0 u st)

  -- Stores whose index and domains agree, that are in key order and whose names and TLDs are in
  -- normal form and not empty are still so after every sequence of messages and calls of
  -- AddPermittedTLD, successful or not, that does not exhaust the 64 bits of the sequence of ids.
  -- The case mapping keeps dots and spaces apart from letters and is idempotent.
  pub Reach-IsSound :
      (s : Chain Bank) {n : ℕ} {t : Chain Bank}
      → Reach p s n t
      → IsSound lower s.keeper
      → s.keeper.domain_seq + n < u64_mod
      → IsSound lower t.keeper
  Reach-IsSound s r v room = record {
    indexed = (Reach-IsIndexed p s r v.indexed room).0;
    tidy = Reach-IsTidy s r v.indexed room v.tidy;
  }
