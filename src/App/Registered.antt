-- ===== src/App/Registered.antt =====
-- What is registered on a chain with both modules lies under TLDs that x/dao voted for
-- (x/dnsblockchain/keeper/msg_server_domain.go, x/dao/keeper/end_blocker.go).
use mathlib.Core.Path.{subst}
use dnsblockchain.Prelude.{ℕ, ◌+◌, ◌<◌, ◌≡◌, sym, ap, ◌∙◌, All, true, some, [], arith}
use dnsblockchain.Go.Word.{u64_mod}
use dnsblockchain.Go.Text.{Text, IsLowering}
use dnsblockchain.Sdk.{Platform}
use dnsblockchain.Store.{nat_key, text_key, lookup, has}
use dnsblockchain.Dns.Types.{Keeper}
use dnsblockchain.Dns.Genesis.{init_genesis, default_dns_genesis, no_stores}
use dnsblockchain.Dns.Genesis.Restore.{IsSound}
use dnsblockchain.Dns.Genesis.New.{new_stores, init_genesis-default, new_stores-IsSound}
use dnsblockchain.Dao.{DaoParams, DaoKeeper, Codec, Decimals}
use dnsblockchain.Store.Order.{IsOrdered}
use dnsblockchain.Dao.Reach.{IsBook}
use dnsblockchain.Dao.History.{IsBelow}
use dnsblockchain.App.{World, AppReach}
use dnsblockchain.App.Voted.{Voted}
use dnsblockchain.App.Housed.{IsHoused}
use dnsblockchain.App.Runs.{IsCoherent, AppReach-IsCoherent}

new_stores-IsHoused : (lower : ℕ → ℕ) → IsHoused lower new_stores
unfolding lookup
new_stores-IsHoused lower i d there = absurd (cc there)

nothing-has : (t : Text) (k : Keeper) → k ≡ new_stores → ¬ (has t k.permitted_tlds ≡ true)
unfolding lookup
nothing-has t k e h = absurd (cc (ap (λ x. has t x.permitted_tlds) e, h))

no_proposals-IsBook : (k : DaoKeeper) → k.proposals ≡ [] → IsBook k
no_proposals-IsBook k e = subst (λ m. IsOrdered m × All (λ e. e.1.id ≡ e.0) m) (sym e) (tt, tt)

no_proposals-IsBelow : (k : DaoKeeper) → k.proposals ≡ [] → IsBelow k
unfolding lookup
no_proposals-IsBelow k e i q there = absurd (cc (ap (lookup i) e, there))

module _ (codec : Codec) (d : Decimals) (p : Platform) (l : IsLowering p.lower) where
  open p use {lower, Bank}

  -- The stores of a new chain are coherent.
  pub new_chain-IsCoherent :
      (params : DaoParams) (s : World Bank)
      → s.dao.registry ≡ init_genesis lower default_dns_genesis no_stores
      → s.dao.keeper.params ≡ some params
      → s.dao.keeper.proposals ≡ []
      → IsCoherent codec d p l params [] s
  new_chain-IsCoherent params s fresh set none_yet =
      let new : s.dao.registry ≡ new_stores = fresh ∙ init_genesis-default lower in
      record {
        sound = subst (IsSound lower) (sym new) (new_stores-IsSound lower);
        housed = subst (IsHoused lower) (sym new) (new_stores-IsHoused lower);
        book = no_proposals-IsBook s.dao.keeper none_yet;
        below = no_proposals-IsBelow s.dao.keeper none_yet;
        parameters = set;
        founded = λ t h. absurd (nothing-has t s.dao.registry new h);
      }

  pub new_chain-reaches :
      (params : DaoParams) (s : World Bank) {n : ℕ} {w : World Bank}
      → s.dao.registry ≡ init_genesis lower default_dns_genesis no_stores
      → s.dao.keeper.params ≡ some params
      → s.dao.keeper.proposals ≡ []
      → AppReach codec d p s n w
      → s.dao.keeper.proposal_seq + n < u64_mod
      → IsCoherent codec d p l params [] w
  new_chain-reaches params s fresh set none_yet r room =
      let zero_seq : s.dao.registry.domain_seq ≡ 0 =
        ap (λ k. k.domain_seq) (fresh ∙ init_genesis-default lower) in
      AppReach-IsCoherent codec d p l params [] s r
        (new_chain-IsCoherent params s fresh set none_yet) (omega (arith, zero_seq, room)) room
