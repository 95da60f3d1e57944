-- ===== src/App/Runs.antt =====
-- Runs of the chain with both modules: messages to x/dnsblockchain
-- (x/dnsblockchain/keeper/msg_server_domain.go, x/dnsblockchain/keeper/msg_update_params.go) and to
-- x/dao (x/dao/keeper/msg_server.go), and ends of blocks (x/dao/keeper/end_blocker.go).
use mathlib.Core.Path.{subst}
use dnsblockchain.Prelude.{
  ℕ, ◌+◌, ◌<◌, ◌≤◌, ◌≡◌, sym, ap, ◌∙◌, true, Option, some, arith, ◌⊎◌, inl, inr,
}
use dnsblockchain.Go.Word.{u64_mod}
use dnsblockchain.Go.Text.{Text, IsLowering}
use dnsblockchain.Sdk.{Platform}
use dnsblockchain.Store.{KeySet, nat_key, text_key, lookup, has}
use dnsblockchain.Dns.Types.{Keeper, Chain}
use dnsblockchain.Dns.Index.Steps.{Step, Step-Change}
use dnsblockchain.Dns.Index.Handlers.{Change-Within}
use dnsblockchain.Dns.Genesis.Restore.{IsSound}
use dnsblockchain.Dns.Genesis.Sound.{Change-IsTidy}
use dnsblockchain.Dao.{Proposal, DaoParams, DaoKeeper, executed, Codec, Decimals, DaoChain}
use dnsblockchain.Dao.Reach.{IsBook, DaoStep, DaoStep-IsBook}
use dnsblockchain.Dao.History.{Moves, stays, opens, closes, IsBelow}
use dnsblockchain.Dao.History.Steps.{DaoStep-Moved}
use dnsblockchain.Dao.Agreement.{keeper_registry}
use dnsblockchain.App.{
  World, dns_part, with_dns, IsMessage, AppStep, dns_message, dao_step, AppReach, at_start,
  one_more,
}
use dnsblockchain.App.Voted.{Voted}
use dnsblockchain.App.Steps.{DaoStep-SameParams, DaoStep-Granting}
use dnsblockchain.App.Housed.{
  IsHoused, Change-IsHoused, Permits-IsHoused, Permits-IsSound, Permits-seq, Step-SameTlds,
}

-- An executed proposal stays.
executed_stays :
    (o o' : Option Proposal) (q : Proposal)
    → o ≡ some q
    → q.status ≡ executed
    → Moves o o'
    → o' ≡ some q
executed_stays o o' q there done (stays e) = e ∙ there
executed_stays o o' q there done (opens r e f v) = absurd (cc (e, there))
executed_stays o o' q there done (closes r r' e f v final same) =
    let w : r ≡ q = cc (e, there) in absurd (cc (ap (λ x. x.status) w, v, done))

Voted-Moves :
    (codec : Codec) (d : Decimals) (params : DaoParams) (lower : ℕ → ℕ) (k k' : DaoKeeper)
    (t : Text)
    → ((i : ℕ) → Moves (lookup i k.proposals) (lookup i k'.proposals))
    → Voted codec d params lower k t
    → Voted codec d params lower k' t
Voted-Moves codec d params lower k k' t m v = record {
  id = v.id;
  proposal = v.proposal;
  stored =
      executed_stays (lookup v.id k.proposals) (lookup v.id k'.proposals) v.proposal v.stored
        v.was_executed (m v.id);
  was_executed = v.was_executed;
  wins = v.wins;
  proposes = v.proposes;
}

module _ (codec : Codec) (d : Decimals) (p : Platform) (l : IsLowering p.lower) where
  open p use {lower, Bank}

  module _ (params : DaoParams) (first : KeySet Text) where
    -- What holds of the stores of both modules together; `first` are the TLDs of the genesis state.
    pub record IsCoherent (w : World Bank) : Type 0 where
      pub sound : IsSound lower w.dao.registry
      pub housed : IsHoused lower w.dao.registry
      pub book : IsBook w.dao.keeper
      pub below : IsBelow w.dao.keeper
      pub parameters : w.dao.keeper.params ≡ some params
      pub founded :
          (t : Text)
          → has t w.dao.registry.permitted_tlds ≡ true
          → (has t first ≡ true) ⊎ Voted codec d params lower w.dao.keeper t

    dns_message-IsCoherent :
        (w : World Bank) (c : Chain Bank) (st : Step p (dns_part w) c)
        → IsMessage st
        → w.dao.registry.domain_seq + 1 < u64_mod
        → IsCoherent w
        → IsCoherent (with_dns c w) × (c.keeper.domain_seq ≤ w.dao.registry.domain_seq + 1)
    dns_message-IsCoherent w c st m room v =
        let change = Step-Change p (dns_part w) v.sound.indexed c st in
        let within =
          Change-Within p w.dao.registry.domain_seq w.dao.registry c.keeper
            (v.sound.indexed, omega arith) (omega arith) change in
        (
          record {
            sound = record {
              indexed = within.0;
              tidy = Change-IsTidy p l w.dao.registry c.keeper v.sound.tidy change;
            };
            housed = Change-IsHoused p w.dao.registry c.keeper v.housed change;
            book = v.book;
            below = v.below;
            parameters = v.parameters;
            founded =
                λ t h. v.founded t (ap (has t) (sym (Step-SameTlds p (dns_part w) c st m)) ∙ h);
          },
          omega (arith, within.1),
        )

    -- The sequences grow by at most one.
    abbrev Little : World Bank → World Bank → Type 0
    Little w w' =
        (w'.dao.registry.domain_seq ≤ w.dao.registry.domain_seq + 1)
        × (w'.dao.keeper.proposal_seq ≤ w.dao.keeper.proposal_seq + 1)

    DaoStep-IsCoherent :
        (w : World Bank) (t : DaoChain Keeper Bank)
        → DaoStep codec d (keeper_registry lower) p w.dao t
        → w.dao.keeper.proposal_seq + 1 < u64_mod
        → IsCoherent w
        → IsCoherent (record w { dao = t }) × Little w (record w { dao = t })
    DaoStep-IsCoherent w t st room v =
        let g = keeper_registry lower in
        let granting = DaoStep-Granting codec d p params w.dao t v.parameters v.book st in
        let moved = DaoStep-Moved codec d g p w.dao t v.book v.below room st in
        (
          record {
            sound = Permits-IsSound p l w.dao.registry t.registry v.sound granting.permits;
            housed = Permits-IsHoused p w.dao.registry t.registry v.housed granting.permits;
            book = DaoStep-IsBook codec d g p w.dao t v.book st;
            below = moved.ids;
            parameters = DaoStep-SameParams codec d g p w.dao t st ∙ v.parameters;
            founded = λ u h. elim (granting.grows u h) [
              | inr voted ↦ inr voted
              | inl early ↦ elim (v.founded u early) [
                | inl old ↦ inl old
                | inr voted ↦
                    inr (Voted-Moves codec d params lower w.dao.keeper t.keeper u moved.moves voted)
              ]
            ];
          },
          (omega (arith, Permits-seq lower w.dao.registry t.registry granting.permits), moved.room),
        )

    AppStep-IsCoherent :
        (w w' : World Bank)
        → AppStep codec d p w w'
        → w.dao.registry.domain_seq + 1 < u64_mod
        → w.dao.keeper.proposal_seq + 1 < u64_mod
        → IsCoherent w
        → IsCoherent w' × Little w w'
    AppStep-IsCoherent w w' (dns_message c st m e) i j v =
        let after = dns_message-IsCoherent w c st m i v in
        subst (λ x. IsCoherent x × Little w x) (sym e) (after.0, (after.1, omega arith))
    AppStep-IsCoherent w w' (dao_step t st e) i j v =
        subst (λ x. IsCoherent x × Little w x) (sym e) (DaoStep-IsCoherent w t st j v)

    -- Coherent, with ids at most `n` past those of the start.
    abbrev Near : World Bank → ℕ → World Bank → Type 0
    Near s n w =
        IsCoherent w
        × (w.dao.registry.domain_seq ≤ s.dao.registry.domain_seq + n)
        × (w.dao.keeper.proposal_seq ≤ s.dao.keeper.proposal_seq + n)

    AppReach-Near :
        (s : World Bank) {n : ℕ} {w : World Bank}
        → AppReach codec d p s n w
        → IsCoherent s
        → s.dao.registry.domain_seq + n < u64_mod
        → s.dao.keeper.proposal_seq + n < u64_mod
        → Near s n w
    AppReach-Near s at_start v i j = (v, omega arith, omega arith)
    AppReach-Near s (one_more r st) v i j =
        let (before, a, b) = AppReach-Near s r v (omega arith) (omega arith) in
        let (after, (c, e)) =
          AppStep-IsCoherent _ _ st (omega (arith, a)) (omega (arith, b)) before in
        (after, omega (arith, a, c), omega (arith, b, e))

    pub AppReach-IsCoherent :
        (s : World Bank) {n : ℕ} {w : World Bank}
        → AppReach codec d p s n w
        → IsCoherent s
        → s.dao.registry.domain_seq + n < u64_mod
        → s.dao.keeper.proposal_seq + n < u64_mod
        → IsCoherent w
    AppReach-IsCoherent s r v i j = (AppReach-Near s r v i j).0
