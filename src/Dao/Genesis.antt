-- ===== src/Dao/Genesis.antt =====
-- The genesis of x/dao (keeper/genesis.go), and the verdict under valid parameters.
use dnsblockchain.Prelude.{Bool, ℕ, ◌*◌, ◌^◌, ◌<◌, ◌≤◌, ◌≡◌, refl, ap, arith}
use dnsblockchain.Prelude.Arith.{times_mono}
use dnsblockchain.Prelude.Int.{ℤ, pos, negsuc}
use dnsblockchain.Sdk.{Platform, Result, ok, err, check, invalid_request, and_then}
use dnsblockchain.Dao.Types.{DaoParams, DaoKeeper, passed}
use dnsblockchain.Dao.External.{Decimals, IsDecimals, dec_one}
use dnsblockchain.Dao.Tally.{Tally, verdict}
use dnsblockchain.Dao.Counts.{has_quorum-bounds, passes_threshold-bounds}
use dnsblockchain.Dao.Params.{
  default_params, DaoGenesis, validate_percent, validate_price, validate_reward,
  validate_dao_params, params_to_set, init_dao_genesis, export_dao_genesis,
}

-- Both checks of a sequence that succeeds have succeeded.
both_ok : (r s : Result (Unit {0})) → and_then r s ≡ ok tt → (r ≡ ok tt) × (s ≡ ok tt)
both_ok (ok u) s h = (refl, h)
both_ok (err e) s h = absurd (cc h)

share_of_all : (q s : ℕ) → q ≤ dec_one → q * s ≤ s * dec_one
share_of_all q s h = omega (arith, times_mono q dec_one s h)

module _ (p : Platform) where
  chosen :
      (params : DaoParams) (r : Result (Unit {0}))
      → validate_dao_params p params ≡ r
      → validate_dao_params p default_params ≡ ok tt
      → (validate_dao_params p (params_to_set p params r) ≡ ok tt)
        × (r ≡ ok tt → params_to_set p params r ≡ params)
  chosen params (ok u) e h = (e, λ _. refl)
  chosen params (err x) e h = (h, λ f. absurd (cc f))

  -- When the default parameters validate, ExportGenesis of x/dao after InitGenesis gives a genesis
  -- state whose parameters validate, and it is the one that was read if the parameters of this
  -- validate.
  pub init_dao_genesis-export :
      (bare : Bool) (g : DaoGenesis) (k : DaoKeeper)
      → validate_dao_params p default_params ≡ ok tt
      → (t : DaoGenesis) × (export_dao_genesis bare (init_dao_genesis p g k) ≡ ok t)
        × (validate_dao_params p t.params ≡ ok tt)
        × (validate_dao_params p g.params ≡ ok tt → t ≡ g)
  unfolding init_dao_genesis export_dao_genesis
  init_dao_genesis-export bare g k h =
      let c = chosen g.params (validate_dao_params p g.params) refl h in
      (
        record { params = params_to_set p g.params (validate_dao_params p g.params) },
        refl,
        c.0,
        λ v. ap (λ (x : DaoParams). record { params = x }) (c.1 v),
      )

  percent_bounds :
      (percent : ℤ)
      → validate_percent p percent ≡ ok tt
      → (n : ℕ) × (percent ≡ pos n) × (n ≤ dec_one)
  unfolding validate_percent
  percent_bounds (pos n) h = (n, refl, ground arith)
  percent_bounds (negsuc n) h = absurd (cc h)

  valid_percents :
      (params : DaoParams)
      → validate_dao_params p params ≡ ok tt
      → (validate_percent p params.quorum_percent ≡ ok tt)
        × (validate_percent p params.min_yes_threshold_percent ≡ ok tt)
  unfolding validate_dao_params
  valid_percents params h =
      let period = both_ok _ _ h in
      let price = both_ok _ _ period.1 in
      let threshold = both_ok _ _ price.1 in
      let denom =
        both_ok (check (p.denom_valid params.voting_token_denom) invalid_request) _ threshold.1 in
      let reward =
        both_ok
          (validate_reward p params.validator_reward_voting_tokens_amount params.voting_token_denom)
          _ denom.1 in
      let cost = both_ok (validate_price p params.add_tld_proposal_cost) _ reward.1 in
      (cost.1, threshold.0)

  module _ (d : Decimals) (laws : IsDecimals d) where
    -- With parameters that validate, a positive snapshot below 2^255 and decimals that keep their
    -- laws, a proposal for which all the power of the snapshot is voted in favour passes: no valid
    -- quorum or threshold keeps it from passing.
    pub verdict-unanimous :
        (params : DaoParams) (s : ℕ)
        → validate_dao_params p params ≡ ok tt
        → 0 < s
        → s < 2 ^ 255
        → verdict d params
            (pos s)
            (record { yes = pos s; no = pos 0; abstained = pos 0; voted = pos s })
          ≡ passed
    unfolding verdict
    verdict-unanimous params s v m b =
        let (q, is_q, small) = percent_bounds params.quorum_percent (valid_percents params v).0 in
        let (t, is_t, little) =
          percent_bounds params.min_yes_threshold_percent (valid_percents params v).1 in
        let tally : Tally = record { yes = pos s; no = pos 0; abstained = pos 0; voted = pos s } in
        let quorum = (has_quorum-bounds d laws q s s m b b).0 (share_of_all q s small) in
        let threshold =
          (passes_threshold-bounds d laws t s 0 tally refl refl (omega arith) (omega arith)
              (ground arith)).0
            (omega (arith, share_of_all t s little)) in
        rw (is_q, is_t, quorum, threshold) refl
