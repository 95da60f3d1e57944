-- ===== src/Sdk/Errors.antt =====
-- The errors that the modules register (x/dnsblockchain/types/errors.go, x/dao/types/errors.go),
-- and those of the SDK and gRPC that they return. Messages are left out.
use dnsblockchain.Prelude.{ℕ}

pub data Error : Type 0 where
  -- x/dnsblockchain
  invalid_signer duplicate_domain_name invalid_tld tld_reserved tld_not_permitted : Error
  invalid_domain_name : Error
  -- x/dao
  invalid_proposal_content proposal_not_found inactive_proposal voting_period_ended : Error
  already_voted no_voting_power duplicate_active_proposal : Error
  -- `sdkerrors`
  invalid_address unauthorized key_not_found invalid_request invalid_coins : Error
  -- `collections.ErrNotFound`, and an error of `fmt.Errorf`
  store_not_found plain : Error
  -- `codes` of gRPC
  invalid_argument not_found internal : Error
  -- an error that the bank module returned, by its code
  bank_error : ℕ → Error

pub data Result {ℓ} (A : Type ℓ) : Type ℓ where
  ok : A → Result A
  err : Error → Result A
