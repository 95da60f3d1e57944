-- ===== src/Sdk/Paging.antt =====
-- The paging requests and responses of the SDK (`query.PageRequest`, `query.PageResponse`).
use dnsblockchain.Prelude.{ℕ, Bool, List}

pub record PageRequest : Type 0 where
  pub key : List ℕ
  pub offset : ℕ
  pub limit : ℕ
  pub count_total : Bool
  pub reverse : Bool

pub record PageResponse : Type 0 where
  pub next_key : List ℕ
  pub total : ℕ
