-- ===== src/Dao/Page.antt =====
-- The paging of lists in memory, which the queries of proposals and of votes spell out
-- (x/dao/keeper/query_proposals.go, query_vote.go): `int` has 64 bits.
pub mod Slices
use dnsblockchain.Prelude.{
  ℕ, ◌-◌, Bool, true, false, Option, none, some, List, [], ltb, leb, length, take, drop, ◌==◌,
  if◌then◌else◌,
}
use dnsblockchain.Prelude.Int.{ℤ, pos, negsuc}
use dnsblockchain.Go.Word.{int64, add_int64}
use dnsblockchain.Sdk.Paging.{PageRequest, PageResponse}

-- A bound below 0 becomes 0, and one above the length the length.
unfoldable pub clamp : ℤ → ℕ → ℕ
clamp (negsuc i) n = 0
clamp (pos i) n = if ltb n i then n else i

-- `xs[start:end]`, empty where `start >= end`.
unfoldable pub slice : {A : Type 0} → ℕ → ℕ → List A → List A
slice i j xs = if leb j i then [] else take (j - i) (drop i xs)

-- `query.DefaultLimit` is an argument.
module _ (default_limit : ℕ) where
  abbrev pub limit_of : Option PageRequest → ℕ
  limit_of none = default_limit
  limit_of (some r) = if r.limit == 0 then default_limit else r.limit

  abbrev pub offset_of : Option PageRequest → ℕ
  offset_of none = 0
  offset_of (some r) = r.offset

  unfoldable pub page_of : {A : Type 0} → Option PageRequest → List A → List A × PageResponse
  page_of req xs =
      let start = int64 (offset_of req) in
      let end = add_int64 start (int64 (limit_of req)) in
      (
        slice (clamp start (length xs)) (clamp end (length xs)) xs,
        record { next_key = []; total = length xs },
      )
