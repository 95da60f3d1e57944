-- ===== src/Dao/Query/Paged.antt =====
-- The paged queries of x/dao, page by page (x/dao/keeper/query_proposals.go, query_vote.go).
use dnsblockchain.Prelude.{
  ℕ, zero, suc, ◌+◌, ◌*◌, ◌≤◌, ◌<◌, ◌^◌, ◌≡◌, refl, ap, ◌∙◌, some, List, [], ◌∷◌, ◌++◌, length,
  if◌then◌else◌, Option,
}
use dnsblockchain.Go.Word.{u64_mod}
use dnsblockchain.Sdk.{Platform, Result, ok, err}
use dnsblockchain.Sdk.Paging.{PageRequest, PageResponse}
use dnsblockchain.Store.{Map, nat_key, text_key, walk_prefix}
use dnsblockchain.Dao.Types.{Proposal, Vote, DaoKeeper}
use dnsblockchain.Dao.Page.Slices.{page, pages, pages-all, page_of-large}
use dnsblockchain.Dao.Page.{limit_of, offset_of, page_of}
use dnsblockchain.Dao.Query.{
  QueryProposalsRequest, QueryProposalsResponse, QueryVotesResponse, matches, filtered_proposals,
  query_proposals, query_votes,
}

abbrev proposals_in : Result QueryProposalsResponse → List Proposal
proposals_in (ok r) = r.proposals
proposals_in (err e) = []

abbrev votes_in : Result QueryVotesResponse → List Vote
votes_in (ok r) = r.votes
votes_in (err e) = []

module _ (default_limit : ℕ) where
  -- The votes that a number of calls give, each from where the last one ended.
  abbrev pub read_votes : ℕ → ℕ → ℕ → ℕ → DaoKeeper → List Vote
  read_votes zero limit from id k = []
  read_votes (suc n) limit from id k =
      votes_in (
        query_votes default_limit (some (record { proposal_id = id; pagination = page from limit }))
          k)
      ++ read_votes n limit (from + limit) id k

  read_votes-pages :
      (n limit from id : ℕ) (k : DaoKeeper)
      → read_votes n limit from id k ≡ pages default_limit n limit from (walk_prefix id k.votes)
  unfolding query_votes
  read_votes-pages zero limit from id k = refl
  read_votes-pages (suc n) limit from id k =
      ap (λ vs. (page_of default_limit (page from limit) (walk_prefix id k.votes)).0 ++ vs)
        (read_votes-pages n limit (from + limit) id k)

  pub read_votes-all :
      (n limit id : ℕ) (k : DaoKeeper)
      → 0 < limit
      → length (walk_prefix id k.votes) ≤ n * limit
      → n * limit < 2 ^ 63
      → read_votes n limit 0 id k ≡ walk_prefix id k.votes
  read_votes-all n limit id k p enough h =
      read_votes-pages n limit 0 id k
      ∙ pages-all default_limit n limit (walk_prefix id k.votes) p enough h

module _ (p : Platform) where
  filtered_proposals-page :
      (req : QueryProposalsRequest) (o : Option PageRequest) (m : Map ℕ Proposal)
      → filtered_proposals p (record req { pagination = o }) m ≡ filtered_proposals p req m
  unfolding filtered_proposals matches
  filtered_proposals-page req o [] = refl
  filtered_proposals-page req o (e ∷ m) =
      ap (λ qs. if matches p req e.1 then e.1 ∷ qs else qs) (filtered_proposals-page req o m)

  module _ (default_limit : ℕ) where
    abbrev pub read_proposals : ℕ → ℕ → ℕ → QueryProposalsRequest → DaoKeeper → List Proposal
    read_proposals zero limit from req k = []
    read_proposals (suc n) limit from req k =
        proposals_in
          (query_proposals p default_limit (some (record req { pagination = page from limit })) k)
        ++ read_proposals n limit (from + limit) req k

    read_proposals-pages :
        (n limit from : ℕ) (req : QueryProposalsRequest) (k : DaoKeeper)
        → read_proposals n limit from req k
          ≡ pages default_limit n limit from (filtered_proposals p req k.proposals)
    unfolding query_proposals
    read_proposals-pages zero limit from req k = refl
    read_proposals-pages (suc n) limit from req k =
        ap
          (λ qs.
            (page_of default_limit (page from limit) qs).0
            ++ read_proposals n limit (from + limit) req k)
          (filtered_proposals-page req (page from limit) k.proposals)
        ∙ ap
            (λ qs.
              (page_of default_limit (page from limit) (filtered_proposals p req k.proposals)).0
              ++ qs)
            (read_proposals-pages n limit (from + limit) req k)

    -- For a positive limit, the pages of Proposals, each requested from where the last one ended,
    -- give one after another all the proposals that match the filter, as soon as there are enough
    -- pages. The pages end below 2^63.
    pub read_proposals-all :
        (n limit : ℕ) (req : QueryProposalsRequest) (k : DaoKeeper)
        → 0 < limit
        → length (filtered_proposals p req k.proposals) ≤ n * limit
        → n * limit < 2 ^ 63
        → read_proposals n limit 0 req k ≡ filtered_proposals p req k.proposals
    read_proposals-all n limit req k some_limit enough h =
        read_proposals-pages n limit 0 req k
        ∙ pages-all default_limit n limit (filtered_proposals p req k.proposals) some_limit enough h

    -- With a limit from 2^63 up to the largest uint64 and an offset below 2^63, Proposals and Votes
    -- return no entry, whatever is stored, and a total that counts all the entries that match.
    pub large_limit-empty :
        (req : QueryProposalsRequest) (id : ℕ) (o : Option PageRequest) (k : DaoKeeper)
        → offset_of default_limit o < 2 ^ 63
        → 2 ^ 63 ≤ limit_of default_limit o
        → limit_of default_limit o < u64_mod
        → (query_proposals p default_limit (some (record req { pagination = o })) k
            ≡ ok (record {
              proposals = [];
              pagination = record {
                next_key = [];
                total = length (filtered_proposals p req k.proposals);
              };
            }))
          × (query_votes default_limit (some (record { proposal_id = id; pagination = o })) k
              ≡ ok (record {
                votes = [];
                pagination = record { next_key = []; total = length (walk_prefix id k.votes) };
              }))
    unfolding query_proposals query_votes
    large_limit-empty req id o k a b c =
        let paged : List Proposal × PageResponse → Result QueryProposalsResponse =
          λ r. ok (record { proposals = r.0; pagination = r.1 }) in
        let voted : List Vote × PageResponse → Result QueryVotesResponse =
          λ r. ok (record { votes = r.0; pagination = r.1 }) in
        (
          ap (λ qs. paged (page_of default_limit o qs)) (filtered_proposals-page req o k.proposals)
              ∙ ap paged
                  (page_of-large default_limit o (filtered_proposals p req k.proposals) a b c),
          ap voted (page_of-large default_limit o (walk_prefix id k.votes) a b c),
        )
