-- ===== src/Dao/Distinct.antt =====
-- No two proposals in their voting period have the same content: the duplicate check of
-- `SubmitProposal` (x/dao/keeper/msg_server.go) along a run.
pub mod Runs
use mathlib.Core.Path.{subst}
use dnsblockchain.Prelude.{
  ℕ, ◌≡◌, ◌≢◌, refl, sym, ap, ◌∙◌, Bool, true, false, Option, none, some, [], ◌∷◌, inl, inr, arith,
  any, Bool-cases, if◌then◌else◌, ◌||◌, List,
}
use dnsblockchain.Sdk.{Platform, Context, Ensures, either_way, succeeds, after_gets}
use dnsblockchain.Store.{
  Map, nat_key, text_key, ◌==◌, lookup, lookup-insert, lookup-insert_here, lookup-insert_away,
}
use dnsblockchain.Store.Order.{All-lookup, lookup-cons_cases}
use dnsblockchain.Dao.Types.{
  Proposal, ProposalStatus, voting_period, Any, Content, DaoKeeper, is_voting,
}
use dnsblockchain.Dao.External.{Codec, Decimals, TldRegistry, Unpacked, broken, empty, unpacked}
use dnsblockchain.Dao.Store.{DaoChain}
use dnsblockchain.Dao.Submit.{
  submit_proposal, new_proposal, is_duplicate, has_duplicate, content_of, marshalled, is_broken,
}
use dnsblockchain.Dao.EndBlock.{end_blocker, due_proposals, process_proposals}
use dnsblockchain.Dao.Closing.{IsFinal}
use dnsblockchain.Dao.Opening.{submit_proposal_effect, opened, Submitted}
use dnsblockchain.Dao.Ballot.{vote_effect}
use dnsblockchain.Dao.Frame.{after_get_params}
use dnsblockchain.Dao.Loop.{is_due, Block, process_proposals-Block}
use dnsblockchain.Dao.Reach.{
  IsBook, DaoStep, submitting, voting, ending, DaoReach, start, then_step, DaoReach-IsBook,
}

pub any-lookup :
    (f : ℕ × Proposal → Bool) (i : ℕ) (q : Proposal) (m : Map ℕ Proposal)
    → any f m ≡ false
    → lookup i m ≡ some q
    → f (i, q) ≡ false
unfolding lookup
any-lookup f i q [] h there = absurd (cc there)
any-lookup f i q ((j, w) ∷ m) h there = elim (lookup-cons_cases i j q w m there) [
  | inl (i≡j, w≡q) ↦
      subst (λ (e : ℕ × Proposal). f e ≡ false)
        (ap (λ (x : ℕ). (x, w)) (sym i≡j) ∙ ap (λ (x : Proposal). (i, x)) w≡q) (ground (arith, h))
  | inr (other, later) ↦ any-lookup f i q m (ground (arith, h)) later
]

closed_status : (st : ProposalStatus) → IsFinal st → is_voting st ≡ false
closed_status voting_period h = absurd h
closed_status _ h = refl

pub final_closed : (q : Proposal) → IsFinal q.status → is_voting q.status ≡ false
final_closed q h = closed_status q.status h

module _ (codec : Codec) (g : TldRegistry) (p : Platform) where
  open codec use {unpack_any, marshal_interface}
  open g use {Registry}
  open p use {Bank}

  -- Two proposals in their voting period that unpack, with the same type and the same bytes.
  pub record Twins (q r : Proposal) : Type 0 where
    pub first_open : is_voting q.status ≡ true
    pub second_open : is_voting r.status ≡ true
    pub first_unpacks : is_broken codec g p (unpack_any q.content) ≡ false
    pub second_unpacks : is_broken codec g p (unpack_any r.content) ≡ false
    pub same_type : q.content.type_url ≡ r.content.type_url
    pub same_bytes :
        marshalled codec g p (unpack_any q.content) ≡ marshalled codec g p (unpack_any r.content)

  abbrev pub IsDistinct : DaoKeeper → Type 0
  IsDistinct k =
      (i j : ℕ) (q r : Proposal)
      → i ≢ j
      → lookup i k.proposals ≡ some q
      → lookup j k.proposals ≡ some r
      → Twins q r
      → ⊥

  content-marshalled :
      (u : Unpacked) (content : Content)
      → content_of u ≡ some content
      → marshalled codec g p u ≡ marshal_interface content
  content-marshalled broken content h = absurd (cc h)
  content-marshalled empty content h = absurd (cc h)
  content-marshalled (unpacked c) content h = ap marshal_interface (cc h)

  -- What the check lets through has no twin.
  pub checked :
      (packed : Any) (content : Content) (q old : Proposal)
      → q.content ≡ packed
      → content_of (unpack_any packed) ≡ some content
      → is_duplicate codec g p packed content old ≡ false
      → Twins q old
      → ⊥
  unfolding is_duplicate
  checked packed content q old e h none_alike twins =
      let bytes : marshal_interface content ≡ marshalled codec g p (unpack_any old.content) =
        sym (content-marshalled (unpack_any packed) content h)
        ∙ ap (λ (a : Any). marshalled codec g p (unpack_any a)) (sym e)
        ∙ twins.same_bytes in
      let types : packed.type_url ≡ old.content.type_url =
        ap (λ (a : Any). a.type_url) (sym e) ∙ twins.same_type in
      ground (
        arith,
        none_alike,
        twins.second_open,
        twins.second_unpacks,
        (text_key.beq_iff packed.type_url old.content.type_url).1 types,
        (text_key.beq_iff (marshal_interface content)
              (marshalled codec g p (unpack_any old.content))).1
            bytes,
      )

  swapped : (q r : Proposal) → Twins q r → Twins r q
  swapped q r t = record {
    first_open = t.second_open;
    second_open = t.first_open;
    first_unpacks = t.second_unpacks;
    second_unpacks = t.first_unpacks;
    same_type = sym t.same_type;
    same_bytes = sym t.same_bytes;
  }

  -- One more proposal that has no twin.
  pub opened-IsDistinct :
      (q : Proposal) (id : ℕ) (k : DaoKeeper)
      → IsDistinct k
      → ((i : ℕ) (r : Proposal) → lookup i k.proposals ≡ some r → Twins q r → ⊥)
      → IsDistinct (opened id q k)
  opened-IsDistinct q id k distinct alone i j a b i≢j at_i at_j twins =
      elim (Bool-cases (i == id)) [
        | inl e ↦ elim (Bool-cases (j == id)) [
          | inl f ↦ i≢j ((nat_key.beq_iff i id).0 e ∙ sym ((nat_key.beq_iff j id).0 f))
          | inr f ↦
              alone j b (sym (lookup-insert_away j id q k.proposals f) ∙ at_j)
                (subst (λ x. Twins x b) (cc (lookup-insert_here i id q k.proposals e, at_i)) twins)
        ]
        | inr e ↦ elim (Bool-cases (j == id)) [
          | inl f ↦ alone i a (sym (lookup-insert_away i id q k.proposals e) ∙ at_i) (
              subst (λ x. Twins x a) (cc (lookup-insert_here j id q k.proposals f, at_j))
                (swapped a b twins))
          | inr f ↦
              distinct i j a b i≢j (sym (lookup-insert_away i id q k.proposals e) ∙ at_i)
                (sym (lookup-insert_away j id q k.proposals f) ∙ at_j) twins
        ]
      ]
