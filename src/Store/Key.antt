-- ===== src/Store/Key.antt =====
-- Keys of a store: an equality test and the strict order of their encodings.
use dnsblockchain.Prelude.{
  ℕ, ◌≡◌, refl, ◌↔◌, Bool, true, false, ◌&&◌, ◌||◌, List, [], ◌∷◌, arith, ltb, ◌==◌ as nat_beq,
  ==_iff,
}

pub record Key {ℓ} (K : Type ℓ) : Type ℓ where
  pub beq : K → K → Bool
  pub beq_iff : (a b : K) → (beq a b ≡ true) ↔ (a ≡ b)
  pub lt : K → K → Bool
  pub lt_irrefl : (a : K) → lt a a ≡ false
  pub lt_trans : (a b c : K) → lt a b ≡ true → lt b c ≡ true → lt a c ≡ true
  pub lt_total : (a b : K) → beq a b ≡ false → lt a b ≡ false → lt b a ≡ true

infix 50 ◌==◌
abbrev pub ◌==◌ {ℓ} : {K : Type ℓ} ⦃e : Key K⦄ → K → K → Bool
◌==◌ ⦃e⦄ = e.beq

pub nat_lt_irrefl : (a : ℕ) → ltb a a ≡ false
nat_lt_irrefl a = ground arith

pub nat_lt_trans : (a b c : ℕ) → ltb a b ≡ true → ltb b c ≡ true → ltb a c ≡ true
nat_lt_trans a b c h k = ground arith

pub nat_lt_total : (a b : ℕ) → nat_beq a b ≡ false → ltb a b ≡ false → ltb b a ≡ true
nat_lt_total a b h k = ground arith

instance abbrev pub nat_key : Key ℕ
nat_key = record {
  beq = nat_beq;
  beq_iff = ==_iff;
  lt = ltb;
  lt_irrefl = nat_lt_irrefl;
  lt_trans = nat_lt_trans;
  lt_total = nat_lt_total;
}

-- Texts and addresses: lists of numbers, in lexicographic order.
abbrev pub text_beq : List ℕ → List ℕ → Bool
text_beq [] [] = true
text_beq [] (b ∷ t) = false
text_beq (a ∷ s) [] = false
text_beq (a ∷ s) (b ∷ t) = nat_beq a b && text_beq s t

abbrev pub text_lt : List ℕ → List ℕ → Bool
text_lt [] [] = false
text_lt [] (b ∷ t) = true
text_lt (a ∷ s) [] = false
text_lt (a ∷ s) (b ∷ t) = ltb a b || nat_beq a b && text_lt s t

text_beq→eq : (s t : List ℕ) → text_beq s t ≡ true → s ≡ t
text_beq→eq [] [] h = refl
text_beq→eq [] (b ∷ t) h = ground arith
text_beq→eq (a ∷ s) [] h = ground arith
text_beq→eq (a ∷ s) (b ∷ t) h = ground (arith, text_beq→eq s t)

text_beq_refl : (s : List ℕ) → text_beq s s ≡ true
text_beq_refl [] = refl
text_beq_refl (a ∷ s) = ground (arith, text_beq_refl s)

pub text_beq_iff : (s t : List ℕ) → (text_beq s t ≡ true) ↔ (s ≡ t)
text_beq_iff s t = (text_beq→eq s t, λ e. ground (arith, text_beq_refl s))

pub text_lt_irrefl : (s : List ℕ) → text_lt s s ≡ false
text_lt_irrefl [] = refl
text_lt_irrefl (a ∷ s) = ground (arith, text_lt_irrefl s)

pub text_lt_trans : (r s t : List ℕ) → text_lt r s ≡ true → text_lt s t ≡ true → text_lt r t ≡ true
text_lt_trans [] [] t h k = k
text_lt_trans [] (b ∷ s) [] h k = k
text_lt_trans [] (b ∷ s) (c ∷ t) h k = refl
text_lt_trans (a ∷ r) [] t h k = ground arith
text_lt_trans (a ∷ r) (b ∷ s) [] h k = k
text_lt_trans (a ∷ r) (b ∷ s) (c ∷ t) h k = ground (arith, text_lt_trans r s t)

pub text_lt_total : (s t : List ℕ) → text_beq s t ≡ false → text_lt s t ≡ false → text_lt t s ≡ true
text_lt_total [] [] h k = ground arith
text_lt_total [] (b ∷ t) h k = ground arith
text_lt_total (a ∷ s) [] h k = refl
text_lt_total (a ∷ s) (b ∷ t) h k = ground (arith, text_lt_total s t)

instance abbrev pub text_key : Key (List ℕ)
text_key = record {
  beq = text_beq;
  beq_iff = text_beq_iff;
  lt = text_lt;
  lt_irrefl = text_lt_irrefl;
  lt_trans = text_lt_trans;
  lt_total = text_lt_total;
}

-- `collections.Pair`: the first part decides, then the second.
module _ {A B : Type 0} ⦃a : Key A⦄ ⦃b : Key B⦄ where
  abbrev pub pair_beq : A × B → A × B → Bool
  pair_beq (x, y) (x', y') = a.beq x x' && b.beq y y'

  abbrev pub pair_lt : A × B → A × B → Bool
  pair_lt (x, y) (x', y') = a.lt x x' || a.beq x x' && b.lt y y'

  pub pair_beq_iff : (p q : A × B) → (pair_beq p q ≡ true) ↔ (p ≡ q)
  pair_beq_iff (x, y) (x', y') = ground (arith, a.beq_iff x x', b.beq_iff y y')

  pub pair_lt_irrefl : (p : A × B) → pair_lt p p ≡ false
  pair_lt_irrefl (x, y) = ground (arith, a.lt_irrefl x, b.lt_irrefl y)

  pub pair_lt_trans : (p q r : A × B) → pair_lt p q ≡ true → pair_lt q r ≡ true → pair_lt p r ≡ true
  pair_lt_trans (x, y) (x', y') (z, w) h k =
      ground
        (arith, a.lt_trans x x' z, b.lt_trans y y' w, a.beq_iff x x', a.beq_iff x' z, a.beq_iff x z)

  pub pair_lt_total :
      (p q : A × B) → pair_beq p q ≡ false → pair_lt p q ≡ false → pair_lt q p ≡ true
  pair_lt_total (x, y) (x', y') h k =
      ground (arith, a.lt_total x x', b.lt_total y y', a.beq_iff x x', a.beq_iff x' x)

  instance abbrev pub pair_key : Key (A × B)
  pair_key = record {
    beq = pair_beq;
    beq_iff = pair_beq_iff;
    lt = pair_lt;
    lt_irrefl = pair_lt_irrefl;
    lt_trans = pair_lt_trans;
    lt_total = pair_lt_total;
  }
