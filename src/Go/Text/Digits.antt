-- ===== src/Go/Text/Digits.antt =====
-- `strconv.Itoa`, and `strings.Split` at a comma.
use dnsblockchain.Prelude.{
  ℕ, zero, suc, ◌+◌, ◌/◌, ◌%◌, ◌*◌, ◌-◌, ◌<◌, ◌≡◌, refl, sym, ap, ◌∙◌, arith, inl, inr, Bool-cases,
  List, [], ◌∷◌, ◌++◌, ltb, ◌==◌, if◌then◌else◌,
}
use dnsblockchain.Prelude.Int.{ℤ, pos, negsuc}
use dnsblockchain.Go.Text.Defs.{Text, push}

abbrev pub comma : ℕ
comma = b','

-- `Split(s, ",")`: never the empty list.
unfoldable pub split_commas : Text → List Text
split_commas [] = [] ∷ []
split_commas (c ∷ s) = if c == comma then [] ∷ split_commas s else push c (split_commas s)

-- The decimal digits, on fuel: a number has fewer digits than its successor counts.
unfoldable pub digits_from : ℕ → ℕ → Text
digits_from zero n = []
digits_from (suc fuel) n =
    let rest = digits_from fuel (n / 10) in
    if ltb n 10 then (b'0' + n) ∷ [] else rest ++ (b'0' + n % 10) ∷ []

abbrev pub digits : ℕ → Text
digits n = digits_from (suc n) n

abbrev pub itoa : ℤ → Text
itoa (pos n) = digits n
itoa (negsuc n) = b'-' ∷ digits (suc n)

-- The number that digits write.
abbrev value_from : ℕ → Text → ℕ
value_from acc [] = acc
value_from acc (c ∷ s) = value_from (acc * 10 + (c - b'0')) s

value_from-append :
    (s t : Text) (acc : ℕ) → value_from acc (s ++ t) ≡ value_from (value_from acc s) t
value_from-append [] t acc = refl
value_from-append (c ∷ s) t acc = value_from-append s t (acc * 10 + (c - b'0'))

digits_from-value : (fuel n : ℕ) → n < fuel → value_from 0 (digits_from fuel n) ≡ n
unfolding digits_from
digits_from-value zero n h = absurd (omega (arith, h))
digits_from-value (suc fuel) n h = elim (Bool-cases (ltb n 10)) [
  | inl small ↦ rw small (omega arith)
  | inr large ↦
      let rest = digits_from-value fuel (n / 10) (ground arith) in
      rw large (
        value_from-append (digits_from fuel (n / 10)) ((b'0' + n % 10) ∷ []) 0
        ∙ omega (arith, rest))
]

-- The fuel is enough: the digits of a number write it.
pub digits-value : (n : ℕ) → value_from 0 (digits n) ≡ n
digits-value n = digits_from-value (suc n) n (omega arith)

pub digits_inj : (m n : ℕ) → digits m ≡ digits n → m ≡ n
digits_inj m n e = sym (digits-value m) ∙ ap (value_from 0) e ∙ digits-value n
