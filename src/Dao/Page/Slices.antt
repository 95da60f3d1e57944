-- ===== src/Dao/Page/Slices.antt =====
-- What the paging gives: the part of the list that was asked for, as long as the numbers fit an
-- int64.
use dnsblockchain.Prelude.{
  ℕ, zero, suc, ◌+◌, ◌-◌, ◌*◌, ◌≤◌, ◌<◌, ◌^◌, ◌≡◌, refl, ap, sym, ◌∙◌, List, [], ◌∷◌, ◌++◌, length,
  take, drop, arith, Option, some, length-drop, false,
}
use dnsblockchain.Prelude.Int.{pos}
use dnsblockchain.Go.Word.{int64, add_int64, u64_mod}
use dnsblockchain.Sdk.Paging.{PageRequest, PageResponse}
use dnsblockchain.Dao.Page.{clamp, slice, page_of, limit_of, offset_of}

suc_sum : (m n : ℕ) → suc (m + n) ≡ suc m + n
suc_sum m n = omega arith

no_times : (n : ℕ) → 0 ≡ 0 * n
no_times n = omega arith

suc_times : (m n : ℕ) → n + m * n ≡ suc m * n
suc_times m n = omega arith

module _ {A : Type 0} where
  take_nil : (n : ℕ) → take {A = A} n [] ≡ []
  take_nil zero = refl
  take_nil (suc n) = refl

  take_all : (n : ℕ) (xs : List A) → length xs ≤ n → take n xs ≡ xs
  take_all n [] h = take_nil n
  take_all zero (x ∷ xs) h = absurd (omega arith)
  take_all (suc n) (x ∷ xs) h = ap (λ ys. x ∷ ys) (take_all n xs (omega arith))

  drop_all : (n : ℕ) (xs : List A) → length xs ≤ n → drop n xs ≡ []
  drop_all zero [] h = refl
  drop_all (suc n) [] h = refl
  drop_all zero (x ∷ xs) h = absurd (omega arith)
  drop_all (suc n) (x ∷ xs) h = drop_all n xs (omega arith)

  -- Two cuts that leave everything agree.
  take_enough : (m n : ℕ) (xs : List A) → length xs ≤ m → length xs ≤ n → take m xs ≡ take n xs
  take_enough m n xs a b = take_all m xs a ∙ sym (take_all n xs b)

  slice-clamp :
      (o l : ℕ) (xs : List A)
      → slice (clamp (pos o) (length xs)) (clamp (pos (o + l)) (length xs)) xs ≡ take l (drop o xs)
  unfolding clamp slice
  slice-clamp o l xs = ground (
    arith,
    take_nil l,
    drop_all o xs,
    take_enough (length xs - o) l (drop o xs),
    length-drop o xs,
  )

  take-append : (m n : ℕ) (xs : List A) → take m xs ++ take n (drop m xs) ≡ take (m + n) xs
  take-append zero n xs = ap (λ k. take k xs) (omega arith)
  take-append (suc m) n [] = take_nil n ∙ sym (take_nil (suc m + n))
  take-append (suc m) n (x ∷ xs) =
      ap (λ ys. x ∷ ys) (take-append m n xs) ∙ ap (λ k. take k (x ∷ xs)) (suc_sum m n)

  drop_nil : (n : ℕ) → drop {A = A} n [] ≡ []
  drop_nil zero = refl
  drop_nil (suc n) = refl

  drop-drop : (m n : ℕ) (xs : List A) → drop n (drop m xs) ≡ drop (m + n) xs
  drop-drop zero n xs = ap (λ k. drop k xs) (omega arith)
  drop-drop (suc m) n [] = drop_nil n ∙ sym (drop_nil (suc m + n))
  drop-drop (suc m) n (x ∷ xs) = drop-drop m n xs ∙ ap (λ k. drop k (x ∷ xs)) (suc_sum m n)

int64_small : (n : ℕ) → n < 2 ^ 63 → int64 n ≡ pos n
int64_small n h = ground arith

add_int64_small : (o l : ℕ) → o + l < 2 ^ 63 → add_int64 (pos o) (int64 l) ≡ pos (o + l)
add_int64_small o l h = ground arith

-- The end of a page with a limit that an int64 cannot hold.
add_int64_large :
    (o l : ℕ)
    → o < 2 ^ 63
    → 2 ^ 63 ≤ l
    → l < u64_mod
    → (n : ℕ) → clamp (add_int64 (int64 o) (int64 l)) n ≤ clamp (int64 o) n
unfolding clamp
add_int64_large o l a b c n = ground arith

-- A request for a number of entries from an offset.
abbrev pub page : ℕ → ℕ → Option PageRequest
page offset limit =
    some (record { key = []; offset = offset; limit = limit; count_total = false; reverse = false })

limit_of-page :
    (default_limit from limit : ℕ) → 0 < limit → limit_of default_limit (page from limit) ≡ limit
limit_of-page default_limit from limit p = ground arith

module _ (default_limit : ℕ) {A : Type 0} where
  pub page_of-take :
      (req : Option PageRequest) (xs : List A)
      → offset_of default_limit req + limit_of default_limit req < 2 ^ 63
      → page_of default_limit req xs ≡ (
        take (limit_of default_limit req) (drop (offset_of default_limit req) xs),
        record { next_key = []; total = length xs },
      )
  unfolding page_of
  page_of-take req xs h =
      let o = offset_of default_limit req in
      let l = limit_of default_limit req in
      let size = length xs in
      let whole : PageResponse = record { next_key = []; total = size } in
      ap (λ a. (slice (clamp a size) (clamp (add_int64 a (int64 l)) size) xs, whole))
        (int64_small o (omega arith))
      ∙ ap (λ e. (slice (clamp (pos o) size) (clamp e size) xs, whole)) (add_int64_small o l h)
      ∙ ap (λ ys. (ys, whole)) (slice-clamp o l xs)

  pub page_of-large :
      (req : Option PageRequest) (xs : List A)
      → offset_of default_limit req < 2 ^ 63
      → 2 ^ 63 ≤ limit_of default_limit req
      → limit_of default_limit req < u64_mod
      → page_of default_limit req xs ≡ ([], record { next_key = []; total = length xs })
  unfolding page_of slice
  page_of-large req xs a b c = ground (arith, add_int64_large _ _ a b c (length xs))

  -- The pages of a list, one after another, from an offset.
  abbrev pub pages : ℕ → ℕ → ℕ → List A → List A
  pages zero limit from xs = []
  pages (suc n) limit from xs =
      (page_of default_limit (page from limit) xs).0 ++ pages n limit (from + limit) xs

  page_of-page :
      (limit from : ℕ) (xs : List A)
      → 0 < limit
      → from + limit < 2 ^ 63
      → (page_of default_limit (page from limit) xs).0 ≡ take limit (drop from xs)
  page_of-page limit from xs p h =
      ap (λ r. r.0)
        (page_of-take (page from limit) xs
          (omega (arith, limit_of-page default_limit from limit p, h)))
      ∙ ap (λ l. take l (drop from xs)) (limit_of-page default_limit from limit p)

  pub pages-take :
      (n limit from : ℕ) (xs : List A)
      → 0 < limit
      → from + n * limit < 2 ^ 63
      → pages n limit from xs ≡ take (n * limit) (drop from xs)
  pages-take zero limit from xs p h = ap (λ k. take k (drop from xs)) (no_times limit)
  pages-take (suc n) limit from xs p h =
      ap (λ ys. ys ++ pages n limit (from + limit) xs)
        (page_of-page limit from xs p (omega (arith, suc_times n limit)))
      ∙ ap (λ ys. take limit (drop from xs) ++ ys)
          (pages-take n limit (from + limit) xs p (omega (arith, suc_times n limit))
            ∙ ap (take (n * limit)) (sym (drop-drop from limit xs)))
      ∙ take-append limit (n * limit) (drop from xs)
      ∙ ap (λ k. take k (drop from xs)) (suc_times n limit)

  -- Enough pages give the list.
  pub pages-all :
      (n limit : ℕ) (xs : List A)
      → 0 < limit
      → length xs ≤ n * limit
      → n * limit < 2 ^ 63
      → pages n limit 0 xs ≡ xs
  pages-all n limit xs p enough h =
      pages-take n limit 0 xs p (omega arith) ∙ take_all (n * limit) xs enough
