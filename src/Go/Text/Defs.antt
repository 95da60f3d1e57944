-- ===== src/Go/Text/Defs.antt =====
-- The functions of package strings, as far as the program calls them.
use Prim.Native.Char.{code}
use Prim.Native.String.{String}
use dnsblockchain.Prelude.{
  ℕ, ◌+◌, ◌≢◌, ◌≡◌, ◌≤◌, Bool, true, false, ◌&&◌, ◌||◌, List, [], ◌∷◌, map, any, ltb, leb, ◌==◌,
  if◌then◌else◌,
}

abbrev pub Text : Type 0
Text = List ℕ

-- The code points of a literal.
abbrev pub codes : String → Text
codes String.[] = []
codes (String.◌∷◌ c s) = code c ∷ codes s

abbrev pub dot : ℕ
dot = b'.'

abbrev pub is_dot : ℕ → Bool
is_dot c = c == dot

-- `unicode.IsSpace`.
abbrev pub is_space : ℕ → Bool
is_space c =
    leb 9 c && leb c 13
    || c == 32
    || c == 0x85
    || c == 0xa0
    || c == 0x1680
    || leb 0x2000 c && leb c 0x200a
    || c == 0x2028
    || c == 0x2029
    || c == 0x202f
    || c == 0x205f
    || c == 0x3000

-- `TrimLeft` and `TrimRight` by a test on code points.
unfoldable pub trim_left : (ℕ → Bool) → Text → Text
trim_left p [] = []
trim_left p (c ∷ s) = if p c then trim_left p s else c ∷ s

abbrev pub keep_or_drop : (ℕ → Bool) → ℕ → Text → Text
keep_or_drop p c [] = if p c then [] else c ∷ []
keep_or_drop p c (d ∷ s) = c ∷ d ∷ s

unfoldable pub trim_right : (ℕ → Bool) → Text → Text
trim_right p [] = []
trim_right p (c ∷ s) = keep_or_drop p c (trim_right p s)

-- `Trim(s, ".")` and `TrimSpace(s)`.
unfoldable pub trim_dots : Text → Text
unfolding trim_left trim_right
trim_dots s = trim_right is_dot (trim_left is_dot s)

unfoldable pub trim_space : Text → Text
unfolding trim_left trim_right
trim_space s = trim_right is_space (trim_left is_space s)

-- `Split(s, ".")`: never the empty list.
abbrev pub push : ℕ → List Text → List Text
push c [] = (c ∷ []) ∷ []
push c (p ∷ ps) = (c ∷ p) ∷ ps

unfoldable pub split_dots : Text → List Text
split_dots [] = [] ∷ []
split_dots (c ∷ s) = if is_dot c then [] ∷ split_dots s else push c (split_dots s)

-- `Contains(s, ".")`.
abbrev pub has_dot : Text → Bool
has_dot s = any is_dot s

-- `s == ""`.
abbrev pub is_empty : Text → Bool
is_empty [] = true
is_empty (c ∷ s) = false

-- `len(s)`: the bytes of the UTF-8 encoding.
abbrev pub rune_len : ℕ → ℕ
rune_len c = if ltb c 0x80 then 1 else if ltb c 0x800 then 2 else if ltb c 0x10000 then 3 else 4

abbrev pub byte_len : Text → ℕ
byte_len [] = 0
byte_len (c ∷ s) = rune_len c + byte_len s

-- `unicode.ToLower`, with the mapping of the code points above U+007F.
module _ (lower : ℕ → ℕ) where
  abbrev pub to_lower_rune : ℕ → ℕ
  to_lower_rune c = if ltb c 0x80 then (if leb b'A' c && leb c b'Z' then c + 32 else c) else lower c

  unfoldable pub to_lower : Text → Text
  to_lower s = map to_lower_rune s

  -- What the program relies on: no second lower-casing changes anything, and no code point
  -- becomes a dot or white space, unless it was one.
  pub record IsLowering : Type 0 where
    pub idem : (c : ℕ) → 0x80 ≤ c → to_lower_rune (lower c) ≡ lower c
    pub dot_stays : (c : ℕ) → 0x80 ≤ c → lower c ≢ dot
    pub space_stays : (c : ℕ) → 0x80 ≤ c → is_space (lower c) ≡ is_space c
