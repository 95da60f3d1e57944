-- ===== src/Go/Word.antt =====
-- Go's uint64 arithmetic, and its conversion to int64.
use dnsblockchain.Prelude.{ℕ, ◌+◌, ◌-◌, ◌%◌, ◌^◌, ltb, if◌then◌else◌}
use dnsblockchain.Prelude.Int.{ℤ, pos, negsuc}

abbrev pub u64_mod : ℕ
u64_mod = 2 ^ 64

-- `a + b` and `a - b` on uint64.
abbrev pub add64 : ℕ → ℕ → ℕ
add64 a b = (a + b) % u64_mod

abbrev pub sub64 : ℕ → ℕ → ℕ
sub64 a b = (a + u64_mod - b) % u64_mod

-- `int64(x)` of a uint64: the upper half of the range becomes negative.
abbrev pub int64 : ℕ → ℤ
int64 x = if ltb x (2 ^ 63) then pos x else negsuc (u64_mod - 1 - x)

-- The bits of an int64, and `a + b` on int64.
abbrev pub uint64 : ℤ → ℕ
uint64 (pos n) = n % u64_mod
uint64 (negsuc n) = u64_mod - 1 - n % u64_mod

abbrev pub add_int64 : ℤ → ℤ → ℤ
add_int64 a b = int64 (add64 (uint64 a) (uint64 b))
