-- ===== src/Prelude/Arith.antt =====
-- Products and orders of numbers.
use Prim.Native.Nat.{ℕ, zero, suc, ◌+◌, ◌-◌, ◌*◌, ◌≤◌}
use mathlib.Core.Path.{◌≡◌, ap, ◌∙◌}
use native.Mathlib.Omega.{arith}

pub times_mono : (q x s : ℕ) → q ≤ x → q * s ≤ x * s
times_mono zero x s h = ground arith
times_mono (suc q) zero s h = ground arith
times_mono (suc q) (suc x) s h = ground (arith, times_mono q x s)

sum_times : (x y c : ℕ) → x * c + y * c ≡ (x + y) * c
sum_times x y c = omega arith

pub diff_times : (a b c : ℕ) → b ≤ a → (a - b) * c + b * c ≡ a * c
diff_times a b c h = sum_times (a - b) b c ∙ ap (λ (n : ℕ). n * c) (omega arith)
