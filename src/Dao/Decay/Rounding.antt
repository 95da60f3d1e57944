-- ===== src/Dao/Decay/Rounding.antt =====
-- The roundings of the decay of a lot, `CalculateVoterPower` (x/dao/keeper/keeper.go).
use native.Mathlib.Nat.{div-mul-le_self, lt-div-mul-add, div-le_of_le-mul, le-div_iff_mul-le}
use dnsblockchain.Prelude.Arith.{times_mono, diff_times}
use dnsblockchain.Prelude.{ℕ, ◌+◌, ◌-◌, ◌*◌, ◌/◌, ◌<◌, ◌≤◌, arith}
use dnsblockchain.Dao.External.{dec_one}

pub part_le : (a r : ℕ) → r ≤ dec_one → a * r ≤ dec_one * a
part_le a r h = ground (arith, times_mono r dec_one a)

-- What is left of one, in units of 10^-18.
abbrev pub rest_of_one : ℕ → ℕ → ℕ
rest_of_one passed decay = dec_one - passed * dec_one / decay

pub rest_of_one-le :
    (passed decay : ℕ)
    → passed < decay
    → (decay - passed) * dec_one ≤ rest_of_one passed decay * decay
rest_of_one-le passed decay p =
    let f = passed * dec_one / decay in
    omega (
      arith,
      div-mul-le_self (passed * dec_one) decay,
      diff_times decay passed dec_one (omega arith),
      diff_times dec_one f decay (div-le_of_le-mul decay (omega arith)),
    )

pub rest_of_one-lt :
    (passed decay : ℕ)
    → passed < decay
    → rest_of_one passed decay * decay ≤ (decay - passed) * dec_one + decay
rest_of_one-lt passed decay p =
    let f = passed * dec_one / decay in
    omega (
      arith,
      lt-div-mul-add {a = passed * dec_one} {b = decay} (omega arith),
      diff_times decay passed dec_one (omega arith),
      diff_times dec_one f decay (div-le_of_le-mul decay (omega arith)),
    )

-- A product rounded down is at most the share, where the factor is.
pub share_above :
    (a r x decay e : ℕ)
    → r * decay ≤ x * dec_one + e
    → a * r / dec_one * decay * dec_one ≤ a * x * dec_one + a * e
share_above a r x decay e h = ground (
  arith,
  times_mono (a * r / dec_one * dec_one) (a * r) decay (div-mul-le_self (a * r) dec_one),
  times_mono (r * decay) (x * dec_one + e) a h,
)

pub exactly_above : (a r x decay : ℕ) → r * decay ≤ x * dec_one → a * r / dec_one * decay ≤ a * x
exactly_above a r x decay h = omega (arith, share_above a r x decay 0 (omega (arith, h)))

-- It is less than a whole number below the share, where the factor is not below it by much.
pub share_below :
    (a r w x decay e : ℕ)
    → x * dec_one ≤ r * decay + e
    → a * r < w * dec_one + dec_one
    → 0 < decay
    → a * x * dec_one < (w + 1) * decay * dec_one + a * e
share_below a r w x decay e h f p = ground (
  arith,
  times_mono (x * dec_one) (r * decay + e) a h,
  times_mono (a * r + 1) (w * dec_one + dec_one) decay (omega arith),
)

-- What the factor becomes where the duration wraps to the negative of m.
abbrev pub grown : ℕ → ℕ → ℕ
grown passed m = dec_one + passed * dec_one / m

pub grown_bounds :
    (passed m : ℕ)
    → 0 < m
    → (grown passed m * m ≤ (m + passed) * dec_one)
      × ((m + passed) * dec_one ≤ grown passed m * m + m)
grown_bounds passed m p =
    ground
      (arith, div-mul-le_self (passed * dec_one) m, lt-div-mul-add {a = passed * dec_one} {b = m} p)

pub grown_doubles : (passed m : ℕ) → 0 < m → m ≤ passed → 2 * dec_one ≤ grown passed m
grown_doubles passed m p h =
    let one : dec_one ≤ passed * dec_one / m =
      (le-div_iff_mul-le p).1 (ground (arith, times_mono m passed dec_one h)) in
    omega (arith, one)

pub doubled : (a r : ℕ) → 2 * dec_one ≤ r → 2 * a ≤ a * r / dec_one
doubled a r h = (le-div_iff_mul-le (omega arith)).1 (ground (arith, times_mono (2 * dec_one) r a h))

pub share_rounds :
    (a r w x decay : ℕ)
    → x * dec_one ≤ r * decay
    → a * r < w * dec_one + dec_one
    → 0 < decay
    → a * x < (w + 1) * decay
share_rounds a r w x decay e f p = ground (
  arith,
  times_mono (x * dec_one) (r * decay) a,
  times_mono (a * r + 1) (w * dec_one + dec_one) decay,
)
