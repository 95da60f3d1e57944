-- ===== src/Dao/Decay.antt =====
-- `CalculateVoterPower`: what one lot is worth while it decays, and what becomes of it when the
-- decay duration does not fit an int64.
mod Rounding
use native.Mathlib.Nat.{div-mul-le_self, lt-div-mul-add, div-le_of_le-mul, le-div_iff_mul-le}
use dnsblockchain.Prelude.Arith.{times_mono, diff_times}
use dnsblockchain.Prelude.{ℕ, suc, ◌+◌, ◌-◌, ◌*◌, ◌/◌, ◌^◌, ◌<◌, ◌≤◌, ◌≡◌, ap, ◌∙◌, arith}
use dnsblockchain.Prelude.Int.{pos, negsuc, ◌-ℤ◌, ◌*ℤ◌}
use dnsblockchain.Go.Word.{u64_mod, int64}
use dnsblockchain.Dao.External.{Decimals, IsDecimals, dec_one}
use dnsblockchain.Dao.Decay.Rounding.{
  part_le, rest_of_one-le, rest_of_one-lt, share_above, exactly_above, share_below, grown_bounds,
  grown_doubles, doubled, share_rounds, rest_of_one,
}
use dnsblockchain.Dao.Power.{new_dec, remaining_ratio, decayed_power}

new_dec_pos : (a : ℕ) → new_dec (pos a) ≡ pos (a * dec_one)
unfolding ◌*ℤ◌
new_dec_pos a = ground arith

int64_fits : (x : ℕ) → x < 2 ^ 63 → int64 x ≡ pos x
int64_fits x h = ground arith

int64_wraps : (x : ℕ) → 2 ^ 63 ≤ x → x < u64_mod → int64 x ≡ negsuc (u64_mod - 1 - x)
int64_wraps x h b = ground arith

sub_pos : (a b : ℕ) → b ≤ a → pos a -ℤ pos b ≡ pos (a - b)
unfolding ◌-ℤ◌
sub_pos a b h = ground arith

sub_neg : (a b : ℕ) → pos a -ℤ (pos 0 -ℤ pos b) ≡ pos (a + b)
unfolding ◌-ℤ◌
sub_neg a b = ground arith

module _ (d : Decimals) (laws : IsDecimals d) where
  open laws use {quo_int64_pos, quo_int64_neg, mul_whole, truncate_pos}

  decayed_power-ratio :
      (a passed decay r : ℕ)
      → a * r < 2 ^ 315
      → remaining_ratio d passed decay ≡ pos r
      → decayed_power d (pos a) passed decay ≡ pos (a * r / dec_one)
  unfolding decayed_power
  decayed_power-ratio a passed decay r b e =
      ground (arith, e, new_dec_pos a, mul_whole a r b, truncate_pos (a * r))

  remaining_ratio-fits :
      (passed decay : ℕ)
      → passed < decay
      → decay < 2 ^ 63
      → remaining_ratio d passed decay ≡ pos (rest_of_one passed decay)
  remaining_ratio-fits passed decay h b = rw (int64_fits passed (omega arith)) (
      rw (int64_fits decay b) (
        rw (new_dec_pos passed) (
          rw (quo_int64_pos (passed * dec_one) decay (omega arith))
            (sub_pos dec_one (passed * dec_one / decay) (div-le_of_le-mul decay (omega arith))))))

  remaining_ratio-wraps :
      (passed decay : ℕ)
      → passed < 2 ^ 63
      → 2 ^ 63 ≤ decay
      → decay < u64_mod
      → remaining_ratio d passed decay ≡ pos (dec_one + passed * dec_one / (u64_mod - decay))
  remaining_ratio-wraps passed decay h b c = rw (int64_fits passed h) (
      rw (int64_wraps decay b c) (
        rw (new_dec_pos passed) (
          rw (quo_int64_neg (passed * dec_one) (u64_mod - 1 - decay)) (
            sub_neg dec_one (passed * dec_one / suc (u64_mod - 1 - decay))
            ∙ ap (λ (n : ℕ). pos (dec_one + passed * dec_one / n)) (omega arith)))))

  -- A lot of an amount below 2^255 in its decay, where the duration is below 2^63 blocks, is worth
  -- its share of the blocks that are left, up to rounding: at most its amount, less than a whole
  -- number below the share, and at most 10^-18 of its amount above the share. The decimals keep
  -- their laws.
  pub decayed_power-bounds :
      (a passed decay : ℕ)
      → passed < decay
      → decay < 2 ^ 63
      → a < 2 ^ 255
      → (w : ℕ) × (decayed_power d (pos a) passed decay ≡ pos w)
        × (w ≤ a)
        × (a * (decay - passed) < (w + 1) * decay)
        × (w * decay * dec_one ≤ a * (decay - passed) * dec_one + a * decay)
  decayed_power-bounds a passed decay h b c =
      let r = rest_of_one passed decay in
      let e =
        decayed_power-ratio a passed decay r (ground (arith, part_le a r))
          (remaining_ratio-fits passed decay h b) in
      (
        a * r / dec_one,
        e,
        div-le_of_le-mul dec_one (part_le a r (omega arith)),
        share_rounds a r (a * r / dec_one) (decay - passed) decay (rest_of_one-le passed decay h)
            (lt-div-mul-add (omega arith)) (omega arith),
        share_above a r (decay - passed) decay decay (rest_of_one-lt passed decay h),
      )

  -- Where the decay duration is 2^63 blocks or more, fewer than 2^63 blocks have passed and the
  -- product stays below 2^315, a lot in its decay is never worth less than its amount: with m for
  -- 2^64 less the duration, it is worth at most its amount times (m + passed) / m, and less than a
  -- whole number and 10^-18 of the amount below that; after m blocks or more it is worth at least
  -- twice its amount. The decimals keep their laws.
  pub decayed_power-grows :
      (a passed decay : ℕ)
      → passed < 2 ^ 63
      → 2 ^ 63 ≤ decay
      → decay < u64_mod
      → a * (dec_one + passed * dec_one / (u64_mod - decay)) < 2 ^ 315
      → let m = u64_mod - decay in
        (w : ℕ) × (decayed_power d (pos a) passed decay ≡ pos w)
        × (a ≤ w)
        × (w * m ≤ a * (m + passed))
        × (a * (m + passed) * dec_one < (w + 1) * m * dec_one + a * m)
        × (m ≤ passed → 2 * a ≤ w)
  decayed_power-grows a passed decay h b c small =
      let m = u64_mod - decay in
      let r = dec_one + passed * dec_one / m in
      let (most, least) = grown_bounds passed m (omega arith) in
      (
        a * r / dec_one,
        decayed_power-ratio a passed decay r small (remaining_ratio-wraps passed decay h b c),
        (le-div_iff_mul-le (omega arith)).1 (omega arith),
        exactly_above a r (m + passed) m most,
        share_below a r (a * r / dec_one) (m + passed) m m least (lt-div-mul-add (omega arith))
            (omega arith),
        λ late. doubled a r (grown_doubles passed m (omega arith) late),
      )
