-- ===== src/Dao/Tests/Power.antt =====
-- The shares and the decay of voting power at concrete inputs.
use dnsblockchain.Prelude.{ℕ, ◌≡◌, ◌≤◌, ◌<◌, ◌+◌, ◌-◌, ◌*◌, ◌^◌, refl, true, false, some, arith}
use dnsblockchain.Prelude.Int.{pos, ◌+ℤ◌, ◌-ℤ◌, ◌*ℤ◌}
use dnsblockchain.Samples.{sample}
use dnsblockchain.Dao.Types.{passed}
use dnsblockchain.Dao.External.{dec_one}
use dnsblockchain.Dao.Power.{decayed_power}
use dnsblockchain.Dao.Tally.{Tally, has_quorum, verdict}
use dnsblockchain.Dao.Counts.{has_quorum-bounds}
use dnsblockchain.Dao.Decay.{decayed_power-bounds, decayed_power-grows}
use dnsblockchain.Dao.Genesis.{verdict-unanimous}
use dnsblockchain.Dao.Params.{default_params}
use dnsblockchain.Dao.Samples.{sample_decimals, sample_decimals-IsDecimals}
use dnsblockchain.Dao.Tests.{defaults_valid}

has_quorum-bounds_example :
    (334 * 10 ^ 15 * 60 ≤ 40 * dec_one
      → has_quorum sample_decimals (pos (334 * 10 ^ 15)) (pos 40) (pos 60) ≡ some true)
    × (has_quorum sample_decimals (pos (334 * 10 ^ 15)) (pos 40) (pos 60) ≡ some true
        → 334 * 10 ^ 15 * 60 < 40 * dec_one + 60)
    × (40 * dec_one + 60 ≤ 334 * 10 ^ 15 * 60
        → has_quorum sample_decimals (pos (334 * 10 ^ 15)) (pos 40) (pos 60) ≡ some false)
has_quorum-bounds_example =
    has_quorum-bounds sample_decimals sample_decimals-IsDecimals (334 * 10 ^ 15) 40 60 (omega arith)
      (omega arith) (omega arith)

abbrev split_tally : Tally
split_tally = record { yes = pos 30; no = pos 10; abstained = pos 0; voted = pos 40 }

decayed_power-bounds_example :
    (w : ℕ) × (decayed_power sample_decimals (pos 90) 250 1000 ≡ pos w)
    × (w ≤ 90)
    × (90 * (1000 - 250) < (w + 1) * 1000)
    × (w * 1000 * dec_one ≤ 90 * (1000 - 250) * dec_one + 90 * 1000)
decayed_power-bounds_example =
    decayed_power-bounds sample_decimals sample_decimals-IsDecimals 90 250 1000 (omega arith)
      (omega arith) (omega arith)

-- The largest duration, as one would set it to make the decay slow: after 9 blocks a lot of 90 counts
-- as 900.
decayed_power-run : decayed_power sample_decimals (pos 90) 9 (2 ^ 64 - 1) ≡ pos 900
unfolding decayed_power ◌*ℤ◌ ◌-ℤ◌ ◌+ℤ◌
decayed_power-run = refl

decayed_power-grows_example :
    (w : ℕ) × (decayed_power sample_decimals (pos 90) 9 (2 ^ 64 - 1) ≡ pos w)
    × (90 ≤ w)
    × (w * 1 ≤ 90 * (1 + 9))
    × (90 * (1 + 9) * dec_one < (w + 1) * 1 * dec_one + 90 * 1)
    × (1 ≤ 9 → 2 * 90 ≤ w)
decayed_power-grows_example =
    decayed_power-grows sample_decimals sample_decimals-IsDecimals 90 9 (2 ^ 64 - 1) (omega arith)
      (omega arith) (omega arith) (omega arith)

verdict-unanimous_example :
    verdict sample_decimals default_params
      (pos 60)
      (record { yes = pos 60; no = pos 0; abstained = pos 0; voted = pos 60 })
    ≡ passed
verdict-unanimous_example =
    verdict-unanimous sample sample_decimals sample_decimals-IsDecimals default_params 60
      defaults_valid (omega arith) (omega arith)
