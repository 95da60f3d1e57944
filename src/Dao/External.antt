-- ===== src/Dao/External.antt =====
-- What x/dao calls and does not implement: the codec of packed contents, the decimals of
-- cosmossdk.io/math, and the TLD registry, which x/dnsblockchain implements.
use dnsblockchain.Prelude.{ℕ, suc, ◌+◌, ◌*◌, ◌/◌, ◌^◌, ◌<◌, ◌≡◌, Bool, Option, some, List}
use dnsblockchain.Prelude.Int.{ℤ, pos, negsuc, ◌-ℤ◌}
use dnsblockchain.Go.Text.{Text}
use dnsblockchain.Sdk.{Result}
use dnsblockchain.Dao.Types.{Any, Content}

-- `UnpackAny` fails, or finds no content (an empty type URL leaves a nil interface), or a content.
pub data Unpacked : Type 0 where
  broken empty : Unpacked
  unpacked : Content → Unpacked

pub record Codec : Type 0 where
  pub unpack_any : Any → Unpacked
  pub marshal_interface : Content → List ℕ

-- One, as a decimal: `LegacyDec` counts units of 10^-18.
abbrev pub dec_one : ℕ
dec_one = 10 ^ 18

-- `Mul`, `Quo`, `QuoInt64` and `TruncateInt` of `LegacyDec`, and `LegacyNewDecFromStr` of the
-- digits of an integer.
pub record Decimals : Type 0 where
  pub mul : ℤ → ℤ → ℤ
  pub quo : ℤ → ℤ → ℤ
  pub quo_int64 : ℤ → ℤ → ℤ
  pub truncate_int : ℤ → ℤ
  pub from_text : ℤ → Option ℤ

-- What is relied on: `QuoInt64` and `TruncateInt` round towards zero, a product with a whole number
-- is exact, `Quo` of whole numbers rounds to the unit below or above, and every 255-bit integer is a
-- decimal. The bounds keep the results within the 316 bits that a `LegacyDec` may have.
pub record IsDecimals (d : Decimals) : Type 0 where
  pub quo_int64_pos : (a b : ℕ) → 0 < b → d.quo_int64 (pos a) (pos b) ≡ pos (a / b)
  pub quo_int64_neg : (a b : ℕ) → d.quo_int64 (pos a) (negsuc b) ≡ pos 0 -ℤ pos (a / suc b)
  pub mul_whole : (a r : ℕ) → a * r < 2 ^ 315 → d.mul (pos (a * dec_one)) (pos r) ≡ pos (a * r)
  pub truncate_pos : (a : ℕ) → d.truncate_int (pos a) ≡ pos (a / dec_one)
  pub quo_whole :
      (a b : ℕ)
      → 0 < b
      → a < 2 ^ 255
      → (q : ℕ) × (d.quo (pos (a * dec_one)) (pos (b * dec_one)) ≡ pos q)
        × (q * b < a * dec_one + b)
        × (a * dec_one < q * b + b)
  pub from_text_whole : (a : ℕ) → a < 2 ^ 255 → d.from_text (pos a) ≡ some (pos (a * dec_one))

-- The interface `DnsblockchainKeeper`, over the stores of that keeper.
pub record TldRegistry : Type 1 where
  pub Registry : Type 0
  pub add_permitted_tld : Text → Registry → Result (Unit {0}) × Registry
  pub is_tld_permitted : Text → Registry → Bool
  pub is_tld_globally_reserved : Text → Bool
