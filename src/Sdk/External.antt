-- ===== src/Sdk/External.antt =====
-- The code that both modules call and that is not part of the repository: the address codec, the
-- coins of the SDK, the bank keeper, and the Unicode case mapping behind `strings.ToLower`.
use dnsblockchain.Prelude.{ℕ, Bool, Option, List}
use dnsblockchain.Prelude.Int.{ℤ}
use dnsblockchain.Go.Text.{Text}
use dnsblockchain.Sdk.Errors.{Result}

-- The bytes of an account's address.
abbrev pub Address : Type 0
Address = List ℕ

pub record Coin : Type 0 where
  pub denom : Text
  pub amount : ℤ

abbrev pub Coins : Type 0
Coins = List Coin

-- The block in which a message is handled: its height, and its time in Unix seconds.
pub record Context : Type 0 where
  pub height : ℕ
  pub time : ℕ

pub record Platform : Type 1 where
  -- `strings.ToLower` of a code point above U+007F
  pub lower : ℕ → ℕ
  -- `addressCodec.StringToBytes` and `sdk.AccAddressFromBech32`
  pub address : Text → Option Address
  pub bech32 : Text → Option Address
  -- `Coins.IsZero`, `Coins.Validate`, `Coins.IsAllPositive`, `Coins.IsAnyNegative`,
  -- `Coin.Validate` and `sdk.ValidateDenom`
  pub coins_zero : Coins → Bool
  pub coins_valid : Coins → Bool
  pub coins_positive : Coins → Bool
  pub coins_negative : Coins → Bool
  pub coin_valid : Coin → Bool
  pub denom_valid : Text → Bool
  -- the bank module; a call that fails may have changed its store
  pub Bank : Type 0
  pub send_to_module : Address → Text → Coins → Bank → Result (Unit {0}) × Bank
  pub send_to_account : Text → Address → Coins → Bank → Result (Unit {0}) × Bank
  pub mint_coins : Text → Coins → Bank → Result (Unit {0}) × Bank
  pub burn_coins : Text → Coins → Bank → Result (Unit {0}) × Bank
  pub balance : Bank → Address → Text → ℤ
  pub supply : Bank → Text → ℤ
