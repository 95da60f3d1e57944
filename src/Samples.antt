-- ===== src/Samples.antt =====
-- A concrete platform and small values, for the runs and the instances in the test modules.
use dnsblockchain.Prelude.{
  ℕ, ◌+◌, ◌-◌, ◌≤◌, ◌≡◌, ◌≢◌, refl, not, none, some, [], ◌∷◌, all, any, arith, ltb, if◌then◌else◌,
}
use dnsblockchain.Prelude.Int.{pos, is_zero, is_positive, is_negative, pos_part}
use dnsblockchain.Go.Text.{Text, codes, dot, is_empty, to_lower_rune, IsLowering}
use dnsblockchain.Sdk.{Platform, Coins, Context, Result, ok, err, bank_error}

abbrev pub udns : Text
udns = codes "udns"

abbrev pub coins : ℕ → Coins
coins n = record { denom = udns; amount = pos n } ∷ []

abbrev pub worth : Coins → ℕ
worth [] = 0
worth (c ∷ cs) = pos_part c.amount + worth cs

-- A bank with one account, whose balance is a number of udns.
abbrev pub take_coins : Coins → ℕ → Result (Unit {0}) × ℕ
take_coins cs b = if ltb b (worth cs) then (err (bank_error 5), b) else (ok tt, b - worth cs)

abbrev pub sample : Platform
sample = record {
  lower = λ c. c;
  address = λ t. if is_empty t then none else some t;
  bech32 = λ t. if is_empty t then none else some t;
  coins_zero = all (λ c. is_zero c.amount);
  coins_valid = all (λ c. is_positive c.amount);
  coins_positive = λ cs. all (λ c. is_positive c.amount) cs;
  coins_negative = any (λ c. is_negative c.amount);
  coin_valid = λ c. not (is_negative c.amount);
  denom_valid = λ d. not (is_empty d);
  Bank = ℕ;
  send_to_module = λ a m cs b. take_coins cs b;
  send_to_account = λ m a cs b. (ok tt, b + worth cs);
  mint_coins = λ m cs b. (ok tt, b);
  burn_coins = λ m cs b. (ok tt, b);
  balance = λ b a d. pos b;
  supply = λ b d. pos b;
}

pub ascii_idem : (c : ℕ) → 0x80 ≤ c → to_lower_rune (λ x. x) c ≡ c
ascii_idem c h = ground arith

pub ascii_dot : (c : ℕ) → 0x80 ≤ c → c ≢ dot
ascii_dot c h = omega arith

abbrev pub ascii : IsLowering sample.lower
ascii = record {
  idem = λ c h. ascii_idem c h;
  dot_stays = λ c h. ascii_dot c h;
  space_stays = λ c h. refl;
}

abbrev pub now : Context
now = record { height = 100; time = 1700000000 }
