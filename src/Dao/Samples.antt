-- ===== src/Dao/Samples.antt =====
-- A codec, decimals and a TLD registry for the runs and the instances in the tests of x/dao.
use native.Mathlib.Nat.{mul-div_cancel, div-mul-le_self, lt-div-mul-add}
use dnsblockchain.Prelude.{
  ℕ, suc, ◌+◌, ◌*◌, ◌/◌, ◌^◌, ◌<◌, ◌≡◌, refl, ap, ◌∙◌, some, Option, List, [], arith, if◌then◌else◌,
}
use dnsblockchain.Prelude.Int.{ℤ, pos, negsuc, ◌-ℤ◌}
use dnsblockchain.Go.Text.{codes}
use dnsblockchain.Samples.{sample, coins, udns}
use dnsblockchain.Store.{text_key, ◌==◌}
use dnsblockchain.Dao.Agreement.{keeper_registry}
use dnsblockchain.Dao.Types.{
  Any, Content, add_tld, request_tokens, Proposal, DaoParams, voting_period,
}
use dnsblockchain.Dao.External.{
  Codec, Decimals, IsDecimals, Unpacked, broken, unpacked, TldRegistry, dec_one,
}

-- A text as the content that proposes it as a TLD; any other type URL is unknown.
abbrev unpack_sample : Any → Unpacked
unpack_sample a =
    if a.type_url == codes "tld"
    then unpacked (add_tld (record { tld = a.value; description = [] }))
    else broken

abbrev marshal_sample : Content → List ℕ
marshal_sample (add_tld c) = c.tld
marshal_sample (request_tokens c) = c.recipient_address

abbrev pub sample_codec : Codec
sample_codec = record { unpack_any = unpack_sample; marshal_interface = marshal_sample }

abbrev mul_sample : ℤ → ℤ → ℤ
mul_sample (pos a) (pos b) = pos (a * b / dec_one)
mul_sample (pos a) (negsuc b) = pos 0 -ℤ pos (a * suc b / dec_one)
mul_sample (negsuc a) (pos b) = pos 0 -ℤ pos (suc a * b / dec_one)
mul_sample (negsuc a) (negsuc b) = pos (suc a * suc b / dec_one)

abbrev over_sample : ℕ → ℤ → ℤ → ℤ
over_sample unit (pos a) (pos b) = pos (a * unit / b)
over_sample unit (pos a) (negsuc b) = pos 0 -ℤ pos (a * unit / suc b)
over_sample unit (negsuc a) (pos b) = pos 0 -ℤ pos (suc a * unit / b)
over_sample unit (negsuc a) (negsuc b) = pos (suc a * unit / suc b)

abbrev truncate_sample : ℤ → ℤ
truncate_sample (pos a) = pos (a / dec_one)
truncate_sample (negsuc a) = pos 0 -ℤ pos (suc a / dec_one)

abbrev from_text_sample : ℤ → Option ℤ
from_text_sample (pos a) = some (pos (a * dec_one))
from_text_sample (negsuc a) = some (pos 0 -ℤ pos (suc a * dec_one))

abbrev pub sample_decimals : Decimals
sample_decimals = record {
  mul = mul_sample;
  quo = over_sample dec_one;
  quo_int64 = over_sample 1;
  truncate_int = truncate_sample;
  from_text = from_text_sample;
}

times_one : (a : ℕ) → a * 1 ≡ a
times_one a = omega arith

whole_product : (a r : ℕ) → a * dec_one * r / dec_one ≡ a * r
whole_product a r =
    ap (λ (n : ℕ). n / dec_one) (omega arith) ∙ mul-div_cancel (a * r) {n = dec_one} (omega arith)

whole_quotient :
    (a b : ℕ)
    → 0 < b
    → (q : ℕ) × (pos (a * dec_one * dec_one / (b * dec_one)) ≡ pos q)
      × (q * b < a * dec_one + b)
      × (a * dec_one < q * b + b)
whole_quotient a b p =
    let q = a * dec_one * dec_one / (b * dec_one) in
    (
      q,
      refl,
      omega (arith, div-mul-le_self (a * dec_one * dec_one) (b * dec_one)),
      omega (arith, lt-div-mul-add {a = a * dec_one * dec_one} {b = b * dec_one} (omega arith)),
    )

pub sample_decimals-IsDecimals : IsDecimals sample_decimals
sample_decimals-IsDecimals = record {
  quo_int64_pos = λ a b p. ap (λ (n : ℕ). pos (n / b)) (times_one a);
  quo_int64_neg = λ a b. ap (λ (n : ℕ). pos 0 -ℤ pos (n / suc b)) (times_one a);
  mul_whole = λ a r h. ap pos (whole_product a r);
  truncate_pos = λ a. refl;
  quo_whole = λ a b p h. whole_quotient a b p;
  from_text_whole = λ a h. refl;
}

-- The registry that x/dnsblockchain implements.
abbrev pub dns_registry : TldRegistry
dns_registry = keeper_registry sample.lower

abbrev pub dao_params : DaoParams
dao_params = record {
  voting_period_blocks = 50;
  proposal_submission_deposit = coins 5;
  quorum_percent = pos (334 * 10 ^ 15);
  min_yes_threshold_percent = pos (500 * 10 ^ 15);
  voting_token_denom = udns;
  voting_power_decay_duration_blocks = 1000;
  validator_reward_voting_tokens_amount = record { denom = udns; amount = pos 1 };
  add_tld_proposal_cost = coins 9;
}

-- A proposal whose voting period ends at a block.
abbrev pub proposal_until : ℕ → Proposal
proposal_until end = record {
  id = 7;
  proposer = codes "alice";
  title = codes "t";
  description = [];
  content = record { type_url = codes "tld"; value = codes "moon" };
  status = voting_period;
  submit_block = 10;
  voting_start_block = 10;
  voting_end_block = end;
  yes_votes = pos 0;
  no_votes = pos 0;
  abstain_votes = pos 0;
  total_voting_power_at_snapshot = pos 60;
}
