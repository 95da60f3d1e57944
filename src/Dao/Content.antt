-- ===== src/Dao/Content.antt =====
-- `ValidateBasic` of the proposal contents (x/dao/types/proposal_content.go).
use dnsblockchain.Prelude.{
  ℕ, Bool, false, not, ◌&&◌, ◌||◌, none, some, [], ◌∷◌, ltb, leb, length, ◌==◌,
}
use dnsblockchain.Go.Text.{Text, is_empty, byte_len}
use dnsblockchain.Sdk.{
  Platform, Result, ok, err, check, and_then, invalid_request, invalid_address, invalid_coins,
}
use dnsblockchain.Dao.Types.{AddTld, RequestTokens, Content, add_tld, request_tokens}

abbrev pub is_alnum : ℕ → Bool
is_alnum c = leb b'a' c && leb c b'z' || leb b'A' c && leb c b'Z' || leb b'0' c && leb c b'9'

abbrev pub is_alnum_or_hyphen : ℕ → Bool
is_alnum_or_hyphen c = is_alnum c || c == b'-'

-- `[a-zA-Z0-9-]{0,61}[a-zA-Z0-9]`: the last code point is no hyphen.
unfoldable pub matches_tail : Text → Bool
matches_tail [] = false
matches_tail (c ∷ []) = is_alnum c
matches_tail (c ∷ d ∷ s) = is_alnum_or_hyphen c && matches_tail (d ∷ s)

-- `^[a-zA-Z0-9](?:[a-zA-Z0-9-]{0,61}[a-zA-Z0-9])?$`.
unfoldable pub matches_tld : Text → Bool
matches_tld [] = false
matches_tld (c ∷ []) = is_alnum c
matches_tld (c ∷ d ∷ s) = is_alnum c && leb (length s) 61 && matches_tail (d ∷ s)

unfoldable pub validate_add_tld : AddTld → Result (Unit {0})
validate_add_tld m = and_then (check (not (is_empty m.tld)) invalid_request) (
    and_then (check (not (ltb (byte_len m.tld) 2 || ltb 63 (byte_len m.tld))) invalid_request)
      (check (matches_tld m.tld) invalid_request))

module _ (p : Platform) where
  open p use {bech32, coins_valid, coins_positive}

  unfoldable pub validate_request_tokens : RequestTokens → Result (Unit {0})
  validate_request_tokens m =
      and_then (elim (bech32 m.recipient_address) [ none ↦ err invalid_address | some _ ↦ ok tt ])
        (and_then (check (coins_valid m.amount_requested) invalid_coins) (
          and_then (check (coins_positive m.amount_requested) invalid_coins)
            (check (not (is_empty m.activity_description)) invalid_request)))

  unfoldable pub validate_content : Content → Result (Unit {0})
  validate_content (add_tld m) = validate_add_tld m
  validate_content (request_tokens m) = validate_request_tokens m
