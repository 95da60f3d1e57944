-- ===== src/Dns/Permitted.antt =====
-- The keeper's own methods on the permitted TLDs (x/dnsblockchain/keeper/keeper.go).
use dnsblockchain.Prelude.{ℕ, Bool, false, ◌||◌, ltb, if◌then◌else◌}
use dnsblockchain.Go.Text.{Text, is_empty, has_dot, byte_len}
use dnsblockchain.Go.Text.Normal.{normal_tld}
use dnsblockchain.Sdk.{Result, ok, err, tld_reserved, invalid_tld}
use dnsblockchain.Store.{text_key, has, insert}
use dnsblockchain.Dns.Tld.{is_reserved_tld}
use dnsblockchain.Dns.Types.{Keeper}

module _ (lower : ℕ → ℕ) where
  unfoldable pub is_tld_globally_reserved : Text → Bool
  is_tld_globally_reserved tld = is_reserved_tld lower tld

  unfoldable pub is_tld_permitted : Text → Keeper → Bool
  is_tld_permitted tld k =
      let t = normal_tld lower tld in if is_empty t then false else has t k.permitted_tlds

  -- The checks of `AddPermittedTLD`, on the normalised TLD, and the write.
  unfoldable pub add_normal_tld : Text → Keeper → Result (Unit {0}) × Keeper
  unfolding is_tld_globally_reserved
  add_normal_tld t k =
      if is_tld_globally_reserved t
      then (err tld_reserved, k)
      else if is_empty t
      then (err invalid_tld, k)
      else if has_dot t
      then (err invalid_tld, k)
      else if ltb 63 (byte_len t) || ltb (byte_len t) 2
      then (err invalid_tld, k)
      else if has t k.permitted_tlds
      then (err invalid_tld, k)
      else (ok tt, record k { permitted_tlds = insert t tt k.permitted_tlds })

  unfoldable pub add_permitted_tld : Text → Keeper → Result (Unit {0}) × Keeper
  unfolding add_normal_tld
  add_permitted_tld tld k = add_normal_tld (normal_tld lower tld) k
