-- ===== src/Dns/Msg/Checks.antt =====
-- The checks that several handlers make.
use dnsblockchain.Prelude.{Bool, true, false, not, Option, none, some, [], ◌∷◌, all}
use dnsblockchain.Go.Net.{parse_ip}
use dnsblockchain.Go.Text.{trim_space, is_empty}
use dnsblockchain.Sdk.{
  Handler, Result, ok, invalid_request, check, and_then, or_fail, store_not_found,
}
use dnsblockchain.Dns.Types.{NsRecord, NsRecords, Chain, Params}

-- `len(records) == 0`.
abbrev pub is_nil : NsRecords → Bool
is_nil [] = true
is_nil (r ∷ rs) = false

-- One entry of `NsRecords`: every failure is an `ErrInvalidRequest`.
unfoldable pub check_ns_record : Option NsRecord → Result (Unit {0})
check_ns_record none = check false invalid_request
check_ns_record (some r) = and_then (check (not (is_empty (trim_space r.name))) invalid_request) (
    and_then (check (all parse_ip r.ipv4_addresses) invalid_request)
      (check (all parse_ip r.ipv6_addresses) invalid_request))

unfoldable pub check_ns_records : NsRecords → Result (Unit {0})
check_ns_records [] = ok tt
check_ns_records (r ∷ rs) = and_then (check_ns_record r) (check_ns_records rs)

-- `Params.Get`.
unfoldable pub get_params : {B : Type 0} → Handler (Chain B) Params
get_params s = or_fail s.keeper.params store_not_found s
