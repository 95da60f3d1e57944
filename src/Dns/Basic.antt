-- ===== src/Dns/Basic.antt =====
-- The stateless checks of the messages (x/dnsblockchain/types/messages_domain.go).
pub mod Weaker
use dnsblockchain.Prelude.{Bool, not, ◌&&◌, ◌||◌, Option, none, some, List, [], ◌∷◌, if◌then◌else◌}
use dnsblockchain.Go.Text.{Text, is_empty}
use dnsblockchain.Sdk.{
  Platform, Address, Result, ok, err, check, and_then, invalid_address, invalid_request,
}
use dnsblockchain.Dns.Types.{
  NsRecord, NsRecords, MsgCreateDomain, MsgUpdateDomain, MsgDeleteDomain, MsgHeartbeatDomain,
  MsgTransferDomain,
}
use dnsblockchain.Dns.Msg.{is_nil}

-- The loop over the records: none is nil, and every one has a name.
unfoldable pub named_records : NsRecords → Result (Unit {0})
named_records [] = ok tt
named_records (none ∷ rs) = err invalid_request
named_records (some r ∷ rs) =
    and_then (check (not (is_empty r.name)) invalid_request) (named_records rs)

module _ (p : Platform) where
  open p use {bech32}

  unfoldable pub basic_address : Text → Result (Unit {0})
  basic_address t = elim (bech32 t) [ none ↦ err invalid_address | some _ ↦ ok tt ]

  unfoldable pub validate_create_domain : MsgCreateDomain → Result (Unit {0})
  validate_create_domain msg = and_then (basic_address msg.creator) (
      and_then (basic_address msg.owner) (
        and_then (check (not (is_empty msg.name)) invalid_request) (
          and_then (check (not (is_nil msg.ns_records)) invalid_request)
            (named_records msg.ns_records))))

  unfoldable pub validate_update_domain : MsgUpdateDomain → Result (Unit {0})
  validate_update_domain msg = and_then (basic_address msg.creator) (
      and_then (if not (is_empty msg.owner) then basic_address msg.owner else ok tt) (
        and_then (named_records msg.ns_records)
          (check (not (is_empty msg.owner && is_nil msg.ns_records)) invalid_request)))

  unfoldable pub validate_delete_domain : MsgDeleteDomain → Result (Unit {0})
  validate_delete_domain msg = basic_address msg.creator

  unfoldable pub validate_heartbeat_domain : MsgHeartbeatDomain → Result (Unit {0})
  validate_heartbeat_domain msg = basic_address msg.creator

  unfoldable pub validate_transfer_domain : MsgTransferDomain → Result (Unit {0})
  validate_transfer_domain msg = and_then (basic_address msg.creator) (basic_address msg.new_owner)

  -- `GetSigners`; `none` is a panic.
  unfoldable pub get_signers : Text → Option (List Address)
  get_signers creator = elim (bech32 creator) [ none ↦ none | some a ↦ some (a ∷ []) ]
