-- ===== src/Dns/Basic/Weaker.antt =====
-- What a handler accepts has passed the stateless checks.
use dnsblockchain.Prelude.{◌≡◌, ◌≢◌, refl, false, Option, none, some, [], ◌∷◌, arith, ℕ}
use dnsblockchain.Go.Text.{
  Text, is_empty, trim_space, split_dots, trim_dots, trim_left, trim_right, to_lower,
}
use dnsblockchain.Go.Text.Normal.{normal_name}
use dnsblockchain.Sdk.{Platform, Context, ok, on_success, ◌>>=◌, Error, Handler, or_fail}
use dnsblockchain.Store.{nat_key, lookup, text_key}
use dnsblockchain.Dns.Types.{
  Domain, Chain, NsRecords, MsgCreateDomain, MsgUpdateDomain, MsgDeleteDomain, MsgHeartbeatDomain,
  MsgTransferDomain,
}
use dnsblockchain.Dns.Msg.{
  check_ns_record, check_ns_records, tld_of_parts, create_domain, update_domain, delete_domain,
  heartbeat_domain, transfer_domain,
}
use dnsblockchain.Dns.Effects.Create.{create_domain_effect}
use dnsblockchain.Dns.Effects.Update.{update_domain_effect}
use dnsblockchain.Dns.Basic.{
  named_records, basic_address, validate_create_domain, validate_update_domain,
  validate_delete_domain, validate_heartbeat_domain, validate_transfer_domain,
}

empty-trim_space : (t : Text) → is_empty (trim_space t) ≡ false → is_empty t ≡ false
unfolding trim_space
empty-trim_space [] h = ground arith
empty-trim_space (c ∷ t) h = refl

named_records_nil : named_records [] ≡ ok tt
unfolding named_records
named_records_nil = refl

named_records-check_ns_records :
    (rs : NsRecords) → check_ns_records rs ≡ ok tt → named_records rs ≡ ok tt
unfolding named_records check_ns_records check_ns_record
named_records-check_ns_records [] h = refl
named_records-check_ns_records (none ∷ rs) h = ground arith
named_records-check_ns_records (some r ∷ rs) h =
    ground (arith, empty-trim_space r.name, named_records-check_ns_records rs)

-- A name in `label.tld` format is not empty.
two_labels-name :
    (lower : ℕ → ℕ) (n tld : Text)
    → tld_of_parts (split_dots (normal_name lower n)) ≡ some tld
    → is_empty n ≡ false
unfolding tld_of_parts normal_name trim_dots trim_left trim_right to_lower split_dots
two_labels-name lower [] tld h = ground arith
two_labels-name lower (c ∷ n) tld h = refl

or_fail-rest :
    {S A B : Type 0} (o : Option A) (e : Error) (f : A → Handler S B) (s : S) (b : B)
    → ((or_fail o e >>= f) s).0 ≡ ok b
    → (a : A) × (o ≡ some a) × ((f a s).0 ≡ ok b)
unfolding ◌>>=◌
or_fail-rest none e f s b h = ground arith
or_fail-rest (some a) e f s b h = (a, refl, h)

or_fail-some :
    {S A B : Type 0} (o : Option A) (e : Error) (f : A → Handler S B) (s : S) (b : B)
    → ((or_fail o e >>= f) s).0 ≡ ok b
    → o ≢ none
or_fail-some o e f s b h = ground (arith, (or_fail-rest o e f s b h).1)

module _ (p : Platform) (known : (t : Text) → p.address t ≢ none → p.bech32 t ≢ none) where
  open p use {address, bech32, Bank}

  basic_address-known : (t : Text) → address t ≢ none → basic_address p t ≡ ok tt
  unfolding basic_address
  basic_address-known t h = ground (arith, known t h)

  update_signer :
      (msg : MsgUpdateDomain) (s : Chain Bank)
      → (update_domain p msg s).0 ≡ ok tt
      → address msg.creator ≢ none
  unfolding update_domain
  update_signer msg s done = or_fail-some (address msg.creator) _ _ s tt done

  -- A MsgCreateDomain that the handler accepts has passed ValidateBasic: whatever ValidateBasic
  -- refuses the handler refuses too. Every text that the address codec decodes is a bech32 address.
  pub validate_create_domain-weaker :
      (ctx : Context) (msg : MsgCreateDomain) (s : Chain Bank) (id : ℕ)
      → (create_domain p ctx msg s).0 ≡ ok id
      → validate_create_domain p msg ≡ ok tt
  unfolding validate_create_domain
  validate_create_domain-weaker ctx msg s id done =
      let c = on_success (create_domain_effect p ctx msg s) id done in
      ground (
        arith,
        basic_address-known msg.creator,
        basic_address-known msg.owner,
        c.creator_address,
        c.owner_address,
        c.accepted.some_record,
        two_labels-name p.lower msg.name c.accepted.tld c.accepted.two_labels,
        named_records-check_ns_records msg.ns_records c.accepted.records,
      )

  pub validate_update_domain-weaker :
      (msg : MsgUpdateDomain) (s : Chain Bank)
      → ((d : Domain) → lookup msg.id s.keeper.domain ≡ some d → address d.owner ≢ none)
      → (update_domain p msg s).0 ≡ ok tt
      → validate_update_domain p msg ≡ ok tt
  unfolding validate_update_domain
  validate_update_domain-weaker msg s owners done =
      let c = on_success (update_domain_effect p msg s) tt done in
      ground (
        arith,
        basic_address-known msg.creator (update_signer msg s done),
        basic_address-known msg.owner,
        owners c.old c.found,
        c.change.asked,
        c.change.owner,
        c.change.records,
        c.not_empty,
        text_key.beq_iff msg.owner c.old.owner,
        named_records_nil,
        named_records-check_ns_records msg.ns_records,
      )

  pub validate_delete_domain-weaker :
      (msg : MsgDeleteDomain) (s : Chain Bank)
      → (delete_domain p msg s).0 ≡ ok tt
      → validate_delete_domain p msg ≡ ok tt
  unfolding validate_delete_domain delete_domain
  validate_delete_domain-weaker msg s done =
      basic_address-known msg.creator (or_fail-some (address msg.creator) _ _ s tt done)

  pub validate_heartbeat_domain-weaker :
      (ctx : Context) (msg : MsgHeartbeatDomain) (s : Chain Bank)
      → (heartbeat_domain p ctx msg s).0 ≡ ok tt
      → validate_heartbeat_domain p msg ≡ ok tt
  unfolding validate_heartbeat_domain heartbeat_domain
  validate_heartbeat_domain-weaker ctx msg s done =
      basic_address-known msg.creator (or_fail-some (address msg.creator) _ _ s tt done)

  pub validate_transfer_domain-weaker :
      (msg : MsgTransferDomain) (s : Chain Bank)
      → (transfer_domain p msg s).0 ≡ ok tt
      → validate_transfer_domain p msg ≡ ok tt
  unfolding validate_transfer_domain transfer_domain
  validate_transfer_domain-weaker msg s done =
      let signed = or_fail-rest (address msg.creator) _ _ s tt done in
      ground (
        arith,
        basic_address-known msg.creator (or_fail-some (address msg.creator) _ _ s tt done),
        basic_address-known msg.new_owner (or_fail-some (address msg.new_owner) _ _ s tt signed.2),
      )
