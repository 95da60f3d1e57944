-- ===== src/Dao/Agreement.antt =====
-- The two modules together: x/dnsblockchain (keeper/keeper.go) as the registry of x/dao
-- (types/expected_keepers.go).
mod Plain
use mathlib.Core.Path.{subst}
use dnsblockchain.Prelude.{
  ℕ, ◌≤◌, ◌+◌, ◌≡◌, refl, sym, ap, ◌∙◌, Bool, true, false, ◌||◌, [], ◌∷◌, arith, All, ltb,
  if◌then◌else◌,
}
use dnsblockchain.Go.Text.{
  Text, is_dot, is_space, is_empty, has_dot, byte_len, rune_len, to_lower, to_lower_rune, trim_dots,
  trim_space,
}
use dnsblockchain.Go.Text.Trim.{Starts, Ends, trim_left_of_Starts, trim_right_of_Ends}
use dnsblockchain.Go.Text.Normal.{normal_name, normal_tld}
use dnsblockchain.Sdk.{Platform, Coins, ok}
use dnsblockchain.Store.{text_key, has, lookup-insert, beq_refl}
use dnsblockchain.Dns.Types.{Keeper}
use dnsblockchain.Dns.Tld.{is_reserved_tld}
use dnsblockchain.Dns.Permitted.{
  is_tld_globally_reserved, is_tld_permitted, add_normal_tld, add_permitted_tld,
}
use dnsblockchain.Dns.Tlds.{permitting}
use dnsblockchain.Dao.External.{Codec, TldRegistry}
use dnsblockchain.Dao.Store.{DaoChain}
use dnsblockchain.Dao.Submit.{required_deposit}
use dnsblockchain.Dao.Execute.{execute_add_tld}
use dnsblockchain.Dao.Types.{AddTld, add_tld, DaoParams}
use dnsblockchain.Dao.Content.{is_alnum_or_hyphen, matches_tail, matches_tld, validate_add_tld}
use dnsblockchain.Dao.Agreement.Plain.{
  IsPlain, matches_tld-IsPlain, to_lower-IsPlain, byte_len-to_lower, has_dot-IsPlain,
  normal_name-IsPlain, normal_tld-IsPlain, to_lower_twice,
}

module _ (lower : ℕ → ℕ) where
  normal_tld-normal :
      (t : Text) → IsPlain t → normal_tld lower (to_lower lower t) ≡ to_lower lower t
  normal_tld-normal t h =
      normal_tld-IsPlain lower (to_lower lower t) (to_lower-IsPlain lower t h)
      ∙ to_lower_twice lower t h

  not_permitted :
      (t : Text) (k : Keeper)
      → normal_tld lower t ≡ t
      → is_empty t ≡ false
      → is_tld_permitted lower t k ≡ false
      → has t k.permitted_tlds ≡ false
  unfolding is_tld_permitted
  not_permitted t k n full q =
      let q' = subst (λ u. (if is_empty u then false else has u k.permitted_tlds) ≡ false) n q in
      ground (arith, q', full)

  not_empty : (t : Text) → 2 ≤ byte_len t → is_empty t ≡ false
  not_empty [] h = ground arith
  not_empty (c ∷ s) h = refl

  add_normal_tld-free :
      (t : Text) (k : Keeper)
      → IsPlain t
      → 2 ≤ byte_len t
      → byte_len t ≤ 63
      → normal_tld lower t ≡ t
      → is_reserved_tld lower t ≡ false
      → is_tld_permitted lower t k ≡ false
      → add_normal_tld lower t k ≡ (ok tt, permitting t k)
  unfolding add_normal_tld is_tld_globally_reserved
  add_normal_tld-free t k h long short n r q =
      let size : (ltb 63 (byte_len t) || ltb (byte_len t) 2) ≡ false = ground arith in
      rw
        (
          r,
          not_empty t long,
          has_dot-IsPlain lower t h,
          size,
          not_permitted t k n (not_empty t long) q,
        )
        refl

  permitted_now :
      (t n : Text) (k : Keeper)
      → normal_tld lower t ≡ n
      → is_empty n ≡ false
      → is_tld_permitted lower t (permitting n k) ≡ true
  unfolding is_tld_permitted
  permitted_now t n k e full =
      let found = lookup-insert n n tt k.permitted_tlds in
      ground (arith, e, full, found, beq_refl n)

-- x/dnsblockchain as the registry of x/dao.
abbrev pub keeper_registry : (ℕ → ℕ) → TldRegistry
keeper_registry lower = record {
  Registry = Keeper;
  add_permitted_tld = add_permitted_tld lower;
  is_tld_permitted = is_tld_permitted lower;
  is_tld_globally_reserved = is_tld_globally_reserved lower;
}

checked_length :
    (c : AddTld)
    → validate_add_tld c ≡ ok tt
    → (2 ≤ byte_len c.tld) × (byte_len c.tld ≤ 63) × (matches_tld c.tld ≡ true)
unfolding validate_add_tld
checked_length c h = ground arith

-- The two normal forms of a proposed TLD agree.
pub same_tld :
    (lower : ℕ → ℕ) (c : AddTld) (k : Keeper)
    → validate_add_tld c ≡ ok tt
    → is_tld_permitted lower (normal_name lower c.tld) k ≡ is_tld_permitted lower c.tld k
unfolding is_tld_permitted
same_tld lower c k valid =
    let plain = matches_tld-IsPlain c.tld (checked_length c valid).2 in
    let name = normal_name-IsPlain lower c.tld plain in
    let tld = normal_tld-IsPlain lower c.tld plain in
    ap (λ n. if is_empty n then false else has n k.permitted_tlds)
      (ap (normal_tld lower) name ∙ normal_tld-normal lower c.tld plain ∙ sym tld)

module _ (codec : Codec) (p : Platform) where
  open p use {lower, Bank}

  checks_of_due :
      (c : AddTld) (params : DaoParams) (deposit : Coins) (k : Keeper)
      → required_deposit codec (keeper_registry lower) p (add_tld c) params k ≡ ok deposit
      → (is_reserved_tld lower (normal_name lower c.tld) ≡ false)
        × (is_tld_permitted lower (normal_name lower c.tld) k ≡ false)
  unfolding required_deposit is_tld_globally_reserved
  checks_of_due c params deposit k due = ground arith

  add_permitted_tld-accepted :
      (c : AddTld) (params : DaoParams) (deposit : Coins) (k : Keeper)
      → validate_add_tld c ≡ ok tt
      → required_deposit codec (keeper_registry lower) p (add_tld c) params k ≡ ok deposit
      → add_permitted_tld lower c.tld k ≡ (ok tt, permitting (to_lower lower c.tld) k)
  unfolding add_permitted_tld
  add_permitted_tld-accepted c params deposit k valid due =
      let sizes = checked_length c valid in
      let plain = matches_tld-IsPlain c.tld sizes.2 in
      let low = normal_name-IsPlain lower c.tld plain in
      let free = checks_of_due c params deposit k due in
      let length_same = byte_len-to_lower lower c.tld plain in
      rw (normal_tld-IsPlain lower c.tld plain) (
        add_normal_tld-free lower (to_lower lower c.tld) k (to_lower-IsPlain lower c.tld plain)
          (omega (arith, length_same)) (omega (arith, length_same))
          (normal_tld-normal lower c.tld plain)
          (subst (λ u. is_reserved_tld lower u ≡ false) low free.0)
          (subst (λ u. is_tld_permitted lower u k ≡ false) low free.1))

  -- With x/dnsblockchain as the registry: if the content that proposes a TLD validates and
  -- SubmitProposal finds it neither reserved nor permitted, then the execution of this content on
  -- the same registry succeeds, and the TLD as it was proposed is permitted afterwards.
  pub accepted_tld-permitted :
      (c : AddTld) (params : DaoParams) (deposit : Coins) (s : DaoChain Keeper Bank)
      → validate_add_tld c ≡ ok tt
      → required_deposit codec (keeper_registry lower) p (add_tld c) params s.registry ≡ ok deposit
      → let r = execute_add_tld codec (keeper_registry lower) p c s in
        (r.0 ≡ ok tt) × (is_tld_permitted lower c.tld r.1.registry ≡ true)
  unfolding execute_add_tld
  accepted_tld-permitted c params deposit s valid due =
      let sizes = checked_length c valid in
      let plain = matches_tld-IsPlain c.tld sizes.2 in
      let done = add_permitted_tld-accepted c params deposit s.registry valid due in
      let length_same = byte_len-to_lower lower c.tld plain in
      subst (λ r. (r.0 ≡ ok tt) × (is_tld_permitted lower c.tld r.1 ≡ true)) (sym done)
        (
          refl,
          permitted_now lower c.tld (to_lower lower c.tld) s.registry
              (normal_tld-IsPlain lower c.tld plain)
              (not_empty lower (to_lower lower c.tld) (omega (arith, length_same))),
        )
