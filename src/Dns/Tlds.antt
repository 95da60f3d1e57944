-- ===== src/Dns/Tlds.antt =====
-- The permitted TLDs: `AddPermittedTLD` against what it promises.
use mathlib.Core.Path.{subst}
use dnsblockchain.Prelude.{
  ℕ, ◌≤◌, ◌≡◌, ◌≢◌, refl, sym, true, false, ◌||◌, [], arith, ltb, Bool-cases, inl, inr,
}
use dnsblockchain.Go.Text.{Text, is_empty, has_dot, byte_len, IsLowering}
use dnsblockchain.Go.Text.Normal.{normal_tld, normal_tld_idem}
use dnsblockchain.Sdk.{Ensures, succeeds, after_test, either_way}
use dnsblockchain.Store.{text_key, ◌==◌, insert, has, lookup-insert}
use dnsblockchain.Dns.Tld.{is_reserved_tld}
use dnsblockchain.Dns.Types.{Keeper}
use dnsblockchain.Dns.Permitted.{
  is_tld_globally_reserved, is_tld_permitted, add_normal_tld, add_permitted_tld,
}

-- What the module demands of a TLD: a normalised label of 2 to 63 bytes that is not reserved.
pub record IsTld (lower : ℕ → ℕ) (t : Text) : Type 0 where
  pub normal : normal_tld lower t ≡ t
  pub not_empty : t ≢ []
  pub one_label : has_dot t ≡ false
  pub long : 2 ≤ byte_len t
  pub short : byte_len t ≤ 63
  pub not_reserved : is_reserved_tld lower t ≡ false

-- Every permitted TLD is such.
abbrev pub IsClean : (ℕ → ℕ) → Keeper → Type 0
IsClean lower k = (t : Text) → has t k.permitted_tlds ≡ true → IsTld lower t

abbrev pub permitting : Text → Keeper → Keeper
permitting t k = record k { permitted_tlds = insert t tt k.permitted_tlds }

module _ (lower : ℕ → ℕ) where
  checked :
      (t : Text)
      → normal_tld lower t ≡ t
      → is_reserved_tld lower t ≡ false
      → is_empty t ≡ false
      → has_dot t ≡ false
      → (ltb 63 (byte_len t) || ltb (byte_len t) 2) ≡ false
      → IsTld lower t
  checked t n free full one size = record {
    normal = n;
    not_empty = ground arith;
    one_label = one;
    long = ground arith;
    short = ground arith;
    not_reserved = free;
  }

  add_normal_tld_effect :
      (t : Text) (k : Keeper)
      → normal_tld lower t ≡ t
      → Ensures
          (λ _ k'. IsTld lower t × (has t k.permitted_tlds ≡ false) × (k' ≡ permitting t k))
          (λ k'. k' ≡ k)
          (add_normal_tld lower t k)
  unfolding add_normal_tld is_tld_globally_reserved
  add_normal_tld_effect t k n = after_test (is_reserved_tld lower t) _ k refl λ free.
      after_test (is_empty t) _ k refl λ full. after_test (has_dot t) _ k refl λ one.
        after_test (ltb 63 (byte_len t) || ltb (byte_len t) 2) _ k refl λ size.
          after_test (has t k.permitted_tlds) _ k refl
            λ new. succeeds _ _ (checked t n free full one size, new, refl)

module _ (lower : ℕ → ℕ) (l : IsLowering lower) where
  -- AddPermittedTLD succeeds only if the normal form of the text is a single label of 2 to 63 bytes
  -- that is neither reserved nor permitted yet, and then adds this normal form alone. If it fails,
  -- the stores are as they were. The case mapping keeps dots and spaces apart from letters and is
  -- idempotent.
  pub add_permitted_tld_effect :
      (tld : Text) (k : Keeper)
      → Ensures
          (λ _ k'.
            IsTld lower (normal_tld lower tld)
            × (has (normal_tld lower tld) k.permitted_tlds ≡ false)
            × (k' ≡ permitting (normal_tld lower tld) k))
          (λ k'. k' ≡ k)
          (add_permitted_tld lower tld k)
  unfolding add_permitted_tld
  add_permitted_tld_effect tld k =
      add_normal_tld_effect lower (normal_tld lower tld) k (normal_tld_idem lower l tld)

  -- After a TLD that the module accepts is added to the permitted ones, IsTLDPermitted says yes for
  -- every spelling whose normal form it is, and answers as before for every other text.
  pub is_tld_permitted-permitting :
      (t u : Text) (k : Keeper)
      → IsTld lower t
      → is_tld_permitted lower u (permitting t k)
        ≡ (normal_tld lower u == t || is_tld_permitted lower u k)
  unfolding is_tld_permitted
  is_tld_permitted-permitting t u k h = ground (
    arith,
    lookup-insert (normal_tld lower u) t tt k.permitted_tlds,
    text_key.beq_iff (normal_tld lower u) t,
    h.not_empty,
  )

  permitting-IsClean :
      (t : Text) (k : Keeper) → IsTld lower t → IsClean lower k → IsClean lower (permitting t k)
  permitting-IsClean t k h c u found = elim (Bool-cases (u == t)) [
    | inl e ↦ subst (IsTld lower) (sym ((text_key.beq_iff u t).0 e)) h
    | inr e ↦ c u (ground (arith, lookup-insert u t tt k.permitted_tlds))
  ]

  -- Where every permitted TLD is a normalised label of 2 to 63 bytes that is not reserved, this
  -- still holds after any call of AddPermittedTLD, successful or not.
  pub add_permitted_tld-IsClean :
      (tld : Text) (k : Keeper) → IsClean lower k → IsClean lower (add_permitted_tld lower tld k).1
  add_permitted_tld-IsClean tld k c =
      either_way (IsClean lower) (add_permitted_tld_effect tld k)
        (λ _ k' done.
          subst (IsClean lower) (sym done.2) (permitting-IsClean (normal_tld lower tld) k done.0 c))
        (λ k' same. subst (IsClean lower) (sym same) c)
