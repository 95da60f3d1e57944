-- ===== src/Dns/Query/Names.antt =====
-- `GetDomainByName` against the registry of names, and after the handlers of messages.
use dnsblockchain.Prelude.{
  ℕ, ◌+◌, ◌*◌, ◌<◌, ◌≡◌, ◌≢◌, refl, ap, ◌∙◌, true, false, Option, none, some, [], ◌∷◌, arith,
  if◌then◌else◌,
}
use dnsblockchain.Go.Text.{Text}
use dnsblockchain.Go.Text.Normal.{normal_name}
use dnsblockchain.Go.Time.{add_year_bounds, day_seconds}
use dnsblockchain.Sdk.{Platform, Context, ok, on_success}
use dnsblockchain.Store.{nat_key, text_key, lookup, beq_refl}
use dnsblockchain.Dns.Types.{Domain, Keeper, Chain, MsgCreateDomain, MsgDeleteDomain}
use dnsblockchain.Dns.Msg.{create_domain, delete_domain}
use dnsblockchain.Dns.Index.Changes.{IsIndexed, dropped}
use dnsblockchain.Dns.Effects.Create.{requested, create_domain_effect}
use dnsblockchain.Dns.Effects.Others.{delete_domain_effect}
use dnsblockchain.Dns.Registry.{Names, names, domain_at, names-added, names-dropped}
use dnsblockchain.Dns.Query.{
  QueryGetDomainByNameResponse, found_domain, found_id, get_domain_by_name, not_registered,
}

-- What the query answers about a name of a registry.
abbrev pub answer : Context → Names → Text → QueryGetDomainByNameResponse
answer ctx r n = found_domain ctx (r n)

found_id-domain_at :
    (ctx : Context) (k : Keeper) (o : Option ℕ)
    → found_id ctx k o ≡ found_domain ctx (domain_at k o)
unfolding found_id found_domain
found_id-domain_at ctx k none = refl
found_id-domain_at ctx k (some i) = refl

module _ (lower : ℕ → ℕ) where
  -- For a text that is not empty, GetDomainByName answers what the map from names to domains has
  -- under the normal form of the text: the domain, with whether the block time has reached its
  -- expiration, or that none is found.
  pub get_domain_by_name-names :
      (ctx : Context) (n : Text) (k : Keeper)
      → n ≢ []
      → get_domain_by_name lower ctx (some (record { name = n })) k
        ≡ ok (answer ctx (names k) (normal_name lower n))
  unfolding get_domain_by_name
  get_domain_by_name-names ctx [] k some_name = absurd (some_name refl)
  get_domain_by_name-names ctx (c ∷ n) k some_name =
      ap ok (found_id-domain_at ctx k (lookup (normal_name lower (c ∷ n)) k.domain_name))

  -- The same, where the registry is known at the name.
  get_domain_by_name-at :
      (ctx : Context) (n name : Text) (k : Keeper) (o : Option Domain)
      → n ≢ []
      → normal_name lower n ≡ name
      → names k name ≡ o
      → get_domain_by_name lower ctx (some (record { name = n })) k ≡ ok (found_domain ctx o)
  get_domain_by_name-at ctx n name k o some_name spelled e =
      get_domain_by_name-names ctx n k some_name
      ∙ ap (λ x. ok (answer ctx (names k) x)) spelled
      ∙ ap (λ x. ok (found_domain ctx x)) e

found_before :
    (ctx : Context) (d : Domain)
    → ctx.time < d.expiration
    → found_domain ctx (some d) ≡ record { domain = d; found = true; expired = false }
unfolding found_domain
found_before ctx d early = ground arith

module _ (p : Platform) where
  open p use {lower, Bank}

  -- After a successful CreateDomain, from stores in which the name index and the domains agree,
  -- GetDomainByName finds the requested domain for every text that is not empty and has the same
  -- normal form as the name, and says that it is not expired as long as less than 365 days have
  -- passed.
  pub get_domain_by_name-create_domain :
      (ctx later : Context) (msg : MsgCreateDomain) (s : Chain Bank) (id : ℕ) (n : Text)
      → IsIndexed s.keeper
      → (create_domain p ctx msg s).0 ≡ ok id
      → n ≢ []
      → normal_name lower n ≡ normal_name lower msg.name
      → later.time < ctx.time + 365 * day_seconds
      → get_domain_by_name lower later
          (some (record { name = n }))
          (create_domain p ctx msg s).1.keeper
        ≡ ok (record { domain = requested lower ctx msg id; found = true; expired = false })
  get_domain_by_name-create_domain ctx later msg s id n v done some_name spelled early =
      let c = on_success (create_domain_effect p ctx msg s) id done in
      let d = requested lower ctx msg id in
      get_domain_by_name-at lower later n d.name (create_domain p ctx msg s).1.keeper (some d)
        some_name spelled
        (ap (λ k. names k d.name) c.written
          ∙ names-added d s.keeper v d.name
          ∙ ap (λ b. if b then some d else names s.keeper d.name) (beq_refl d.name))
      ∙ ap ok (found_before later d (omega (arith, add_year_bounds ctx.time)))

  -- After a successful DeleteDomain, from stores in which the name index and the domains agree,
  -- GetDomainByName finds no domain for a text that is not empty and whose normal form is the name
  -- of the deleted domain.
  pub get_domain_by_name-delete_domain :
      (later : Context) (msg : MsgDeleteDomain) (s : Chain Bank) (d : Domain) (n : Text)
      → IsIndexed s.keeper
      → lookup msg.id s.keeper.domain ≡ some d
      → (delete_domain p msg s).0 ≡ ok tt
      → n ≢ []
      → normal_name lower n ≡ d.name
      → get_domain_by_name lower later (some (record { name = n })) (delete_domain p msg s).1.keeper
        ≡ ok not_registered
  unfolding found_domain
  get_domain_by_name-delete_domain later msg s d n v found done some_name spelled =
      let c = on_success (delete_domain_effect p msg s) tt done in
      let same : dropped msg.id c.old.name s.keeper ≡ dropped msg.id d.name s.keeper =
        cc (c.found, found) in
      get_domain_by_name-at lower later n d.name (delete_domain p msg s).1.keeper none some_name
        spelled
        (ap (λ k. names k d.name) (c.written ∙ same)
          ∙ names-dropped msg.id d s.keeper v found d.name
          ∙ ap (λ b. if b then none else names s.keeper d.name) (beq_refl d.name))
