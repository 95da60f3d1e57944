-- ===== src/Dns/Query.antt =====
-- The queries of x/dnsblockchain (x/dnsblockchain/keeper/query_domain.go, query_params.go and
-- query_permitted_tlds.go). A request may be nil.
pub mod Names
pub mod Listed
use dnsblockchain.Prelude.{
  ℕ, Bool, true, false, Option, none, some, List, [], map, leb, if◌then◌else◌,
}
use dnsblockchain.Go.Text.{Text, is_empty}
use dnsblockchain.Go.Text.Normal.{normal_name}
use dnsblockchain.Sdk.{
  Platform, Context, Result, ok, err, invalid_argument, key_not_found, internal,
}
use dnsblockchain.Sdk.Paging.{PageRequest, PageResponse}
use dnsblockchain.Store.{Map, nat_key, text_key, lookup}
use dnsblockchain.Dns.Types.{Domain, Params, Keeper}

pub record QueryGetDomainRequest : Type 0 where
  pub id : ℕ

pub record QueryGetDomainByNameRequest : Type 0 where
  pub name : Text

pub record QueryAllDomainRequest : Type 0 where
  pub pagination : Option PageRequest

pub record QueryGetDomainByNameResponse : Type 0 where
  pub domain : Domain
  pub found : Bool
  pub expired : Bool

pub record QueryAllDomainResponse : Type 0 where
  pub domain : List Domain
  pub pagination : PageResponse

-- The zero values of Go.
abbrev pub no_domain : Domain
no_domain = record { id = 0; creator = []; name = []; owner = []; ns_records = []; expiration = 0 }

abbrev pub no_params : Params
no_params = record { domain_creation_fee = [] }

abbrev pub not_registered : QueryGetDomainByNameResponse
not_registered = record { domain = no_domain; found = false; expired = false }

-- The result of an operation that may fail, where no request is an error of its own.
abbrev pub with_request : {Q A : Type 0} → Option Q → (Q → Result A) → Result A
with_request none f = err invalid_argument
with_request (some q) f = f q

unfoldable pub query_params : Option (Unit {0}) → Keeper → Result Params
query_params req k = with_request req λ q. ok (elim k.params [ none ↦ no_params | some ps ↦ ps ])

unfoldable pub query_domain : Option QueryGetDomainRequest → Keeper → Result Domain
query_domain req k =
    with_request req λ q. elim (lookup q.id k.domain) [ none ↦ err key_not_found | some d ↦ ok d ]

-- `query.CollectionPaginate` is an argument.
unfoldable pub list_domain :
    (Map ℕ Domain → Option PageRequest → Result (List Domain × PageResponse))
    → Option QueryAllDomainRequest
    → Keeper
    → Result QueryAllDomainResponse
list_domain paginate req k = with_request req λ q. elim (paginate k.domain q.pagination) [
  | ok r ↦ ok (record { domain = r.0; pagination = r.1 })
  | err e ↦ err internal
]

unfoldable pub list_permitted_tlds : Option (Unit {0}) → Keeper → Result (List Text)
list_permitted_tlds req k = with_request req λ q. ok (map (λ e. e.0) k.permitted_tlds)

-- `GetDomainByName`, after the index was read, and after the domain was read.
unfoldable pub found_domain : Context → Option Domain → QueryGetDomainByNameResponse
found_domain ctx none = not_registered
found_domain ctx (some d) = record { domain = d; found = true; expired = leb d.expiration ctx.time }

unfoldable pub found_id : Context → Keeper → Option ℕ → QueryGetDomainByNameResponse
found_id ctx k none = not_registered
found_id ctx k (some i) = found_domain ctx (lookup i k.domain)

module _ (lower : ℕ → ℕ) where
  unfoldable pub get_domain_by_name :
      Context → Option QueryGetDomainByNameRequest → Keeper → Result QueryGetDomainByNameResponse
  get_domain_by_name ctx req k = with_request req λ q.
      if is_empty q.name
      then err invalid_argument
      else ok (found_id ctx k (lookup (normal_name lower q.name) k.domain_name))
