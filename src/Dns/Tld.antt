-- ===== src/Dns/Tld.antt =====
-- Top-level domains: the reserved list (x/dnsblockchain/types/reserved_tlds.go) and `ExtractTLD`
-- (x/dnsblockchain/types/utils.go).
use Prim.Native.String.{String}
use dnsblockchain.Prelude.{ℕ, Bool, List, [], ◌∷◌, any, map, ltb, length, if◌then◌else◌}
use dnsblockchain.Go.Text.{Text, codes, trim_dots, split_dots, to_lower, is_empty}
use dnsblockchain.Go.Text.Normal.{normal_name}
use dnsblockchain.Store.{◌==◌, text_key}

-- `ReservedTLDs`.
reserved_names : List String
reserved_names =
    "com" ∷ "org" ∷ "net" ∷ "gov" ∷ "edu" ∷ "mil" ∷ "int" ∷ "info" ∷ "biz" ∷ "name" ∷ "pro" ∷ "aero"
    ∷ "coop" ∷ "mobi" ∷ "cat" ∷ "jobs" ∷ "tel" ∷ "asia" ∷ "xyz" ∷ "club" ∷ "site" ∷ "online"
    ∷ "tech" ∷ "store" ∷ "app" ∷ "io" ∷ "co" ∷ "us" ∷ "uk" ∷ "de" ∷ "jp" ∷ "cn" ∷ "in" ∷ "br" ∷ "ca"
    ∷ "au" ∷ "fr" ∷ "ru" ∷ "it" ∷ "es" ∷ "mx" ∷ "ch" ∷ "nl" ∷ "se" ∷ "no" ∷ "fi" ∷ "dk" ∷ "pl"
    ∷ "ar" ∷ "at" ∷ "be" ∷ "kr" ∷ "sg" ∷ "za" ∷ "academy" ∷ "agency" ∷ "accountant" ∷ "ai"
    ∷ "bitcoin" ∷ "blockchain" ∷ "camera" ∷ "coffee" ∷ "company" ∷ "computer" ∷ "construction"
    ∷ "contact" ∷ "cool" ∷ "credit" ∷ "cruise" ∷ "dance" ∷ "data" ∷ "design" ∷ "diamond" ∷ "digital"
    ∷ "direct" ∷ "directory" ∷ "discount" ∷ "doctor" ∷ "dog" ∷ "domains" ∷ "email" ∷ "energy"
    ∷ "engineer" ∷ "enterprises" ∷ "equipment" ∷ "estate" ∷ "events" ∷ "expert" ∷ "express" ∷ "farm"
    ∷ "fashion" ∷ "finance" ∷ "fitness" ∷ "flights" ∷ "flowers" ∷ "foundation" ∷ "fund"
    ∷ "furniture" ∷ "futbol" ∷ "gallery" ∷ "gifts" ∷ "glass" ∷ "global" ∷ "graphics" ∷ "gratis"
    ∷ "green" ∷ "gripe" ∷ "guide" ∷ "guru" ∷ "health" ∷ "hockey" ∷ "holdings" ∷ "holiday" ∷ "home"
    ∷ "hospital" ∷ "hotel" ∷ "house" ∷ "immobilien" ∷ "industries" ∷ "institute" ∷ "insure"
    ∷ "international" ∷ "investments" ∷ "jewelry" ∷ "kitchen" ∷ "land" ∷ "lawyer" ∷ "lease"
    ∷ "legal" ∷ "life" ∷ "lighting" ∷ "limited" ∷ "limo" ∷ "link" ∷ "living" ∷ "loans" ∷ "london"
    ∷ "ltd" ∷ "luxury" ∷ "management" ∷ "marketing" ∷ "media" ∷ "medical" ∷ "men" ∷ "money"
    ∷ "movie" ∷ "music" ∷ "network" ∷ "news" ∷ "ninja" ∷ "partners" ∷ "example" ∷ "invalid"
    ∷ "local" ∷ "localhost" ∷ "test" ∷ "arpa" ∷ []

unfoldable pub reserved_tlds : List Text
unfolding reserved_names
reserved_tlds = map codes reserved_names

-- The last text of a list.
abbrev pub last_part : List Text → Text
last_part [] = []
last_part (p ∷ []) = p
last_part (p ∷ q ∷ ps) = last_part (q ∷ ps)

module _ (lower : ℕ → ℕ) where
  unfoldable pub is_reserved_tld : Text → Bool
  unfolding normal_name
  is_reserved_tld tld = any (λ r. normal_name lower tld == r) reserved_tlds

  unfoldable pub extract_tld : Text → Text
  unfolding to_lower trim_dots split_dots
  extract_tld name =
      let trimmed = trim_dots name in
      let parts = split_dots trimmed in
      if is_empty trimmed
      then []
      else if ltb (length parts) 2
      then []
      else to_lower lower (last_part parts)
