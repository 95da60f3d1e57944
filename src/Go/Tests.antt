-- ===== src/Go/Tests.antt =====
-- Runs of the library functions at inputs with known results.
use dnsblockchain.Prelude.{◌≡◌, refl, true, false, [], ◌∷◌}
use dnsblockchain.Go.Net.{parse_ip}
use dnsblockchain.Go.Text.{codes, split_dots, trim_dots, trim_space}
use dnsblockchain.Go.Time.{add_year}

-- 2024-02-29T00:00:00Z plus a year is 2025-03-01T00:00:00Z.
add_year-leap_day : add_year 1709164800 ≡ 1740787200
unfolding add_year
add_year-leap_day = refl

-- 2023-06-15T12:00:00Z plus a year is 2024-06-15T12:00:00Z.
add_year-plain : add_year 1686830400 ≡ 1718452800
unfolding add_year
add_year-plain = refl

-- 1970-01-01 plus a year.
add_year-epoch : add_year 0 ≡ 31536000
unfolding add_year
add_year-epoch = refl

parse_ip-accepts :
    (parse_ip (codes "45.55.172.134") ≡ true)
    × (parse_ip (codes "2001:db8::ff00:42:8329") ≡ true)
    × (parse_ip (codes "::1") ≡ true)
    × (parse_ip (codes "::") ≡ true)
    × (parse_ip (codes "::ffff:1.2.3.4") ≡ true)
    × (parse_ip (codes "1:2:3:4:5:6:7::") ≡ true)
unfolding parse_ip
parse_ip-accepts = (refl, refl, refl, refl, refl, refl)

parse_ip-refuses :
    (parse_ip (codes "1.2.3") ≡ false)
    × (parse_ip (codes "1.2.3.04") ≡ false)
    × (parse_ip (codes "1.2.3.256") ≡ false)
    × (parse_ip (codes "1:2:3:4:5:6:7") ≡ false)
    × (parse_ip (codes "1:2:3:4:5:6:7:8::") ≡ false)
    × (parse_ip (codes "::1::") ≡ false)
    × (parse_ip (codes "fe80::1%eth0") ≡ false)
    × (parse_ip (codes "ns1.web3") ≡ false)
unfolding parse_ip
parse_ip-refuses = (refl, refl, refl, refl, refl, refl, refl, refl)

split_dots_tests :
    (split_dots (codes "a.web3") ≡ codes "a" ∷ codes "web3" ∷ [])
    × (split_dots (codes ".") ≡ [] ∷ [] ∷ [])
unfolding split_dots
split_dots_tests = (refl, refl)

trim_tests :
    (trim_dots (codes "..a.b.") ≡ codes "a.b") × (trim_space (codes " web3 ") ≡ codes "web3")
unfolding trim_dots trim_space
trim_tests = (refl, refl)
