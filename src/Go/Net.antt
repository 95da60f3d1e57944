-- ===== src/Go/Net.antt =====
-- `net.ParseIP`: whether a text is an IPv4 or an IPv6 address. (A zone, `%eth0`, is refused.)
use dnsblockchain.Prelude.{
  ℕ, zero, suc, ◌+◌, ◌*◌, ◌-◌, Bool, true, false, not, ◌&&◌, ◌||◌, [], ◌∷◌, all, ltb, leb, ◌==◌,
  if◌then◌else◌, length,
}
use dnsblockchain.Go.Text.{Text, split_dots, is_empty}

abbrev is_digit : ℕ → Bool
is_digit c = leb b'0' c && leb c b'9'

abbrev is_hex : ℕ → Bool
is_hex c = is_digit c || leb b'a' c && leb c b'f' || leb b'A' c && leb c b'F'

decimal : ℕ → Text → ℕ
decimal acc [] = acc
decimal acc (c ∷ s) = decimal (acc * 10 + (c - b'0')) s

-- No digit may follow a leading zero.
no_leading_zero : Text → Bool
no_leading_zero [] = true
no_leading_zero (c ∷ s) = not (c == b'0') || is_empty s

-- One octet of an IPv4 address.
is_octet : Text → Bool
unfolding decimal no_leading_zero
is_octet s =
    not (is_empty s)
    && all is_digit s
    && no_leading_zero s
    && leb (length s) 3
    && leb (decimal 0 s) 255

pub is_ipv4 : Text → Bool
unfolding is_octet split_dots
is_ipv4 s = length (split_dots s) == 4 && all is_octet (split_dots s)

-- The hexadecimal digits at the front: how many, and what follows them.
hex_run : Text → ℕ × Text
hex_run [] = (0, [])
hex_run (c ∷ s) = let (n, rest) = hex_run s in if is_hex c then (suc n, rest) else (0, c ∷ s)

-- The end of an IPv6 address, with `room` groups not given: `::` stands for at least one group.
abbrev closes : ℕ → Bool → Bool
closes room ellipsis = if room == 0 then not ellipsis else ellipsis

-- What follows a group: the end, an embedded IPv4 address, `::` or `:`. `next` is the rest of the
-- loop.
ipv6_after : (Bool → Text → Bool) → ℕ → Bool → Text → Text → Bool
ipv6_after next room ellipsis s [] = closes room ellipsis
ipv6_after next room ellipsis s (c ∷ []) = false
ipv6_after next room ellipsis s (c ∷ d ∷ t) =
    if c == b'.'
    then (ellipsis || room == 1) && leb 1 room && is_ipv4 s && closes (room - 1) ellipsis
    else if c == b':'
    then (if d == b':'
        then not ellipsis && (if is_empty t then closes room true else next true t)
        else next ellipsis (d ∷ t))
    else false

-- The loop of `parseIPv6`, by the groups that are left.
ipv6_groups : ℕ → Bool → Text → Bool
ipv6_groups zero ellipsis s = is_empty s && not ellipsis
ipv6_groups (suc room) ellipsis s =
    let (n, rest) = hex_run s in
    if n == 0 || ltb 4 n then false else ipv6_after (ipv6_groups room) room ellipsis s rest

-- A leading `::`.
pub is_ipv6 : Text → Bool
unfolding ipv6_groups ipv6_after hex_run is_ipv4
is_ipv6 [] = false
is_ipv6 (c ∷ []) = false
is_ipv6 (c ∷ d ∷ s) =
    if c == b':' && d == b':'
    then is_empty s || ipv6_groups 8 true s
    else ipv6_groups 8 false (c ∷ d ∷ s)

-- `ParseAddr` chooses the syntax by the first dot or colon.
parse_from : Text → Text → Bool
parse_from s [] = false
parse_from s (c ∷ t) =
    if c == b'.' then is_ipv4 s else if c == b':' then is_ipv6 s else parse_from s t

unfoldable pub parse_ip : Text → Bool
unfolding parse_from is_ipv4 is_ipv6
parse_ip s = parse_from s s
