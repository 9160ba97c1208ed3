-- ===== src/Net.antt =====
-- packages/server/src/net.ts: the guard of outbound addresses. Texts are lists of code units; `isIP`, the
-- URL parser and the name lookup of Node are parameters.
pub mod Literals
pub mod Ranges
pub mod Plain
pub mod Embedded
pub mod Guard
mod Tests
use memoturn.Prelude.{
  ℕ, zero, suc, ◌+◌, ◌-◌, ◌*◌, ◌/◌, ◌%◌, Bool, true, false, ◌&&◌, ◌||◌, not, List, [], ◌∷◌, ◌++◌,
  Option, none, some, ◌==◌, leb, ltb, length, all, any, drop, is_empty, map, if◌then◌else◌,
}
use memoturn.Net.Literals.{
  Units, units_eq, starts_with, split_on, split_double, lower_units, strip_brackets, decimal_of,
  hex_number, show_octet, show_hex, dotted_tail, octets_of, https, http,
}

pub data IpVersion : Type 0 where
  no_ip ip4 ip6 : IpVersion

-- The ranges of IPv4, by the first two octets, none where `Number` is NaN.
unfoldable pub is_blocked_octets : ℕ → ℕ → Bool
is_blocked_octets a b =
    a == 127
    || (a == 10
        || ((a == 172 && leb 16 b && leb b 31)
            || ((a == 192 && b == 168) || ((a == 169 && b == 254) || (a == 0 || leb 224 a)))))

-- `parts[0] ?? 0` and `parts[1] ?? 0`.
unfoldable pub part_number : List Units → Option ℕ
part_number [] = some 0
part_number (p ∷ ps) = decimal_of p

-- A comparison with NaN is false; 1000 stands for a NaN second octet, which no test accepts.
unfoldable pub is_blocked_numbers : Option ℕ → Option ℕ → Bool
unfolding is_blocked_octets
is_blocked_numbers none b = false
is_blocked_numbers (some a) none = is_blocked_octets a 1000
is_blocked_numbers (some a) (some b) = is_blocked_octets a b

unfoldable pub is_blocked_parts : List Units → Bool
unfolding is_blocked_numbers part_number
is_blocked_parts parts = is_blocked_numbers (part_number parts) (part_number (drop 1 parts))

unfoldable pub is_blocked_ipv4 : Units → Bool
unfolding is_blocked_parts
is_blocked_ipv4 ip = is_blocked_parts (split_on b'.' ip)

-- The groups of one side of `::`, none where one is not a number of 16 bits.
unfoldable pub to_groups : Units → List (Option ℕ)
to_groups [] = []
to_groups (c ∷ cs) = map hex_number (split_on b':' (c ∷ cs))

abbrev pub zeros : ℕ → List (Option ℕ)
zeros zero = []
zeros (suc n) = some 0 ∷ zeros n

unfoldable pub all_groups : List (Option ℕ) → Option (List ℕ)
all_groups [] = some []
all_groups (none ∷ gs) = none
all_groups (some g ∷ gs) =
    if ltb 0xffff g then none else elim (all_groups gs) [ none ↦ none | some hs ↦ some (g ∷ hs) ]

-- The groups around `::`, which stands for those that are missing.
unfoldable pub join_groups : List (Option ℕ) → List (Option ℕ) → Option (List ℕ)
unfolding all_groups
join_groups head tail =
    if ltb (length head + length tail) 8
    then all_groups (head ++ (zeros (8 - length head - length tail) ++ tail))
    else none

-- The halves around `::`, of which there are one or two.
unfoldable pub expand_halves : List Units → Option (List ℕ)
unfolding to_groups join_groups
expand_halves (h ∷ []) =
    let head = to_groups h in if length head == 8 then all_groups head else none
expand_halves (h ∷ t ∷ []) = join_groups (to_groups h) (to_groups t)
expand_halves _ = none

-- The text with its trailing dotted quad folded into two groups, none where an octet is above 255.
unfoldable pub fold_dotted : Units → Option Units
fold_dotted s = elim (dotted_tail s) [
  | none ↦ some s
  | some (front, quad) ↦ elim (octets_of quad) [
    | none ↦ none
    | some (a, b, c, d) ↦
        if ltb 255 a || ltb 255 b || ltb 255 c || ltb 255 d
        then none
        else some (front ++ show_hex (256 * a + b) ++ b':' ∷ show_hex (256 * c + d))
  ]
]

unfoldable pub expand_folded : Option Units → Option (List ℕ)
unfolding expand_halves
expand_folded none = none
expand_folded (some s) = expand_halves (split_double s)

unfoldable pub expand_ipv6 : Units → Option (List ℕ)
unfolding fold_dotted expand_folded
expand_ipv6 ip = expand_folded (fold_dotted (strip_brackets ip))

unfoldable pub dotted : ℕ → ℕ → ℕ → ℕ → Units
dotted a b c d =
    show_octet a ++ b'.' ∷ (show_octet b ++ b'.' ∷ (show_octet c ++ b'.' ∷ show_octet d))

-- The IPv4 text of two groups.
unfoldable pub group_text : ℕ → ℕ → Units
unfolding dotted
group_text hi lo = dotted (hi / 256) (hi % 256) (lo / 256) (lo % 256)

unfoldable pub embedded_ipv4 : List ℕ → Option Units
unfolding group_text
embedded_ipv4 (g0 ∷ g1 ∷ g2 ∷ g3 ∷ g4 ∷ g5 ∷ g6 ∷ g7 ∷ []) =
    if (g0 == 0 && g1 == 0 && g2 == 0 && g3 == 0 && g4 == 0) && (g5 == 0xffff || g5 == 0)
    then some (group_text g6 g7)
    else if g0 == 0x2002
    then some (group_text g1 g2)
    else if g0 == 0x64 && g1 == 0xff9b
    then some (group_text g6 g7)
    else none
embedded_ipv4 _ = none

-- `again` is the test of the address that an IPv6 text embeds.
unfoldable pub is_blocked_groups : (Units → Bool) → Option (List ℕ) → Bool
unfolding embedded_ipv4
is_blocked_groups again none = false
is_blocked_groups again (some groups) = elim (embedded_ipv4 groups) [
  | none ↦ false
  | some v4 ↦ again v4
]

unfoldable pub is_blocked_lower : (Units → Bool) → Units → Bool
unfolding expand_ipv6 is_blocked_groups
is_blocked_lower again lower =
    if units_eq lower (b':' ∷ b':' ∷ b'1' ∷ []) || units_eq lower (b':' ∷ b':' ∷ [])
    then true
    else if starts_with (b'f' ∷ b'c' ∷ []) lower || starts_with (b'f' ∷ b'd' ∷ []) lower
    then true
    else if starts_with (b'f' ∷ b'e' ∷ b'8' ∷ b'0' ∷ []) lower
    then true
    else is_blocked_groups again (expand_ipv6 lower)

unfoldable pub is_blocked_ipv6 : (Units → Bool) → Units → Bool
unfolding is_blocked_lower
is_blocked_ipv6 again ip = is_blocked_lower again (strip_brackets (lower_units ip))

-- The address that an IPv6 text embeds is dotted, so that one more round suffices.
unfoldable pub is_blocked_within : (Units → IpVersion) → ℕ → Units → Bool
unfolding is_blocked_ipv4 is_blocked_ipv6
is_blocked_within is_ip zero ip = false
is_blocked_within is_ip (suc rounds) ip = elim (is_ip ip) [
  | no_ip ↦ false
  | ip4 ↦ is_blocked_ipv4 ip
  | ip6 ↦ is_blocked_ipv6 (is_blocked_within is_ip rounds) ip
]

unfoldable pub is_blocked_ip : (Units → IpVersion) → Units → Bool
unfolding is_blocked_within
is_blocked_ip is_ip ip = is_blocked_within is_ip 2 ip

pub record Url : Type 0 where
  pub protocol : Units
  pub hostname : Units

pub data SsrfError : Type 0 where
  invalid_url only_https private_address no_resolution no_address : SsrfError

-- `lookup` has the addresses of a name, none where it rejects; the result is the error, if one is thrown.
unfoldable pub check_addresses : (Units → IpVersion) → List Units → Option SsrfError
unfolding is_blocked_ip
check_addresses is_ip [] = none
check_addresses is_ip (a ∷ as_) =
    let rest = check_addresses is_ip as_ in
    if is_blocked_ip is_ip a then some private_address else rest

module _ (is_ip : Units → IpVersion) (parse_url : Units → Option Url)
    (resolve : Units → Option (List Units)) where
  -- The host as `isIP` takes it: a literal address, or a name to look up.
  unfoldable pub check_as : IpVersion → Units → Option SsrfError
  unfolding check_addresses
  check_as no_ip host = elim (resolve host) [
    | none ↦ some no_resolution
    | some addresses ↦
        if is_empty addresses then some no_address else check_addresses is_ip addresses
  ]
  check_as version host = if is_blocked_ip is_ip host then some private_address else none

  unfoldable pub check_host : Units → Option SsrfError
  unfolding check_as
  check_host host = check_as (is_ip host) host

  unfoldable pub check_url : (permissive : Bool) → Option Url → Option SsrfError
  unfolding check_host
  check_url permissive none = some invalid_url
  check_url permissive (some url) =
      if not (units_eq url.protocol https) && not (units_eq url.protocol http && permissive)
      then some only_https
      else if permissive
      then none
      else check_host (strip_brackets url.hostname)

  unfoldable pub assert_public_url : (permissive : Bool) → Units → Option SsrfError
  unfolding check_url
  assert_public_url permissive raw = check_url permissive (parse_url raw)

  unfoldable pub is_public_url : (permissive : Bool) → Units → Bool
  unfolding assert_public_url
  is_public_url permissive raw = elim (assert_public_url permissive raw) [
    | none ↦ true
    | some e ↦ false
  ]
