-- ===== src/Net/Tests.antt =====
-- Addresses and targets of packages/server/src/net.ts.
use memoturn.Prelude.{
  ◌*◌, ◌+◌, ◌≡◌, ◌↔◌, refl, false, List, [], ◌∷◌, Option, none, some, arith, ◌==◌, if◌then◌else◌,
}
use memoturn.Net.Literals.{
  Units, https, split_double, hex_number, show_octet, show_hex, dotted_tail, octets_of,
}
use memoturn.Net.{
  IpVersion, no_ip, ip4, ip6, Url, dotted, group_text, expand_ipv6, is_blocked_ip,
  assert_public_url,
}
use memoturn.Net.Ranges.{address, in_blocked_block, is_blocked_ip-dotted}
use memoturn.Net.Embedded.{mapped_text, is_blocked_ip-mapped}
use memoturn.Net.Guard.{IsAllowed, assert_public_url_iff}

-- A text that starts with a colon is IPv6, and any other IPv4.
abbrev version_of_text : Units → IpVersion
version_of_text [] = no_ip
version_of_text (c ∷ s) = if c == b':' then ip6 else ip4

is_blocked_ip-dotted_example :
    is_blocked_ip version_of_text (dotted 169 254 169 254)
    ≡ in_blocked_block (address 169 254 169 254)
unfolding dotted show_octet
is_blocked_ip-dotted_example =
    is_blocked_ip-dotted 169 254 169 254 (omega arith) (omega arith) (omega arith) (omega arith)
      version_of_text refl

-- ::ffff:a9fe:a9fe, the metadata address.
is_blocked_ip-mapped_example :
    is_blocked_ip version_of_text
      (mapped_text (b'a' ∷ b'9' ∷ b'f' ∷ b'e' ∷ []) (b'a' ∷ b'9' ∷ b'f' ∷ b'e' ∷ []))
    ≡ in_blocked_block (65536 * 0xa9fe + 0xa9fe)
unfolding hex_number group_text dotted show_octet
is_blocked_ip-mapped_example =
    is_blocked_ip-mapped b'a' b'a' (b'9' ∷ b'f' ∷ b'e' ∷ []) (b'9' ∷ b'f' ∷ b'e' ∷ []) 0xa9fe 0xa9fe
      (record { digits = refl; value = refl; small = omega arith })
      (record { digits = refl; value = refl; small = omega arith }) version_of_text refl refl

-- A target whose host is the text `h`, and a lookup with two addresses of which one is private.
abbrev target : Units → Option Url
target raw = some (record { protocol = https; hostname = b'h' ∷ [] })

abbrev two_addresses : Units → Option (List Units)
two_addresses host = some (
    (b'8' ∷ b'.' ∷ b'8' ∷ b'.' ∷ b'8' ∷ b'.' ∷ b'8' ∷ [])
    ∷ (b'1' ∷ b'0' ∷ b'.' ∷ b'0' ∷ b'.' ∷ b'0' ∷ b'.' ∷ b'1' ∷ [])
    ∷ [])

assert_public_url_iff_example :
    (assert_public_url version_of_text target two_addresses false [] ≡ none)
    ↔ IsAllowed version_of_text target two_addresses (target [])
assert_public_url_iff_example = assert_public_url_iff version_of_text target two_addresses []

-- febf::1 is a link-local address, and is not blocked.
link_local_test :
    is_blocked_ip (λ s. ip6) (b'f' ∷ b'e' ∷ b'b' ∷ b'f' ∷ b':' ∷ b':' ∷ b'1' ∷ []) ≡ false
unfolding is_blocked_ip dotted_tail split_double hex_number
link_local_test = refl

fold_test :
    expand_ipv6 (b':' ∷ b':' ∷ b'1' ∷ b'.' ∷ b'2' ∷ b'.' ∷ b'3' ∷ b'.' ∷ b'4' ∷ [])
    ≡ some (0 ∷ 0 ∷ 0 ∷ 0 ∷ 0 ∷ 0 ∷ 258 ∷ 772 ∷ [])
unfolding expand_ipv6 dotted_tail octets_of split_double show_hex hex_number
fold_test = refl
