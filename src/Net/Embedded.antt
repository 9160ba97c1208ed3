-- ===== src/Net/Embedded.antt =====
-- packages/server/src/net.ts: what `isBlockedIp` says of an IPv4 address in the hexadecimal form in which
-- IPv6 embeds it.
use memoturn.Prelude.{
  ℕ, suc, ◌+◌, ◌*◌, ◌/◌, ◌%◌, ◌≡◌, ◌<◌, refl, ap, ap₂, else_case, none_case, ◌∙◌, Bool, true, false,
  not, List, [], ◌∷◌, ◌++◌, Option, some, ◌==◌, ltb, all, All, arith, map,
}
use memoturn.Net.Literals.{
  Units, split_double_from, split_double, strip_brackets, hex_number, dotted_tail,
}
use memoturn.Net.{
  IpVersion, ip4, ip6, to_groups, all_groups, join_groups, expand_halves, fold_dotted,
  expand_folded, expand_ipv6, embedded_ipv4, group_text, is_blocked_groups, is_blocked_lower,
  is_blocked_ipv6, is_blocked_within, is_blocked_ip,
}
use memoturn.Net.Ranges.{
  address, split_on-append, in_blocked_block, is_blocked_ipv4-dotted, is_blocked_within-ip4,
}
use memoturn.Net.Plain.{
  is_hex_unit, is_address_unit, all-append, all-weaken, lower_units-address, strip_last-address,
  split_on-plain, dotted_tail-plain, split_double-plain, split_double-colon,
}

-- `::ffff:` and two groups of digits.
abbrev pub mapped_text : Units → Units → Units
mapped_text h l = b':' ∷ b':' ∷ (b'f' ∷ b'f' ∷ b'f' ∷ b'f' ∷ []) ++ b':' ∷ (h ++ b':' ∷ l)

hex-address : (s : Units) → all is_hex_unit s ≡ true → all is_address_unit s ≡ true
hex-address = all-weaken is_hex_unit is_address_unit (λ c h. ground arith)

hex-colon : (s : Units) → all is_hex_unit s ≡ true → all (λ c. not (c == b':')) s ≡ true
hex-colon = all-weaken is_hex_unit (λ c. not (c == b':')) (λ c h. ground arith)

address-dot : (s : Units) → all is_address_unit s ≡ true → all (λ c. not (c == b'.')) s ≡ true
address-dot = all-weaken is_address_unit (λ c. not (c == b'.')) (λ c h. ground arith)

-- A group: some digits whose value has 16 bits.
pub record IsGroup (h : Units) (v : ℕ) : Type 0 where
  pub digits : all is_hex_unit h ≡ true
  pub value : hex_number h ≡ some v
  pub small : v < 65536

strip_brackets-address : (s : Units) → all is_address_unit s ≡ true → strip_brackets s ≡ s
strip_brackets-address [] h = refl
strip_brackets-address (c ∷ s) h =
    let here : (c == b'[') ≡ false = ground arith in
    else_case (c == b'[') _ _ here ∙ strip_last-address (c ∷ s) h

fold_dotted-plain : (s : Units) → all (λ c. not (c == b'.')) s ≡ true → fold_dotted s ≡ some s
unfolding fold_dotted
fold_dotted-plain s h = none_case (dotted_tail s) _ _ (dotted_tail-plain s h)

expand_ipv6-address :
    (s : Units) → all is_address_unit s ≡ true → expand_ipv6 s ≡ expand_halves (split_double s)
unfolding expand_ipv6 expand_folded
expand_ipv6-address s h =
    ap (λ t. expand_folded (fold_dotted t)) (strip_brackets-address s h)
    ∙ ap expand_folded (fold_dotted-plain s (address-dot s h))

all_groups-small :
    (g : ℕ) (gs : List (Option ℕ)) (hs : List ℕ)
    → g < 65536
    → all_groups gs ≡ some hs
    → all_groups (some g ∷ gs) ≡ some (g ∷ hs)
unfolding all_groups
all_groups-small g gs hs small rest =
    let fits : ltb 0xffff g ≡ false = ground arith in rw (fits, rest) refl

all_groups-map : (hs : List ℕ) → All (λ g. g < 65536) hs → all_groups (map some hs) ≡ some hs
unfolding all_groups
all_groups-map [] h = refl
all_groups-map (g ∷ hs) (small, h) = all_groups-small g (map some hs) hs small (all_groups-map hs h)

octet_of : (v : ℕ) → v < 65536 → (v / 256 < 256) × (v % 256 < 256)
octet_of v h = (omega arith, omega arith)

is_blocked_within-ip6 :
    (is_ip : Units → IpVersion) (rounds : ℕ) (ip : Units)
    → is_ip ip ≡ ip6
    → is_blocked_within is_ip (suc rounds) ip ≡ is_blocked_ipv6 (is_blocked_within is_ip rounds) ip
unfolding is_blocked_within
is_blocked_within-ip6 is_ip rounds ip e = rw (e, is_blocked_within) refl

module _ (c d : ℕ) (cs ds : Units) (hi lo : ℕ) (gh : IsGroup (c ∷ cs) hi)
    (gl : IsGroup (d ∷ ds) lo) where
  mapped-address : all is_address_unit (mapped_text (c ∷ cs) (d ∷ ds)) ≡ true
  mapped-address =
      all-append is_address_unit (c ∷ cs) (b':' ∷ d ∷ ds) (hex-address (c ∷ cs) gh.digits)
        (hex-address (d ∷ ds) gl.digits)

  no_colon : (e : ℕ) (es : Units) → all is_hex_unit (e ∷ es) ≡ true → (e == b':') ≡ false
  no_colon e es h = ground arith

  mapped-halves :
      split_double (mapped_text (c ∷ cs) (d ∷ ds))
      ≡ [] ∷ (b'f' ∷ b'f' ∷ b'f' ∷ b'f' ∷ b':' ∷ c ∷ (cs ++ b':' ∷ d ∷ ds)) ∷ []
  unfolding split_double split_double_from
  mapped-halves = ap (◌∷◌ []) (
      split_double-colon (b'f' ∷ b'f' ∷ b'f' ∷ b'f' ∷ []) c (cs ++ b':' ∷ d ∷ ds) refl
        (no_colon c cs gh.digits)
        (split_double-colon (c ∷ cs) d ds (hex-colon (c ∷ cs) gh.digits) (no_colon d ds gl.digits)
          (split_double-plain (d ∷ ds) (hex-colon (d ∷ ds) gl.digits))))

  mapped-groups :
      to_groups (b'f' ∷ b'f' ∷ b'f' ∷ b'f' ∷ b':' ∷ c ∷ (cs ++ b':' ∷ d ∷ ds))
      ≡ some 0xffff ∷ some hi ∷ some lo ∷ []
  unfolding to_groups hex_number
  mapped-groups =
      let parts =
        split_on-append b':' (b'f' ∷ b'f' ∷ b'f' ∷ b'f' ∷ []) (c ∷ (cs ++ b':' ∷ d ∷ ds)) refl
        ∙ ap (◌∷◌ (b'f' ∷ b'f' ∷ b'f' ∷ b'f' ∷ [])) (
            split_on-append b':' (c ∷ cs) (d ∷ ds) (hex-colon (c ∷ cs) gh.digits)
            ∙ ap (◌∷◌ (c ∷ cs)) (split_on-plain b':' (d ∷ ds) (hex-colon (d ∷ ds) gl.digits))) in
      ap (map hex_number) parts ∙ ap₂ (λ x y. some 0xffff ∷ x ∷ y ∷ []) gh.value gl.value

  mapped-expand :
      expand_ipv6 (mapped_text (c ∷ cs) (d ∷ ds)) ≡ some (0 ∷ 0 ∷ 0 ∷ 0 ∷ 0 ∷ 0xffff ∷ hi ∷ lo ∷ [])
  unfolding expand_halves to_groups join_groups
  mapped-expand =
      expand_ipv6-address (mapped_text (c ∷ cs) (d ∷ ds)) mapped-address
      ∙ ap expand_halves mapped-halves
      ∙ ap (join_groups []) mapped-groups
      ∙ all_groups-map (0 ∷ 0 ∷ 0 ∷ 0 ∷ 0 ∷ 0xffff ∷ hi ∷ lo ∷ []) (
        omega arith,
        (
          omega arith,
          (omega arith, (omega arith, (omega arith, (omega arith, (gh.small, (gl.small, tt)))))),
        ),
      )

  -- The test of the text comes down to the test of the dotted text.
  is_blocked_ipv6-mapped :
      (again : Units → Bool)
      → is_blocked_ipv6 again (mapped_text (c ∷ cs) (d ∷ ds)) ≡ again (group_text hi lo)
  unfolding is_blocked_ipv6 is_blocked_lower is_blocked_groups embedded_ipv4
  is_blocked_ipv6-mapped again =
      ap (λ t. is_blocked_lower again (strip_brackets t))
        (lower_units-address (mapped_text (c ∷ cs) (d ∷ ds)) mapped-address)
      ∙ ap (is_blocked_lower again)
          (strip_brackets-address (mapped_text (c ∷ cs) (d ∷ ds)) mapped-address)
      ∙ ap (is_blocked_groups again) mapped-expand

  group_text-address :
      in_blocked_block (address (hi / 256) (hi % 256) (lo / 256) (lo % 256))
      ≡ in_blocked_block (65536 * hi + lo)
  group_text-address =
      let same : address (hi / 256) (hi % 256) (lo / 256) (lo % 256) ≡ 65536 * hi + lo =
        omega arith in
      ap in_blocked_block same

  -- The address of an IPv6 text `::ffff:` with two groups of one to four hexadecimal digits in lower case,
  -- which is how URL parsers write the address that it embeds, is blocked exactly when that IPv4 address
  -- lies in one of the blocked blocks. `isIP` takes the text for IPv6 and the dotted text for IPv4.
  pub is_blocked_ip-mapped :
      (is_ip : Units → IpVersion)
      → is_ip (mapped_text (c ∷ cs) (d ∷ ds)) ≡ ip6
      → is_ip (group_text hi lo) ≡ ip4
      → is_blocked_ip is_ip (mapped_text (c ∷ cs) (d ∷ ds)) ≡ in_blocked_block (65536 * hi + lo)
  unfolding is_blocked_ip group_text
  is_blocked_ip-mapped is_ip six four =
      is_blocked_within-ip6 is_ip 1 (mapped_text (c ∷ cs) (d ∷ ds)) six
      ∙ is_blocked_ipv6-mapped (is_blocked_within is_ip 1)
      ∙ is_blocked_within-ip4 is_ip 0 (group_text hi lo) four
      ∙ is_blocked_ipv4-dotted (hi / 256) (hi % 256) (lo / 256) (lo % 256) (octet_of hi gh.small).0
          (octet_of hi gh.small).1 (octet_of lo gl.small).0 (octet_of lo gl.small).1
      ∙ group_text-address
