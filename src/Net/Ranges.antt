-- ===== src/Net/Ranges.antt =====
-- packages/server/src/net.ts: what `isBlockedIp` says of an IPv4 address, against the ranges as CIDR
-- blocks.
use memoturn.Prelude.{
  ℕ, zero, suc, ◌+◌, ◌*◌, ◌/◌, ◌^◌, ◌-◌, ◌≡◌, ◌<◌, refl, sym, ap, ap₂, ◌∙◌, Bool, true, false, ◌&&◌,
  ◌||◌, not, List, [], ◌∷◌, ◌++◌, Option, none, some, ◌==◌, ==_iff, leb, all, any, arith,
  Bool-cases, inl, inr, or_else,
}
use memoturn.Net.Literals.{Units, split_on, decimal_of, show_octet, put_first}
use memoturn.Net.{
  IpVersion, ip4, is_blocked_octets, is_blocked_ipv4, is_blocked_parts, is_blocked_numbers,
  part_number, dotted, is_blocked_within, is_blocked_ip,
}

-- An address as the number of its four octets, and the CIDR blocks `base/bits`.
abbrev pub address : ℕ → ℕ → ℕ → ℕ → ℕ
address a b c d = 16777216 * a + 65536 * b + 256 * c + d

abbrev pub in_block : ℕ → ℕ × ℕ → Bool
in_block n (base, bits) = n / 2 ^ (32 - bits) == base / 2 ^ (32 - bits)

-- 127.0.0.0/8, 10.0.0.0/8, 172.16.0.0/12, 192.168.0.0/16, 169.254.0.0/16, 0.0.0.0/8 and 224.0.0.0/3.
abbrev pub blocked_blocks : List (ℕ × ℕ)
blocked_blocks =
    (address 127 0 0 0, 8)
    ∷ (address 10 0 0 0, 8)
    ∷ (address 172 16 0 0, 12)
    ∷ (address 192 168 0 0, 16)
    ∷ (address 169 254 0 0, 16)
    ∷ (address 0 0 0 0, 8)
    ∷ (address 224 0 0 0, 3)
    ∷ []

abbrev pub in_blocked_block : ℕ → Bool
in_blocked_block n = any (in_block n) blocked_blocks

Bool-eq : (b c : Bool) → (b ≡ true → c ≡ true) → (c ≡ true → b ≡ true) → b ≡ c
Bool-eq true c f g = sym (f refl)
Bool-eq false true f g = g refl
Bool-eq false false f g = refl

module _ (a b c d : ℕ) (la : a < 256) (lb : b < 256) (lc : c < 256) (ld : d < 256) where
  in_block-octet : (k : ℕ) → (a == k) ≡ in_block (address a b c d) (address k 0 0 0, 8)
  in_block-octet k = Bool-eq _ _ (λ h. ground arith) (λ h. ground arith)

  in_block-octets :
      (k l : ℕ) → l < 256 → (a == k && b == l) ≡ in_block (address a b c d) (address k l 0 0, 16)
  in_block-octets k l ll = Bool-eq _ _ (λ h. ground arith) (λ h. ground arith)

  in_block-private :
      (a == 172 && leb 16 b && leb b 31) ≡ in_block (address a b c d) (address 172 16 0 0, 12)
  in_block-private = Bool-eq _ _ (λ h. ground arith) (λ h. ground arith)

  in_block-reserved : leb 224 a ≡ (in_block (address a b c d) (address 224 0 0 0, 3) || false)
  in_block-reserved = Bool-eq _ _ (λ h. ground arith) (λ h. ground arith)

  pub is_blocked_octets-block : is_blocked_octets a b ≡ in_blocked_block (address a b c d)
  unfolding is_blocked_octets
  is_blocked_octets-block = ap₂ ◌||◌ (in_block-octet 127) (
      ap₂ ◌||◌ (in_block-octet 10) (
        ap₂ ◌||◌ in_block-private (
          ap₂ ◌||◌ (in_block-octets 192 168 (omega arith)) (
            ap₂ ◌||◌ (in_block-octets 169 254 (omega arith))
              (ap₂ ◌||◌ (in_block-octet 0) in_block-reserved)))))

all_below : ℕ → (ℕ → Bool) → Bool
all_below zero p = true
all_below (suc n) p = p n && all_below n p

all_below_lem : (n : ℕ) (p : ℕ → Bool) (x : ℕ) → all_below n p ≡ true → x < n → p x ≡ true
unfolding all_below
all_below_lem zero p x h lt = absurd (omega arith)
all_below_lem (suc n) p x h lt = ground (arith, all_below_lem n p x)

-- The text of an octet: no dot in it, and it reads back.
abbrev reads_back : ℕ → Bool
reads_back n =
    all (λ c. not (c == b'.')) (show_octet n) && or_else (decimal_of (show_octet n)) 256 == n

octets_read_back : all_below 256 reads_back ≡ true
unfolding all_below show_octet decimal_of
octets_read_back = refl

or_else-some : (o : Option ℕ) (n : ℕ) → (or_else o 256 == n) ≡ true → n < 256 → o ≡ some n
or_else-some none n e h = absurd (ground arith)
or_else-some (some m) n e h = ap some ((==_iff m n).0 e)

and_parts : (a b : Bool) → (a && b) ≡ true → (a ≡ true) × (b ≡ true)
and_parts true b e = (refl, e)
and_parts false b e = cc

module _ (n : ℕ) (h : n < 256) where
  octet_facts :
      (all (λ c. not (c == b'.')) (show_octet n) ≡ true) × (decimal_of (show_octet n) ≡ some n)
  octet_facts =
      let (plain, back) = and_parts _ _ (all_below_lem 256 reads_back n octets_read_back h) in
      (plain, or_else-some (decimal_of (show_octet n)) n back h)

pub split_on-append :
    (sep : ℕ) (s t : Units)
    → all (λ c. not (c == sep)) s ≡ true
    → split_on sep (s ++ sep ∷ t) ≡ s ∷ split_on sep t
unfolding split_on
split_on-append sep [] t h = ground arith
split_on-append sep (c ∷ s) t h =
    let parts = and_parts (not (c == sep)) (all (λ e. not (e == sep)) s) h in
    elim (Bool-cases (c == sep)) [
      | inl same ↦ absurd (ground arith)
      | inr other ↦ rw other (ap (put_first c) (split_on-append sep s t parts.1))
    ]

pub is_blocked_within-ip4 :
    (is_ip : Units → IpVersion) (rounds : ℕ) (ip : Units)
    → is_ip ip ≡ ip4
    → is_blocked_within is_ip (suc rounds) ip ≡ is_blocked_ipv4 ip
unfolding is_blocked_within
is_blocked_within-ip4 is_ip rounds ip e = rw (e, is_blocked_within) refl

module _ (a b c d : ℕ) (la : a < 256) (lb : b < 256) (lc : c < 256) (ld : d < 256) where
  dotted-parts :
      (rest : List Units) × (split_on b'.' (dotted a b c d) ≡ show_octet a ∷ show_octet b ∷ rest)
  unfolding dotted
  dotted-parts = (
    split_on b'.' (show_octet c ++ b'.' ∷ show_octet d),
    split_on-append b'.' (show_octet a) _ (octet_facts a la).0
        ∙ ap (◌∷◌ (show_octet a)) (split_on-append b'.' (show_octet b) _ (octet_facts b lb).0),
  )

  pub is_blocked_ipv4-dotted : is_blocked_ipv4 (dotted a b c d) ≡ in_blocked_block (address a b c d)
  unfolding is_blocked_ipv4 is_blocked_parts is_blocked_numbers part_number
  is_blocked_ipv4-dotted =
      let (rest, parts) = dotted-parts in
      ap is_blocked_parts parts
      ∙ ap₂ is_blocked_numbers (octet_facts a la).1 (octet_facts b lb).1
      ∙ is_blocked_octets-block a b c d la lb lc ld

  -- The text of an IPv4 address, which `isIP` takes for one, is blocked exactly when the address lies in
  -- one of the blocks 127.0.0.0/8, 10.0.0.0/8, 172.16.0.0/12, 192.168.0.0/16, 169.254.0.0/16, 0.0.0.0/8
  -- and 224.0.0.0/3.
  pub is_blocked_ip-dotted :
      (is_ip : Units → IpVersion)
      → is_ip (dotted a b c d) ≡ ip4
      → is_blocked_ip is_ip (dotted a b c d) ≡ in_blocked_block (address a b c d)
  unfolding is_blocked_ip
  is_blocked_ip-dotted is_ip e = is_blocked_within-ip4 is_ip 1 _ e ∙ is_blocked_ipv4-dotted
