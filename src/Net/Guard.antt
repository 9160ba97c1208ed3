-- ===== src/Net/Guard.antt =====
-- packages/server/src/net.ts: which targets `assertPublicUrl` lets through.
use memoturn.Prelude.{
  ◌≡◌, ◌↔◌, refl, Bool, true, false, not, List, [], ◌∷◌, Option, none, some, all, is_empty,
  Bool-cases, inl, inr, if◌then◌else◌,
}
use memoturn.Net.Literals.{Units, units_eq, strip_brackets, https, http}
use memoturn.Net.{
  IpVersion, no_ip, ip4, ip6, Url, private_address, no_resolution, no_address, is_blocked_ip,
  check_addresses, check_as, check_host, check_url, assert_public_url,
}

module _ (is_ip : Units → IpVersion) (parse_url : Units → Option Url)
    (resolve : Units → Option (List Units)) where
  -- The addresses that a request to a host can reach: the host itself where it is an address.
  abbrev pub addresses_as : IpVersion → Units → Option (List Units)
  addresses_as no_ip host = resolve host
  addresses_as version host = some (host ∷ [])

  abbrev is_open : Units → Bool
  is_open a = not (is_blocked_ip is_ip a)

  -- There are addresses, and none of them is blocked.
  abbrev pub AllOpen : Option (List Units) → Type 0
  AllOpen none = ⊥
  AllOpen (some addresses) = (is_empty addresses ≡ false) × (all is_open addresses ≡ true)

  check_addresses_iff :
      (as_ : List Units)
      → (check_addresses is_ip as_ ≡ none) ↔ (all (λ a. not (is_blocked_ip is_ip a)) as_ ≡ true)
  unfolding check_addresses
  check_addresses_iff [] = (λ h. refl, λ h. refl)
  check_addresses_iff (a ∷ as_) = elim (Bool-cases (is_blocked_ip is_ip a)) [
    | inl blocked ↦ rw blocked (λ h. cc, λ h. cc)
    | inr free ↦ rw free (check_addresses_iff as_)
  ]

  check_literal_iff :
      (host : Units)
      → ((if is_blocked_ip is_ip host then some private_address else none) ≡ none)
        ↔ AllOpen (some (host ∷ []))
  check_literal_iff host = elim (Bool-cases (is_blocked_ip is_ip host)) [
    | inl blocked ↦ rw blocked (λ h. cc, λ h. cc)
    | inr free ↦ rw free (λ h. (refl, refl), λ h. refl)
  ]

  check_found_iff :
      (found : Option (List Units))
      → ((elim found [
        | none ↦ some no_resolution
        | some addresses ↦
            if is_empty addresses then some no_address else check_addresses is_ip addresses
      ])
          ≡ none)
        ↔ AllOpen found
  check_found_iff none = (λ h. cc, λ h. absurd h)
  check_found_iff (some []) = (λ h. cc, λ h. cc)
  check_found_iff (some (a ∷ as_)) =
      let (to, from) = check_addresses_iff (a ∷ as_) in (λ h. (refl, to h), λ h. from h.1)

  check_as_iff :
      (version : IpVersion) (host : Units)
      → (check_as is_ip parse_url resolve version host ≡ none) ↔ AllOpen (addresses_as version host)
  unfolding check_as
  check_as_iff no_ip host = check_found_iff (resolve host)
  check_as_iff ip4 host = check_literal_iff host
  check_as_iff ip6 host = check_literal_iff host

  -- The scheme is https, and all addresses of the host are open.
  abbrev pub IsAllowed : Option Url → Type 0
  IsAllowed none = ⊥
  IsAllowed (some url) =
      let host = strip_brackets url.hostname in
      (units_eq url.protocol https ≡ true) × AllOpen (addresses_as (is_ip host) host)

  check_url_iff :
      (url : Option Url) → (check_url is_ip parse_url resolve false url ≡ none) ↔ IsAllowed url
  unfolding check_url check_host
  check_url_iff none = (λ h. cc, λ h. absurd h)
  check_url_iff (some url) = elim (Bool-cases (units_eq url.protocol https)) [
    | inl secure ↦
        let host = strip_brackets url.hostname in
        let (to, from) = check_as_iff (is_ip host) host in
        rw secure (λ h. (refl, to h), λ h. from h.1)
    | inr other ↦ elim (Bool-cases (units_eq url.protocol http)) [
      | inl plain ↦ rw (other, plain) (λ h. cc, λ h. cc)
      | inr foreign ↦ rw (other, foreign) (λ h. cc, λ h. cc)
    ]
  ]

  -- Without the opt-in for private targets, a target passes exactly when it parses as a URL with the scheme
  -- https whose host is an address, or a name that resolves to at least one address, and none of these
  -- addresses is blocked.
  pub assert_public_url_iff :
      (raw : Units)
      → (assert_public_url is_ip parse_url resolve false raw ≡ none) ↔ IsAllowed (parse_url raw)
  unfolding assert_public_url
  assert_public_url_iff raw = check_url_iff (parse_url raw)
