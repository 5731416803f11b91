-- ===== src/Net/Hostname.antt =====
-- internal/utils/net.go: what the addresses that pass `IsValid` look like.
use hostscore.Prelude.{
  ℕ, ◌≤◌, ◌≡◌, ◌≢◌, refl, ◌↔◌, ◌⊎◌, inl, inr, true, false, List, [], ◌∷◌, none, some, arith, All,
  length, Option-cases, Bool-cases,
}
use hostscore.Net.{
  NetLib, split_dots, trim_dot, starts_with, ends_with, all_label_chars, is_loopback, check_labels,
  check_hostname, check_host, is_std_valid, is_valid,
}

module _ (net : NetLib) where
  -- 1 to 63 bytes, no hyphen at either end, and only letters, numbers and hyphens in lower case.
  pub record IsLabel (label : List ℕ) : Type 0 where
    pub nonempty : 1 ≤ length label
    pub short : length label ≤ 63
    pub starts : starts_with b'-' label ≡ false
    pub ends : ends_with b'-' label ≡ false
    pub chars : all_label_chars (net.to_lower label) ≡ true

  pub record IsHostname (host : List ℕ) : Type 0 where
    pub nonempty : 1 ≤ length (trim_dot host)
    pub short : length (trim_dot host) ≤ 253
    pub qualified : length (split_dots [] (trim_dot host)) ≢ 1
    pub labels : All IsLabel (split_dots [] (trim_dot host))

  pub record IsPublic (addr host port : List ℕ) : Type 0 where
    pub number : ℕ
    pub is_number : net.atoi port ≡ some number
    pub low : 1 ≤ number
    pub high : number ≤ 65_535
    pub remote : is_loopback net addr ≡ false
    pub host_ok :
        ((ip : ℕ) × (net.parse_ip host ≡ some ip) × (net.is_unspecified ip ≡ false))
        ⊎ ((net.parse_ip host ≡ none) × IsHostname host)

  check_labels_lem : (ls : List (List ℕ)) → (check_labels net ls ≡ none) ↔ All IsLabel ls
  unfolding check_labels
  check_labels_lem [] = (λ _. tt, λ _. refl)
  check_labels_lem (l ∷ ls) = ground (arith, check_labels_lem ls)

  check_hostname_lem : (host : List ℕ) → (check_hostname net host ≡ none) ↔ IsHostname host
  unfolding check_hostname
  check_hostname_lem host = ground (arith, check_labels_lem (split_dots [] (trim_dot host)))

  abbrev HostOk : List ℕ → Type 0
  HostOk host =
      ((ip : ℕ) × (net.parse_ip host ≡ some ip) × (net.is_unspecified ip ≡ false))
      ⊎ ((net.parse_ip host ≡ none) × IsHostname host)

  check_host_lem :
      (addr host : List ℕ)
      → is_loopback net addr ≡ false
      → (check_host net addr host ≡ none) ↔ HostOk host
  unfolding check_host
  check_host_lem addr host remote = elim (Option-cases (net.parse_ip host)) [
    | inl e ↦ ground (arith, check_hostname_lem host)
    | inr (ip, e) ↦ ground arith
  ]

  -- `IsValid` accepts an address exactly when it splits into a host and a port that is a number from
  -- 1 to 65535, the host is no loopback address, and the host is an IP address other than the
  -- unspecified one, or else a name of at least two labels that is 1 to 253 bytes long without a final
  -- dot and whose labels are well formed.
  pub is_valid-IsPublic :
      (addr : List ℕ)
      → (is_valid net addr ≡ none) ↔ (
          (host : List ℕ) × (port : List ℕ) × (net.split_host_port addr ≡ some (host, port))
          × IsPublic addr host port)
  unfolding is_valid is_std_valid check_host
  is_valid-IsPublic addr = elim (Bool-cases (is_loopback net addr)) [
    | inl own ↦ ground arith
    | inr remote ↦ elim (Option-cases (net.split_host_port addr)) [
      | inl e ↦ ground arith
      | inr ((host, port), e) ↦ elim (Option-cases (net.atoi port)) [
        | inl f ↦ ground arith
        | inr (n, f) ↦ ground (arith, check_host_lem addr host remote)
      ]
    ]
  ]
