-- ===== src/Blocking.antt =====
-- hostdb/hostfilter.go: which hosts are blocked. The map of domains is a list, read by membership.
pub mod Domains
mod Tests
use hostscore.Prelude.{
  ℕ, Bool, true, false, ◌||◌, List, [], ◌∷◌, ◌++◌, Option, none, some, if◌then◌else◌, mem_str,
}
use hostscore.Net.{NetLib, split_dots}

-- `strings.Join(elements, ".")`.
abbrev pub join_dots : List (List ℕ) → List ℕ
join_dots [] = []
join_dots (x ∷ []) = x
join_dots (x ∷ y ∷ xs) = x ++ (b'.' ∷ join_dots (y ∷ xs))

-- The last loop: every suffix of at least two elements.
unfoldable pub suffix_blocked : List (List ℕ) → List (List ℕ) → Bool
suffix_blocked domains [] = false
suffix_blocked domains (x ∷ []) = false
suffix_blocked domains (x ∷ y ∷ xs) =
    mem_str (join_dots (x ∷ y ∷ xs)) domains || suffix_blocked domains (y ∷ xs)

module _ (net : NetLib) where
  -- The loop of `addDomains`: the domain, and the addresses that it resolves to.
  unfoldable pub add_domains : List (List ℕ) → List (List ℕ) → List (List ℕ)
  add_domains domains [] = domains
  add_domains domains (d ∷ ds) = elim (net.lookup_host d) [
    | none ↦ add_domains (d ∷ domains) ds
    | some addrs ↦ add_domains (addrs ++ (d ∷ domains)) ds
  ]

  unfoldable pub new_blocked_domains : List (List ℕ) → List (List ℕ)
  unfolding add_domains
  new_blocked_domains = add_domains []

  abbrev pub subnet_blocked : List (List ℕ) → ℕ → Bool
  subnet_blocked [] ip = false
  subnet_blocked (d ∷ ds) ip = net.subnet_contains d ip || subnet_blocked ds ip

  -- The host name is "" when the address does not split.
  abbrev pub hostname : List ℕ → List ℕ
  hostname addr = elim (net.split_host_port addr) [ none ↦ [] | some (host, port) ↦ host ]

  abbrev pub ip_blocked : List (List ℕ) → List ℕ → Bool
  ip_blocked domains host = elim (net.parse_ip host) [
    | none ↦ false
    | some ip ↦ subnet_blocked domains ip
  ]

  unfoldable pub is_blocked : List (List ℕ) → List ℕ → Bool
  unfolding suffix_blocked
  is_blocked domains addr =
      if mem_str addr domains
      then true
      else if mem_str (hostname addr) domains
      then true
      else if ip_blocked domains (hostname addr)
      then true
      else suffix_blocked domains (split_dots [] (hostname addr))
