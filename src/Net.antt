-- ===== src/Net.antt =====
-- internal/utils/net.go: which addresses a host may announce, and its subnets. A string is the list
-- of its bytes. The package net of Go is a record of functions; an IP address is a number.
pub mod Hostname
use hostscore.Prelude.{
  ℕ, Bool, true, false, ◌&&◌, ◌||◌, not, List, [], ◌∷◌, Option, none, some, ltb, leb, ◌==◌, length,
  if◌then◌else◌, str_eq, mem_str,
}

-- What the file calls of net, strconv and strings.
pub record NetLib : Type 0 where
  -- The host and the port.
  pub split_host_port : List ℕ → Option (List ℕ × List ℕ)
  -- A number below 1 is given as 0: only the range of ports is asked for.
  pub atoi : List ℕ → Option ℕ
  pub parse_ip : List ℕ → Option ℕ
  pub is_loopback_ip : ℕ → Bool
  pub is_unspecified : ℕ → Bool
  -- Whether the string is a CIDR subnet that contains the address.
  pub subnet_contains : List ℕ → ℕ → Bool
  pub to_lower : List ℕ → List ℕ
  pub lookup_ip : List ℕ → Option (List ℕ)
  -- `net.LookupHost`.
  pub lookup_host : List ℕ → Option (List (List ℕ))
  pub is_ipv4 : ℕ → Bool
  -- `net.ParseCIDR(fmt.Sprintf("%s/%d", ip, range))`, printed.
  pub subnet_of : ℕ → ℕ → Option (List ℕ)

pub data AddressError : Type 0 where
  loopback split_failed port_not_integer port_invalid unspecified hostname_length : AddressError
  unqualified label_length label_hyphen invalid_characters : AddressError

-- "localhost".
abbrev pub localhost : List ℕ
localhost = b'l' ∷ b'o' ∷ b'c' ∷ b'a' ∷ b'l' ∷ b'h' ∷ b'o' ∷ b's' ∷ b't' ∷ []

-- "10.0.0.0/8" to "fd00::/8".
abbrev local_cidrs : List (List ℕ)
local_cidrs =
    (b'1' ∷ b'0' ∷ b'.' ∷ b'0' ∷ b'.' ∷ b'0' ∷ b'.' ∷ b'0' ∷ b'/' ∷ b'8' ∷ [])
    ∷ (b'1' ∷ b'7' ∷ b'2' ∷ b'.' ∷ b'1' ∷ b'6' ∷ b'.' ∷ b'0' ∷ b'.' ∷ b'0' ∷ b'/' ∷ b'1' ∷ b'2'
        ∷ [])
    ∷ (b'1' ∷ b'9' ∷ b'2' ∷ b'.' ∷ b'1' ∷ b'6' ∷ b'8' ∷ b'.' ∷ b'0' ∷ b'.' ∷ b'0' ∷ b'/' ∷ b'1'
        ∷ b'6' ∷ [])
    ∷ (b'1' ∷ b'0' ∷ b'0' ∷ b'.' ∷ b'6' ∷ b'4' ∷ b'.' ∷ b'0' ∷ b'.' ∷ b'0' ∷ b'/' ∷ b'1' ∷ b'0'
        ∷ [])
    ∷ (b'1' ∷ b'6' ∷ b'9' ∷ b'.' ∷ b'2' ∷ b'5' ∷ b'4' ∷ b'.' ∷ b'0' ∷ b'.' ∷ b'0' ∷ b'/' ∷ b'1'
        ∷ b'6' ∷ [])
    ∷ (b'f' ∷ b'd' ∷ b'0' ∷ b'0' ∷ b':' ∷ b':' ∷ b'/' ∷ b'8' ∷ [])
    ∷ []

-- `strings.Split(s, ".")`; `label` is the part that is being read, last byte first.
abbrev pub reverse_onto : List ℕ → List ℕ → List ℕ
reverse_onto [] ys = ys
reverse_onto (x ∷ xs) ys = reverse_onto xs (x ∷ ys)

abbrev pub split_dots : List ℕ → List ℕ → List (List ℕ)
split_dots label [] = reverse_onto label [] ∷ []
split_dots label (x ∷ xs) =
    let rest = split_dots [] xs in
    let longer = split_dots (x ∷ label) xs in
    if x == b'.' then reverse_onto label [] ∷ rest else longer

-- `strings.TrimSuffix(s, ".")`.
abbrev pub trim_dot : List ℕ → List ℕ
trim_dot [] = []
trim_dot (x ∷ []) = if x == b'.' then [] else x ∷ []
trim_dot (x ∷ y ∷ xs) = x ∷ trim_dot (y ∷ xs)

abbrev pub starts_with : ℕ → List ℕ → Bool
starts_with c [] = false
starts_with c (x ∷ xs) = x == c

abbrev pub ends_with : ℕ → List ℕ → Bool
ends_with c [] = false
ends_with c (x ∷ []) = x == c
ends_with c (x ∷ y ∷ xs) = ends_with c (y ∷ xs)

-- A letter, a number or a hyphen.
abbrev pub is_label_char : ℕ → Bool
is_label_char r = leb b'a' r && leb r b'z' || (leb b'0' r && leb r b'9' || r == b'-')

abbrev pub all_label_chars : List ℕ → Bool
all_label_chars [] = true
all_label_chars (r ∷ rs) = is_label_char r && all_label_chars rs

module _ (net : NetLib) where
  unfoldable pub is_loopback : List ℕ → Bool
  is_loopback addr = elim (net.split_host_port addr) [
    | none ↦ false
    | some (host, port) ↦
        (if str_eq host localhost
          then true
          else elim (net.parse_ip host) [ none ↦ false | some ip ↦ net.is_loopback_ip ip ])
  ]

  abbrev in_subnets : ℕ → List (List ℕ) → Bool
  in_subnets ip [] = false
  in_subnets ip (cidr ∷ cidrs) = net.subnet_contains cidr ip || in_subnets ip cidrs

  -- On an error of the split the host is "".
  abbrev host_of : List ℕ → List ℕ
  host_of addr = elim (net.split_host_port addr) [ none ↦ [] | some (host, port) ↦ host ]

  unfoldable pub is_local : List ℕ → Bool
  unfolding is_loopback
  is_local addr =
      if is_loopback addr
      then true
      else elim (net.parse_ip (host_of addr)) [ none ↦ false | some ip ↦ in_subnets ip local_cidrs ]

  -- The loop over the labels; the first error is returned.
  unfoldable pub check_labels : List (List ℕ) → Option AddressError
  check_labels [] = none
  check_labels (label ∷ labels) =
      if ltb (length label) 1 || ltb 63 (length label)
      then some label_length
      else if starts_with b'-' label || ends_with b'-' label
      then some label_hyphen
      else if not (all_label_chars (net.to_lower label))
      then some invalid_characters
      else check_labels labels

  unfoldable pub check_hostname : List ℕ → Option AddressError
  unfolding check_labels
  check_hostname host =
      if ltb (length (trim_dot host)) 1 || ltb 253 (length (trim_dot host))
      then some hostname_length
      else if length (split_dots [] (trim_dot host)) == 1
      then some unqualified
      else check_labels (split_dots [] (trim_dot host))

  check_host : List ℕ → List ℕ → Option AddressError
  unfolding check_hostname
  check_host addr host = if is_loopback addr then none else elim (net.parse_ip host) [
    | none ↦ check_hostname host
    | some ip ↦ (if net.is_unspecified ip then some unspecified else none)
  ]

  unfoldable pub is_std_valid : List ℕ → Option AddressError
  unfolding check_host
  is_std_valid addr = elim (net.split_host_port addr) [
    | none ↦ some split_failed
    | some (host, port) ↦ elim (net.atoi port) [
      | none ↦ some port_not_integer
      | some n ↦ (if ltb n 1 || ltb 65_535 n then some port_invalid else check_host addr host)
    ]
  ]

  unfoldable pub is_valid : List ℕ → Option AddressError
  unfolding is_std_valid is_loopback
  is_valid addr = if is_loopback addr then some loopback else is_std_valid addr

  subnets : List ℕ → Option (List (List ℕ))
  subnets [] = some []
  subnets (ip ∷ ips) = elim (net.subnet_of ip (if net.is_ipv4 ip then 24 else 54)) [
    | none ↦ none
    | some s ↦ elim (subnets ips) [ none ↦ none | some rest ↦ some (s ∷ rest) ]
  ]

  unfoldable pub lookup_ip_nets : List ℕ → Option (List (List ℕ))
  unfolding subnets
  lookup_ip_nets addr = elim (net.lookup_ip (host_of addr)) [ none ↦ none | some ips ↦ subnets ips ]

-- Every subnet of the second list is in the map made of the first.
abbrev pub all_in : List (List ℕ) → List (List ℕ) → Bool
all_in nets [] = true
all_in nets (s ∷ ss) = mem_str s nets && all_in nets ss

unfoldable pub equal_ip_nets : List (List ℕ) → List (List ℕ) → Bool
equal_ip_nets a b = if length a == length b then all_in a b else false
