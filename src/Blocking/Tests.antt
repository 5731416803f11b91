-- ===== src/Blocking/Tests.antt =====
-- The domain "b.c" is blocked, and so is the top-level domain "c".
use hostscore.Prelude.{ℕ, ◌≡◌, refl, ◌↔◌, ◌⊎◌, true, false, List, [], ◌∷◌, none, some, mem_str}
use hostscore.Net.{NetLib, split_dots}
use hostscore.Blocking.{hostname, ip_blocked, is_blocked}
use hostscore.Blocking.Domains.{DomainAbove, is_blocked-DomainAbove}

-- Every address is its own host.
abbrev net : NetLib
net = record {
  split_host_port = λ s. some (s, []);
  atoi = λ _. none;
  parse_ip = λ _. none;
  is_loopback_ip = λ _. false;
  is_unspecified = λ _. false;
  subnet_contains = λ _ _. false;
  to_lower = λ s. s;
  lookup_ip = λ _. none;
  lookup_host = λ _. none;
  is_ipv4 = λ _. true;
  subnet_of = λ _ _. none;
}

abbrev domains : List (List ℕ)
domains = (b'b' ∷ b'.' ∷ b'c' ∷ []) ∷ (b'c' ∷ []) ∷ []

-- "a.b.c" and "a.c".
abbrev below : List ℕ
below = b'a' ∷ b'.' ∷ b'b' ∷ b'.' ∷ b'c' ∷ []

abbrev beside : List ℕ
beside = b'a' ∷ b'.' ∷ b'c' ∷ []

below_blocked : is_blocked net domains below ≡ true
unfolding is_blocked
below_blocked = refl

beside_free : is_blocked net domains beside ≡ false
unfolding is_blocked
beside_free = refl

is_blocked-DomainAbove_example : (is_blocked net domains below ≡ true) ↔ (
    (mem_str below domains ≡ true)
    ⊎ (mem_str (hostname net below) domains ≡ true)
    ⊎ (ip_blocked net domains (hostname net below) ≡ true)
    ⊎ DomainAbove domains (split_dots [] (hostname net below)))
is_blocked-DomainAbove_example = is_blocked-DomainAbove net domains below
