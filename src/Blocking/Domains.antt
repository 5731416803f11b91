-- ===== src/Blocking/Domains.antt =====
-- hostdb/hostfilter.go: an address is blocked by itself, its host, its subnet or a domain above it.
use hostscore.Prelude.{
  ℕ, ◌≤◌, ◌≡◌, refl, ap, ◌↔◌, ◌⊎◌, inl, inr, Bool, true, false, List, [], ◌∷◌, ◌++◌, arith, length,
  Bool-cases, mem_str, if◌then◌else◌,
}
use hostscore.Net.{NetLib, split_dots}
use hostscore.Blocking.{join_dots, suffix_blocked, hostname, ip_blocked, is_blocked}

-- A blocked domain of two labels or more that the labels end in.
abbrev pub DomainAbove : List (List ℕ) → List (List ℕ) → Type 0
DomainAbove domains labels =
    (first : List (List ℕ)) × (rest : List (List ℕ)) × (labels ≡ first ++ rest)
    × (2 ≤ length rest)
    × (mem_str (join_dots rest) domains ≡ true)

suffix_blocked-DomainAbove :
    (domains labels : List (List ℕ))
    → suffix_blocked domains labels ≡ true
    → DomainAbove domains labels
unfolding suffix_blocked
suffix_blocked-DomainAbove domains [] h = cc
suffix_blocked-DomainAbove domains (x ∷ []) h = cc
suffix_blocked-DomainAbove domains (x ∷ y ∷ xs) h =
    elim (Bool-cases (mem_str (join_dots (x ∷ y ∷ xs)) domains)) [
      | inl hit ↦ ([], x ∷ y ∷ xs, refl, omega arith, hit)
      | inr miss ↦
          let (first, rest, e, le, m) =
            suffix_blocked-DomainAbove domains (y ∷ xs) (ground (arith, miss)) in
          (x ∷ first, rest, ap (◌∷◌ x) e, le, m)
    ]

suffix_blocked-append :
    (domains first rest : List (List ℕ))
    → 2 ≤ length rest
    → mem_str (join_dots rest) domains ≡ true
    → suffix_blocked domains (first ++ rest) ≡ true
unfolding suffix_blocked
suffix_blocked-append domains [] (x ∷ y ∷ xs) le m = ground (arith, m)
suffix_blocked-append domains [] (x ∷ []) le m = absurd (omega arith)
suffix_blocked-append domains [] [] le m = absurd (omega arith)
suffix_blocked-append domains (f ∷ []) (x ∷ xs) le m =
    ground (arith, suffix_blocked-append domains [] (x ∷ xs) le m)
suffix_blocked-append domains (f ∷ []) [] le m = absurd (omega arith)
suffix_blocked-append domains (f ∷ g ∷ fs) rest le m =
    ground (arith, suffix_blocked-append domains (g ∷ fs) rest le m)

any_true :
    (a b c d : Bool) (P : Type 0)
    → (d ≡ true) ↔ P
    → ((if a then true else if b then true else if c then true else d) ≡ true)
      ↔ ((a ≡ true) ⊎ (b ≡ true) ⊎ (c ≡ true) ⊎ P)
any_true true b c d P h = (λ _. inl refl, λ _. refl)
any_true false true c d P h = (λ _. inr (inl refl), λ _. refl)
any_true false false true d P h = (λ _. inr (inr (inl refl)), λ _. refl)
any_true false false false d P h = (λ e. inr (inr (inr (h.0 e))), last)
  where
    last : (false ≡ true) ⊎ (false ≡ true) ⊎ (false ≡ true) ⊎ P → d ≡ true
    last (inl e) = cc
    last (inr (inl e)) = cc
    last (inr (inr (inl e))) = cc
    last (inr (inr (inr p))) = h.1 p

-- `isBlocked` holds exactly if the address itself or its host is listed, the host is an IP address in
-- a listed subnet, or the labels of the host end in a listed domain of at least two labels: a listed
-- top-level domain blocks no host below it.
pub is_blocked-DomainAbove :
    (net : NetLib) (domains : List (List ℕ)) (addr : List ℕ)
    → (is_blocked net domains addr ≡ true) ↔ (
        (mem_str addr domains ≡ true)
        ⊎ (mem_str (hostname net addr) domains ≡ true)
        ⊎ (ip_blocked net domains (hostname net addr) ≡ true)
        ⊎ DomainAbove domains (split_dots [] (hostname net addr)))
unfolding is_blocked
is_blocked-DomainAbove net domains addr =
    let labels = split_dots [] (hostname net addr) in
    any_true (mem_str addr domains) (mem_str (hostname net addr) domains)
      (ip_blocked net domains (hostname net addr)) (suffix_blocked domains labels)
      (DomainAbove domains labels)
      (
        suffix_blocked-DomainAbove domains labels,
        λ (first, rest, e, le, m). rw e (suffix_blocked-append domains first rest le m),
      )
