-- ===== src/Portal/Tiers/Cuts.antt =====
-- cmd/hsc/database.go: the slices of `calculateTiers` cut the sorted hosts after the tenth and the
-- hundredth.
use hostscore.Prelude.{
  ℕ, zero, suc, ◌-◌, ◌≤◌, ◌<◌, ◌≡◌, refl, sym, ap, ◌∙◌, List, [], ◌∷◌, ◌++◌, ltb, leb, length,
  arith, Bool-cases, inl, inr,
}
use hostscore.Portal.{PortalHost, take, drop}
use hostscore.Portal.Pages.{take_past, drop_past, length-drop}
use hostscore.Portal.Tiers.{tier1_hosts, tier2_hosts, tier3_hosts}

take-drop : (n : ℕ) (l : List PortalHost) → take n l ++ drop n l ≡ l
take-drop zero l = refl
take-drop (suc n) [] = refl
take-drop (suc n) (x ∷ l) = ap (◌∷◌ x) (take-drop n l)

take-take : (n m : ℕ) (l : List PortalHost) → n ≤ m → take n (take m l) ≡ take n l
take-take zero m l h = refl
take-take (suc n) zero l h = absurd (omega arith)
take-take (suc n) (suc m) [] h = refl
take-take (suc n) (suc m) (x ∷ l) h = ap (◌∷◌ x) (take-take n m l (omega arith))

length-take : (n : ℕ) (l : List PortalHost) → length (take n l) ≡ length l - length (drop n l)
length-take zero l = omega arith
length-take (suc n) [] = omega arith
length-take (suc n) (x ∷ l) = omega (arith, length-take n l, length-drop n l)

append_assoc : (a b c : List PortalHost) → a ++ (b ++ c) ≡ (a ++ b) ++ c
append_assoc [] b c = refl
append_assoc (x ∷ a) b c = ap (◌∷◌ x) (append_assoc a b c)

tier1_lem : (hs : List PortalHost) → tier1_hosts hs ≡ take 10 hs
unfolding tier1_hosts
tier1_lem hs = elim (Bool-cases (leb 10 (length hs))) [
  | inl many ↦ rw many refl
  | inr few ↦ rw few (sym (take_past 10 hs (ground arith)))
]

tier2_lem : (hs : List PortalHost) → tier2_hosts hs ≡ drop 10 (take 100 hs)
unfolding tier2_hosts
tier2_lem hs = elim (Bool-cases (leb 100 (length hs))) [
  | inl many ↦ rw many refl
  | inr few ↦ elim (Bool-cases (ltb 10 (length hs))) [
    | inl some_left ↦ rw (few, some_left, take_past 100 hs (ground arith)) refl
    | inr none_left ↦
        rw (few, none_left, take_past 100 hs (ground arith)) (sym (drop_past 10 hs (ground arith)))
  ]
]

tier3_lem : (hs : List PortalHost) → tier3_hosts hs ≡ drop 100 hs
unfolding tier3_hosts
tier3_lem hs = elim (Bool-cases (ltb 100 (length hs))) [
  | inl many ↦ rw many refl
  | inr few ↦ rw few (sym (drop_past 100 hs (ground arith)))
]

-- The three parts are the hosts in their order, and a part is begun once those before it are full.
abbrev pub Cut : List PortalHost → Type 0
Cut hs =
    (tier1_hosts hs ++ (tier2_hosts hs ++ tier3_hosts hs) ≡ hs)
    × (length (tier1_hosts hs) ≤ 10)
    × (length (tier2_hosts hs) ≤ 90)
    × (0 < length (tier2_hosts hs) → length (tier1_hosts hs) ≡ 10)
    × (0 < length (tier3_hosts hs) → length (tier2_hosts hs) ≡ 90)

pub hosts-Cut : (hs : List PortalHost) → Cut hs
hosts-Cut hs =
    let whole : take 10 hs ++ (drop 10 (take 100 hs) ++ drop 100 hs) ≡ hs =
      ap (λ l. l ++ (drop 10 (take 100 hs) ++ drop 100 hs))
        (sym (take-take 10 100 hs (omega arith)))
      ∙ append_assoc (take 10 (take 100 hs)) (drop 10 (take 100 hs)) (drop 100 hs)
      ∙ ap (λ l. l ++ drop 100 hs) (take-drop 10 (take 100 hs))
      ∙ take-drop 100 hs in
    let a = length-take 10 hs in
    let b = length-drop 10 hs in
    let c = length-take 100 hs in
    let d = length-drop 100 hs in
    let e = length-drop 10 (take 100 hs) in
    rw (tier1_lem hs, tier2_lem hs, tier3_lem hs)
      (whole, omega arith, omega arith, λ h. omega arith, λ h. omega arith)
