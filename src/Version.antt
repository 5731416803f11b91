-- ===== src/Version.antt =====
-- internal/build/version.go: versions of hosts and their order. A string is the list of its bytes.
pub mod Order
mod Tests
use hostscore.Prelude.{
  ℕ, ◌+◌, Bool, true, false, ◌&&◌, List, [], ◌∷◌, map, ltb, ◌==◌, length, if◌then◌else◌,
}
use hostscore.Prelude.Int.{ℤ, pos, ltb_ℤ, pos_part, neg_part}
use hostscore.Net.{reverse_onto, split_dots}

-- -1, 0 and +1.
pub data Sign : Type 0 where
  less equal greater : Sign

-- `strings.Split(s, "-rc")`; `part` is the part that is being read, last byte first.
abbrev pub split_rc : List ℕ → List ℕ → List (List ℕ)
split_rc part [] = reverse_onto part [] ∷ []
split_rc part (x ∷ []) = reverse_onto (x ∷ part) [] ∷ []
split_rc part (x ∷ y ∷ []) = reverse_onto (y ∷ x ∷ part) [] ∷ []
split_rc part (x ∷ y ∷ z ∷ rest) =
    let next = split_rc [] rest in
    let longer = split_rc (x ∷ part) (y ∷ z ∷ rest) in
    if x == b'-' && (y == b'r' && z == b'c') then reverse_onto part [] ∷ next else longer

abbrev pub eq_ℤ : ℤ → ℤ → Bool
eq_ℤ a b = pos_part a + neg_part b == pos_part b + neg_part a

-- `IsVersion`; `parses` says whether `strconv.Atoi` has no error.
abbrev all_parse : (List ℕ → Bool) → List (List ℕ) → Bool
all_parse parses [] = true
all_parse parses (n ∷ ns) = parses n && all_parse parses ns

unfoldable pub is_version : (List ℕ → Bool) → List ℕ → Bool
is_version parses s = all_parse parses (split_dots [] s)

-- A version as it is split: its numbers, and the number of its release candidate.
abbrev pub Split : Type 0
Split = List ℤ × ℤ

-- `atoi` is the first result of `strconv.Atoi`.
module _ (atoi : List ℕ → ℤ) where
  abbrev split_parts : List (List ℕ) → Split
  split_parts [] = ([], pos 0)
  split_parts (v ∷ []) = (map atoi (split_dots [] v), pos 0)
  split_parts (v ∷ [] ∷ rest) = (map atoi (split_dots [] v), pos 1)
  split_parts (v ∷ (c ∷ rc) ∷ rest) = (map atoi (split_dots [] v), atoi (c ∷ rc))

  unfoldable pub split_version : List ℕ → Split
  split_version v = split_parts (split_rc [] v)

-- After the numbers that both have: the lengths, then the release candidates.
abbrev pub compare_rest : ℕ → ℕ → ℤ → ℤ → Sign
compare_rest la lb rca rcb =
    if ltb la lb
    then less
    else if ltb lb la
    then greater
    else if eq_ℤ rca rcb
    then equal
    else if eq_ℤ rca (pos 0)
    then greater
    else if eq_ℤ rcb (pos 0)
    then less
    else if ltb_ℤ rcb rca
    then greater
    else if ltb_ℤ rca rcb
    then less
    else equal

-- The loop, and what follows it.
abbrev pub compare_from : Sign → List ℤ → List ℤ → Sign
compare_from rest [] ys = rest
compare_from rest (x ∷ xs) [] = rest
compare_from rest (x ∷ xs) (y ∷ ys) =
    let later = compare_from rest xs ys in
    if ltb_ℤ x y then less else if ltb_ℤ y x then greater else later

unfoldable pub compare_split : Split → Split → Sign
compare_split a b = compare_from (compare_rest (length a.0) (length b.0) a.1 b.1) a.0 b.0

unfoldable pub version_cmp : (List ℕ → ℤ) → List ℕ → List ℕ → Sign
version_cmp atoi a b = compare_split (split_version atoi a) (split_version atoi b)
