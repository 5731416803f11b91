-- ===== src/Version/Order.antt =====
-- internal/build/version.go: `VersionCmp` orders versions.
use hostscore.Prelude.{
  ℕ, suc, ◌+◌, ◌<◌, ◌≡◌, ◌∙◌, if◌then◌else◌, ◌≢◌, refl, ap, ◌↔◌, List, [], ◌∷◌, arith, length,
}
use hostscore.Prelude.Int.{ℤ, ltb_ℤ, eq_of_parts}
use hostscore.Version.{
  Sign, less, equal, greater, compare_rest, compare_from, compare_split, version_cmp, split_version,
}

abbrev pub flip : Sign → Sign
flip less = greater
flip equal = equal
flip greater = less

rest-flip : (la lb : ℕ) (a b : ℤ) → compare_rest lb la b a ≡ flip (compare_rest la lb a b)
rest-flip la lb a b = ground arith

from-flip : (r : Sign) (xs ys : List ℤ) → compare_from (flip r) ys xs ≡ flip (compare_from r xs ys)
from-flip r [] [] = refl
from-flip r [] (y ∷ ys) = refl
from-flip r (x ∷ xs) [] = refl
from-flip r (x ∷ xs) (y ∷ ys) = ground (arith, from-flip r xs ys)

rest_trans :
    (la lb lc : ℕ) (a b c : ℤ)
    → compare_rest la lb a b ≢ greater
    → compare_rest lb lc b c ≢ greater
    → compare_rest la lc a c ≢ greater
rest_trans la lb lc a b c h k = ground arith

rest-shorter : (la lb : ℕ) (a b : ℤ) → la < lb → compare_rest la lb a b ≡ less
rest-shorter la lb a b h = ground arith

rest-longer : (la lb : ℕ) (a b : ℤ) → lb < la → compare_rest la lb a b ≡ greater
rest-longer la lb a b h = ground arith

-- The first numbers of three versions that have one.
head_trans :
    (x y z : ℤ) (r s t : Sign)
    → (r ≢ greater → s ≢ greater → t ≢ greater)
    → (if ltb_ℤ x y then less else if ltb_ℤ y x then greater else r) ≢ greater
    → (if ltb_ℤ y z then less else if ltb_ℤ z y then greater else s) ≢ greater
    → (if ltb_ℤ x z then less else if ltb_ℤ z x then greater else t) ≢ greater
head_trans x y z r s t h k l = ground arith

-- Transitivity, for the rest of three versions whose first n numbers were passed.
from_trans :
    (n la lb lc : ℕ) (a b c : ℤ) (xs ys zs : List ℤ)
    → la ≡ n + length xs
    → lb ≡ n + length ys
    → lc ≡ n + length zs
    → compare_from (compare_rest la lb a b) xs ys ≢ greater
    → compare_from (compare_rest lb lc b c) ys zs ≢ greater
    → compare_from (compare_rest la lc a c) xs zs ≢ greater
from_trans n la lb lc a b c [] [] zs e f g h k = rest_trans la lb lc a b c h k'
  where
    k' : compare_rest lb lc b c ≢ greater
    k' = k
from_trans n la lb lc a b c [] (y ∷ ys) [] e f g h k =
    absurd (k (rest-longer lb lc b c (omega arith)))
from_trans n la lb lc a b c [] (y ∷ ys) (z ∷ zs) e f g h k =
    rw (rest-shorter la lc a c (omega arith)) (λ p. cc)
from_trans n la lb lc a b c (x ∷ xs) [] zs e f g h k =
    absurd (h (rest-longer la lb a b (omega arith)))
from_trans n la lb lc a b c (x ∷ xs) (y ∷ ys) [] e f g h k =
    absurd (k (rest-longer lb lc b c (omega arith)))
from_trans n la lb lc a b c (x ∷ xs) (y ∷ ys) (z ∷ zs) e f g h k =
    head_trans x y z _ _ _
      (from_trans (suc n) la lb lc a b c xs ys zs (omega arith) (omega arith) (omega arith)) h k

rest-equal : (la lb : ℕ) (a b : ℤ) → compare_rest la lb a b ≡ equal → a ≡ b
rest-equal la lb a b h = ground (arith, eq_of_parts a b)

head-equal :
    (x y : ℤ) (r : Sign)
    → (if ltb_ℤ x y then less else if ltb_ℤ y x then greater else r) ≡ equal
    → (x ≡ y) × (r ≡ equal)
head-equal x y r h = (eq_of_parts x y (ground arith), ground arith)

from-equal :
    (n la lb : ℕ) (a b : ℤ) (xs ys : List ℤ)
    → la ≡ n + length xs
    → lb ≡ n + length ys
    → compare_from (compare_rest la lb a b) xs ys ≡ equal
    → (xs ≡ ys) × (a ≡ b)
from-equal n la lb a b [] [] e f h = (refl, rest-equal la lb a b h)
from-equal n la lb a b [] (y ∷ ys) e f h = let less_ = rest-shorter la lb a b (omega arith) in cc
from-equal n la lb a b (x ∷ xs) [] e f h = let more_ = rest-longer la lb a b (omega arith) in cc
from-equal n la lb a b (x ∷ xs) (y ∷ ys) e f h =
    let (p, t) = head-equal x y (compare_from (compare_rest la lb a b) xs ys) h in
    let (q, c) = from-equal (suc n) la lb a b xs ys (omega arith) (omega arith) t in (cc, c)

flip-fixed : (s : Sign) → s ≡ flip s → s ≡ equal
flip-fixed less h = cc
flip-fixed equal h = refl
flip-fixed greater h = cc

-- `VersionCmp` is antisymmetric: with the versions exchanged it returns the opposite.
version_cmp-flip :
    (atoi : List ℕ → ℤ) (a b : List ℕ) → version_cmp atoi b a ≡ flip (version_cmp atoi a b)
unfolding version_cmp compare_split
version_cmp-flip atoi a b =
    let (va, rca) = split_version atoi a in
    let (vb, rcb) = split_version atoi b in
    ap (λ r. compare_from r vb va) (rest-flip (length va) (length vb) rca rcb)
    ∙ from-flip (compare_rest (length va) (length vb) rca rcb) va vb

-- `VersionCmp` is transitive: a version that is not newer than a second one, which is not newer than a
-- third, is not newer than the third.
pub version_cmp_trans :
    (atoi : List ℕ → ℤ) (a b c : List ℕ)
    → version_cmp atoi a b ≢ greater
    → version_cmp atoi b c ≢ greater
    → version_cmp atoi a c ≢ greater
unfolding version_cmp compare_split
version_cmp_trans atoi a b c =
    let (va, rca) = split_version atoi a in
    let (vb, rcb) = split_version atoi b in
    let (vc, rcc) = split_version atoi c in
    from_trans 0 (length va) (length vb) (length vc) rca rcb rcc va vb vc (omega arith)
      (omega arith) (omega arith)

-- `VersionCmp` returns 0 exactly for versions that split into the same numbers and the same release
-- candidate.
pub version_cmp-equal :
    (atoi : List ℕ → ℤ) (a b : List ℕ)
    → (version_cmp atoi a b ≡ equal) ↔ (split_version atoi a ≡ split_version atoi b)
unfolding version_cmp compare_split
version_cmp-equal atoi a b = (
  λ h.
      let (va, rca) = split_version atoi a in
      let (vb, rcb) = split_version atoi b in
      let (p, q) =
        from-equal 0 (length va) (length vb) rca rcb va vb (omega arith) (omega arith) h in
      cc,
  λ h. rw h (flip-fixed _ (version_cmp-flip atoi b b)),
)
