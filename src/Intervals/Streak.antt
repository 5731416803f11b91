-- ===== src/Intervals/Streak.antt =====
-- hostdb/store.go: the queries count the failures in a row.
use hostscore.Prelude.{
  ℕ, zero, suc, ◌+◌, ◌<◌, ◌≡◌, refl, Bool, true, false, ◌&&◌, not, List, [], ◌∷◌, Option, none,
  some, arith, All, ◌==◌, ltb, if◌then◌else◌, Bool-cases, ==_iff, ◌⊎◌, Option-cases, inl, inr,
}
use hostscore.Intervals.{Row, latest_success, count_success, count_failed, last_failed}

-- The failures since the last success, read from the oldest row to the newest.
abbrev pub streak : ℕ → ℕ → List Row → ℕ
streak pk n [] = n
streak pk n (r ∷ rs) =
    streak pk (if r.public_key == pk then (if r.success then 0 else suc n) else n) rs

-- The host's rows stand in the order in which they were made, at distinct times.
abbrev pub IsOrdered : ℕ → List Row → Type 0
IsOrdered pk [] = Unit {0}
IsOrdered pk (r ∷ rs) =
    (r.public_key ≡ pk → All (λ a. a.public_key ≡ pk → r.ran_at < a.ran_at) rs) × IsOrdered pk rs

abbrev failures : ℕ → List Row → ℕ
failures pk [] = 0
failures pk (r ∷ rs) = (if r.public_key == pk && not r.success then 1 else 0) + failures pk rs

streak-failures :
    (pk n : ℕ) (rs : List Row) → count_success pk rs ≡ 0 → streak pk n rs ≡ n + failures pk rs
unfolding count_success
streak-failures pk n [] h = omega arith
streak-failures pk n (r ∷ rs) h =
    ground (arith, streak-failures pk n rs, streak-failures pk (suc n) rs)

streak_reset :
    (pk n m : ℕ) (rs : List Row) → 0 < count_success pk rs → streak pk n rs ≡ streak pk m rs
unfolding count_success
streak_reset pk n m [] h = absurd (omega arith)
streak_reset pk n m (r ∷ rs) h =
    ground (arith, streak_reset pk n m rs, streak_reset pk (suc n) (suc m) rs)

latest-none : (pk : ℕ) (rs : List Row) → count_success pk rs ≡ 0 → latest_success pk rs ≡ none
unfolding count_success latest_success
latest-none pk [] h = refl
latest-none pk (r ∷ rs) h = ground (arith, latest-none pk rs)

-- With no success every failure counts.
count_failed-all : (pk : ℕ) (o : Option ℕ) (rs : List Row) → count_failed pk o 0 rs ≡ failures pk rs
unfolding count_failed
count_failed-all pk o [] = refl
count_failed-all pk o (r ∷ rs) = ground (arith, count_failed-all pk o rs)

-- So it does when each of them is later.
count_failed-later :
    (pk t k : ℕ) (rs : List Row)
    → All (λ a. a.public_key ≡ pk → t < a.ran_at) rs
    → count_failed pk (some t) k rs ≡ failures pk rs
unfolding count_failed
count_failed-later pk t k [] h = refl
count_failed-later pk t k (r ∷ rs) h = ground (arith, count_failed-later pk t k rs h.1, h.0)

-- Beyond zero the number of successes does not matter.
count_failed-pos :
    (pk k : ℕ) (o : Option ℕ) (rs : List Row)
    → count_failed pk o (suc k) rs ≡ count_failed pk o 1 rs
unfolding count_failed
count_failed-pos pk k o [] = refl
count_failed-pos pk k o (r ∷ rs) = ground (arith, count_failed-pos pk k o rs)

latest-some :
    (pk t : ℕ) (rs : List Row)
    → 0 < count_success pk rs
    → All (λ a. a.public_key ≡ pk → t < a.ran_at) rs
    → (u : ℕ) × (latest_success pk rs ≡ some u) × (t < u)
unfolding count_success latest_success
latest-some pk t [] h l = absurd (omega arith)
latest-some pk t (r ∷ rs) h l = elim (Bool-cases (r.public_key == pk && r.success)) [
  | inr other ↦ let (u, e, lt) = latest-some pk t rs (ground arith) l.1 in (u, ground arith, lt)
  | inl hit ↦ elim (Option-cases (latest_success pk rs)) [
    | inl e ↦ (r.ran_at, ground arith, ground (arith, l.0))
    | inr (u, e) ↦ ((if ltb u r.ran_at then r.ran_at else u), ground arith, ground (arith, l.0))
  ]
]

-- The newest row in front of rows with no success, and of rows with one.
module _ (pk : ℕ) (r : Row) (rs : List Row) (own : r.public_key ≡ pk) where
  abbrev rows : List Row
  rows = r ∷ rs

  abbrev Counts : Type 0
  Counts = count_failed pk (latest_success pk rows) (count_success pk rows) rows ≡ streak pk 0 rows

  later_than : IsOrdered pk rows → All (λ a. a.public_key ≡ pk → r.ran_at < a.ran_at) rs
  later_than h = h.0 own

  first_success : (b : Bool) → r.success ≡ b → IsOrdered pk rows → count_success pk rs ≡ 0 → Counts
  unfolding count_failed count_success latest_success
  first_success true e h z = ground (
    arith,
    own,
    e,
    z,
    latest-none pk rs z,
    count_failed-later pk r.ran_at 1 rs (later_than h),
    streak-failures pk 0 rs z,
  )
  first_success false e h z = ground (
    arith,
    own,
    e,
    z,
    latest-none pk rs z,
    count_failed-all pk none rs,
    streak-failures pk 1 rs z,
  )

  more_success :
      (b : Bool) (k u : ℕ)
      → r.success ≡ b
      → count_success pk rs ≡ suc k
      → latest_success pk rs ≡ some u
      → r.ran_at < u
      → count_failed pk (some u) (suc k) rs ≡ streak pk 0 rs
      → Counts
  unfolding count_failed count_success latest_success
  more_success true k u e z l lt ih = ground (
    arith,
    own,
    e,
    z,
    l,
    lt,
    ih,
    count_failed-pos pk k (some u) rs,
    count_failed-pos pk (suc k) (some u) rs,
  )
  more_success false k u e z l lt ih = ground (arith, own, e, z, l, lt, ih, streak_reset pk 1 0 rs)

ℕ-cases : (n : ℕ) → (n ≡ 0) ⊎ ((m : ℕ) × (n ≡ suc m))
ℕ-cases zero = inl refl
ℕ-cases (suc m) = inr (m, refl)

count_failed-streak :
    (pk : ℕ) (rows : List Row)
    → IsOrdered pk rows
    → count_failed pk (latest_success pk rows) (count_success pk rows) rows ≡ streak pk 0 rows
unfolding count_failed count_success latest_success
count_failed-streak pk [] h = refl
count_failed-streak pk (r ∷ rs) h = elim (Bool-cases (r.public_key == pk)) [
  | inr other ↦ ground (arith, count_failed-streak pk rs h.1)
  | inl own ↦
      let same = (==_iff r.public_key pk).0 own in
      elim (ℕ-cases (count_success pk rs)) [
        | inl z ↦ first_success pk r rs same r.success refl h z
        | inr (k, z) ↦
            let (u, l, lt) = latest-some pk r.ran_at rs (omega arith) (later_than pk r rs same h) in
            more_success pk r rs same r.success k u refl z l lt
              (rw (z, l) at (count_failed-streak pk rs h.1))
      ]
]

-- For rows of one table in the order in which they were made, with those of other hosts in between,
-- the query returns the number of a host's failures since its last success.
pub last_failed-streak :
    (pk : ℕ) (rows : List Row) → IsOrdered pk rows → last_failed true pk rows ≡ streak pk 0 rows
unfolding last_failed
last_failed-streak pk rows h = count_failed-streak pk rows h
