-- ===== src/Wallet/Locks.antt =====
-- internal/walletutil/wallet.go: what `Release` and `pruneLocked` do to the reservations.
mod Tests
use hostscore.Prelude.{
  ltb→lt, ltb→le, le→ltb, ℕ, ◌≤◌, ◌<◌, ◌≡◌, refl, ap, ◌∙◌, Bool, true, false, ◌||◌, List, [], ◌∷◌,
  map, Option, none, some, ltb, arith, ◌==◌, if◌then◌else◌, Bool-cases, Option-cases, inl, inr,
}
use hostscore.Wallet.{
  Wallet, Transaction, SiacoinInput, lock, release, release_all, release_inputs, is_locked,
  prune_locked, contains, update, seconds,
}

-- Whether some transaction spends the output.
abbrev pub spends : ℕ → List Transaction → Bool
spends k [] = false
spends k (t ∷ ts) =
    contains k (map (λ i. i.parent_id) t.siacoin_inputs)
    || (contains k t.siafund_inputs || spends k ts)

release_all-locked :
    (ok : ℕ → Bool) (w : Wallet) (ids : List ℕ) (k : ℕ)
    → (release_all ok w ids).locked k ≡ (if contains k ids then none else w.locked k)
unfolding release_all release
release_all-locked ok w [] k = refl
release_all-locked ok w (id ∷ ids) k = ground (arith, release_all-locked ok (release ok w id) ids k)

-- `Release` frees every output that one of the transactions spends, whether or not the table can be
-- written, and leaves the other reservations alone.
pub release_inputs-locked :
    (ok : ℕ → Bool) (w : Wallet) (txns : List Transaction) (k : ℕ)
    → (release_inputs ok w txns).locked k ≡ (if spends k txns then none else w.locked k)
unfolding release_inputs
release_inputs-locked ok w [] k = refl
release_inputs-locked ok w (t ∷ ts) k =
    let coins = map (λ i. i.parent_id) t.siacoin_inputs in
    let w₁ = release_all ok w coins in
    let w₂ = release_all ok w₁ t.siafund_inputs in
    ground (
      arith,
      release_inputs-locked ok w₂ ts k,
      release_all-locked ok w₁ t.siafund_inputs k,
      release_all-locked ok w coins k,
    )

-- A round of `pruneLocked` frees nothing that is still reserved when the loop comes to it: from then on
-- the output is reserved after the round exactly when it was before.
pub prune_locked-is_locked :
    (ok : Bool) (w : Wallet) (start : ℕ) (now : ℕ → ℕ) (t id : ℕ)
    → now id ≤ t
    → is_locked t (prune_locked ok w start now) id ≡ is_locked t w id
unfolding prune_locked
prune_locked-is_locked ok w start now t id h = elim (Option-cases (w.locked id)) [
  | inl e ↦ ground arith
  | inr (until, e) ↦ ground arith
]

-- How the row of an id and its reservation go together at `t`: a reservation has a row with its second;
-- a row without a reservation has expired.
abbrev pub Agrees : ℕ → Option ℕ → Option ℕ → Type 0
Agrees t (some until) row = row ≡ some (seconds until)
Agrees t none none = Unit
Agrees t none (some until) = until ≤ seconds t

abbrev pub Mirrors : ℕ → Wallet → Type 0
Mirrors t w = (id : ℕ) → Agrees t (w.locked id) (w.table id)

seconds-le : (t u : ℕ) → t ≤ u → seconds t ≤ seconds u
seconds-le t u h = omega arith

Agrees-later : (t u : ℕ) → t ≤ u → (m r : Option ℕ) → Agrees t m r → Agrees u m r
Agrees-later t u h (some until) r v = v
Agrees-later t u h none none v = tt
Agrees-later t u h none (some until) v = omega (arith, v, seconds-le t u h)

lock-Mirrors :
    (t : ℕ) (w : Wallet) (id until : ℕ) → Mirrors t w → Mirrors t (lock (λ _. true) w id until)
unfolding lock
lock-Mirrors t w id until v k = elim (Bool-cases (id == k)) [
  | inl same ↦ rw (same, Agrees) refl
  | inr other ↦ rw (other, Agrees) (v k)
]

release-Mirrors : (t : ℕ) (w : Wallet) (id : ℕ) → Mirrors t w → Mirrors t (release (λ _. true) w id)
unfolding release
release-Mirrors t w id v k = elim (Bool-cases (id == k)) [
  | inl same ↦ rw (same, Agrees) tt
  | inr other ↦ rw (other, Agrees) (v k)
]

-- A row and its reservation after a round of `pruneLocked` that ends at `finish`.
prune-Agrees :
    (t start now finish : ℕ) (m r : Option ℕ)
    → t ≤ start
    → start ≤ now
    → now ≤ finish
    → Agrees t m r
    → Agrees finish
        (elim m [ none ↦ none | some until ↦ (if ltb until now then none else some until) ])
        (elim r [
          | none ↦ none
          | some until ↦ (if ltb until (seconds start) then none else some until)
        ])
prune-Agrees t start now finish none none a b c v = tt
prune-Agrees t start now finish none (some u) a b c v = elim (Bool-cases (ltb u (seconds start))) [
  | inl gone ↦ rw (gone, Agrees) tt
  | inr kept ↦ rw (kept, Agrees) (omega (arith, v, seconds-le t finish (omega arith)))
]
prune-Agrees t start now finish (some u) r a b c v = elim (Bool-cases (ltb u now)) [
  | inl gone ↦ elim (Bool-cases (ltb (seconds u) (seconds start))) [
    | inl dropped ↦ rw (v, gone, dropped, Agrees) tt
    | inr kept ↦
        let past : u < now = ltb→lt u now gone in
        rw (v, gone, kept, Agrees) (seconds-le u finish (omega arith))
  ]
  | inr kept ↦
      let later : now ≤ u = ltb→le u now kept in
      let stays : ltb (seconds u) (seconds start) ≡ false =
        le→ltb (seconds u) (seconds start) (seconds-le start u (omega arith)) in
      rw (v, kept, stays, Agrees) refl
]

-- The calls that change the reservations; a prune round has its three times.
pub data Change : Type 0 where
  locks : ℕ → ℕ → Change
  releases : ℕ → Change
  prunes : ℕ → (ℕ → ℕ) → ℕ → Change

abbrev pub change : Wallet → Change → Wallet
change w (locks id until) = lock (λ _. true) w id until
change w (releases id) = release (λ _. true) w id
change w (prunes start now finish) = prune_locked true w start now

abbrev pub change_all : Wallet → List Change → Wallet
change_all w [] = w
change_all w (c ∷ cs) = change_all (change w c) cs

-- The clock does not go back, from `t` until `u`.
abbrev pub Timed : ℕ → List Change → ℕ → Type 0
Timed t [] u = t ≤ u
Timed t (locks id until ∷ cs) u = Timed t cs u
Timed t (releases id ∷ cs) u = Timed t cs u
Timed t (prunes start now finish ∷ cs) u =
    (t ≤ start) × ((id : ℕ) → (start ≤ now id) × (now id ≤ finish)) × Timed finish cs u

-- As long as no statement on the database fails and the clock does not go back, the table wt_locked and
-- the reservations in memory agree, through any sequence of locks, releases and prune rounds: each
-- reservation has a row with its Unix second, and a row without a reservation has expired, so that its
-- second is not after that of the clock.
pub change_all-Mirrors :
    (t u : ℕ) (w : Wallet) (cs : List Change)
    → Timed t cs u
    → Mirrors t w
    → Mirrors u (change_all w cs)
unfolding prune_locked
change_all-Mirrors t u w [] timed v = λ k. Agrees-later t u timed (w.locked k) (w.table k) (v k)
change_all-Mirrors t u w (locks id until ∷ cs) timed v =
    change_all-Mirrors t u (lock (λ _. true) w id until) cs timed (lock-Mirrors t w id until v)
change_all-Mirrors t u w (releases id ∷ cs) timed v =
    change_all-Mirrors t u (release (λ _. true) w id) cs timed (release-Mirrors t w id v)
change_all-Mirrors t u w (prunes start now finish ∷ cs) (a, b, timed) v =
    change_all-Mirrors finish u (prune_locked true w start now) cs timed
      (λ k. prune-Agrees t start (now k) finish (w.locked k) (w.table k) a (b k).0 (b k).1 (v k))
