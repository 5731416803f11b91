-- ===== src/Prelude/Assoc.antt =====
-- Finite maps from numbers, as association lists.
use Prim.Native.Nat.{ℕ}
use mathlib.Core.Path.{◌≡◌, refl}
use mathlib.Core.Logic.{inl, inr}
use mathlib.Core.Bool.{false}
use mathlib.Core.Option.{Option, none, some}
use mathlib.Core.List.{List, [], ◌∷◌}
use native.Mathlib.Omega.{arith}
use hostscore.Prelude.Tests.{◌==◌, if◌then◌else◌, Bool-cases}

==_false : (k i : ℕ) → (i == k) ≡ false → (k == i) ≡ false
==_false k i h = ground arith

module _ {ℓ} {A : Type ℓ} where
  unfoldable pub find : ℕ → List (ℕ × A) → Option A
  find k [] = none
  find k ((i, a) ∷ m) = if i == k then some a else find k m

  -- Replaces the value of a key in its place, or adds the key at the end.
  unfoldable pub put : ℕ → A → List (ℕ × A) → List (ℕ × A)
  put k a [] = (k, a) ∷ []
  put k a ((i, b) ∷ m) = let rest = put k a m in if i == k then (i, a) ∷ m else (i, b) ∷ rest

  unfoldable pub delete : ℕ → List (ℕ × A) → List (ℕ × A)
  delete k [] = []
  delete k ((i, b) ∷ m) = let rest = delete k m in if i == k then rest else (i, b) ∷ rest

  -- No key stands twice.
  abbrev pub Distinct : List (ℕ × A) → Type ℓ
  Distinct [] = Unit
  Distinct ((i, a) ∷ m) = (find i m ≡ none) × Distinct m

  pub find-put :
      (k : ℕ) (a : A) (m : List (ℕ × A)) (j : ℕ)
      → find j (put k a m) ≡ (if k == j then some a else find j m)
  unfolding find put
  find-put k a [] j = refl
  find-put k a ((i, b) ∷ m) j =
      let ih : find j (put k a m) ≡ (if k == j then some a else find j m) = find-put k a m j in
      ground arith

  pub find-delete :
      (k : ℕ) (m : List (ℕ × A)) (j : ℕ) → find j (delete k m) ≡ (if k == j then none else find j m)
  unfolding find delete
  find-delete k [] j = ground arith
  find-delete k ((i, b) ∷ m) j =
      let ih : find j (delete k m) ≡ (if k == j then none else find j m) = find-delete k m j in
      ground arith

  pub put-Distinct : (k : ℕ) (a : A) (m : List (ℕ × A)) → Distinct m → Distinct (put k a m)
  unfolding find put
  put-Distinct k a [] d = (refl, tt)
  put-Distinct k a ((i, b) ∷ m) d = elim (Bool-cases (i == k)) [
    | inl same ↦ rw same d
    | inr other ↦ rw (other, find-put k a m i, ==_false k i other) (d.0, put-Distinct k a m d.1)
  ]

  pub delete-Distinct : (k : ℕ) (m : List (ℕ × A)) → Distinct m → Distinct (delete k m)
  unfolding find delete
  delete-Distinct k [] d = d
  delete-Distinct k ((i, b) ∷ m) d = elim (Bool-cases (i == k)) [
    | inl same ↦ rw same (delete-Distinct k m d.1)
    | inr other ↦ rw (other, find-delete k m i, ==_false k i other) (d.0, delete-Distinct k m d.1)
  ]
