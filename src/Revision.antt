-- ===== src/Revision.antt =====
-- rhp/rhpv3.go: how a payment moves the outputs of a contract. Of an output only the value is read or
-- written; `none` is the panic of an index out of range.
pub mod Payment
mod Tests
use hostscore.Prelude.{ℕ, Bool, true, false, ◌||◌, List, [], ◌∷◌, Option, none, some, if◌then◌else◌}
use hostscore.Currency.{CurrencyOps}

-- The values of ValidProofOutputs and MissedProofOutputs: renter, host, and the void.
pub record Revision : Type 0 where
  pub valid : List ℕ
  pub missed : List ℕ

pub data RevisionError : Type 0 where
  insufficient_funds insufficient_missed insufficient_collateral : RevisionError

module _ (cur : CurrencyOps) where
  -- One move: the two new values, and `underflow || overflow`.
  unfoldable pub move : ℕ → ℕ → ℕ → ℕ × ℕ × Bool
  move source target amount =
      let (rest, underflow) = cur.sub_with_underflow source amount in
      let (more, overflow) = cur.add_with_overflow target amount in
      (rest, more, underflow || overflow)

  -- A failed move leaves the values that it has written in the revision.
  move_collateral : ℕ → List ℕ → ℕ → ℕ → ℕ → List ℕ → Revision × Option RevisionError
  move_collateral collateral valid m₀ m₁ m₂ ms =
      let (host, void, bad) = move m₁ m₂ collateral in
      (
        record { valid = valid; missed = m₀ ∷ host ∷ void ∷ ms },
        (if bad then some insufficient_collateral else none),
      )

  move_missed : ℕ → ℕ → List ℕ → ℕ → ℕ → ℕ → List ℕ → Revision × Option RevisionError
  unfolding move_collateral
  move_missed cost collateral valid m₀ m₁ m₂ ms =
      let (renter, void, bad) = move m₀ m₂ cost in
      let next = move_collateral collateral valid renter m₁ void ms in
      if bad
      then (record { valid = valid; missed = renter ∷ m₁ ∷ void ∷ ms }, some insufficient_missed)
      else next

  move_valid : ℕ → ℕ → ℕ → ℕ → List ℕ → ℕ → ℕ → ℕ → List ℕ → Revision × Option RevisionError
  unfolding move_missed
  move_valid cost collateral v₀ v₁ vs m₀ m₁ m₂ ms =
      let (renter, host, bad) = move v₀ v₁ cost in
      let next = move_missed cost collateral (renter ∷ host ∷ vs) m₀ m₁ m₂ ms in
      if bad
      then (
        record { valid = renter ∷ host ∷ vs; missed = m₀ ∷ m₁ ∷ m₂ ∷ ms },
        some insufficient_funds,
      )
      else next

  -- With too few missed outputs: the error of the valid move comes before the panic.
  move_only_valid : ℕ → ℕ → ℕ → List ℕ → List ℕ → Option (Revision × Option RevisionError)
  move_only_valid cost v₀ v₁ vs ms =
      let (renter, host, bad) = move v₀ v₁ cost in
      if bad
      then some (record { valid = renter ∷ host ∷ vs; missed = ms }, some insufficient_funds)
      else none

  update_lists : ℕ → ℕ → List ℕ → List ℕ → Option (Revision × Option RevisionError)
  unfolding move_valid move_only_valid
  update_lists cost collateral [] ms = none
  update_lists cost collateral (v₀ ∷ []) ms = none
  update_lists cost collateral (v₀ ∷ v₁ ∷ vs) [] = move_only_valid cost v₀ v₁ vs []
  update_lists cost collateral (v₀ ∷ v₁ ∷ vs) (m₀ ∷ []) = move_only_valid cost v₀ v₁ vs (m₀ ∷ [])
  update_lists cost collateral (v₀ ∷ v₁ ∷ vs) (m₀ ∷ m₁ ∷ []) =
      move_only_valid cost v₀ v₁ vs (m₀ ∷ m₁ ∷ [])
  update_lists cost collateral (v₀ ∷ v₁ ∷ vs) (m₀ ∷ m₁ ∷ m₂ ∷ ms) =
      some (move_valid cost collateral v₀ v₁ vs m₀ m₁ m₂ ms)

  unfoldable pub update_revision_outputs :
      Revision → ℕ → ℕ → Option (Revision × Option RevisionError)
  unfolding update_lists
  update_revision_outputs rev cost collateral = update_lists cost collateral rev.valid rev.missed
