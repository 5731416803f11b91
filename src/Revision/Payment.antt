-- ===== src/Revision/Payment.antt =====
-- rhp/rhpv3.go: a payment conserves the value of a contract.
use native.Mathlib.Decide.{dec_le, dec_lt}
use hostscore.Prelude.{
  ℕ, ◌+◌, ◌-◌, ◌≤◌, ◌<◌, ◌≡◌, refl, ◌↔◌, ◌⊎◌, inl, inr, Bool, true, false, List, [], ◌∷◌, Option,
  none, some, arith,
}
use hostscore.Currency.{CurrencyOps, CurrencyLaws, max_currency}
use hostscore.Revision.{
  Revision, RevisionError, insufficient_funds, insufficient_missed, insufficient_collateral, move,
  move_collateral, move_missed, move_valid, update_lists, update_revision_outputs,
}

abbrev pub sum : List ℕ → ℕ
sum [] = 0
sum (x ∷ xs) = x + sum xs

-- A contract with two valid outputs and three missed ones.
abbrev pub contract : ℕ → ℕ → ℕ → ℕ → ℕ → Revision
contract v₀ v₁ m₀ m₁ m₂ = record { valid = v₀ ∷ v₁ ∷ []; missed = m₀ ∷ m₁ ∷ m₂ ∷ [] }

-- A move of `amount` either fails or is exact.
abbrev CanMove : ℕ → ℕ → ℕ → Type 0
CanMove source target amount = (amount ≤ source) × (target + amount < max_currency)

move_lem :
    {cur : CurrencyOps} (laws : CurrencyLaws cur) (source target amount : ℕ)
    → (CanMove source target amount
        × (move cur source target amount ≡ (source - amount, target + amount, false)))
      ⊎ ((CanMove source target amount → ⊥) × ((move cur source target amount).2 ≡ true))
unfolding move
move_lem laws source target amount = elim (dec_le amount source) [
  | no short ↦ inr ((λ c. short c.0), rw (laws.sub_under source amount (omega arith)) refl)
  | yes le ↦ elim (dec_lt (target + amount) max_currency) [
    | yes lt ↦
        inl (
          (le, lt),
          rw (laws.sub_exact source amount le, (laws.add_checked target amount).0 lt) refl,
        )
    | no ge ↦ inr (
      (λ c. ge c.1),
      rw (laws.sub_exact source amount le, (laws.add_checked target amount).1 (omega arith)) refl,
    )
  ]
]

-- What a payment of `cost` that risks `collateral` needs of the outputs.
pub record Payable (v₀ v₁ m₀ m₁ m₂ cost collateral : ℕ) : Type 0 where
  pub renter : cost ≤ v₀
  pub host : v₁ + cost < max_currency
  pub missed_renter : cost ≤ m₀
  pub missed_host : collateral ≤ m₁
  pub void : m₂ + cost + collateral < max_currency

-- The host's valid output grows by the cost, at the renter's expense, in the missed outputs the cost
-- and the collateral go to the void, and neither sum changes.
pub record Paid (v₀ v₁ m₀ m₁ m₂ cost collateral : ℕ) (r : Revision) : Type 0 where
  pub outputs :
      r ≡ contract (v₀ - cost) (v₁ + cost) (m₀ - cost) (m₁ - collateral) (m₂ + cost + collateral)
  pub valid_sum : sum r.valid ≡ v₀ + v₁
  pub missed_sum : sum r.missed ≡ m₀ + m₁ + m₂

module _ {cur : CurrencyOps} (laws : CurrencyLaws cur) (v₀ v₁ m₀ m₁ m₂ cost collateral : ℕ) where
  abbrev Pays : Type 0
  Pays =
      (r : Revision) × (e : Option RevisionError) × (update_revision_outputs cur
          (contract v₀ v₁ m₀ m₁ m₂) cost collateral
        ≡ some (r, e))
      × ((e ≡ none) ↔ Payable v₀ v₁ m₀ m₁ m₂ cost collateral)
      × ((e ≡ none) → Paid v₀ v₁ m₀ m₁ m₂ cost collateral r)

  rejected :
      (r : Revision) (e : RevisionError)
      → update_revision_outputs cur (contract v₀ v₁ m₀ m₁ m₂) cost collateral ≡ some (r, some e)
      → (Payable v₀ v₁ m₀ m₁ m₂ cost collateral → ⊥)
      → Pays
  rejected r e h bad = (r, some e, h, ((λ x. cc), λ p. absurd (bad p)), λ x. cc)

  -- The outputs of a move as it leaves them.
  abbrev moved_valid : ℕ × ℕ × Bool
  moved_valid = move cur v₀ v₁ cost

  abbrev moved_missed : ℕ × ℕ × Bool
  moved_missed = move cur m₀ m₂ cost

  abbrev moved_collateral : ℕ × ℕ × Bool
  moved_collateral = move cur m₁ (m₂ + cost) collateral

  -- `updateRevisionOutputs` of a contract with two valid and three missed outputs does not panic. It
  -- returns no error exactly when the renter can pay the cost in both cases, the host can put up the
  -- collateral, and no output reaches 2 ^ 128; then it pays: both sums stay what they were.
  pub update_revision_outputs-Paid :
      (r : Revision) × (e : Option RevisionError) × (update_revision_outputs cur
          (contract v₀ v₁ m₀ m₁ m₂)
          cost
          collateral
        ≡ some (r, e))
      × ((e ≡ none) ↔ Payable v₀ v₁ m₀ m₁ m₂ cost collateral)
      × ((e ≡ none) → Paid v₀ v₁ m₀ m₁ m₂ cost collateral r)
  unfolding update_revision_outputs update_lists move_valid move_missed move_collateral
  update_revision_outputs-Paid = elim (move_lem laws v₀ v₁ cost) [
    | inr (bad, e₁) ↦
        rejected (contract moved_valid.0 moved_valid.1 m₀ m₁ m₂) insufficient_funds (rw e₁ refl)
          (λ p. bad (p.renter, p.host))
    | inl (c₁, e₁) ↦ elim (move_lem laws m₀ m₂ cost) [
      | inr (bad, e₂) ↦
          rejected (contract (v₀ - cost) (v₁ + cost) moved_missed.0 m₁ moved_missed.1)
            insufficient_missed (rw (e₁, e₂) refl)
            (λ p. bad (p.missed_renter, omega (arith, p.void)))
      | inl (c₂, e₂) ↦ elim (move_lem laws m₁ (m₂ + cost) collateral) [
        | inr (bad, e₃) ↦
            rejected
              (contract (v₀ - cost) (v₁ + cost) (m₀ - cost) moved_collateral.0 moved_collateral.1)
              insufficient_collateral (rw (e₁, e₂, e₃) refl) (λ p. bad (p.missed_host, p.void))
        | inl (c₃, e₃) ↦ (
          contract (v₀ - cost) (v₁ + cost) (m₀ - cost) (m₁ - collateral) (m₂ + cost + collateral),
          none,
          rw (e₁, e₂, e₃) refl,
          (
            (λ h. record {
              renter = c₁.0;
              host = c₁.1;
              missed_renter = c₂.0;
              missed_host = c₃.0;
              void = c₃.1;
            }),
            λ p. refl,
          ),
          λ h. record {
            outputs = refl;
            valid_sum = omega (arith, c₁);
            missed_sum = omega (arith, c₂, c₃);
          },
        )
      ]
    ]
  ]
