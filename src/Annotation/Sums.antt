-- ===== src/Annotation/Sums.antt =====
-- wallet/wallet.go: the loops that add up, while the sums stay below 2 ^ 128.
use hostscore.Prelude.{
  ℕ, suc, ◌+◌, ◌≤◌, ◌<◌, ◌≡◌, refl, sym, ap, ◌∙◌, List, [], ◌∷◌, some, ◌==◌, if◌then◌else◌, arith,
  Bool-cases, inl, inr,
}
use hostscore.Currency.{CurrencyOps, CurrencyLaws, max_currency, cmp_gt}
use hostscore.Annotation.{
  Output, FileContract, Transaction, owned_outputs, add_up, add_owned, total_value, lock_contracts,
}

abbrev pub sum_of {ℓ} : {A : Type ℓ} → (A → ℕ) → List A → ℕ
sum_of f [] = 0
sum_of f (x ∷ xs) = f x + sum_of f xs

abbrev pub owned_sum : ℕ → (Output → ℕ) → List Output → ℕ
owned_sum addr f [] = 0
owned_sum addr f (o ∷ os) = (if o.address == addr then f o else 0) + owned_sum addr f os

-- What the loop over the contracts may add up.
abbrev pub claims : ℕ → List FileContract → ℕ
claims addr [] = 0
claims addr (fc ∷ fcs) =
    owned_sum addr (λ o. fc.payout) fc.valid_proof_outputs
    + owned_sum addr (λ o. fc.payout) fc.missed_proof_outputs
    + claims addr fcs

-- The value that a transaction spends.
abbrev pub worth : Transaction → ℕ
worth txn =
    sum_of Output.value txn.outputs
    + sum_of FileContract.payout txn.contracts
    + sum_of (λ fee. fee) txn.miner_fees

abbrev pub Fits : ℕ → Transaction → Type 0
Fits addr txn = (worth txn < max_currency) × (claims addr txn.contracts < max_currency)

pub owned_sum-le :
    (addr : ℕ) (f : Output → ℕ) (os : List Output) → owned_sum addr f os ≤ sum_of f os
owned_sum-le addr f [] = omega arith
owned_sum-le addr f (o ∷ os) = ground (arith, owned_sum-le addr f os)

pub owned_sum_none :
    (addr : ℕ) (f : Output → ℕ) (os : List Output)
    → owned_outputs addr os ≡ 0
    → owned_sum addr f os ≡ 0
owned_sum_none addr f [] h = refl
owned_sum_none addr f (o ∷ os) h = elim (Bool-cases (o.address == addr)) [
  | inl ours ↦
      let counted : suc (owned_outputs addr os) ≡ 0 = sym (rw ours refl) ∙ h in absurd (omega arith)
  | inr other ↦ rw other (omega (arith, owned_sum_none addr f os (sym (rw other refl) ∙ h)))
]

module _ {cur : CurrencyOps} (laws : CurrencyLaws cur) where
  adds : (a b : ℕ) → a + b < max_currency → cur.add a b ≡ some (a + b)
  adds a b h = (laws.add_panics a b).0 h

  add_up_lem {ℓ} :
      {A : Type ℓ} (f : A → ℕ) (sum : ℕ) (xs : List A)
      → sum + sum_of f xs < max_currency
      → add_up cur f sum xs ≡ some (sum + sum_of f xs)
  unfolding add_up
  add_up_lem f sum [] h = ap some (omega arith)
  add_up_lem f sum (x ∷ xs) h =
      rw (adds sum (f x) (omega arith))
        (add_up_lem f (sum + f x) xs (omega arith) ∙ ap some (omega arith))

  pub add_owned_lem :
      (addr : ℕ) (f : Output → ℕ) (sum : ℕ) (os : List Output)
      → sum + owned_sum addr f os < max_currency
      → add_owned cur addr f sum os ≡ some (sum + owned_sum addr f os)
  unfolding add_owned
  add_owned_lem addr f sum [] h = ap some (omega arith)
  add_owned_lem addr f sum (o ∷ os) h = elim (Bool-cases (o.address == addr)) [
    | inl ours ↦
        let room : sum + (f o + owned_sum addr f os) < max_currency = ground arith in
        rw (ours, adds sum (f o) (omega arith))
          (add_owned_lem addr f (sum + f o) os (omega arith) ∙ ap some (omega arith))
    | inr other ↦
        let room : sum + (0 + owned_sum addr f os) < max_currency = ground arith in
        rw other (add_owned_lem addr f sum os (omega arith) ∙ ap some (omega arith))
  ]

  pub total_value_lem :
      (txn : Transaction) → worth txn < max_currency → total_value cur txn ≡ some (worth txn)
  unfolding total_value
  total_value_lem txn h =
      rw
        (
          add_up_lem Output.value 0 txn.outputs (omega arith),
          add_up_lem FileContract.payout (0 + sum_of Output.value txn.outputs) txn.contracts
              (omega arith),
        )
        (add_up_lem (λ fee. fee)
            (0 + sum_of Output.value txn.outputs + sum_of FileContract.payout txn.contracts)
            txn.miner_fees (omega arith)
          ∙ ap some (omega arith))

  -- The loop over the contracts ends without a panic.
  pub lock_contracts_lem :
      (addr locked : ℕ) (fcs : List FileContract)
      → locked + claims addr fcs < max_currency
      → (n : ℕ) × (lock_contracts cur addr locked fcs ≡ some n)
  unfolding lock_contracts
  lock_contracts_lem addr locked [] h = (locked, refl)
  lock_contracts_lem addr locked (fc ∷ fcs) h =
      let valid = owned_sum addr (λ o. fc.payout) fc.valid_proof_outputs in
      let missed = owned_sum addr (λ o. fc.payout) fc.missed_proof_outputs in
      let more = if cmp_gt cur (0 + valid) (0 + missed) then 0 + valid else 0 + missed in
      let less : more ≤ valid + missed = elim (Bool-cases (cmp_gt cur (0 + valid) (0 + missed))) [
        | inl a ↦ rw a (omega arith)
        | inr b ↦ rw b (omega arith)
      ] in
      rw
        (
          add_owned_lem addr (λ o. fc.payout) 0 fc.valid_proof_outputs (omega arith),
          add_owned_lem addr (λ o. fc.payout) 0 fc.missed_proof_outputs (omega arith),
          adds locked more (omega arith),
        )
        (lock_contracts_lem addr (locked + more) fcs (omega arith))
