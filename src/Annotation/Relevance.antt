-- ===== src/Annotation/Relevance.antt =====
-- wallet/wallet.go: which transactions concern the wallet, and what an annotation says of them.
use hostscore.Prelude.{
  ℕ, ◌+◌, ◌<◌, ◌≡◌, refl, sym, ap, List, [], ◌∷◌, Bool, true, false, ◌&&◌, some, ltb, if◌then◌else◌,
  length, All, arith, Bool-cases, inl, inr,
}
use hostscore.Currency.{CurrencyOps, CurrencyLaws, max_currency}
use hostscore.Wallet.{◌>>=◌}
use hostscore.Annotation.{
  Output, Transaction, PoolTransaction, Share, no_part, a_part, all_parts, share, owned_inputs,
  owned_outputs, by_shares, annotate, is_unrelated, relevant_transactions, annotate_all, sent_kind,
  receive, add_owned, contract, unknown, untouched,
}
use hostscore.Annotation.Sums.{
  owned_sum, worth, Fits, owned_sum-le, owned_sum_none, add_owned_lem, total_value_lem,
  lock_contracts_lem,
}

abbrev pub share_in : ℕ → Transaction → Share
share_in addr txn = share (owned_inputs addr txn.inputs) (length txn.inputs)

abbrev pub share_out : ℕ → Transaction → Share
share_out addr txn = share (owned_outputs addr txn.outputs) (length txn.outputs)

abbrev pub is_none : Share → Bool
is_none s = elim s [ no_part ↦ true | _ ↦ false ]

abbrev pub is_all : Share → Bool
is_all s = elim s [ all_parts ↦ true | _ ↦ false ]

-- No input and no output is ours.
abbrev pub is_foreign : ℕ → Transaction → Bool
is_foreign addr txn = is_none (share_in addr txn) && is_none (share_out addr txn)

abbrev pub is_sent : ℕ → Transaction → Bool
is_sent addr txn = is_all (share_in addr txn)

-- What an annotation says of the wallet's part of a transaction.
abbrev pub Says : ℕ → Transaction → PoolTransaction → Type 0
Says addr txn p =
    (is_unrelated p.kind ≡ is_foreign addr txn)
    × (p.sent ≡ (if is_sent addr txn then worth txn else 0))
    × (p.received
        ≡ (if is_none (share_in addr txn) then owned_sum addr Output.value txn.outputs else 0))

share_none : (owned n : ℕ) → is_none (share owned n) ≡ true → owned ≡ 0
share_none owned n h = ground arith

sent_kind_related : (outs : Share) (txn : Transaction) → is_unrelated (sent_kind outs txn) ≡ false
sent_kind_related no_part txn = ground arith
sent_kind_related a_part txn = ground arith
sent_kind_related all_parts txn = refl

module _ {cur : CurrencyOps} (laws : CurrencyLaws cur) where
  received_lem :
      (addr : ℕ) (txn : Transaction)
      → Fits addr txn
      → (p : PoolTransaction) × ((add_owned cur addr Output.value 0 txn.outputs >>= λ n.
            some (record { kind = receive; sent = 0; received = n; locked = 0 }))
          ≡ some p)
        × (is_unrelated p.kind ≡ false)
        × (p.sent ≡ 0)
        × (p.received ≡ owned_sum addr Output.value txn.outputs)
  received_lem addr txn fits =
      let less = owned_sum-le addr Output.value txn.outputs in
      let room : 0 + owned_sum addr Output.value txn.outputs < max_currency =
        omega (arith, fits.0) in
      (
        record {
          kind = receive;
          sent = 0;
          received = 0 + owned_sum addr Output.value txn.outputs;
          locked = 0;
        },
        rw (add_owned_lem laws addr Output.value 0 txn.outputs room) refl,
        refl,
        refl,
        omega arith,
      )

  by_shares_lem :
      (addr : ℕ) (txn : Transaction) (ins outs : Share)
      → Fits addr txn
      → (is_none outs ≡ true → owned_sum addr Output.value txn.outputs ≡ 0)
      → (p : PoolTransaction) × (by_shares cur addr txn (worth txn) ins outs ≡ some p)
        × (is_unrelated p.kind ≡ is_none ins && is_none outs)
        × (p.sent ≡ (if is_all ins then worth txn else 0))
        × (p.received ≡ (if is_none ins then owned_sum addr Output.value txn.outputs else 0))
  unfolding by_shares
  by_shares_lem addr txn no_part no_part fits h = (_, refl, refl, refl, sym (h refl))
  by_shares_lem addr txn all_parts outs fits h = (_, refl, sent_kind_related outs txn, refl, refl)
  by_shares_lem addr txn no_part a_part fits h = received_lem addr txn fits
  by_shares_lem addr txn no_part all_parts fits h = received_lem addr txn fits
  by_shares_lem addr txn a_part outs fits h = elim (Bool-cases (ltb 0 (length txn.contracts))) [
    | inl some_contracts ↦
        let (n, same) = lock_contracts_lem laws addr 0 txn.contracts (omega (arith, fits.1)) in
        (
          record { kind = contract; sent = 0; received = 0; locked = n },
          rw (some_contracts, same) refl,
          refl,
          refl,
          refl,
        )
    | inr no_contracts ↦ (untouched unknown, rw no_contracts refl, refl, refl, refl)
  ]

  annotate_lem :
      (addr : ℕ) (txn : Transaction)
      → Fits addr txn
      → (p : PoolTransaction) × (annotate cur txn addr ≡ some p) × Says addr txn p
  unfolding annotate
  annotate_lem addr txn fits =
      let (p, same, kind, sent, received) =
        by_shares_lem addr txn (share_in addr txn) (share_out addr txn) fits
          (λ h. owned_sum_none addr Output.value txn.outputs (share_none _ _ h)) in
      (p, rw (total_value_lem laws txn fits.0) same, (kind, sent, received))

-- The transactions that are not foreign.
abbrev pub own : ℕ → List Transaction → List Transaction
own addr [] = []
own addr (txn ∷ txns) = let rest = own addr txns in if is_foreign addr txn then rest else txn ∷ rest

abbrev pub SayEach : ℕ → List Transaction → List PoolTransaction → Type 0
SayEach addr [] [] = Unit
SayEach addr (txn ∷ txns) (p ∷ ps) = Says addr txn p × SayEach addr txns ps
SayEach addr [] (p ∷ ps) = length (p ∷ ps) ≡ 0
SayEach addr (txn ∷ txns) [] = length (txn ∷ txns) ≡ 0

-- For transactions whose values, and whose contracts' claims, stay below 2 ^ 128, neither function
-- panics. The store's list has exactly the transactions with an input or an output of the address, in
-- their order; each says as sent all the value where every input is of the address, else nothing, and
-- as received the address's outputs where no input is, else nothing. A set is relevant exactly when
-- that list is not empty.
pub annotate_all-IsOwn :
    {cur : CurrencyOps} (laws : CurrencyLaws cur) (txns : List Transaction) (addr : ℕ)
    → All (Fits addr) txns
    → (ps : List PoolTransaction) × (annotate_all cur txns addr ≡ some ps)
      × SayEach addr (own addr txns) ps
      × (relevant_transactions cur txns addr ≡ some (ltb 0 (length ps)))
unfolding annotate_all relevant_transactions
annotate_all-IsOwn laws [] addr fits = ([], refl, tt, refl)
annotate_all-IsOwn laws (txn ∷ txns) addr fits =
    let (p, same, says) = annotate_lem laws addr txn fits.0 in
    let (ps, all, each, relevant) = annotate_all-IsOwn laws txns addr fits.1 in
    elim (Bool-cases (is_foreign addr txn)) [
      | inl foreign ↦ rw (same, all, says.0, foreign, relevant) (ps, refl, each, refl)
      | inr ours ↦ rw (same, all, says.0, ours) (p ∷ ps, refl, (says, each), ap some (ground arith))
    ]
