-- ===== src/Wallet/Redistribute.antt =====
-- internal/walletutil/wallet.go: `Redistribute`, which splits the wallet's funds into outputs of one
-- amount. The signatures, and the fees in a transaction's encoding, are left to go.sia.tech.
pub mod Batches
pub mod Loop
pub mod Outcome
mod Tests
use hostscore.Prelude.{
  ℕ, zero, suc, ◌+◌, ◌-◌, List, [], ◌∷◌, ◌++◌, map, Bool, true, false, ◌&&◌, ◌||◌, not, Option,
  none, some, ltb, leb, ◌==◌, if◌then◌else◌, length,
}
use hostscore.Currency.{CurrencyOps, cmp_gt, cmp_lt}
use hostscore.Wallet.{
  SiacoinElement, SiacoinInput, SiacoinOutput, Transaction, Wallet, Chain, lock, is_locked, ◌>>=◌,
  contains, pool_spent, release_inputs, reservation_duration,
}
use hostscore.Wallet.Fund.{lock_all}

abbrev pub bytes_per_input : ℕ
bytes_per_input = 241

abbrev pub redistribute_batch_size : ℕ
redistribute_batch_size = 10

-- What the chain manager adds: the recommended fee, the weight of a transaction, and whether the pool
-- takes a set of transactions.
pub record FeeState : Type 0 where
  pub recommended_fee : ℕ
  pub transaction_weight : Transaction → ℕ
  pub accepts : List Transaction → Bool

-- A transaction, its fee, and the outputs that its inputs spend, whose ids are signed for.
pub record Batch : Type 0 where
  pub txn : Transaction
  pub miner_fee : ℕ
  pub inputs : List SiacoinElement

pub data Redistributed : Type 0 where
  no_outputs_wanted : Redistributed
  nothing_to_do : Redistributed
  insufficient : Wallet → Redistributed
  rejected : Wallet → List Batch → Redistributed
  broadcast : Wallet → List Batch → Redistributed

-- Neither reserved nor spent by the pool.
abbrev pub is_unused : Wallet → ℕ → List ℕ → ℕ → Bool
is_unused w now in_pool id = not (is_locked now w id || contains id in_pool)

-- The outputs that are still missing, once those of the right value are counted, and the outputs to
-- spend.
unfoldable pub count_missing : (SiacoinElement → Bool) → ℕ → ℕ → List SiacoinElement → ℕ
count_missing usable amount outputs [] = outputs
count_missing usable amount outputs (e ∷ es) =
    count_missing usable amount (if usable e && (e.value == amount) then outputs - 1 else outputs)
      es

unfoldable pub spendable_for :
    (SiacoinElement → Bool) → ℕ → List SiacoinElement → List SiacoinElement
spendable_for usable amount [] = []
spendable_for usable amount (e ∷ es) =
    let rest = spendable_for usable amount es in
    if usable e && not (e.value == amount) then e ∷ rest else rest

abbrev pub equal_outputs : ℕ → ℕ → ℕ → List SiacoinOutput
equal_outputs amount addr zero = []
equal_outputs amount addr (suc n) =
    record { value = amount; address = addr } ∷ equal_outputs amount addr n

-- The transaction whose weight is taken.
abbrev pub outputs_txn : ℕ → ℕ → ℕ → Transaction
outputs_txn amount addr n = record {
  siacoin_inputs = [];
  siacoin_outputs = equal_outputs amount addr n;
  siafund_inputs = [];
}

abbrev pub with_change : ℕ → ℕ → List SiacoinOutput → List SiacoinOutput
with_change change addr outputs =
    if change == 0 then outputs else outputs ++ (record { value = change; address = addr } ∷ [])

abbrev pub on_shortage : Wallet → List Batch → Option (Wallet × List Batch)
on_shortage w [] = none
on_shortage w (b ∷ bs) = some (w, b ∷ bs)

module _ (cur : CurrencyOps) where
  unfoldable pub sum_outputs : ℕ → List SiacoinElement → Option ℕ
  sum_outputs sum [] = some sum
  sum_outputs sum (e ∷ es) = cur.add sum e.value >>= (λ s. sum_outputs s es)

  -- The fee for a number of inputs.
  abbrev pub fee_for : ℕ → ℕ → ℕ → Option ℕ
  fee_for fee_per_input output_fees n = cur.mul64 fee_per_input n >>= (λ x. cur.add x output_fees)

  -- The loop over the outputs that stops as soon as they are worth more than is needed.
  unfoldable pub gather :
      (ℕ → Bool)
      → ℕ
      → ℕ
      → ℕ
      → List SiacoinElement
      → List SiacoinElement
      → Option (List SiacoinElement)
  unfolding sum_outputs
  gather unused fee_per_input output_fees want inputs [] = some inputs
  gather unused fee_per_input output_fees want inputs (e ∷ es) = elim (unused e.id) [
    | false ↦ gather unused fee_per_input output_fees want inputs es
    | true ↦
        let inputs' = inputs ++ (e ∷ []) in
        fee_for fee_per_input output_fees (length inputs') >>= (λ fee.
          sum_outputs 0 inputs' >>= (λ sum. cur.add want fee >>= (λ need.
            elim (cmp_gt cur sum need) [
              | true ↦ some inputs'
              | false ↦ gather unused fee_per_input output_fees want inputs' es
            ])))
  ]

  -- One transaction with `n` outputs; `some none` when the wallet has not enough.
  unfoldable pub make_batch :
      Chain → FeeState → ℕ → (ℕ → Bool) → List SiacoinElement → ℕ → Option (Option Batch)
  unfolding gather sum_outputs
  make_batch c f amount unused utxos n = do
    let outs = outputs_txn amount c.addr n
    output_fees ← cur.mul64 f.recommended_fee (f.transaction_weight outs)
    fee_per_input ← cur.mul64 f.recommended_fee bytes_per_input
    want ← cur.mul64 amount n
    inputs ← gather unused fee_per_input output_fees want [] utxos
    fee ← fee_for fee_per_input output_fees (length inputs)
    sum ← sum_outputs 0 inputs
    need ← cur.add want fee
    let enough : Option (Option Batch) = do
      change ← cur.sub sum need
      some (
          some (record {
            txn = record outs {
              siacoin_inputs = map (λ e. record { parent_id = e.id; key = c.key }) inputs;
              siacoin_outputs = with_change change c.addr outs.siacoin_outputs;
            };
            miner_fee = fee;
            inputs = inputs;
          }))
    if cmp_lt cur sum need then some none else enough

  -- The loop over batches. A shortage is an error (`none`) for the first and ends the loop later.
  unfoldable pub make_batches :
      (ℕ → Bool)
      → ℕ
      → Chain
      → FeeState
      → ℕ
      → List SiacoinElement
      → ℕ
      → Wallet
      → List Batch
      → ℕ
      → Option (Option (Wallet × List Batch))
  unfolding make_batch lock_all
  make_batches ok now c f amount utxos zero w done outputs = some (some (w, done))
  make_batches ok now c f amount utxos (suc fuel) w done zero = some (some (w, done))
  make_batches ok now c f amount utxos (suc fuel) w done (suc k) =
      let n = if ltb (suc k) redistribute_batch_size then suc k else redistribute_batch_size in
      make_batch c f amount (is_unused w now (pool_spent c.pool_transactions)) utxos n >>= (λ r.
        elim r [
          | none ↦ some (on_shortage w done)
          | some b ↦
              make_batches ok now c f amount utxos fuel
                (lock_all ok w (now + reservation_duration) b.inputs) (done ++ (b ∷ [])) (suc k - n)
        ])

  -- `AddPoolTransactions`, and the release of the inputs if it refuses.
  abbrev pub submit : (ℕ → Bool) → FeeState → Wallet → List Batch → Redistributed
  submit ok f w batches =
      let txns = map (λ b. b.txn) batches in
      if f.accepts txns then broadcast w batches else rejected (release_inputs ok w txns) batches

  abbrev pub finish : (ℕ → Bool) → FeeState → Wallet → Option (Wallet × List Batch) → Redistributed
  finish ok f w none = insufficient w
  finish ok f w (some (w', batches)) = submit ok f w' batches

  -- `elements` is the result of `UnspentOutputs`, which has no error; `none` is a panic.
  unfoldable pub redistribute :
      (ℕ → Bool)
      → Wallet
      → ℕ
      → Chain
      → FeeState
      → List SiacoinElement
      → ℕ
      → ℕ
      → Option Redistributed
  unfolding make_batches count_missing spendable_for
  redistribute ok w now c f elements amount outputs =
      let usable : SiacoinElement → Bool = λ e.
        is_unused w now (pool_spent c.pool_transactions) e.id && leb e.maturity_height c.height in
      let missing = count_missing usable amount outputs elements in
      let utxos = c.sort_by_value (spendable_for usable amount elements) in
      if outputs == 0
      then some no_outputs_wanted
      else if missing == 0
      then some nothing_to_do
      else (make_batches ok now c f amount utxos missing w [] missing
          >>= (λ r. some (finish ok f w r)))
