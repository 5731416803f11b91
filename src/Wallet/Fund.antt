-- ===== src/Wallet/Fund.antt =====
-- internal/walletutil/wallet.go: `Fund` as a whole.
pub mod Loops
pub mod Choice
pub mod Balance
mod Tests
use mathlib.Core.List.{reverse}
use mathlib.Core.Option.{get_or}
use hostscore.Prelude.{
  ℕ, ◌+◌, List, [], ◌∷◌, ◌++◌, map, Bool, true, false, ◌&&◌, ◌||◌, not, Option, none, some, ltb,
  ◌==◌, if◌then◌else◌, length,
}
use hostscore.Currency.{CurrencyOps, cmp_gt, cmp_lt}
use hostscore.Wallet.{
  SiacoinElement, SiacoinInput, SiacoinOutput, Transaction, Wallet, Chain, lock, is_locked, ◌>>=◌,
  pool_spent, pool_utxos, defrag_threshold, max_inputs_for_defrag, reservation_duration,
}
use hostscore.Wallet.Select.{
  Class, classify, collect, collect_unconfirmed, select_utxos, select_unconfirmed, defrag_loop,
  defraggable,
}

pub data FundError : Type 0 where
  no_utxos insufficient_balance : FundError

pub data Outcome : Type 0 where
  panicked : Outcome
  failed : FundError → Outcome
  -- The wallet, the transaction, its unconfirmed parents and the ids to sign.
  funded : Wallet → Transaction → List Transaction → List ℕ → Outcome

-- What `Fund` reads before it chooses: the treatment of each output, and whether an output of the
-- pool is skipped.
pub record Request : Type 0 where
  pub class : SiacoinElement → Class
  pub skip : SiacoinElement → Bool
  pub sort_by_value : List SiacoinElement → List SiacoinElement
  pub elements : List SiacoinElement
  pub pool : List SiacoinElement
  -- `len(txn.SiacoinInputs)` on entry.
  pub inputs : ℕ
  pub amount : ℕ
  pub use_unconfirmed : Bool

unfoldable pub lock_all : (ℕ → Bool) → Wallet → ℕ → List SiacoinElement → Wallet
lock_all ok w until [] = w
lock_all ok w until (e ∷ es) = lock_all ok (lock ok w e.id until) until es

abbrev pub request : Wallet → ℕ → Chain → List SiacoinElement → Transaction → ℕ → Bool → Request
request w now c elements txn amount use_unconfirmed = record {
  class = classify w now (pool_spent c.pool_transactions) c.height;
  skip = λ e. not (e.address == c.addr) || is_locked now w e.id;
  sort_by_value = c.sort_by_value;
  elements = elements;
  pool = pool_utxos c c.pool_transactions [];
  inputs = length txn.siacoin_inputs;
  amount = amount;
  use_unconfirmed = use_unconfirmed;
}

abbrev or_panic : Option Outcome → Outcome
or_panic none = panicked
or_panic (some o) = o

module _ (cur : CurrencyOps) where
  -- `if inputSum.Cmp(amount) < 0 && useUnconfirmed`.
  with_unconfirmed :
      Request → List SiacoinElement → List SiacoinElement → ℕ → Option (List SiacoinElement × ℕ)
  with_unconfirmed q unconfirmed selected sum =
      let more : Option (List SiacoinElement × ℕ) = do
        (added, total) ← select_unconfirmed cur q.amount sum unconfirmed
        some (selected ++ added, total)
      in if cmp_lt cur sum q.amount && q.use_unconfirmed then more else some (selected, sum)

  -- `if len(utxos) > defragThreshold && txnInputs < maxInputsForDefrag`.
  with_defrag :
      Request → List SiacoinElement → List SiacoinElement → ℕ → Option (List SiacoinElement × ℕ)
  with_defrag q utxos selected sum =
      let inputs = q.inputs + length selected in
      let more : Option (List SiacoinElement × ℕ) = do
        (added, total) ← defrag_loop cur inputs sum (reverse (defraggable utxos))
        some (selected ++ added, total)
      in if ltb defrag_threshold (length utxos) && ltb inputs max_inputs_for_defrag
        then more
        else some (selected, sum)

  -- The outputs that `Fund` spends and their sum; `some none` is ErrInsufficientBalance.
  unfoldable pub choose : Request → Option (Option (List SiacoinElement × ℕ))
  unfolding with_unconfirmed with_defrag
  choose q = do
    usable ← collect cur q.class 0 0 q.elements
    let utxos = q.sort_by_value usable
    unconfirmed ← if q.use_unconfirmed then collect_unconfirmed cur q.skip 0 q.pool else some []
    (first, first_sum, rest) ← select_utxos cur q.amount 0 utxos
    (selected, sum) ← with_unconfirmed q (q.sort_by_value unconfirmed) first first_sum
    let enough : Option (Option (List SiacoinElement × ℕ)) = do
      chosen ← with_defrag q (get_or rest utxos) selected sum
      some (some chosen)
    if cmp_lt cur sum q.amount then some none else enough

  -- The change output.
  add_change : ℕ → ℕ → ℕ → List SiacoinOutput → Option (List SiacoinOutput)
  add_change sum amount addr outputs =
      let more : Option (List SiacoinOutput) = do
        change ← cur.sub sum amount
        some (outputs ++ (record { value = change; address = addr } ∷ []))
      in if cmp_gt cur sum amount then more else some outputs

  -- From the change output to the end.
  complete :
      (ℕ → Bool) → Wallet → ℕ → Chain → Transaction → ℕ → List SiacoinElement × ℕ → Option Outcome
  complete ok w now c txn amount (selected, sum) = do
    outputs ← add_change sum amount c.addr txn.siacoin_outputs
    let txn' : Transaction = record txn {
      siacoin_outputs = outputs;
      siacoin_inputs =
          txn.siacoin_inputs ++ map (λ e. record { parent_id = e.id; key = c.key }) selected;
    }
    some (
        funded (lock_all ok w (now + reservation_duration) selected) txn'
          (c.unconfirmed_parents txn') (map (λ e. e.id) selected))

  fund_from :
      (ℕ → Bool)
      → Wallet
      → ℕ
      → Chain
      → Transaction
      → ℕ
      → Option (Option (List SiacoinElement × ℕ))
      → Outcome
  fund_from ok w now c txn amount none = panicked
  fund_from ok w now c txn amount (some none) = failed insufficient_balance
  fund_from ok w now c txn amount (some (some chosen)) =
      or_panic (complete ok w now c txn amount chosen)

  -- `elements` is the result of `UnspentOutputs`, `none` on its error.
  unfoldable pub fund :
      (ℕ → Bool)
      → Wallet
      → ℕ
      → Chain
      → Option (List SiacoinElement)
      → Transaction
      → ℕ
      → Bool
      → Outcome
  unfolding fund_from complete add_change lock_all
  fund ok w now c elements txn amount use_unconfirmed =
      if amount == 0 then funded w txn [] [] else elim elements [
        | none ↦ failed no_utxos
        | some es ↦
            fund_from ok w now c txn amount (choose (request w now c es txn amount use_unconfirmed))
      ]
