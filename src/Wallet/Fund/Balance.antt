-- ===== src/Wallet/Fund/Balance.antt =====
-- internal/walletutil/wallet.go: what a funded transaction looks like.
use mathlib.Core.List.{append-nil}
use hostscore.Prelude.{
  ℕ, zero, suc, ◌+◌, ◌-◌, ◌≤◌, ◌<◌, ◌≡◌, refl, ◌⊎◌, inl, inr, List, [], ◌∷◌, ◌++◌, map, Bool, false,
  some, arith, ltb, ◌==◌, if◌then◌else◌, Bool-cases,
}
use hostscore.Currency.{CurrencyOps, CurrencyLaws, max_currency, cmp_gt-ltb}
use hostscore.Wallet.{
  SiacoinElement, SiacoinInput, SiacoinOutput, Transaction, Wallet, Chain, lock, contains,
  reservation_duration,
}
use hostscore.Wallet.Fund.{
  Request, Outcome, funded, failed, insufficient_balance, request, fund, fund_from, complete,
  add_change, lock_all,
}
use hostscore.Wallet.Fund.Loops.{sum_by, value_of}
use hostscore.Wallet.Fund.Choice.{Permutes, spendable, Chosen, choose-Chooses}

-- The outputs that carry the change.
abbrev pub change_outputs : ℕ → ℕ → List SiacoinOutput
change_outputs addr zero = []
change_outputs addr (suc n) = record { value = suc n; address = addr } ∷ []

abbrev pub ids : List SiacoinElement → List ℕ
ids = map λ e. e.id

abbrev pub inputs_of : ℕ → List SiacoinElement → List SiacoinInput
inputs_of key = map λ e. record { parent_id = e.id; key = key }

lock_all_lem :
    (ok : ℕ → Bool) (w : Wallet) (until : ℕ) (es : List SiacoinElement) (k : ℕ)
    → (lock_all ok w until es).locked k ≡ (if contains k (ids es) then some until else w.locked k)
unfolding lock_all lock
lock_all_lem ok w until [] k = refl
lock_all_lem ok w until (e ∷ es) k =
    ground (arith, lock_all_lem ok (lock ok w e.id until) until es k)

module _ {cur : CurrencyOps} (laws : CurrencyLaws cur) where
  add_change_lem :
      (sum amount addr : ℕ) (outputs : List SiacoinOutput)
      → amount ≤ sum
      → add_change cur sum amount addr outputs
        ≡ some (outputs ++ change_outputs addr (sum - amount))
  unfolding add_change
  add_change_lem sum amount addr outputs h = elim (Bool-cases (ltb amount sum)) [
    | inl more ↦
        let e : sum - amount ≡ suc (sum - amount - 1) = ground arith in
        rw (cmp_gt-ltb laws sum amount, more, laws.sub_some sum amount h) (rw e refl)
    | inr same ↦
        let e : sum - amount ≡ 0 = ground arith in
        rw (cmp_gt-ltb laws sum amount, same, e, append-nil) refl
  ]

-- `Fund` succeeds with the outputs `chosen`: what the caller gets.
pub record Funds (w : Wallet) (now : ℕ) (c : Chain) (txn : Transaction) (q : Request) (o : Outcome)
    : Type 0 where
  pub chosen : List SiacoinElement
  pub change : ℕ
  pub w' : Wallet
  pub txn' : Transaction
  pub result : o ≡ funded w' txn' (c.unconfirmed_parents txn') (ids chosen)
  pub balanced : sum_by value_of chosen ≡ q.amount + change
  pub once : (f : SiacoinElement → ℕ) → sum_by f chosen ≤ sum_by f (spendable q)
  pub inputs : txn'.siacoin_inputs ≡ txn.siacoin_inputs ++ inputs_of c.key chosen
  pub outputs : txn'.siacoin_outputs ≡ txn.siacoin_outputs ++ change_outputs c.addr change
  pub reserved :
      (k : ℕ)
      → w'.locked k
        ≡ (if contains k (ids chosen) then some (now + reservation_duration) else w.locked k)

module _ {cur : CurrencyOps} (laws : CurrencyLaws cur) where
  complete-Funds :
      (ok : ℕ → Bool) (w : Wallet) (now : ℕ) (c : Chain) (txn : Transaction) (q : Request)
      (chosen : List SiacoinElement × ℕ)
      → Chosen q chosen
      → Funds w now c txn q (fund_from cur ok w now c txn q.amount (some (some chosen)))
  unfolding fund_from complete
  complete-Funds ok w now c txn q (selected, sum) ch =
      let txn' : Transaction = record txn {
        siacoin_outputs = txn.siacoin_outputs ++ change_outputs c.addr (sum - q.amount);
        siacoin_inputs = txn.siacoin_inputs ++ inputs_of c.key selected;
      } in
      record {
        chosen = selected;
        change = sum - q.amount;
        w' = lock_all ok w (now + reservation_duration) selected;
        txn' = txn';
        result = rw (add_change_lem laws sum q.amount c.addr txn.siacoin_outputs ch.covered) refl;
        balanced = omega (arith, ch.covered, ch.sum);
        once = ch.once;
        inputs = refl;
        outputs = refl;
        reserved = lock_all_lem ok w (now + reservation_duration) selected;
      }

  -- `Fund` of a positive amount, with the outputs of the wallet and of the pool below 2 ^ 128 in sum
  -- and a sort that permutes: either all that is spendable does not cover the amount and the call
  -- fails with ErrInsufficientBalance, or it succeeds. Then the inputs that it adds are worth exactly
  -- the amount plus the change output, are spendable (unlocked, mature, unspent in the pool), none
  -- twice, are what is to be signed, and are reserved for 15 minutes, all other locks unchanged.
  pub fund-Funds :
      (ok : ℕ → Bool) (w : Wallet) (now : ℕ) (c : Chain) (elements : List SiacoinElement)
      (txn : Transaction) (amount : ℕ) (use_unconfirmed : Bool)
      → let q = request w now c elements txn amount use_unconfirmed in
        let o = fund cur ok w now c (some elements) txn amount use_unconfirmed in
        0 < amount
        → Permutes c.sort_by_value
        → sum_by value_of elements + sum_by value_of q.pool < max_currency
        → ((o ≡ failed insufficient_balance) × (sum_by value_of (spendable q) < amount))
          ⊎ Funds w now c txn q o
  unfolding fund
  fund-Funds ok w now c elements txn amount use_unconfirmed pos perm h =
      let q = request w now c elements txn amount use_unconfirmed in
      let positive : (amount == 0) ≡ false = ground arith in
      elim (choose-Chooses laws q perm h) [
        | inl (e, short) ↦ inl (rw (positive, e) refl, short)
        | inr (chosen, e, ch) ↦ inr (rw (positive, e) (complete-Funds ok w now c txn q chosen ch))
      ]
