-- ===== src/Wallet.antt =====
-- internal/walletutil/wallet.go: the outputs of the wallet, its reservations, and `Fund`. An id is the
-- number that its 32 bytes encode, a time a number of nanoseconds; the clock is read once in a call of
-- `Fund` or `Redistribute`.
-- The network of a call is the `Chain` that it is given, so a wrong network has no model.
pub mod Locks
pub mod Select
pub mod Fund
pub mod Redistribute
use hostscore.Prelude.{
  ℕ, zero, suc, ◌+◌, ◌-◌, ◌/◌, ◌≡◌, List, [], ◌∷◌, ◌++◌, map, Bool, true, false, ◌&&◌, ◌||◌, not,
  Option, none, some, ltb, leb, ◌==◌, if◌then◌else◌, length,
}
use hostscore.Currency.{CurrencyOps, cmp_gt, cmp_lt}

abbrev pub defrag_threshold : ℕ
defrag_threshold = 300

abbrev pub max_inputs_for_defrag : ℕ
max_inputs_for_defrag = 300

abbrev pub max_defrag_utxos : ℕ
max_defrag_utxos = 10

-- 15 minutes.
abbrev pub reservation_duration : ℕ
reservation_duration = 900_000_000_000

pub record SiacoinElement : Type 0 where
  pub id : ℕ
  pub value : ℕ
  pub address : ℕ
  pub maturity_height : ℕ

pub record SiacoinOutput : Type 0 where
  pub value : ℕ
  pub address : ℕ

-- `key` stands for its standard unlock conditions.
pub record SiacoinInput : Type 0 where
  pub parent_id : ℕ
  pub key : ℕ

-- The parts of a transaction that the wallet reads or writes here.
pub record Transaction : Type 0 where
  pub siacoin_inputs : List SiacoinInput
  pub siacoin_outputs : List SiacoinOutput
  pub siafund_inputs : List ℕ

-- `locked`, and the rows of the table wt_locked, whose column `until` is in Unix seconds.
pub record Wallet : Type 0 where
  pub locked : ℕ → Option ℕ
  pub table : ℕ → Option ℕ

abbrev pub update : (ℕ → Option ℕ) → ℕ → Option ℕ → ℕ → Option ℕ
update m k v j = if k == j then v else m j

-- `t.Unix()`.
abbrev pub seconds : ℕ → ℕ
seconds t = t / 1_000_000_000

-- `ok` says for which ids the statement on the table succeeds; a failure is only logged.
unfoldable pub lock : (ℕ → Bool) → Wallet → ℕ → ℕ → Wallet
lock ok w id until = record {
  locked = update w.locked id (some until);
  table = if ok id then update w.table id (some (seconds until)) else w.table;
}

unfoldable pub release : (ℕ → Bool) → Wallet → ℕ → Wallet
release ok w id = record {
  locked = update w.locked id none;
  table = if ok id then update w.table id none else w.table;
}

-- `time.Now().Before(w.locked[id])`; a missing key is the zero time.
abbrev pub is_locked : ℕ → Wallet → ℕ → Bool
is_locked now w id = elim (w.locked id) [ none ↦ false | some until ↦ ltb now until ]

release_all : (ℕ → Bool) → Wallet → List ℕ → Wallet
release_all ok w [] = w
release_all ok w (id ∷ ids) = release_all ok (release ok w id) ids

-- `Release`, by `releaseInputs`.
unfoldable pub release_inputs : (ℕ → Bool) → Wallet → List Transaction → Wallet
unfolding release_all release
release_inputs ok w [] = w
release_inputs ok w (txn ∷ txns) =
    release_inputs ok
      (release_all ok (release_all ok w (map (λ i. i.parent_id) txn.siacoin_inputs))
        txn.siafund_inputs)
      txns

-- One round of `pruneLocked`: the DELETE, whose result is `ok`, reads the clock at `start`, and the loop
-- over `locked` reads it again for each id.
unfoldable pub prune_locked : Bool → Wallet → ℕ → (ℕ → ℕ) → Wallet
prune_locked ok w start now = record {
  locked = λ id. elim (w.locked id) [
    | none ↦ none
    | some until ↦ (if ltb until (now id) then none else some until)
  ];
  table = λ id.
      if ok
      then elim (w.table id) [
        | none ↦ none
        | some until ↦ (if ltb until (seconds start) then none else some until)
      ]
      else w.table id;
}

-- The chain manager of a network and the wallet's address and key on it. The ids of a transaction's
-- outputs and the parents of a transaction are functions of go.sia.tech.
pub record Chain : Type 0 where
  pub pool_transactions : List Transaction
  pub height : ℕ
  pub addr : ℕ
  pub key : ℕ
  pub output_id : Transaction → ℕ → ℕ
  pub unconfirmed_parents : Transaction → List Transaction
  -- `sort.Slice` by value, descending; the order of equal values is open.
  pub sort_by_value : List SiacoinElement → List SiacoinElement

infixl 5 ◌>>=◌
abbrev pub ◌>>=◌ {ℓ κ} : {A : Type ℓ} {B : Type κ} → Option A → (A → Option B) → Option B
none >>= f = none
some a >>= f = f a

abbrev pub contains : ℕ → List ℕ → Bool
contains k [] = false
contains k (x ∷ xs) = x == k || contains k xs

without : ℕ → List SiacoinElement → List SiacoinElement
without k [] = []
without k (e ∷ es) = let rest = without k es in if e.id == k then rest else e ∷ rest

without_inputs : List SiacoinInput → List SiacoinElement → List SiacoinElement
without_inputs [] utxos = utxos
without_inputs (i ∷ is) utxos = without_inputs is (without i.parent_id utxos)

add_outputs : (ℕ → ℕ) → ℕ → List SiacoinOutput → List SiacoinElement → List SiacoinElement
add_outputs id i [] utxos = utxos
add_outputs id i (o ∷ os) utxos = add_outputs id (suc i) os (
    record { id = id i; value = o.value; address = o.address; maturity_height = 0 }
    ∷ without (id i) utxos)

-- The maps `tpoolSpent` and `tpoolUtxos` of `Fund`, as lists.
pub pool_spent : List Transaction → List ℕ
pool_spent [] = []
pool_spent (t ∷ ts) = map (λ i. i.parent_id) t.siacoin_inputs ++ pool_spent ts

pub pool_utxos : Chain → List Transaction → List SiacoinElement → List SiacoinElement
pool_utxos c [] utxos = utxos
pool_utxos c (t ∷ ts) utxos =
    pool_utxos c ts
      (add_outputs (c.output_id t) 0 t.siacoin_outputs (without_inputs t.siacoin_inputs utxos))
