-- ===== src/Annotation.antt =====
-- wallet/wallet.go: `Annotate`, and its callers `relevantTransactions` of internal/walletutil/wallet.go
-- and `Annotate` of internal/walletutil/store.go. A transaction has what these read: of an input the
-- hash of its unlock conditions, of revisions, proofs and arbitrary data how many there are; its ID
-- and the copy of it that `PoolTransaction` holds are left out. `none` is the panic of an addition.
pub mod Sums
pub mod Relevance
mod Tests
use hostscore.Prelude.{
  ℕ, suc, ◌+◌, List, [], ◌∷◌, Bool, true, false, Option, none, some, ltb, ◌==◌, if◌then◌else◌,
  length,
}
use hostscore.Currency.{CurrencyOps, cmp_gt}
use hostscore.Wallet.{◌>>=◌}

pub record Output : Type 0 where
  pub value : ℕ
  pub address : ℕ

pub record FileContract : Type 0 where
  pub payout : ℕ
  pub valid_proof_outputs : List Output
  pub missed_proof_outputs : List Output

pub record Transaction : Type 0 where
  pub inputs : List ℕ
  pub outputs : List Output
  pub contracts : List FileContract
  pub miner_fees : List ℕ
  pub revisions : ℕ
  pub storage_proofs : ℕ
  pub arbitrary_data : ℕ

pub data Kind : Type 0 where
  unknown unrelated redistribution contract_revision storage_proof : Kind
  announcement send receive contract : Kind

pub record PoolTransaction : Type 0 where
  pub kind : Kind
  pub sent : ℕ
  pub received : ℕ
  pub locked : ℕ

-- How much is ours of the inputs or the outputs.
pub data Share : Type 0 where
  no_part a_part all_parts : Share

-- The switches on `ownedIn` and `ownedOut`; a count never passes the length.
abbrev pub share : ℕ → ℕ → Share
share owned n = if owned == 0 then no_part else if ltb owned n then a_part else all_parts

abbrev pub owned_inputs : ℕ → List ℕ → ℕ
owned_inputs addr [] = 0
owned_inputs addr (i ∷ is) = let rest = owned_inputs addr is in if i == addr then suc rest else rest

abbrev pub owned_outputs : ℕ → List Output → ℕ
owned_outputs addr [] = 0
owned_outputs addr (o ∷ os) =
    let rest = owned_outputs addr os in if o.address == addr then suc rest else rest

-- The inner switch, where all the inputs are ours.
abbrev pub sent_kind : Share → Transaction → Kind
sent_kind outs txn = elim outs [
  | all_parts ↦ redistribution
  | _ ↦
      if ltb 0 txn.revisions
      then contract_revision
      else if ltb 0 txn.storage_proofs
      then storage_proof
      else if ltb 0 txn.arbitrary_data
      then announcement
      else send
]

abbrev pub untouched : Kind → PoolTransaction
untouched k = record { kind = k; sent = 0; received = 0; locked = 0 }

abbrev pub is_unrelated : Kind → Bool
is_unrelated k = elim k [ unrelated ↦ true | _ ↦ false ]

module _ (cur : CurrencyOps) where
  -- A loop that adds up.
  unfoldable pub add_up {ℓ} : {A : Type ℓ} → (A → ℕ) → ℕ → List A → Option ℕ
  add_up f sum [] = some sum
  add_up f sum (x ∷ xs) = do sum' ← cur.add sum (f x); add_up f sum' xs

  -- A loop that adds up over the outputs that are ours.
  unfoldable pub add_owned : ℕ → (Output → ℕ) → ℕ → List Output → Option ℕ
  add_owned addr f sum [] = some sum
  add_owned addr f sum (o ∷ os) = do
    sum' ← if o.address == addr then cur.add sum (f o) else some sum
    add_owned addr f sum' os

  unfoldable pub total_value : Transaction → Option ℕ
  unfolding add_up
  total_value txn = do
    a ← add_up Output.value 0 txn.outputs
    b ← add_up FileContract.payout a txn.contracts
    add_up (λ fee. fee) b txn.miner_fees

  -- The loop over the contracts.
  unfoldable pub lock_contracts : ℕ → ℕ → List FileContract → Option ℕ
  unfolding add_owned
  lock_contracts addr locked [] = some locked
  lock_contracts addr locked (fc ∷ fcs) = do
    valid ← add_owned addr (λ o. fc.payout) 0 fc.valid_proof_outputs
    missed ← add_owned addr (λ o. fc.payout) 0 fc.missed_proof_outputs
    locked' ← cur.add locked (if cmp_gt cur valid missed then valid else missed)
    lock_contracts addr locked' fcs

  -- The switch on both shares.
  unfoldable pub by_shares : ℕ → Transaction → ℕ → Share → Share → Option PoolTransaction
  unfolding add_owned lock_contracts
  by_shares addr txn total no_part no_part = some (untouched unrelated)
  by_shares addr txn total all_parts outs =
      some (record { kind = sent_kind outs txn; sent = total; received = 0; locked = 0 })
  by_shares addr txn total no_part outs = do
    received ← add_owned addr Output.value 0 txn.outputs
    some (record { kind = receive; sent = 0; received = received; locked = 0 })
  by_shares addr txn total a_part outs =
      if ltb 0 (length txn.contracts)
      then (do
        locked ← lock_contracts addr 0 txn.contracts
        some (record { kind = contract; sent = 0; received = 0; locked = locked }))
      else some (untouched unknown)

  unfoldable pub annotate : Transaction → ℕ → Option PoolTransaction
  unfolding total_value by_shares
  annotate txn addr = do
    total ← total_value txn
    by_shares addr txn total (share (owned_inputs addr txn.inputs) (length txn.inputs))
        (share (owned_outputs addr txn.outputs) (length txn.outputs))

  unfoldable pub relevant_transactions : List Transaction → ℕ → Option Bool
  unfolding annotate
  relevant_transactions [] addr = some false
  relevant_transactions (txn ∷ txns) addr =
      let rest = relevant_transactions txns addr in
      do ptxn ← annotate txn addr; if is_unrelated ptxn.kind then rest else some true

  -- `Annotate` of the store, of the pool's transactions.
  unfoldable pub annotate_all : List Transaction → ℕ → Option (List PoolTransaction)
  unfolding annotate
  annotate_all [] addr = some []
  annotate_all (txn ∷ txns) addr = do
    ptxn ← annotate txn addr
    rest ← annotate_all txns addr
    some (if is_unrelated ptxn.kind then rest else ptxn ∷ rest)
