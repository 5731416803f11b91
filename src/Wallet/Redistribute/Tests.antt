-- ===== src/Wallet/Redistribute/Tests.antt =====
-- A wallet of two outputs, one of them reserved, is to have three outputs of 20.
use hostscore.Prelude.{ℕ, ◌≤◌, refl, [], ◌∷◌, List, true, none, some, arith, ◌==◌, if◌then◌else◌}
use hostscore.Currency.{exact_ops, exact_laws}
use hostscore.Wallet.{SiacoinElement, Wallet, Chain, pool_spent}
use hostscore.Wallet.Redistribute.{FeeState, redistribute, spendable_for}
use hostscore.Wallet.Redistribute.Outcome.{IsExpected, redistribute-IsExpected}

abbrev output : ℕ → ℕ → SiacoinElement
output id value = record { id = id; value = value; address = 9; maturity_height = 0 }

abbrev outputs : List SiacoinElement
outputs = output 1 5000 ∷ output 2 40 ∷ []

-- The second output is reserved until time 100.
abbrev wallet : Wallet
wallet = record {
  locked = λ id. if id == 2 then some 100 else none;
  table = λ id. if id == 2 then some 0 else none;
}

abbrev chain : Chain
chain = record {
  pool_transactions = [];
  height = 10;
  addr = 9;
  key = 77;
  output_id = λ _ i. i;
  unconfirmed_parents = λ _. [];
  sort_by_value = λ es. es;
}

abbrev fees : FeeState
fees = record { recommended_fee = 1; transaction_weight = λ _. 300; accepts = λ _. true }

redistribute-IsExpected_example :
    IsExpected exact_laws
      (λ _. true)
      wallet
      20
      chain
      fees
      outputs
      20
      3
      (redistribute exact_ops (λ _. true) wallet 20 chain fees outputs 20 3)
unfolding spendable_for pool_spent
redistribute-IsExpected_example =
    redistribute-IsExpected exact_laws (λ _. true) wallet 20 chain fees outputs 20 3 (λ g xs. refl)
      (λ n few i le. let le' : i ≤ 2 = le in omega arith, omega arith)
