-- ===== src/Wallet/Fund/Tests.antt =====
-- A wallet of three outputs, one of them reserved, pays for a transaction.
use hostscore.Prelude.{
  ℕ, ◌<◌, ◌≡◌, refl, ◌⊎◌, [], ◌∷◌, List, true, none, some, arith, ◌==◌, if◌then◌else◌,
}
use hostscore.Currency.{exact_ops, exact_laws}
use hostscore.Wallet.{SiacoinElement, Transaction, Wallet, Chain, pool_utxos}
use hostscore.Wallet.Fund.{Request, request, fund, failed, insufficient_balance}
use hostscore.Wallet.Fund.Loops.{sum_by, value_of}
use hostscore.Wallet.Fund.Choice.{spendable}
use hostscore.Wallet.Fund.Balance.{Funds, fund-Funds}

abbrev output : ℕ → ℕ → SiacoinElement
output id value = record { id = id; value = value; address = 9; maturity_height = 0 }

abbrev outputs : List SiacoinElement
outputs = output 1 50 ∷ output 2 40 ∷ output 3 30 ∷ []

-- The second output is reserved until time 100.
abbrev wallet : Wallet
wallet = record {
  locked = λ id. if id == 2 then some 100 else none;
  table = λ id. if id == 2 then some 0 else none;
}

abbrev chain : Chain
chain = record {
  pool_transactions = [];
  height = 10;
  addr = 9;
  key = 77;
  output_id = λ _ i. i;
  unconfirmed_parents = λ _. [];
  sort_by_value = λ es. es;
}

abbrev payment : Transaction
payment = record {
  siacoin_inputs = [];
  siacoin_outputs = record { value = 60; address = 5 } ∷ [];
  siafund_inputs = [];
}

abbrev asked : Request
asked = request wallet 20 chain outputs payment 60 true

fund-Funds_example :
    ((fund exact_ops (λ _. true) wallet 20 chain (some outputs) payment 60 true
        ≡ failed insufficient_balance)
      × (sum_by value_of (spendable asked) < 60))
    ⊎ Funds wallet 20 chain payment asked
        (fund exact_ops (λ _. true) wallet 20 chain (some outputs) payment 60 true)
unfolding pool_utxos
fund-Funds_example =
    fund-Funds exact_laws (λ _. true) wallet 20 chain outputs payment 60 true (omega arith)
      (λ f xs. refl) (omega arith)
