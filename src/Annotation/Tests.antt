-- ===== src/Annotation/Tests.antt =====
-- A payment to the wallet at 7, one of other parties, and a contract that the wallet shares.
use hostscore.Prelude.{ℕ, ◌≡◌, refl, [], ◌∷◌, List, some, ltb, length, arith}
use hostscore.Currency.{exact_ops, exact_laws}
use hostscore.Annotation.{
  Transaction, PoolTransaction, receive, contract, annotate_all, relevant_transactions,
}
use hostscore.Annotation.Relevance.{own, SayEach, annotate_all-IsOwn}

abbrev plain : List ℕ → ℕ → Transaction
plain from to = record {
  inputs = from;
  outputs = record { value = 40; address = to } ∷ record { value = 2; address = 5 } ∷ [];
  contracts = [];
  miner_fees = 1 ∷ [];
  revisions = 0;
  storage_proofs = 0;
  arbitrary_data = 0;
}

abbrev formation : Transaction
formation = record {
  inputs = 7 ∷ 9 ∷ [];
  outputs = [];
  contracts =
      record {
        payout = 30;
        valid_proof_outputs =
            record { value = 20; address = 7 } ∷ record { value = 10; address = 9 } ∷ [];
        missed_proof_outputs = record { value = 20; address = 7 } ∷ [];
      }
      ∷ [];
  miner_fees = [];
  revisions = 0;
  storage_proofs = 0;
  arbitrary_data = 0;
}

abbrev txns : List Transaction
txns = plain (9 ∷ []) 7 ∷ plain (9 ∷ []) 8 ∷ formation ∷ []

annotate_all-IsOwn_example :
    (ps : List PoolTransaction) × (annotate_all exact_ops txns 7 ≡ some ps)
    × SayEach 7 (own 7 txns) ps
    × (relevant_transactions exact_ops txns 7 ≡ some (ltb 0 (length ps)))
annotate_all-IsOwn_example =
    annotate_all-IsOwn exact_laws txns 7
      ((omega arith, omega arith), ((omega arith, omega arith), ((omega arith, omega arith), tt)))

-- The contract's whole payout is locked, the host's part too.
annotated :
    annotate_all exact_ops txns 7
    ≡ some (
        record { kind = receive; sent = 0; received = 40; locked = 0 }
        ∷ record { kind = contract; sent = 0; received = 0; locked = 30 }
        ∷ [])
unfolding annotate_all exact_ops
annotated = refl
