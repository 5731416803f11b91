-- ===== src/WalletStore/Tests.antt =====
-- A wallet of one output receives another, in a block that is then reverted, and is loaded again.
use hostscore.Prelude.{
  ℕ, ◌≡◌, refl, [], ◌∷◌, List, true, false, arith, ◌==◌, Bool-cases, Option, none, some, inl, inr,
}
use hostscore.WalletStore.{
  Coin, siacoin, siafund, Element, Tables, active, DbStore, Db, done, elements, ◌>>=◌,
}
use hostscore.WalletStore.Blocks.{Update}
use hostscore.WalletStore.Saving.{update_chain_state, new_db_store}
use hostscore.WalletStore.Mirror.{Ledger, Holds, by_coin, Ends}
use hostscore.WalletStore.Spec.{after_blocks, left_spent, left_unspent}
use hostscore.WalletStore.Refinement.{DbLaws}
use hostscore.WalletStore.Commits.{update_chain_state-Refines, update_chain_state-Ends, Committed}
use hostscore.WalletStore.Restart.{new_db_store-Loads}
use hostscore.WalletStore.Undo.{update_chain_state-undo, contents, FitsLedger}
use hostscore.Prelude.Assoc.{find}

abbrev output : ℕ → ℕ → Element
output id value = record {
  state_element = record { id = id; leaf_index = 0; merkle_proof = [] };
  value = value;
  address = 9;
  maturity = 0;
}

-- Numbers that stand for the encoding.
abbrev encode : Element → List ℕ
encode e =
    e.state_element.id ∷ e.state_element.leaf_index ∷ e.value ∷ e.address ∷ e.maturity
    ∷ e.state_element.merkle_proof

abbrev decode : List ℕ → Option Element
decode (id ∷ leaf ∷ value ∷ addr ∷ maturity ∷ proof) = some (record {
  state_element = record { id = id; leaf_index = leaf; merkle_proof = proof };
  value = value;
  address = addr;
  maturity = maturity;
})
decode _ = none

abbrev db : Db
db = record {
  answer = λ _. true;
  encode = λ _ e. encode e;
  decode = λ _ b. decode b;
  order = λ m. m;
  order_rows = λ m. m;
}

laws : DbLaws db
laws = record {
  decode_encode = λ c e. refl;
  find-order = λ k m d. refl;
  order-Distinct = λ m d. d;
  find-order_rows = λ k m d. refl;
  order_rows-Distinct = λ m d. d;
}

abbrev tables : Tables
tables = record {
  wt_sces = (1, encode (output 1 50)) ∷ [];
  wt_sfes = [];
  wt_tip = some (record { height = 4; id = 44 });
}

abbrev store : DbStore
store = record {
  tip = record { height = 4; id = 44 };
  addr = 9;
  sces = (1, output 1 50) ∷ [];
  sfes = [];
  tx = active tables;
  network = 122 ∷ 101 ∷ 110 ∷ [];
  last_committed = 0;
  saved = tables;
  calls = 0;
}

abbrev ledger : Ledger
ledger = record {
  outputs = λ c k. find k (elements c store);
  tip = store.tip;
  addr = 9;
  network = store.network;
}

-- Block 5 creates an output of 30 for the wallet and spends its output of 50.
abbrev block : Update
block = record {
  network = store.network;
  index = record { height = 5; id = 55 };
  block_id = 55;
  diffs = λ c. elim c [
    | siacoin ↦
        record { element = output 2 30; created = true; spent = false }
        ∷ record { element = output 1 50; created = false; spent = true }
        ∷ []
    | siafund ↦ []
  ];
  update_element_proof = λ x. record x { merkle_proof = 7 ∷ x.merkle_proof };
}

store-Committed : Committed db ledger store
unfolding find
store-Committed = (
  record {
    tables = tables;
    running = refl;
    mirrors =
        by_coin _
          (record {
            in_memory = λ k. refl;
            in_table = λ k. ground arith;
            keyed = λ k. ground arith;
            distinct = (refl, tt);
            distinct_rows = (refl, tt);
          })
          (record {
            in_memory = λ k. refl;
            in_table = λ k. refl;
            keyed = λ k. tt;
            distinct = tt;
            distinct_rows = tt;
          });
    same_tip = refl;
    same_addr = refl;
    same_network = refl;
  },
  refl,
  refl,
)

store-Holds : Holds db ledger store
store-Holds = store-Committed.0

update_chain_state-Refines_example :
    (s' : DbStore) × (update_chain_state db 100 [] (block ∷ []) true store ≡ done s')
    × Holds db (after_blocks [] (block ∷ []) ledger) s'
    × ((true ≡ true) → Committed db (after_blocks [] (block ∷ []) ledger) s')
update_chain_state-Refines_example =
    update_chain_state-Refines laws 100 [] (block ∷ []) true ledger store store-Holds tt
      (λ x. refl, tt) (λ n. refl)

update_chain_state-Ends_example :
    Ends db 0
      (λ s'.
        Holds db (after_blocks [] (block ∷ []) ledger) s'
        × ((true ≡ true) → Committed db (after_blocks [] (block ∷ []) ledger) s'))
      (update_chain_state db 100 [] (block ∷ []) true store)
update_chain_state-Ends_example =
    update_chain_state-Ends laws 100 [] (block ∷ []) true ledger store store-Holds tt
      (λ x. refl, tt)

new_db_store-Loads_example :
    (s' : DbStore) × (new_db_store db 9 store.network tables ≡ done s') × Committed db ledger s'
new_db_store-Loads_example = new_db_store-Loads laws (λ n. refl) ledger store store-Committed

block-FitsLedger : FitsLedger block ledger
unfolding left_spent left_unspent find
block-FitsLedger siacoin k = elim (Bool-cases (2 == k)) [
  | inl h ↦
      let other : (1 == k) ≡ false = ground arith in
      rw (h, other) (inr (inr (refl, output 2 30, refl, refl)))
  | inr h ↦ elim (Bool-cases (1 == k)) [
    | inl g ↦ rw (h, g) (inr (inl (refl, output 1 50, refl, refl)))
    | inr g ↦ rw (h, g) (inl (refl, refl))
  ]
]
block-FitsLedger siafund k = inl (refl, refl)

update_chain_state-undo_example :
    (s' : DbStore) × (update_chain_state db 100 [] (block ∷ []) true store
        >>= update_chain_state db 200 (block ∷ []) [] true
      ≡ done s')
    × ((c : Coin) (k : ℕ)
        → contents (find k (elements c s')) ≡ contents (find k (elements c store)))
update_chain_state-undo_example =
    update_chain_state-undo laws 100 200 block block ledger store store-Holds (λ x. refl)
      (λ x. refl) refl refl block-FitsLedger (λ c k. (refl, refl)) (λ n. refl)
