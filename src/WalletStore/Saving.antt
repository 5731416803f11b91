-- ===== src/WalletStore/Saving.antt =====
-- internal/walletutil/store.go: transactions of the database, `updateChainState`, and `load`.
use hostscore.Prelude.{
  Option, ℕ, ◌-◌, List, [], ◌∷◌, map, Bool, true, false, ◌||◌, not, none, some, ltb, if◌then◌else◌,
}
use hostscore.Prelude.Assoc.{put}
use hostscore.WalletStore.{
  Coin, siacoin, siafund, Element, ChainIndex, Tables, Tx, nil, ended, active, DbStore, elements,
  set_elements, rows, no_transaction, tip_not_loaded, tip_not_updated, not_committed, not_begun,
  not_queried, not_scanned, Run, panic, fail, done, ◌>>=◌, called, Db, exec,
}
use hostscore.WalletStore.Blocks.{Update, revert_all, apply_all}

-- `s.tx, err = s.db.Begin()`.
unfoldable pub begin : Db → DbStore → Run
begin db s =
    if db.answer s.calls
    then done (record (called s) { tx = active s.saved })
    else fail not_begun (record (called s) { tx = nil })

-- `s.tx.Commit()`, which ends the transaction in any case.
unfoldable pub commit : Db → DbStore → Run
commit db s = elim s.tx [
  | nil ↦ panic
  | ended ↦ fail not_committed s
  | active t ↦
      (if db.answer s.calls
        then done (record (called s) { tx = ended; saved = t })
        else fail not_committed (record (called s) { tx = ended }))
]

-- After a statement that failed: `Rollback`, and a new transaction if the database gives one.
unfoldable pub roll_back : Db → Run → Run
unfolding begin
roll_back db panic = panic
roll_back db (done s) = done s
roll_back db (fail e s) = elim (begin db (called s)) [
  | panic ↦ panic
  | fail _ s' ↦ fail e s'
  | done s' ↦ fail e s'
]

-- `s.lastCommitted = time.Now()`, whether or not a transaction has begun.
unfoldable pub stamp : ℕ → Run → Run
stamp now panic = panic
stamp now (fail e s) = fail e (record s { last_committed = now })
stamp now (done s) = done (record s { last_committed = now })

abbrev pub has_tx : Tx → Bool
has_tx nil = false
has_tx ended = true
has_tx (active t) = true

unfoldable pub save : Db → ℕ → DbStore → Run
unfolding begin commit roll_back stamp exec
save db now s =
    if not (has_tx s.tx)
    then fail no_transaction s
    else roll_back db (exec db tip_not_updated (λ t. record t { wt_tip = some s.tip }) s)
      >>= commit db
      >>= (λ s'. stamp now (begin db s'))

-- Commit when asked to, or 3 seconds after the last commit.
unfoldable pub save_due : Db → ℕ → Bool → DbStore → Run
unfolding save
save_due db now may_commit s =
    if may_commit || not (ltb (now - s.last_committed) 3_000_000_000) then save db now s else done s

unfoldable pub update_chain_state : Db → ℕ → List Update → List Update → Bool → DbStore → Run
unfolding revert_all apply_all save_due
update_chain_state db now reverted applied may_commit s =
    revert_all db reverted s >>= apply_all db applied >>= save_due db now may_commit

abbrev pub values : List (ℕ × Element) → List Element
values = map (λ p. p.1)

unfoldable pub unspent_outputs : Db → DbStore → List Element × List Element
unspent_outputs db s = (values (db.order s.sces), values (db.order s.sfes))

abbrev pub no_tip : ChainIndex
no_tip = record { height = 0; id = 0 }

-- The rows of one table, then the rest of `load`. A row that does not decode ends `load` at once, and
-- without an error: the source wraps `err`, which is nil there.
unfoldable pub load_rows : Db → Coin → List (ℕ × List ℕ) → (DbStore → Run) → DbStore → Run
load_rows db c [] next s = next s
load_rows db c ((id, b) ∷ rest) next s =
    if db.answer s.calls
    then elim (db.decode c b) [
      | none ↦ done (called s)
      | some e ↦ load_rows db c rest next (set_elements c (put id e (elements c s)) (called s))
    ]
    else fail (not_scanned c) (called s)

unfoldable pub load_table : Db → Coin → (DbStore → Run) → DbStore → Run
unfolding load_rows
load_table db c next s =
    if db.answer s.calls
    then load_rows db c (db.order_rows (rows c s.saved)) next (called s)
    else fail (not_queried c) (called s)

abbrev pub tip_of : Option ChainIndex → ChainIndex
tip_of none = no_tip
tip_of (some index) = index

-- A missing row of wt_tip is no error.
unfoldable pub load : Db → DbStore → Run
unfolding load_table begin
load db s =
    if db.answer s.calls
    then load_table db siacoin (load_table db siafund (begin db))
        (record (called s) { tip = elim s.saved.wt_tip [ none ↦ no_tip | some index ↦ index ] })
    else fail tip_not_loaded (called s)

-- The store that `NewDBStore` loads, for an address that comes from the seed.
unfoldable pub empty_store : ℕ → List ℕ → Tables → DbStore
empty_store addr network saved = record {
  tip = no_tip;
  addr = addr;
  sces = [];
  sfes = [];
  tx = nil;
  network = network;
  last_committed = 0;
  saved = saved;
  calls = 0;
}

unfoldable pub new_db_store : Db → ℕ → List ℕ → Tables → Run
unfolding load empty_store
new_db_store db addr network saved = load db (empty_store addr network saved)

-- The commit at the end; its result is dropped.
unfoldable pub close : Db → DbStore → DbStore
unfolding commit
close db s = elim (commit db s) [ panic ↦ s | fail _ s' ↦ s' | done s' ↦ s' ]
