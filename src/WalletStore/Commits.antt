-- ===== src/WalletStore/Commits.antt =====
-- internal/walletutil/store.go: transactions keep the store and the tables together, and `updateChainState`
-- refines its specification.
use hostscore.Prelude.{
  ℕ, ◌≡◌, refl, sym, ◌∙◌, ap, List, Bool, true, false, not, ◌||◌, ◌-◌, ltb, some, ◌+◌, arith, All,
  Bool-cases, inl, inr,
}
use hostscore.WalletStore.{
  siacoin, siafund, active, ended, DbStore, Run, done, fail, panic, Db, not_begun, nil, called,
  not_committed,
}
use hostscore.WalletStore.Blocks.{Update, apply_all}
use hostscore.WalletStore.Saving.{
  begin, commit, roll_back, stamp, save, save_due, update_chain_state, has_tx,
}
use hostscore.WalletStore.Mirror.{by_coin, Ledger, Holds, Ends, bind-Ends, answer-Ends}
use hostscore.WalletStore.Loops.{done-Ends}
use hostscore.WalletStore.Spec.{reverted_ledger, after_blocks, all_ledgers}
use hostscore.WalletStore.Mirror.{exec-Ends, Ends-map}
use hostscore.WalletStore.Refinement.{DbLaws, KeepsIds, apply_all-Holds, revert_all-Holds}

-- What the store holds is committed, and a new transaction has begun.
abbrev pub Committed : Db → Ledger → DbStore → Type 0
Committed db l s = (h : Holds db l s) × (h.tables ≡ s.saved) × (s.saved.wt_tip ≡ some l.tip)

module _ {db : Db} (laws : DbLaws db) where
  -- Between the commit and the new transaction.
  abbrev Ended : Ledger → DbStore → Type 0
  Ended l s = Holds db l (record s { tx = active s.saved }) × (s.saved.wt_tip ≡ some l.tip)

  abbrev WithTip : Ledger → DbStore → Type 0
  WithTip l s = (h : Holds db l s) × (h.tables.wt_tip ≡ some l.tip)

  tip_row :
      (l : Ledger) (s : DbStore) (h : Holds db l s)
      → WithTip l (record (called s) { tx = active (record h.tables { wt_tip = some s.tip }) })
  tip_row l s h = (
    record {
      tables = record h.tables { wt_tip = some s.tip };
      running = refl;
      mirrors = by_coin _ (h.mirrors siacoin) (h.mirrors siafund);
      same_tip = h.same_tip;
      same_addr = h.same_addr;
      same_network = h.same_network;
    },
    ap some h.same_tip,
  )

  roll_back-Ends :
      (from : ℕ) (P : DbStore → Type 0) (r : Run)
      → Ends db from P r
      → Ends db from P (roll_back db r)
  unfolding roll_back begin
  roll_back-Ends from P panic h = h
  roll_back-Ends from P (done s) h = h
  roll_back-Ends from P (fail e s) (n, after, before, bad) =
      elim (Bool-cases (db.answer (s.calls + 1))) [
        | inl ok ↦ rw (ok, roll_back, begin) (n, after, omega arith, bad)
        | inr failed ↦ rw (failed, roll_back, begin) (n, after, omega arith, bad)
      ]

  commit-Ends : (l : Ledger) (s : DbStore) → WithTip l s → Ends db s.calls (Ended l) (commit db s)
  unfolding commit
  commit-Ends l s (h, tip) =
      rw (h.running, commit)
        (answer-Ends db (Ended l) not_committed s
          (record (called s) { tx = ended; saved = h.tables }) (record (called s) { tx = ended })
          refl refl
          (
            record {
              tables = h.tables;
              running = refl;
              mirrors = by_coin _ (h.mirrors siacoin) (h.mirrors siafund);
              same_tip = h.same_tip;
              same_addr = h.same_addr;
              same_network = h.same_network;
            },
            tip,
          ))

  begin-Ends :
      (l : Ledger) (s : DbStore) → Ended l s → Ends db s.calls (Committed db l) (begin db s)
  unfolding begin
  begin-Ends l s (h, tip) =
      let same : active s.saved ≡ active h.tables = h.running in
      answer-Ends db (Committed db l) not_begun s (record (called s) { tx = active s.saved })
        (record (called s) { tx = nil }) refl refl
        (
          record {
            tables = h.tables;
            running = h.running;
            mirrors = by_coin _ (h.mirrors siacoin) (h.mirrors siafund);
            same_tip = h.same_tip;
            same_addr = h.same_addr;
            same_network = h.same_network;
          },
          cc,
          tip,
        )

  stamp-Ends :
      (from now : ℕ) (l : Ledger) (r : Run)
      → Ends db from (Committed db l) r
      → Ends db from (Committed db l) (stamp now r)
  unfolding stamp
  stamp-Ends from now l panic h = h
  stamp-Ends from now l (fail e s) h = h
  stamp-Ends from now l (done s) ((h, same, tip), more, all) = (
    (
      record {
        tables = h.tables;
        running = h.running;
        mirrors = by_coin _ (h.mirrors siacoin) (h.mirrors siafund);
        same_tip = h.same_tip;
        same_addr = h.same_addr;
        same_network = h.same_network;
      },
      same,
      tip,
    ),
    more,
    all,
  )

  save-Ends :
      (now : ℕ) (l : Ledger) (s : DbStore)
      → Holds db l s
      → Ends db s.calls (Committed db l) (save db now s)
  unfolding save
  save-Ends now l s h =
      let some_tx : has_tx s.tx ≡ true = rw h.running refl in
      rw (some_tx, save)
        (bind-Ends db s.calls (Ended l) _ _ (λ s'. stamp now (begin db s'))
          (bind-Ends db s.calls (WithTip l) _ _ (commit db)
            (roll_back-Ends s.calls _ _
              (exec-Ends db (WithTip l) _ _ s h.tables h.running (tip_row l s h)))
            (commit-Ends l))
          (λ s' e. stamp-Ends s'.calls now l (begin db s') (begin-Ends l s' e)))

  abbrev Saved : Bool → Ledger → DbStore → Type 0
  Saved may_commit l s = Holds db l s × ((may_commit ≡ true) → Committed db l s)

  save_due-Ends :
      (now : ℕ) (may_commit : Bool) (l : Ledger) (s : DbStore)
      → Holds db l s
      → Ends db s.calls (Saved may_commit l) (save_due db now may_commit s)
  unfolding save_due
  save_due-Ends now may_commit l s h =
      elim (Bool-cases (may_commit || not (ltb (now - s.last_committed) 3_000_000_000))) [
        | inl due ↦
            rw (due, save_due)
              (Ends-map db s.calls _ _ (save db now s) (λ s' c. (c.0, λ may. c))
                (save-Ends now l s h))
        | inr later ↦
            rw (later, save_due)
              (done-Ends db (Saved may_commit l) s
                (h, λ may. let clash : true ≡ false = rw may at later in cc))
      ]

  -- From a store that holds a ledger, and blocks that do not change the ids of elements,
  -- `updateChainState` never panics. It returns without an error only if every call of the database
  -- succeeded, and then the store holds what the specification derives from the blocks, committed if
  -- that was asked for; it returns an error only if one of its calls of the database failed.
  pub update_chain_state-Ends :
      (now : ℕ) (reverted applied : List Update) (may_commit : Bool) (l : Ledger) (s : DbStore)
      → Holds db l s
      → All KeepsIds reverted
      → All KeepsIds applied
      → Ends db s.calls
          (λ s'.
            Holds db (after_blocks reverted applied l) s'
            × ((may_commit ≡ true) → Committed db (after_blocks reverted applied l) s'))
          (update_chain_state db now reverted applied may_commit s)
  unfolding update_chain_state
  update_chain_state-Ends now reverted applied may_commit l s h r a =
      bind-Ends db s.calls (Holds db (after_blocks reverted applied l)) _ _
        (save_due db now may_commit)
        (bind-Ends db s.calls (Holds db (all_ledgers reverted_ledger reverted l)) _ _
          (apply_all db applied) (revert_all-Holds laws reverted l s r h)
          (λ s'. apply_all-Holds laws applied (all_ledgers reverted_ledger reverted l) s' a))
        (save_due-Ends now may_commit (after_blocks reverted applied l))

  pub completed :
      (from : ℕ) (P : DbStore → Type 0) (r : Run)
      → ((n : ℕ) → db.answer n ≡ true)
      → Ends db from P r
      → (s : DbStore) × (r ≡ done s) × P s
  completed from P panic ok h = elim h [ ]
  completed from P (fail e s) ok (n, after, before, bad) =
      let clash : true ≡ false = sym (ok n) ∙ bad in cc
  completed from P (done s) ok h = (s, refl, h.0)

  -- For a store that holds a ledger, the ids of whose elements no block changes: when every call of the
  -- database succeeds, `updateChainState` returns without an error, and the store holds, in memory and
  -- in the tables of its transaction, the ledger that the specification derives id by id from the
  -- reverted blocks and then from the applied ones. When a commit is asked for, it is done.
  pub update_chain_state-Refines :
      (now : ℕ) (reverted applied : List Update) (may_commit : Bool) (l : Ledger) (s : DbStore)
      → Holds db l s
      → All KeepsIds reverted
      → All KeepsIds applied
      → ((n : ℕ) → db.answer n ≡ true)
      → (s' : DbStore) × (update_chain_state db now reverted applied may_commit s ≡ done s')
        × Holds db (after_blocks reverted applied l) s'
        × ((may_commit ≡ true) → Committed db (after_blocks reverted applied l) s')
  update_chain_state-Refines now reverted applied may_commit l s h r a ok =
      let (s', e, (h', c)) =
        completed s.calls _ _ ok
          (update_chain_state-Ends now reverted applied may_commit l s h r a) in
      (s', e, h', c)
