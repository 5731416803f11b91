-- ===== src/HostStore/Updates/Endings.antt =====
-- hostdb/store.go: how `finalizeUpdates` can end.
use hostscore.Prelude.{
  false, ◌&&◌, not, none, Option, ◌⊎◌, ℕ, ◌≡◌, refl, true, List, [], ◌∷◌, some, arith, Bool-cases,
  inl, inr, ◌==◌,
}
use hostscore.HostStore.{
  HostDbEntry, HostDbStore, HostRow, HostUpdates, Sql, unix, past_guards, commit_and_begin,
  StoreError, begin_failed, commit_failed, exec_failed, ScanRow, BenchmarkRow,
}
use hostscore.HostStore.Updates.{
  mark_host, mark_hosts, mark_scan, mark_benchmark, mark_scans, mark_benchmarks,
  finalize_benchmarks, finalize_scans, finalize_updates, Marking, Markings, no_updates,
}

-- Prepare and every Exec succeed.
abbrev pub AllDone : Marking → Type 0
AllDone k = (k.prepare ≡ true) × ((i : ℕ) → k.exec i ≡ true)

-- How `finalizeUpdates` can end: the marks stand, also where only the next transaction could not be
-- begun; or the commit failed, and the rows are those that were saved; or a statement failed, and the
-- batch is kept.
abbrev pub Ended :
    (List HostRow → Type 0) → List HostRow → HostUpdates → HostDbStore × Option StoreError → Type 0
Ended Marked saved batch r =
    ((r.1 ≡ none) × Marked r.0.host_rows)
    ⊎ (((r.1 ≡ some begin_failed) × Marked r.0.host_rows)
        ⊎ (((r.1 ≡ some commit_failed) × (r.0.host_rows ≡ saved))
            ⊎ ((r.1 ≡ some exec_failed) × (r.0.last_update ≡ batch))))

module _ (Marked : List HostRow → Type 0) where
  commit-Ended :
      (sql : Sql) (batch : HostUpdates) (s : HostDbStore)
      → Marked s.host_rows
      → Ended Marked s.saved.host_rows batch (commit_and_begin sql s)
  unfolding commit_and_begin
  commit-Ended sql batch s m = elim (Bool-cases (sql.commit && not s.finished)) [
    | inr bad ↦ rw (bad, commit_and_begin) (inr (inr (inl (refl, refl))))
    | inl good ↦ elim (Bool-cases sql.begin) [
      | inl begun ↦ rw (good, begun, commit_and_begin) (inl (refl, m))
      | inr bad ↦ rw (good, bad, commit_and_begin) (inr (inl (refl, m)))
    ]
  ]

  benchmarks-Ended :
      (k : Marking) (sql : Sql) (s : HostDbStore)
      → Marked s.host_rows
      → Ended Marked s.saved.host_rows s.last_update (finalize_benchmarks k sql s)
  unfolding finalize_benchmarks
  benchmarks-Ended k sql s m = elim (Bool-cases (k.prepare && not s.finished)) [
    | inr bad ↦ rw (bad, finalize_benchmarks) (inr (inr (inr (refl, refl))))
    | inl good ↦
        let marked = mark_benchmarks k s.last_update.benchmarks s.benchmark_rows in
        elim (Bool-cases marked.1) [
          | inr bad ↦ rw (good, bad, finalize_benchmarks) (inr (inr (inr (refl, refl))))
          | inl all ↦
              rw (good, all, finalize_benchmarks)
                (commit-Ended sql s.last_update
                  (record s { benchmark_rows = marked.0; last_update = no_updates }) m)
        ]
  ]

  scans-Ended :
      (k kb : Marking) (sql : Sql) (s : HostDbStore)
      → Marked s.host_rows
      → Ended Marked s.saved.host_rows s.last_update (finalize_scans k kb sql s)
  unfolding finalize_scans
  scans-Ended k kb sql s m = elim (Bool-cases (k.prepare && not s.finished)) [
    | inr bad ↦ rw (bad, finalize_scans) (inr (inr (inr (refl, refl))))
    | inl good ↦
        let marked = mark_scans k s.last_update.scans s.scan_rows in
        elim (Bool-cases marked.1) [
          | inr bad ↦ rw (good, bad, finalize_scans) (inr (inr (inr (refl, refl))))
          | inl all ↦
              rw (good, all, finalize_scans)
                (benchmarks-Ended kb sql (record s { scan_rows = marked.0 }) m)
        ]
  ]

  pub finalize-Ended :
      (k : Markings) (sql : Sql) (s : HostDbStore)
      → s.tx ≡ true
      → ((mark_hosts k.hosts s.last_update.hosts s.host_rows).1 ≡ true
          → Marked (mark_hosts k.hosts s.last_update.hosts s.host_rows).0)
      → Ended Marked s.saved.host_rows s.last_update (finalize_updates k sql s s.last_update.id)
  unfolding finalize_updates
  finalize-Ended k sql s tx m =
      let own : (s.last_update.id == s.last_update.id) ≡ true = ground arith in
      let marked = mark_hosts k.hosts s.last_update.hosts s.host_rows in
      elim (Bool-cases (k.hosts.prepare && not s.finished)) [
        | inr bad ↦
            rw
              (
                past_guards (s.last_update.id == s.last_update.id) s.tx _ _ _ own tx,
                bad,
                finalize_updates,
              )
              (inr (inr (inr (refl, refl))))
        | inl good ↦ elim (Bool-cases marked.1) [
          | inr bad ↦
              rw
                (
                  past_guards (s.last_update.id == s.last_update.id) s.tx _ _ _ own tx,
                  good,
                  bad,
                  finalize_updates,
                )
                (inr (inr (inr (refl, refl))))
          | inl all ↦
              rw
                (
                  past_guards (s.last_update.id == s.last_update.id) s.tx _ _ _ own tx,
                  good,
                  all,
                  finalize_updates,
                )
                (scans-Ended k.scans k.benchmarks sql (record s { host_rows = marked.0 }) (m all))
        ]
      ]

mark_hosts_all :
    (k : Marking) (hs : List HostDbEntry) (rows : List HostRow)
    → ((i : ℕ) → k.exec i ≡ true)
    → (mark_hosts k hs rows).1 ≡ true
unfolding mark_hosts
mark_hosts_all k [] rows all = refl
mark_hosts_all k (h ∷ hs) rows all =
    rw (all h.id, mark_hosts) (mark_hosts_all k hs (mark_host (unix (k.clock h.id)) h.id rows) all)

mark_scans_all :
    (k : Marking) (rs rows : List ScanRow)
    → ((i : ℕ) → k.exec i ≡ true)
    → (mark_scans k rs rows).1 ≡ true
unfolding mark_scans
mark_scans_all k [] rows all = refl
mark_scans_all k (r ∷ rs) rows all =
    rw (all r.id, mark_scans) (mark_scans_all k rs (mark_scan (unix (k.clock r.id)) r.id rows) all)

mark_benchmarks_all :
    (k : Marking) (rs rows : List BenchmarkRow)
    → ((i : ℕ) → k.exec i ≡ true)
    → (mark_benchmarks k rs rows).1 ≡ true
unfolding mark_benchmarks
mark_benchmarks_all k [] rows all = refl
mark_benchmarks_all k (r ∷ rs) rows all =
    rw (all r.id, mark_benchmarks)
      (mark_benchmarks_all k rs (mark_benchmark (unix (k.clock r.id)) r.id rows) all)

-- Every statement of a confirmation succeeds.
abbrev pub NoFailure : Markings → Sql → Type 0
NoFailure k sql =
    AllDone k.hosts
    × AllDone k.scans
    × AllDone k.benchmarks
    × (sql.commit ≡ true)
    × (sql.begin ≡ true)

-- Without a failure there is no error.
module _ (sql : Sql) (good_commit : sql.commit ≡ true) (good_begin : sql.begin ≡ true) where
  commit_good : (s : HostDbStore) → s.finished ≡ false → (commit_and_begin sql s).1 ≡ none
  unfolding commit_and_begin
  commit_good s live =
      let good : (sql.commit && not s.finished) ≡ true = rw (good_commit, live) refl in
      rw (good, good_begin, commit_and_begin) refl

  benchmarks_good :
      (k : Marking) (s : HostDbStore)
      → AllDone k
      → s.finished ≡ false
      → (finalize_benchmarks k sql s).1 ≡ none
  unfolding finalize_benchmarks
  benchmarks_good k s (p, e) live =
      let good : (k.prepare && not s.finished) ≡ true = rw (p, live) refl in
      rw
        (
          good,
          mark_benchmarks_all k s.last_update.benchmarks s.benchmark_rows e,
          finalize_benchmarks,
        )
        (commit_good
          (record s {
            benchmark_rows = (mark_benchmarks k s.last_update.benchmarks s.benchmark_rows).0;
            last_update = no_updates;
          })
          live)

  scans_good :
      (k kb : Marking) (s : HostDbStore)
      → AllDone k
      → AllDone kb
      → s.finished ≡ false
      → (finalize_scans k kb sql s).1 ≡ none
  unfolding finalize_scans
  scans_good k kb s (p, e) b live =
      let good : (k.prepare && not s.finished) ≡ true = rw (p, live) refl in
      rw (good, mark_scans_all k s.last_update.scans s.scan_rows e, finalize_scans)
        (benchmarks_good kb
          (record s { scan_rows = (mark_scans k s.last_update.scans s.scan_rows).0 }) b live)

  pub finalize_good :
      (k : Markings) (s : HostDbStore)
      → s.tx ≡ true
      → s.finished ≡ false
      → AllDone k.hosts
      → AllDone k.scans
      → AllDone k.benchmarks
      → (finalize_updates k sql s s.last_update.id).1 ≡ none
  unfolding finalize_updates
  finalize_good k s tx live (p, e) ds db =
      let own : (s.last_update.id == s.last_update.id) ≡ true = ground arith in
      let good : (k.hosts.prepare && not s.finished) ≡ true = rw (p, live) refl in
      rw
        (
          past_guards (s.last_update.id == s.last_update.id) s.tx _ _ _ own tx,
          good,
          mark_hosts_all k.hosts s.last_update.hosts s.host_rows e,
          finalize_updates,
        )
        (scans_good k.scans k.benchmarks
          (record s { host_rows = (mark_hosts k.hosts s.last_update.hosts s.host_rows).0 }) ds db
          live)
