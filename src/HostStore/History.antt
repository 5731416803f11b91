-- ===== src/HostStore/History.antt =====
-- hostdb/store.go: what `updateScanHistory` leaves in the store.
use hostscore.Prelude.{
  suc, ltb, length-append, length, ◌||◌, ℕ, ◌≡◌, refl, ◌∙◌, ◌↔◌, Bool, true, false, ◌&&◌, List, [],
  ◌∷◌, ◌++◌, Option, none, some, arith, Bool-cases, inl, inr, ◌==◌, if◌then◌else◌, str_eq_refl,
  str_eq,
}
use hostscore.HostStore.{
  HostScan, HostDbEntry, HostDbStore, Sql, StoreError, exec_failed, commit_failed, begin_failed,
  find_host, put_host, update, update_scan_history, record_scan, is_active, write_host,
  commit_and_begin, delete_active, refresh_active, with_block, registered, insert_scan, upsert,
  unix, trim, newest, second_newest, was_success,
}

abbrev pub lookup_active : ℕ → List (ℕ × List (List ℕ)) → Option (List (List ℕ))
lookup_active pk [] = none
lookup_active pk (e ∷ es) = if e.0 == pk then some e.1 else lookup_active pk es

find-put :
    (host : HostDbEntry) (hs : List HostDbEntry) (k : ℕ)
    → find_host k (put_host host hs) ≡ (if k == host.public_key then some host else find_host k hs)
find-put host [] k = ground arith
find-put host (h ∷ hs) k = ground (arith, find-put host hs k)

lookup-delete :
    (pk k : ℕ) (es : List (ℕ × List (List ℕ)))
    → lookup_active k (delete_active pk es) ≡ (if k == pk then none else lookup_active k es)
lookup-delete pk k [] = ground arith
lookup-delete pk k (e ∷ es) = ground (arith, lookup-delete pk k es)

lookup-refresh :
    (host : HostDbEntry) (s : HostDbStore) (k : ℕ)
    → lookup_active k (refresh_active host s).active_hosts_cache ≡ (
        if k == host.public_key
        then (if is_active host.scan_history then some host.ip_nets else none)
        else lookup_active k s.active_hosts_cache)
lookup-refresh host s k = elim (Bool-cases (is_active host.scan_history)) [
  | inl y ↦ ground (arith, lookup-delete host.public_key k s.active_hosts_cache)
  | inr n ↦ ground (arith, lookup-delete host.public_key k s.active_hosts_cache)
]

-- The two newest scans, the older one first.
abbrev pub with_scan : List HostScan → HostScan → List HostScan
with_scan [] scan = scan ∷ []
with_scan (a ∷ []) scan = a ∷ scan ∷ []
with_scan (a ∷ b ∷ rest) scan = b ∷ (rest ++ (scan ∷ []))

-- Whether the scan before this one succeeded, if there was one.
abbrev pub succeeded_before : List HostScan → Bool
succeeded_before [] = true
succeeded_before (a ∷ []) = a.success
succeeded_before (a ∷ b ∷ rest) = succeeded_before (b ∷ rest)

-- The store after a scan of `host` was recorded: the entry, the row, and the active hosts.
pub record Recorded (is_blocked : List ℕ → Bool) (now : ℕ) (host : HostDbEntry) (scan : HostScan)
    (s t : HostDbStore) : Type 0 where
  pub entry : HostDbEntry
  pub history : entry.scan_history ≡ with_scan host.scan_history scan
  pub seen : entry.last_seen ≡ (if scan.success then some scan.timestamp else host.last_seen)
  pub blocked : entry.blocked ≡ (host.blocked || is_blocked host.net_address)
  pub kept :
      (entry.id ≡ host.id)
      × (entry.public_key ≡ host.public_key)
      × (entry.network ≡ host.network)
      × (entry.net_address ≡ host.net_address)
      × (entry.ip_nets ≡ host.ip_nets)
  pub stored :
      (k : ℕ)
      → find_host k t.hosts ≡ (if k == host.public_key then some entry else find_host k s.hosts)
  pub row :
      t.scan_rows
      ≡ s.scan_rows
        ++ (record {
          id = s.next_scan_id;
          public_key = host.public_key;
          scan = scan;
          modified = unix now;
          fetched = 0;
        }
            ∷ [])
  -- The rows cannot be lost any more.
  pub saved : t.saved.scan_rows ≡ t.scan_rows
  pub active :
      (k : ℕ)
      → lookup_active k t.active_hosts_cache ≡ (
          if k == host.public_key
          then (if scan.success && succeeded_before host.scan_history
              then some host.ip_nets
              else none)
          else lookup_active k s.active_hosts_cache)

trim_lem : (h : List HostScan) (scan : HostScan) → trim (h ++ (scan ∷ [])) ≡ with_scan h scan
trim_lem [] scan = refl
trim_lem (a ∷ []) scan = refl
trim_lem (a ∷ b ∷ rest) scan =
    let long : ltb 2 (suc (suc (length (rest ++ (scan ∷ []))))) ≡ true =
      ground (arith, length-append rest (scan ∷ [])) in
    rw long refl

newest-snoc : (h : List HostScan) (scan : HostScan) → newest (h ++ (scan ∷ [])) ≡ some scan
newest-snoc [] scan = refl
newest-snoc (a ∷ []) scan = refl
newest-snoc (a ∷ b ∷ rest) scan = newest-snoc (b ∷ rest) scan

second-snoc :
    (b : HostScan) (rest : List HostScan) (scan : HostScan)
    → was_success (second_newest (b ∷ (rest ++ (scan ∷ [])))) ≡ succeeded_before (b ∷ rest)
second-snoc b [] scan = refl
second-snoc b (c ∷ []) scan = refl
second-snoc b (c ∷ d ∷ rest) scan = second-snoc c (d ∷ rest) scan

is_active_lem :
    (h : List HostScan) (scan : HostScan)
    → is_active (trim (h ++ (scan ∷ []))) ≡ (scan.success && succeeded_before h)
unfolding is_active
is_active_lem [] scan = refl
is_active_lem (a ∷ []) scan = ground arith
is_active_lem (a ∷ b ∷ rest) scan =
    let one : (suc (length (rest ++ (scan ∷ []))) == 1) ≡ false =
      ground (arith, length-append rest (scan ∷ [])) in
    rw
      (
        trim_lem (a ∷ b ∷ rest) scan,
        is_active,
        newest-snoc (b ∷ rest) scan,
        second-snoc b rest scan,
        one,
      )
      (ground arith)

abbrev pub succeeds : Sql → Bool
succeeds sql = sql.insert && (sql.exec && (sql.commit && sql.begin))

-- What is to be proved of the outcome of `updateScanHistory`.
abbrev pub Outcome :
    Sql → (HostDbStore → Type 0) → Option (HostDbStore × Option StoreError) → Type 0
Outcome sql P r =
    (t : HostDbStore) × (e : Option StoreError) × (r ≡ some (t, e))
    × ((e ≡ none) ↔ (succeeds sql ≡ true))
    × ((e ≡ none) → P t)

-- The stores on the way: after the changes of the entry, after the two inserts.
module _ (is_blocked : List ℕ → Bool) (now : ℕ) (s : HostDbStore) (host : HostDbEntry)
    (scan : HostScan) where
  abbrev changed : HostDbStore
  changed = record s { hosts = put_host (record_scan host scan) s.hosts }

  abbrev inserted : HostDbStore
  inserted =
      registered is_blocked (insert_scan now (record_scan host scan) scan changed)
        (record_scan host scan)

  abbrev written : HostDbStore
  written = record inserted {
    host_rows = upsert (unix now) (with_block is_blocked (record_scan host scan)) s.host_rows;
  }

  abbrev lost : HostDbStore
  lost = record inserted {
    finished = true;
    host_rows = s.saved.host_rows;
    scan_rows = s.saved.scan_rows;
    benchmark_rows = s.saved.benchmark_rows;
  }

  abbrev committed : Bool → HostDbStore
  committed begin = record written {
    tx = begin;
    saved = record {
      host_rows = written.host_rows;
      scan_rows = written.scan_rows;
      benchmark_rows = written.benchmark_rows;
    };
  }

  abbrev done : HostDbStore
  done = refresh_active (record_scan host scan) (committed true)

  stored_lem :
      (k : ℕ)
      → find_host k inserted.hosts ≡ (
          if k == host.public_key
          then some (with_block is_blocked (record_scan host scan))
          else find_host k s.hosts)
  unfolding record_scan
  stored_lem k = ground (
    arith,
    find-put (with_block is_blocked (record_scan host scan)) changed.hosts k,
    find-put (record_scan host scan) s.hosts k,
  )

  written-Recorded : Recorded is_blocked now host scan s done
  unfolding record_scan
  written-Recorded = record {
    entry = with_block is_blocked (record_scan host scan);
    history = trim_lem host.scan_history scan;
    seen = refl;
    blocked = refl;
    kept = (refl, refl, refl, refl, refl);
    stored = stored_lem;
    row = refl;
    saved = refl;
    active = λ k.
        lookup-refresh (record_scan host scan) (committed true) k
        ∙ rw (is_active_lem host.scan_history scan) refl;
  }

  -- The outcome for each answer of the database.
  outcome :
      (insert exec commit begin : Bool)
      → str_eq host.network s.network ≡ true
      → s.tx ≡ true
      → s.finished ≡ false
      → let sql : Sql = record { insert = insert; exec = exec; commit = commit; begin = begin } in
        Outcome sql
          (Recorded is_blocked now host scan s)
          (update_scan_history is_blocked sql now s host scan)
  unfolding update_scan_history update write_host commit_and_begin record_scan
  outcome false e c b same tx live =
      (changed, some exec_failed, rw (same, tx, live) refl, (λ h. cc, λ h. cc), λ h. cc)
  outcome true false c b same tx live =
      (inserted, some exec_failed, rw (same, tx, live) refl, (λ h. cc, λ h. cc), λ h. cc)
  outcome true true false b same tx live =
      (lost, some commit_failed, rw (same, tx, live) refl, (λ h. cc, λ h. cc), λ h. cc)
  outcome true true true false same tx live =
      (committed false, some begin_failed, rw (same, tx, live) refl, (λ h. cc, λ h. cc), λ h. cc)
  outcome true true true true same tx live =
      (done, none, rw (same, tx, live) refl, (λ _. refl, λ _. refl), λ _. written-Recorded)

-- With a transaction that is not finished, `updateScanHistory` of a host of the store's network
-- returns, with no error exactly when the four database calls succeed. Then the entry is in `hosts`
-- with the scan at the end of its history, which is cut by its oldest scan when it had two or more; its
-- row is the last one of the scans, and is committed; and the host is in the cache of active hosts,
-- under its subnets, exactly when the scan succeeded, and the scan before it too if there was one; no
-- other host changes.
pub update_scan_history-Recorded :
    (is_blocked : List ℕ → Bool) (sql : Sql) (now : ℕ) (s : HostDbStore) (host : HostDbEntry)
    (scan : HostScan)
    → host.network ≡ s.network
    → s.tx ≡ true
    → s.finished ≡ false
    → Outcome sql
        (Recorded is_blocked now host scan s)
        (update_scan_history is_blocked sql now s host scan)
update_scan_history-Recorded is_blocked sql now s host scan net tx live =
    outcome is_blocked now s host scan sql.insert sql.exec sql.commit sql.begin
      (rw net (str_eq_refl s.network)) tx live
