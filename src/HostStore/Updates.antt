-- ===== src/HostStore/Updates.antt =====
-- hostdb/store.go: getRecentUpdates, finalizeUpdates and pruneOldRecords, which hand the records to the
-- client and drop the old ones.
pub mod Endings
pub mod Delivery
use hostscore.Prelude.{
  ℕ, zero, suc, ◌+◌, ◌-◌, Bool, true, false, ◌&&◌, ◌||◌, not, List, [], ◌∷◌, ◌++◌, Option, none,
  some, ltb, leb, ◌==◌, if◌then◌else◌,
}
use hostscore.HostStore.{
  HostDbEntry, HostDbStore, HostRow, ScanRow, BenchmarkRow, HostUpdates, Sql, StoreError,
  no_transaction, query_failed, exec_failed, find_host, active_hosts_in_subnet, commit_and_begin,
  unix,
}

-- LIMIT 1000.
abbrev pub batch_limit : ℕ
batch_limit = 1000

abbrev pub take {ℓ} : {A : Type ℓ} → ℕ → List A → List A
take zero xs = []
take (suc n) [] = []
take (suc n) (x ∷ xs) = x ∷ take n xs

-- `modified > fetched`.
abbrev pub pending_hosts : List HostRow → List HostRow
pending_hosts [] = []
pending_hosts (r ∷ rs) =
    let rest = pending_hosts rs in if ltb r.fetched r.modified then r ∷ rest else rest

-- The JOIN: whether a row of the hosts table has the key and `h.modified <= h.fetched`.
abbrev pub host_fetched : ℕ → List HostRow → Bool
host_fetched pk [] = false
host_fetched pk (r ∷ rs) = r.host.public_key == pk && leb r.modified r.fetched || host_fetched pk rs

abbrev pub pending_scans : List HostRow → List ScanRow → List ScanRow
pending_scans hosts [] = []
pending_scans hosts (r ∷ rs) =
    let rest = pending_scans hosts rs in
    if ltb r.fetched r.modified && host_fetched r.public_key hosts then r ∷ rest else rest

abbrev pub pending_benchmarks : List HostRow → List BenchmarkRow → List BenchmarkRow
pending_benchmarks hosts [] = []
pending_benchmarks hosts (r ∷ rs) =
    let rest = pending_benchmarks hosts rs in
    if ltb r.fetched r.modified && host_fetched r.public_key hosts then r ∷ rest else rest

-- How a query ends, and the reading (Scan, and the decoding) of each of its rows, by id. `rows.Next` is
-- taken to end only after the last row.
pub record Reading : Type 0 where
  pub query : Bool
  pub row : ℕ → Bool

pub record Readings : Type 0 where
  pub hosts : Reading
  pub scans : Reading
  pub benchmarks : Reading

pub data Loaded : Type 0 where
  nil_pointer unreadable : Loaded
  entries : List HostDbEntry → Loaded

abbrev pub add_entry : HostDbEntry → Loaded → Loaded
add_entry h nil_pointer = nil_pointer
add_entry h unreadable = unreadable
add_entry h (entries hs) = entries (h ∷ hs)

-- The entries of the rows, with the number of active hosts; a row without an entry is a nil pointer.
unfoldable pub entries_of : (ℕ → Bool) → HostDbStore → List HostRow → Loaded
entries_of readable s [] = entries []
entries_of readable s (r ∷ rs) =
    let rest = entries_of readable s rs in
    if not (readable r.host.id) then unreadable else elim (find_host r.host.public_key s.hosts) [
      | none ↦ nil_pointer
      | some h ↦
          add_entry
            (record h { active_hosts = active_hosts_in_subnet h.ip_nets s.active_hosts_cache }) rest
    ]

abbrev pub all_scans : (ℕ → Bool) → List ScanRow → Bool
all_scans readable [] = true
all_scans readable (r ∷ rs) = readable r.id && all_scans readable rs

abbrev pub all_benchmarks : (ℕ → Bool) → List BenchmarkRow → Bool
all_benchmarks readable [] = true
all_benchmarks readable (r ∷ rs) = readable r.id && all_benchmarks readable rs

pub data Updates : Type 0 where
  panicked : Updates
  failed : StoreError → Updates
  -- The store and the batch.
  fetched : HostDbStore → HostUpdates → Updates

-- What the three queries select.
abbrev pub batch_of : HostDbStore → ℕ → List HostDbEntry → HostUpdates
batch_of s id hosts = record {
  id = id;
  hosts = hosts;
  scans = take batch_limit (pending_scans s.host_rows s.scan_rows);
  benchmarks = take batch_limit (pending_benchmarks s.host_rows s.benchmark_rows);
}

-- The queries of the scans and of the benchmarks, and the batch.
abbrev pub with_entries : Readings → HostDbStore → ℕ → Loaded → Updates
with_entries rd s id nil_pointer = panicked
with_entries rd s id unreadable = failed query_failed
with_entries rd s id (entries hosts) =
    let batch = batch_of s id hosts in
    if not (rd.scans.query && all_scans rd.scans.row batch.scans)
    then failed query_failed
    else if not (rd.benchmarks.query && all_benchmarks rd.benchmarks.row batch.benchmarks)
    then failed query_failed
    else fetched (record s { last_update = batch }) batch

-- An error leaves `last_update` as it was. The count in the batch is also left in the entries of
-- `hosts`, where nothing reads it before it is set again.
unfoldable pub get_recent_updates : Readings → HostDbStore → ℕ → Updates
unfolding entries_of
get_recent_updates rd s id =
    if not s.tx
    then failed no_transaction
    else if not (rd.hosts.query && not s.finished)
    then failed query_failed
    else with_entries rd s id
        (entries_of rd.hosts.row s (take batch_limit (pending_hosts s.host_rows)))

-- `UPDATE … SET fetched = ? WHERE id = ?`.
abbrev pub mark_host : ℕ → ℕ → List HostRow → List HostRow
mark_host now id [] = []
mark_host now id (r ∷ rs) =
    (if r.host.id == id then record r { fetched = now } else r) ∷ mark_host now id rs

abbrev pub mark_scan : ℕ → ℕ → List ScanRow → List ScanRow
mark_scan now id [] = []
mark_scan now id (r ∷ rs) =
    (if r.id == id then record r { fetched = now } else r) ∷ mark_scan now id rs

abbrev pub mark_benchmark : ℕ → ℕ → List BenchmarkRow → List BenchmarkRow
mark_benchmark now id [] = []
mark_benchmark now id (r ∷ rs) =
    (if r.id == id then record r { fetched = now } else r) ∷ mark_benchmark now id rs

-- How Prepare and the Exec of each row end, by id, and the clock that is read for it.
pub record Marking : Type 0 where
  pub prepare : Bool
  pub exec : ℕ → Bool
  pub clock : ℕ → ℕ

pub record Markings : Type 0 where
  pub hosts : Marking
  pub scans : Marking
  pub benchmarks : Marking

-- The loops, up to the first Exec that fails, and whether none did. The batches of a store hold hosts,
-- scans and benchmarks of its network alone, so the tests of the networks have no model.
unfoldable pub mark_hosts : Marking → List HostDbEntry → List HostRow → List HostRow × Bool
mark_hosts k [] rows = (rows, true)
mark_hosts k (h ∷ hs) rows =
    let rest = mark_hosts k hs (mark_host (unix (k.clock h.id)) h.id rows) in
    if k.exec h.id then rest else (rows, false)

unfoldable pub mark_scans : Marking → List ScanRow → List ScanRow → List ScanRow × Bool
mark_scans k [] rows = (rows, true)
mark_scans k (r ∷ rs) rows =
    let rest = mark_scans k rs (mark_scan (unix (k.clock r.id)) r.id rows) in
    if k.exec r.id then rest else (rows, false)

unfoldable pub mark_benchmarks :
    Marking → List BenchmarkRow → List BenchmarkRow → List BenchmarkRow × Bool
mark_benchmarks k [] rows = (rows, true)
mark_benchmarks k (r ∷ rs) rows =
    let rest = mark_benchmarks k rs (mark_benchmark (unix (k.clock r.id)) r.id rows) in
    if k.exec r.id then rest else (rows, false)

abbrev pub no_updates : HostUpdates
no_updates = record { id = 0; hosts = []; scans = []; benchmarks = [] }

-- From the statement for benchmarks to the end.
unfoldable pub finalize_benchmarks : Marking → Sql → HostDbStore → HostDbStore × Option StoreError
unfolding mark_benchmarks commit_and_begin
finalize_benchmarks k sql s =
    let marked = mark_benchmarks k s.last_update.benchmarks s.benchmark_rows in
    if not (k.prepare && not s.finished)
    then (s, some exec_failed)
    else if not marked.1
    then (record s { benchmark_rows = marked.0 }, some exec_failed)
    else commit_and_begin sql (record s { benchmark_rows = marked.0; last_update = no_updates })

-- From the statement for scans to the end.
unfoldable pub finalize_scans :
    Marking → Marking → Sql → HostDbStore → HostDbStore × Option StoreError
unfolding mark_scans finalize_benchmarks
finalize_scans k kb sql s =
    let marked = mark_scans k s.last_update.scans s.scan_rows in
    if not (k.prepare && not s.finished)
    then (s, some exec_failed)
    else if not marked.1
    then (record s { scan_rows = marked.0 }, some exec_failed)
    else finalize_benchmarks kb sql (record s { scan_rows = marked.0 })

unfoldable pub finalize_updates : Markings → Sql → HostDbStore → ℕ → HostDbStore × Option StoreError
unfolding mark_hosts finalize_scans
finalize_updates k sql s id =
    let marked = mark_hosts k.hosts s.last_update.hosts s.host_rows in
    if not (id == s.last_update.id)
    then (s, none)
    else if not s.tx
    then (s, some no_transaction)
    else if not (k.hosts.prepare && not s.finished)
    then (s, some exec_failed)
    else if not marked.1
    then (record s { host_rows = marked.0 }, some exec_failed)
    else finalize_scans k.scans k.benchmarks sql (record s { host_rows = marked.0 })

-- 7 days for scans and 28 days for benchmarks.
abbrev pub scan_lifetime : ℕ
scan_lifetime = 604_800_000_000_000

abbrev pub benchmark_lifetime : ℕ
benchmark_lifetime = 2_419_200_000_000_000

abbrev pub recent_scans : ℕ → List ScanRow → List ScanRow
recent_scans limit [] = []
recent_scans limit (r ∷ rs) =
    let rest = recent_scans limit rs in if ltb (unix r.scan.timestamp) limit then rest else r ∷ rest

abbrev pub recent_benchmarks : ℕ → List BenchmarkRow → List BenchmarkRow
recent_benchmarks limit [] = []
recent_benchmarks limit (r ∷ rs) =
    let rest = recent_benchmarks limit rs in
    if ltb (unix r.benchmark.timestamp) limit then rest else r ∷ rest

-- `exec` answers the first statement, `insert` the second.
unfoldable pub prune_old_records : Sql → ℕ → HostDbStore → HostDbStore × Option StoreError
unfolding commit_and_begin
prune_old_records sql now s =
    if not s.tx
    then (s, some no_transaction)
    else if not (sql.exec && not s.finished)
    then (s, some exec_failed)
    else (let t : HostDbStore = record s {
      scan_rows = recent_scans (unix (now - scan_lifetime)) s.scan_rows;
    } in
        if not sql.insert
        then (t, some exec_failed)
        else commit_and_begin sql (record t {
          benchmark_rows = recent_benchmarks (unix (now - benchmark_lifetime)) s.benchmark_rows;
        }))
