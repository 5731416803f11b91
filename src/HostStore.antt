-- ===== src/HostStore.antt =====
-- hostdb/store.go: the hosts of one network, in memory and in the tables of the database. A string is
-- the list of its bytes, a time a number of nanoseconds, a public key a number. The Go code passes
-- pointers into `hosts`: a host is written back to `hosts` when its fields change. Not modelled of an
-- entry: the interactions, the revision and the location, which these operations carry along. The
-- tables are as the open transaction sees them, and `saved` as they were last committed; a row holds
-- the values before they are rounded or encoded, except `modified` and `fetched`, which are Unix
-- seconds, and the rows stand in the order of their ids.
mod Entry
pub mod History
pub mod Uptime
pub mod Chain
pub mod Updates
mod Tests
use hostscore.Prelude.{
  ℕ, ◌+◌, ◌/◌, ◌≡◌, refl, Bool, true, false, ◌&&◌, ◌||◌, not, List, [], ◌∷◌, ◌++◌, Option, none,
  some, ltb, ◌==◌, length, if◌then◌else◌, str_eq, mem_str,
}
use hostscore.Prelude.Int.{ℤ, ◌+ℤ◌, sub_ℕ}
pub use Entry.*

-- The store that an operation leaves and its error; `none` is the panic "networks don't match".
abbrev pub Result : Type 0
Result = Option (HostDbStore × Option StoreError)

abbrev pub find_host : ℕ → List HostDbEntry → Option HostDbEntry
find_host pk [] = none
find_host pk (h ∷ hs) = let rest = find_host pk hs in if h.public_key == pk then some h else rest

-- `hosts[host.PublicKey] = host`.
abbrev pub put_host : HostDbEntry → List HostDbEntry → List HostDbEntry
put_host host [] = host ∷ []
put_host host (h ∷ hs) =
    let rest = put_host host hs in if h.public_key == host.public_key then host ∷ hs else h ∷ rest

-- INSERT … ON DUPLICATE KEY UPDATE: the keys are the id and the public key, and `fetched` stays.
abbrev pub upsert : ℕ → HostDbEntry → List HostRow → List HostRow
upsert now host [] = record { host = host; modified = now; fetched = 0 } ∷ []
upsert now host (r ∷ rs) =
    let rest = upsert now host rs in
    if r.host.id == host.id || r.host.public_key == host.public_key
    then record {
      host = record host { id = r.host.id; public_key = r.host.public_key };
      modified = now;
      fetched = r.fetched;
    }
      ∷ rs
    else r ∷ rest

-- `tx.Commit()`, then `db.Begin()`. A commit that fails ends the transaction, and its rows are lost; one
-- that succeeds saves them.
unfoldable pub commit_and_begin : Sql → HostDbStore → HostDbStore × Option StoreError
commit_and_begin sql s =
    if sql.commit && not s.finished
    then (
      record s {
        tx = sql.begin;
        saved = record {
          host_rows = s.host_rows;
          scan_rows = s.scan_rows;
          benchmark_rows = s.benchmark_rows;
        };
      },
      (if sql.begin then none else some begin_failed),
    )
    else (
      record s {
        finished = true;
        host_rows = s.saved.host_rows;
        scan_rows = s.saved.scan_rows;
        benchmark_rows = s.saved.benchmark_rows;
      },
      some commit_failed,
    )

-- `t.Unix()`.
abbrev pub unix : ℕ → ℕ
unix t = t / 1_000_000_000

-- What `update` does to the entry, given `isBlocked`.
abbrev pub with_block : (List ℕ → Bool) → HostDbEntry → HostDbEntry
with_block is_blocked host = record host { blocked = host.blocked || is_blocked host.net_address }

write_host : Sql → ℕ → HostDbStore → HostDbEntry → HostDbStore × Option StoreError
unfolding commit_and_begin
write_host sql now s host =
    if sql.exec && not s.finished
    then commit_and_begin sql (record s { host_rows = upsert (unix now) host s.host_rows })
    else (s, some exec_failed)

-- `hosts` and `blockedHosts` with the entry.
abbrev pub registered : (List ℕ → Bool) → HostDbStore → HostDbEntry → HostDbStore
registered is_blocked s host = record s {
  blocked_hosts = λ pk.
      if pk == host.public_key
      then host.blocked || is_blocked host.net_address
      else s.blocked_hosts pk;
  hosts = put_host (with_block is_blocked host) s.hosts;
}

unfoldable pub update : (List ℕ → Bool) → Sql → ℕ → HostDbStore → HostDbEntry → Result
unfolding write_host
update is_blocked sql now s host =
    if not (str_eq host.network s.network)
    then none
    else if not s.tx
    then some (s, some no_transaction)
    else some (write_host sql now (registered is_blocked s host) (with_block is_blocked host))

pub past_check : {A : Type 0} (b : Bool) (x y : A) → b ≡ true → (if not b then x else y) ≡ y
past_check true x y h = refl
past_check false x y h = cc

-- Past the two guards of an operation.
pub past_guards :
    {A : Type 0} (b t : Bool) (x y z : A)
    → b ≡ true
    → t ≡ true
    → (if not b then x else if not t then y else z) ≡ z
past_guards true true x y z h k = refl
past_guards true false x y z h k = cc
past_guards false t x y z h k = cc

-- The last element, and the last but one.
abbrev pub newest : List HostScan → Option HostScan
newest [] = none
newest (x ∷ []) = some x
newest (x ∷ y ∷ xs) = newest (y ∷ xs)

abbrev pub second_newest : List HostScan → Option HostScan
second_newest [] = none
second_newest (x ∷ []) = none
second_newest (x ∷ y ∷ []) = some x
second_newest (x ∷ y ∷ z ∷ xs) = second_newest (y ∷ z ∷ xs)

abbrev pub was_success : Option HostScan → Bool
was_success none = false
was_success (some scan) = scan.success

-- The condition on the active hosts.
unfoldable pub is_active : List HostScan → Bool
is_active history =
    was_success (newest history) && (was_success (second_newest history) || length history == 1)

-- `scan.Timestamp.Sub(…)` of the newest scan, if there is one.
abbrev pub elapsed : List HostScan → HostScan → ℤ → ℤ
elapsed history scan total = elim (newest history) [
  | none ↦ total
  | some last ↦ total +ℤ sub_ℕ scan.timestamp last.timestamp
]

-- `if len(history) > 2 { history = history[1:] }`.
abbrev pub trim : List HostScan → List HostScan
trim [] = []
trim (x ∷ xs) = if ltb 2 (length (x ∷ xs)) then xs else x ∷ xs

abbrev pub or_else {ℓ} : {A : Type ℓ} → Option A → Option A → Option A
or_else (some a) b = some a
or_else none b = b

-- The changes of `updateScanHistory` to the entry.
unfoldable pub record_scan : HostDbEntry → HostScan → HostDbEntry
record_scan host scan = record host {
  last_seen = if scan.success then some scan.timestamp else host.last_seen;
  uptime = if scan.success then elapsed host.scan_history scan host.uptime else host.uptime;
  downtime = if scan.success then host.downtime else elapsed host.scan_history scan host.downtime;
  scan_history = trim (host.scan_history ++ (scan ∷ []));
  settings = or_else scan.settings host.settings;
  price_table = or_else scan.price_table host.price_table;
}

abbrev pub delete_active : ℕ → List (ℕ × List (List ℕ)) → List (ℕ × List (List ℕ))
delete_active pk [] = []
delete_active pk (e ∷ es) = let rest = delete_active pk es in if e.0 == pk then rest else e ∷ rest

-- The last step of `updateScanHistory`.
abbrev pub refresh_active : HostDbEntry → HostDbStore → HostDbStore
refresh_active host s = record s {
  active_hosts_cache =
      if is_active host.scan_history
      then (host.public_key, host.ip_nets) ∷ delete_active host.public_key s.active_hosts_cache
      else delete_active host.public_key s.active_hosts_cache;
}

-- `if err != nil { return AddContext(err, …) }`, and on with `f`.
abbrev pub on_success : Result → (HostDbStore → HostDbStore) → Result
on_success none f = none
on_success (some (s, some e)) f = some (s, some e)
on_success (some (s, none)) f = some (f s, none)

abbrev pub insert_scan : ℕ → HostDbEntry → HostScan → HostDbStore → HostDbStore
insert_scan now host scan s = record s {
  scan_rows =
      s.scan_rows
      ++ (record {
        id = s.next_scan_id;
        public_key = host.public_key;
        scan = scan;
        modified = unix now;
        fetched = 0;
      }
          ∷ []);
  next_scan_id = s.next_scan_id + 1;
}

unfoldable pub update_scan_history :
    (List ℕ → Bool) → Sql → ℕ → HostDbStore → HostDbEntry → HostScan → Result
unfolding record_scan update is_active
update_scan_history is_blocked sql now s host scan =
    if not (str_eq host.network s.network)
    then none
    else if not s.tx
    then some (s, some no_transaction)
    else (let host' = record_scan host scan in
        let s₁ : HostDbStore = record s { hosts = put_host host' s.hosts } in
        if sql.insert && not s.finished
        then on_success (update is_blocked sql now (insert_scan now host' scan s₁) host')
            (refresh_active host')
        else some (s₁, some exec_failed))

abbrev insert_benchmark : ℕ → HostDbEntry → HostBenchmark → HostDbStore → HostDbStore
insert_benchmark now host benchmark s = record s {
  benchmark_rows =
      s.benchmark_rows
      ++ (record {
        id = s.next_benchmark_id;
        public_key = host.public_key;
        benchmark = benchmark;
        modified = unix now;
        fetched = 0;
      }
          ∷ []);
  next_benchmark_id = s.next_benchmark_id + 1;
}

unfoldable pub update_benchmarks :
    (List ℕ → Bool) → Sql → ℕ → HostDbStore → HostDbEntry → HostBenchmark → Result
unfolding update
update_benchmarks is_blocked sql now s host benchmark =
    if not (str_eq host.network s.network)
    then none
    else if not s.tx
    then some (s, some no_transaction)
    else (let host' : HostDbEntry = record host { last_benchmark = some benchmark } in
        let s₁ : HostDbStore = record s { hosts = put_host host' s.hosts } in
        if sql.insert && not s.finished
        then update is_blocked sql now (insert_benchmark now host' benchmark s₁) host'
        else some (s₁, some exec_failed))

abbrev shares_subnet : List (List ℕ) → List (List ℕ) → Bool
shares_subnet nets [] = false
shares_subnet nets (ip ∷ ips) = mem_str ip nets || shares_subnet nets ips

unfoldable pub active_hosts_in_subnet : List (List ℕ) → List (ℕ × List (List ℕ)) → ℕ
active_hosts_in_subnet nets [] = 0
active_hosts_in_subnet nets (e ∷ es) =
    (if shares_subnet nets e.1 then 1 else 0) + active_hosts_in_subnet nets es
