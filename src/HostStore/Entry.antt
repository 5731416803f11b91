-- ===== src/HostStore/Entry.antt =====
-- hostdb/hostdb.go and hostdb/store.go: the entries of hosts, the rows of the tables and the store.
use hostscore.Prelude.{ℕ, Bool, List, Option}
use hostscore.Prelude.Int.{ℤ}
use hostscore.Types.{HostSettings, HostPriceTable}

-- `none` is the zero value of the settings or the price table.
pub record HostScan : Type 0 where
  pub timestamp : ℕ
  pub success : Bool
  pub latency : ℕ
  pub error : List ℕ
  pub settings : Option HostSettings
  pub price_table : Option HostPriceTable

-- Speeds are whole bytes per second.
pub record HostBenchmark : Type 0 where
  pub timestamp : ℕ
  pub success : Bool
  pub error : List ℕ
  pub upload_speed : ℕ
  pub download_speed : ℕ
  pub ttfb : ℕ

-- `none` stands for a zero time or a benchmark that was not made.
pub record HostDbEntry : Type 0 where
  pub id : ℕ
  pub network : List ℕ
  pub public_key : ℕ
  pub first_seen : ℕ
  pub known_since : ℕ
  pub net_address : List ℕ
  pub blocked : Bool
  pub uptime : ℤ
  pub downtime : ℤ
  pub scan_history : List HostScan
  pub last_benchmark : Option HostBenchmark
  pub last_seen : Option ℕ
  pub ip_nets : List (List ℕ)
  pub active_hosts : ℕ
  pub last_ip_change : Option ℕ
  pub settings : Option HostSettings
  pub price_table : Option HostPriceTable

-- Rows of hdb_hosts, hdb_scans and hdb_benchmarks.
pub record HostRow : Type 0 where
  pub host : HostDbEntry
  pub modified : ℕ
  pub fetched : ℕ

pub record ScanRow : Type 0 where
  pub id : ℕ
  pub public_key : ℕ
  pub scan : HostScan
  pub modified : ℕ
  pub fetched : ℕ

pub record BenchmarkRow : Type 0 where
  pub id : ℕ
  pub public_key : ℕ
  pub benchmark : HostBenchmark
  pub modified : ℕ
  pub fetched : ℕ

-- A host of a batch is its entry, a scan or a benchmark its row.
pub record HostUpdates : Type 0 where
  pub id : ℕ
  pub hosts : List HostDbEntry
  pub scans : List ScanRow
  pub benchmarks : List BenchmarkRow

-- The rows that the database keeps when a transaction is lost.
pub record SavedRows : Type 0 where
  pub host_rows : List HostRow
  pub scan_rows : List ScanRow
  pub benchmark_rows : List BenchmarkRow

pub record HostDbStore : Type 0 where
  -- Whether `tx` is not nil, and whether it was ended by a commit that failed: then every call fails.
  pub tx : Bool
  pub finished : Bool
  pub saved : SavedRows
  pub network : List ℕ
  pub hosts : List HostDbEntry
  pub blocked_hosts : ℕ → Bool
  pub active_hosts_cache : List (ℕ × List (List ℕ))
  pub tip : ℕ × ℕ
  pub last_committed : ℕ
  pub last_update : HostUpdates
  pub host_rows : List HostRow
  pub scan_rows : List ScanRow
  pub benchmark_rows : List BenchmarkRow
  -- AUTO_INCREMENT of the two tables.
  pub next_scan_id : ℕ
  pub next_benchmark_id : ℕ

pub data StoreError : Type 0 where
  no_transaction query_failed exec_failed commit_failed begin_failed : StoreError

-- How the calls of database/sql end that an operation makes, if the transaction is not finished.
pub record Sql : Type 0 where
  pub insert : Bool
  pub exec : Bool
  pub commit : Bool
  pub begin : Bool
