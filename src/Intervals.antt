-- ===== src/Intervals.antt =====
-- How long the node waits before it scans or benchmarks a host again: calculateScanInterval
-- (hostdb/scan.go), calculateBenchmarkInterval (hostdb/benchmark.go) and the queries lastFailedScans
-- and lastFailedBenchmarks (hostdb/store.go). Durations are nanoseconds; a zero time is `none`.
pub mod Bounds
pub mod Doubling
pub mod Streak
mod Tests
use hostscore.Prelude.{
  ℕ, ◌+◌, ◌-◌, ◌*◌, ◌^◌, Bool, true, false, ◌&&◌, ◌||◌, not, List, [], ◌∷◌, Option, none, some, ltb,
  ◌==◌, if◌then◌else◌,
}

-- 30 minutes, and 2 hours.
abbrev pub scan_interval : ℕ
scan_interval = 1_800_000_000_000

abbrev pub benchmark_interval : ℕ
benchmark_interval = 7_200_000_000_000

-- `math.MaxInt64`.
abbrev pub never : ℕ
never = 2 ^ 63 - 1

abbrev pub is_zero_time : Option ℕ → Bool
is_zero_time none = true
is_zero_time (some t) = false

-- A row of the scans or the benchmarks table, with the columns that the queries read.
pub record Row : Type 0 where
  pub public_key : ℕ
  pub ran_at : ℕ
  pub success : Bool

-- `SELECT ran_at … success = TRUE ORDER BY ran_at DESC LIMIT 1`.
latest_success : ℕ → List Row → Option ℕ
latest_success pk [] = none
latest_success pk (r ∷ rs) =
    let rest = latest_success pk rs in
    if r.public_key == pk && r.success
    then elim rest [ none ↦ some r.ran_at | some t ↦ some (if ltb t r.ran_at then r.ran_at else t) ]
    else rest

-- `SELECT COUNT(*) … success = TRUE`.
count_success : ℕ → List Row → ℕ
count_success pk [] = 0
count_success pk (r ∷ rs) = (if r.public_key == pk && r.success then 1 else 0) + count_success pk rs

-- `a.ran_at > (…)`: a comparison with NULL is not true.
abbrev pub is_later : ℕ → Option ℕ → Bool
is_later t none = false
is_later t (some u) = ltb u t

-- The rows `a` that the outer query counts.
count_failed : ℕ → Option ℕ → ℕ → List Row → ℕ
count_failed pk latest successes [] = 0
count_failed pk latest successes (a ∷ rs) =
    (if a.public_key == pk && (not a.success && (is_later a.ran_at latest || successes == 0))
      then 1
      else 0)
    + count_failed pk latest successes rs

-- The body of both queries; with no transaction the count is 0.
unfoldable pub last_failed : Bool → ℕ → List Row → ℕ
unfolding latest_success count_success count_failed
last_failed has_tx pk rows =
    if has_tx then count_failed pk (latest_success pk rows) (count_success pk rows) rows else 0

-- `history` is `len(host.ScanHistory)`, `num` is `s.lastFailedScans(host)`.
unfoldable pub calculate_scan_interval : Option ℕ → ℕ → ℕ → ℕ
calculate_scan_interval last_seen history num =
    if is_zero_time last_seen || history == 0
    then scan_interval
    else if ltb 18 num && is_zero_time last_seen
    then never
    else if ltb 15 num
    then scan_interval * 48
    else if ltb 11 num
    then scan_interval * 32
    else if ltb 9 num
    then scan_interval * 16
    else if ltb 7 num
    then scan_interval * 8
    else if ltb 5 num
    then scan_interval * 4
    else if ltb 3 num
    then scan_interval * 2
    else scan_interval

-- `num` is `s.lastFailedBenchmarks(host)`, `scans` is `s.lastFailedScans(host)`.
unfoldable pub calculate_benchmark_interval : Option ℕ → ℕ → ℕ → ℕ
calculate_benchmark_interval last_benchmark num scans =
    if is_zero_time last_benchmark
    then benchmark_interval
    else if ltb 13 num && ltb 18 scans
    then never
    else if ltb 11 num
    then benchmark_interval * 84
    else if ltb 9 num
    then benchmark_interval * 36
    else if ltb 7 num
    then benchmark_interval * 12
    else if ltb 5 num
    then benchmark_interval * 4
    else if ltb 3 num
    then benchmark_interval * 2
    else benchmark_interval

-- The decision of `getHostsForScan` for one host: whether it calls `queueScan`. `last_scan` is the
-- newest scan of the history with its success.
unfoldable pub is_due : Bool → ℕ → Option (ℕ × Bool) → Option ℕ → ℕ → ℕ → Bool
is_due blocked now last_scan last_benchmark scan_wait benchmark_wait =
    if blocked then false else elim last_scan [
      | none ↦ true
      | some (t, ok) ↦
          (if not (ltb (now - t) scan_wait) then true else elim last_benchmark [
            | none ↦ ok
            | some b ↦ not (ltb (now - b) benchmark_wait) && ok
          ])
    ]
