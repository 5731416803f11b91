-- ===== src/Intervals/Bounds.antt =====
-- hostdb/scan.go and hostdb/benchmark.go: the range of the two intervals, and how they grow.
use hostscore.Prelude.{ℕ, ◌*◌, ◌≤◌, ◌<◌, ◌≡◌, ◌≢◌, ◌↔◌, Option, none, some, arith}
use hostscore.Intervals.{
  scan_interval, benchmark_interval, never, calculate_scan_interval, calculate_benchmark_interval,
}

-- A scan is never put off for good, whatever the host's record: the interval is between 30 minutes
-- and 24 hours. (The branch that returns `math.MaxInt64` is not reached.)
calculate_scan_interval_bounds :
    (last_seen : Option ℕ) (history num : ℕ)
    → (scan_interval ≤ calculate_scan_interval last_seen history num)
      × (calculate_scan_interval last_seen history num ≤ scan_interval * 48)
unfolding calculate_scan_interval
calculate_scan_interval_bounds last_seen history num = ground arith

-- More failures in a row never shorten the wait, for scans and for benchmarks.
intervals_mono :
    (seen bench : Option ℕ) (history n m scans scans' : ℕ)
    → n ≤ m
    → scans ≤ scans'
    → (calculate_scan_interval seen history n ≤ calculate_scan_interval seen history m)
      × (calculate_benchmark_interval bench n scans ≤ calculate_benchmark_interval bench m scans')
unfolding calculate_scan_interval calculate_benchmark_interval
intervals_mono seen bench history n m scans scans' h k = (ground arith, ground arith)

-- A benchmark is put off for good exactly when one was made, more than 13 benchmarks in a row have
-- failed and more than 18 scans in a row; otherwise the interval is between 2 hours and 7 days.
calculate_benchmark_interval-never :
    (bench : Option ℕ) (num scans : ℕ)
    → ((calculate_benchmark_interval bench num scans ≡ never)
        ↔ ((bench ≢ none) × (13 < num) × (18 < scans)))
      × ((calculate_benchmark_interval bench num scans ≢ never)
          → (benchmark_interval ≤ calculate_benchmark_interval bench num scans)
            × (calculate_benchmark_interval bench num scans ≤ benchmark_interval * 84))
unfolding calculate_benchmark_interval
calculate_benchmark_interval-never none num scans = ground arith
calculate_benchmark_interval-never (some b) num scans = ground arith
