-- ===== src/Intervals/Doubling.antt =====
-- hostdb/scan.go: the waits of calculateScanInterval as a doubling with a cap.
use hostscore.Prelude.{
  ℕ, zero, suc, ◌*◌, ◌<◌, ◌≡◌, List, [], ◌∷◌, true, none, some, Option, arith, ltb, if◌then◌else◌,
}
use hostscore.Intervals.{Row, scan_interval, last_failed, calculate_scan_interval}
use hostscore.Intervals.Streak.{streak, IsOrdered, last_failed-streak}

-- 1, doubled for each threshold that is passed.
abbrev pub doubled : List ℕ → ℕ → ℕ
doubled [] n = 1
doubled (t ∷ ts) n = (if ltb t n then 2 else 1) * doubled ts n

abbrev pub at_most : ℕ → ℕ → ℕ
at_most cap n = if ltb cap n then cap else n

abbrev pub thresholds : List ℕ
thresholds = 3 ∷ 5 ∷ 7 ∷ 9 ∷ 11 ∷ 15 ∷ []

doubled_lem :
    (t history n : ℕ)
    → 0 < history
    → calculate_scan_interval (some t) history n ≡ scan_interval * at_most 48 (doubled thresholds n)
unfolding calculate_scan_interval
doubled_lem t history n h = ground arith

-- How many half hours a host waits, by its record and its failures in a row.
abbrev pub half_hours : Option ℕ → ℕ → ℕ → ℕ
half_hours none history n = 1
half_hours (some t) zero n = 1
half_hours (some t) (suc history) n = at_most 48 (doubled thresholds n)

interval_lem :
    (last_seen : Option ℕ) (history n : ℕ)
    → calculate_scan_interval last_seen history n ≡ scan_interval * half_hours last_seen history n
unfolding calculate_scan_interval
interval_lem none history n = omega arith
interval_lem (some t) zero n = omega arith
interval_lem (some t) (suc history) n = doubled_lem t (suc history) n (omega arith)

-- With a transaction, and the rows of a host in the order in which they were made, at distinct times: a
-- host that was never seen, or has no history, is scanned again after 30 minutes. Any other waits 30 minutes, doubled for each of 3, 5, 7, 9,
-- 11 and 15 that its failed scans since its last success exceed, and at most 24 hours: no failures put
-- its scans off for good.
pub calculate_scan_interval-IsDoubled :
    (last_seen : Option ℕ) (history pk : ℕ) (rows : List Row)
    → IsOrdered pk rows
    → calculate_scan_interval last_seen history (last_failed true pk rows)
      ≡ scan_interval * half_hours last_seen history (streak pk 0 rows)
calculate_scan_interval-IsDoubled last_seen history pk rows h =
    rw (last_failed-streak pk rows h) (interval_lem last_seen history (streak pk 0 rows))
