-- ===== src/Scanner/Tests.antt =====
-- Three hosts are queued and scanned, and the theorems at the states that follow.
use hostscore.Prelude.{◌≤◌, ◌<◌, ◌≡◌, refl, none, arith, length, All}
use hostscore.Prelude.Int.{pos}
use hostscore.Scanner.{Scanner, idle, queue_scan, launch_scans, Reach, here, next, queue, scans}
use hostscore.Scanner.Exclusion.{places, present, places-present}
use hostscore.Scanner.Launch.{Launched, launch_scans-Launched}
use hostscore.Scanner.Threads.{scan_threads_drift}

-- Hosts 4 and 5 wait.
queued : Scanner
queued = queue_scan (queue_scan idle 4 none 100 10) 5 none 100 10

busy : Scanner
busy = launch_scans 2 queued

Reach-busy : Reach idle busy
unfolding busy queued
Reach-busy =
    next (next (next here (queue 4 100 10 none refl)) (queue 5 100 10 none refl)) (scans 2 refl)

places-present_example : places 4 busy ≤ present (busy.scan_map 4)
places-present_example = places-present Reach-busy 4

launch_scans-Launched_example : Launched queued (launch_scans 2 queued)
unfolding queued queue_scan idle
launch_scans-Launched_example = launch_scans-Launched 2 queued (omega arith)

scan_threads_drift_example :
    (s : Scanner) × Reach idle s
    × (length s.scanning ≡ 3)
    × All (λ b. 0 < length b) s.scanning
    × (s.scan_threads ≡ pos 0)
scan_threads_drift_example = scan_threads_drift 3
