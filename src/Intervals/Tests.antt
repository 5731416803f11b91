-- ===== src/Intervals/Tests.antt =====
-- A host that failed twice since its last success, and the theorems at its rows.
use hostscore.Prelude.{ℕ, ◌≡◌, ◌*◌, refl, Bool, true, false, List, [], ◌∷◌, some, arith}
use hostscore.Intervals.{Row, last_failed, scan_interval, calculate_scan_interval}
use hostscore.Intervals.Doubling.{half_hours, calculate_scan_interval-IsDoubled}
use hostscore.Intervals.Streak.{streak, IsOrdered, last_failed-streak}

abbrev row : ℕ → ℕ → Bool → Row
row pk t ok = record { public_key = pk; ran_at = t; success = ok }

abbrev rows : List Row
rows =
    row 1 10 false
    ∷ row 2 20 true
    ∷ row 1 30 true
    ∷ row 1 40 false
    ∷ row 2 41 false
    ∷ row 1 50 false
    ∷ []

rows-IsOrdered : IsOrdered 1 rows
rows-IsOrdered = ground arith

last_failed-streak_example : last_failed true 1 rows ≡ streak 1 0 rows
last_failed-streak_example = last_failed-streak 1 rows rows-IsOrdered

two_failures : last_failed true 1 rows ≡ 2
two_failures = last_failed-streak_example

calculate_scan_interval-IsDoubled_example :
    calculate_scan_interval (some 5) 2 (last_failed true 1 rows)
    ≡ scan_interval * half_hours (some 5) 2 (streak 1 0 rows)
calculate_scan_interval-IsDoubled_example =
    calculate_scan_interval-IsDoubled (some 5) 2 1 rows rows-IsOrdered

-- Six failures in a row, then sixteen.
six : calculate_scan_interval (some 5) 2 6 ≡ scan_interval * 4
unfolding calculate_scan_interval
six = refl

sixteen : half_hours (some 5) 2 16 ≡ 48
sixteen = refl
