-- ===== src/HostStore/Uptime.antt =====
-- hostdb/store.go: the history, uptime and downtime of a host over a series of scans.
use hostscore.Prelude.{
  ℕ, ◌≤◌, ◌≡◌, refl, ap, ◌∙◌, Bool, true, false, List, [], ◌∷◌, ◌++◌, some, arith, length,
  length-append, Bool-cases, inl, inr, if◌then◌else◌,
}
use hostscore.Prelude.Int.{ℤ, pos, ◌+ℤ◌, sub_ℕ, int_laws}
use hostscore.HostStore.{HostScan, HostDbEntry, record_scan, newest, trim, elapsed}

abbrev pub record_scans : HostDbEntry → List HostScan → HostDbEntry
record_scans host [] = host
record_scans host (x ∷ xs) = record_scans (record_scan host x) xs

-- The time of the last of some scans.
abbrev pub last_time : HostScan → List HostScan → ℕ
last_time x [] = x.timestamp
last_time x (y ∷ ys) = last_time y ys

newest-append : (xs : List HostScan) (x : HostScan) → newest (xs ++ x ∷ []) ≡ some x
newest-append [] x = refl
newest-append (y ∷ []) x = refl
newest-append (y ∷ z ∷ ys) x = newest-append (z ∷ ys) x

newest-trim : (xs : List HostScan) → newest (trim xs) ≡ newest xs
newest-trim [] = refl
newest-trim (x ∷ []) = refl
newest-trim (x ∷ y ∷ []) = refl
newest-trim (x ∷ y ∷ z ∷ xs) = ground arith

newest-record_scan :
    (host : HostDbEntry) (x : HostScan) → newest (record_scan host x).scan_history ≡ some x
unfolding record_scan
newest-record_scan host x =
    newest-trim (host.scan_history ++ (x ∷ [])) ∙ newest-append host.scan_history x

length-trim : (xs : List HostScan) → length xs ≤ 3 → length (trim xs) ≤ 2
length-trim [] h = omega arith
length-trim (x ∷ xs) h = ground arith

length-record_scan :
    (host : HostDbEntry) (x : HostScan)
    → length host.scan_history ≤ 2
    → length (record_scan host x).scan_history ≤ 2
unfolding record_scan
length-record_scan host x h =
    length-trim (host.scan_history ++ x ∷ [])
      (omega (arith, length-append host.scan_history (x ∷ [])))

abbrev pub observed : HostDbEntry → ℤ
observed host = host.uptime +ℤ host.downtime

elapsed_lem :
    (h : List HostScan) (x y : HostScan) (t : ℤ)
    → newest h ≡ some x
    → elapsed h y t ≡ t +ℤ sub_ℕ y.timestamp x.timestamp
elapsed_lem h x y t e = rw (e, elapsed) refl

split_sum :
    (b : Bool) (u d z : ℤ) → (if b then u +ℤ z else u) +ℤ (if b then d else d +ℤ z) ≡ u +ℤ d +ℤ z
split_sum true u d z = omega int_laws
split_sum false u d z = omega int_laws

observed-record_scan :
    (host : HostDbEntry) (x y : HostScan)
    → newest host.scan_history ≡ some x
    → observed (record_scan host y) ≡ observed host +ℤ sub_ℕ y.timestamp x.timestamp
unfolding record_scan
observed-record_scan host x y e =
    rw
      (
        elapsed_lem host.scan_history x y host.uptime e,
        elapsed_lem host.scan_history x y host.downtime e,
      )
      (split_sum y.success host.uptime host.downtime (sub_ℕ y.timestamp x.timestamp))

sub_trans : (a b c : ℕ) → sub_ℕ b a +ℤ sub_ℕ c b ≡ sub_ℕ c a
unfolding ◌+ℤ◌
sub_trans a b c = ground arith

+ℤ_assoc : (a b c : ℤ) → a +ℤ b +ℤ c ≡ a +ℤ (b +ℤ c)
+ℤ_assoc a b c = omega int_laws

+ℤ_zero : (a : ℤ) (n : ℕ) → a ≡ a +ℤ sub_ℕ n n
+ℤ_zero a n = let same : sub_ℕ n n ≡ pos 0 = ground arith in rw same (omega int_laws)

record_scans-observed :
    (host : HostDbEntry) (x : HostScan) (xs : List HostScan)
    → newest host.scan_history ≡ some x
    → observed (record_scans host xs) ≡ observed host +ℤ sub_ℕ (last_time x xs) x.timestamp
record_scans-observed host x [] e = +ℤ_zero (observed host) x.timestamp
record_scans-observed host x (y ∷ ys) e =
    record_scans-observed (record_scan host y) y ys (newest-record_scan host y)
    ∙ ap (λ z. z +ℤ sub_ℕ (last_time y ys) y.timestamp) (observed-record_scan host x y e)
    ∙ +ℤ_assoc (observed host) (sub_ℕ y.timestamp x.timestamp) _
    ∙ ap (◌+ℤ◌ (observed host)) (sub_trans x.timestamp y.timestamp (last_time y ys))

record_scans-history :
    (host : HostDbEntry) (x : HostScan) (xs : List HostScan)
    → length host.scan_history ≤ 2
    → newest host.scan_history ≡ some x
    → (length (record_scans host xs).scan_history ≤ 2)
      × (y : HostScan) × (newest (record_scans host xs).scan_history ≡ some y)
      × (y.timestamp ≡ last_time x xs)
record_scans-history host x [] h e = (h, x, e, refl)
record_scans-history host x (y ∷ ys) h e =
    record_scans-history (record_scan host y) y ys (length-record_scan host y h)
      (newest-record_scan host y)

first-observed :
    (host : HostDbEntry) (x : HostScan)
    → host.scan_history ≡ []
    → observed (record_scan host x) ≡ observed host
unfolding record_scan
first-observed host x e = elim (Bool-cases x.success) [
  | inl ok ↦ rw (ok, e) refl
  | inr bad ↦ rw (bad, e) refl
]

-- After the first scan of a host, whatever the outcomes of the scans and the order of their times:
-- the uptime and the downtime have together grown by the time from the first scan to the last, the
-- history holds two scans at most, and its newest is the last one.
pub record_scans-Elapsed :
    (host : HostDbEntry) (x : HostScan) (xs : List HostScan)
    → host.scan_history ≡ []
    → let after = record_scans host (x ∷ xs) in
      (observed after ≡ observed host +ℤ sub_ℕ (last_time x xs) x.timestamp)
      × (length after.scan_history ≤ 2)
      × (y : HostScan) × (newest after.scan_history ≡ some y)
      × (y.timestamp ≡ last_time x xs)
record_scans-Elapsed host x xs e =
    let short : length host.scan_history ≤ 2 = rw e (omega arith) in
    let (le, y, newest_y, at_y) =
      record_scans-history (record_scan host x) x xs (length-record_scan host x short)
        (newest-record_scan host x) in
    (
      record_scans-observed (record_scan host x) x xs (newest-record_scan host x)
          ∙ ap (λ z. z +ℤ sub_ℕ (last_time x xs) x.timestamp) (first-observed host x e),
      le,
      y,
      newest_y,
      at_y,
    )
