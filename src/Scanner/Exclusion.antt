-- ===== src/Scanner/Exclusion.antt =====
-- hostdb/scan.go: no host is queued twice or worked on by two goroutines, over every interleaving.
use hostscore.Prelude.{
  ℕ, zero, suc, ◌+◌, ◌≤◌, ◌≡◌, ap, List, [], ◌∷◌, ◌++◌, Bool, true, false, Option, none, some, inl,
  inr, arith, ◌==◌, if◌then◌else◌, Option-cases,
}
use hostscore.Scanner.{
  Scanner, Step, queue, scans, benchmarks, scanned, benchmarked, scan_canceled, benchmark_canceled,
  Reach, here, next, idle, queue_scan, enqueue, to_benchmark, launch_scans, start_scan,
  launch_benchmarks, start_benchmark, launch_scans_step, launch_benchmarks_step, finish_scan,
  finish_benchmark, take, drop, scan_batch_size,
}

abbrev pub count : ℕ → List ℕ → ℕ
count k [] = 0
count k (x ∷ xs) = (if x == k then 1 else 0) + count k xs

abbrev pub count_all : ℕ → List (List ℕ) → ℕ
count_all k [] = 0
count_all k (b ∷ bs) = count k b + count_all k bs

-- In how many places a host waits or is worked on.
abbrev pub places : ℕ → Scanner → ℕ
places k s =
    count k s.scan_list + count k s.benchmark_list + count_all k s.scanning + count k s.benchmarking

abbrev pub present : Option Bool → ℕ
present none = 0
present (some _) = 1

-- A host is in one place at most, and in none unless `scanMap` has it.
abbrev pub Inv : Scanner → Type 0
Inv s = (k : ℕ) → places k s ≤ present (s.scan_map k)

count-append : (k : ℕ) (xs ys : List ℕ) → count k (xs ++ ys) ≡ count k xs + count k ys
count-append k [] ys = omega arith
count-append k (x ∷ xs) ys = omega (arith, count-append k xs ys)

count_all-append :
    (k : ℕ) (xs ys : List (List ℕ)) → count_all k (xs ++ ys) ≡ count_all k xs + count_all k ys
count_all-append k [] ys = omega arith
count_all-append k (x ∷ xs) ys = omega (arith, count_all-append k xs ys)

count-take-drop : (k n : ℕ) (xs : List ℕ) → count k (take n xs) + count k (drop n xs) ≡ count k xs
count-take-drop k zero xs = omega arith
count-take-drop k (suc n) [] = omega arith
count-take-drop k (suc n) (x ∷ xs) = omega (arith, count-take-drop k n xs)

enqueue-Inv :
    (s : Scanner) (host : ℕ) (b : Bool) → s.scan_map host ≡ none → Inv s → Inv (enqueue s host b)
unfolding enqueue
enqueue-Inv s host true e v k =
    ground (arith, v k, v host, count-append k s.benchmark_list (host ∷ []))
enqueue-Inv s host false e v k = ground (arith, v k, v host, count-append k s.scan_list (host ∷ []))

queue_scan-Inv :
    (s : Scanner) (host now interval : ℕ) (last : Option ℕ)
    → Inv s
    → Inv (queue_scan s host last now interval)
unfolding queue_scan
queue_scan-Inv s host now interval last v = elim (Option-cases (s.scan_map host)) [
  | inl e ↦ rw (e, queue_scan) (enqueue-Inv s host (to_benchmark last now interval) e v)
  | inr (b, e) ↦ rw (e, queue_scan) v
]

start_scan-Inv : (s : Scanner) → Inv s → Inv (start_scan s)
unfolding start_scan
start_scan-Inv s v k = omega (
  arith,
  v k,
  count-take-drop k scan_batch_size s.scan_list,
  count_all-append k s.scanning (take scan_batch_size s.scan_list ∷ []),
)

launch_scans-Inv : (fuel : ℕ) (s : Scanner) → Inv s → Inv (launch_scans fuel s)
unfolding launch_scans
launch_scans-Inv zero s v = v
launch_scans-Inv (suc fuel) s v =
    launch_scans_step Inv fuel s (λ _. v)
      (λ _ _. launch_scans-Inv fuel (start_scan s) (start_scan-Inv s v))

start_benchmark-Inv :
    (s : Scanner) (host : ℕ) (rest : List ℕ)
    → s.benchmark_list ≡ host ∷ rest
    → Inv s
    → Inv (start_benchmark s host rest)
unfolding start_benchmark
start_benchmark-Inv s host rest e v k =
    omega (arith, v k, ap (count k) e, count-append k s.benchmarking (host ∷ []))

launch_benchmarks-Inv : (fuel : ℕ) (s : Scanner) → Inv s → Inv (launch_benchmarks fuel s)
unfolding launch_benchmarks
launch_benchmarks-Inv zero s v = v
launch_benchmarks-Inv (suc fuel) s v = launch_benchmarks_step Inv fuel s v λ host rest e.
    launch_benchmarks-Inv fuel (start_benchmark s host rest) (start_benchmark-Inv s host rest e v)

scanned-Inv :
    (s : Scanner) (before : List (List ℕ)) (host : ℕ) (rest : List ℕ) (after : List (List ℕ))
    → s.scanning ≡ before ++ (host ∷ rest) ∷ after
    → Inv s
    → Inv (finish_scan s before host rest after)
unfolding finish_scan
scanned-Inv s before host rest after e v k = ground (
  arith,
  v k,
  ap (count_all k) e,
  count_all-append k before ((host ∷ rest) ∷ after),
  count_all-append k before (rest ∷ after),
)

benchmarked-Inv :
    (s : Scanner) (before : List ℕ) (host : ℕ) (after : List ℕ)
    → s.benchmarking ≡ before ++ host ∷ after
    → Inv s
    → Inv (finish_benchmark s before host after)
unfolding finish_benchmark
benchmarked-Inv s before host after e v k =
    ground (
      arith,
      v k,
      ap (count k) e,
      count-append k before (host ∷ after),
      count-append k before after,
    )

Step-Inv : {s t : Scanner} → Step s t → Inv s → Inv t
Step-Inv {s} (queue host now interval last e) v = rw e (queue_scan-Inv s host now interval last v)
Step-Inv {s} (scans fuel e) v = rw e (launch_scans-Inv fuel s v)
Step-Inv {s} (benchmarks fuel e) v = rw e (launch_benchmarks-Inv fuel s v)
Step-Inv {s} (scanned before host rest after e f) v =
    rw f (scanned-Inv s before host rest after e v)
Step-Inv {s} (benchmarked before host after e f) v = rw f (benchmarked-Inv s before host after e v)
Step-Inv {s} (scan_canceled before host rest after e f) v = rw f (λ k. omega (
  arith,
  v k,
  ap (count_all k) e,
  count_all-append k before ((host ∷ rest) ∷ after),
  count_all-append k before (rest ∷ after),
))
Step-Inv {s} (benchmark_canceled before host after e f) v = rw f (λ k.
    omega (
      arith,
      v k,
      ap (count k) e,
      count-append k before (host ∷ after),
      count-append k before after,
    ))

idle-Inv : Inv idle
unfolding idle
idle-Inv k = omega arith

-- From the start of the program, through any interleaving of queueing, starting, finishing and
-- shutting down: every host is in one place at most, among the two lists, the batches of the scanning
-- goroutines and the benchmarking goroutines, and in none if `scanMap` does not have it.
pub places-present : {s : Scanner} → Reach idle s → (k : ℕ) → places k s ≤ present (s.scan_map k)
places-present here = idle-Inv
places-present (next r st) = Step-Inv st (places-present r)
