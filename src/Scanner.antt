-- ===== src/Scanner.antt =====
-- hostdb/scan.go and the ends of scanHost and benchmarkHost (hostdb/benchmark.go): which hosts wait
-- for a scan or a benchmark, and which are being worked on. A host is its public key.
pub mod Exclusion
pub mod Launch
pub mod Threads
mod Tests
use hostscore.Prelude.{
  ℕ, zero, suc, ◌-◌, ◌≡◌, ◌≢◌, ◌⊎◌, inl, inr, List-cases, Bool-cases, List, [], ◌∷◌, ◌++◌, Bool,
  true, false, ◌&&◌, Option, none, some, ltb, ◌==◌, if◌then◌else◌, length,
}
use hostscore.Prelude.Int.{ℤ, pos, negsuc, ◌+ℤ◌, ◌-ℤ◌, ltb_ℤ}

abbrev pub scan_batch_size : ℕ
scan_batch_size = 20

abbrev pub max_scan_threads : ℕ
max_scan_threads = 1000

abbrev pub max_benchmark_threads : ℕ
max_benchmark_threads = 20

-- The fields of `HostDB` that `mu` protects, and the goroutines that the loop has started.
pub record Scanner : Type 0 where
  pub scan_list : List ℕ
  pub benchmark_list : List ℕ
  pub scan_map : ℕ → Option Bool
  pub scan_threads : ℤ
  pub benchmark_threads : ℤ
  -- The hosts that each scanning goroutine still has to scan, the current one first.
  pub scanning : List (List ℕ)
  -- The host of each benchmarking goroutine.
  pub benchmarking : List ℕ

unfoldable pub idle : Scanner
idle = record {
  scan_list = [];
  benchmark_list = [];
  scan_map = λ _. none;
  scan_threads = pos 0;
  benchmark_threads = pos 0;
  scanning = [];
  benchmarking = [];
}

abbrev pub update : (ℕ → Option Bool) → ℕ → Option Bool → ℕ → Option Bool
update m k v j = if k == j then v else m j

-- The test of `queueScan`: `last` is the time of the newest scan, if there is one.
abbrev pub to_benchmark : Option ℕ → ℕ → ℕ → Bool
to_benchmark none now interval = false
to_benchmark (some last) now interval = ltb (now - last) interval

enqueue : Scanner → ℕ → Bool → Scanner
enqueue s host true = record s {
  scan_map = update s.scan_map host (some true);
  benchmark_list = s.benchmark_list ++ (host ∷ []);
}
enqueue s host false = record s {
  scan_map = update s.scan_map host (some false);
  scan_list = s.scan_list ++ (host ∷ []);
}

-- The store gives every entry one of the two networks, so the panic on another one has no model.
unfoldable pub queue_scan : Scanner → ℕ → Option ℕ → ℕ → ℕ → Scanner
unfolding enqueue
queue_scan s host last now interval = elim (s.scan_map host) [
  | some _ ↦ s
  | none ↦ enqueue s host (to_benchmark last now interval)
]

-- `list[:batchSize]` and `list[batchSize:]`, the size cut to the length.
abbrev pub take : ℕ → List ℕ → List ℕ
take zero xs = []
take (suc n) [] = []
take (suc n) (x ∷ xs) = x ∷ take n xs

abbrev pub drop : ℕ → List ℕ → List ℕ
drop zero xs = xs
drop (suc n) [] = []
drop (suc n) (x ∷ xs) = drop n xs

-- One round of the loop over `scanList` that starts a goroutine.
start_scan : Scanner → Scanner
start_scan s = record s {
  scan_threads = s.scan_threads +ℤ pos 1;
  scan_list = drop scan_batch_size s.scan_list;
  scanning = s.scanning ++ (take scan_batch_size s.scan_list ∷ []);
}

-- `for len(hdb.scanList) > 0`, on fuel.
unfoldable pub launch_scans : ℕ → Scanner → Scanner
unfolding start_scan
launch_scans zero s = s
launch_scans (suc fuel) s = elim s.scan_list [
  | [] ↦ s
  | _ ∷ _ ↦ elim (ltb_ℤ s.scan_threads (pos max_scan_threads)) [
    | true ↦ launch_scans fuel (start_scan s)
    | false ↦ s
  ]
]

-- What holds of `s`, and of the rest of the loop after a goroutine was started, holds of the loop.
launch_scans_step {ℓ} :
    (P : Scanner → Type ℓ) (fuel : ℕ) (s : Scanner)
    → ((s.scan_list ≡ []) ⊎ (ltb_ℤ s.scan_threads (pos max_scan_threads) ≡ false) → P s)
    → (ltb_ℤ s.scan_threads (pos max_scan_threads) ≡ true
        → s.scan_list ≢ []
        → P (launch_scans fuel (start_scan s)))
    → P (launch_scans (suc fuel) s)
unfolding launch_scans
launch_scans_step P fuel s stay go = elim (List-cases s.scan_list) [
  | inl e ↦ rw (e, launch_scans) (stay (inl e))
  | inr (a, r, e) ↦ elim (Bool-cases (ltb_ℤ s.scan_threads (pos max_scan_threads))) [
    | inl free ↦ rw (e, free, launch_scans) (go free (λ z. cc))
    | inr busy ↦ rw (e, busy, launch_scans) (stay (inr busy))
  ]
]

-- One round of the loop over `benchmarkList` that starts a goroutine.
start_benchmark : Scanner → ℕ → List ℕ → Scanner
start_benchmark s host rest = record s {
  benchmark_threads = s.benchmark_threads +ℤ pos 1;
  benchmark_list = rest;
  benchmarking = s.benchmarking ++ (host ∷ []);
}

unfoldable pub launch_benchmarks : ℕ → Scanner → Scanner
unfolding start_benchmark
launch_benchmarks zero s = s
launch_benchmarks (suc fuel) s = elim s.benchmark_list [
  | [] ↦ s
  | host ∷ rest ↦ elim (ltb_ℤ s.benchmark_threads (pos max_benchmark_threads)) [
    | true ↦ launch_benchmarks fuel (start_benchmark s host rest)
    | false ↦ s
  ]
]

launch_benchmarks_step {ℓ} :
    (P : Scanner → Type ℓ) (fuel : ℕ) (s : Scanner)
    → P s
    → ((host : ℕ) (rest : List ℕ)
        → s.benchmark_list ≡ host ∷ rest
        → P (launch_benchmarks fuel (start_benchmark s host rest)))
    → P (launch_benchmarks (suc fuel) s)
unfolding launch_benchmarks
launch_benchmarks_step P fuel s stay go = elim (List-cases s.benchmark_list) [
  | inl e ↦ rw (e, launch_benchmarks) stay
  | inr (a, r, e) ↦ elim (Bool-cases (ltb_ℤ s.benchmark_threads (pos max_benchmark_threads))) [
    | inl free ↦ rw (e, free, launch_benchmarks) (go a r e)
    | inr busy ↦ rw (e, busy, launch_benchmarks) stay
  ]
]

-- The end of `scanHost`, run by the goroutine between `before` and `after`.
unfoldable pub finish_scan : Scanner → List (List ℕ) → ℕ → List ℕ → List (List ℕ) → Scanner
finish_scan s before host rest after = record s {
  scan_map = update s.scan_map host none;
  scan_threads = s.scan_threads -ℤ pos 1;
  scanning = before ++ rest ∷ after;
}

-- The end of `benchmarkHost`.
unfoldable pub finish_benchmark : Scanner → List ℕ → ℕ → List ℕ → Scanner
finish_benchmark s before host after = record s {
  scan_map = update s.scan_map host none;
  benchmark_threads = s.benchmark_threads -ℤ pos 1;
  benchmarking = before ++ after;
}

-- What may happen next: a host is queued, the loop of `scanHosts` starts its goroutines, or a
-- goroutine is done with a host. While the program shuts down a goroutine returns early from a host
-- ("canceled"), and leaves `scanMap` and the counters alone.
pub data Step (s t : Scanner) : Type 0 where
  queue :
      (host now interval : ℕ) (last : Option ℕ) → t ≡ queue_scan s host last now interval → Step s t
  scans : (fuel : ℕ) → t ≡ launch_scans fuel s → Step s t
  benchmarks : (fuel : ℕ) → t ≡ launch_benchmarks fuel s → Step s t
  scanned :
      (before : List (List ℕ)) (host : ℕ) (rest : List ℕ) (after : List (List ℕ))
      → s.scanning ≡ before ++ (host ∷ rest) ∷ after
      → t ≡ finish_scan s before host rest after
      → Step s t
  benchmarked :
      (before : List ℕ) (host : ℕ) (after : List ℕ)
      → s.benchmarking ≡ before ++ host ∷ after
      → t ≡ finish_benchmark s before host after
      → Step s t
  scan_canceled :
      (before : List (List ℕ)) (host : ℕ) (rest : List ℕ) (after : List (List ℕ))
      → s.scanning ≡ before ++ (host ∷ rest) ∷ after
      → t ≡ record s { scanning = before ++ rest ∷ after }
      → Step s t
  benchmark_canceled :
      (before : List ℕ) (host : ℕ) (after : List ℕ)
      → s.benchmarking ≡ before ++ host ∷ after
      → t ≡ record s { benchmarking = before ++ after }
      → Step s t

pub data Reach (s : Scanner) : Scanner → Type 0 where
  here : Reach s s
  next : {t u : Scanner} → Reach s t → Step t u → Reach s u
