-- ===== src/Scanner/Threads.antt =====
-- hostdb/scan.go: `scanThreads` rises by 1 for a batch and falls by 1 for each host of it, so it does
-- not count the goroutines that run.
use hostscore.Prelude.{
  ℕ, zero, suc, ◌+◌, ◌≤◌, ◌<◌, ◌≡◌, refl, List, [], ◌∷◌, ◌++◌, Bool, false, Option, none, some,
  arith, length, length-append, All, All-append, ◌==◌,
}
use hostscore.Prelude.Int.{pos, ◌+ℤ◌, ◌-ℤ◌}
use hostscore.Scanner.{
  Scanner, queue, scans, scanned, Reach, here, next, idle, update, queue_scan, launch_scans,
  finish_scan,
}

-- Goroutines that each still have a host to scan, with nothing queued and `scanThreads` at 0.
abbrev busy : (ℕ → Option Bool) → List (List ℕ) → Scanner
busy m batches = record {
  scan_list = [];
  benchmark_list = [];
  scan_map = m;
  scan_threads = pos 0;
  benchmark_threads = pos 0;
  scanning = batches;
  benchmarking = [];
}

-- The map after hosts `a` and `b` were queued and `a` was scanned.
abbrev round_map : (ℕ → Option Bool) → ℕ → ℕ → ℕ → Option Bool
round_map m a b = update (update (update m a (some false)) b (some false)) a none

-- Two hosts are queued, a goroutine takes both and finishes the first.
busy_round :
    (m : ℕ → Option Bool) (batches : List (List ℕ)) (a b : ℕ) {s : Scanner}
    → m a ≡ none
    → m b ≡ none
    → (a == b) ≡ false
    → Reach s (busy m batches)
    → Reach s (busy (round_map m a b) (batches ++ (b ∷ []) ∷ []))
unfolding queue_scan launch_scans finish_scan ◌+ℤ◌ ◌-ℤ◌
busy_round m batches a b {s} ha hb ne r =
    let m₁ = update m a (some false) in
    let m₂ = update m₁ b (some false) in
    let s₁ : Scanner = record (busy m batches) { scan_map = m₁; scan_list = a ∷ [] } in
    let s₂ : Scanner = record (busy m batches) { scan_map = m₂; scan_list = a ∷ b ∷ [] } in
    let s₃ : Scanner = record (busy m₂ (batches ++ (a ∷ b ∷ []) ∷ [])) { scan_threads = pos 1 } in
    let r₁ : Reach s s₁ = next r (queue a 0 0 none (rw (ha, queue_scan) refl)) in
    let r₂ : Reach s s₂ = next r₁ (queue b 0 0 none (rw (ne, hb, queue_scan) refl)) in
    let r₃ : Reach s s₃ = next r₂ (scans 1 refl) in
    next r₃ (scanned batches a (b ∷ []) [] refl refl)

abbrev IsFresh : ℕ → (ℕ → Option Bool) → Type 0
IsFresh n m = (k : ℕ) → n + n ≤ k → m k ≡ none

busy_rounds :
    (n : ℕ)
    → (m : ℕ → Option Bool) × (batches : List (List ℕ)) × Reach idle (busy m batches)
      × IsFresh n m
      × (length batches ≡ n)
      × All (λ b. 0 < length b) batches
unfolding idle
busy_rounds zero = ((λ _. none), [], here, (λ k h. refl), refl, tt)
busy_rounds (suc n) =
    let (m, bs, r, fresh, len, full) = busy_rounds n in
    let a = n + n in
    let b = suc (n + n) in
    (
      round_map m a b,
      bs ++ (b ∷ []) ∷ [],
      busy_round m bs a b (fresh a (omega arith)) (fresh b (omega arith)) (ground arith) r,
      (λ k h. ground (arith, fresh k)),
      omega (arith, len, length-append bs ((b ∷ []) ∷ [])),
      All-append (λ x. 0 < length x) bs ((b ∷ []) ∷ []) full (omega arith, tt),
    )

-- The limit of 1000 scanning threads bounds nothing: for every n the program reaches a state in which
-- n goroutines are in the middle of a batch and `scanThreads` is 0.
pub scan_threads_drift :
    (n : ℕ)
    → (s : Scanner) × Reach idle s
      × (length s.scanning ≡ n)
      × All (λ b. 0 < length b) s.scanning
      × (s.scan_threads ≡ pos 0)
scan_threads_drift n =
    let (m, bs, r, _, len, full) = busy_rounds n in (busy m bs, r, len, full, refl)
