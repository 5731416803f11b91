-- ===== src/Scanner/Launch.antt =====
-- hostdb/scan.go: what one pass of the loop over `scanList` starts.
use mathlib.Core.List.{append-nil, append_assoc}
use hostscore.Prelude.{
  ℕ, zero, suc, ◌≤◌, ◌<◌, ◌≡◌, refl, sym, ap, ◌∙◌, ◌≢◌, ◌⊎◌, List, [], ◌∷◌, ◌++◌, false, arith,
  length, All, inl,
}
use hostscore.Prelude.Int.{ℤ, pos, ◌+ℤ◌, ltb_ℤ, int_laws}
use hostscore.Scanner.{
  Scanner, launch_scans, launch_scans_step, start_scan, take, drop, scan_batch_size,
  max_scan_threads,
}

abbrev pub concat : List (List ℕ) → List ℕ
concat [] = []
concat (b ∷ bs) = b ++ concat bs

-- One to twenty hosts.
abbrev pub IsBatch : List ℕ → Type 0
IsBatch b = (0 < length b) × (length b ≤ scan_batch_size)

-- `t` is `s` after goroutines were started for batches off the front of `scanList`.
pub record Launched (s t : Scanner) : Type 0 where
  pub started : List (List ℕ)
  pub batches : All IsBatch started
  pub scanning : t.scanning ≡ s.scanning ++ started
  pub order : s.scan_list ≡ concat started ++ t.scan_list
  pub threads : t.scan_threads ≡ s.scan_threads +ℤ pos (length started)
  pub stops : (t.scan_list ≡ []) ⊎ (ltb_ℤ t.scan_threads (pos max_scan_threads) ≡ false)

take-append-drop : (n : ℕ) (xs : List ℕ) → take n xs ++ drop n xs ≡ xs
take-append-drop zero xs = refl
take-append-drop (suc n) [] = refl
take-append-drop (suc n) (x ∷ xs) = ap (◌∷◌ x) (take-append-drop n xs)

length-take-le : (n : ℕ) (xs : List ℕ) → length (take n xs) ≤ n
length-take-le zero xs = omega arith
length-take-le (suc n) [] = omega arith
length-take-le (suc n) (x ∷ xs) = omega (arith, length-take-le n xs)

length-drop-le : (n : ℕ) (xs : List ℕ) → length (drop n xs) ≤ length xs
length-drop-le zero xs = omega arith
length-drop-le (suc n) [] = omega arith
length-drop-le (suc n) (x ∷ xs) = omega (arith, length-drop-le n xs)

take-IsBatch : (xs : List ℕ) → xs ≢ [] → IsBatch (take scan_batch_size xs)
take-IsBatch [] h = absurd (h refl)
take-IsBatch (x ∷ xs) h = (omega arith, omega (arith, length-take-le 19 xs))

length-drop-lt : (xs : List ℕ) → xs ≢ [] → length (drop scan_batch_size xs) < length xs
length-drop-lt [] h = absurd (h refl)
length-drop-lt (x ∷ xs) h = omega (arith, length-drop-le 19 xs)

+ℤ_pos : (z : ℤ) (n : ℕ) → z +ℤ pos 1 +ℤ pos n ≡ z +ℤ pos (suc n)
+ℤ_pos z n = omega int_laws

length-le-zero : (xs : List ℕ) → length xs ≤ 0 → xs ≡ []
length-le-zero [] h = refl
length-le-zero (x ∷ xs) h = absurd (omega arith)

stay-Launched :
    (s : Scanner)
    → (s.scan_list ≡ []) ⊎ (ltb_ℤ s.scan_threads (pos max_scan_threads) ≡ false)
    → Launched s s
stay-Launched s h = record {
  started = [];
  batches = tt;
  scanning = sym (append-nil s.scanning);
  order = refl;
  threads = omega int_laws;
  stops = h;
}

start-Launched : (s t : Scanner) → s.scan_list ≢ [] → Launched (start_scan s) t → Launched s t
unfolding start_scan
start-Launched s t h l = record {
  started = take scan_batch_size s.scan_list ∷ l.started;
  batches = (take-IsBatch s.scan_list h, l.batches);
  scanning = l.scanning ∙ append_assoc s.scanning (take scan_batch_size s.scan_list ∷ []) l.started;
  order =
      sym (take-append-drop scan_batch_size s.scan_list)
      ∙ ap (◌++◌ (take scan_batch_size s.scan_list)) l.order
      ∙ sym (append_assoc (take scan_batch_size s.scan_list) (concat l.started) t.scan_list);
  threads = l.threads ∙ +ℤ_pos s.scan_threads (length l.started);
  stops = l.stops;
}

-- With fuel for every host of the list, the loop over `scanList` starts goroutines for consecutive
-- batches of 1 to 20 hosts off the front of the list, adds 1 to `scanThreads` for each, loses no
-- host, and stops only when the list is empty or `scanThreads` is 1000 or more.
pub launch_scans-Launched :
    (fuel : ℕ) (s : Scanner) → length s.scan_list ≤ fuel → Launched s (launch_scans fuel s)
unfolding launch_scans
launch_scans-Launched zero s h = stay-Launched s (inl (length-le-zero s.scan_list h))
launch_scans-Launched (suc fuel) s h =
    launch_scans_step (Launched s) fuel s (stay-Launched s) λ _ some_left.
      start-Launched s _ some_left (launch_scans-Launched fuel (start_scan s) (fits some_left))
  where
    fits : s.scan_list ≢ [] → length (drop scan_batch_size s.scan_list) ≤ fuel
    fits some_left = omega (arith, length-drop-lt s.scan_list some_left)
