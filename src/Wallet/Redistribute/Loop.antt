-- ===== src/Wallet/Redistribute/Loop.antt =====
-- internal/walletutil/wallet.go: the loop of `Redistribute` over its transactions.
use mathlib.Core.Path.{subst}
use mathlib.Core.List.{append_assoc, append-nil}
use hostscore.Prelude.{
  ℕ, zero, suc, ◌+◌, ◌-◌, ◌≤◌, ◌<◌, ◌≡◌, refl, sym, ap, ◌∙◌, ◌⊎◌, inl, inr, List, [], ◌∷◌, ◌++◌,
  Bool, true, false, ◌||◌, not, Option, none, some, arith, ltb, lt→ltb, ◌==◌, ==_iff, if◌then◌else◌,
  All, Bool-cases,
}
use hostscore.Currency.{CurrencyOps, CurrencyLaws}
use hostscore.Wallet.{
  SiacoinElement, Wallet, Chain, lock, is_locked, contains, pool_spent, reservation_duration,
}
use hostscore.Wallet.Fund.{lock_all}
use hostscore.Wallet.Fund.Loops.{sum_by}
use hostscore.Wallet.Redistribute.{
  FeeState, Batch, is_unused, on_shortage, make_batches, redistribute_batch_size,
}
use hostscore.Wallet.Redistribute.Batches.{
  free, CannotPay, InRange, IsBalanced, Made, make_batch_lem,
}

-- How often an id stands in a list, and how often it is spent.
abbrev pub at : ℕ → SiacoinElement → ℕ
at k e = if e.id == k then 1 else 0

abbrev pub times_spent : ℕ → List Batch → ℕ
times_spent k [] = 0
times_spent k (b ∷ bs) = sum_by (at k) b.inputs + times_spent k bs

free-at :
    (unused : ℕ → Bool) (k : ℕ) (es : List SiacoinElement)
    → sum_by (at k) (free unused es) ≡ (if unused k then sum_by (at k) es else 0)
free-at unused k [] = ground arith
free-at unused k (e ∷ es) = elim (Bool-cases (e.id == k)) [
  | inl same ↦
      let here : unused e.id ≡ unused k = ap unused ((==_iff e.id k).0 same) in
      ground (arith, free-at unused k es, here, same)
  | inr other ↦ ground (arith, free-at unused k es, other)
]

still_once :
    (locked pooled : Bool) (spent total before after : ℕ)
    → before ≡ (if not (locked || pooled) then total else 0)
    → after ≡ (if not ((if ltb 0 spent then true else locked) || pooled) then total else 0)
    → spent ≤ before
    → spent + after ≤ before
still_once true pooled spent total before after b a h = ground arith
still_once false true spent total before after b a h = ground arith
still_once false false spent total before after b a h = ground arith

module _ (ok : ℕ → Bool) (now until k : ℕ) (later : now < until) where
  -- An id that is locked stays so.
  lock-is_locked :
      (w : Wallet) (e : SiacoinElement)
      → is_locked now (lock ok w e.id until) k ≡ (if e.id == k then true else is_locked now w k)
  unfolding lock
  lock-is_locked w e = elim (Bool-cases (e.id == k)) [
    | inl same ↦ rw (same, is_locked) (lt→ltb now until later)
    | inr other ↦ rw (other, is_locked) refl
  ]

  lock_all-is_locked :
      (w : Wallet) (es : List SiacoinElement)
      → is_locked now (lock_all ok w until es) k
        ≡ (if ltb 0 (sum_by (at k) es) then true else is_locked now w k)
  unfolding lock_all
  lock_all-is_locked w [] = refl
  lock_all-is_locked w (e ∷ es) =
      let ih = lock_all-is_locked (lock ok w e.id until) es in
      let first = lock-is_locked w e in ih ∙ rw first (ground arith)

  -- What is spent once cannot be spent again.
  spent_once :
      (w : Wallet) (pool : List ℕ) (spent utxos : List SiacoinElement)
      → sum_by (at k) spent ≤ sum_by (at k) (free (is_unused w now pool) utxos)
      → sum_by (at k) spent
          + sum_by (at k) (free (is_unused (lock_all ok w until spent) now pool) utxos)
        ≤ sum_by (at k) (free (is_unused w now pool) utxos)
  spent_once w pool spent utxos h =
      let before = free-at (is_unused w now pool) k utxos in
      let after = free-at (is_unused (lock_all ok w until spent) now pool) k utxos in
      let locked = lock_all-is_locked w spent in
      let after' : sum_by (at k) (free (is_unused (lock_all ok w until spent) now pool) utxos) ≡ (
          if not
            ((if ltb 0 (sum_by (at k) spent) then true else is_locked now w k) || contains k pool)
          then sum_by (at k) utxos
          else 0) =
        after ∙ rw locked refl in
      still_once (is_locked now w k) (contains k pool) (sum_by (at k) spent) (sum_by (at k) utxos) _
        _ before after' h

-- The wanted outputs of a series of transactions.
abbrev pub total_number :
    (c : Chain) (amount : ℕ) (bs : List Batch) → All (IsBalanced c amount) bs → ℕ
total_number c amount [] p = 0
total_number c amount (b ∷ bs) (p, ps) = p.number + total_number c amount bs ps

-- How many outputs a transaction gets when `k` are missing.
abbrev pub next : ℕ → ℕ
next k = if ltb k redistribute_batch_size then k else redistribute_batch_size

module _ {cur : CurrencyOps} (laws : CurrencyLaws cur) (ok : ℕ → Bool) (now : ℕ) (c : Chain)
    (f : FeeState) (amount : ℕ) (utxos : List SiacoinElement) where
  abbrev pub unused_in : Wallet → ℕ → Bool
  unused_in w = is_unused w now (pool_spent c.pool_transactions)

  -- The funds of a wallet do not suffice for the next transaction, when `k` outputs are missing.
  abbrev pub Short : Wallet → ℕ → Type 0
  Short w k = CannotPay c f amount (unused_in w) utxos (next k)

  -- The loop's result: transactions that pay and spend as they should, and that have all the wanted
  -- outputs unless the funds ran out.
  pub record Looped (w : Wallet) (done : List Batch) (outputs : ℕ)
      (r : Option (Option (Wallet × List Batch))) : Type 0 where
    pub wallet : Wallet
    pub more : List Batch
    pub result :
        (r ≡ some (some (wallet, done ++ more)))
        ⊎ ((r ≡ some none) × (done ≡ []) × (more ≡ []) × (wallet ≡ w))
    pub balanced : All (IsBalanced c amount) more
    pub once : (k : ℕ) → times_spent k more ≤ sum_by (at k) (free (unused_in w) utxos)
    pub complete :
        (total_number c amount more balanced ≡ outputs)
        ⊎ ((total_number c amount more balanced < outputs)
            × Short wallet (outputs - total_number c amount more balanced))

  unfoldable pub batches : ℕ → Wallet → List Batch → ℕ → Option (Option (Wallet × List Batch))
  batches = make_batches cur ok now c f amount utxos

  none_made : (w : Wallet) (k : ℕ) → Short w (suc k) → Short w (suc k - 0)
  none_made w k h = let same : suc k ≡ suc k - 0 = omega arith in subst (Short w) same h

  stop_short :
      (w : Wallet) (done : List Batch) (k : ℕ)
      → Short w (suc k)
      → Looped w done (suc k) (some (on_shortage w done))
  stop_short w [] k h = record {
    wallet = w;
    more = [];
    result = inr (refl, refl, refl, refl);
    balanced = tt;
    once = λ k. omega arith;
    complete = inr (omega arith, none_made w k h);
  }
  stop_short w (b ∷ bs) k h = record {
    wallet = w;
    more = [];
    result = inl (ap (λ x. some (some (w, b ∷ x))) (sym (append-nil bs)));
    balanced = tt;
    once = λ k. omega arith;
    complete = inr (omega arith, none_made w k h);
  }

  stop_done : (w : Wallet) (done : List Batch) → Looped w done 0 (some (some (w, done)))
  stop_done w done = record {
    wallet = w;
    more = [];
    result = inl (ap (λ x. some (some (w, x))) (sym (append-nil done)));
    balanced = tt;
    once = λ k. omega arith;
    complete = inl refl;
  }

  no_snoc : (bs : List Batch) (b : Batch) → bs ++ (b ∷ []) ≡ [] → ⊥
  no_snoc [] b h = cc
  no_snoc (x ∷ bs) b h = cc

  -- A transaction is made, and then others.
  go_on :
      (w : Wallet) (done : List Batch) (n rest : ℕ) (r : Option (Option (Wallet × List Batch)))
      (m : Made laws c f amount (unused_in w) utxos n)
      → Looped
          (lock_all ok w (now + reservation_duration) m.batch.inputs)
          (done ++ (m.batch ∷ []))
          rest
          r
      → Looped w done (n + rest) r
  go_on w done n rest r m l = record {
    wallet = l.wallet;
    more = m.batch ∷ l.more;
    result = elim l.result [
      | inl h ↦
          inl (h ∙ ap (λ x. some (some (l.wallet, x))) (append_assoc done (m.batch ∷ []) l.more))
      | inr (h, e, more, same) ↦ elim (no_snoc done m.batch e) [ ]
    ];
    balanced = (m.balanced, l.balanced);
    once = λ k. omega (
      arith,
      l.once k,
      spent_once ok now (now + reservation_duration) k (omega arith) w
          (pool_spent c.pool_transactions) m.batch.inputs utxos (m.once (at k)),
    );
    complete = elim l.complete [
      | inl e ↦ inl (omega (arith, e, m.wanted))
      | inr (lt, short) ↦
          let made = total_number c amount l.more l.balanced in
          let same : rest - made ≡ n + rest - (m.balanced.number + made) =
            omega (arith, m.wanted) in
          inr (omega (arith, lt, m.wanted), subst (Short l.wallet) same short)
    ];
  }

  pub loop :
      (fuel : ℕ) (w : Wallet) (done : List Batch) (outputs : ℕ)
      → outputs ≤ fuel
      → InRange f amount c.addr utxos
      → Looped w done outputs (batches fuel w done outputs)
  unfolding batches make_batches
  loop zero w done outputs le h =
      let none_left : outputs ≡ 0 = omega arith in rw none_left (stop_done w done)
  loop (suc fuel) w done zero le h = stop_done w done
  loop (suc fuel) w done (suc k) le h =
      let n = next (suc k) in
      let some_made : (1 ≤ n) × (n ≤ suc k) × (n ≤ redistribute_batch_size) = ground arith in
      elim (make_batch_lem laws c f amount (unused_in w) utxos n some_made.2 h) [
        | inl (short, cannot) ↦ rw (short, make_batches) (stop_short w done k cannot)
        | inr m ↦
            let all : n + (suc k - n) ≡ suc k = omega arith in
            let l =
              loop fuel (lock_all ok w (now + reservation_duration) m.batch.inputs)
                (done ++ (m.batch ∷ [])) (suc k - n) (omega arith) h in
            rw (m.result, make_batches)
              (subst
                (λ x. Looped w done x (
                  batches fuel (lock_all ok w (now + reservation_duration) m.batch.inputs)
                    (done ++ (m.batch ∷ [])) (suc k - n)))
                all (go_on w done n (suc k - n) _ m l))
      ]
