-- ===== src/Wallet/Fund/Choice.antt =====
-- internal/walletutil/wallet.go: what `Fund` chooses to spend.
use mathlib.Core.List.{reverse, append-nil}
use mathlib.Core.Option.{get_or}
use hostscore.Prelude.{
  ℕ, ◌+◌, ◌-◌, ◌≤◌, ◌<◌, ◌≡◌, refl, ap, ◌⊎◌, inl, inr, List, [], ◌++◌, false, ◌&&◌, Option, none,
  some, arith, ltb, if◌then◌else◌, length, length-append, Bool-cases, ltb→lt, ltb→le,
}
use hostscore.Currency.{CurrencyOps, CurrencyLaws, max_currency, cmp_lt-ltb}
use hostscore.Wallet.{SiacoinElement, defrag_threshold, max_inputs_for_defrag}
use hostscore.Wallet.Select.{collect_unconfirmed, defraggable}
use hostscore.Wallet.Fund.{Request, choose, with_unconfirmed, with_defrag}
use hostscore.Wallet.Fund.Loops.{
  sum_by, value_of, sum_by-append, sum_by-reverse, sum_by-drop, usable_of, not_skipped,
  usable_of-le, not_skipped-le, collect_lem, collect_unconfirmed_lem, Selected, select_utxos_lem,
  select_unconfirmed_lem, defrag_loop_lem,
}

-- The sort permutes: whatever is summed over a list, the sum is the same after it.
abbrev pub Permutes : (List SiacoinElement → List SiacoinElement) → Type 0
Permutes sort =
    (f : SiacoinElement → ℕ) (xs : List SiacoinElement) → sum_by f (sort xs) ≡ sum_by f xs

-- The outputs that `Fund` may spend, and the sum of `f` over them.
abbrev pub spendable : Request → List SiacoinElement
spendable q =
    usable_of q.class q.elements ++ (if q.use_unconfirmed then not_skipped q.skip q.pool else [])

-- A choice covers the amount, knows its sum, and takes each spendable output at most once: no sum
-- over it is larger than over all that is spendable.
pub record Chosen (q : Request) (chosen : List SiacoinElement × ℕ) : Type 0 where
  pub covered : q.amount ≤ chosen.1
  pub sum : chosen.1 ≡ sum_by value_of chosen.0
  pub once : (f : SiacoinElement → ℕ) → sum_by f chosen.0 ≤ sum_by f (spendable q)

module _ {cur : CurrencyOps} (laws : CurrencyLaws cur) (q : Request) where
  -- After the second loop: `first` and `left` are what the first one took and left of `utxos`.
  record Widened (utxos unconfirmed first left : List SiacoinElement) (sum : ℕ) : Type 0 where
    added : List SiacoinElement
    total : ℕ
    result : with_unconfirmed cur q unconfirmed first sum ≡ some (first ++ added, total)
    exact : total ≡ sum_by value_of (first ++ added)
    once :
        (f : SiacoinElement → ℕ)
        → sum_by f added ≤ (if q.use_unconfirmed then sum_by f unconfirmed else 0)
    short :
        total < q.amount
        → total ≡ sum + (if q.use_unconfirmed then sum_by value_of unconfirmed else 0)

  widen :
      (utxos unconfirmed first left : List SiacoinElement) (sum : ℕ)
      → sum ≡ sum_by value_of first
      → sum + sum_by value_of unconfirmed < max_currency
      → Widened utxos unconfirmed first left sum
  unfolding with_unconfirmed
  widen utxos unconfirmed first left sum e h =
      elim (Bool-cases (ltb sum q.amount && q.use_unconfirmed)) [
        | inr stay ↦ record {
          added = [];
          total = sum;
          result = rw (cmp_lt-ltb laws sum q.amount, stay, append-nil) refl;
          exact = omega (arith, e, sum_by-append value_of first []);
          once = λ f. omega arith;
          short = λ lt. ground (arith, stay);
        }
        | inl go ↦
            let s = select_unconfirmed_lem laws q.amount sum unconfirmed h in
            record {
              added = s.selected;
              total = s.total;
              result = rw (cmp_lt-ltb laws sum q.amount, go, s.result) refl;
              exact = omega (arith, e, s.taken.sum, sum_by-append value_of first s.selected);
              once = λ f.
                  ground
                    (arith, go, ap (sum_by f) s.taken.split, sum_by-append f s.selected s.left);
              short = λ lt. ground (
                arith,
                go,
                s.ended,
                s.taken.sum,
                ap (sum_by value_of) s.taken.split,
                sum_by-append value_of s.selected s.left,
              );
            }
      ]

  -- After the defrag loop over what is left of the confirmed outputs.
  record Padded (utxos selected : List SiacoinElement) (sum : ℕ) : Type 0 where
    extra : List SiacoinElement
    total : ℕ
    result : with_defrag cur q utxos selected sum ≡ some (selected ++ extra, total)
    exact : total ≡ sum_by value_of (selected ++ extra)
    once : (f : SiacoinElement → ℕ) → sum_by f extra ≤ sum_by f utxos
    none_extra : length utxos ≤ length selected → extra ≡ []

  pad :
      (utxos selected : List SiacoinElement) (sum : ℕ)
      → sum ≡ sum_by value_of selected
      → (length selected < length utxos → sum + sum_by value_of utxos < max_currency)
      → Padded utxos selected sum
  unfolding with_defrag defraggable
  pad utxos selected sum e h =
      let inputs = q.inputs + length selected in
      let tail = reverse (defraggable utxos) in
      let tail_le : (f : SiacoinElement → ℕ) → sum_by f tail ≤ sum_by f utxos = λ f.
        omega
          (arith, sum_by-reverse f (defraggable utxos), sum_by-drop f (length utxos - 10) utxos) in
      elim (Bool-cases (ltb defrag_threshold (length utxos) && ltb inputs max_inputs_for_defrag)) [
        | inr stay ↦ record {
          extra = [];
          total = sum;
          result = rw (stay, append-nil) refl;
          exact = omega (arith, e, sum_by-append value_of selected []);
          once = λ f. omega arith;
          none_extra = λ _. refl;
        }
        | inl go ↦
            let fits = h (ground (arith, go)) in
            let s = defrag_loop_lem laws inputs sum tail (omega (arith, tail_le value_of)) in
            record {
              extra = s.selected;
              total = s.total;
              result = rw (go, s.result) refl;
              exact = omega (arith, e, s.taken.sum, sum_by-append value_of selected s.selected);
              once = λ f. omega (
                arith,
                ap (sum_by f) s.taken.split,
                sum_by-append f s.selected s.left,
                tail_le f,
              );
              none_extra = λ le. absurd (ground (arith, go));
            }
      ]

  -- What `choose` returns: a choice, or the lack of funds.
  abbrev pub Chooses : Option (Option (List SiacoinElement × ℕ)) → Type 0
  Chooses r =
      ((r ≡ some none) × (sum_by value_of (spendable q) < q.amount))
      ⊎ ((chosen : List SiacoinElement × ℕ) × (r ≡ some (some chosen)) × Chosen q chosen)

  abbrev unconfirmed_of : List SiacoinElement
  unconfirmed_of = if q.use_unconfirmed then not_skipped q.skip q.pool else []

  collect_second :
      sum_by value_of q.pool < max_currency
      → (if q.use_unconfirmed then collect_unconfirmed cur q.skip 0 q.pool else some [])
        ≡ some unconfirmed_of
  collect_second h = elim (Bool-cases q.use_unconfirmed) [
    | inl u ↦ rw u (collect_unconfirmed_lem laws q.skip 0 q.pool (omega arith))
    | inr u ↦ rw u refl
  ]

  unconfirmed_of-le : (f : SiacoinElement → ℕ) → sum_by f unconfirmed_of ≤ sum_by f q.pool
  unconfirmed_of-le f = ground (arith, not_skipped-le f q.skip q.pool)

  -- What the defrag loop is given is what the first loop left, or else no longer than the choice.
  left_over :
      (utxos added : List SiacoinElement) (s : Selected laws q.amount 0 utxos)
      → (get_or s.rest utxos ≡ s.left)
        ⊎ (length (get_or s.rest utxos) ≤ length (s.selected ++ added))
  left_over utxos added s = elim s.ended [
    | inl (e, _) ↦ inl (rw e refl)
    | inr (e, none_left) ↦ inr (
        rw e (
          omega (
            arith,
            ap length s.taken.split,
            length-append s.selected s.left,
            length-append s.selected added,
            ap length none_left,
          )))
  ]

  module _ (perm : Permutes q.sort_by_value)
      (h : sum_by value_of q.elements + sum_by value_of q.pool < max_currency) where
    abbrev utxos : List SiacoinElement
    utxos = q.sort_by_value (usable_of q.class q.elements)

    abbrev others : List SiacoinElement
    others = q.sort_by_value unconfirmed_of

    utxos-le : sum_by value_of utxos ≤ sum_by value_of q.elements
    utxos-le = omega (
      arith,
      perm value_of (usable_of q.class q.elements),
      usable_of-le value_of q.class q.elements,
    )

    others-le : sum_by value_of others ≤ sum_by value_of q.pool
    others-le = omega (arith, perm value_of unconfirmed_of, unconfirmed_of-le value_of)

    spendable-sum :
        (f : SiacoinElement → ℕ) → sum_by f (spendable q) ≡ sum_by f utxos + sum_by f others
    spendable-sum f = omega (
      arith,
      sum_by-append f (usable_of q.class q.elements) unconfirmed_of,
      perm f (usable_of q.class q.elements),
      perm f unconfirmed_of,
    )

    module _ (s : Selected laws q.amount 0 utxos)
        (w : Widened utxos others s.selected s.left s.total) where
      taken-sum : (f : SiacoinElement → ℕ) → sum_by f s.selected + sum_by f s.left ≡ sum_by f utxos
      taken-sum f = omega (arith, ap (sum_by f) s.taken.split, sum_by-append f s.selected s.left)

      widened-sum :
          (f : SiacoinElement → ℕ)
          → sum_by f (s.selected ++ w.added) + sum_by f s.left ≤ sum_by f (spendable q)
      widened-sum f =
          ground (arith, taken-sum f, sum_by-append f s.selected w.added, w.once f, spendable-sum f)

      pad_fits :
          length (s.selected ++ w.added) < length (get_or s.rest utxos)
          → w.total + sum_by value_of (get_or s.rest utxos) < max_currency
      pad_fits lt = elim (left_over utxos w.added s) [
        | inl e ↦ rw e (
            omega
              (arith, w.exact, widened-sum value_of, spendable-sum value_of, utxos-le, others-le))
        | inr le ↦ absurd (omega arith)
      ]

      others_unused : q.use_unconfirmed ≡ false → sum_by value_of others ≡ 0
      others_unused e =
          let nothing : sum_by value_of unconfirmed_of ≡ 0 = rw e refl in
          omega (arith, perm value_of unconfirmed_of, nothing)

      short_of_funds : w.total < q.amount → sum_by value_of (spendable q) < q.amount
      short_of_funds lt = elim s.ended [
        | inl (e, le) ↦ absurd (ground (arith, w.short lt))
        | inr (e, none_left) ↦ ground (
          arith,
          w.short lt,
          s.taken.sum,
          taken-sum value_of,
          spendable-sum value_of,
          others_unused,
          ap (sum_by value_of) none_left,
        )
      ]

      chosen_once :
          (p : Padded (get_or s.rest utxos) (s.selected ++ w.added) w.total)
          (f : SiacoinElement → ℕ)
          → sum_by f ((s.selected ++ w.added) ++ p.extra) ≤ sum_by f (spendable q)
      chosen_once p f = elim (left_over utxos w.added s) [
        | inl e ↦ omega (
          arith,
          sum_by-append f (s.selected ++ w.added) p.extra,
          p.once f,
          ap (sum_by f) e,
          widened-sum f,
        )
        | inr le ↦ omega (
          arith,
          sum_by-append f (s.selected ++ w.added) p.extra,
          ap (sum_by f) (p.none_extra le),
          widened-sum f,
        )
      ]

      finish : Padded (get_or s.rest utxos) (s.selected ++ w.added) w.total → Chooses (choose cur q)
      unfolding choose
      finish p =
          let e₁ = collect_lem laws q.class 0 0 q.elements (omega arith) (omega arith) in
          let e₂ = collect_second (omega arith) in
          let e₃ = cmp_lt-ltb laws w.total q.amount in
          elim (Bool-cases (ltb w.total q.amount)) [
            | inl short ↦
                inl (
                  rw (e₁, e₂, s.result, w.result, e₃, short) refl,
                  short_of_funds (ltb→lt _ _ short),
                )
            | inr enough ↦ inr (
              ((s.selected ++ w.added) ++ p.extra, p.total),
              rw (e₁, e₂, s.result, w.result, e₃, enough, p.result) refl,
              record {
                covered = omega (
                  arith,
                  p.exact,
                  w.exact,
                  ltb→le _ _ enough,
                  sum_by-append value_of (s.selected ++ w.added) p.extra,
                );
                sum = p.exact;
                once = chosen_once p;
              },
            )
          ]

    -- If the outputs of the wallet and of the pool sum to less than 2 ^ 128 and the sort permutes,
    -- `Fund` either chooses outputs that cover the amount, each of them spendable and none twice (the
    -- defrag loop included, though a first loop that ran to its end leaves it the whole list), or
    -- reports ErrInsufficientBalance, and then all that is spendable does not cover the amount.
    pub choose-Chooses : Chooses (choose cur q)
    choose-Chooses =
        let s = select_utxos_lem laws q.amount 0 utxos (omega (arith, utxos-le)) in
        let w = widen utxos others s.selected s.left s.total (omega (arith, s.taken.sum)) (
          omega (
            arith,
            s.taken.sum,
            utxos-le,
            others-le,
            ap (sum_by value_of) s.taken.split,
            sum_by-append value_of s.selected s.left,
          )) in
        finish s w
          (pad (get_or s.rest utxos) (s.selected ++ w.added) w.total w.exact (pad_fits s w))
