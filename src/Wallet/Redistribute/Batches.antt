-- ===== src/Wallet/Redistribute/Batches.antt =====
-- internal/walletutil/wallet.go: what the transactions of `Redistribute` spend and pay.
use mathlib.Core.Path.{subst}
use mathlib.Core.List.{append_assoc, append-nil}
use hostscore.Prelude.{
  ℕ, zero, suc, ◌+◌, ◌-◌, ◌*◌, ◌≤◌, ◌<◌, ◌≡◌, refl, sym, ap, ◌∙◌, ◌⊎◌, inl, inr, List, [], ◌∷◌,
  ◌++◌, map, Bool, true, false, Option, none, some, arith, ltb, ltb→lt, ltb→le, if◌then◌else◌,
  length, length-append, Bool-cases,
}
use hostscore.Currency.{CurrencyOps, CurrencyLaws, max_currency, cmp_lt-ltb, cmp_gt-ltb, cmp_gt}
use hostscore.Wallet.{SiacoinElement, SiacoinOutput, Chain, ◌>>=◌}
use hostscore.Wallet.Fund.Loops.{sum_by, value_of, sum_by-append, add-some}
use hostscore.Wallet.Redistribute.{
  FeeState, Batch, equal_outputs, outputs_txn, sum_outputs, fee_for, gather, with_change,
  make_batch, bytes_per_input, redistribute_batch_size,
}

-- The outputs of a list that may be used.
abbrev pub free : (ℕ → Bool) → List SiacoinElement → List SiacoinElement
free unused [] = []
free unused (e ∷ es) = let rest = free unused es in if unused e.id then e ∷ rest else rest

abbrev pub value_sum : List SiacoinOutput → ℕ
value_sum [] = 0
value_sum (o ∷ os) = o.value + value_sum os

pub free-le :
    (g : SiacoinElement → ℕ) (unused : ℕ → Bool) (es : List SiacoinElement)
    → sum_by g (free unused es) ≤ sum_by g es
free-le g unused [] = omega arith
free-le g unused (e ∷ es) = ground (arith, free-le g unused es)

value_sum-equal_outputs : (amount addr n : ℕ) → value_sum (equal_outputs amount addr n) ≡ amount * n
value_sum-equal_outputs amount addr zero = omega arith
value_sum-equal_outputs amount addr (suc n) = omega (arith, value_sum-equal_outputs amount addr n)

value_sum-append : (os ps : List SiacoinOutput) → value_sum (os ++ ps) ≡ value_sum os + value_sum ps
value_sum-append [] ps = omega arith
value_sum-append (o ∷ os) ps = omega (arith, value_sum-append os ps)

value_sum-with_change :
    (change addr : ℕ) (os : List SiacoinOutput)
    → value_sum (with_change change addr os) ≡ value_sum os + change
value_sum-with_change change addr os =
    ground (arith, value_sum-append os (record { value = change; address = addr } ∷ []))

-- Up to `m` inputs, what is needed stays below 2 ^ 128.
abbrev pub Affordable : ℕ → ℕ → ℕ → ℕ → Type 0
Affordable per fees want m = (n : ℕ) → n ≤ m → want + (per * n + fees) < max_currency

module _ {cur : CurrencyOps} (laws : CurrencyLaws cur) where
  sum_outputs_lem :
      (start : ℕ) (es : List SiacoinElement)
      → start + sum_by value_of es < max_currency
      → sum_outputs cur start es ≡ some (start + sum_by value_of es)
  unfolding sum_outputs
  sum_outputs_lem start [] h = ap some (omega arith)
  sum_outputs_lem start (e ∷ es) h =
      rw (add-some laws start e.value (omega arith), sum_outputs)
        (sum_outputs_lem (start + e.value) es (omega arith) ∙ ap some (omega arith))

  sum_all :
      (es : List SiacoinElement)
      → sum_by value_of es < max_currency
      → sum_outputs cur 0 es ≡ some (sum_by value_of es)
  sum_all es h = sum_outputs_lem 0 es (omega arith) ∙ ap some (omega arith)

  fee_for_lem :
      (per fees n : ℕ)
      → per * n + fees < max_currency
      → fee_for cur per fees n ≡ some (per * n + fees)
  fee_for_lem per fees n h =
      rw ((laws.mul64_panics per n).0 (omega arith)) (add-some laws (per * n) fees h)

  -- What the loop takes.
  pub record Gathered (unused : ℕ → Bool) (per fees want : ℕ) (inputs es : List SiacoinElement)
      : Type 0 where
    pub taken : List SiacoinElement
    pub result : gather cur unused per fees want inputs es ≡ some (inputs ++ taken)
    pub few : length taken ≤ length es
    pub once : (g : SiacoinElement → ℕ) → sum_by g taken ≤ sum_by g (free unused es)
    -- It has taken all, or enough.
    pub stop :
        (taken ≡ free unused es)
        ⊎ (want + (per * length (inputs ++ taken) + fees) < sum_by value_of (inputs ++ taken))

  gather_more :
      (per fees want : ℕ) (inputs : List SiacoinElement)
      (r : List SiacoinElement → Option (List SiacoinElement))
      → want + (per * length inputs + fees) < max_currency
      → sum_by value_of inputs < max_currency
      → (fee_for cur per fees (length inputs) >>= (λ fee. sum_outputs cur 0 inputs >>= (λ sum.
          cur.add want fee
          >>= (λ need. elim (cmp_gt cur sum need) [ true ↦ some inputs | false ↦ r inputs ]))))
        ≡ (elim (ltb (want + (per * length inputs + fees)) (sum_by value_of inputs)) [
          | true ↦ some inputs
          | false ↦ r inputs
        ])
  gather_more per fees want inputs r h hs =
      rw
        (
          fee_for_lem per fees (length inputs) (omega arith),
          sum_all inputs hs,
          add-some laws want (per * length inputs + fees) h,
        )
        (ap (λ b. elim b [ true ↦ some inputs | false ↦ r inputs ])
          (cmp_gt-ltb laws (sum_by value_of inputs) (want + (per * length inputs + fees))))

  gather_lem :
      (unused : ℕ → Bool) (per fees want : ℕ) (inputs es : List SiacoinElement)
      → Affordable per fees want (length inputs + length es)
      → sum_by value_of inputs + sum_by value_of es < max_currency
      → Gathered unused per fees want inputs es
  unfolding gather
  gather_lem unused per fees want inputs [] h hs = record {
    taken = [];
    result = ap some (sym (append-nil inputs));
    few = omega arith;
    once = λ g. omega arith;
    stop = inl refl;
  }
  gather_lem unused per fees want inputs (e ∷ es) h hs = elim (Bool-cases (unused e.id)) [
    | inr used ↦
        let ih =
          gather_lem unused per fees want inputs es (λ n le. h n (omega arith)) (omega arith) in
        record {
          taken = ih.taken;
          result = rw (used, gather) ih.result;
          few = omega (arith, ih.few);
          once = λ g. rw used (ih.once g);
          stop = rw used ih.stop;
        }
    | inl ok ↦
        let inputs' = inputs ++ (e ∷ []) in
        let len : length inputs' ≡ length inputs + 1 = length-append inputs (e ∷ []) in
        let sum : sum_by value_of inputs' ≡ sum_by value_of inputs + e.value =
          omega (arith, sum_by-append value_of inputs (e ∷ [])) in
        let more =
          gather_more per fees want inputs' (λ is. gather cur unused per fees want is es)
            (h (length inputs') (omega arith)) (omega arith) in
        elim (Bool-cases (ltb (want + (per * length inputs' + fees)) (sum_by value_of inputs'))) [
          | inl enough ↦ record {
            taken = e ∷ [];
            result = rw (ok, gather) (more ∙ rw enough refl);
            few = omega arith;
            once = λ g. rw ok (omega arith);
            stop = inr (ltb→lt _ _ enough);
          }
          | inr missing ↦
              let ih =
                gather_lem unused per fees want inputs' es (λ n le. h n (omega arith))
                  (omega arith) in
              record {
                taken = e ∷ ih.taken;
                result =
                    rw (ok, gather)
                      (more
                        ∙ rw missing (ih.result ∙ ap some (append_assoc inputs (e ∷ []) ih.taken)));
                few = omega (arith, ih.few);
                once = λ g. rw ok (omega (arith, ih.once g));
                stop = elim ih.stop [
                  | inl all ↦ inl (rw ok (ap (◌∷◌ e) all))
                  | inr enough ↦ inr (
                      subst (λ l. want + (per * length l + fees) < sum_by value_of l)
                        (append_assoc inputs (e ∷ []) ih.taken) enough)
                ];
              }
        ]
  ]

-- The sums that `Redistribute` takes stay below 2 ^ 128, for up to 10 outputs and all inputs.
abbrev pub InRange : FeeState → ℕ → ℕ → List SiacoinElement → Type 0
InRange f amount addr utxos =
    ((n : ℕ)
      → n ≤ redistribute_batch_size
      → Affordable (f.recommended_fee * bytes_per_input)
          (f.recommended_fee * f.transaction_weight (outputs_txn amount addr n)) (amount * n)
          (suc (length utxos)))
    × (sum_by value_of utxos < max_currency)

-- A transaction of the wallet: its inputs are worth its outputs and its fee, and all outputs come back
-- to the wallet; `n` of them have the wanted amount, and there may be one more, the change.
pub record IsBalanced (c : Chain) (amount : ℕ) (b : Batch) : Type 0 where
  pub number : ℕ
  pub change : ℕ
  pub outputs :
      b.txn.siacoin_outputs ≡ with_change change c.addr (equal_outputs amount c.addr number)
  pub spends : b.txn.siacoin_inputs ≡ map (λ e. record { parent_id = e.id; key = c.key }) b.inputs
  pub conserved : sum_by value_of b.inputs ≡ value_sum b.txn.siacoin_outputs + b.miner_fee

-- All the outputs that may still be spent are worth less than `n` outputs of the amount and the fee of a
-- transaction that spends them all.
abbrev pub CannotPay : Chain → FeeState → ℕ → (ℕ → Bool) → List SiacoinElement → ℕ → Type 0
CannotPay c f amount unused utxos n =
    sum_by value_of (free unused utxos)
    < amount * n
      + (f.recommended_fee * bytes_per_input * length (free unused utxos)
          + f.recommended_fee * f.transaction_weight (outputs_txn amount c.addr n))

abbrev priced_batch : Chain → ℕ → ℕ → List SiacoinElement → ℕ → ℕ → Batch
priced_batch c amount n inputs fee change = record {
  txn = record {
    siacoin_inputs = map (λ e. record { parent_id = e.id; key = c.key }) inputs;
    siacoin_outputs = with_change change c.addr (equal_outputs amount c.addr n);
    siafund_inputs = [];
  };
  miner_fee = fee;
  inputs = inputs;
}

module _ {cur : CurrencyOps} (laws : CurrencyLaws cur) where
  -- A batch that `make_batch` returns.
  pub record Made (c : Chain) (f : FeeState) (amount : ℕ) (unused : ℕ → Bool)
      (utxos : List SiacoinElement) (n : ℕ) : Type 0 where
    pub batch : Batch
    pub result : make_batch cur c f amount unused utxos n ≡ some (some batch)
    pub balanced : IsBalanced c amount batch
    pub wanted : balanced.number ≡ n
    pub once : (g : SiacoinElement → ℕ) → sum_by g batch.inputs ≤ sum_by g (free unused utxos)

  pub make_batch_lem :
      (c : Chain) (f : FeeState) (amount : ℕ) (unused : ℕ → Bool) (utxos : List SiacoinElement)
      (n : ℕ)
      → n ≤ redistribute_batch_size
      → InRange f amount c.addr utxos
      → ((make_batch cur c f amount unused utxos n ≡ some none)
          × CannotPay c f amount unused utxos n)
        ⊎ Made c f amount unused utxos n
  unfolding make_batch
  make_batch_lem c f amount unused utxos n few (affords, total) =
      let per = f.recommended_fee * bytes_per_input in
      let fees = f.recommended_fee * f.transaction_weight (outputs_txn amount c.addr n) in
      let want = amount * n in
      let one : want + (per * 1 + fees) < max_currency = affords n few 1 (omega arith) in
      let g =
        gather_lem laws unused per fees want [] utxos (λ i le. affords n few i (omega arith))
          (omega arith) in
      let sum : sum_by value_of g.taken < max_currency =
        omega (arith, g.once value_of, free-le value_of unused utxos) in
      let need : want + (per * length g.taken + fees) < max_currency =
        affords n few (length g.taken) (omega (arith, g.few)) in
      let fee = per * length g.taken + fees in
      let got = sum_by value_of g.taken in
      let after : ℕ → Option (Option Batch) =
        λ change. some (some (priced_batch c amount n g.taken fee change)) in
      let made : make_batch cur c f amount unused utxos n
          ≡ (if ltb got (want + fee) then some none else (cur.sub got (want + fee) >>= after)) =
        rw
          (
            (laws.mul64_panics f.recommended_fee
                  (f.transaction_weight (outputs_txn amount c.addr n))).0
                (omega arith),
            (laws.mul64_panics f.recommended_fee bytes_per_input).0 (omega arith),
            (laws.mul64_panics amount n).0 (omega arith),
            g.result,
            fee_for_lem laws per fees (length g.taken) (omega arith),
            sum_all laws g.taken sum,
            add-some laws want fee need,
            make_batch,
          )
          (ap (λ b. if b then some none else (cur.sub got (want + fee) >>= after))
            (cmp_lt-ltb laws got (want + fee))) in
      elim (Bool-cases (ltb got (want + fee))) [
        | inl short ↦
            let less : got < want + fee = ltb→lt got (want + fee) short in
            let cannot : CannotPay c f amount unused utxos n = elim g.stop [
              | inl all ↦ subst (λ l. sum_by value_of l < want + (per * length l + fees)) all less
              | inr enough ↦ absurd (omega arith)
            ] in
            inl (made ∙ rw short refl, cannot)
        | inr enough ↦
            let covered : want + fee ≤ got = ltb→le got (want + fee) enough in
            inr (record {
              batch = priced_batch c amount n g.taken fee (got - (want + fee));
              result = made ∙ rw (enough, laws.sub_some got (want + fee) covered) refl;
              balanced = record {
                number = n;
                change = got - (want + fee);
                outputs = refl;
                spends = refl;
                conserved = omega (
                  arith,
                  value_sum-with_change (got - (want + fee)) c.addr (equal_outputs amount c.addr n),
                  value_sum-equal_outputs amount c.addr n,
                );
              };
              wanted = refl;
              once = g.once;
            })
      ]
