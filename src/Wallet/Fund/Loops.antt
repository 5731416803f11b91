-- ===== src/Wallet/Fund/Loops.antt =====
-- internal/walletutil/wallet.go: the loops of `Fund`, where no sum passes 2 ^ 128.
use mathlib.Core.List.{reverse, reverse-cons}
use hostscore.Prelude.{
  ℕ, zero, suc, ◌+◌, ◌≤◌, ◌<◌, ◌≡◌, refl, ap, ◌⊎◌, inl, inr, List, [], ◌∷◌, ◌++◌, Bool, Option,
  none, some, arith, ltb, leb, if◌then◌else◌, Bool-cases, ltb→le,
}
use hostscore.Currency.{CurrencyOps, CurrencyLaws, max_currency, cmp_lt-ltb}
use hostscore.Wallet.{SiacoinElement, max_inputs_for_defrag}
use hostscore.Wallet.Select.{
  Class, keep_if, collect, collect_unconfirmed, select_utxos, select_unconfirmed, defrag_loop, drop,
}

-- The sum of `f` over a list. With `f` an indicator it counts.
abbrev pub sum_by : (SiacoinElement → ℕ) → List SiacoinElement → ℕ
sum_by f [] = 0
sum_by f (e ∷ es) = f e + sum_by f es

abbrev pub value_of : SiacoinElement → ℕ
value_of e = e.value

pub sum_by-append :
    (f : SiacoinElement → ℕ) (xs ys : List SiacoinElement)
    → sum_by f (xs ++ ys) ≡ sum_by f xs + sum_by f ys
sum_by-append f [] ys = omega arith
sum_by-append f (x ∷ xs) ys = omega (arith, sum_by-append f xs ys)

pub sum_by-reverse :
    (f : SiacoinElement → ℕ) (xs : List SiacoinElement) → sum_by f (reverse xs) ≡ sum_by f xs
sum_by-reverse f [] = refl
sum_by-reverse f (x ∷ xs) = omega (
  arith,
  ap (sum_by f) (reverse-cons x xs),
  sum_by-append f (reverse xs) (x ∷ []),
  sum_by-reverse f xs,
)

pub sum_by-drop :
    (f : SiacoinElement → ℕ) (n : ℕ) (xs : List SiacoinElement) → sum_by f (drop n xs) ≤ sum_by f xs
sum_by-drop f zero xs = omega arith
sum_by-drop f (suc n) [] = omega arith
sum_by-drop f (suc n) (x ∷ xs) = omega (arith, sum_by-drop f n xs)

-- The outputs that may be spent.
abbrev pub usable_of : (SiacoinElement → Class) → List SiacoinElement → List SiacoinElement
usable_of class [] = []
usable_of class (e ∷ es) = keep_if (class e) e (usable_of class es)

abbrev pub not_skipped : (SiacoinElement → Bool) → List SiacoinElement → List SiacoinElement
not_skipped skip [] = []
not_skipped skip (e ∷ es) = let rest = not_skipped skip es in if skip e then rest else e ∷ rest

pub usable_of-le :
    (f : SiacoinElement → ℕ) (class : SiacoinElement → Class) (es : List SiacoinElement)
    → sum_by f (usable_of class es) ≤ sum_by f es
usable_of-le f class [] = omega arith
usable_of-le f class (e ∷ es) = ground (arith, usable_of-le f class es)

pub not_skipped-le :
    (f : SiacoinElement → ℕ) (skip : SiacoinElement → Bool) (es : List SiacoinElement)
    → sum_by f (not_skipped skip es) ≤ sum_by f es
not_skipped-le f skip [] = omega arith
not_skipped-le f skip (e ∷ es) = ground (arith, not_skipped-le f skip es)

-- The outcome of a loop that takes a prefix of `es` onto the sum `start`.
pub record Taken (start : ℕ) (es selected rest : List SiacoinElement) (total : ℕ) : Type 0 where
  pub split : es ≡ selected ++ rest
  pub sum : total ≡ start + sum_by value_of selected

Taken-nil : (start : ℕ) (es : List SiacoinElement) → Taken start es [] es start
Taken-nil start es = record { split = refl; sum = omega arith }

Taken-cons :
    (start : ℕ) (e : SiacoinElement) (es selected rest : List SiacoinElement) (total : ℕ)
    → Taken (start + e.value) es selected rest total
    → Taken start (e ∷ es) (e ∷ selected) rest total
Taken-cons start e es selected rest total t = record {
  split = ap (◌∷◌ e) t.split;
  sum = omega (arith, t.sum);
}

module _ {cur : CurrencyOps} (laws : CurrencyLaws cur) where
  pub add-some : (a b : ℕ) → a + b < max_currency → cur.add a b ≡ some (a + b)
  add-some a b h = (laws.add_panics a b).0 h

  pub collect_lem :
      (class : SiacoinElement → Class) (u i : ℕ) (es : List SiacoinElement)
      → u + sum_by value_of es < max_currency
      → i + sum_by value_of es < max_currency
      → collect cur class u i es ≡ some (usable_of class es)
  unfolding collect
  collect_lem class u i [] hu hi = refl
  collect_lem class u i (e ∷ es) hu hi = ground (
    arith,
    add-some u e.value,
    add-some i e.value,
    collect_lem class u i es,
    collect_lem class (u + e.value) i es,
    collect_lem class u (i + e.value) es,
  )

  pub collect_unconfirmed_lem :
      (skip : SiacoinElement → Bool) (u : ℕ) (es : List SiacoinElement)
      → u + sum_by value_of es < max_currency
      → collect_unconfirmed cur skip u es ≡ some (not_skipped skip es)
  unfolding collect_unconfirmed
  collect_unconfirmed_lem skip u [] h = refl
  collect_unconfirmed_lem skip u (e ∷ es) h = ground (
    arith,
    add-some u e.value,
    collect_unconfirmed_lem skip u es,
    collect_unconfirmed_lem skip (u + e.value) es,
  )

  -- The first loop: it breaks off with the amount covered, or has taken everything.
  pub record Selected (amount start : ℕ) (es : List SiacoinElement) : Type 0 where
    pub selected : List SiacoinElement
    pub left : List SiacoinElement
    pub total : ℕ
    pub rest : Option (List SiacoinElement)
    pub result : select_utxos cur amount start es ≡ some (selected, total, rest)
    pub taken : Taken start es selected left total
    pub ended : ((rest ≡ some left) × (amount ≤ total)) ⊎ ((rest ≡ none) × (left ≡ []))

  pub select_utxos_lem :
      (amount start : ℕ) (es : List SiacoinElement)
      → start + sum_by value_of es < max_currency
      → Selected amount start es
  unfolding select_utxos
  select_utxos_lem amount start [] h = record {
    selected = [];
    left = [];
    total = start;
    rest = none;
    result = refl;
    taken = Taken-nil start [];
    ended = inr (refl, refl);
  }
  select_utxos_lem amount start (e ∷ es) h = elim (Bool-cases (ltb start amount)) [
    | inr covered ↦ record {
      selected = [];
      left = e ∷ es;
      total = start;
      rest = some (e ∷ es);
      result = rw (cmp_lt-ltb laws start amount, covered, select_utxos) refl;
      taken = Taken-nil start (e ∷ es);
      ended = inl (refl, ltb→le _ _ covered);
    }
    | inl short ↦
        let s = select_utxos_lem amount (start + e.value) es (omega arith) in
        record {
          selected = e ∷ s.selected;
          left = s.left;
          total = s.total;
          rest = s.rest;
          result =
              rw
                (
                  cmp_lt-ltb laws start amount,
                  short,
                  add-some start e.value (omega arith),
                  s.result,
                )
                refl;
          taken = Taken-cons start e es s.selected s.left s.total s.taken;
          ended = s.ended;
        }
  ]

  pub record Added (amount start : ℕ) (es : List SiacoinElement) : Type 0 where
    pub selected : List SiacoinElement
    pub left : List SiacoinElement
    pub total : ℕ
    pub result : select_unconfirmed cur amount start es ≡ some (selected, total)
    pub taken : Taken start es selected left total
    pub ended : (amount ≤ total) ⊎ (left ≡ [])

  pub select_unconfirmed_lem :
      (amount start : ℕ) (es : List SiacoinElement)
      → start + sum_by value_of es < max_currency
      → Added amount start es
  unfolding select_unconfirmed
  select_unconfirmed_lem amount start [] h = record {
    selected = [];
    left = [];
    total = start;
    result = refl;
    taken = Taken-nil start [];
    ended = inr refl;
  }
  select_unconfirmed_lem amount start (e ∷ es) h =
      let add = add-some start e.value (omega arith) in
      let lt = cmp_lt-ltb laws (start + e.value) amount in
      elim (Bool-cases (ltb (start + e.value) amount)) [
        | inr covered ↦ record {
          selected = e ∷ [];
          left = es;
          total = start + e.value;
          result = rw (add, lt, covered) refl;
          taken = record { split = refl; sum = omega arith };
          ended = inl (ltb→le _ _ covered);
        }
        | inl short ↦
            let s = select_unconfirmed_lem amount (start + e.value) es (omega arith) in
            record {
              selected = e ∷ s.selected;
              left = s.left;
              total = s.total;
              result = rw (add, lt, short, s.result) refl;
              taken = Taken-cons start e es s.selected s.left s.total s.taken;
              ended = s.ended;
            }
      ]

  pub record Defragged (inputs start : ℕ) (es : List SiacoinElement) : Type 0 where
    pub selected : List SiacoinElement
    pub left : List SiacoinElement
    pub total : ℕ
    pub result : defrag_loop cur inputs start es ≡ some (selected, total)
    pub taken : Taken start es selected left total

  pub defrag_loop_lem :
      (inputs start : ℕ) (es : List SiacoinElement)
      → start + sum_by value_of es < max_currency
      → Defragged inputs start es
  unfolding defrag_loop
  defrag_loop_lem inputs start [] h = record {
    selected = [];
    left = [];
    total = start;
    result = refl;
    taken = Taken-nil start [];
  }
  defrag_loop_lem inputs start (e ∷ es) h = elim (Bool-cases (leb max_inputs_for_defrag inputs)) [
    | inl full ↦ record {
      selected = [];
      left = e ∷ es;
      total = start;
      result = rw (full, defrag_loop) refl;
      taken = Taken-nil start (e ∷ es);
    }
    | inr room ↦
        let s = defrag_loop_lem (suc inputs) (start + e.value) es (omega arith) in
        record {
          selected = e ∷ s.selected;
          left = s.left;
          total = s.total;
          result = rw (room, add-some start e.value (omega arith), s.result) refl;
          taken = Taken-cons start e es s.selected s.left s.total s.taken;
        }
  ]
