-- ===== src/Currency.antt =====
-- types.Currency of go.sia.tech/core, which is not part of the repository: an amount of hastings is
-- a ℕ below 2 ^ 128, and the operations that the code calls are a record with their documented
-- behaviour. `none` is a panic.
use Prim.Native.Nat.{compare, Ordering}
use hostscore.Prelude.{
  ℕ, ◌+◌, ◌-◌, ◌*◌, ◌/◌, ◌^◌, ◌≤◌, ◌<◌, ◌≡◌, refl, Bool, true, false, Option, none, some, arith,
  ltb, if◌then◌else◌, lt→ltb, le→ltb,
}

abbrev pub max_currency : ℕ
max_currency = 2 ^ 128

pub record CurrencyOps : Type 0 where
  pub cmp : ℕ → ℕ → Ordering
  pub add_with_overflow : ℕ → ℕ → ℕ × Bool
  pub mul64_with_overflow : ℕ → ℕ → ℕ × Bool
  pub sub_with_underflow : ℕ → ℕ → ℕ × Bool
  pub add : ℕ → ℕ → Option ℕ
  pub sub : ℕ → ℕ → Option ℕ
  pub mul64 : ℕ → ℕ → Option ℕ
  pub mul : ℕ → ℕ → Option ℕ
  pub div : ℕ → ℕ → Option ℕ
  pub div64 : ℕ → ℕ → Option ℕ

-- Exact below 2 ^ 128, and flagged from there on.
abbrev pub IsChecked : ℕ → ℕ × Bool → Type 0
IsChecked n r = (n < max_currency → r ≡ (n, false)) × (max_currency ≤ n → r.1 ≡ true)

-- Exact below 2 ^ 128, and a panic from there on.
abbrev pub Panics : ℕ → Option ℕ → Type 0
Panics n r = (n < max_currency → r ≡ some n) × (max_currency ≤ n → r ≡ none)

pub record CurrencyLaws (cur : CurrencyOps) : Type 0 where
  pub cmp_compare : (a b : ℕ) → cur.cmp a b ≡ compare a b
  pub add_checked : (a b : ℕ) → IsChecked (a + b) (cur.add_with_overflow a b)
  pub mul64_checked : (a b : ℕ) → IsChecked (a * b) (cur.mul64_with_overflow a b)
  pub sub_exact : (a b : ℕ) → b ≤ a → cur.sub_with_underflow a b ≡ (a - b, false)
  pub sub_under : (a b : ℕ) → a < b → (cur.sub_with_underflow a b).1 ≡ true
  pub add_panics : (a b : ℕ) → Panics (a + b) (cur.add a b)
  pub mul64_panics : (a b : ℕ) → Panics (a * b) (cur.mul64 a b)
  pub mul_panics : (a b : ℕ) → Panics (a * b) (cur.mul a b)
  pub sub_some : (a b : ℕ) → b ≤ a → cur.sub a b ≡ some (a - b)
  pub sub_none : (a b : ℕ) → a < b → cur.sub a b ≡ none
  pub div_some : (a b : ℕ) → 0 < b → cur.div a b ≡ some (a / b)
  pub div_none : (a : ℕ) → cur.div a 0 ≡ none
  pub div64_some : (a b : ℕ) → 0 < b → cur.div64 a b ≡ some (a / b)
  pub div64_none : (a : ℕ) → cur.div64 a 0 ≡ none

-- `a.Cmp(b) > 0` and `a.Cmp(b) < 0`.
module _ (cur : CurrencyOps) where
  abbrev pub cmp_gt : ℕ → ℕ → Bool
  cmp_gt a b = elim (cur.cmp a b) [ Ordering.gt ↦ true | _ ↦ false ]

  abbrev pub cmp_lt : ℕ → ℕ → Bool
  cmp_lt a b = elim (cur.cmp a b) [ Ordering.lt ↦ true | _ ↦ false ]

module _ {cur : CurrencyOps} (laws : CurrencyLaws cur) where
  pub cmp_gt-ltb : (a b : ℕ) → cmp_gt cur a b ≡ ltb b a
  cmp_gt-ltb a b = rw (laws.cmp_compare a b, cmp_gt) (ground arith)

  pub cmp_lt-ltb : (a b : ℕ) → cmp_lt cur a b ≡ ltb a b
  cmp_lt-ltb a b = rw (laws.cmp_compare a b, cmp_lt) refl

-- Operations over the unbounded numbers that behave as documented.
checked_of : ℕ → ℕ × Bool
checked_of n = if ltb n max_currency then (n, false) else (0, true)

panics_of : ℕ → Option ℕ
panics_of n = if ltb n max_currency then some n else none

unfoldable pub exact_ops : CurrencyOps
unfolding checked_of panics_of
exact_ops = record {
  cmp = compare;
  add_with_overflow = λ a b. checked_of (a + b);
  mul64_with_overflow = λ a b. checked_of (a * b);
  sub_with_underflow = λ a b. if ltb a b then (0, true) else (a - b, false);
  add = λ a b. panics_of (a + b);
  sub = λ a b. if ltb a b then none else some (a - b);
  mul64 = λ a b. panics_of (a * b);
  mul = λ a b. panics_of (a * b);
  div = λ a b. if ltb 0 b then some (a / b) else none;
  div64 = λ a b. if ltb 0 b then some (a / b) else none;
}

checked_of-IsChecked : (n : ℕ) → IsChecked n (checked_of n)
unfolding checked_of
checked_of-IsChecked n =
    (λ h. rw (lt→ltb n max_currency h) refl, λ h. rw (le→ltb n max_currency h) refl)

panics_of-Panics : (n : ℕ) → Panics n (panics_of n)
unfolding panics_of
panics_of-Panics n =
    (λ h. rw (lt→ltb n max_currency h) refl, λ h. rw (le→ltb n max_currency h) refl)

pub exact_laws : CurrencyLaws exact_ops
unfolding exact_ops
exact_laws = record {
  cmp_compare = λ a b. refl;
  add_checked = λ a b. checked_of-IsChecked (a + b);
  mul64_checked = λ a b. checked_of-IsChecked (a * b);
  sub_exact = λ a b h. rw (le→ltb a b h) refl;
  sub_under = λ a b h. rw (lt→ltb a b h) refl;
  add_panics = λ a b. panics_of-Panics (a + b);
  mul64_panics = λ a b. panics_of-Panics (a * b);
  mul_panics = λ a b. panics_of-Panics (a * b);
  sub_some = λ a b h. rw (le→ltb a b h) refl;
  sub_none = λ a b h. rw (lt→ltb a b h) refl;
  div_some = λ a b h. rw (lt→ltb 0 b h) refl;
  div_none = λ a. refl;
  div64_some = λ a b h. rw (lt→ltb 0 b h) refl;
  div64_none = λ a. refl;
}
