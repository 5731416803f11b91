-- ===== src/Wallet/Redistribute/Outcome.antt =====
-- internal/walletutil/wallet.go: `Redistribute` as a whole.
use mathlib.Core.Path.{subst}
use hostscore.Prelude.{
  ◌<◌, ◌-◌, ℕ, ◌≤◌, ◌≡◌, refl, ◌⊎◌, inl, inr, List, [], ◌∷◌, map, Bool, ◌&&◌, Option, some, arith,
  leb, ◌==◌, ==_iff, All, Bool-cases,
}
use hostscore.Currency.{CurrencyOps, CurrencyLaws}
use hostscore.Wallet.{SiacoinElement, Wallet, Chain, pool_spent, release_inputs, ◌>>=◌}
use hostscore.Wallet.Fund.Loops.{sum_by}
use hostscore.Wallet.Fund.Choice.{Permutes}
use hostscore.Wallet.Redistribute.{
  FeeState, Batch, Redistributed, no_outputs_wanted, nothing_to_do, insufficient, rejected,
  broadcast, is_unused, count_missing, spendable_for, finish, redistribute,
}
use hostscore.Wallet.Redistribute.Batches.{free-le, InRange, IsBalanced}
use hostscore.Wallet.Redistribute.Loop.{at, times_spent, total_number, Looped, Short, batches, loop}

-- The outputs that `Redistribute` may spend: not reserved, not spent by the pool, mature, and of
-- another value than the wanted one.
abbrev pub usable_at : Wallet → ℕ → Chain → SiacoinElement → Bool
usable_at w now c e =
    is_unused w now (pool_spent c.pool_transactions) e.id && leb e.maturity_height c.height

abbrev pub spendable : Wallet → ℕ → Chain → ℕ → List SiacoinElement → List SiacoinElement
spendable w now c amount elements = spendable_for (usable_at w now c) amount elements

-- The transactions of a result are balanced, and spend together each output at most as often as the
-- wallet has it to spend.
pub record SpendsOnce (c : Chain) (amount : ℕ) (funds : List SiacoinElement) (bs : List Batch)
    : Type 0 where
  pub balanced : All (IsBalanced c amount) bs
  pub once : (k : ℕ) → times_spent k bs ≤ sum_by (at k) funds

-- What holds of each outcome. `Short` says of a wallet and a number of missing outputs that its funds do
-- not suffice for the next transaction.
abbrev pub Expected :
    Chain
    → ℕ
    → List SiacoinElement
    → (Wallet → ℕ → Type 0)
    → Wallet
    → ℕ
    → ℕ
    → Redistributed
    → Type 0
Expected c amount funds Short w outputs missing no_outputs_wanted = outputs ≡ 0
Expected c amount funds Short w outputs missing nothing_to_do = missing ≡ 0
Expected c amount funds Short w outputs missing (insufficient w') = (w' ≡ w) × Short w missing
Expected c amount funds Short w outputs missing (broadcast w' bs) =
    (s : SpendsOnce c amount funds bs) × ((total_number c amount bs s.balanced ≡ missing)
      ⊎ ((total_number c amount bs s.balanced < missing)
          × Short w' (missing - total_number c amount bs s.balanced)))
Expected c amount funds Short w outputs missing (rejected w' bs) = SpendsOnce c amount funds bs

module _ {cur : CurrencyOps} (laws : CurrencyLaws cur) (ok : ℕ → Bool) (w : Wallet) (now : ℕ)
    (c : Chain) (f : FeeState) (elements : List SiacoinElement) (amount outputs : ℕ) where
  abbrev pub chosen : List SiacoinElement
  chosen = c.sort_by_value (spendable w now c amount elements)

  abbrev pub missing : ℕ
  missing = count_missing (usable_at w now c) amount outputs elements

  abbrev pub IsExpected : Option Redistributed → Type 0
  IsExpected r =
      (o : Redistributed) × (r ≡ some o)
      × Expected c amount (spendable w now c amount elements) (Short laws ok now c f amount chosen)
          w outputs missing o

  no_batches :
      (bs : List Batch) (p : All (IsBalanced c amount) bs)
      → bs ≡ []
      → total_number c amount bs p ≡ 0
  no_batches [] p e = refl
  no_batches (b ∷ bs) p e = cc

  finished :
      (r : Option (Option (Wallet × List Batch)))
      → Permutes c.sort_by_value
      → 1 ≤ missing
      → Looped laws ok now c f amount chosen w [] missing r
      → IsExpected (r >>= (λ x. some (finish cur ok f w x)))
  finished r perm some_missing l =
      let s : SpendsOnce c amount (spendable w now c amount elements) l.more = record {
        balanced = l.balanced;
        once = λ k. omega (
          arith,
          l.once k,
          free-le (at k) (is_unused w now (pool_spent c.pool_transactions)) chosen,
          perm (at k) (spendable w now c amount elements),
        );
      } in
      elim l.result [
        | inr (h, _, empty, same) ↦
            let none_made = no_batches l.more l.balanced empty in
            let short : Short laws ok now c f amount chosen l.wallet missing = elim l.complete [
              | inl all ↦ absurd (omega (arith, all, none_made))
              | inr (lt, short) ↦
                  let all_missing : missing - total_number c amount l.more l.balanced ≡ missing =
                    omega (arith, none_made) in
                  subst (Short laws ok now c f amount chosen l.wallet) all_missing short
            ] in
            let own : Short laws ok now c f amount chosen w missing =
              subst (λ x. Short laws ok now c f amount chosen x missing) same short in
            (insufficient w, rw h refl, (refl, own))
        | inl h ↦ elim (Bool-cases (f.accepts (map (λ b. b.txn) l.more))) [
          | inl accepted ↦ (broadcast l.wallet l.more, rw (h, accepted) refl, (s, l.complete))
          | inr refused ↦ (
            rejected (release_inputs ok l.wallet (map (λ b. b.txn) l.more)) l.more,
            rw (h, refused) refl,
            s,
          )
        ]
      ]

  -- With sums below 2 ^ 128 and a sort that permutes, `Redistribute` never panics. The transactions that
  -- it makes have inputs worth exactly their outputs and fees, pay only to the wallet, and spend no
  -- output twice, nor one that was reserved, spent by the pool, immature, or of the wanted value
  -- already. What it broadcasts has all the missing outputs, or fewer when the outputs left to spend are
  -- together worth less than the next transaction, of 10 outputs or of all those still missing, with
  -- its fee. An error for too few funds is returned only when that holds of the first transaction,
  -- and leaves the reservations as they were.
  pub redistribute-IsExpected :
      Permutes c.sort_by_value
      → InRange f amount c.addr chosen
      → IsExpected (redistribute cur ok w now c f elements amount outputs)
  unfolding redistribute batches
  redistribute-IsExpected perm h = elim (Bool-cases (outputs == 0)) [
    | inl zero_wanted ↦
        rw (zero_wanted, redistribute) (no_outputs_wanted, refl, (==_iff outputs 0).0 zero_wanted)
    | inr wanted ↦ elim (Bool-cases (missing == 0)) [
      | inl all_there ↦
          rw (wanted, all_there, redistribute) (nothing_to_do, refl, (==_iff missing 0).0 all_there)
      | inr some_missing ↦
          rw (wanted, some_missing, redistribute)
            (finished _ perm (ground (arith, some_missing))
              (loop laws ok now c f amount chosen missing w [] missing (omega arith) h))
    ]
  ]
