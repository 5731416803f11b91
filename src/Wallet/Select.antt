-- ===== src/Wallet/Select.antt =====
-- internal/walletutil/wallet.go: the loops of `Fund` that choose outputs. `none` is the panic of an
-- addition that passes 2 ^ 128.
use hostscore.Prelude.{
  ℕ, zero, suc, ◌-◌, List, [], ◌∷◌, Bool, ◌||◌, Option, none, some, ltb, leb, if◌then◌else◌, length,
}
use hostscore.Currency.{CurrencyOps, cmp_lt}
use hostscore.Wallet.{
  SiacoinElement, Wallet, is_locked, contains, ◌>>=◌, max_defrag_utxos, max_inputs_for_defrag,
}

-- How the first loop treats an output.
pub data Class : Type 0 where
  used immature usable : Class

unfoldable pub classify : Wallet → ℕ → List ℕ → ℕ → SiacoinElement → Class
classify w now spent height e =
    if is_locked now w e.id || contains e.id spent
    then used
    else if ltb height e.maturity_height
    then immature
    else usable

abbrev pub keep_if : Class → SiacoinElement → List SiacoinElement → List SiacoinElement
keep_if usable e es = e ∷ es
keep_if used e es = es
keep_if immature e es = es

module _ (cur : CurrencyOps) where
  -- `usedSum` and `immatureSum`.
  tally : Class → ℕ → ℕ → ℕ → Option (ℕ × ℕ)
  tally used v u i = do u' ← cur.add u v; some (u', i)
  tally immature v u i = do i' ← cur.add i v; some (u, i')
  tally usable v u i = some (u, i)

  -- `for _, sce := range elements`.
  unfoldable pub collect :
      (SiacoinElement → Class) → ℕ → ℕ → List SiacoinElement → Option (List SiacoinElement)
  unfolding tally
  collect class u i [] = some []
  collect class u i (e ∷ es) = do
    (u', i') ← tally (class e) e.value u i
    rest ← collect class u' i' es
    some (keep_if (class e) e rest)

  -- `for _, sce := range tpoolUtxos`, with `unconfirmedSum`.
  unfoldable pub collect_unconfirmed :
      (SiacoinElement → Bool) → ℕ → List SiacoinElement → Option (List SiacoinElement)
  collect_unconfirmed skip u [] = some []
  collect_unconfirmed skip u (e ∷ es) = do
    u' ← if skip e then some u else cur.add u e.value
    rest ← collect_unconfirmed skip u' es
    some (if skip e then rest else e ∷ rest)

  -- `for i, sce := range utxos`: what is selected, its sum, and `utxos[i:]` if the loop broke off.
  unfoldable pub select_utxos :
      ℕ → ℕ → List SiacoinElement → Option (List SiacoinElement × ℕ × Option (List SiacoinElement))
  select_utxos amount sum [] = some ([], sum, none)
  select_utxos amount sum (e ∷ es) =
      let more : Option (List SiacoinElement × ℕ × Option (List SiacoinElement)) = do
        sum' ← cur.add sum e.value
        (selected, total, rest) ← select_utxos amount sum' es
        some (e ∷ selected, total, rest)
      in if cmp_lt cur sum amount then more else some ([], sum, some (e ∷ es))

  -- `for _, sce := range unconfirmedUTXOs`.
  unfoldable pub select_unconfirmed : ℕ → ℕ → List SiacoinElement → Option (List SiacoinElement × ℕ)
  select_unconfirmed amount sum [] = some ([], sum)
  select_unconfirmed amount sum (e ∷ es) = do
    sum' ← cur.add sum e.value
    let more : Option (List SiacoinElement × ℕ) = do
      (selected, total) ← select_unconfirmed amount sum' es
      some (e ∷ selected, total)
    if cmp_lt cur sum' amount then more else some (e ∷ [], sum')

  -- The defrag loop, over the smallest outputs from the last one back.
  unfoldable pub defrag_loop : ℕ → ℕ → List SiacoinElement → Option (List SiacoinElement × ℕ)
  defrag_loop inputs sum [] = some ([], sum)
  defrag_loop inputs sum (e ∷ es) =
      let more : Option (List SiacoinElement × ℕ) = do
        sum' ← cur.add sum e.value
        (selected, total) ← defrag_loop (suc inputs) sum' es
        some (e ∷ selected, total)
      in if leb max_inputs_for_defrag inputs then some ([], sum) else more

-- `defraggable[len(defraggable)-maxDefragUTXOs:]`, if there are more.
abbrev pub drop : ℕ → List SiacoinElement → List SiacoinElement
drop zero es = es
drop (suc n) [] = []
drop (suc n) (e ∷ es) = drop n es

unfoldable pub defraggable : List SiacoinElement → List SiacoinElement
defraggable utxos = drop (length utxos - max_defrag_utxos) utxos
