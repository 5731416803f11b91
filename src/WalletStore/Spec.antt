-- ===== src/WalletStore/Spec.antt =====
-- internal/walletutil/store.go: what blocks are to do to the wallet's outputs, id by id, without regard
-- to the order in which the store works.
use hostscore.Prelude.{
  ℕ, ◌≡◌, refl, List, [], ◌∷◌, Bool, true, false, ◌&&◌, not, Option, none, some, ◌==◌, ◌||◌,
  if◌then◌else◌, str_eq,
}
use hostscore.WalletStore.{Element, StateElement}
use hostscore.WalletStore.Blocks.{Update, Diff, with_proof, classify}
use hostscore.WalletStore.Mirror.{Outputs, Ledger}
use hostscore.WalletStore.Loops.{or_else, latest}
use mathlib.Core.Option

-- An element of the address that the block does not both create and spend.
abbrev pub is_own : ℕ → Diff → Bool
is_own addr d = (d.element.address == addr) && not (d.created && d.spent)

-- The last element with an id that the block leaves unspent, and the last that it spends.
unfoldable pub left_unspent : ℕ → ℕ → List Diff → Option Element
left_unspent addr k [] = none
left_unspent addr k (d ∷ ds) = or_else (left_unspent addr k ds) (
    if is_own addr d && not d.spent && (d.element.state_element.id == k)
    then some d.element
    else none)

unfoldable pub left_spent : ℕ → ℕ → List Diff → Option Element
left_spent addr k [] = none
left_spent addr k (d ∷ ds) =
    or_else (left_spent addr k ds) (
      if is_own addr d && d.spent && (d.element.state_element.id == k)
      then some d.element
      else none)

-- One output: gone if an element goes, or else the one that comes, or else as it was; the block moves
-- the proof.
unfoldable pub turned :
    (StateElement → StateElement)
    → Option Element
    → Option Element
    → Option Element
    → Option Element
turned f came (some gone) o = none
turned f came none o = Option.map (with_proof f) (or_else came o)

unfoldable pub applied_outputs : Update → ℕ → Outputs → Outputs
unfolding turned left_unspent left_spent
applied_outputs u addr v c k =
    turned u.update_element_proof (left_unspent addr k (u.diffs c)) (left_spent addr k (u.diffs c))
      (v c k)

unfoldable pub reverted_outputs : Update → ℕ → Outputs → Outputs
unfolding turned left_unspent left_spent
reverted_outputs u addr v c k =
    turned u.update_element_proof (left_spent addr k (u.diffs c)) (left_unspent addr k (u.diffs c))
      (v c k)

unfoldable pub applied_ledger : Update → Ledger → Ledger
unfolding applied_outputs
applied_ledger u l =
    if str_eq l.network u.network
    then record l { outputs = applied_outputs u l.addr l.outputs; tip = u.index }
    else l

-- The tip stays where it was.
unfoldable pub reverted_ledger : Update → Ledger → Ledger
unfolding reverted_outputs
reverted_ledger u l =
    if str_eq l.network u.network
    then record l { outputs = reverted_outputs u l.addr l.outputs }
    else l

unfoldable pub all_ledgers : (Update → Ledger → Ledger) → List Update → Ledger → Ledger
all_ledgers f [] l = l
all_ledgers f (u ∷ us) l = all_ledgers f us (f u l)

abbrev pub after_blocks : List Update → List Update → Ledger → Ledger
after_blocks reverted applied l =
    all_ledgers applied_ledger applied (all_ledgers reverted_ledger reverted l)

or_else-none : (o : Option Element) → or_else o none ≡ o
or_else-none none = refl
or_else-none (some e) = refl

-- One step of `classify`, for the results of its tests.
abbrev sorted :
    Bool → Bool → Bool → Element → List Element × List Element → List Element × List Element
sorted a created spent e p =
    if created && spent || not a then p else if spent then (p.0, e ∷ p.1) else (e ∷ p.0, p.1)

sorted_unspent :
    (a created spent : Bool) (k : ℕ) (e : Element) (p : List Element × List Element)
    → latest k (sorted a created spent e p).0
      ≡ or_else (latest k p.0) (
          if (a && not (created && spent)) && not spent && (e.state_element.id == k)
          then some e
          else none)
unfolding latest
sorted_unspent true true true k e p = rw (or_else-none (latest k p.0)) refl
sorted_unspent true true false k e p = refl
sorted_unspent true false true k e p = rw (or_else-none (latest k p.0)) refl
sorted_unspent true false false k e p = refl
sorted_unspent false true true k e p = rw (or_else-none (latest k p.0)) refl
sorted_unspent false true false k e p = rw (or_else-none (latest k p.0)) refl
sorted_unspent false false spent k e p = rw (or_else-none (latest k p.0)) refl

sorted_spent :
    (a created spent : Bool) (k : ℕ) (e : Element) (p : List Element × List Element)
    → latest k (sorted a created spent e p).1
      ≡ or_else (latest k p.1) (
          if (a && not (created && spent)) && spent && (e.state_element.id == k)
          then some e
          else none)
unfolding latest
sorted_spent true true true k e p = rw (or_else-none (latest k p.1)) refl
sorted_spent true true false k e p = rw (or_else-none (latest k p.1)) refl
sorted_spent true false true k e p = refl
sorted_spent true false false k e p = rw (or_else-none (latest k p.1)) refl
sorted_spent false true true k e p = rw (or_else-none (latest k p.1)) refl
sorted_spent false true false k e p = rw (or_else-none (latest k p.1)) refl
sorted_spent false false spent k e p = rw (or_else-none (latest k p.1)) refl

pub classify-left_unspent :
    (addr k : ℕ) (ds : List Diff) → latest k (classify addr ds).0 ≡ left_unspent addr k ds
unfolding classify latest left_unspent
classify-left_unspent addr k [] = refl
classify-left_unspent addr k (d ∷ ds) =
    rw (← classify-left_unspent addr k ds)
      (sorted_unspent (d.element.address == addr) d.created d.spent k d.element (classify addr ds))

pub classify-left_spent :
    (addr k : ℕ) (ds : List Diff) → latest k (classify addr ds).1 ≡ left_spent addr k ds
unfolding classify latest left_spent
classify-left_spent addr k [] = refl
classify-left_spent addr k (d ∷ ds) =
    rw (← classify-left_spent addr k ds)
      (sorted_spent (d.element.address == addr) d.created d.spent k d.element (classify addr ds))
