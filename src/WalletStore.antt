-- ===== src/WalletStore.antt =====
-- internal/walletutil/store.go: the wallet's outputs on one network, in memory and in the database. An
-- id, an address and a block id are the numbers that their bytes encode; a time is a number of
-- nanoseconds. The rows of the other network, which every statement leaves alone, have no model.
pub mod Blocks
pub mod Saving
pub mod Mirror
pub mod Loops
pub mod Spec
pub mod Refinement
pub mod Commits
pub mod Restart
pub mod Undo
mod Tests
use hostscore.Prelude.{
  ℕ, ◌+◌, ◌-◌, List, [], ◌∷◌, ◌++◌, map, Bool, true, false, ◌&&◌, ◌||◌, not, Option, none, some,
  ltb, ◌==◌, if◌then◌else◌, str_eq,
}
use hostscore.Prelude.Assoc.{find, put, delete}

-- Siacoins and siafunds: the source has each operation on elements twice.
pub data Coin : Type 0 where
  siacoin : Coin
  siafund : Coin

pub record StateElement : Type 0 where
  pub id : ℕ
  pub leaf_index : ℕ
  pub merkle_proof : List ℕ

-- A types.SiacoinElement, whose `maturity` is MaturityHeight, or a types.SiafundElement, whose
-- `maturity` is ClaimStart.
pub record Element : Type 0 where
  pub state_element : StateElement
  pub value : ℕ
  pub address : ℕ
  pub maturity : ℕ

pub record ChainIndex : Type 0 where
  pub height : ℕ
  pub id : ℕ

-- The rows of wt_sces, wt_sfes and wt_tip: an encoded element is a list of bytes.
pub record Tables : Type 0 where
  pub wt_sces : List (ℕ × List ℕ)
  pub wt_sfes : List (ℕ × List ℕ)
  pub wt_tip : Option ChainIndex

-- The field `tx`: nil, a transaction that has ended, or one in which the tables read as given.
pub data Tx : Type 0 where
  nil : Tx
  ended : Tx
  active : Tables → Tx

-- `saved` are the tables that are committed, and `calls` counts the calls of the database.
pub record DbStore : Type 0 where
  pub tip : ChainIndex
  pub addr : ℕ
  pub sces : List (ℕ × Element)
  pub sfes : List (ℕ × Element)
  pub tx : Tx
  pub network : List ℕ
  pub last_committed : ℕ
  pub saved : Tables
  pub calls : ℕ

abbrev pub elements : Coin → DbStore → List (ℕ × Element)
elements siacoin s = s.sces
elements siafund s = s.sfes

abbrev pub set_elements : Coin → List (ℕ × Element) → DbStore → DbStore
set_elements siacoin m s = record s { sces = m }
set_elements siafund m s = record s { sfes = m }

abbrev pub rows : Coin → Tables → List (ℕ × List ℕ)
rows siacoin t = t.wt_sces
rows siafund t = t.wt_sfes

abbrev pub set_rows : Coin → List (ℕ × List ℕ) → Tables → Tables
set_rows siacoin m t = record t { wt_sces = m }
set_rows siafund m t = record t { wt_sfes = m }

pub data StoreError : Type 0 where
  no_transaction : StoreError
  tip_not_loaded : StoreError
  tip_not_updated : StoreError
  not_committed : StoreError
  not_begun : StoreError
  not_queried : Coin → StoreError
  not_scanned : Coin → StoreError
  not_added : Coin → StoreError
  not_removed : Coin → StoreError
  proof_not_updated : Coin → StoreError
  not_reverted : ChainIndex → StoreError → StoreError
  not_applied : ChainIndex → StoreError → StoreError

-- How a function ends: by a panic, with an error, or well; the store keeps what was done before an
-- error.
pub data Run : Type 0 where
  panic : Run
  fail : StoreError → DbStore → Run
  done : DbStore → Run

infixl 5 ◌>>=◌
unfoldable pub ◌>>=◌ : Run → (DbStore → Run) → Run
panic >>= f = panic
fail e s >>= f = fail e s
done s >>= f = f s

-- What `fmt.Errorf` adds to an error.
unfoldable pub in_context : (StoreError → StoreError) → Run → Run
in_context c panic = panic
in_context c (fail e s) = fail (c e) s
in_context c (done s) = done s

abbrev pub called : DbStore → DbStore
called s = record s { calls = s.calls + 1 }

-- The database and the encoders of go.sia.tech: `answer` says which calls succeed, in their order.
pub record Db : Type 0 where
  pub answer : ℕ → Bool
  pub encode : Coin → Element → List ℕ
  pub decode : Coin → List ℕ → Option Element
  -- The order in which `range` visits a map, and a SELECT the rows.
  pub order : List (ℕ × Element) → List (ℕ × Element)
  pub order_rows : List (ℕ × List ℕ) → List (ℕ × List ℕ)

-- `s.tx.Exec` with a statement that changes the tables.
unfoldable pub exec : Db → StoreError → (Tables → Tables) → DbStore → Run
exec db e f s = elim s.tx [
  | nil ↦ panic
  | ended ↦ fail e s
  | active t ↦
      (if db.answer s.calls
        then done (record (called s) { tx = active (f t) })
        else fail e (called s))
]

unfoldable pub add_element : Db → Coin → Element → DbStore → Run
unfolding exec
add_element db c e s =
    let id = e.state_element.id in
    exec db (not_added c) (λ t. set_rows c (put id (db.encode c e) (rows c t)) t)
      (set_elements c (put id e (elements c s)) s)

unfoldable pub remove_element : Db → Coin → Element → DbStore → Run
unfolding exec
remove_element db c e s =
    let id = e.state_element.id in
    exec db (not_removed c) (λ t. set_rows c (delete id (rows c t)) t)
      (set_elements c (delete id (elements c s)) s)

unfoldable pub add_elements : Db → Coin → List Element → DbStore → Run
unfolding add_element
add_elements db c [] s = done s
add_elements db c (e ∷ es) s = add_element db c e s >>= add_elements db c es

unfoldable pub remove_elements : Db → Coin → List Element → DbStore → Run
unfolding remove_element
remove_elements db c [] s = done s
remove_elements db c (e ∷ es) s = remove_element db c e s >>= remove_elements db c es
