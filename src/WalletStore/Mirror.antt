-- ===== src/WalletStore/Mirror.antt =====
-- internal/walletutil/store.go: what the store holds, in memory and in the tables.
use hostscore.Prelude.{
  ℕ, ◌≤◌, ◌<◌, ◌+◌, ◌≡◌, refl, List, Bool, true, false, ◌&&◌, Option, none, some, ◌==◌,
  if◌then◌else◌, arith, ltb, ltb→lt, ltb→le, ==_iff, ◌∙◌, ap, Bool-cases, inl, inr,
}
use hostscore.Prelude.Assoc.{
  find, put, delete, Distinct, find-put, find-delete, put-Distinct, delete-Distinct,
}
use hostscore.WalletStore.{
  Coin, siacoin, siafund, Element, StateElement, ChainIndex, Tables, active, DbStore, elements,
  set_elements, rows, set_rows, StoreError, Run, panic, fail, done, ◌>>=◌, in_context, called, Db,
  exec, add_element, remove_element,
}
use mathlib.Core.Option
use hostscore.WalletStore.Blocks.{update_row, update_proof, with_proof}
use mathlib.Core.Path.{subst}

abbrev pub same_coin : Coin → Coin → Bool
same_coin siacoin siacoin = true
same_coin siacoin siafund = false
same_coin siafund siacoin = false
same_coin siafund siafund = true

-- The unspent outputs by coin and id, and what else the store is to hold.
abbrev pub Outputs : Type 0
Outputs = Coin → ℕ → Option Element

pub record Ledger : Type 0 where
  pub outputs : Outputs
  pub tip : ChainIndex
  pub addr : ℕ
  pub network : List ℕ

unfoldable pub set_output : Coin → ℕ → Option Element → Outputs → Outputs
set_output c k o v c' j = if same_coin c c' && (k == j) then o else v c' j

abbrev pub IsKeyed : ℕ → Option Element → Type 0
IsKeyed k none = Unit {0}
IsKeyed k (some e) = e.state_element.id ≡ k

-- A map in memory has the given entries, each under the id of its element, and the table has their
-- encodings.
pub record Mirrors (encode : Element → List ℕ) (m : List (ℕ × Element)) (r : List (ℕ × List ℕ))
    (v : ℕ → Option Element) : Type 0 where
  pub in_memory : (k : ℕ) → find k m ≡ v k
  pub in_table : (k : ℕ) → find k r ≡ Option.map encode (v k)
  pub keyed : (k : ℕ) → IsKeyed k (v k)
  pub distinct : Distinct m
  pub distinct_rows : Distinct r

-- The store holds a ledger, in memory and in the tables of the running transaction.
pub record Holds (db : Db) (l : Ledger) (s : DbStore) : Type 0 where
  pub tables : Tables
  pub running : s.tx ≡ active tables
  pub mirrors : (c : Coin) → Mirrors (db.encode c) (elements c s) (rows c tables) (l.outputs c)
  pub same_tip : s.tip ≡ l.tip
  pub same_addr : s.addr ≡ l.addr
  pub same_network : s.network ≡ l.network

module _ (db : Db) where
  -- From call number `from` on: a run that ends well has had every call of the database succeed and
  -- leaves a store that holds the ledger, one that ends with an error has had a call fail, and no run
  -- panics.
  abbrev pub Ends : ℕ → (DbStore → Type 0) → Run → Type 0
  Ends from P panic = ⊥
  Ends from P (fail e s) = (n : ℕ) × (from ≤ n) × (n < s.calls) × (db.answer n ≡ false)
  Ends from P (done s) =
      P s × (from ≤ s.calls) × ((n : ℕ) → from ≤ n → n < s.calls → db.answer n ≡ true)

  Ends-later :
      (from mid : ℕ) (P : DbStore → Type 0) (r : Run)
      → from ≤ mid
      → ((n : ℕ) → from ≤ n → n < mid → db.answer n ≡ true)
      → Ends mid P r
      → Ends from P r
  Ends-later from mid P panic le ok h = elim h [ ]
  Ends-later from mid P (fail e s) le ok (n, after, before, bad) = (n, omega arith, before, bad)
  Ends-later from mid P (done s) le ok (p, more, all) = (
    p,
    omega arith,
    λ n after before. elim (Bool-cases (ltb n mid)) [
      | inl old ↦ ok n after (ltb→lt n mid old)
      | inr new ↦ all n (ltb→le n mid new) before
    ],
  )

  pub bind-Ends :
      (from : ℕ) (P Q : DbStore → Type 0) (r : Run) (f : DbStore → Run)
      → Ends from P r
      → ((s : DbStore) → P s → Ends s.calls Q (f s))
      → Ends from Q (r >>= f)
  unfolding ◌>>=◌
  bind-Ends from P Q panic f h k = h
  bind-Ends from P Q (fail e s) f h k = h
  bind-Ends from P Q (done s) f (p, more, all) k = Ends-later from s.calls Q (f s) more all (k s p)

  pub in_context-Ends :
      (from : ℕ) (P : DbStore → Type 0) (c : StoreError → StoreError) (r : Run)
      → Ends from P r
      → Ends from P (in_context c r)
  unfolding in_context
  in_context-Ends from P c panic h = h
  in_context-Ends from P c (fail e s) h = h
  in_context-Ends from P c (done s) h = h

  pub Ends-map :
      (from : ℕ) (P Q : DbStore → Type 0) (r : Run)
      → ((s : DbStore) → P s → Q s)
      → Ends from P r
      → Ends from Q r
  Ends-map from P Q panic f h = h
  Ends-map from P Q (fail e s) f h = h
  Ends-map from P Q (done s) f h = (f s h.0, h.1, h.2)

  -- A test of the next answer.
  pub answer-Ends :
      (P : DbStore → Type 0) (e : StoreError) (s s₁ s₂ : DbStore)
      → s₁.calls ≡ s.calls + 1
      → s₂.calls ≡ s.calls + 1
      → P s₁
      → Ends s.calls P (if db.answer s.calls then done s₁ else fail e s₂)
  answer-Ends P e s s₁ s₂ c₁ c₂ p = elim (Bool-cases (db.answer s.calls)) [
    | inl ok ↦ rw ok (
      p,
      omega arith,
      λ n after before.
          let same : s.calls ≡ n = omega arith in subst (λ i. db.answer i ≡ true) same ok,
    )
    | inr bad ↦ rw bad (s.calls, omega arith, omega arith, bad)
  ]

  -- One statement.
  pub exec-Ends :
      (P : DbStore → Type 0) (e : StoreError) (f : Tables → Tables) (s : DbStore) (t : Tables)
      → s.tx ≡ active t
      → P (record (called s) { tx = active (f t) })
      → Ends s.calls P (exec db e f s)
  unfolding exec
  exec-Ends P e f s t h p =
      rw (h, exec)
        (answer-Ends P e s (record (called s) { tx = active (f t) }) (called s) refl refl p)

patched :
    {A : Type 0} (b : Bool) (o x y : Option A) (z : Option A)
    → z ≡ (if b then o else x)
    → x ≡ y
    → z ≡ (if b then o else y)
patched b o x y z h e = rw (← e) h

patched_row :
    (f : Element → List ℕ) (b : Bool) (o y : Option Element) (x z : Option (List ℕ))
    → z ≡ (if b then Option.map f o else x)
    → x ≡ Option.map f y
    → z ≡ Option.map f (if b then o else y)
patched_row f true o y x z h e = h
patched_row f false o y x z h e = h ∙ e

patched_key :
    (k j : ℕ) (o y : Option Element)
    → IsKeyed k o
    → IsKeyed j y
    → IsKeyed j (if k == j then o else y)
patched_key k j o y ho hy = elim (Bool-cases (k == j)) [
  | inl same ↦ rw same (subst (λ i. IsKeyed i o) ((==_iff k j).0 same) ho)
  | inr other ↦ rw other hy
]

changed-Mirrors :
    (encode : Element → List ℕ) (m m' : List (ℕ × Element)) (r r' : List (ℕ × List ℕ))
    (v : ℕ → Option Element) (k : ℕ) (o : Option Element)
    → Mirrors encode m r v
    → IsKeyed k o
    → Distinct m'
    → Distinct r'
    → ((j : ℕ) → find j m' ≡ (if k == j then o else find j m))
    → ((j : ℕ) → find j r' ≡ (if k == j then Option.map encode o else find j r))
    → Mirrors encode m' r' (λ j. if k == j then o else v j)
changed-Mirrors encode m m' r r' v k o h keyed dm dr hm hr = record {
  in_memory = λ j. patched (k == j) o _ _ _ (hm j) (h.in_memory j);
  in_table = λ j. patched_row encode (k == j) o _ _ _ (hr j) (h.in_table j);
  keyed = λ j. patched_key k j o _ keyed (h.keyed j);
  distinct = dm;
  distinct_rows = dr;
}

pub by_coin : (P : Coin → Type 0) → P siacoin → P siafund → (c : Coin) → P c
by_coin P p q siacoin = p
by_coin P p q siafund = q

update_row_lem :
    (i k : ℕ) (b : List ℕ) (m : List (ℕ × List ℕ)) (b₀ : List ℕ)
    → i ≡ k
    → find k m ≡ some b₀
    → update_row i b m ≡ put k b m
unfolding update_row
update_row_lem i k b m b₀ e h =
    let row : find i m ≡ some b₀ = rw e h in rw (row, update_row) (ap (λ n. put n b m) e)

-- A change of one entry in memory and of its row.
module _ (db : Db) (l : Ledger) (s : DbStore) (h : Holds db l s) where
  abbrev pub changed : Coin → List (ℕ × Element) → List (ℕ × List ℕ) → DbStore
  changed c m r = record (called (set_elements c m s)) { tx = active (set_rows c r h.tables) }

  pub changed-Holds :
      (c : Coin) (k : ℕ) (o : Option Element) (m : List (ℕ × Element)) (r : List (ℕ × List ℕ))
      → Mirrors (db.encode c) m r (λ j. if k == j then o else l.outputs c j)
      → Holds db (record l { outputs = set_output c k o l.outputs }) (changed c m r)
  unfolding set_output
  changed-Holds siacoin k o m r n = record {
    tables = set_rows siacoin r h.tables;
    running = refl;
    mirrors = by_coin _ n (h.mirrors siafund);
    same_tip = h.same_tip;
    same_addr = h.same_addr;
    same_network = h.same_network;
  }
  changed-Holds siafund k o m r n = record {
    tables = set_rows siafund r h.tables;
    running = refl;
    mirrors = by_coin _ (h.mirrors siacoin) n;
    same_tip = h.same_tip;
    same_addr = h.same_addr;
    same_network = h.same_network;
  }

  -- A statement that changes one row, after the same change in memory.
  exec-Holds :
      (e : StoreError) (c : Coin) (k : ℕ) (o : Option Element) (m : List (ℕ × Element))
      (f : List (ℕ × List ℕ) → List (ℕ × List ℕ))
      → Mirrors (db.encode c) m (f (rows c h.tables)) (λ j. if k == j then o else l.outputs c j)
      → Ends db s.calls
          (Holds db (record l { outputs = set_output c k o l.outputs }))
          (exec db e (λ t. set_rows c (f (rows c t)) t) (set_elements c m s))
  exec-Holds e siacoin k o m f n =
      exec-Ends db _ e _ (set_elements siacoin m s) h.tables h.running
        (changed-Holds siacoin k o m _ n)
  exec-Holds e siafund k o m f n =
      exec-Ends db _ e _ (set_elements siafund m s) h.tables h.running
        (changed-Holds siafund k o m _ n)

  pub add_element-Holds :
      (c : Coin) (e : Element)
      → let k = e.state_element.id in
        Ends db s.calls
          (Holds db (record l { outputs = set_output c k (some e) l.outputs }))
          (add_element db c e s)
  unfolding add_element
  add_element-Holds c e =
      let k = e.state_element.id in
      let n = h.mirrors c in
      exec-Holds _ c k (some e) _ (put k (db.encode c e)) (
        changed-Mirrors (db.encode c) _ _ _ _ _ k (some e) n refl (put-Distinct k e _ n.distinct)
          (put-Distinct k _ _ n.distinct_rows) (find-put k e _) (find-put k _ _))

  pub remove_element-Holds :
      (c : Coin) (e : Element)
      → let k = e.state_element.id in
        Ends db s.calls
          (Holds db (record l { outputs = set_output c k none l.outputs }))
          (remove_element db c e s)
  unfolding remove_element
  remove_element-Holds c e =
      let k = e.state_element.id in
      let n = h.mirrors c in
      exec-Holds _ c k none _ (delete k) (
        changed-Mirrors (db.encode c) _ _ _ _ _ k none n tt (delete-Distinct k _ n.distinct)
          (delete-Distinct k _ n.distinct_rows) (find-delete k _) (find-delete k _))

  pub update_proof-Holds :
      (c : Coin) (f : StateElement → StateElement) (k : ℕ) (e e₀ : Element)
      → ((x : StateElement) → (f x).id ≡ x.id)
      → e.state_element.id ≡ k
      → l.outputs c k ≡ some e₀
      → Ends db s.calls
          (Holds db (record l { outputs = set_output c k (some (with_proof f e)) l.outputs }))
          (update_proof db c f k e s)
  unfolding update_proof
  update_proof-Holds c f k e e₀ same key there =
      let n = h.mirrors c in
      let e' = with_proof f e in
      let row : find k (rows c h.tables) ≡ some (db.encode c e₀) = rw there at (n.in_table k) in
      let key' : e'.state_element.id ≡ k = same e.state_element ∙ key in
      exec-Holds _ c k (some e') _ (update_row e'.state_element.id (db.encode c e')) (
        rw (update_row_lem e'.state_element.id k (db.encode c e') (rows c h.tables) _ key' row) (
          changed-Mirrors (db.encode c) _ _ _ _ _ k (some e') n key'
            (put-Distinct k e' _ n.distinct) (put-Distinct k _ _ n.distinct_rows) (find-put k e' _)
            (find-put k _ _)))
