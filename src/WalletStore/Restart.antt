-- ===== src/WalletStore/Restart.antt =====
-- internal/walletutil/store.go: a store that is loaded after a restart.
use hostscore.Prelude.{
  ℕ, ◌+◌, ◌≡◌, refl, sym, ◌∙◌, ap, List, [], ◌∷◌, true, Option, none, some, ◌==◌, if◌then◌else◌,
  arith, ==_iff, Bool-cases, inl, inr, Option-cases,
}
use hostscore.Prelude.Assoc.{find, put, find-put, put-Distinct, Distinct}
use hostscore.WalletStore.{
  Coin, siacoin, siafund, Element, ChainIndex, Tables, active, DbStore, elements, set_elements,
  rows, Run, done, Db, called,
}
use hostscore.WalletStore.Saving.{
  begin, load_rows, load_table, load, tip_of, empty_store, new_db_store,
}
use hostscore.WalletStore.Mirror.{Ledger, Mirrors, by_coin}
use hostscore.WalletStore.Loops.{or_else}
use hostscore.WalletStore.Refinement.{DbLaws}
use hostscore.WalletStore.Commits.{Committed}
use mathlib.Core.Option
use mathlib.Core.Path.{subst}

-- A store with another map and another count of calls.
stored : Coin → List (ℕ × Element) → ℕ → DbStore → DbStore
stored c m n s = record (set_elements c m s) { calls = n }

module _ (c : Coin) (s : DbStore) where
  stored_same : s ≡ stored c (elements c s) s.calls s
  unfolding stored
  stored_same = by_coin (λ c. s ≡ stored c (elements c s) s.calls s) refl refl c

  stored_next : (m : List (ℕ × Element)) → set_elements c m (called s) ≡ stored c m (s.calls + 1) s
  unfolding stored
  stored_next m =
      by_coin (λ c. set_elements c m (called s) ≡ stored c m (s.calls + 1) s) refl refl c

  stored_twice :
      (m m' : List (ℕ × Element)) (n n' : ℕ) → stored c m' n' (stored c m n s) ≡ stored c m' n' s
  unfolding stored
  stored_twice m m' n n' =
      by_coin (λ c. stored c m' n' (stored c m n s) ≡ stored c m' n' s) refl refl c

  elements-called : elements c (called s) ≡ elements c s
  elements-called = by_coin (λ c. elements c (called s) ≡ elements c s) refl refl c

  stored-called : (m : List (ℕ × Element)) (n : ℕ) → stored c m n (called s) ≡ stored c m n s
  unfolding stored
  stored-called m n = by_coin (λ c. stored c m n (called s) ≡ stored c m n s) refl refl c

  elements-stored : (m : List (ℕ × Element)) (n : ℕ) → elements c (stored c m n s) ≡ m
  unfolding stored
  elements-stored m n = by_coin (λ c. elements c (stored c m n s) ≡ m) refl refl c

or_else-empty : (o : Option Element) (k : ℕ) → or_else o (find k []) ≡ o
unfolding find
or_else-empty none k = refl
or_else-empty (some e) k = refl

==_refl : (k : ℕ) → (k == k) ≡ true
==_refl k = ground arith

decoded_head :
    (f : Element → List ℕ) (o : Option Element) (b : List ℕ)
    → some b ≡ Option.map f o
    → (e : Element) × (o ≡ some e) × (b ≡ f e)
decoded_head f none b h = cc
decoded_head f (some e) b h = (e, refl, cc)

rest_rows :
    (f : Element → List ℕ) (i : ℕ) (b : List ℕ) (r : List (ℕ × List ℕ)) (v : ℕ → Option Element)
    → find i r ≡ none
    → ((k : ℕ) → find k ((i, b) ∷ r) ≡ Option.map f (v k))
    → (k : ℕ) → find k r ≡ Option.map f (if i == k then none else v k)
unfolding find
rest_rows f i b r v new e k = elim (Bool-cases (i == k)) [
  | inl same ↦ rw same (subst (λ j. find j r ≡ none) ((==_iff i k).0 same) new)
  | inr other ↦ let at_k : find k r ≡ Option.map f (v k) = rw other at (e k) in rw other at_k
]

-- A value that is read first, then the others.
read_first :
    (i k : ℕ) (x : Element) (v : ℕ → Option Element) (m : List (ℕ × Element))
    → v i ≡ some x
    → or_else (if i == k then none else v k) (find k (put i x m)) ≡ or_else (v k) (find k m)
read_first i k x v m h = elim (Bool-cases (i == k)) [
  | inl same ↦
      let there : v k ≡ some x = subst (λ j. v j ≡ some x) ((==_iff i k).0 same) h in
      rw (find-put i x m k, same, there) refl
  | inr other ↦ rw (find-put i x m k, other) refl
]

reloaded :
    {encode : Element → List ℕ} {m m' : List (ℕ × Element)} {r : List (ℕ × List ℕ)}
    {v : ℕ → Option Element}
    → Mirrors encode m r v
    → Distinct m'
    → ((k : ℕ) → find k m' ≡ v k)
    → Mirrors encode m' r v
reloaded n d reads = record {
  in_memory = reads;
  in_table = n.in_table;
  keyed = n.keyed;
  distinct = d;
  distinct_rows = n.distinct_rows;
}

module _ {db : Db} (laws : DbLaws db) (ok : (n : ℕ) → db.answer n ≡ true) where
  load_row :
      (c : Coin) (i : ℕ) (b : List ℕ) (r : List (ℕ × List ℕ)) (next : DbStore → Run) (s : DbStore)
      (x : Element)
      → b ≡ db.encode c x
      → load_rows db c ((i, b) ∷ r) next s
        ≡ load_rows db c r next (stored c (put i x (elements c s)) (s.calls + 1) s)
  unfolding load_rows
  load_row c i b r next s x coded =
      let decoded : db.decode c b ≡ some x = rw coded (laws.decode_encode c x) in
      let same = stored_next c s (put i x (elements c s)) in
      rw (ok s.calls, decoded, ← same, load_rows) refl

  -- Rows that encode a map are read into memory.
  load_rows-reads :
      (c : Coin) (r : List (ℕ × List ℕ)) (v : ℕ → Option Element) (next : DbStore → Run)
      (s : DbStore)
      → Distinct r
      → Distinct (elements c s)
      → ((k : ℕ) → find k r ≡ Option.map (db.encode c) (v k))
      → (m : List (ℕ × Element)) × (n : ℕ) × (load_rows db c r next s ≡ next (stored c m n s))
        × Distinct m
        × ((k : ℕ) → find k m ≡ or_else (v k) (find k (elements c s)))
  unfolding load_rows find
  load_rows-reads c [] v next s d dm e =
      let none_there : (k : ℕ) → v k ≡ none = λ k. elim (Option-cases (v k)) [
        | inl h ↦ h
        | inr (x, h) ↦ let clash : none ≡ some (db.encode c x) = rw h at (e k) in cc
      ] in
      (elements c s, s.calls, ap next (stored_same c s), dm, λ k. rw (none_there k) refl)
  load_rows-reads c ((i, b) ∷ r) v next s (new, d) dm e =
      let (x, there, coded) =
        decoded_head (db.encode c) (v i) b
          (subst (λ t. t ≡ Option.map (db.encode c) (v i)) (rw (==_refl i) refl) (e i)) in
      let m = put i x (elements c s) in
      let s₁ = stored c m (s.calls + 1) s in
      let back = elements-stored c s m (s.calls + 1) in
      let v' : ℕ → Option Element = λ k. if i == k then none else v k in
      let (m', n, run, dm', reads) =
        load_rows-reads c r v' next s₁ d (rw back (put-Distinct i x (elements c s) dm))
          (rest_rows (db.encode c) i b r v new e) in
      let step : load_rows db c ((i, b) ∷ r) next s ≡ load_rows db c r next s₁ =
        load_row c i b r next s x coded in
      (
        m',
        n,
        step ∙ run ∙ ap next (stored_twice c s m m' (s.calls + 1) n),
        dm',
        λ k.
            reads k
            ∙ ap (λ l. or_else (v' k) (find k l)) back
            ∙ read_first i k x v (elements c s) there,
      )

  -- One table.
  load_table-reads :
      (c : Coin) (v : ℕ → Option Element) (next : DbStore → Run) (s : DbStore)
      → Distinct (rows c s.saved)
      → elements c s ≡ []
      → ((k : ℕ) → find k (rows c s.saved) ≡ Option.map (db.encode c) (v k))
      → (m : List (ℕ × Element)) × (n : ℕ) × (load_table db c next s ≡ next (stored c m n s))
        × Distinct m
        × ((k : ℕ) → find k m ≡ v k)
  unfolding load_table
  load_table-reads c v next s d empty e =
      let empty' : elements c (called s) ≡ [] = elements-called c s ∙ empty in
      let (m, n, run, dm, reads) =
        load_rows-reads c (db.order_rows (rows c s.saved)) v next (called s)
          (laws.order_rows-Distinct (rows c s.saved) d) (subst Distinct (sym empty') tt)
          (λ k. laws.find-order_rows k (rows c s.saved) d ∙ e k) in
      (
        m,
        n,
        rw (ok s.calls, load_table) (run ∙ ap next (stored-called c s m n)),
        dm,
        λ k. reads k ∙ ap (λ l. or_else (v k) (find k l)) empty' ∙ or_else-empty (v k) k,
      )

  -- The store once the row of wt_tip is read.
  abbrev with_tip : ℕ → List ℕ → Tables → ChainIndex → DbStore
  unfolding empty_store
  with_tip addr network t index = record (called (empty_store addr network t)) { tip = index }

  load_tip :
      (addr : ℕ) (network : List ℕ) (t : Tables) (index : ChainIndex)
      → t.wt_tip ≡ some index
      → new_db_store db addr network t
        ≡ load_table db siacoin (load_table db siafund (begin db)) (with_tip addr network t index)
  unfolding new_db_store load empty_store
  load_tip addr network t index h =
      rw (ok 0, new_db_store, load, empty_store)
        (ap
          (λ o.
            load_table db siacoin (load_table db siafund (begin db))
              (with_tip addr network t (tip_of o)))
          h)

  -- A store that loads the tables which another store of the wallet has committed holds the same
  -- ledger, under the conditions that every call of the database succeeds and that the encoders of
  -- elements are decoded by their decoders.
  pub new_db_store-Loads :
      (l : Ledger) (s : DbStore)
      → Committed db l s
      → (s' : DbStore) × (new_db_store db l.addr l.network s.saved ≡ done s') × Committed db l s'
  unfolding new_db_store load empty_store begin stored
  new_db_store-Loads l s (h, same, tip) =
      let n : (c : Coin) → Mirrors (db.encode c) (elements c s) (rows c s.saved) (l.outputs c) =
        subst (λ t. (c : Coin) → Mirrors (db.encode c) (elements c s) (rows c t) (l.outputs c)) same
          h.mirrors in
      let s₁ : DbStore = with_tip l.addr l.network s.saved l.tip in
      let (m₁, n₁, run₁, d₁, reads₁) =
        load_table-reads siacoin (l.outputs siacoin) (load_table db siafund (begin db)) s₁
          (n siacoin).distinct_rows refl (n siacoin).in_table in
      let s₂ : DbStore = stored siacoin m₁ n₁ s₁ in
      let (m₂, n₂, run₂, d₂, reads₂) =
        load_table-reads siafund (l.outputs siafund) (begin db) s₂ (n siafund).distinct_rows refl
          (n siafund).in_table in
      let s₃ : DbStore = stored siafund m₂ n₂ s₂ in
      let begun : begin db s₃ ≡ done (record (called s₃) { tx = active s₃.saved }) =
        rw (ok n₂, begin) refl in
      (
        record (called s₃) { tx = active s₃.saved },
        load_tip l.addr l.network s.saved l.tip tip ∙ run₁ ∙ run₂ ∙ begun,
        (
          record {
            tables = s.saved;
            running = refl;
            mirrors = by_coin _ (reloaded (n siacoin) d₁ reads₁) (reloaded (n siafund) d₂ reads₂);
            same_tip = refl;
            same_addr = refl;
            same_network = refl;
          },
          refl,
          tip,
        ),
      )
