-- ===== src/WalletStore/Loops.antt =====
-- internal/walletutil/store.go: what the loops over elements do to the outputs that a store holds.
use hostscore.Prelude.{
  ℕ, ◌≡◌, refl, List, [], ◌∷◌, true, Option, none, some, ◌==◌, if◌then◌else◌, arith, ==_iff,
  Bool-cases, inl, inr,
}
use hostscore.Prelude.Assoc.{find, Distinct}
use hostscore.WalletStore.{
  Coin, siacoin, siafund, Element, StateElement, DbStore, Run, done, ◌>>=◌, Db, add_element,
  remove_element, add_elements, remove_elements,
}
use hostscore.WalletStore.Blocks.{with_proof, update_proof, update_proofs}
use hostscore.WalletStore.Mirror.{
  same_coin, Outputs, Ledger, set_output, Holds, Ends, bind-Ends, add_element-Holds,
  remove_element-Holds, update_proof-Holds,
}
use mathlib.Core.Path.{subst, fun_ext}

abbrev pub or_else : Option Element → Option Element → Option Element
or_else (some e) o = some e
or_else none o = o

-- The last element of a list with an id.
unfoldable pub latest : ℕ → List Element → Option Element
latest k [] = none
latest k (e ∷ es) = or_else (latest k es) (if e.state_element.id == k then some e else none)

abbrev pub dropped : Option Element → Option Element → Option Element
dropped (some e) o = none
dropped none o = o

-- The outputs of one coin, changed by id.
abbrev pub alter : Coin → (ℕ → Option Element → Option Element) → Outputs → Outputs
alter c f v c' j = if same_coin c c' then f j (v c' j) else v c' j

alter_id :
    (c : Coin) (f : ℕ → Option Element → Option Element) (v : Outputs)
    → ((j : ℕ) (o : Option Element) → f j o ≡ o)
    → v ≡ alter c f v
alter_id c f v h = fun_ext (λ c'. fun_ext (λ j. elim (Bool-cases (same_coin c c')) [
  | inl same ↦ rw (same, h j (v c' j)) refl
  | inr other ↦ rw other refl
]))

-- A change of one output, then of all.
alter_step :
    (c : Coin) (k : ℕ) (o : Option Element) (f g : ℕ → Option Element → Option Element)
    (v : Outputs)
    → ((j : ℕ) (x : Option Element) → f j (if k == j then o else x) ≡ g j x)
    → alter c f (set_output c k o v) ≡ alter c g v
unfolding set_output
alter_step c k o f g v h = fun_ext (λ c'. fun_ext (λ j. elim (Bool-cases (same_coin c c')) [
  | inl same ↦ rw same (h j (v c' j))
  | inr other ↦ rw other refl
]))

same_coin_refl : (c : Coin) → same_coin c c ≡ true
same_coin_refl siacoin = refl
same_coin_refl siafund = refl

-- One entry of a map that is visited in a loop over its entries.
abbrev pub visited :
    (StateElement → StateElement) → Option Element → Option Element → Option Element
visited f none o = o
visited f (some e) o = some (with_proof f e)

module _ (db : Db) where
  abbrev pub Alters : Coin → (ℕ → Option Element → Option Element) → Ledger → DbStore → Run → Type 0
  Alters c f l s r = Ends db s.calls (Holds db (record l { outputs = alter c f l.outputs })) r

  pub done-Ends : (P : DbStore → Type 0) (s : DbStore) → P s → Ends db s.calls P (done s)
  done-Ends P s p = (p, omega arith, λ n after before. absurd (omega arith))

  done-Alters :
      (c : Coin) (f : ℕ → Option Element → Option Element) (l : Ledger) (s : DbStore)
      → ((j : ℕ) (o : Option Element) → f j o ≡ o)
      → Holds db l s
      → Alters c f l s (done s)
  done-Alters c f l s e h =
      done-Ends (Holds db (record l { outputs = alter c f l.outputs })) s
        (subst (λ o. Holds db (record l { outputs = o }) s) (alter_id c f l.outputs e) h)

  -- One round of a loop, and the rest.
  step-Alters :
      (c : Coin) (k : ℕ) (o : Option Element) (f g : ℕ → Option Element → Option Element)
      (l : Ledger) (s : DbStore) (r : Run) (next : DbStore → Run)
      → ((j : ℕ) (x : Option Element) → f j (if k == j then o else x) ≡ g j x)
      → Ends db s.calls (Holds db (record l { outputs = set_output c k o l.outputs })) r
      → ((s' : DbStore)
          → Holds db (record l { outputs = set_output c k o l.outputs }) s'
          → Alters c f (record l { outputs = set_output c k o l.outputs }) s' (next s'))
      → Alters c g l s (r >>= next)
  step-Alters c k o f g l s r next e h rest =
      subst (λ v. Ends db s.calls (Holds db (record l { outputs = v })) (r >>= next))
        (alter_step c k o f g l.outputs e) (bind-Ends db s.calls _ _ r next h rest)

  pub add_elements-Holds :
      (c : Coin) (es : List Element) (l : Ledger) (s : DbStore)
      → Holds db l s
      → Alters c (λ j. or_else (latest j es)) l s (add_elements db c es s)
  unfolding add_elements latest
  add_elements-Holds c [] l s h = done-Alters c _ l s (λ j o. refl) h
  add_elements-Holds c (e ∷ es) l s h =
      step-Alters c e.state_element.id (some e) (λ j. or_else (latest j es))
        (λ j. or_else (latest j (e ∷ es))) l s (add_element db c e s) (add_elements db c es)
        (λ j x. ground arith) (add_element-Holds db l s h c e)
        (add_elements-Holds c es
          (record l { outputs = set_output c e.state_element.id (some e) l.outputs }))

  pub remove_elements-Holds :
      (c : Coin) (es : List Element) (l : Ledger) (s : DbStore)
      → Holds db l s
      → Alters c (λ j. dropped (latest j es)) l s (remove_elements db c es s)
  unfolding remove_elements latest
  remove_elements-Holds c [] l s h = done-Alters c _ l s (λ j o. refl) h
  remove_elements-Holds c (e ∷ es) l s h =
      step-Alters c e.state_element.id none (λ j. dropped (latest j es))
        (λ j. dropped (latest j (e ∷ es))) l s (remove_element db c e s) (remove_elements db c es)
        (λ j x. ground arith) (remove_element-Holds db l s h c e)
        (remove_elements-Holds c es
          (record l { outputs = set_output c e.state_element.id none l.outputs }))

  -- The entries of a list are outputs, under the ids of their elements.
  abbrev pub Entries : Coin → List (ℕ × Element) → Ledger → Type 0
  Entries c es l =
      (k : ℕ) (e : Element)
      → find k es ≡ some e
      → (e.state_element.id ≡ k) × (e₀ : Element) × (l.outputs c k ≡ some e₀)

  visited_step :
      (f : StateElement → StateElement) (k : ℕ) (e : Element) (es : List (ℕ × Element))
      → find k es ≡ none
      → (j : ℕ) (x : Option Element)
      → visited f (find j es) (if k == j then some (with_proof f e) else x)
        ≡ visited f (find j ((k, e) ∷ es)) x
  unfolding find
  visited_step f k e es new j x = elim (Bool-cases (k == j)) [
    | inl same ↦
        let new' : find j es ≡ none = subst (λ i. find i es ≡ none) ((==_iff k j).0 same) new in
        rw (same, new') refl
    | inr other ↦ rw other refl
  ]

  rest-Entries :
      (c : Coin) (f : StateElement → StateElement) (k : ℕ) (e : Element) (es : List (ℕ × Element))
      (l : Ledger)
      → find k es ≡ none
      → Entries c ((k, e) ∷ es) l
      → Entries c es (record l { outputs = set_output c k (some (with_proof f e)) l.outputs })
  unfolding find set_output
  rest-Entries c f k e es l new entries j x at_j = elim (Bool-cases (k == j)) [
    | inl same ↦
        let new' : find j es ≡ none = subst (λ i. find i es ≡ none) ((==_iff k j).0 same) new in
        let no_entry : none ≡ some x = rw new' at at_j in cc
    | inr other ↦
        let (key, e₀, there) = entries j x (rw other at_j) in
        (key, e₀, rw (same_coin_refl c, other) there)
  ]

  pub update_proofs-Holds :
      (c : Coin) (f : StateElement → StateElement) (es : List (ℕ × Element)) (l : Ledger)
      (s : DbStore)
      → ((x : StateElement) → (f x).id ≡ x.id)
      → Distinct es
      → Entries c es l
      → Holds db l s
      → Alters c (λ j. visited f (find j es)) l s (update_proofs db c f es s)
  unfolding update_proofs find
  update_proofs-Holds c f [] l s same d entries h = done-Alters c _ l s (λ j o. refl) h
  update_proofs-Holds c f ((k, e) ∷ es) l s same d entries h =
      let (key, e₀, there) = entries k e (ground arith) in
      step-Alters c k (some (with_proof f e)) (λ j. visited f (find j es))
        (λ j. visited f (find j ((k, e) ∷ es))) l s (update_proof db c f k e s)
        (update_proofs db c f es) (λ j x. visited_step f k e es d.0 j x)
        (update_proof-Holds db l s h c f k e e₀ same key there)
        (λ s'.
          update_proofs-Holds c f es
            (record l { outputs = set_output c k (some (with_proof f e)) l.outputs }) s' same d.1
            (rest-Entries c f k e es l d.0 entries))
