-- ===== src/WalletStore/Refinement.antt =====
-- internal/walletutil/store.go: the store does with a chain update what the specification says.
use hostscore.Prelude.{
  ℕ, ◌≡◌, refl, sym, ◌∙◌, ap, List, [], ◌∷◌, true, false, Option, none, some, ◌+◌, All, Bool-cases,
  inl, inr, str_eq,
}
use hostscore.Prelude.Assoc.{find, Distinct}
use hostscore.WalletStore.{
  Coin, siacoin, siafund, Element, StateElement, ChainIndex, DbStore, elements, Run, ◌>>=◌, Db,
  not_applied, not_reverted,
}
use hostscore.WalletStore.Blocks.{
  Diff, Update, with_proof, classify, update_proofs, refresh_proofs, change_elements,
  apply_chain_update, revert_chain_update, apply_all, revert_all,
}
use hostscore.WalletStore.Mirror.{
  by_coin, same_coin, Outputs, Ledger, Holds, Ends, bind-Ends, in_context-Ends, IsKeyed,
}
use hostscore.WalletStore.{add_elements, remove_elements}
use hostscore.WalletStore.Loops.{
  or_else, latest, dropped, alter, visited, Alters, done-Ends, add_elements-Holds,
  remove_elements-Holds, update_proofs-Holds, Entries,
}
use hostscore.WalletStore.Spec.{
  left_unspent, left_spent, turned, applied_ledger, reverted_ledger, applied_outputs,
  reverted_outputs, all_ledgers, classify-left_unspent, classify-left_spent,
}
use mathlib.Core.Option
use mathlib.Core.Path.{subst, fun_ext}

-- `range` visits each entry of a map once, and a SELECT each row; a row decodes to what was encoded.
pub record DbLaws (db : Db) : Type 0 where
  pub decode_encode : (c : Coin) (e : Element) → db.decode c (db.encode c e) ≡ some e
  pub find-order : (k : ℕ) (m : List (ℕ × Element)) → Distinct m → find k (db.order m) ≡ find k m
  pub order-Distinct : (m : List (ℕ × Element)) → Distinct m → Distinct (db.order m)
  pub find-order_rows :
      (k : ℕ) (m : List (ℕ × List ℕ)) → Distinct m → find k (db.order_rows m) ≡ find k m
  pub order_rows-Distinct : (m : List (ℕ × List ℕ)) → Distinct m → Distinct (db.order_rows m)

-- A proof moves, the id does not.
abbrev pub KeepsIds : Update → Type 0
KeepsIds u = (x : StateElement) → (u.update_element_proof x).id ≡ x.id

alter_at :
    (c c' : Coin) (f g : ℕ → Option Element → Option Element) (v : Outputs) (j : ℕ)
    → f j (v c j) ≡ g j (v c j)
    → alter c f v c' j ≡ alter c g v c' j
alter_at siacoin siacoin f g v j h = h
alter_at siacoin siafund f g v j h = refl
alter_at siafund siacoin f g v j h = refl
alter_at siafund siafund f g v j h = h

alter_twice :
    (c : Coin) (f g : ℕ → Option Element → Option Element) (v : Outputs)
    → alter c g (alter c f v) ≡ alter c (λ j o. g j (f j o)) v
alter_twice c f g v = fun_ext (λ c'. fun_ext (λ j. elim (Bool-cases (same_coin c c')) [
  | inl same ↦ rw same refl
  | inr other ↦ rw other refl
]))

visited_self :
    (f : StateElement → StateElement) (o : Option Element)
    → visited f o o ≡ Option.map (with_proof f) o
visited_self f none = refl
visited_self f (some e) = refl

turned_lem :
    (f : StateElement → StateElement) (came gone came' gone' o : Option Element)
    → came ≡ came'
    → gone ≡ gone'
    → Option.map (with_proof f) (dropped gone (or_else came o)) ≡ turned f came' gone' o
unfolding turned
turned_lem f came none came' gone' o c g = rw (c, ← g, turned) refl
turned_lem f came (some e) came' gone' o c g = rw (← g, turned) refl

classified_unspent :
    {a b : ℕ} → a ≡ b → (k : ℕ) (ds : List Diff) → latest k (classify a ds).0 ≡ left_unspent b k ds
classified_unspent {a} {b} e k ds =
    ap (λ x. latest k (classify x ds).0) e ∙ classify-left_unspent b k ds

classified_spent :
    {a b : ℕ} → a ≡ b → (k : ℕ) (ds : List Diff) → latest k (classify a ds).1 ≡ left_spent b k ds
classified_spent {a} {b} e k ds =
    ap (λ x. latest k (classify x ds).1) e ∙ classify-left_spent b k ds

module _ {db : Db} (laws : DbLaws db) where
  refresh_proofs-Holds :
      (c : Coin) (f : StateElement → StateElement) (l : Ledger) (s : DbStore)
      → ((x : StateElement) → (f x).id ≡ x.id)
      → Holds db l s
      → Alters db c (λ j o. Option.map (with_proof f) o) l s (refresh_proofs db c f s)
  unfolding refresh_proofs
  refresh_proofs-Holds c f l s same h =
      let m = elements c s in
      let n = h.mirrors c in
      let at : (j : ℕ) → find j (db.order m) ≡ l.outputs c j =
        λ j. laws.find-order j m n.distinct ∙ n.in_memory j in
      let entries : Entries db c (db.order m) l = λ k e in_order.
        let there : l.outputs c k ≡ some e = sym (at k) ∙ in_order in
        (subst (IsKeyed k) there (n.keyed k), e, there) in
      subst
        (λ v.
          Ends db s.calls (Holds db (record l { outputs = v }))
            (update_proofs db c f (db.order m) s))
        (fun_ext (λ c'. fun_ext (λ j.
          alter_at c c' (λ j. visited f (find j (db.order m))) (λ j o. Option.map (with_proof f) o)
            l.outputs j (rw (at j) (visited_self f (l.outputs c j))))))
        (update_proofs-Holds db c f (db.order m) l s same (laws.order-Distinct m n.distinct) entries
          h)

  change_elements-Holds :
      (c : Coin) (come go : List Element) (l : Ledger) (s : DbStore)
      → Holds db l s
      → Alters db c
          (λ j o. dropped (latest j go) (or_else (latest j come) o))
          l
          s
          (change_elements db c come go s)
  unfolding change_elements
  change_elements-Holds c come go l s h =
      subst
        (λ v.
          Ends db s.calls (Holds db (record l { outputs = v })) (change_elements db c come go s))
        (alter_twice c (λ j. or_else (latest j come)) (λ j. dropped (latest j go)) l.outputs)
        (bind-Ends db s.calls _ _ (add_elements db c come s) (remove_elements db c go)
          (add_elements-Holds db c come l s h)
          (remove_elements-Holds db c go
            (record l { outputs = alter c (λ j. or_else (latest j come)) l.outputs })))

  -- The four steps on elements that both directions share.
  abbrev turn_outputs :
      (Coin → List Element × List Element) → (StateElement → StateElement) → DbStore → Run
  turn_outputs p f s =
      change_elements db siacoin (p siacoin).0 (p siacoin).1 s
      >>= change_elements db siafund (p siafund).0 (p siafund).1
      >>= refresh_proofs db siacoin f
      >>= refresh_proofs db siafund f

  turn_outputs-Holds :
      (p : Coin → List Element × List Element) (f : StateElement → StateElement) (l : Ledger)
      (s : DbStore) (v : Outputs)
      → ((x : StateElement) → (f x).id ≡ x.id)
      → ((c : Coin) (j : ℕ)
          → Option.map
              (with_proof f)
              (dropped (latest j (p c).1) (or_else (latest j (p c).0) (l.outputs c j)))
            ≡ v c j)
      → Holds db l s
      → Ends db s.calls (Holds db (record l { outputs = v })) (turn_outputs p f s)
  turn_outputs-Holds p f l s v same e h =
      let go : (c : Coin) → Outputs → Outputs =
        λ c. alter c (λ j o. dropped (latest j (p c).1) (or_else (latest j (p c).0) o)) in
      let move : (c : Coin) → Outputs → Outputs =
        λ c. alter c (λ j o. Option.map (with_proof f) o) in
      let v₁ = go siacoin l.outputs in
      let v₂ = go siafund v₁ in
      let v₃ = move siacoin v₂ in
      subst (λ o. Ends db s.calls (Holds db (record l { outputs = o })) (turn_outputs p f s))
        (fun_ext
          (by_coin (λ c. move siafund v₃ c ≡ v c) (fun_ext (e siacoin)) (fun_ext (e siafund))))
        (bind-Ends db s.calls (Holds db (record l { outputs = v₃ }))
          (Holds db (record l { outputs = move siafund v₃ })) _ (refresh_proofs db siafund f)
          (bind-Ends db s.calls (Holds db (record l { outputs = v₂ })) _ _
            (refresh_proofs db siacoin f)
            (bind-Ends db s.calls (Holds db (record l { outputs = v₁ })) _ _ _
              (change_elements-Holds siacoin (p siacoin).0 (p siacoin).1 l s h)
              (change_elements-Holds siafund (p siafund).0 (p siafund).1
                (record l { outputs = v₁ })))
            (λ s'. refresh_proofs-Holds siacoin f (record l { outputs = v₂ }) s' same))
          (λ s'. refresh_proofs-Holds siafund f (record l { outputs = v₃ }) s' same))

  moved_tip :
      (index : ChainIndex) (l : Ledger) (s : DbStore)
      → Holds db l s
      → Holds db (record l { tip = index }) (record s { tip = index })
  moved_tip index l s h = record {
    tables = h.tables;
    running = h.running;
    mirrors = by_coin _ (h.mirrors siacoin) (h.mirrors siafund);
    same_tip = refl;
    same_addr = h.same_addr;
    same_network = h.same_network;
  }

  apply_chain_update-Holds :
      (u : Update) (l : Ledger) (s : DbStore)
      → KeepsIds u
      → Holds db l s
      → Ends db s.calls (Holds db (applied_ledger u l)) (apply_chain_update db u s)
  unfolding apply_chain_update applied_ledger applied_outputs
  apply_chain_update-Holds u l s same h = elim (Bool-cases (str_eq l.network u.network)) [
    | inr other ↦
        let other' : str_eq s.network u.network ≡ false = rw h.same_network other in
        rw (other', other, apply_chain_update, applied_ledger) (done-Ends db (Holds db l) s h)
    | inl own ↦
        let own' : str_eq s.network u.network ≡ true = rw h.same_network own in
        let after : Ledger = record l { outputs = applied_outputs u l.addr l.outputs } in
        rw (own', own, apply_chain_update, applied_ledger)
          (bind-Ends db s.calls (Holds db after) _
            (turn_outputs (λ c. classify s.addr (u.diffs c)) u.update_element_proof s) _
            (turn_outputs-Holds (λ c. classify s.addr (u.diffs c)) u.update_element_proof l s
              (applied_outputs u l.addr l.outputs) same
              (λ c j.
                turned_lem u.update_element_proof _ _ _ _ (l.outputs c j)
                  (classified_unspent h.same_addr j (u.diffs c))
                  (classified_spent h.same_addr j (u.diffs c)))
              h)
            (λ s' h'.
              done-Ends db (Holds db (record after { tip = u.index })) (record s' { tip = u.index })
                (moved_tip u.index after s' h')))
  ]

  revert_chain_update-Holds :
      (u : Update) (l : Ledger) (s : DbStore)
      → KeepsIds u
      → Holds db l s
      → Ends db s.calls (Holds db (reverted_ledger u l)) (revert_chain_update db u s)
  unfolding revert_chain_update reverted_ledger reverted_outputs
  revert_chain_update-Holds u l s same h = elim (Bool-cases (str_eq l.network u.network)) [
    | inr other ↦
        let other' : str_eq s.network u.network ≡ false = rw h.same_network other in
        rw (other', other, revert_chain_update, reverted_ledger) (done-Ends db (Holds db l) s h)
    | inl own ↦
        let own' : str_eq s.network u.network ≡ true = rw h.same_network own in
        let p = classify s.addr in
        rw (own', own, revert_chain_update, reverted_ledger)
          (turn_outputs-Holds (λ c. ((p (u.diffs c)).1, (p (u.diffs c)).0)) u.update_element_proof l
            s (reverted_outputs u l.addr l.outputs) same
            (λ c j.
              turned_lem u.update_element_proof _ _ _ _ (l.outputs c j)
                (classified_spent h.same_addr j (u.diffs c))
                (classified_unspent h.same_addr j (u.diffs c)))
            h)
  ]

  pub apply_all-Holds :
      (us : List Update) (l : Ledger) (s : DbStore)
      → All KeepsIds us
      → Holds db l s
      → Ends db s.calls (Holds db (all_ledgers applied_ledger us l)) (apply_all db us s)
  unfolding apply_all all_ledgers
  apply_all-Holds [] l s same h = done-Ends db (Holds db l) s h
  apply_all-Holds (u ∷ us) l s same h =
      bind-Ends db s.calls (Holds db (applied_ledger u l)) _ _ (apply_all db us)
        (in_context-Ends db s.calls _ (not_applied u.index) _
          (apply_chain_update-Holds u l s same.0 h))
        (λ s'. apply_all-Holds us (applied_ledger u l) s' same.1)

  pub revert_all-Holds :
      (us : List Update) (l : Ledger) (s : DbStore)
      → All KeepsIds us
      → Holds db l s
      → Ends db s.calls (Holds db (all_ledgers reverted_ledger us l)) (revert_all db us s)
  unfolding revert_all all_ledgers
  revert_all-Holds [] l s same h = done-Ends db (Holds db l) s h
  revert_all-Holds (u ∷ us) l s same h =
      bind-Ends db s.calls (Holds db (reverted_ledger u l)) _ _ (revert_all db us)
        (in_context-Ends db s.calls _
          (not_reverted (record { height = u.index.height + 1; id = u.block_id })) _
          (revert_chain_update-Holds u l s same.0 h))
        (λ s'. revert_all-Holds us (reverted_ledger u l) s' same.1)
