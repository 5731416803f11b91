-- ===== src/WalletStore/Undo.antt =====
-- internal/walletutil/store.go: a block that is applied and then reverted.
use hostscore.Prelude.{
  ℕ, ◌≡◌, refl, sym, ◌∙◌, ap, [], ◌∷◌, true, Option, none, some, inl, inr, ◌⊎◌, str_eq,
}
use hostscore.Prelude.Assoc.{find}
use hostscore.WalletStore.{Coin, Element, StateElement, DbStore, elements, done, ◌>>=◌, Db}
use hostscore.WalletStore.Blocks.{Update, with_proof}
use hostscore.WalletStore.Saving.{update_chain_state}
use hostscore.WalletStore.Mirror.{Ledger, Holds, bind-Ends, Ends-map}
use hostscore.WalletStore.Loops.{or_else}
use hostscore.WalletStore.Spec.{
  left_unspent, left_spent, turned, applied_ledger, reverted_ledger, applied_outputs,
  reverted_outputs, after_blocks, all_ledgers,
}
use hostscore.WalletStore.Refinement.{DbLaws, KeepsIds}
use hostscore.WalletStore.Commits.{update_chain_state-Ends, completed}
use mathlib.Core.Option

-- An element without its Merkle proof and its place in the accumulator.
abbrev pub content : Element → ℕ × ℕ × ℕ × ℕ
content e = (e.state_element.id, e.value, e.address, e.maturity)

abbrev pub contents : Option Element → Option (ℕ × ℕ × ℕ × ℕ)
contents = Option.map content

-- A block spends outputs that the wallet has, and creates outputs that it does not have.
abbrev pub FitsLedger : Update → Ledger → Type 0
FitsLedger u l =
    (c : Coin) (k : ℕ)
    → let left = left_unspent l.addr k (u.diffs c) in
      let spent = left_spent l.addr k (u.diffs c) in
      ((left ≡ none) × (spent ≡ none))
      ⊎ ((left ≡ none)
          × (e : Element) × (spent ≡ some e)
          × (contents (l.outputs c k) ≡ contents spent))
      ⊎ ((spent ≡ none) × (e : Element) × (left ≡ some e) × (l.outputs c k ≡ none))

-- The update that reverts a block lists the elements of the block, with other proofs.
abbrev pub IsReverse : Update → Update → ℕ → Type 0
IsReverse r u addr =
    (c : Coin) (k : ℕ)
    → (contents (left_unspent addr k (r.diffs c)) ≡ contents (left_unspent addr k (u.diffs c)))
      × (contents (left_spent addr k (r.diffs c)) ≡ contents (left_spent addr k (u.diffs c)))

contents-proof :
    (f : StateElement → StateElement) (o : Option Element)
    → ((x : StateElement) → (f x).id ≡ x.id)
    → contents (Option.map (with_proof f) o) ≡ contents o
contents-proof f none h = refl
contents-proof f (some e) h = rw (h e.state_element) refl

no_contents : (o : Option Element) → contents o ≡ none → o ≡ none
no_contents none h = refl
no_contents (some e) h = cc

some-contents :
    (o : Option Element) (e : Element)
    → contents o ≡ contents (some e)
    → (x : Element) × (o ≡ some x)
some-contents none e h = cc
some-contents (some x) e h = (x, refl)

contents-or_else :
    (a o : Option Element) (e : Element)
    → contents a ≡ contents (some e)
    → contents (or_else a o) ≡ contents (some e)
contents-or_else none o e h = cc
contents-or_else (some x) o e h = h

-- One output, turned and turned back.
turned_back :
    (f g : StateElement → StateElement) (left spent left' spent' o : Option Element)
    → ((x : StateElement) → (f x).id ≡ x.id)
    → ((x : StateElement) → (g x).id ≡ x.id)
    → contents left' ≡ contents left
    → contents spent' ≡ contents spent
    → ((left ≡ none) × (spent ≡ none))
      ⊎ ((left ≡ none) × (e : Element) × (spent ≡ some e) × (contents o ≡ contents spent))
      ⊎ ((spent ≡ none) × (e : Element) × (left ≡ some e) × (o ≡ none))
    → contents (turned g spent' left' (turned f left spent o)) ≡ contents o
unfolding turned
turned_back f g left spent left' spent' o hf hg hl hs (inl (no_left, no_spent)) =
    let no_left' : left' ≡ none = no_contents left' (hl ∙ ap contents no_left) in
    let no_spent' : spent' ≡ none = no_contents spent' (hs ∙ ap contents no_spent) in
    rw (no_left', no_spent', no_spent, turned, no_left)
      (contents-proof g _ hg ∙ contents-proof f o hf)
turned_back f g left spent left' spent' o hf hg hl hs (inr (inl (no_left, e, is_spent, same))) =
    let no_left' : left' ≡ none = no_contents left' (hl ∙ ap contents no_left) in
    rw (no_left', turned)
      (contents-proof g _ hg
        ∙ contents-or_else spent' _ e (hs ∙ ap contents is_spent)
        ∙ sym (same ∙ ap contents is_spent))
turned_back f g left spent left' spent' o hf hg hl hs (inr (inr (no_spent, e, is_left, new))) =
    let (x, is_left') = some-contents left' e (hl ∙ ap contents is_left) in
    rw (is_left', new, turned) refl

applied_at :
    (u : Update) (l : Ledger) (c : Coin) (k : ℕ)
    → str_eq l.network u.network ≡ true
    → (applied_ledger u l).outputs c k
      ≡ turned u.update_element_proof
          (left_unspent l.addr k (u.diffs c))
          (left_spent l.addr k (u.diffs c))
          (l.outputs c k)
unfolding applied_ledger applied_outputs
applied_at u l c k own = rw (own, applied_ledger) refl

back_at :
    (u r : Update) (l : Ledger) (c : Coin) (k : ℕ)
    → str_eq l.network u.network ≡ true
    → str_eq l.network r.network ≡ true
    → (after_blocks (r ∷ []) [] (after_blocks [] (u ∷ []) l)).outputs c k
      ≡ turned r.update_element_proof
          (left_spent l.addr k (r.diffs c))
          (left_unspent l.addr k (r.diffs c))
          (turned u.update_element_proof
            (left_unspent l.addr k (u.diffs c))
            (left_spent l.addr k (u.diffs c))
            (l.outputs c k))
unfolding all_ledgers applied_ledger reverted_ledger applied_outputs reverted_outputs
back_at u r l c k own own' = rw (own, all_ledgers, applied_ledger, reverted_ledger, own') refl

module _ {db : Db} (laws : DbLaws db) where
  -- A block that spends outputs of the wallet and creates others is applied, and an update with the
  -- same elements reverts it: when every call of the database succeeds, both return without an error,
  -- and every output is there, in memory, if and only if it was, with the same value, address and
  -- maturity; only its proof may differ.
  pub update_chain_state-undo :
      (now later : ℕ) (u r : Update) (l : Ledger) (s : DbStore)
      → Holds db l s
      → KeepsIds u
      → KeepsIds r
      → str_eq l.network u.network ≡ true
      → str_eq l.network r.network ≡ true
      → FitsLedger u l
      → IsReverse r u l.addr
      → ((n : ℕ) → db.answer n ≡ true)
      → (s' : DbStore) × (update_chain_state db now [] (u ∷ []) true s
            >>= update_chain_state db later (r ∷ []) [] true
          ≡ done s')
        × ((c : Coin) (k : ℕ)
            → contents (find k (elements c s')) ≡ contents (find k (elements c s)))
  update_chain_state-undo now later u r l s h ku kr own own' fits rev ok =
      let l' = after_blocks [] (u ∷ []) l in
      let (s', e, h') = completed laws s.calls (Holds db (after_blocks (r ∷ []) [] l')) _ ok (
        bind-Ends db s.calls (Holds db l') _ (update_chain_state db now [] (u ∷ []) true s)
          (update_chain_state db later (r ∷ []) [] true)
          (Ends-map db s.calls _ _ _ (λ x p. p.0)
            (update_chain_state-Ends laws now [] (u ∷ []) true l s h tt (ku, tt)))
          (λ s₁ h₁.
            Ends-map db s₁.calls _ _ _ (λ x p. p.0)
              (update_chain_state-Ends laws later (r ∷ []) [] true l' s₁ h₁ (kr, tt) tt))) in
      (
        s',
        e,
        λ c k.
            ap contents ((h'.mirrors c).in_memory k ∙ back_at u r l c k own own')
            ∙ turned_back u.update_element_proof r.update_element_proof _ _ _ _ (l.outputs c k) ku
                kr (rev c k).0 (rev c k).1 (fits c k)
            ∙ sym (ap contents ((h.mirrors c).in_memory k)),
      )
