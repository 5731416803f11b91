-- ===== src/WalletStore/Blocks.antt =====
-- internal/walletutil/store.go: the wallet's outputs when blocks are applied and reverted.
use hostscore.Prelude.{
  ℕ, ◌+◌, List, [], ◌∷◌, Bool, ◌&&◌, ◌||◌, not, none, some, ◌==◌, if◌then◌else◌, str_eq,
}
use hostscore.Prelude.Assoc.{find, put}
use hostscore.WalletStore.{
  Coin, siacoin, siafund, StateElement, Element, ChainIndex, DbStore, elements, set_elements, rows,
  set_rows, proof_not_updated, not_reverted, not_applied, Run, done, ◌>>=◌, in_context, Db, exec,
  add_elements, remove_elements,
}

-- What `ForEachSiacoinElement` or `ForEachSiafundElement` passes to its callback.
pub record Diff : Type 0 where
  pub element : Element
  pub created : Bool
  pub spent : Bool

-- A chain.ApplyUpdate or a chain.RevertUpdate: `index` is State.Index, `block_id` the id of Block.
pub record Update : Type 0 where
  pub network : List ℕ
  pub index : ChainIndex
  pub block_id : ℕ
  pub diffs : Coin → List Diff
  pub update_element_proof : StateElement → StateElement

-- The elements of an address that a block leaves unspent, and those that it spends.
unfoldable pub classify : ℕ → List Diff → List Element × List Element
classify addr [] = ([], [])
classify addr (d ∷ ds) =
    let (unspent, spent) = classify addr ds in
    if d.created && d.spent || not (d.element.address == addr)
    then (unspent, spent)
    else if d.spent
    then (unspent, d.element ∷ spent)
    else (d.element ∷ unspent, spent)

abbrev pub with_proof : (StateElement → StateElement) → Element → Element
with_proof f e = record e { state_element = f e.state_element }

-- UPDATE changes the row of a key that has one.
unfoldable pub update_row : ℕ → List ℕ → List (ℕ × List ℕ) → List (ℕ × List ℕ)
update_row id b m = elim (find id m) [ none ↦ m | some _ ↦ put id b m ]

-- The row is found by the id of the element, the entry of the map by its key.
unfoldable pub update_proof :
    Db → Coin → (StateElement → StateElement) → ℕ → Element → DbStore → Run
unfolding exec update_row
update_proof db c f id e s =
    let e' = with_proof f e in
    exec db (proof_not_updated c)
      (λ t. set_rows c (update_row e'.state_element.id (db.encode c e') (rows c t)) t)
      (set_elements c (put id e' (elements c s)) s)

unfoldable pub update_proofs :
    Db → Coin → (StateElement → StateElement) → List (ℕ × Element) → DbStore → Run
unfolding update_proof
update_proofs db c f [] s = done s
update_proofs db c f ((id, e) ∷ es) s = update_proof db c f id e s >>= update_proofs db c f es

-- Elements that come, then elements that go.
unfoldable pub change_elements : Db → Coin → List Element → List Element → DbStore → Run
unfolding add_elements remove_elements
change_elements db c added removed s = add_elements db c added s >>= remove_elements db c removed

unfoldable pub refresh_proofs : Db → Coin → (StateElement → StateElement) → DbStore → Run
unfolding update_proofs
refresh_proofs db c f s = update_proofs db c f (db.order (elements c s)) s

unfoldable pub apply_chain_update : Db → Update → DbStore → Run
unfolding change_elements refresh_proofs classify
apply_chain_update db u s =
    let sc = classify s.addr (u.diffs siacoin) in
    let sf = classify s.addr (u.diffs siafund) in
    if not (str_eq s.network u.network)
    then done s
    else change_elements db siacoin sc.0 sc.1 s
      >>= change_elements db siafund sf.0 sf.1
      >>= refresh_proofs db siacoin u.update_element_proof
      >>= refresh_proofs db siafund u.update_element_proof
      >>= (λ s'. done (record s' { tip = u.index }))

-- The maps `created` and `ephemeral` of the source have no reader.
unfoldable pub revert_chain_update : Db → Update → DbStore → Run
unfolding change_elements refresh_proofs classify
revert_chain_update db u s =
    let sc = classify s.addr (u.diffs siacoin) in
    let sf = classify s.addr (u.diffs siafund) in
    if not (str_eq s.network u.network)
    then done s
    else change_elements db siacoin sc.1 sc.0 s
      >>= change_elements db siafund sf.1 sf.0
      >>= refresh_proofs db siacoin u.update_element_proof
      >>= refresh_proofs db siafund u.update_element_proof

unfoldable pub revert_all : Db → List Update → DbStore → Run
unfolding revert_chain_update
revert_all db [] s = done s
revert_all db (u ∷ us) s =
    in_context (not_reverted (record { height = u.index.height + 1; id = u.block_id }))
      (revert_chain_update db u s)
    >>= revert_all db us

unfoldable pub apply_all : Db → List Update → DbStore → Run
unfolding apply_chain_update
apply_all db [] s = done s
apply_all db (u ∷ us) s =
    in_context (not_applied u.index) (apply_chain_update db u s) >>= apply_all db us
