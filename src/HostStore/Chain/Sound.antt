-- ===== src/HostStore/Chain/Sound.antt =====
-- hostdb/store.go: what holds of the hosts after any series of blocks.
use hostscore.Prelude.{
  ◌&&◌, ℕ, suc, ◌+◌, ◌-◌, ltb, ◌||◌, ◌≡◌, refl, sym, ap, ◌∙◌, Bool, true, false, not, List, [], ◌∷◌,
  Option, none, some, arith, length, All, Bool-cases, inl, inr, Option-cases, ◌==◌, ==_iff, str_eq,
  str_eq_refl,
}
use hostscore.Net.{NetLib, is_valid, is_local}
use hostscore.HostStore.{
  HostDbEntry, HostDbStore, Sql, StoreError, Result, find_host, put_host, with_block, update,
  registered, past_guards, past_check, write_host, commit_and_begin, upsert, unix,
}
use hostscore.HostStore.Chain.{
  ApplyUpdate, Progress, Outcome, and_then, known_entry, new_entry, move_host, queue_after,
  announce, announce_all, apply, apply_all, commit_due, update_chain_state, set_tip, exists_host,
}

-- The ids are n, n + 1, … in the order in which the hosts were entered.
abbrev pub Numbered : ℕ → List HostDbEntry → Type 0
Numbered n [] = Unit {0}
Numbered n (h ∷ hs) = (h.id ≡ n) × Numbered (suc n) hs

-- An entry of the network whose address passed the checks.
abbrev pub IsListed : NetLib → List ℕ → HostDbEntry → Type 0
IsListed net network h =
    (h.network ≡ network)
    × (is_valid net h.net_address ≡ none)
    × (is_local net h.net_address ≡ false)

abbrev pub Sound : NetLib → HostDbStore → Type 0
Sound net s = Numbered 1 s.hosts × All (IsListed net s.network) s.hosts

-- The id of the entry under a key, or the next id.
abbrev next_id : ℕ → List HostDbEntry → ℕ → ℕ
next_id n hs pk = elim (find_host pk hs) [ none ↦ length hs + n | some h ↦ h.id ]

abbrev Fits : ℕ → List HostDbEntry → HostDbEntry → Type 0
Fits n hs host = host.id ≡ next_id n hs host.public_key

put-Numbered :
    (n : ℕ) (hs : List HostDbEntry) (host : HostDbEntry)
    → Fits n hs host
    → Numbered n hs
    → Numbered n (put_host host hs)
put-Numbered n [] host f v = (ground arith, tt)
put-Numbered n (h ∷ hs) host f v = elim (Bool-cases (h.public_key == host.public_key)) [
  | inl same ↦ ground arith
  | inr other ↦
      let f' : Fits (suc n) hs host = elim (Option-cases (find_host host.public_key hs)) [
        | inl e ↦ ground arith
        | inr (g, e) ↦ ground arith
      ] in
      rw other (v.0, put-Numbered (suc n) hs host f' v.1)
]

put-All :
    (P : HostDbEntry → Type 0) (hs : List HostDbEntry) (host : HostDbEntry)
    → P host
    → All P hs
    → All P (put_host host hs)
put-All P [] host p v = (p, tt)
put-All P (h ∷ hs) host p v = elim (Bool-cases (h.public_key == host.public_key)) [
  | inl same ↦ rw same (p, v.1)
  | inr other ↦ rw other (v.0, put-All P hs host p v.1)
]

find_host-All :
    (P : HostDbEntry → Type 0) (pk : ℕ) (hs : List HostDbEntry) (h : HostDbEntry)
    → find_host pk hs ≡ some h
    → All P hs
    → (h.public_key ≡ pk) × P h
find_host-All P pk [] h e v = cc
find_host-All P pk (x ∷ xs) h e v = elim (Bool-cases (x.public_key == pk)) [
  | inl same ↦
      let e' : some x ≡ some h = rw same at e in
      let e'' : x ≡ h = cc in rw (← e'') ((==_iff x.public_key pk).0 same, v.0)
  | inr other ↦ find_host-All P pk xs h (rw other at e) v.1
]

module _ (net : NetLib) where
  -- A call returns, and leaves a sound store, with a transaction if there is no error.
  abbrev pub Safe : Outcome → Type 0
  Safe o =
      (p : Progress) × (e : Option StoreError) × (o ≡ some (p, e))
      × Sound net p.store
      × ((e ≡ none) → p.store.tx ≡ true)

  and_then-Safe :
      (o : Outcome) (f : Progress → Outcome)
      → Safe o
      → ((p : Progress) → Sound net p.store → p.store.tx ≡ true → Safe (f p))
      → Safe (and_then o f)
  and_then-Safe o f (p, some e, h, s, t) k = rw h (p, some e, refl, s, t)
  and_then-Safe o f (p, none, h, s, t) k = rw h (k p s (t refl))

  -- The same for `update`.
  abbrev UpdateSafe : HostDbStore → Result → Type 0
  UpdateSafe s r =
      (t : HostDbStore) × (e : Option StoreError) × (r ≡ some (t, e))
      × Sound net t
      × ((e ≡ none) → t.tx ≡ true)

  commit-Safe :
      (sql : Sql) (s : HostDbStore)
      → Sound net s
      → Sound net (commit_and_begin sql s).0
        × ((commit_and_begin sql s).1 ≡ none → (commit_and_begin sql s).0.tx ≡ true)
  unfolding commit_and_begin
  commit-Safe sql s v = elim (Bool-cases (sql.commit && not s.finished)) [
    | inr bad ↦ rw (bad, commit_and_begin) (v, λ h. cc)
    | inl good ↦ elim (Bool-cases sql.begin) [
      | inr bad ↦ rw (good, bad, commit_and_begin) (v, λ h. cc)
      | inl begun ↦ rw (good, begun, commit_and_begin) (v, λ h. refl)
    ]
  ]

  write_host-Safe :
      (sql : Sql) (now : ℕ) (s : HostDbStore) (host : HostDbEntry)
      → Sound net s
      → UpdateSafe s (some (write_host sql now s host))
  unfolding write_host
  write_host-Safe sql now s host v = elim (Bool-cases (sql.exec && not s.finished)) [
    | inr bad ↦ rw (bad, write_host) (s, _, refl, v, λ h. cc)
    | inl good ↦
        rw (good, write_host)
          (let (w, t) =
              commit-Safe sql (record s { host_rows = upsert (unix now) host s.host_rows }) v in
            (_, _, refl, w, t))
  ]

  update-Safe :
      (is_blocked : List ℕ → Bool) (sql : Sql) (now : ℕ) (s : HostDbStore) (host : HostDbEntry)
      → Sound net s
      → s.tx ≡ true
      → IsListed net s.network host
      → Fits 1 s.hosts host
      → UpdateSafe s (update is_blocked sql now s host)
  unfolding update
  update-Safe is_blocked sql now s host v tx listed fits =
      let same : str_eq host.network s.network ≡ true = rw listed.0 (str_eq_refl s.network) in
      let v' : Sound net (registered is_blocked s host) = (
        put-Numbered 1 s.hosts (with_block is_blocked host) fits v.0,
        put-All (IsListed net s.network) s.hosts (with_block is_blocked host) listed v.1,
      ) in
      rw (past_guards (str_eq host.network s.network) s.tx _ _ _ same tx)
        (write_host-Safe sql now (registered is_blocked s host) (with_block is_blocked host) v')

  move_host_lem :
      (u : ApplyUpdate) (addr : List ℕ) (host : HostDbEntry)
      → let m = move_host net u addr host in
        (m.id ≡ host.id)
        × (m.network ≡ host.network)
        × (m.public_key ≡ host.public_key)
        × (m.net_address ≡ addr)
  unfolding move_host
  move_host_lem u addr host = ground arith

  known_entry_lem :
      (s : HostDbStore) (u : ApplyUpdate) (pk : ℕ)
      → Sound net s
      → let h = known_entry s u pk in
        (h.network ≡ s.network) × (h.public_key ≡ pk) × (h.id ≡ next_id 1 s.hosts pk)
  known_entry_lem s u pk v = elim (Option-cases (find_host pk s.hosts)) [
    | inl e ↦
        let new : known_entry s u pk ≡ new_entry s u pk = rw (e, known_entry) refl in
        rw new (refl, refl, rw (e, next_id) refl)
    | inr (h, e) ↦
        let (key, listed) = find_host-All (IsListed net s.network) pk s.hosts h e v.1 in
        let old : known_entry s u pk ≡ h = rw (e, known_entry) refl in
        rw old (listed.0, key, rw (e, next_id) refl)
  ]

  moved-IsListed :
      (s : HostDbStore) (u : ApplyUpdate) (addr : List ℕ) (pk : ℕ)
      → Sound net s
      → is_valid net addr ≡ none
      → is_local net addr ≡ false
      → IsListed net s.network (move_host net u addr (known_entry s u pk))
  moved-IsListed s u addr pk v valid remote =
      let (_, network, _, address) = move_host_lem u addr (known_entry s u pk) in
      (network ∙ (known_entry_lem s u pk v).0, rw address valid, rw address remote)

  moved-Fits :
      (s : HostDbStore) (u : ApplyUpdate) (addr : List ℕ) (pk : ℕ)
      → Sound net s
      → Fits 1 s.hosts (move_host net u addr (known_entry s u pk))
  moved-Fits s u addr pk v =
      let (id, _, key, _) = move_host_lem u addr (known_entry s u pk) in
      let (_, key', fits) = known_entry_lem s u pk v in
      id ∙ fits ∙ sym (ap (next_id 1 s.hosts) (key ∙ key'))

  module _ (is_blocked : List ℕ → Bool) (synced : Bool) (sql : ℕ → Sql) (now : ℕ) where
    queue_after-Safe :
        (p : Progress) (host : HostDbEntry) (exists : Bool) (r : Result)
        → UpdateSafe p.store r
        → Safe (queue_after net is_blocked synced sql now p host exists r)
    queue_after-Safe p host exists r (t, some e, h, v, k) = rw h (_, _, refl, v, λ x. cc)
    queue_after-Safe p host exists r (t, none, h, v, k) = rw h (_, _, refl, v, k)

    announce-Safe :
        (u : ApplyUpdate) (p : Progress) (addr : List ℕ) (pk : ℕ)
        → Sound net p.store
        → p.store.tx ≡ true
        → Safe (announce net is_blocked synced sql now u p addr pk)
    unfolding announce
    announce-Safe u p addr pk v tx = elim (Option-cases (is_valid net addr)) [
      | inr (e, bad) ↦ rw (bad, announce) (p, none, refl, v, λ h. tx)
      | inl valid ↦ elim (Bool-cases (is_local net addr)) [
        | inl own ↦ rw (valid, own, announce) (p, none, refl, v, λ h. tx)
        | inr remote ↦
            rw (valid, remote, announce)
              (queue_after-Safe p
                (with_block is_blocked (move_host net u addr (known_entry p.store u pk)))
                (exists_host p.store pk)
                (update is_blocked (sql p.calls) now p.store
                  (move_host net u addr (known_entry p.store u pk)))
                (update-Safe is_blocked (sql p.calls) now p.store
                  (move_host net u addr (known_entry p.store u pk)) v tx
                  (moved-IsListed p.store u addr pk v valid remote)
                  (moved-Fits p.store u addr pk v)))
      ]
    ]

    announce_all-Safe :
        (u : ApplyUpdate) (p : Progress) (xs : List (Option (List ℕ × ℕ)))
        → Sound net p.store
        → p.store.tx ≡ true
        → Safe (announce_all net is_blocked synced sql now u p xs)
    unfolding announce_all
    announce_all-Safe u p [] v tx = (p, none, refl, v, λ h. tx)
    announce_all-Safe u p (none ∷ xs) v tx = announce_all-Safe u p xs v tx
    announce_all-Safe u p (some (addr, pk) ∷ xs) v tx =
        and_then-Safe (announce net is_blocked synced sql now u p addr pk) _
          (announce-Safe u p addr pk v tx) (λ q w t. announce_all-Safe u q xs w t)

    apply-Safe :
        (u : ApplyUpdate) (p : Progress)
        → Sound net p.store
        → p.store.tx ≡ true
        → Safe (apply net is_blocked synced sql now u p)
    unfolding apply
    apply-Safe u p v tx = elim (Bool-cases (str_eq p.store.network u.network)) [
      | inr other ↦ rw (other, apply) (p, none, refl, v, λ h. tx)
      | inl same ↦ elim (Bool-cases ((sql p.calls).exec && not p.store.finished)) [
        | inr bad ↦
            rw (past_guards (str_eq p.store.network u.network) p.store.tx _ _ _ same tx, bad, apply)
              (_, _, refl, v, λ h. cc)
        | inl ok ↦
            rw (past_guards (str_eq p.store.network u.network) p.store.tx _ _ _ same tx, ok, apply)
              (announce_all-Safe u (set_tip u p) u.announcements v tx)
      ]
    ]

    apply_all-Safe :
        (us : List ApplyUpdate) (p : Progress)
        → Sound net p.store
        → p.store.tx ≡ true
        → Safe (apply_all net is_blocked synced sql now us p)
    unfolding apply_all
    apply_all-Safe [] p v tx = (p, none, refl, v, λ h. tx)
    apply_all-Safe (u ∷ us) p v tx =
        and_then-Safe (apply net is_blocked synced sql now u p) _ (apply-Safe u p v tx)
          (λ q w t. apply_all-Safe us q w t)

    commit_due-Safe :
        (may_commit : Bool) (p : Progress)
        → Sound net p.store
        → p.store.tx ≡ true
        → Safe (commit_due net is_blocked synced sql now may_commit p)
    unfolding commit_due
    commit_due-Safe may_commit p v tx =
        elim (Bool-cases (may_commit || not (ltb (now - p.store.last_committed) 3_000_000_000))) [
          | inr later ↦ rw (later, commit_due) (p, none, refl, v, λ h. tx)
          | inl due ↦
              rw (due, past_check p.store.tx _ _ tx, commit_due)
                (let (w, t) = commit-Safe (sql p.calls) p.store v in (_, _, refl, w, t))
        ]

    -- From a store with a transaction whose hosts are sound, `updateChainState` returns whatever the
    -- blocks announce and the database answers, never panics, and leaves sound hosts: their ids are
    -- 1, 2, … in the order of their first announcement, all belong to the store's network, and
    -- every address has passed `IsValid` and is not local. If there is no error, there is a
    -- transaction again.
    pub update_chain_state-Safe :
        (s : HostDbStore) (applied : List ApplyUpdate) (may_commit : Bool)
        → Sound net s
        → s.tx ≡ true
        → Safe (update_chain_state net is_blocked synced sql now s applied may_commit)
    unfolding update_chain_state
    update_chain_state-Safe s applied may_commit v tx =
        and_then-Safe _ _
          (apply_all-Safe applied (record { store = s; queued = []; calls = 0 }) v tx)
          (commit_due-Safe may_commit)
