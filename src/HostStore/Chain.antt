-- ===== src/HostStore/Chain.antt =====
-- hostdb/store.go: `updateChainState`, which enters the hosts that blocks announce.
pub mod Sound
use hostscore.Prelude.{
  ℕ, ◌+◌, ◌-◌, Bool, true, false, ◌&&◌, ◌||◌, not, List, [], ◌∷◌, ◌++◌, Option, none, some, ltb,
  length, if◌then◌else◌, str_eq,
}
use hostscore.Prelude.Int.{pos}
use hostscore.Net.{NetLib, is_valid, is_local, lookup_ip_nets, equal_ip_nets}
use hostscore.HostStore.{
  HostDbEntry, HostDbStore, Sql, StoreError, exec_failed, Result, find_host, with_block, update,
  commit_and_begin,
}

-- A chain.ApplyUpdate: `announcements` are the address and public key that decodeAnnouncement or
-- decodeV2Announcement reads from each arbitrary data of the transactions, then from each attestation
-- of the V2 transactions, in the order of the block; `none` is one that fails to decode.
pub record ApplyUpdate : Type 0 where
  pub network : List ℕ
  pub height : ℕ
  pub block_id : ℕ
  pub timestamp : ℕ
  pub announcements : List (Option (List ℕ × ℕ))

-- What the function has done so far: the store, the public keys that were passed to `queueScan`, and
-- how many times the database was asked.
pub record Progress : Type 0 where
  pub store : HostDbStore
  pub queued : List ℕ
  pub calls : ℕ

-- `none` is a panic.
abbrev pub Outcome : Type 0
Outcome = Option (Progress × Option StoreError)

abbrev pub and_then : Outcome → (Progress → Outcome) → Outcome
and_then none f = none
and_then (some (p, some e)) f = some (p, some e)
and_then (some (p, none)) f = f p

abbrev pub new_entry : HostDbStore → ApplyUpdate → ℕ → HostDbEntry
new_entry s u pk = record {
  id = length s.hosts + 1;
  network = s.network;
  public_key = pk;
  first_seen = u.timestamp;
  known_since = u.height;
  net_address = [];
  blocked = false;
  uptime = pos 0;
  downtime = pos 0;
  scan_history = [];
  last_benchmark = none;
  last_seen = none;
  ip_nets = [];
  active_hosts = 0;
  last_ip_change = none;
  settings = none;
  price_table = none;
}

abbrev pub known_entry : HostDbStore → ApplyUpdate → ℕ → HostDbEntry
known_entry s u pk = elim (find_host pk s.hosts) [ none ↦ new_entry s u pk | some host ↦ host ]

abbrev pub exists_host : HostDbStore → ℕ → Bool
exists_host s pk = elim (find_host pk s.hosts) [ none ↦ false | some host ↦ true ]

-- The address, and the subnets when the lookup succeeds and they differ.
unfoldable pub move_host : NetLib → ApplyUpdate → List ℕ → HostDbEntry → HostDbEntry
move_host net u addr host = elim (lookup_ip_nets net addr) [
  | none ↦ record host { net_address = addr }
  | some nets ↦
      (if equal_ip_nets nets host.ip_nets
        then record host { net_address = addr }
        else record host { net_address = addr; ip_nets = nets; last_ip_change = some u.timestamp })
]

-- The row of hdb_tip has no reader here.
abbrev pub set_tip : ApplyUpdate → Progress → Progress
set_tip u p = record p {
  store = record p.store { tip = (u.height, u.block_id) };
  calls = p.calls + 1;
}

module _ (net : NetLib) (is_blocked : List ℕ → Bool) (synced : Bool) (sql : ℕ → Sql) (now : ℕ) where
  -- After `update`: `queueScan`, or the error.
  abbrev pub queue_after : Progress → HostDbEntry → Bool → Result → Outcome
  queue_after p host exists none = none
  queue_after p host exists (some (s, some e)) =
      some (record p { store = s; calls = p.calls + 1 }, some e)
  queue_after p host exists (some (s, none)) = some (
    record {
      store = s;
      queued =
          if (not exists || synced) && not host.blocked
          then p.queued ++ (host.public_key ∷ [])
          else p.queued;
      calls = p.calls + 1;
    },
    none,
  )

  -- One announcement that was decoded.
  unfoldable pub announce : ApplyUpdate → Progress → List ℕ → ℕ → Outcome
  unfolding move_host update
  announce u p addr pk = elim (is_valid net addr) [
    | some e ↦ some (p, none)
    | none ↦
        (if is_local net addr
          then some (p, none)
          else (let host = move_host net u addr (known_entry p.store u pk) in
              queue_after p (with_block is_blocked host) (exists_host p.store pk)
                (update is_blocked (sql p.calls) now p.store host)))
  ]

  unfoldable pub announce_all : ApplyUpdate → Progress → List (Option (List ℕ × ℕ)) → Outcome
  unfolding announce
  announce_all u p [] = some (p, none)
  announce_all u p (none ∷ rest) = announce_all u p rest
  announce_all u p (some (addr, pk) ∷ rest) =
      and_then (announce u p addr pk) (λ q. announce_all u q rest)

  -- `s.tx.Exec` panics on a nil transaction.
  unfoldable pub apply : ApplyUpdate → Progress → Outcome
  unfolding announce_all
  apply u p =
      if not (str_eq p.store.network u.network)
      then some (p, none)
      else if not p.store.tx
      then none
      else if (sql p.calls).exec && not p.store.finished
      then announce_all u (set_tip u p) u.announcements
      else some (set_tip u p, some exec_failed)

  unfoldable pub apply_all : List ApplyUpdate → Progress → Outcome
  unfolding apply
  apply_all [] p = some (p, none)
  apply_all (u ∷ us) p = and_then (apply u p) (apply_all us)

  -- Commit when asked to, or 3 seconds after the last commit.
  commit_due : Bool → Progress → Outcome
  unfolding commit_and_begin
  commit_due may_commit p =
      if may_commit || not (ltb (now - p.store.last_committed) 3_000_000_000)
      then (if not p.store.tx
          then none
          else (let r = commit_and_begin (sql p.calls) p.store in
              let s : HostDbStore = record r.0 {
                last_committed =
                    if (sql p.calls).commit && not p.store.finished
                    then now
                    else p.store.last_committed;
              } in
              some (record p { store = s }, r.1)))
      else some (p, none)

  unfoldable pub update_chain_state : HostDbStore → List ApplyUpdate → Bool → Outcome
  unfolding apply_all commit_due
  update_chain_state s applied may_commit =
      and_then (apply_all applied (record { store = s; queued = []; calls = 0 }))
        (commit_due may_commit)
