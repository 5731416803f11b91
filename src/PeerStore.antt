-- ===== src/PeerStore.antt =====
-- internal/syncerutil/store.go: the peers and their bans, in memory and in a JSON file. Strings are lists
-- of bytes, times nanoseconds; each operation reads the clock once, and holds the lock.
pub mod Bans
mod Tests
use hostscore.Prelude.{
  ℕ, ◌+◌, ◌-◌, List, [], ◌∷◌, Bool, true, false, Option, none, some, ltb, leb, if◌then◌else◌,
  str_eq,
}

-- The functions of net and of go.sia.tech/coreutils/syncer: the host of an address, a subnet of a host
-- under a mask, and a subnet in canonical form.
pub record PeerLib : Type 0 where
  pub split_host : List ℕ → Option (List ℕ)
  pub subnet : List ℕ → ℕ → List ℕ
  pub parse_cidr : List ℕ → Option (List ℕ)

pub record PeerBan : Type 0 where
  pub expiry : ℕ
  pub reason : List ℕ

-- A syncer.PeerInfo: its other fields are left to the functions that change it.
pub record PeerInfo : Type 0 where
  pub address : List ℕ
  pub first_seen : ℕ
  pub rest : List ℕ

abbrev pub Bans : Type 0
Bans = List ℕ → Option PeerBan

pub record EphemeralPeerStore : Type 0 where
  pub peers : List (List ℕ × PeerInfo)
  pub bans : Bans

abbrev pub remove_ban : List ℕ → Bans → Bans
remove_ban k bans j = if str_eq k j then none else bans j

abbrev pub put_ban : List ℕ → PeerBan → Bans → Bans
put_ban k b bans j = if str_eq k j then some b else bans j

abbrev pub find_peer : List ℕ → List (List ℕ × PeerInfo) → Option PeerInfo
find_peer k [] = none
find_peer k ((j, p) ∷ ps) = if str_eq j k then some p else find_peer k ps

abbrev pub set_peer : List ℕ → PeerInfo → List (List ℕ × PeerInfo) → List (List ℕ × PeerInfo)
set_peer k p [] = []
set_peer k p ((j, q) ∷ ps) =
    let rest = set_peer k p ps in if str_eq j k then (j, p) ∷ ps else (j, q) ∷ rest

-- The loop of `banned` over the addresses to look for: an expired ban is deleted.
unfoldable pub look_for : ℕ → List (List ℕ) → Bans → Bans × Bool
look_for now [] bans = (bans, false)
look_for now (k ∷ ks) bans = elim (bans k) [
  | none ↦ look_for now ks bans
  | some b ↦ (if leb b.expiry now then look_for now ks (remove_ban k bans) else (bans, true))
]

-- The address of a peer and the subnets of its host.
unfoldable pub ban_keys : PeerLib → List ℕ → List (List ℕ)
ban_keys lib peer = elim (lib.split_host peer) [
  | none ↦ []
  | some host ↦
      peer ∷ lib.subnet host 32 ∷ lib.subnet host 24 ∷ lib.subnet host 16 ∷ lib.subnet host 8 ∷ []
]

unfoldable pub banned : PeerLib → ℕ → List ℕ → EphemeralPeerStore → EphemeralPeerStore × Bool
unfolding look_for ban_keys
banned lib now peer s =
    let (bans, found) = look_for now (ban_keys lib peer) s.bans in (record s { bans = bans }, found)

unfoldable pub add_peer : ℕ → List ℕ → EphemeralPeerStore → EphemeralPeerStore
add_peer now addr s = elim (find_peer addr s.peers) [
  | some _ ↦ s
  | none ↦ record s {
    peers = (addr, record { address = addr; first_seen = now; rest = [] }) ∷ s.peers;
  }
]

-- `Peers`: those that are not banned.
unfoldable pub list_peers :
    PeerLib → ℕ → List (List ℕ × PeerInfo) → EphemeralPeerStore → EphemeralPeerStore × List PeerInfo
unfolding banned
list_peers lib now [] s = (s, [])
list_peers lib now ((addr, p) ∷ ps) s =
    let r = banned lib now addr s in
    let (s', rest) = list_peers lib now ps r.0 in (s', if r.1 then rest else p ∷ rest)

-- `none` is ErrPeerNotFound.
unfoldable pub update_peer_info :
    List ℕ → (PeerInfo → PeerInfo) → EphemeralPeerStore → Option EphemeralPeerStore
update_peer_info addr f s = elim (find_peer addr s.peers) [
  | none ↦ none
  | some p ↦ some (record s { peers = set_peer addr (f p) s.peers })
]

abbrev pub canonical : PeerLib → List ℕ → List ℕ
canonical lib addr = elim (lib.parse_cidr addr) [ none ↦ addr | some net ↦ net ]

unfoldable pub ban : PeerLib → ℕ → List ℕ → ℕ → List ℕ → EphemeralPeerStore → EphemeralPeerStore
ban lib now addr duration reason s = record s {
  bans = put_ban (canonical lib addr) (record { expiry = now + duration; reason = reason }) s.bans;
}

-- The file holds what was saved last.
pub record JsonPeerStore : Type 0 where
  pub memory : EphemeralPeerStore
  pub file : Option EphemeralPeerStore
  pub last_save : ℕ

abbrev pub unless_expired : ℕ → Option PeerBan → Option PeerBan
unless_expired now none = none
unless_expired now (some b) = if leb b.expiry now then none else some b

abbrev pub clear_expired : ℕ → Bans → Bans
clear_expired now bans k = unless_expired now (bans k)

-- `ok` is the success of writing the new file and of its renaming; otherwise the old one stays, and
-- the Bool of the result is an error.
unfoldable pub save : Bool → ℕ → JsonPeerStore → JsonPeerStore × Bool
save ok now s =
    let memory : EphemeralPeerStore = record s.memory { bans = clear_expired now s.memory.bans } in
    if ltb (now - s.last_save) 5_000_000_000
    then (s, false)
    else if ok
    then (record { memory = memory; file = some memory; last_save = now }, false)
    else (record s { memory = memory; last_save = now }, true)

-- A missing file is no error, and an empty store.
unfoldable pub load : Option EphemeralPeerStore → JsonPeerStore
load file = record {
  memory = elim file [ none ↦ record { peers = []; bans = λ _. none } | some s ↦ s ];
  file = file;
  last_save = 0;
}

-- The calls of a JSON store, each at its time.
pub data Call : Type 0 where
  add : List ℕ → Call
  list : Call
  update : List ℕ → (PeerInfo → PeerInfo) → Call
  ask : List ℕ → Call
  forbid : List ℕ → ℕ → List ℕ → Call

abbrev pub or_same : EphemeralPeerStore → Option EphemeralPeerStore → EphemeralPeerStore
or_same s none = s
or_same s (some t) = t

-- The change of a call in memory; the calls that write are followed by `save`.
unfoldable pub in_memory : PeerLib → ℕ → Call → EphemeralPeerStore → EphemeralPeerStore
unfolding add_peer list_peers update_peer_info banned ban
in_memory lib now (add addr) s = add_peer now addr s
in_memory lib now list s = (list_peers lib now s.peers s).0
in_memory lib now (update addr f) s = or_same s (update_peer_info addr f s)
in_memory lib now (ask addr) s = (banned lib now addr s).0
in_memory lib now (forbid addr duration reason) s = ban lib now addr duration reason s

abbrev pub writes : Call → Bool
writes (add addr) = true
writes list = false
writes (update addr f) = true
writes (ask addr) = false
writes (forbid addr duration reason) = true

unfoldable pub run_call : PeerLib → Bool → ℕ → Call → JsonPeerStore → JsonPeerStore
unfolding in_memory save
run_call lib ok now call s =
    let s' : JsonPeerStore = record s { memory = in_memory lib now call s.memory } in
    if writes call then (save ok now s').0 else s'
