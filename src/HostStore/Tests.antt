-- ===== src/HostStore/Tests.antt =====
-- A store with one host, and the theorems at it.
use hostscore.Prelude.{
  ℕ, ◌≤◌, ◌≡◌, ◌↔◌, refl, true, false, Bool, List, [], ◌∷◌, none, some, arith, length, str_eq,
  if◌then◌else◌,
}
use hostscore.Prelude.Int.{pos, ◌+ℤ◌, sub_ℕ}
use hostscore.Net.{NetLib}
use hostscore.Net.Hostname.{IsPublic, is_valid-IsPublic}
use hostscore.Net.{is_valid, is_local}
use hostscore.HostStore.{
  HostScan, HostDbEntry, HostDbStore, Sql, update_scan_history, newest, commit_and_begin,
}
use hostscore.HostStore.Uptime.{record_scans, observed, record_scans-Elapsed}
use hostscore.HostStore.History.{Outcome, Recorded, update_scan_history-Recorded}
use hostscore.HostStore.Chain.{ApplyUpdate, update_chain_state}
use hostscore.HostStore.Chain.Sound.{Sound, Safe, update_chain_state-Safe}
use hostscore.HostStore.Updates.Delivery.{Delivered, deliver-Delivered}
use hostscore.HostStore.Updates.{Readings}

-- "a.b:1" is the host name "a.b" at port 1; nothing else parses.
abbrev address : List ℕ
address = b'a' ∷ b'.' ∷ b'b' ∷ b':' ∷ b'1' ∷ []

abbrev host_name : List ℕ
host_name = b'a' ∷ b'.' ∷ b'b' ∷ []

abbrev net : NetLib
net = record {
  split_host_port = λ s. if str_eq s address then some (host_name, b'1' ∷ []) else none;
  atoi = λ s. if str_eq s (b'1' ∷ []) then some 1 else none;
  parse_ip = λ s. none;
  is_loopback_ip = λ _. false;
  is_unspecified = λ _. false;
  subnet_contains = λ _ _. false;
  to_lower = λ s. s;
  lookup_ip = λ s. some (7 ∷ []);
  lookup_host = λ _. none;
  is_ipv4 = λ _. true;
  subnet_of = λ ip n. some (ip ∷ n ∷ []);
}

is_valid-IsPublic_example : (is_valid net address ≡ none) ↔ (
    (host : List ℕ) × (port : List ℕ) × (net.split_host_port address ≡ some (host, port))
    × IsPublic net address host port)
is_valid-IsPublic_example = is_valid-IsPublic net address

address_accepted : is_valid net address ≡ none
unfolding is_valid
address_accepted = refl

abbrev mainnet : List ℕ
mainnet = b'm' ∷ []

abbrev entry : HostDbEntry
entry = record {
  id = 1;
  network = mainnet;
  public_key = 42;
  first_seen = 0;
  known_since = 0;
  net_address = address;
  blocked = false;
  uptime = pos 0;
  downtime = pos 0;
  scan_history = [];
  last_benchmark = none;
  last_seen = none;
  ip_nets = (7 ∷ 24 ∷ []) ∷ [];
  active_hosts = 0;
  last_ip_change = none;
  settings = none;
  price_table = none;
}

abbrev store : HostDbStore
store = record {
  tx = true;
  finished = false;
  saved = record {
    host_rows = record { host = entry; modified = 5; fetched = 0 } ∷ [];
    scan_rows = [];
    benchmark_rows = [];
  };
  network = mainnet;
  hosts = entry ∷ [];
  blocked_hosts = λ _. false;
  active_hosts_cache = [];
  tip = (0, 0);
  last_committed = 0;
  last_update = record { id = 0; hosts = []; scans = []; benchmarks = [] };
  host_rows = record { host = entry; modified = 5; fetched = 0 } ∷ [];
  scan_rows = [];
  benchmark_rows = [];
  next_scan_id = 1;
  next_benchmark_id = 1;
}

abbrev scan : ℕ → Bool → HostScan
scan t ok = record {
  timestamp = t;
  success = ok;
  latency = 10;
  error = [];
  settings = none;
  price_table = none;
}

abbrev sql : Sql
sql = record { insert = true; exec = true; commit = true; begin = true }

record_scans-Elapsed_example :
    let after = record_scans entry (scan 10 true ∷ scan 25 false ∷ scan 40 true ∷ []) in
    (observed after ≡ observed entry +ℤ sub_ℕ 40 10)
    × (length after.scan_history ≤ 2)
    × (y : HostScan) × (newest after.scan_history ≡ some y)
    × (y.timestamp ≡ 40)
record_scans-Elapsed_example =
    record_scans-Elapsed entry (scan 10 true) (scan 25 false ∷ scan 40 true ∷ []) refl

update_scan_history-Recorded_example :
    Outcome sql
      (Recorded (λ _. false) 6_000_000_000 entry (scan 10 true) store)
      (update_scan_history (λ _. false) sql 6_000_000_000 store entry (scan 10 true))
update_scan_history-Recorded_example =
    update_scan_history-Recorded (λ _. false) sql 6_000_000_000 store entry (scan 10 true) refl refl
      refl

-- A block in which a second host announces the address, after an invalid announcement.
abbrev block : ApplyUpdate
block = record {
  network = mainnet;
  height = 3;
  block_id = 33;
  timestamp = 50;
  announcements = none ∷ some (host_name, 43) ∷ some (address, 43) ∷ [];
}

store-Sound : Sound net store
unfolding is_valid is_local
store-Sound = ((refl, tt), ((refl, refl, refl), tt))

update_chain_state-Safe_example :
    Safe net (update_chain_state net (λ _. false) true (λ _. sql) 60 store (block ∷ []) true)
update_chain_state-Safe_example =
    update_chain_state-Safe net (λ _. false) true (λ _. sql) 60 store (block ∷ []) true store-Sound
      refl

abbrev readings : Readings
readings = record {
  hosts = record { query = true; row = λ _. true };
  scans = record { query = true; row = λ _. true };
  benchmarks = record { query = true; row = λ _. true };
}

deliver-Delivered_example : Delivered store readings 8 7_000_000_000
deliver-Delivered_example =
    deliver-Delivered store readings 8 7_000_000_000 refl refl
      (refl, (λ _. refl), refl, (λ _. refl), refl, (λ _. refl)) (tt, tt) ((entry, refl, refl), tt)
      (omega arith, tt)

-- A commit that fails leaves the rows of the last one.
abbrev failing : Sql
failing = record { insert = true; exec = true; commit = false; begin = true }

marked : HostDbStore
marked = record store { host_rows = record { host = entry; modified = 5; fetched = 7 } ∷ [] }

commit_lost : (commit_and_begin failing marked).0.host_rows ≡ store.host_rows
unfolding commit_and_begin marked
commit_lost = refl
