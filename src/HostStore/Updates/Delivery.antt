-- ===== src/HostStore/Updates/Delivery.antt =====
-- hostdb/store.go: what is left to deliver after the client has confirmed a batch.
use hostscore.Prelude.{
  false, Bool, ◌&&◌, not, none, ℕ, zero, suc, ◌≤◌, ◌<◌, ◌≡◌, refl, ap, ◌∙◌, true, List, [], ◌∷◌,
  map, some, arith, All, Bool-cases, inl, inr, ltb, ◌==◌, if◌then◌else◌,
}
use hostscore.HostStore.{
  HostDbEntry, HostDbStore, HostRow, HostUpdates, Sql, find_host, unix, past_check, no_transaction,
  ScanRow, BenchmarkRow, active_hosts_in_subnet,
}
use hostscore.HostStore.Updates.{
  fetched, failed, with_entries, take, batch_limit, pending_hosts, entries_of, batch_of,
  get_recent_updates, mark_host, mark_hosts, finalize_updates, Readings, Marking, Markings, entries,
  all_scans, all_benchmarks,
}
use hostscore.HostStore.Updates.Endings.{Ended, NoFailure, finalize-Ended, finalize_good}

abbrev pub drop : ℕ → List HostRow → List HostRow
drop zero rs = rs
drop (suc n) [] = []
drop (suc n) (r ∷ rs) = drop n rs

-- The rows are in the order of their ids.
abbrev pub Ascending : List HostRow → Type 0
Ascending [] = Unit {0}
Ascending (r ∷ rs) = All (λ a. r.host.id < a.host.id) rs × Ascending rs

-- A row has an entry in memory, under its id.
abbrev pub HasEntry : HostDbStore → HostRow → Type 0
HasEntry s r =
    (h : HostDbEntry) × (find_host r.host.public_key s.hosts ≡ some h) × (h.id ≡ r.host.id)

abbrev row_ids : List HostRow → List ℕ
row_ids = map λ r. r.host.id

abbrev ids : List HostDbEntry → List ℕ
ids = map λ h. h.id

abbrev remove : ℕ → List HostRow → List HostRow
remove id [] = []
remove id (r ∷ rs) = let rest = remove id rs in if r.host.id == id then rest else r ∷ rest

abbrev remove_all : List ℕ → List HostRow → List HostRow
remove_all [] rs = rs
remove_all (i ∷ is) rs = remove_all is (remove i rs)

pending-mark :
    (now id : ℕ) (rs : List HostRow)
    → All (λ r. r.modified ≤ now) rs
    → pending_hosts (mark_host now id rs) ≡ remove id (pending_hosts rs)
pending-mark now id [] v = refl
pending-mark now id (r ∷ rs) v = ground (arith, v.0, pending-mark now id rs v.1)

modified-mark :
    (limit now id : ℕ) (rs : List HostRow)
    → All (λ r. r.modified ≤ limit) rs
    → All (λ r. r.modified ≤ limit) (mark_host now id rs)
modified-mark limit now id [] v = tt
modified-mark limit now id (r ∷ rs) v = elim (Bool-cases (r.host.id == id)) [
  | inl same ↦ rw same (v.0, modified-mark limit now id rs v.1)
  | inr other ↦ rw other (v.0, modified-mark limit now id rs v.1)
]

modified-later :
    (a b : ℕ) (rs : List HostRow)
    → a ≤ b
    → All (λ r. r.modified ≤ a) rs
    → All (λ r. r.modified ≤ b) rs
modified-later a b [] le v = tt
modified-later a b (r ∷ rs) le v = (omega (arith, v.0), modified-later a b rs le v.1)

pending-mark_hosts :
    (k : Marking) (now : ℕ) (hs : List HostDbEntry) (rs : List HostRow)
    → ((i : ℕ) → now ≤ k.clock i)
    → All (λ r. r.modified ≤ unix now) rs
    → (mark_hosts k hs rs).1 ≡ true
    → pending_hosts (mark_hosts k hs rs).0 ≡ remove_all (ids hs) (pending_hosts rs)
unfolding mark_hosts
pending-mark_hosts k now [] rs later v all = refl
pending-mark_hosts k now (h ∷ hs) rs later v all = elim (Bool-cases (k.exec h.id)) [
  | inl done ↦
      let v' : All (λ r. r.modified ≤ unix (k.clock h.id)) rs =
        modified-later (unix now) (unix (k.clock h.id)) rs (omega (arith, later h.id)) v in
      rw (done, mark_hosts)
        (pending-mark_hosts k now hs (mark_host (unix (k.clock h.id)) h.id rs) later
            (modified-mark (unix now) (unix (k.clock h.id)) h.id rs v)
            (rw (done, mark_hosts) at all)
          ∙ ap (remove_all (ids hs)) (pending-mark (unix (k.clock h.id)) h.id rs v'))
  | inr failed_ ↦ absurd (let no : false ≡ true = rw (failed_, mark_hosts) at all in cc)
]

remove-above : (id : ℕ) (rs : List HostRow) → All (λ a. id < a.host.id) rs → remove id rs ≡ rs
remove-above id [] v = refl
remove-above id (r ∷ rs) v = ground (arith, v.0, remove-above id rs v.1)

remove-taken :
    (n : ℕ) (rs : List HostRow) → Ascending rs → remove_all (row_ids (take n rs)) rs ≡ drop n rs
remove-taken zero rs v = refl
remove-taken (suc n) [] v = refl
remove-taken (suc n) (r ∷ rs) v =
    let first : remove r.host.id (r ∷ rs) ≡ rs = ground (arith, remove-above r.host.id rs v.0) in
    ap (remove_all (row_ids (take n rs))) first ∙ remove-taken n rs v.1

pending-All : (P : HostRow → Type 0) (rs : List HostRow) → All P rs → All P (pending_hosts rs)
pending-All P [] v = tt
pending-All P (r ∷ rs) v = elim (Bool-cases (ltb r.fetched r.modified)) [
  | inl yes_ ↦ rw yes_ (v.0, pending-All P rs v.1)
  | inr no_ ↦ rw no_ (pending-All P rs v.1)
]

take-All : (P : HostRow → Type 0) (n : ℕ) (rs : List HostRow) → All P rs → All P (take n rs)
take-All P zero rs v = tt
take-All P (suc n) [] v = tt
take-All P (suc n) (r ∷ rs) v = (v.0, take-All P n rs v.1)

pending-Ascending : (rs : List HostRow) → Ascending rs → Ascending (pending_hosts rs)
pending-Ascending [] v = tt
pending-Ascending (r ∷ rs) v = elim (Bool-cases (ltb r.fetched r.modified)) [
  | inl yes_ ↦ rw yes_ (pending-All (λ a. r.host.id < a.host.id) rs v.0, pending-Ascending rs v.1)
  | inr no_ ↦ rw no_ (pending-Ascending rs v.1)
]

-- Every row can be read.
abbrev pub AllRead : Readings → Type 0
AllRead rd =
    (rd.hosts.query ≡ true)
    × ((i : ℕ) → rd.hosts.row i ≡ true)
    × (rd.scans.query ≡ true)
    × ((i : ℕ) → rd.scans.row i ≡ true)
    × (rd.benchmarks.query ≡ true)
    × ((i : ℕ) → rd.benchmarks.row i ≡ true)

entries_of_lem :
    (readable : ℕ → Bool) (s : HostDbStore) (rs : List HostRow)
    → ((i : ℕ) → readable i ≡ true)
    → All (HasEntry s) rs
    → (hs : List HostDbEntry) × (entries_of readable s rs ≡ entries hs) × (ids hs ≡ row_ids rs)
unfolding entries_of
entries_of_lem readable s [] all v = ([], refl, refl)
entries_of_lem readable s (r ∷ rs) all ((h, e, id), v) =
    let (hs, e', ids') = entries_of_lem readable s rs all v in
    (
      record h { active_hosts = active_hosts_in_subnet h.ip_nets s.active_hosts_cache } ∷ hs,
      rw (all r.host.id, e, e', entries_of) refl,
      rw (id, ids') refl,
    )

all_scans_lem :
    (readable : ℕ → Bool) (rs : List ScanRow)
    → ((i : ℕ) → readable i ≡ true)
    → all_scans readable rs ≡ true
all_scans_lem readable [] all = refl
all_scans_lem readable (r ∷ rs) all = rw (all r.id, all_scans_lem readable rs all) refl

all_benchmarks_lem :
    (readable : ℕ → Bool) (rs : List BenchmarkRow)
    → ((i : ℕ) → readable i ≡ true)
    → all_benchmarks readable rs ≡ true
all_benchmarks_lem readable [] all = refl
all_benchmarks_lem readable (r ∷ rs) all = rw (all r.id, all_benchmarks_lem readable rs all) refl

with_entries_lem :
    (rd : Readings) (s : HostDbStore) (id : ℕ) (hs : List HostDbEntry)
    → AllRead rd
    → with_entries rd s id (entries hs)
      ≡ fetched (record s { last_update = batch_of s id hs }) (batch_of s id hs)
with_entries_lem rd s id hs (a, b, c, d, e, f) =
    rw
      (
        c,
        e,
        all_scans_lem rd.scans.row (batch_of s id hs).scans d,
        all_benchmarks_lem rd.benchmarks.row (batch_of s id hs).benchmarks f,
      )
      refl

-- The hosts that wait for delivery once a batch of 1000 has been delivered.
abbrev pub OneBatchLess : HostDbStore → List HostRow → Type 0
OneBatchLess s rows = pending_hosts rows ≡ drop batch_limit (pending_hosts s.host_rows)

-- A batch is got, and then confirmed, at `now` or later.
pub record Delivered (s : HostDbStore) (rd : Readings) (id now : ℕ) : Type 0 where
  pub got : HostDbStore
  pub batch : HostUpdates
  pub result : get_recent_updates rd s id ≡ fetched got batch
  pub sent :
      map (λ h. h.id) batch.hosts
      ≡ map (λ r. r.host.id) (take batch_limit (pending_hosts s.host_rows))
  pub confirmed :
      (k : Markings) (sql : Sql)
      → ((i : ℕ) → now ≤ k.hosts.clock i)
      → Ended (OneBatchLess s) s.saved.host_rows batch (finalize_updates k sql got id)
        × (NoFailure k sql → (finalize_updates k sql got id).1 ≡ none)

-- With a transaction that is not finished, an entry for every row and no row modified after `now`:
-- if every row can be read, `getRecentUpdates` does not panic and returns the first 1000 hosts that
-- wait for delivery. A `finalizeUpdates` of the same batch from `now` on ends in one of these ways,
-- whatever fails, and in the first one if nothing does: without an error, or with one of Begin, and
-- just these hosts wait no more; with an error of the commit, and the rows of the hosts are the last
-- committed ones; or with an error of a statement, and the batch is kept to be confirmed again.
pub deliver-Delivered :
    (s : HostDbStore) (rd : Readings) (id now : ℕ)
    → s.tx ≡ true
    → s.finished ≡ false
    → AllRead rd
    → Ascending s.host_rows
    → All (HasEntry s) s.host_rows
    → All (λ r. r.modified ≤ unix now) s.host_rows
    → Delivered s rd id now
unfolding get_recent_updates
deliver-Delivered s rd id now tx live read up has mods =
    let pending = pending_hosts s.host_rows in
    let (hs, e, same) =
      entries_of_lem rd.hosts.row s (take batch_limit pending) read.1
        (take-All (HasEntry s) batch_limit pending (pending-All (HasEntry s) s.host_rows has)) in
    let batch : HostUpdates = batch_of s id hs in
    let got : HostDbStore = record s { last_update = batch } in
    let asked : (rd.hosts.query && not s.finished) ≡ true = rw (read.0, live) refl in
    record {
      got = got;
      batch = batch;
      result =
          rw (past_check s.tx (failed no_transaction) _ tx, asked, e)
            (with_entries_lem rd s id hs read);
      sent = same;
      confirmed = λ k sql later. (
        finalize-Ended (OneBatchLess s) k sql got tx (λ all.
            pending-mark_hosts k.hosts now hs s.host_rows later mods all
            ∙ ap (λ is. remove_all is pending) same
            ∙ remove-taken batch_limit pending (pending-Ascending s.host_rows up)),
        λ (h, ds, db, c, b). finalize_good sql c b k got tx live h ds db,
      );
    }
