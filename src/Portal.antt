-- ===== src/Portal.antt =====
-- cmd/hsc/database.go: `getHosts`, which answers the portal's requests for lists of hosts. Strings are
-- lists of bytes; the hosts come in the order in which `range` visits the map.
pub mod Sorting
pub mod Pages
pub mod Tiers
mod Listed
mod Tests
use Prim.Native.Nat.{compare, Ordering}
use hostscore.Prelude.{
  ℕ, zero, suc, ◌+◌, ◌-◌, ◌^◌, ◌%◌, List, [], ◌∷◌, Bool, true, false, ◌&&◌, ◌||◌, Option, none,
  some, ltb, leb, ◌==◌, if◌then◌else◌, length, str_eq,
}
use hostscore.Prelude.Int.{ℤ, pos, negsuc}
use hostscore.Types.{HostSettings}

-- Of each node's scans, newest first, whether they succeeded.
pub record PortalHost : Type 0 where
  pub id : ℕ
  pub rank : ℕ
  pub public_key : ℕ
  pub net_address : List ℕ
  pub scan_histories : List (List Bool)
  pub settings : HostSettings

pub data SortType : Type 0 where
  no_sort sort_by_id sort_by_rank sort_by_total_storage sort_by_used_storage : SortType
  sort_by_storage_price sort_by_upload_price sort_by_download_price : SortType

abbrev pub good_history : List Bool → Bool
good_history [] = false
good_history (a ∷ []) = a
good_history (a ∷ b ∷ _) = a && b

abbrev pub any_good : List (List Bool) → Bool
any_good [] = false
any_good (h ∷ hs) = good_history h || any_good hs

unfoldable pub is_online : PortalHost → Bool
is_online host = any_good host.scan_histories

-- `strings.Contains`.
abbrev pub has_prefix : List ℕ → List ℕ → Bool
has_prefix s [] = true
has_prefix [] (c ∷ cs) = false
has_prefix (b ∷ bs) (c ∷ cs) = b == c && has_prefix bs cs

abbrev pub contains_str : List ℕ → List ℕ → Bool
contains_str [] q = has_prefix [] q
contains_str (b ∷ bs) q = has_prefix (b ∷ bs) q || contains_str bs q

unfoldable pub is_wanted : Bool → List ℕ → PortalHost → Bool
unfolding is_online
is_wanted all query host =
    (all || is_online host) && (str_eq query [] || contains_str host.net_address query)

unfoldable pub select_hosts : (PortalHost → Bool) → List PortalHost → List PortalHost
select_hosts wanted [] = []
select_hosts wanted (h ∷ hs) =
    let rest = select_hosts wanted hs in if wanted h then h ∷ rest else rest

abbrev pub find_key : ℕ → List PortalHost → Option PortalHost
find_key k [] = none
find_key k (h ∷ hs) = if h.public_key == k then some h else find_key k hs

-- The hosts of a country, by the keys that the table of locations has; `none` is the panic on a key
-- that has no host.
unfoldable pub select_keys :
    (PortalHost → Bool) → List PortalHost → List ℕ → Option (List PortalHost)
select_keys wanted hosts [] = some []
select_keys wanted hosts (k ∷ ks) =
    let rest = select_keys wanted hosts ks in
    elim (find_key k hosts) [
      | none ↦ none
      | some h ↦ elim rest [ none ↦ none | some hs ↦ some (if wanted h then h ∷ hs else hs) ]
    ]

-- `a.Settings.TotalStorage-a.Settings.RemainingStorage`, which wraps.
abbrev pub used_storage : HostSettings → ℕ
used_storage s = (s.total_storage + 2 ^ 64 - s.remaining_storage % 2 ^ 64) % 2 ^ 64

abbrev pub flip : Ordering → Ordering
flip o = elim o [
  | Ordering.lt ↦ Ordering.gt
  | Ordering.eq ↦ Ordering.eq
  | Ordering.gt ↦ Ordering.lt
]

abbrev pub directed : Bool → Ordering → Ordering
directed asc o = if asc then o else flip o

-- By a value, and by id where the values are equal.
abbrev pub by_value : Bool → ℕ → ℕ → Ordering → Ordering
by_value asc a b ids = elim (compare a b) [
  | Ordering.lt ↦ directed asc Ordering.lt
  | Ordering.eq ↦ ids
  | Ordering.gt ↦ directed asc Ordering.gt
]

-- The comparison of two hosts: of its result only the sign matters.
unfoldable pub compare_hosts : SortType → Bool → PortalHost → PortalHost → Ordering
compare_hosts no_sort asc a b = Ordering.eq
compare_hosts sort_by_id asc a b = directed asc (compare a.id b.id)
compare_hosts sort_by_rank asc a b = directed asc (compare a.rank b.rank)
compare_hosts sort_by_total_storage asc a b =
    by_value asc a.settings.total_storage b.settings.total_storage (compare a.id b.id)
compare_hosts sort_by_used_storage asc a b =
    by_value asc (used_storage a.settings) (used_storage b.settings) (compare a.id b.id)
compare_hosts sort_by_storage_price asc a b =
    by_value asc a.settings.storage_price b.settings.storage_price (compare a.id b.id)
compare_hosts sort_by_upload_price asc a b =
    by_value asc a.settings.upload_bandwidth_price b.settings.upload_bandwidth_price
      (compare a.id b.id)
compare_hosts sort_by_download_price asc a b =
    by_value asc a.settings.download_bandwidth_price b.settings.download_bandwidth_price
      (compare a.id b.id)

abbrev pub is_after : Ordering → Bool
is_after o = elim o [ Ordering.gt ↦ true | _ ↦ false ]

-- `slices.SortStableFunc`, as an insertion sort.
unfoldable pub insert :
    (PortalHost → PortalHost → Ordering) → PortalHost → List PortalHost → List PortalHost
insert cmp a [] = a ∷ []
insert cmp a (b ∷ bs) =
    let rest = insert cmp a bs in if is_after (cmp a b) then b ∷ rest else a ∷ b ∷ bs

unfoldable pub sort_stable :
    (PortalHost → PortalHost → Ordering) → List PortalHost → List PortalHost
unfolding insert
sort_stable cmp [] = []
sort_stable cmp (a ∷ rest) = insert cmp a (sort_stable cmp rest)

abbrev pub take : ℕ → List PortalHost → List PortalHost
take zero hs = []
take (suc n) [] = []
take (suc n) (h ∷ hs) = h ∷ take n hs

abbrev pub drop : ℕ → List PortalHost → List PortalHost
drop zero hs = hs
drop (suc n) [] = []
drop (suc n) (h ∷ hs) = drop n hs

-- `failed` is an error of the database, `panicked` a panic.
pub data Answer : Type 0 where
  panicked : Answer
  failed : Answer
  answer : List PortalHost → Bool → ℕ → Answer

-- A negative offset is 0, and none is past the end; a negative limit is no limit.
abbrev pub clamp_offset : ℤ → ℕ → ℕ
clamp_offset (pos n) total = if ltb total n then total else n
clamp_offset (negsuc n) total = 0

abbrev pub clamp_limit : ℤ → ℕ → ℕ
clamp_limit (pos n) total = n
clamp_limit (negsuc n) total = total

abbrev pub max_int : ℕ
max_int = 2 ^ 63

-- The page, and whether there are more hosts. A sum that passes 2 ^ 63 is negative: no test stops it,
-- and the slice expression panics.
unfoldable pub cut_page : ℤ → ℤ → List PortalHost → Option (List PortalHost × Bool)
cut_page offset limit hosts =
    let total = length hosts in
    let from = clamp_offset offset total in
    let wanted = clamp_limit limit total in
    let size = if ltb total (from + wanted) then total - from else wanted in
    if ltb (from + wanted) max_int
    then some (take size (drop from hosts), ltb (from + size) total)
    else none

-- `locate` is the look-up of a host's location, which sets nothing but that; `none` is an error.
unfoldable pub locate_all :
    (PortalHost → Option PortalHost) → List PortalHost → Option (List PortalHost)
locate_all locate [] = some []
locate_all locate (h ∷ hs) =
    let rest = locate_all locate hs in
    elim (locate h) [
      | none ↦ none
      | some h' ↦ elim rest [ none ↦ none | some hs' ↦ some (h' ∷ hs') ]
    ]

-- From the sort to the end.
unfoldable pub list_page :
    (PortalHost → Option PortalHost) → SortType → Bool → ℤ → ℤ → List PortalHost → Answer
unfolding sort_stable compare_hosts cut_page locate_all
list_page locate by asc offset limit hosts =
    elim (cut_page offset limit (sort_stable (compare_hosts by asc) hosts)) [
      | none ↦ panicked
      | some p ↦ elim (locate_all locate p.0) [
        | none ↦ failed
        | some page ↦ answer page p.1 (length hosts)
      ]
    ]

-- Which hosts are asked for: all of the network, or those of a country, whose keys the database is
-- asked for.
pub data Region : Type 0 where
  anywhere : Region
  query_failed : Region
  country : List ℕ → Region

unfoldable pub get_hosts :
    (PortalHost → Option PortalHost)
    → List PortalHost
    → Bool
    → ℤ
    → ℤ
    → List ℕ
    → Region
    → SortType
    → Bool
    → Answer
unfolding list_page is_wanted select_hosts select_keys
get_hosts locate hosts all offset limit query anywhere by asc =
    list_page locate by asc offset limit (select_hosts (is_wanted all query) hosts)
get_hosts locate hosts all offset limit query query_failed by asc = failed
get_hosts locate hosts all offset limit query (country keys) by asc =
    elim (select_keys (is_wanted all query) hosts keys) [
      | none ↦ panicked
      | some hs ↦ list_page locate by asc offset limit hs
    ]
