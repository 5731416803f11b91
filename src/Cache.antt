-- ===== src/Cache.antt =====
-- cmd/hsc/cache.go: the portal's cache of host lists. A time is a number of nanoseconds, and an
-- operation that reads the clock takes `now`. `none` is a panic (an index out of range).
pub mod Bounds
pub mod Lookup
mod Tests
use Prim.Native.String.{String}
use text.Mathlib.Text.{◌==◌ as str_eq}
use mathlib.Core.Option
use hostscore.Prelude.{
  ℕ, ◌+◌, ◌-◌, List, [], ◌∷◌, ◌++◌, Option, none, some, Bool, ◌&&◌, ltb, ◌==◌, bool_eq,
  if◌then◌else◌, length,
}

-- 10 minutes.
abbrev pub hosts_expire_threshold : ℕ
hosts_expire_threshold = 600_000_000_000

abbrev pub cached_hosts_limit : ℕ
cached_hosts_limit = 2000

-- The two fields of a portal host that tell hosts apart; the others are carried along unread.
pub record PortalHost : Type 0 where
  pub id : ℕ
  pub public_key : ℕ

-- The arguments that `getHosts` and `putHosts` share.
pub record Request : Type 0 where
  pub network : String
  pub all : Bool
  pub offset : ℕ
  pub limit : ℕ
  pub query : String
  pub country : String
  pub sort_by : ℕ
  pub asc : Bool

pub record CachedHosts : Type 0 where
  pub hosts : List PortalHost
  pub more : Bool
  pub total : ℕ
  pub request : Request
  pub modified : ℕ

pub record ResponseCache : Type 0 where
  pub hosts : List CachedHosts
  pub count : ℕ

unfoldable pub new_cache : ResponseCache
new_cache = record { hosts = []; count = 0 }

-- `time.Since(modified) < hostsExpireThreshold`.
abbrev pub is_fresh : ℕ → CachedHosts → Bool
is_fresh now ch = ltb (now - ch.modified) hosts_expire_threshold

same_request : Request → Request → Bool
same_request a b =
    str_eq a.network b.network
    && (bool_eq a.all b.all
        && (a.offset == b.offset
            && (a.limit == b.limit
                && (str_eq a.query b.query
                    && (str_eq a.country b.country
                        && (a.sort_by == b.sort_by && bool_eq a.asc b.asc))))))

-- The inner loop of `getHost`.
find_key : ℕ → List PortalHost → Option PortalHost
find_key pk [] = none
find_key pk (h ∷ hs) = if h.public_key == pk then some h else find_key pk hs

find_host : String → ℕ → List CachedHosts → Option PortalHost
find_host network pk [] = none
find_host network pk (ch ∷ rest) =
    let later = find_host network pk rest in
    if str_eq ch.request.network network
    then elim (find_key pk ch.hosts) [ some h ↦ some h | none ↦ later ]
    else later

unfoldable pub get_host : ResponseCache → String → ℕ → Option PortalHost
unfolding find_host find_key
get_host rc network pk = find_host network pk rc.hosts

find_entry : Request → ℕ → List CachedHosts → Option CachedHosts
find_entry q now [] = none
find_entry q now (ch ∷ rest) =
    if same_request ch.request q && is_fresh now ch then some ch else find_entry q now rest

-- What `getHosts` returns when `ok`.
abbrev pub page : CachedHosts → List PortalHost × Bool × ℕ
page ch = (ch.hosts, ch.more, ch.total)

unfoldable pub get_hosts : ResponseCache → Request → ℕ → Option (List PortalHost × Bool × ℕ)
unfolding find_entry same_request
get_hosts rc q now = Option.map page (find_entry q now rc.hosts)

-- The loop of `putHosts`. `rc.hosts[0]` panics on an empty list. With `count` the sum of the
-- lengths the subtraction is exact.
evict : ℕ → List CachedHosts → Option (ℕ × List CachedHosts)
evict count [] = if ltb cached_hosts_limit count then none else some (count, [])
evict count (ch ∷ rest) =
    if ltb cached_hosts_limit count
    then evict (count - length ch.hosts) rest
    else some (count, ch ∷ rest)

unfoldable pub put_hosts :
    ResponseCache → Request → List PortalHost → Bool → ℕ → ℕ → Option ResponseCache
unfolding evict
put_hosts rc q hosts more total now =
    if ltb cached_hosts_limit (length hosts)
    then some rc
    else elim (evict (rc.count + length hosts) rc.hosts) [
      | none ↦ none
      | some (count, kept) ↦ some (record { hosts = kept ++ (entry ∷ []); count = count })
    ]
  where
    entry : CachedHosts
    entry = record { hosts = hosts; more = more; total = total; request = q; modified = now }

-- One round of `prune`: the count starts at 0 and the index at the head.
prune_from : ℕ → ℕ → List CachedHosts → ResponseCache
prune_from now count [] = record { hosts = []; count = count }
prune_from now count (ch ∷ rest) =
    if ltb hosts_expire_threshold (now - ch.modified)
    then prune_from now count rest
    else (let tail = prune_from now (count + length ch.hosts) rest in
        record tail { hosts = ch ∷ tail.hosts })

unfoldable pub prune : ResponseCache → ℕ → ResponseCache
unfolding prune_from
prune rc now = prune_from now 0 rc.hosts
