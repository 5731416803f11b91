-- ===== src/Cache/Lookup.antt =====
-- cmd/hsc/cache.go: what `getHosts` finds after `putHosts` and `prune`.
use text.Mathlib.TextPositions.{eq_refl}
use text.Mathlib.TextEquality.{eq_iff}
use mathlib.Core.List.{Memᴰ}
use hostscore.Cache.Bounds.{IsBounded, new_entry, put_hosts-Stored}
use hostscore.Prelude.{
  ℕ, ◌+◌, ◌-◌, ◌≤◌, ◌<◌, ◌≡◌, refl, sym, ◌∙◌, ◌==◌, inl, inr, Option-cases, List, [], ◌∷◌, ◌++◌,
  none, some, Bool, true, false, ◌&&◌, arith, length, bool_eq, Bool-cases, lt→ltb,
}
use hostscore.Cache.{
  PortalHost, Request, CachedHosts, ResponseCache, hosts_expire_threshold, cached_hosts_limit,
  is_fresh, same_request, find_entry, get_hosts, put_hosts, prune_from, prune, page,
}

bool_eq_refl : (b : Bool) → bool_eq b b ≡ true
bool_eq_refl true = refl
bool_eq_refl false = refl

bool_eq-eq : (a b : Bool) → bool_eq a b ≡ true → a ≡ b
bool_eq-eq true b h = sym h
bool_eq-eq false true h = cc
bool_eq-eq false false h = refl

eq_self : (n : ℕ) → (n == n) ≡ true
eq_self n = ground arith

same_request_refl : (q : Request) → same_request q q ≡ true
unfolding same_request
same_request_refl q = simp (eq_refl, bool_eq_refl, eq_self)

-- An entry that has gone stale stays so.
is_fresh_mono : (ch : CachedHosts) (s t : ℕ) → s ≤ t → is_fresh s ch ≡ false → is_fresh t ch ≡ false
is_fresh_mono ch s t h e = ground arith

-- Entries that answer no request at `s` answer none later.
find_entry-stale :
    (q : Request) (s t : ℕ) (cs : List CachedHosts)
    → s ≤ t
    → find_entry q s cs ≡ none
    → find_entry q t cs ≡ none
unfolding find_entry
find_entry-stale q s t [] h e = refl
find_entry-stale q s t (ch ∷ rest) h e =
    ground (arith, find_entry-stale q s t rest h, is_fresh_mono ch s t h)

find_entry-append :
    (q : Request) (t : ℕ) (xs ys : List CachedHosts)
    → find_entry q t xs ≡ none
    → find_entry q t (xs ++ ys) ≡ find_entry q t ys
unfolding find_entry
find_entry-append q t [] ys e = refl
find_entry-append q t (x ∷ xs) ys e = ground (arith, find_entry-append q t xs ys)

find_entry-suffix :
    (q : Request) (t : ℕ) (xs ys : List CachedHosts)
    → find_entry q t (xs ++ ys) ≡ none
    → find_entry q t ys ≡ none
unfolding find_entry
find_entry-suffix q t [] ys e = e
find_entry-suffix q t (x ∷ xs) ys e = ground (arith, find_entry-suffix q t xs ys)

get_hosts-none :
    (rc : ResponseCache) (q : Request) (t : ℕ)
    → get_hosts rc q t ≡ none
    → find_entry q t rc.hosts ≡ none
unfolding get_hosts
get_hosts-none rc q t e = ground arith

find_entry-new :
    (q : Request) (hosts : List PortalHost) (more : Bool) (total now t : ℕ)
    → t < now + hosts_expire_threshold
    → let entry = new_entry q hosts more total now in find_entry q t (entry ∷ []) ≡ some entry
unfolding find_entry
find_entry-new q hosts more total now t h =
    rw (same_request_refl q) (rw (lt→ltb (t - now) hosts_expire_threshold (omega arith)) refl)

-- What a request stores is what the same request reads back: after a miss at `s`, `putHosts` at
-- `now` of at most 2000 hosts makes `getHosts` return just these hosts, for 10 minutes from `now`.
pub get_hosts-put_hosts :
    (rc : ResponseCache) (q : Request) (hosts : List PortalHost) (more : Bool) (total s now t : ℕ)
    → IsBounded rc
    → length hosts ≤ cached_hosts_limit
    → get_hosts rc q s ≡ none
    → s ≤ t
    → t < now + hosts_expire_threshold
    → (rc' : ResponseCache) × (put_hosts rc q hosts more total now ≡ some rc')
      × (get_hosts rc' q t ≡ some (hosts, more, total))
unfolding get_hosts
get_hosts-put_hosts rc q hosts more total s now t v fits miss le lt =
    let (rc', e, _, st) = put_hosts-Stored rc q hosts more total now v fits in
    let missed : find_entry q s (st.dropped ++ st.kept) ≡ none =
      rw st.split at (get_hosts-none rc q s miss) in
    let stale : find_entry q t st.kept ≡ none =
      find_entry-stale q s t st.kept le (find_entry-suffix q s st.dropped st.kept missed) in
    let found : find_entry q t rc'.hosts ≡ some (new_entry q hosts more total now) =
      rw st.stored
        (find_entry-append q t st.kept _ stale ∙ find_entry-new q hosts more total now t lt) in
    (rc', e, rw found refl)

find_entry-prune_from :
    (q : Request) (now count t : ℕ) (cs : List CachedHosts)
    → now ≤ t
    → find_entry q t (prune_from now count cs).hosts ≡ find_entry q t cs
unfolding find_entry prune_from
find_entry-prune_from q now count t [] h = refl
find_entry-prune_from q now count t (ch ∷ rest) h = ground (
  arith,
  find_entry-prune_from q now count t rest h,
  find_entry-prune_from q now (count + length ch.hosts) t rest h,
)

-- A prune round at `now` changes no later answer: it drops only entries that have expired.
get_hosts-prune :
    (rc : ResponseCache) (q : Request) (now t : ℕ)
    → now ≤ t
    → get_hosts (prune rc now) q t ≡ get_hosts rc q t
unfolding get_hosts prune
get_hosts-prune rc q now t h = rw (find_entry-prune_from q now 0 t rc.hosts h) refl

same_request-eq : (a b : Request) → same_request a b ≡ true → a ≡ b
unfolding same_request
same_request-eq a b h = ground (
  arith,
  eq_iff a.network b.network,
  eq_iff a.query b.query,
  eq_iff a.country b.country,
  bool_eq-eq a.all b.all,
  bool_eq-eq a.asc b.asc,
)

-- An entry of the list that answers `q` at `t` with `r`.
abbrev pub Answers : Request → ℕ → List PortalHost × Bool × ℕ → CachedHosts → Type 0
Answers q t r ch = (ch.request ≡ q) × (t < ch.modified + hosts_expire_threshold) × (page ch ≡ r)

find_entry-Answers :
    (q : Request) (t : ℕ) (ch : CachedHosts) (cs : List CachedHosts)
    → find_entry q t cs ≡ some ch
    → Memᴰ ch cs × (ch.request ≡ q) × (t < ch.modified + hosts_expire_threshold)
unfolding find_entry
find_entry-Answers q t ch [] e = cc
find_entry-Answers q t ch (x ∷ xs) e =
    elim (Bool-cases (same_request x.request q && is_fresh t x)) [
      | inl hit ↦
          let same : x ≡ ch = ground arith in
          (
            Memᴰ.head (sym same),
            rw (← same) (same_request-eq x.request q (ground arith)),
            rw (← same) (ground arith),
          )
      | inr miss ↦
          let (m, same, fresh) = find_entry-Answers q t ch xs (rw (miss, find_entry) at e) in
          (Memᴰ.tail m, same, fresh)
    ]

-- `getHosts` never makes an answer up: it is the page of a stored entry for the very same request,
-- younger than 10 minutes.
pub get_hosts-Answers :
    (rc : ResponseCache) (q : Request) (t : ℕ) (r : List PortalHost × Bool × ℕ)
    → get_hosts rc q t ≡ some r
    → (ch : CachedHosts) × Memᴰ ch rc.hosts × Answers q t r ch
unfolding get_hosts
get_hosts-Answers rc q t r e = elim (Option-cases (find_entry q t rc.hosts)) [
  | inl missing ↦ cc
  | inr (ch, found) ↦
      let (m, same, fresh) = find_entry-Answers q t ch rc.hosts found in
      (ch, m, (same, fresh, ground arith))
]
