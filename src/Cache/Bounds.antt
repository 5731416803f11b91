-- ===== src/Cache/Bounds.antt =====
-- cmd/hsc/cache.go: the size of the cache, and which entries `putHosts` evicts.
use hostscore.Prelude.{
  ℕ, ◌+◌, ◌-◌, ◌≤◌, ◌<◌, ◌≡◌, refl, ap, ◌⊎◌, inl, inr, List, [], ◌∷◌, ◌++◌, Option, none, some,
  Bool, arith, ltb, length, Bool-cases, ltb→lt, ltb→le, le→ltb, sym, ◌∙◌,
}
use hostscore.Cache.{
  PortalHost, Request, CachedHosts, ResponseCache, cached_hosts_limit, new_cache, evict, put_hosts,
  prune_from, prune,
}

-- The hosts held by a list of entries.
abbrev pub total_hosts : List CachedHosts → ℕ
total_hosts [] = 0
total_hosts (ch ∷ rest) = length ch.hosts + total_hosts rest

total_hosts-append :
    (xs ys : List CachedHosts) → total_hosts (xs ++ ys) ≡ total_hosts xs + total_hosts ys
total_hosts-append [] ys = omega arith
total_hosts-append (x ∷ xs) ys = omega (arith, total_hosts-append xs ys)

pub record IsBounded (rc : ResponseCache) : Type 0 where
  pub exact : rc.count ≡ total_hosts rc.hosts
  pub within : rc.count ≤ cached_hosts_limit

-- `dropped` is needed in full: with its last entry kept the limit would be exceeded.
abbrev pub IsNeeded : List CachedHosts → ℕ → Type 0
IsNeeded dropped rest =
    (dropped ≡ [])
    ⊎ ((first : List CachedHosts) × (last : CachedHosts) × (dropped ≡ first ++ (last ∷ []))
        × (cached_hosts_limit < length last.hosts + rest))

record Evicted (n count : ℕ) (cs : List CachedHosts) : Type 0 where
  pub dropped : List CachedHosts
  pub kept : List CachedHosts
  pub count' : ℕ
  pub result : evict count cs ≡ some (count', kept)
  pub split : cs ≡ dropped ++ kept
  pub exact : count' ≡ total_hosts kept + n
  pub within : count' ≤ cached_hosts_limit
  pub needed : IsNeeded dropped (total_hosts kept + n)

IsNeeded-cons :
    (ch : CachedHosts) (dropped : List CachedHosts) (rest full : ℕ)
    → cached_hosts_limit < full
    → (dropped ≡ [] → full ≡ length ch.hosts + rest)
    → IsNeeded dropped rest
    → IsNeeded (ch ∷ dropped) rest
IsNeeded-cons ch dropped rest full h e (inl p) = inr ([], ch, ap (◌∷◌ ch) p, omega (arith, e p))
IsNeeded-cons ch dropped rest full h e (inr (first, last, p, lt)) =
    inr (ch ∷ first, last, ap (◌∷◌ ch) p, lt)

evict_lem :
    (n count : ℕ) (cs : List CachedHosts)
    → n ≤ cached_hosts_limit
    → count ≡ total_hosts cs + n
    → Evicted n count cs
unfolding evict
evict_lem n count [] h e = record {
  dropped = [];
  kept = [];
  count' = count;
  result = ground arith;
  split = refl;
  exact = e;
  within = omega arith;
  needed = inl refl;
}
evict_lem n count (ch ∷ rest) h e = elim (Bool-cases (ltb cached_hosts_limit count)) [
  | inl over ↦
      let r = evict_lem n (count - length ch.hosts) rest h (omega arith) in
      record {
        dropped = ch ∷ r.dropped;
        kept = r.kept;
        count' = r.count';
        result = rw (over, evict) r.result;
        split = ap (◌∷◌ ch) r.split;
        exact = r.exact;
        within = r.within;
        needed =
            IsNeeded-cons ch r.dropped (total_hosts r.kept + n) count (ltb→lt _ _ over)
              (λ p. omega (
                arith,
                e,
                ap total_hosts r.split,
                total_hosts-append r.dropped r.kept,
                ap total_hosts p,
              ))
              r.needed;
      }
  | inr under ↦ record {
    dropped = [];
    kept = ch ∷ rest;
    count' = count;
    result = rw (under, evict) refl;
    split = refl;
    exact = e;
    within = ltb→le _ _ under;
    needed = inl refl;
  }
]

-- The entry that `putHosts` adds.
abbrev pub new_entry : Request → List PortalHost → Bool → ℕ → ℕ → CachedHosts
new_entry q hosts more total now = record {
  hosts = hosts;
  more = more;
  total = total;
  request = q;
  modified = now;
}

pub record Stored (rc rc' : ResponseCache) (entry : CachedHosts) : Type 0 where
  pub dropped : List CachedHosts
  pub kept : List CachedHosts
  pub split : rc.hosts ≡ dropped ++ kept
  pub stored : rc'.hosts ≡ kept ++ (entry ∷ [])
  pub needed : IsNeeded dropped (total_hosts rc'.hosts)

-- What `putHosts` makes of an evicted cache.
put_hosts-Evicted :
    (rc : ResponseCache) (q : Request) (hosts : List PortalHost) (more : Bool) (total now : ℕ)
    → length hosts ≤ cached_hosts_limit
    → Evicted (length hosts) (rc.count + length hosts) rc.hosts
    → (rc' : ResponseCache) × (put_hosts rc q hosts more total now ≡ some rc')
      × IsBounded rc'
      × Stored rc rc' (new_entry q hosts more total now)
unfolding put_hosts
put_hosts-Evicted rc q hosts more total now h r =
    let entry = new_entry q hosts more total now in
    let sum : total_hosts (r.kept ++ entry ∷ []) ≡ total_hosts r.kept + length hosts =
      omega (arith, total_hosts-append r.kept (entry ∷ [])) in
    (
      record { hosts = r.kept ++ (entry ∷ []); count = r.count' },
      rw (le→ltb cached_hosts_limit (length hosts) h, r.result) refl,
      record { exact = r.exact ∙ sym sum; within = r.within },
      record {
        dropped = r.dropped;
        kept = r.kept;
        split = r.split;
        stored = refl;
        needed = rw sum r.needed;
      },
    )

-- From a bounded cache, `putHosts` of at most 2000 hosts returns (the loop never indexes an empty
-- list), leaves a bounded cache, appends the new entry, and drops the oldest entries alone: the
-- shortest such prefix that brings the cache within its limit.
pub put_hosts-Stored :
    (rc : ResponseCache) (q : Request) (hosts : List PortalHost) (more : Bool) (total now : ℕ)
    → IsBounded rc
    → length hosts ≤ cached_hosts_limit
    → (rc' : ResponseCache) × (put_hosts rc q hosts more total now ≡ some rc')
      × IsBounded rc'
      × Stored rc rc' (new_entry q hosts more total now)
put_hosts-Stored rc q hosts more total now v h =
    put_hosts-Evicted rc q hosts more total now h
      (evict_lem (length hosts) (rc.count + length hosts) rc.hosts h (omega (arith, v.exact)))

put_hosts_total :
    (rc : ResponseCache) (q : Request) (hosts : List PortalHost) (more : Bool) (total now : ℕ)
    → IsBounded rc
    → (rc' : ResponseCache) × (put_hosts rc q hosts more total now ≡ some rc') × IsBounded rc'
unfolding put_hosts
put_hosts_total rc q hosts more total now v =
    elim (Bool-cases (ltb cached_hosts_limit (length hosts))) [
      | inl big ↦ (rc, rw big refl, v)
      | inr fits ↦
          let (rc', e, v', _) = put_hosts-Stored rc q hosts more total now v (ltb→le _ _ fits) in
          (rc', e, v')
    ]

prune_from-count :
    (now count : ℕ) (cs : List CachedHosts)
    → (prune_from now count cs).count ≡ count + total_hosts (prune_from now count cs).hosts
unfolding prune_from
prune_from-count now count [] = omega arith
prune_from-count now count (ch ∷ rest) =
    ground
      (arith, prune_from-count now count rest, prune_from-count now (count + length ch.hosts) rest)

prune_from-le :
    (now count : ℕ) (cs : List CachedHosts)
    → (prune_from now count cs).count ≤ count + total_hosts cs
unfolding prune_from
prune_from-le now count [] = omega arith
prune_from-le now count (ch ∷ rest) =
    ground (arith, prune_from-le now count rest, prune_from-le now (count + length ch.hosts) rest)

prune-IsBounded : (rc : ResponseCache) (now : ℕ) → IsBounded rc → IsBounded (prune rc now)
unfolding prune
prune-IsBounded rc now v = record {
  exact = omega (arith, prune_from-count now 0 rc.hosts);
  within = omega (arith, prune_from-le now 0 rc.hosts, v.exact, v.within);
}

-- The calls that change the cache, each with the time at which it runs.
pub data Call : Type 0 where
  puts : Request → List PortalHost → Bool → ℕ → ℕ → Call
  prunes : ℕ → Call

pub call : ResponseCache → Call → Option ResponseCache
call rc (puts q hosts more total now) = put_hosts rc q hosts more total now
call rc (prunes now) = some (prune rc now)

pub run : ResponseCache → List Call → Option ResponseCache
run rc [] = some rc
run rc (c ∷ cs) = elim (call rc c) [ none ↦ none | some rc' ↦ run rc' cs ]

call-IsBounded :
    (rc : ResponseCache) (c : Call)
    → IsBounded rc
    → (rc' : ResponseCache) × (call rc c ≡ some rc') × IsBounded rc'
unfolding call
call-IsBounded rc (puts q hosts more total now) v = put_hosts_total rc q hosts more total now v
call-IsBounded rc (prunes now) v = (prune rc now, refl, prune-IsBounded rc now v)

run-IsBounded :
    (rc : ResponseCache) (cs : List Call)
    → IsBounded rc
    → (rc' : ResponseCache) × (run rc cs ≡ some rc') × IsBounded rc'
unfolding run
run-IsBounded rc [] v = (rc, refl, v)
run-IsBounded rc (c ∷ cs) v =
    let (rc₁, e, v₁) = call-IsBounded rc c v in
    let (rc₂, e', v₂) = run-IsBounded rc₁ cs v₁ in (rc₂, rw (e, run) e', v₂)

-- No sequence of `putHosts` calls and prune rounds panics, and after it `count` is the number of
-- hosts that are cached, which is at most 2000.
pub run-new_cache :
    (cs : List Call) → (rc : ResponseCache) × (run new_cache cs ≡ some rc) × IsBounded rc
unfolding new_cache
run-new_cache cs = run-IsBounded new_cache cs (record { exact = refl; within = omega arith })
