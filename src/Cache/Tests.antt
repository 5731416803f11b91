-- ===== src/Cache/Tests.antt =====
-- A cache at its limit, and the theorems at it.
use mathlib.Core.List.{Memᴰ}
use hostscore.Prelude.{◌≡◌, refl, [], ◌∷◌, some, true, false, List, arith}
use hostscore.Cache.{
  PortalHost, Request, CachedHosts, ResponseCache, put_hosts, get_hosts, new_cache,
}
use hostscore.Cache.Bounds.{
  IsBounded, Stored, new_entry, put_hosts-Stored, Call, puts, prunes, run, run-new_cache,
}
use hostscore.Cache.Lookup.{Answers, get_hosts-put_hosts, get_hosts-Answers}

-- Two requests that differ in the offset alone.
abbrev first_page : Request
first_page = record {
  network = "mainnet";
  all = true;
  offset = 0;
  limit = 10;
  query = "";
  country = "de";
  sort_by = 1;
  asc = true;
}

abbrev second_page : Request
second_page = record first_page { offset = 10 }

abbrev some_hosts : List PortalHost
some_hosts = record { id = 1; public_key = 11 } ∷ record { id = 2; public_key = 12 } ∷ []

abbrev one_entry : ResponseCache
one_entry = record { hosts = new_entry first_page some_hosts true 7 100 ∷ []; count = 2 }

one_entry-IsBounded : IsBounded one_entry
one_entry-IsBounded = record { exact = refl; within = omega arith }

put_hosts-Stored_example :
    (rc' : ResponseCache) × (put_hosts one_entry second_page some_hosts false 7 200 ≡ some rc')
    × IsBounded rc'
    × Stored one_entry rc' (new_entry second_page some_hosts false 7 200)
put_hosts-Stored_example =
    put_hosts-Stored one_entry second_page some_hosts false 7 200 one_entry-IsBounded (omega arith)

abbrev some_calls : List Call
some_calls = puts first_page some_hosts true 7 100 ∷ prunes 900 ∷ []

run-new_cache_example : (rc : ResponseCache) × (run new_cache some_calls ≡ some rc) × IsBounded rc
run-new_cache_example = run-new_cache some_calls

get_hosts-put_hosts_example :
    (rc' : ResponseCache) × (put_hosts one_entry second_page some_hosts false 7 200 ≡ some rc')
    × (get_hosts rc' second_page 300 ≡ some (some_hosts, false, 7))
unfolding get_hosts
get_hosts-put_hosts_example =
    get_hosts-put_hosts one_entry second_page some_hosts false 7 150 200 300 one_entry-IsBounded
      (omega arith) refl (omega arith) (omega arith)

get_hosts-Answers_example :
    (ch : CachedHosts) × Memᴰ ch one_entry.hosts × Answers first_page 300 (some_hosts, true, 7) ch
unfolding get_hosts
get_hosts-Answers_example = get_hosts-Answers one_entry first_page 300 (some_hosts, true, 7) refl
