-- ===== src/Portal/Tests.antt =====
-- Three hosts, one of them offline, listed by storage price.
use hostscore.Prelude.{◌≡◌, refl, [], ◌∷◌, List, Bool, true, false, some, arith, ltb, length}
use hostscore.Prelude.Int.{pos}
use hostscore.Portal.Listed.{host}
use hostscore.Portal.{
  PortalHost, sort_by_storage_price, compare_hosts, is_wanted, select_hosts, take, drop, get_hosts,
  anywhere, panicked, answer,
}
use hostscore.Portal.Sorting.{compare_hosts-IsOrder, Sorted, Rearranged, empty, moved}
use hostscore.Portal.Pages.{listing, count, located, get_hosts-Pages}

abbrev hosts : List PortalHost
hosts = host 1 30 true ∷ host 2 10 true ∷ host 3 20 false ∷ []

abbrev visited : List PortalHost
visited = host 2 10 true ∷ host 1 30 true ∷ host 3 20 false ∷ []

visited-Rearranged :
    Rearranged
      (compare_hosts sort_by_storage_price true)
      (compare_hosts-IsOrder sort_by_storage_price true)
      visited
      hosts
unfolding compare_hosts
visited-Rearranged =
    moved (host 2 10 true) _ (host 1 30 true ∷ []) (host 3 20 false ∷ []) (refl, tt)
      (moved (host 1 30 true) _ [] (host 3 20 false ∷ []) tt
        (moved (host 3 20 false) _ [] [] tt empty))

get_hosts-Pages_example :
    let l = listing sort_by_storage_price true false [] hosts in
    Sorted
      (compare_hosts sort_by_storage_price true)
      (compare_hosts-IsOrder sort_by_storage_price true)
      l
    × ((p : PortalHost → Bool) → count p l ≡ count p (select_hosts (is_wanted false []) hosts))
    × (get_hosts some visited false (pos 1) (pos 1) [] anywhere sort_by_storage_price true
        ≡ located some (take 1 (drop 1 l)) (ltb 2 (length l)) (length l))
get_hosts-Pages_example =
    get_hosts-Pages some sort_by_storage_price true false [] hosts visited 1 1 visited-Rearranged
      (omega arith)

-- The second page of one host is the last.
second_page :
    get_hosts some visited false (pos 1) (pos 1) [] anywhere sort_by_storage_price true
    ≡ answer (host 1 30 true ∷ []) false 2
unfolding get_hosts
second_page = refl

-- A limit of 2 ^ 63 - 1 past the first host.
huge_limit :
    get_hosts some visited false
      (pos 1)
      (pos 9_223_372_036_854_775_807)
      []
      anywhere
      sort_by_storage_price
      true
    ≡ panicked
unfolding get_hosts
huge_limit = refl
