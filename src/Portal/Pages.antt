-- ===== src/Portal/Pages.antt =====
-- cmd/hsc/database.go: the pages of a listing, which do not depend on the order of the map.
use Prim.Native.Nat.{Ordering}
use hostscore.Prelude.{
  ℕ, zero, suc, ◌+◌, ◌-◌, ◌≤◌, ◌<◌, ◌≡◌, refl, sym, ap, ◌∙◌, List, [], ◌∷◌, ◌++◌, Bool, true,
  Option, none, some, ltb, if◌then◌else◌, length, arith, All, Bool-cases, inl, inr,
}
use hostscore.Prelude.Int.{pos}
use hostscore.Portal.{
  PortalHost, SortType, compare_hosts, is_wanted, select_hosts, insert, sort_stable, take, drop,
  cut_page, locate_all, list_page, get_hosts, Answer, failed, answer, anywhere, max_int,
}
use hostscore.Portal.Sorting.{
  IsOrder, compare_hosts-IsOrder, Sorted, sort_stable-Sorted, Apart, Rearranged, empty, moved,
  sort_stable-Rearranged,
}
use mathlib.Core.Path.{subst}

-- How often a test succeeds on a list.
abbrev pub count : (PortalHost → Bool) → List PortalHost → ℕ
count p [] = 0
count p (h ∷ hs) = (if p h then 1 else 0) + count p hs

count-insert :
    (cmp : PortalHost → PortalHost → Ordering) (p : PortalHost → Bool) (a : PortalHost)
    (l : List PortalHost)
    → count p (insert cmp a l) ≡ (if p a then 1 else 0) + count p l
unfolding insert
count-insert cmp p a [] = refl
count-insert cmp p a (b ∷ l) = ground (arith, count-insert cmp p a l)

pub count-sort_stable :
    (cmp : PortalHost → PortalHost → Ordering) (p : PortalHost → Bool) (l : List PortalHost)
    → count p (sort_stable cmp l) ≡ count p l
unfolding sort_stable
count-sort_stable cmp p [] = refl
count-sort_stable cmp p (a ∷ l) =
    omega (arith, count-insert cmp p a (sort_stable cmp l), count-sort_stable cmp p l)

length-count : (l : List PortalHost) → length l ≡ count (λ _. true) l
length-count [] = refl
length-count (a ∷ l) = omega (arith, length-count l)

length-sort_stable :
    (cmp : PortalHost → PortalHost → Ordering) (l : List PortalHost)
    → length (sort_stable cmp l) ≡ length l
length-sort_stable cmp l =
    omega
      (arith, length-count (sort_stable cmp l), length-count l, count-sort_stable cmp (λ _. true) l)

select_hosts-append :
    (w : PortalHost → Bool) (xs ys : List PortalHost)
    → select_hosts w (xs ++ ys) ≡ select_hosts w xs ++ select_hosts w ys
unfolding select_hosts
select_hosts-append w [] ys = refl
select_hosts-append w (x ∷ xs) ys = elim (Bool-cases (w x)) [
  | inl h ↦ rw h (ap (◌∷◌ x) (select_hosts-append w xs ys))
  | inr h ↦ rw h (select_hosts-append w xs ys)
]

select_hosts-All :
    (w : PortalHost → Bool) (P : PortalHost → Type 0) (xs : List PortalHost)
    → All P xs
    → All P (select_hosts w xs)
unfolding select_hosts
select_hosts-All w P [] ps = tt
select_hosts-All w P (x ∷ xs) ps = elim (Bool-cases (w x)) [
  | inl h ↦ rw h (ps.0, select_hosts-All w P xs ps.1)
  | inr h ↦ rw h (select_hosts-All w P xs ps.1)
]

-- What is selected from a rearranged map is rearranged.
select_hosts-Rearranged :
    (cmp : PortalHost → PortalHost → Ordering) (order : IsOrder cmp) (w : PortalHost → Bool)
    (l r : List PortalHost)
    → Rearranged cmp order l r
    → Rearranged cmp order (select_hosts w l) (select_hosts w r)
unfolding select_hosts
select_hosts-Rearranged cmp order w _ _ empty = empty
select_hosts-Rearranged cmp order w _ _ (moved a l xs ys h r) =
    let ih : Rearranged cmp order (select_hosts w l) (select_hosts w xs ++ select_hosts w ys) =
      subst (Rearranged cmp order (select_hosts w l)) (select_hosts-append w xs ys)
        (select_hosts-Rearranged cmp order w l (xs ++ ys) r) in
    subst (Rearranged cmp order (select_hosts w (a ∷ l))) (sym (select_hosts-append w xs (a ∷ ys)))
      (elim (Bool-cases (w a)) [
        | inl h' ↦ rw h' (
            moved a (select_hosts w l) (select_hosts w xs) (select_hosts w ys)
              (select_hosts-All w (Apart cmp order a) xs h) ih)
        | inr h' ↦ rw h' ih
      ])

pub take_past : (n : ℕ) (l : List PortalHost) → length l ≤ n → take n l ≡ l
take_past zero [] le = refl
take_past zero (x ∷ l) le = absurd (omega arith)
take_past (suc n) [] le = refl
take_past (suc n) (x ∷ l) le = ap (◌∷◌ x) (take_past n l (omega arith))

pub drop_past : (n : ℕ) (l : List PortalHost) → length l ≤ n → drop n l ≡ []
drop_past zero [] le = refl
drop_past zero (x ∷ l) le = absurd (omega arith)
drop_past (suc n) [] le = refl
drop_past (suc n) (x ∷ l) le = drop_past n l (omega arith)

pub length-drop : (n : ℕ) (l : List PortalHost) → length (drop n l) ≡ length l - n
length-drop zero l = omega arith
length-drop (suc n) [] = omega arith
length-drop (suc n) (x ∷ l) = omega (arith, length-drop n l)

-- A page that is cut is the page that was asked for.
cut_page_lem :
    (o n : ℕ) (l : List PortalHost)
    → o + n < max_int
    → cut_page (pos o) (pos n) l ≡ some (take n (drop o l), ltb (o + n) (length l))
unfolding cut_page
cut_page_lem o n l small =
    let total = length l in
    let from = if ltb total o then total else o in
    let size = if ltb total (from + n) then total - from else n in
    let fits : ltb (from + n) max_int ≡ true = ground arith in
    let dropped : drop from l ≡ drop o l = elim (Bool-cases (ltb total o)) [
      | inl past ↦ rw past (drop_past total l (omega arith) ∙ sym (drop_past o l (ground arith)))
      | inr inside ↦ rw inside refl
    ] in
    let taken : take size (drop from l) ≡ take n (drop from l) =
      elim (Bool-cases (ltb total (from + n))) [
        | inl past ↦ rw past (
            take_past (total - from) (drop from l) (omega (arith, length-drop from l))
            ∙ sym (take_past n (drop from l) (ground (arith, length-drop from l))))
        | inr inside ↦ rw inside refl
      ] in
    let more : ltb (from + size) total ≡ ltb (o + n) total = ground arith in
    rw (fits, taken, dropped, more) refl

-- The answer with a page whose hosts are located.
abbrev pub located : (PortalHost → Option PortalHost) → List PortalHost → Bool → ℕ → Answer
located locate page more total = elim (locate_all locate page) [
  | none ↦ failed
  | some hs ↦ answer hs more total
]

list_page_lem :
    (locate : PortalHost → Option PortalHost) (by : SortType) (asc : Bool) (o n : ℕ)
    (seen l : List PortalHost)
    → sort_stable (compare_hosts by asc) seen ≡ l
    → o + n < max_int
    → list_page locate by asc (pos o) (pos n) seen
      ≡ located locate (take n (drop o l)) (ltb (o + n) (length l)) (length seen)
unfolding list_page
list_page_lem locate by asc o n seen l same small =
    rw (same, cut_page_lem o n l small, list_page) refl

-- The hosts that a request lists, sorted, from one visit of the map.
unfoldable pub listing : SortType → Bool → Bool → List ℕ → List PortalHost → List PortalHost
unfolding sort_stable select_hosts
listing by asc all query hosts =
    sort_stable (compare_hosts by asc) (select_hosts (is_wanted all query) hosts)

-- For hosts of which no two compare equal in the asked order, a listing without a country is sorted
-- and has each wanted host as often as the map. Whatever the order in which a later request visits the
-- same map, an offset and a limit of at least 0, whose sum is below 2 ^ 63, give the hosts of the
-- listing from the offset on, at most as many as the limit, with the total and whether there are
-- more; only the look-up of their locations may fail. So consecutive pages make up the listing.
pub get_hosts-Pages :
    (locate : PortalHost → Option PortalHost) (by : SortType) (asc all : Bool) (query : List ℕ)
    (hosts visited : List PortalHost) (o n : ℕ)
    → Rearranged (compare_hosts by asc) (compare_hosts-IsOrder by asc) visited hosts
    → o + n < max_int
    → Sorted (compare_hosts by asc) (compare_hosts-IsOrder by asc) (listing by asc all query hosts)
      × ((p : PortalHost → Bool)
          → count p (listing by asc all query hosts)
            ≡ count p (select_hosts (is_wanted all query) hosts))
      × (get_hosts locate visited all (pos o) (pos n) query anywhere by asc
          ≡ located locate
              (take n (drop o (listing by asc all query hosts)))
              (ltb (o + n) (length (listing by asc all query hosts)))
              (length (listing by asc all query hosts)))
unfolding listing get_hosts
get_hosts-Pages locate by asc all query hosts visited o n r small =
    let cmp = compare_hosts by asc in
    let order = compare_hosts-IsOrder by asc in
    let wanted = select_hosts (is_wanted all query) hosts in
    let seen = select_hosts (is_wanted all query) visited in
    let same : sort_stable cmp seen ≡ sort_stable cmp wanted =
      sort_stable-Rearranged cmp order seen wanted
        (select_hosts-Rearranged cmp order (is_wanted all query) visited hosts r) in
    let size : length seen ≡ length (sort_stable cmp wanted) =
      sym (length-sort_stable cmp seen) ∙ ap length same in
    (
      sort_stable-Sorted cmp order wanted,
      λ p. count-sort_stable cmp p wanted,
      list_page_lem locate by asc o n seen (sort_stable cmp wanted) same small
          ∙ ap
              (λ t.
                located locate (take n (drop o (sort_stable cmp wanted)))
                  (ltb (o + n) (length (sort_stable cmp wanted))) t)
              size,
    )
