-- ===== src/Portal/Sorting.antt =====
-- cmd/hsc/database.go: the order of a listing of hosts.
use Prim.Native.Nat.{compare, Ordering}
use hostscore.Prelude.{
  ℕ, ◌≡◌, refl, sym, ap, ◌∙◌, List, [], ◌∷◌, ◌++◌, Bool, true, false, not, if◌then◌else◌, arith,
  All, Bool-cases, inl, inr,
}
use hostscore.Portal.{
  PortalHost, SortType, no_sort, sort_by_id, sort_by_rank, sort_by_total_storage,
  sort_by_used_storage, sort_by_storage_price, sort_by_upload_price, sort_by_download_price,
  used_storage, flip, directed, by_value, compare_hosts, is_after, insert, sort_stable,
}

abbrev pub is_tie : Ordering → Bool
is_tie o = elim o [ Ordering.eq ↦ true | _ ↦ false ]

-- A comparison is turned round with its arguments, and is transitive.
pub record IsOrder (cmp : PortalHost → PortalHost → Ordering) : Type 0 where
  pub flips : (a b : PortalHost) → cmp b a ≡ flip (cmp a b)
  pub chains :
      (a b c : PortalHost)
      → is_after (cmp a b) ≡ false
      → is_after (cmp b c) ≡ false
      → is_after (cmp a c) ≡ false

by_value-flip :
    (asc : Bool) (x y i j : ℕ)
    → by_value asc y x (compare j i) ≡ flip (by_value asc x y (compare i j))
by_value-flip true x y i j = ground arith
by_value-flip false x y i j = ground arith

by_value-chain :
    (asc : Bool) (x y z i j k : ℕ)
    → is_after (by_value asc x y (compare i j)) ≡ false
    → is_after (by_value asc y z (compare j k)) ≡ false
    → is_after (by_value asc x z (compare i k)) ≡ false
by_value-chain true x y z i j k h g = ground arith
by_value-chain false x y z i j k h g = ground arith

directed-flip :
    (asc : Bool) (i j : ℕ) → directed asc (compare j i) ≡ flip (directed asc (compare i j))
directed-flip true i j = ground arith
directed-flip false i j = ground arith

directed-chain :
    (asc : Bool) (i j k : ℕ)
    → is_after (directed asc (compare i j)) ≡ false
    → is_after (directed asc (compare j k)) ≡ false
    → is_after (directed asc (compare i k)) ≡ false
directed-chain true i j k h g = ground arith
directed-chain false i j k h g = ground arith

by_key :
    (asc : Bool) (key : PortalHost → ℕ)
    → IsOrder (λ a b. by_value asc (key a) (key b) (compare a.id b.id))
by_key asc key = record {
  flips = λ a b. by_value-flip asc (key a) (key b) a.id b.id;
  chains = λ a b c. by_value-chain asc (key a) (key b) (key c) a.id b.id c.id;
}

two_ways : {A : Type 0} (x : Bool) (p q : A) → (if x then p else q) ≡ (if not x then q else p)
two_ways true p q = refl
two_ways false p q = refl

module _ (cmp : PortalHost → PortalHost → Ordering) (order : IsOrder cmp) where
  other_way :
      (a b : PortalHost) → is_tie (cmp a b) ≡ false → is_after (cmp b a) ≡ not (is_after (cmp a b))
  other_way a b h = rw (order.flips a b) (ground arith)

  after_flip : (a b : PortalHost) → is_after (cmp a b) ≡ true → is_after (cmp b a) ≡ false
  after_flip a b h = rw (order.flips a b) (ground arith)

  -- What comes after `c` comes after all that do not.
  must_follow :
      (a b c : PortalHost)
      → is_after (cmp a c) ≡ true
      → is_after (cmp b c) ≡ false
      → is_after (cmp a b) ≡ true
  must_follow a b c ac bc = elim (Bool-cases (is_after (cmp a b))) [
    | inl h ↦ h
    | inr h ↦ let clash : true ≡ false = sym ac ∙ order.chains a b c h bc in cc
  ]

  -- Two hosts that do not tie may be inserted in any order.
  insert_swap :
      (a b : PortalHost) (l : List PortalHost)
      → is_tie (cmp a b) ≡ false
      → insert cmp a (insert cmp b l) ≡ insert cmp b (insert cmp a l)
  unfolding insert
  insert_swap a b [] apart = rw (other_way a b apart) (two_ways (is_after (cmp a b)) _ _)
  insert_swap a b (c ∷ l) apart =
      let back = other_way a b apart in
      elim (Bool-cases (is_after (cmp a c))) [
        | inl ac ↦ elim (Bool-cases (is_after (cmp b c))) [
          | inl bc ↦ rw (ac, bc) (rw ac (ap (◌∷◌ c) (insert_swap a b l apart)))
          | inr bc ↦
              let ab : is_after (cmp a b) ≡ true = must_follow a b c ac bc in
              let ba : is_after (cmp b a) ≡ false = rw ab at back in rw (ac, bc) (rw (ab, ac) refl)
        ]
        | inr ac ↦ elim (Bool-cases (is_after (cmp b c))) [
          | inl bc ↦
              let ba : is_after (cmp b a) ≡ true = must_follow b a c bc ac in
              rw (ac, bc) (rw (ba, ac) refl)
          | inr bc ↦ rw (ac, bc) (rw (ac, back) (two_ways (is_after (cmp a b)) _ _))
        ]
      ]

  -- Every host of a sorted list comes after none of those behind it.
  abbrev pub Sorted : List PortalHost → Type 0
  Sorted [] = Unit {0}
  Sorted (a ∷ l) = All (λ b. is_after (cmp a b) ≡ false) l × Sorted l

  insert-All :
      (P : PortalHost → Type 0) (a : PortalHost) (l : List PortalHost)
      → P a
      → All P l
      → All P (insert cmp a l)
  unfolding insert
  insert-All P a [] p ps = (p, tt)
  insert-All P a (b ∷ l) p ps = elim (Bool-cases (is_after (cmp a b))) [
    | inl h ↦ rw h (ps.0, insert-All P a l p ps.1)
    | inr h ↦ rw h (p, ps)
  ]

  after_all :
      (a b : PortalHost) (l : List PortalHost)
      → is_after (cmp a b) ≡ false
      → All (λ c. is_after (cmp b c) ≡ false) l
      → All (λ c. is_after (cmp a c) ≡ false) l
  after_all a b [] h ps = tt
  after_all a b (c ∷ l) h ps = (order.chains a b c h ps.0, after_all a b l h ps.1)

  insert-Sorted : (a : PortalHost) (l : List PortalHost) → Sorted l → Sorted (insert cmp a l)
  unfolding insert
  insert-Sorted a [] s = (tt, tt)
  insert-Sorted a (b ∷ l) s = elim (Bool-cases (is_after (cmp a b))) [
    | inl h ↦
        let before : is_after (cmp b a) ≡ false = after_flip a b h in
        rw h (insert-All (λ c. is_after (cmp b c) ≡ false) a l before s.0, insert-Sorted a l s.1)
    | inr h ↦ rw h ((h, after_all a b l h s.0), s)
  ]

  pub sort_stable-Sorted : (l : List PortalHost) → Sorted (sort_stable cmp l)
  unfolding sort_stable
  sort_stable-Sorted [] = tt
  sort_stable-Sorted (a ∷ l) = insert-Sorted a (sort_stable cmp l) (sort_stable-Sorted l)

  abbrev pub Apart : PortalHost → PortalHost → Type 0
  Apart a b = is_tie (cmp a b) ≡ false

  -- A host from the middle of a list may be sorted in last.
  sort_stable-middle :
      (a : PortalHost) (xs ys : List PortalHost)
      → All (Apart a) xs
      → sort_stable cmp (xs ++ a ∷ ys) ≡ insert cmp a (sort_stable cmp (xs ++ ys))
  unfolding sort_stable
  sort_stable-middle a [] ys h = refl
  sort_stable-middle a (x ∷ xs) ys h =
      ap (insert cmp x) (sort_stable-middle a xs ys h.1)
      ∙ sym (insert_swap a x (sort_stable cmp (xs ++ ys)) h.0)

  -- The same hosts, no two of which tie, in another order.
  pub data Rearranged : List PortalHost → List PortalHost → Type 0 where
    empty : Rearranged [] []
    moved :
        (a : PortalHost) (l xs ys : List PortalHost)
        → All (Apart a) xs
        → Rearranged l (xs ++ ys)
        → Rearranged (a ∷ l) (xs ++ a ∷ ys)

  pub sort_stable-Rearranged :
      (l r : List PortalHost) → Rearranged l r → sort_stable cmp l ≡ sort_stable cmp r
  unfolding sort_stable
  sort_stable-Rearranged _ _ empty = refl
  sort_stable-Rearranged _ _ (moved a l xs ys h r) =
      ap (insert cmp a) (sort_stable-Rearranged l (xs ++ ys) r) ∙ sym (sort_stable-middle a xs ys h)

pub compare_hosts-IsOrder : (by : SortType) (asc : Bool) → IsOrder (compare_hosts by asc)
unfolding compare_hosts
compare_hosts-IsOrder no_sort asc = record { flips = λ a b. refl; chains = λ a b c h g. refl }
compare_hosts-IsOrder sort_by_id asc = record {
  flips = λ a b. directed-flip asc a.id b.id;
  chains = λ a b c. directed-chain asc a.id b.id c.id;
}
compare_hosts-IsOrder sort_by_rank asc = record {
  flips = λ a b. directed-flip asc a.rank b.rank;
  chains = λ a b c. directed-chain asc a.rank b.rank c.rank;
}
compare_hosts-IsOrder sort_by_total_storage asc = by_key asc (λ a. a.settings.total_storage)
compare_hosts-IsOrder sort_by_used_storage asc = by_key asc (λ a. used_storage a.settings)
compare_hosts-IsOrder sort_by_storage_price asc = by_key asc (λ a. a.settings.storage_price)
compare_hosts-IsOrder sort_by_upload_price asc = by_key asc (λ a. a.settings.upload_bandwidth_price)
compare_hosts-IsOrder sort_by_download_price asc =
    by_key asc (λ a. a.settings.download_bandwidth_price)
