-- ===== src/Portal/Tiers/Means.antt =====
-- cmd/hsc/database.go: the tiers cut the ranked hosts in three, and hold the means of each part.
use Prim.Native.Nat.{Ordering}
use hostscore.Prelude.{
  ℕ, suc, ◌+◌, ◌/◌, ◌%◌, ◌^◌, ◌<◌, ◌≡◌, refl, ap, ◌∙◌, List, [], ◌∷◌, ◌++◌, Bool, true, false, some,
  ltb, length, arith,
}
use hostscore.Types.{HostSettings}
use hostscore.Currency.{CurrencyOps, CurrencyLaws, max_currency}
use hostscore.Portal.{
  PortalHost, sort_by_rank, compare_hosts, is_online, select_hosts, insert, sort_stable,
}
use hostscore.Portal.Sorting.{Sorted, compare_hosts-IsOrder, sort_stable-Sorted}
use hostscore.Portal.Pages.{count, count-sort_stable}
use hostscore.Portal.Tiers.Cuts.{Cut, hosts-Cut}
use hostscore.Portal.Tiers.{
  NetworkAverages, no_averages, add_host, add_hosts, divide_tier, calculate_tier, tier1_hosts,
  tier2_hosts, tier3_hosts, calculate_tiers, ranked, calculate_averages,
}
use native.Mathlib.Nat.{mod-eq_of_lt}

-- The sum of a setting over the hosts.
abbrev pub total : (HostSettings → ℕ) → List PortalHost → ℕ
total f [] = 0
total f (h ∷ hs) = f h.settings + total f hs

total-append :
    (f : HostSettings → ℕ) (xs ys : List PortalHost) → total f (xs ++ ys) ≡ total f xs + total f ys
total-append f [] ys = omega arith
total-append f (x ∷ xs) ys = omega (arith, total-append f xs ys)

total-insert :
    (f : HostSettings → ℕ) (cmp : PortalHost → PortalHost → Ordering) (a : PortalHost)
    (l : List PortalHost)
    → total f (insert cmp a l) ≡ f a.settings + total f l
unfolding insert
total-insert f cmp a [] = refl
total-insert f cmp a (b ∷ l) = ground (arith, total-insert f cmp a l)

total-sort_stable :
    (f : HostSettings → ℕ) (cmp : PortalHost → PortalHost → Ordering) (l : List PortalHost)
    → total f (sort_stable cmp l) ≡ total f l
unfolding sort_stable
total-sort_stable f cmp [] = refl
total-sort_stable f cmp (a ∷ l) =
    omega (arith, total-insert f cmp a (sort_stable cmp l), total-sort_stable f cmp l)

-- Sums that no addition of the loop passes.
abbrev pub Fits : List PortalHost → Type 0
Fits hs =
    (total HostSettings.storage_price hs < max_currency)
    × (total HostSettings.collateral hs < max_currency)
    × (total HostSettings.upload_bandwidth_price hs < max_currency)
    × (total HostSettings.download_bandwidth_price hs < max_currency)
    × (total HostSettings.max_duration hs < 2 ^ 64)

-- The same sums, from a tier on.
abbrev Room : NetworkAverages → List PortalHost → Type 0
Room t hs =
    (t.storage_price + total HostSettings.storage_price hs < max_currency)
    × (t.collateral + total HostSettings.collateral hs < max_currency)
    × (t.upload_price + total HostSettings.upload_bandwidth_price hs < max_currency)
    × (t.download_price + total HostSettings.download_bandwidth_price hs < max_currency)
    × (t.contract_duration + total HostSettings.max_duration hs < 2 ^ 64)

abbrev plus : NetworkAverages → List PortalHost → NetworkAverages
plus t hs = record {
  storage_price = t.storage_price + total HostSettings.storage_price hs;
  collateral = t.collateral + total HostSettings.collateral hs;
  upload_price = t.upload_price + total HostSettings.upload_bandwidth_price hs;
  download_price = t.download_price + total HostSettings.download_bandwidth_price hs;
  contract_duration = t.contract_duration + total HostSettings.max_duration hs;
  available = t.available;
}

averages_eq :
    (t u : NetworkAverages)
    → t.storage_price ≡ u.storage_price
    → t.collateral ≡ u.collateral
    → t.upload_price ≡ u.upload_price
    → t.download_price ≡ u.download_price
    → t.contract_duration ≡ u.contract_duration
    → t.available ≡ u.available
    → t ≡ u
averages_eq t u a b c d e f i = record {
  storage_price = a i;
  collateral = b i;
  upload_price = c i;
  download_price = d i;
  contract_duration = e i;
  available = f i;
}

plus-cons :
    (t : NetworkAverages) (h : PortalHost) (hs : List PortalHost)
    → plus (plus t (h ∷ [])) hs ≡ plus t (h ∷ hs)
plus-cons t h hs =
    averages_eq _ _ (omega arith) (omega arith) (omega arith) (omega arith) (omega arith) refl

plus-nil : (t : NetworkAverages) → plus t [] ≡ t
plus-nil t =
    averages_eq _ _ (omega arith) (omega arith) (omega arith) (omega arith) (omega arith) refl

-- A tier of these hosts: the means of their settings, and nothing where there is none.
abbrev pub means : List PortalHost → NetworkAverages
means [] = no_averages
means (h ∷ hs) =
    let n = length (h ∷ hs) in
    record {
      storage_price = total HostSettings.storage_price (h ∷ hs) / n;
      collateral = total HostSettings.collateral (h ∷ hs) / n;
      upload_price = total HostSettings.upload_bandwidth_price (h ∷ hs) / n;
      download_price = total HostSettings.download_bandwidth_price (h ∷ hs) / n;
      contract_duration = total HostSettings.max_duration (h ∷ hs) / n;
      available = true;
    }

abbrev sums : List PortalHost → NetworkAverages
sums hs = record {
  storage_price = total HostSettings.storage_price hs;
  collateral = total HostSettings.collateral hs;
  upload_price = total HostSettings.upload_bandwidth_price hs;
  download_price = total HostSettings.download_bandwidth_price hs;
  contract_duration = total HostSettings.max_duration hs;
  available = false;
}

plus-no_averages : (hs : List PortalHost) → plus no_averages hs ≡ sums hs
plus-no_averages hs =
    averages_eq _ _ (omega arith) (omega arith) (omega arith) (omega arith) (omega arith) refl

module _ {cur : CurrencyOps} (laws : CurrencyLaws cur) where
  added : (a b n : ℕ) → a + (b + n) < max_currency → cur.add a b ≡ some (a + (b + 0))
  added a b n h = (laws.add_panics a b).0 (omega arith) ∙ ap some (omega arith)

  add_host_lem :
      (t : NetworkAverages) (h : PortalHost) (hs : List PortalHost)
      → Room t (h ∷ hs)
      → add_host cur t h.settings ≡ some (plus t (h ∷ []))
  unfolding add_host
  add_host_lem t h hs (a, b, c, d, e) =
      let wrap : (t.contract_duration + h.settings.max_duration) % 2 ^ 64
          ≡ t.contract_duration + (h.settings.max_duration + 0) =
        mod-eq_of_lt (omega arith) ∙ omega arith in
      rw
        (
          added t.storage_price _ _ a,
          added t.collateral _ _ b,
          added t.upload_price _ _ c,
          added t.download_price _ _ d,
          wrap,
        )
        refl

  add_hosts_lem :
      (hs : List PortalHost) (t : NetworkAverages) (n : ℕ)
      → Room t hs
      → add_hosts cur t n hs ≡ some (plus t hs, n + length hs)
  unfolding add_hosts
  add_hosts_lem [] t n r = rw (plus-nil t) (ap (λ m. some (t, m)) (omega arith))
  add_hosts_lem (h ∷ hs) t n (a, b, c, d, e) =
      let size : suc n + length hs ≡ n + length (h ∷ hs) = omega arith in
      rw (add_host_lem t h hs (a, b, c, d, e)) (
        add_hosts_lem hs (plus t (h ∷ [])) (suc n)
          (omega arith, omega arith, omega arith, omega arith, omega arith)
        ∙ ap some (λ i. (plus-cons t h hs i, size i)))

  summed :
      (hs : List PortalHost) → Fits hs → add_hosts cur no_averages 0 hs ≡ some (sums hs, length hs)
  summed hs (a, b, c, d, e) =
      let size : 0 + length hs ≡ length hs = omega arith in
      add_hosts_lem hs no_averages 0
        (omega arith, omega arith, omega arith, omega arith, omega arith)
      ∙ ap some (λ i. (plus-no_averages hs i, size i))

  calculate_tier_lem : (hs : List PortalHost) → Fits hs → calculate_tier cur hs ≡ some (means hs)
  unfolding calculate_tier divide_tier add_hosts
  calculate_tier_lem [] fits = refl
  calculate_tier_lem (h ∷ hs) fits =
      let n = length (h ∷ hs) in
      let by : (a : ℕ) → cur.div64 a n ≡ some (a / n) = λ a. laws.div64_some a n (omega arith) in
      let some_hosts : ltb 0 n ≡ true = ground arith in
      rw
        (
          summed (h ∷ hs) fits,
          some_hosts,
          divide_tier,
          by (total HostSettings.storage_price (h ∷ hs)),
          by (total HostSettings.collateral (h ∷ hs)),
          by (total HostSettings.upload_bandwidth_price (h ∷ hs)),
          by (total HostSettings.download_bandwidth_price (h ∷ hs)),
        )
        refl

Fits-append : (xs ys : List PortalHost) → Fits (xs ++ ys) → Fits xs × Fits ys
Fits-append xs ys (a, b, c, d, e) =
    let a' = total-append HostSettings.storage_price xs ys in
    let b' = total-append HostSettings.collateral xs ys in
    let c' = total-append HostSettings.upload_bandwidth_price xs ys in
    let d' = total-append HostSettings.download_bandwidth_price xs ys in
    let e' = total-append HostSettings.max_duration xs ys in
    (
      (omega arith, omega arith, omega arith, omega arith, omega arith),
      (omega arith, omega arith, omega arith, omega arith, omega arith),
    )

Fits-sort_stable :
    (cmp : PortalHost → PortalHost → Ordering) (hs : List PortalHost)
    → Fits hs
    → Fits (sort_stable cmp hs)
Fits-sort_stable cmp hs fits =
    rw
      (
        total-sort_stable HostSettings.storage_price cmp hs,
        total-sort_stable HostSettings.collateral cmp hs,
        total-sort_stable HostSettings.upload_bandwidth_price cmp hs,
        total-sort_stable HostSettings.download_bandwidth_price cmp hs,
        total-sort_stable HostSettings.max_duration cmp hs,
      )
      fits

-- For online hosts whose prices sum to less than 2 ^ 128, and whose durations to less than 2 ^ 64, the
-- averages are calculated without a panic: the online hosts are sorted by rank, none is lost or
-- counted twice, they are cut after the tenth and the hundredth, and each tier holds the means of its
-- part's settings, or is not available where the part is empty.
pub calculate_averages-IsMeans :
    {cur : CurrencyOps} (laws : CurrencyLaws cur) (hosts : List PortalHost)
    → Fits (select_hosts is_online hosts)
    → (calculate_averages cur hosts
        ≡ some (record {
          tier1 = means (tier1_hosts (ranked hosts));
          tier2 = means (tier2_hosts (ranked hosts));
          tier3 = means (tier3_hosts (ranked hosts));
        }))
      × Cut (ranked hosts)
      × Sorted
          (compare_hosts sort_by_rank true)
          (compare_hosts-IsOrder sort_by_rank true)
          (ranked hosts)
      × ((p : PortalHost → Bool) → count p (ranked hosts) ≡ count p (select_hosts is_online hosts))
unfolding calculate_averages calculate_tiers ranked
calculate_averages-IsMeans laws hosts fits =
    let cmp = compare_hosts sort_by_rank true in
    let online = select_hosts is_online hosts in
    let sorted = sort_stable cmp online in
    let cut = hosts-Cut sorted in
    let all : Fits (tier1_hosts sorted ++ (tier2_hosts sorted ++ tier3_hosts sorted)) =
      rw cut.0 (Fits-sort_stable cmp online fits) in
    let one = Fits-append (tier1_hosts sorted) (tier2_hosts sorted ++ tier3_hosts sorted) all in
    let two = Fits-append (tier2_hosts sorted) (tier3_hosts sorted) one.1 in
    (
      rw
          (
            calculate_tier_lem laws (tier1_hosts sorted) one.0,
            calculate_tier_lem laws (tier2_hosts sorted) two.0,
            calculate_tier_lem laws (tier3_hosts sorted) two.1,
          )
          refl,
      cut,
      sort_stable-Sorted cmp (compare_hosts-IsOrder sort_by_rank true) online,
      λ p. count-sort_stable cmp p online,
    )
