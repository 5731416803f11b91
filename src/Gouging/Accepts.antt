-- ===== src/Gouging/Accepts.antt =====
-- hostdb/gouging.go: `checkGouging` against the limits as plain inequalities.
use native.Mathlib.Decide.{dec_lt}
use hostscore.Prelude.{
  ℕ, ◌*◌, ◌≤◌, ◌<◌, ◌≡◌, refl, ◌↔◌, ◌⊎◌, Bool, true, false, Option, none, some, arith,
  if◌then◌else◌,
}
use hostscore.Currency.{
  CurrencyOps, CurrencyLaws, IsChecked, max_currency, cmp_gt, cmp_gt-ltb, cmp_lt-ltb,
}
use hostscore.Types.{HostSettings, HostPriceTable}
use hostscore.Gouging.Cost.{
  read_cost, upload_cost, sector_read_cost-IsChecked, sector_upload_cost-IsChecked,
}
use hostscore.Gouging.{
  RhpTypes, HostDbPriceLimits, GougingError, ◌then_check◌, contract_duration,
  check_price_gouging_hs, check_price_gouging_pt, check_contract_gouging_rhpv2,
  check_contract_gouging_rhpv3, sectors_per_tib, per_tib_check, check_download_gouging_rhpv3,
  check_upload_gouging_rhpv3, check_settings, check_table, check_gouging,
}

-- Settings within the limits.
pub record FairSettings (limits : HostDbPriceLimits) (hs : HostSettings) : Type 0 where
  pub long_enough : contract_duration ≤ hs.max_duration
  pub accepting : hs.accepting_contracts ≡ true
  pub base_rpc : hs.base_rpc_price ≤ limits.max_base_rpc_price
  pub sector_access : hs.sector_access_price ≤ limits.max_sector_access_price
  pub storage : hs.storage_price ≤ limits.max_storage_price
  pub contract : hs.contract_price ≤ limits.max_contract_price

-- A price table within the limits, for sectors of `s` bytes and `k` sectors per TiB. The products
-- are unbounded: an amount past 2 ^ 128 is past every limit.
pub record FairTable (limits : HostDbPriceLimits) (s k : ℕ) (pt : HostPriceTable) : Type 0 where
  pub download : read_cost pt s * k ≤ limits.max_download_price
  pub upload : upload_cost pt s * k ≤ limits.max_upload_price
  pub init : pt.init_base_cost ≤ limits.max_base_rpc_price
  pub contract : pt.contract_price ≤ limits.max_contract_price
  pub storage : pt.write_store_cost ≤ limits.max_storage_price
  pub long_enough : contract_duration ≤ pt.max_duration

-- A nil pointer and a zero value are not checked.
abbrev pub Accepted : {A : Type 0} → (A → Bool) → (A → Type 0) → Option A → Type 0
Accepted is_zero Fair none = Unit {0}
Accepted is_zero Fair (some a) = (is_zero a ≡ true) ⊎ Fair a

then_check_none :
    (a b : Option GougingError) → ((a then_check b) ≡ none) ↔ ((a ≡ none) × (b ≡ none))
then_check_none none b = (λ h. (refl, h), λ h. h.1)
then_check_none (some e) b = (λ h. cc, λ h. cc)

module _ {cur : CurrencyOps} (laws : CurrencyLaws cur) (limits : HostDbPriceLimits) where
  check_price_gouging_hs-none :
      (hs : HostSettings)
      → (check_price_gouging_hs cur hs limits ≡ none) ↔ (
          (hs.base_rpc_price ≤ limits.max_base_rpc_price)
          × (hs.sector_access_price ≤ limits.max_sector_access_price)
          × (hs.storage_price ≤ limits.max_storage_price)
          × (hs.contract_price ≤ limits.max_contract_price))
  unfolding check_price_gouging_hs
  check_price_gouging_hs-none hs = simp (cmp_gt-ltb laws) (ground arith)

  check_price_gouging_pt-none :
      (pt : HostPriceTable)
      → (check_price_gouging_pt cur pt limits ≡ none) ↔ (
          (pt.init_base_cost ≤ limits.max_base_rpc_price)
          × (pt.contract_price ≤ limits.max_contract_price)
          × (pt.write_store_cost ≤ limits.max_storage_price))
  unfolding check_price_gouging_pt
  check_price_gouging_pt-none pt = simp (cmp_gt-ltb laws, cmp_lt-ltb laws) (ground arith)

check_contract_pt_none :
    (pt : HostPriceTable)
    → (check_contract_gouging_rhpv3 pt ≡ none) ↔ (contract_duration ≤ pt.max_duration)
unfolding check_contract_gouging_rhpv3
check_contract_pt_none pt = ground arith

-- `price.Mul64WithOverflow(k)`, then the comparison.
tib_none :
    {cur : CurrencyOps} (laws : CurrencyLaws cur) (n k limit : ℕ) (e₁ e₂ : GougingError)
    (r : ℕ × Bool)
    → IsChecked (n * k) r
    → limit < max_currency
    → ((if r.1 then some e₁ else if cmp_gt cur r.0 limit then some e₂ else none) ≡ none)
      ↔ (n * k ≤ limit)
tib_none {cur} laws n k limit e₁ e₂ (p, true) h small = (λ x. cc, λ le. cc (h.0 (omega arith)))
tib_none {cur} laws n k limit e₁ e₂ (p, false) h small = elim (dec_lt (n * k) max_currency) [
  | yes lt ↦ let same : p ≡ n * k = cc (h.0 lt) in rw (same, cmp_gt-ltb laws) (ground arith)
  | no ge ↦ cc (h.1 (omega arith))
]

module _ {cur : CurrencyOps} (laws : CurrencyLaws cur) (rhp : RhpTypes)
    (tib : 0 < sectors_per_tib rhp) where
  per_tib_check-none :
      (n limit : ℕ) (e : GougingError) (r : ℕ × Bool)
      → IsChecked n r
      → limit < max_currency
      → (per_tib_check cur rhp r limit e ≡ none) ↔ (n * sectors_per_tib rhp ≤ limit)
  unfolding per_tib_check
  per_tib_check-none n limit e (p, true) h small = (λ x. cc, λ le. cc (h.0 (grind arith)))
  per_tib_check-none n limit e (p, false) h small = elim (dec_lt n max_currency) [
    | yes lt ↦
        let same : p ≡ n = cc (h.0 lt) in
        rw same (
          tib_none laws n (sectors_per_tib rhp) limit _ e _
            (laws.mul64_checked n (sectors_per_tib rhp)) small)
    | no ge ↦ cc (h.1 (omega arith))
  ]

module _ {cur : CurrencyOps} (laws : CurrencyLaws cur) (rhp : RhpTypes)
    (tib : 0 < sectors_per_tib rhp) (limits : HostDbPriceLimits)
    (download_small : limits.max_download_price < max_currency)
    (upload_small : limits.max_upload_price < max_currency) where
  abbrev SettingsFair : Option HostSettings → Type 0
  SettingsFair = Accepted rhp.is_zero_settings (FairSettings limits)

  abbrev TableFair : Option HostPriceTable → Type 0
  TableFair = Accepted rhp.is_zero_table (FairTable limits rhp.sector_size (sectors_per_tib rhp))

  check_settings-none :
      (hs : Option HostSettings) → (check_settings cur rhp hs limits ≡ none) ↔ SettingsFair hs
  unfolding check_settings check_contract_gouging_rhpv2
  check_settings-none none = (λ _. tt, λ _. refl)
  check_settings-none (some hs) = ground (
    arith,
    check_price_gouging_hs-none laws limits hs,
    then_check_none (check_contract_gouging_rhpv2 hs) (check_price_gouging_hs cur hs limits),
  )

  check_download_none :
      (pt : HostPriceTable)
      → (check_download_gouging_rhpv3 cur rhp pt limits ≡ none)
        ↔ (read_cost pt rhp.sector_size * sectors_per_tib rhp ≤ limits.max_download_price)
  unfolding check_download_gouging_rhpv3
  check_download_none pt =
      per_tib_check-none laws rhp tib _ _ _ _ (sector_read_cost-IsChecked laws rhp pt)
        download_small

  check_upload_none :
      (pt : HostPriceTable)
      → (check_upload_gouging_rhpv3 cur rhp pt limits ≡ none)
        ↔ (upload_cost pt rhp.sector_size * sectors_per_tib rhp ≤ limits.max_upload_price)
  unfolding check_upload_gouging_rhpv3
  check_upload_none pt =
      per_tib_check-none laws rhp tib _ _ _ _ (sector_upload_cost-IsChecked laws rhp pt)
        upload_small

  check_table-none :
      (pt : Option HostPriceTable) → (check_table cur rhp pt limits ≡ none) ↔ TableFair pt
  unfolding check_table
  check_table-none none = (λ _. tt, λ _. refl)
  check_table-none (some pt) =
      let a = check_download_gouging_rhpv3 cur rhp pt limits in
      let b = check_price_gouging_pt cur pt limits in
      let c = check_upload_gouging_rhpv3 cur rhp pt limits in
      let d = check_contract_gouging_rhpv3 pt in
      ground (
        arith,
        then_check_none a (b then_check c then_check d),
        then_check_none b (c then_check d),
        then_check_none c d,
        check_download_none pt,
        check_upload_none pt,
        check_price_gouging_pt-none laws limits pt,
        check_contract_pt_none pt,
      )

  -- With limits below 2 ^ 128 and at least one sector to the TiB, `checkGouging` returns no error
  -- exactly when the settings are absent, zero or within every limit, and the price table likewise:
  -- no intermediate overflow lets a price pass, and none rejects a price within the limits.
  pub check_gouging-none :
      (hs : Option HostSettings) (pt : Option HostPriceTable)
      → (check_gouging cur rhp hs pt limits ≡ none) ↔ (SettingsFair hs × TableFair pt)
  unfolding check_gouging
  check_gouging-none hs pt = ground (
    arith,
    then_check_none (check_settings cur rhp hs limits) (check_table cur rhp pt limits),
    check_settings-none hs,
    check_table-none pt,
  )
