-- ===== src/Costs/Month.antt =====
-- cmd/hsc/score.go: the cost of a month in closed form.
use hostscore.Prelude.{
  ℕ, ◌+◌, ◌*◌, ◌/◌, ◌%◌, ◌≤◌, ◌<◌, ◌≡◌, refl, ltb, ◌==◌, some, if◌then◌else◌, arith, Bool-cases,
  inl, inr,
}
use hostscore.Types.{HostSettings, HostPriceTable}
use hostscore.Currency.{CurrencyOps, CurrencyLaws, max_currency, cmp_gt-ltb}
use hostscore.Costs.{
  RhpCosts, ResourceCost, sector_upload_cost, sector_storage_cost, data_per_host, contract_period,
  contract_price_for_score, bytes_to_sectors, upload_cost_for_score, download_cost_for_score,
  storage_cost_for_score, host_period_cost_for_score,
}
use native.Mathlib.Nat.{mod-lt, div-add-mod, div-le_self, mul-suc}

abbrev pub smaller : ℕ → ℕ → ℕ
smaller a b = if ltb b a then b else a

-- What the fee of the siafunds is taken of, for n sectors.
abbrev pub subtotal : ℕ → ℕ → ℕ → ℕ → ℕ → ℕ → ℕ
subtotal c p u d s n = c + p + u * n + d * n + s * n

abbrev pub month : ℕ → ℕ → ℕ → ℕ → ℕ → ℕ → ℕ
month c p u d s n = p * 3 + u * n + d * n + s * n + subtotal c p u d s n * 39 / 1000

-- As few sectors as hold the bytes.
abbrev pub Holds : ℕ → ℕ → ℕ → Type 0
Holds size bytes n = (bytes ≤ size * n) × (size * n < bytes + size)

module _ {cur : CurrencyOps} (laws : CurrencyLaws cur) (rhp : RhpCosts) where
  bytes_to_sectors-Holds :
      (bytes : ℕ)
      → 0 < rhp.sector_size
      → Holds rhp.sector_size bytes (bytes_to_sectors cur rhp bytes)
  unfolding bytes_to_sectors
  bytes_to_sectors-Holds bytes size_pos =
      let whole = div-add-mod bytes rhp.sector_size in
      let part = mod-lt bytes size_pos in
      let next = mul-suc rhp.sector_size (bytes / rhp.sector_size) in
      elim (Bool-cases (bytes % rhp.sector_size == 0)) [
        | inl even ↦
            let none_left : bytes % rhp.sector_size ≡ 0 = ground arith in
            rw even (omega arith, omega arith)
        | inr odd ↦
            let some_left : 0 < bytes % rhp.sector_size = ground arith in
            rw odd (omega arith, omega arith)
      ]

  price_lem :
      (settings : HostSettings) (pt : HostPriceTable)
      → contract_price_for_score cur rhp settings pt
        ≡ smaller settings.contract_price pt.contract_price
  unfolding contract_price_for_score
  price_lem settings pt = rw (cmp_gt-ltb laws settings.contract_price pt.contract_price) refl

  adds : (a b : ℕ) → a + b < max_currency → cur.add a b ≡ some (a + b)
  adds a b h = (laws.add_panics a b).0 h

  times : (a b : ℕ) → a * b < max_currency → cur.mul64 a b ≡ some (a * b)
  times a b h = (laws.mul64_panics a b).0 h

  -- Where the collateral and the costs of a sector are known and 39 times the sum of the parts stays
  -- below 2 ^ 128, the cost of a month is calculated without a panic: with the smaller one of the two
  -- contract prices, taken three times, with as few sectors as hold 1 TiB, and with 3.9 % of the parts
  -- and the collateral as the fee, rounded down.
  pub host_period_cost_for_score-IsMonth :
      (settings : HostSettings) (pt : HostPriceTable) (base append read asc rsc : ResourceCost)
      (c u d uc dc : ℕ)
      → rhp.formation_collateral contract_period data_per_host settings ≡ some c
      → rhp.base_cost pt ≡ some base
      → rhp.append_sector_cost pt contract_period ≡ some append
      → rhp.read_sector_cost pt rhp.sector_size ≡ some read
      → rhp.add base append ≡ some asc
      → rhp.add base read ≡ some rsc
      → rhp.total asc ≡ some (u, uc)
      → rhp.total rsc ≡ some (d, dc)
      → 0 < rhp.sector_size
      → subtotal c
            (smaller settings.contract_price pt.contract_price)
            u
            d
            asc.storage
            (bytes_to_sectors cur rhp data_per_host)
          * 39
        < max_currency
      → (host_period_cost_for_score cur rhp settings pt
          ≡ some (
              month c
                (smaller settings.contract_price pt.contract_price)
                u
                d
                asc.storage
                (bytes_to_sectors cur rhp data_per_host)))
        × Holds rhp.sector_size data_per_host (bytes_to_sectors cur rhp data_per_host)
  unfolding host_period_cost_for_score upload_cost_for_score download_cost_for_score
      storage_cost_for_score sector_upload_cost sector_storage_cost
  host_period_cost_for_score-IsMonth settings pt base append read asc rsc c u d uc dc hc hb ha hr hs
        hd tu td size_pos fits =
      let n = bytes_to_sectors cur rhp data_per_host in
      let p = smaller settings.contract_price pt.contract_price in
      let s = asc.storage in
      let t = subtotal c p u d s n in
      let fee = div-le_self (t * 39) 1000 in
      (
        rw
            (
              hc,
              price_lem settings pt,
              hb,
              ha,
              hr,
              hs,
              hd,
              tu,
              td,
              times u n (omega arith),
              times d n (omega arith),
              times s n (omega arith),
              adds c p (omega arith),
              adds (c + p) (u * n) (omega arith),
              adds (c + p + u * n) (d * n) (omega arith),
              adds (c + p + u * n + d * n) (s * n) (omega arith),
              times t 39 (omega arith),
              laws.div64_some (t * 39) 1000 (omega arith),
              times p 3 (omega arith),
              adds (p * 3) (u * n) (omega arith),
              adds (p * 3 + u * n) (d * n) (omega arith),
              adds (p * 3 + u * n + d * n) (s * n) (omega arith),
              adds (p * 3 + u * n + d * n + s * n) (t * 39 / 1000) (omega arith),
            )
            refl,
        bytes_to_sectors-Holds data_per_host size_pos,
      )
