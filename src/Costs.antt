-- ===== src/Costs.antt =====
-- cmd/hsc/score.go: what a month of storage costs an average renter, by which hosts are scored. `none`
-- is the panic of an operation of types.Currency.
pub mod Month
mod Tests
use hostscore.Prelude.{
  ℕ, suc, ◌+◌, ◌*◌, ◌/◌, ◌%◌, ◌^◌, not, ◌==◌, Option, none, some, if◌then◌else◌,
}
use hostscore.Types.{HostSettings, HostPriceTable}
use hostscore.Currency.{CurrencyOps, cmp_gt}
use hostscore.Wallet.{◌>>=◌}

-- A ResourceCost of go.sia.tech/core/rhp/v3.
pub record ResourceCost : Type 0 where
  pub base : ℕ
  pub storage : ℕ
  pub ingress : ℕ
  pub egress : ℕ
  pub collateral : ℕ

-- What the code takes from go.sia.tech/core/rhp: the size of a sector, the collateral of a contract by
-- its duration and its data, BaseCost, AppendSectorCost and ReadSectorCost of a price table, and the
-- sum and the total of resource costs.
pub record RhpCosts : Type 0 where
  pub sector_size : ℕ
  pub formation_collateral : ℕ → ℕ → HostSettings → Option ℕ
  pub base_cost : HostPriceTable → Option ResourceCost
  pub append_sector_cost : HostPriceTable → ℕ → Option ResourceCost
  pub read_sector_cost : HostPriceTable → ℕ → Option ResourceCost
  pub add : ResourceCost → ResourceCost → Option ResourceCost
  pub total : ResourceCost → Option (ℕ × ℕ)

abbrev pub data_per_host : ℕ
data_per_host = 1024 * 1024 * 1024 * 1024

abbrev pub contract_period : ℕ
contract_period = 144 * 30

module _ (cur : CurrencyOps) (rhp : RhpCosts) where
  unfoldable pub contract_price_for_score : HostSettings → HostPriceTable → ℕ
  contract_price_for_score settings pt =
      if cmp_gt cur settings.contract_price pt.contract_price
      then pt.contract_price
      else settings.contract_price

  -- The sum stays below 2 ^ 64.
  unfoldable pub bytes_to_sectors : ℕ → ℕ
  bytes_to_sectors bytes =
      let num_sectors = bytes / rhp.sector_size in
      if not (bytes % rhp.sector_size == 0) then suc num_sectors else num_sectors

  unfoldable pub sector_storage_cost : HostPriceTable → ℕ → Option ℕ
  sector_storage_cost pt duration = do
    base ← rhp.base_cost pt
    append ← rhp.append_sector_cost pt duration
    asc ← rhp.add base append
    some asc.storage

  unfoldable pub sector_upload_cost : HostPriceTable → ℕ → Option ℕ
  sector_upload_cost pt duration = do
    base ← rhp.base_cost pt
    append ← rhp.append_sector_cost pt duration
    asc ← rhp.add base append
    (cost, _) ← rhp.total asc
    some cost

  unfoldable pub upload_cost_for_score : HostPriceTable → ℕ → Option ℕ
  unfolding bytes_to_sectors sector_upload_cost
  upload_cost_for_score pt bytes = do
    cost ← sector_upload_cost pt contract_period
    cur.mul64 cost (bytes_to_sectors bytes)

  unfoldable pub download_cost_for_score : HostPriceTable → ℕ → Option ℕ
  unfolding bytes_to_sectors
  download_cost_for_score pt bytes = do
    base ← rhp.base_cost pt
    read ← rhp.read_sector_cost pt rhp.sector_size
    rsc ← rhp.add base read
    (cost, _) ← rhp.total rsc
    cur.mul64 cost (bytes_to_sectors bytes)

  unfoldable pub storage_cost_for_score : HostPriceTable → ℕ → Option ℕ
  unfolding bytes_to_sectors sector_storage_cost
  storage_cost_for_score pt bytes = do
    cost ← sector_storage_cost pt contract_period
    cur.mul64 cost (bytes_to_sectors bytes)

  unfoldable pub host_period_cost_for_score : HostSettings → HostPriceTable → Option ℕ
  unfolding contract_price_for_score upload_cost_for_score download_cost_for_score
      storage_cost_for_score
  host_period_cost_for_score settings pt = do
    collateral ← rhp.formation_collateral contract_period data_per_host settings
    let price = contract_price_for_score settings pt
    upload ← upload_cost_for_score pt data_per_host
    download ← download_cost_for_score pt data_per_host
    storage ← storage_cost_for_score pt data_per_host
    a ← cur.add collateral price
    b ← cur.add a upload
    c ← cur.add b download
    d ← cur.add c storage
    e ← cur.mul64 d 39
    siafund_fee ← cur.div64 e 1000
    f ← cur.mul64 price 3
    g ← cur.add f upload
    h ← cur.add g download
    i ← cur.add h storage
    cur.add i siafund_fee
