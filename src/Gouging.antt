-- ===== src/Gouging.antt =====
-- hostdb/gouging.go: the checks that a host's prices must pass before a contract is formed. A check
-- returns `none` for a nil error.
pub mod Cost
pub mod Accepts
mod Tests
use hostscore.Prelude.{ℕ, ◌/◌, ◌^◌, Bool, true, false, Option, none, some, ltb, if◌then◌else◌}
use hostscore.Currency.{CurrencyOps, cmp_gt, cmp_lt}
use hostscore.Types.{HostSettings, HostPriceTable}

-- 7 days in blocks.
abbrev pub contract_duration : ℕ
contract_duration = 1008

pub record HostDbPriceLimits : Type 0 where
  pub max_contract_price : ℕ
  pub max_upload_price : ℕ
  pub max_download_price : ℕ
  pub max_storage_price : ℕ
  pub max_base_rpc_price : ℕ
  pub max_sector_access_price : ℕ

pub data GougingError : Type 0 where
  base_rpc_price sector_access_price storage_price contract_price init_base_cost : GougingError
  max_duration not_accepting sector_overflow tib_overflow download_price upload_price : GougingError

-- `if err = first; err != nil { return }`, and on with the next check.
infixr 30 ◌then_check◌
abbrev pub ◌then_check◌ : Option GougingError → Option GougingError → Option GougingError
none then_check next = next
(some e) then_check next = some e

-- A step that may overflow: `if overflow { return types.ZeroCurrency, true }`.
infixl 5 ◌>>=◌
abbrev pub ◌>>=◌ : ℕ × Bool → (ℕ → ℕ × Bool) → ℕ × Bool
(c, true) >>= f = (0, true)
(c, false) >>= f = f c

-- The constant SectorSize of go.sia.tech/core/rhp/v2, and whether settings or a price table are the
-- zero value of their types.
pub record RhpTypes : Type 0 where
  pub sector_size : ℕ
  pub is_zero_settings : HostSettings → Bool
  pub is_zero_table : HostPriceTable → Bool

module _ (cur : CurrencyOps) where
  unfoldable pub check_price_gouging_hs : HostSettings → HostDbPriceLimits → Option GougingError
  check_price_gouging_hs hs limits =
      if cmp_gt cur hs.base_rpc_price limits.max_base_rpc_price
      then some base_rpc_price
      else if cmp_gt cur hs.sector_access_price limits.max_sector_access_price
      then some sector_access_price
      else if cmp_gt cur hs.storage_price limits.max_storage_price
      then some storage_price
      else if cmp_gt cur hs.contract_price limits.max_contract_price
      then some contract_price
      else none

  unfoldable pub check_price_gouging_pt : HostPriceTable → HostDbPriceLimits → Option GougingError
  check_price_gouging_pt pt limits =
      if cmp_lt cur limits.max_base_rpc_price pt.init_base_cost
      then some init_base_cost
      else if cmp_gt cur pt.contract_price limits.max_contract_price
      then some contract_price
      else if cmp_gt cur pt.write_store_cost limits.max_storage_price
      then some storage_price
      else none

unfoldable pub check_contract_gouging_rhpv2 : HostSettings → Option GougingError
check_contract_gouging_rhpv2 hs =
    if ltb hs.max_duration contract_duration
    then some max_duration
    else if hs.accepting_contracts
    then none
    else some not_accepting

unfoldable pub check_contract_gouging_rhpv3 : HostPriceTable → Option GougingError
check_contract_gouging_rhpv3 pt =
    if ltb pt.max_duration contract_duration then some max_duration else none

-- `1 << 40 / rhpv2.SectorSize`.
abbrev pub sectors_per_tib : RhpTypes → ℕ
sectors_per_tib rhp = 2 ^ 40 / rhp.sector_size

module _ (cur : CurrencyOps) (rhp : RhpTypes) where
  open cur use {add_with_overflow as plus, mul64_with_overflow as times}
  open rhp use {sector_size}

  unfoldable pub sector_read_cost : HostPriceTable → ℕ × Bool
  sector_read_cost pt = do
    length_cost ← times pt.read_length_cost sector_size
    with_base ← plus length_cost pt.read_base_cost
    base ← plus with_base pt.init_base_cost
    ingress ← times pt.upload_bandwidth_cost 32
    egress ← times pt.download_bandwidth_cost sector_size
    with_ingress ← plus base ingress
    total ← plus with_ingress egress
    (total, false)

  unfoldable pub sector_upload_cost : HostPriceTable → ℕ × Bool
  sector_upload_cost pt = do
    length_cost ← times pt.write_length_cost sector_size
    with_base ← plus length_cost pt.write_base_cost
    write_cost ← plus with_base pt.init_base_cost
    ingress ← times pt.upload_bandwidth_cost sector_size
    total ← plus write_cost ingress
    (total, false)

  -- The two price checks have one shape: cost of a sector, price of a TiB, comparison.
  per_tib_check : ℕ × Bool → ℕ → GougingError → Option GougingError
  per_tib_check (price, true) limit e = some sector_overflow
  per_tib_check (price, false) limit e =
      let (per_tib, overflow) = times price (sectors_per_tib rhp) in
      if overflow then some tib_overflow else if cmp_gt cur per_tib limit then some e else none

  unfoldable pub check_download_gouging_rhpv3 :
      HostPriceTable → HostDbPriceLimits → Option GougingError
  unfolding per_tib_check
  check_download_gouging_rhpv3 pt limits =
      per_tib_check (sector_read_cost pt) limits.max_download_price download_price

  unfoldable pub check_upload_gouging_rhpv3 :
      HostPriceTable → HostDbPriceLimits → Option GougingError
  unfolding per_tib_check
  check_upload_gouging_rhpv3 pt limits =
      per_tib_check (sector_upload_cost pt) limits.max_upload_price upload_price

  check_settings : Option HostSettings → HostDbPriceLimits → Option GougingError
  check_settings none limits = none
  check_settings (some hs) limits =
      if rhp.is_zero_settings hs
      then none
      else check_contract_gouging_rhpv2 hs then_check check_price_gouging_hs cur hs limits

  check_table : Option HostPriceTable → HostDbPriceLimits → Option GougingError
  check_table none limits = none
  check_table (some pt) limits =
      if rhp.is_zero_table pt
      then none
      else check_download_gouging_rhpv3 pt limits
        then_check check_price_gouging_pt cur pt limits
        then_check check_upload_gouging_rhpv3 pt limits
        then_check check_contract_gouging_rhpv3 pt

  -- A nil pointer is `none`.
  unfoldable pub check_gouging :
      Option HostSettings → Option HostPriceTable → HostDbPriceLimits → Option GougingError
  unfolding check_settings check_table
  check_gouging hs pt limits = check_settings hs limits then_check check_table pt limits
