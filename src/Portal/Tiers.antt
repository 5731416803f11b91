-- ===== src/Portal/Tiers.antt =====
-- cmd/hsc/database.go: `calculateAverages` of one network and `calculateTiers`, the averages over the
-- online hosts by their rank. `none` is the panic of an addition that passes 2 ^ 128.
pub mod Cuts
pub mod Means
mod Tests
use hostscore.Prelude.{
  ℕ, suc, ◌+◌, ◌/◌, ◌%◌, ◌^◌, List, [], ◌∷◌, Bool, true, false, Option, none, some, ltb, leb,
  if◌then◌else◌, length,
}
use hostscore.Types.{HostSettings}
use hostscore.Currency.{CurrencyOps}
use hostscore.Wallet.{◌>>=◌}
use hostscore.Portal.{
  PortalHost, sort_by_rank, compare_hosts, is_online, select_hosts, sort_stable, take, drop,
}

pub record NetworkAverages : Type 0 where
  pub storage_price : ℕ
  pub collateral : ℕ
  pub upload_price : ℕ
  pub download_price : ℕ
  pub contract_duration : ℕ
  pub available : Bool

-- `var tier networkAverages`.
abbrev pub no_averages : NetworkAverages
no_averages = record {
  storage_price = 0;
  collateral = 0;
  upload_price = 0;
  download_price = 0;
  contract_duration = 0;
  available = false;
}

pub record Tiers : Type 0 where
  pub tier1 : NetworkAverages
  pub tier2 : NetworkAverages
  pub tier3 : NetworkAverages

module _ (cur : CurrencyOps) where
  -- The body of the loop over the hosts.
  unfoldable pub add_host : NetworkAverages → HostSettings → Option NetworkAverages
  add_host tier s = do
    storage ← cur.add tier.storage_price s.storage_price
    locked ← cur.add tier.collateral s.collateral
    upload ← cur.add tier.upload_price s.upload_bandwidth_price
    download ← cur.add tier.download_price s.download_bandwidth_price
    some (record {
      storage_price = storage;
      collateral = locked;
      upload_price = upload;
      download_price = download;
      contract_duration = (tier.contract_duration + s.max_duration) % 2 ^ 64;
      available = tier.available;
    })

  -- The loop, with the count of the hosts.
  unfoldable pub add_hosts : NetworkAverages → ℕ → List PortalHost → Option (NetworkAverages × ℕ)
  unfolding add_host
  add_hosts tier count [] = some (tier, count)
  add_hosts tier count (h ∷ hs) = do
    tier' ← add_host tier h.settings
    add_hosts tier' (suc count) hs

  -- `if count > 0`.
  unfoldable pub divide_tier : NetworkAverages → ℕ → Option NetworkAverages
  divide_tier tier count = do
    storage ← cur.div64 tier.storage_price count
    locked ← cur.div64 tier.collateral count
    upload ← cur.div64 tier.upload_price count
    download ← cur.div64 tier.download_price count
    some (record {
      storage_price = storage;
      collateral = locked;
      upload_price = upload;
      download_price = download;
      contract_duration = tier.contract_duration / count;
      available = true;
    })

  unfoldable pub calculate_tier : List PortalHost → Option NetworkAverages
  unfolding add_hosts divide_tier
  calculate_tier hosts = do
    (tier, count) ← add_hosts no_averages 0 hosts
    if ltb 0 count then divide_tier tier count else some tier

-- The slices of the sorted hosts.
unfoldable pub tier1_hosts : List PortalHost → List PortalHost
tier1_hosts hosts = if leb 10 (length hosts) then take 10 hosts else hosts

unfoldable pub tier2_hosts : List PortalHost → List PortalHost
tier2_hosts hosts =
    if leb 100 (length hosts)
    then drop 10 (take 100 hosts)
    else if ltb 10 (length hosts)
    then drop 10 hosts
    else []

unfoldable pub tier3_hosts : List PortalHost → List PortalHost
tier3_hosts hosts = if ltb 100 (length hosts) then drop 100 hosts else []

unfoldable pub calculate_tiers : CurrencyOps → List PortalHost → Option Tiers
unfolding calculate_tier tier1_hosts tier2_hosts tier3_hosts
calculate_tiers cur hosts = do
  t1 ← calculate_tier cur (tier1_hosts hosts)
  t2 ← calculate_tier cur (tier2_hosts hosts)
  t3 ← calculate_tier cur (tier3_hosts hosts)
  some (record { tier1 = t1; tier2 = t2; tier3 = t3 })

-- The online hosts of the network, by rank.
unfoldable pub ranked : List PortalHost → List PortalHost
unfolding sort_stable compare_hosts select_hosts is_online
ranked hosts = sort_stable (compare_hosts sort_by_rank true) (select_hosts is_online hosts)

unfoldable pub calculate_averages : CurrencyOps → List PortalHost → Option Tiers
unfolding calculate_tiers ranked
calculate_averages cur hosts = calculate_tiers cur (ranked hosts)
