-- ===== src/Types.antt =====
-- The host settings and the price table, with the fields that internal/utils/encoding.go lists.
-- Amounts are hastings, durations nanoseconds; an address and a price table's UID are the numbers
-- that their bytes encode, a string the list of its bytes.
pub mod Examples
use hostscore.Prelude.{ℕ, Bool, List}

pub record HostSettings : Type 0 where
  pub accepting_contracts : Bool
  pub max_download_batch_size : ℕ
  pub max_duration : ℕ
  pub max_revise_batch_size : ℕ
  pub net_address : List ℕ
  pub remaining_storage : ℕ
  pub sector_size : ℕ
  pub total_storage : ℕ
  pub address : ℕ
  pub window_size : ℕ
  pub collateral : ℕ
  pub max_collateral : ℕ
  pub base_rpc_price : ℕ
  pub contract_price : ℕ
  pub download_bandwidth_price : ℕ
  pub sector_access_price : ℕ
  pub storage_price : ℕ
  pub upload_bandwidth_price : ℕ
  pub ephemeral_account_expiry : ℕ
  pub max_ephemeral_account_balance : ℕ
  pub revision_number : ℕ
  pub version : List ℕ
  pub release : List ℕ
  pub sia_mux_port : List ℕ

pub record HostPriceTable : Type 0 where
  pub uid : ℕ
  pub validity : ℕ
  pub host_block_height : ℕ
  pub update_price_table_cost : ℕ
  pub account_balance_cost : ℕ
  pub fund_account_cost : ℕ
  pub latest_revision_cost : ℕ
  pub subscription_memory_cost : ℕ
  pub subscription_notification_cost : ℕ
  pub init_base_cost : ℕ
  pub memory_time_cost : ℕ
  pub download_bandwidth_cost : ℕ
  pub upload_bandwidth_cost : ℕ
  pub drop_sectors_base_cost : ℕ
  pub drop_sectors_unit_cost : ℕ
  pub has_sector_base_cost : ℕ
  pub read_base_cost : ℕ
  pub read_length_cost : ℕ
  pub renew_contract_cost : ℕ
  pub revision_base_cost : ℕ
  pub swap_sector_base_cost : ℕ
  pub write_base_cost : ℕ
  pub write_length_cost : ℕ
  pub write_store_cost : ℕ
  pub txn_fee_min_recommended : ℕ
  pub txn_fee_max_recommended : ℕ
  pub contract_price : ℕ
  pub collateral_cost : ℕ
  pub max_collateral : ℕ
  pub max_duration : ℕ
  pub window_size : ℕ
  pub registry_entries_left : ℕ
  pub registry_entries_total : ℕ
