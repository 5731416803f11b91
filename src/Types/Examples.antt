-- ===== src/Types/Examples.antt =====
-- Settings and a price table, for the tests.
use hostscore.Prelude.{ℕ, ◌^◌, [], true}
use hostscore.Types.{HostSettings, HostPriceTable}

abbrev pub priced : ℕ → HostSettings
priced p = record {
  accepting_contracts = true;
  max_download_batch_size = 0;
  max_duration = 0;
  max_revise_batch_size = 0;
  net_address = [];
  remaining_storage = 0;
  sector_size = 0;
  total_storage = 0;
  address = 0;
  window_size = 0;
  collateral = 0;
  max_collateral = 0;
  base_rpc_price = 0;
  contract_price = 0;
  download_bandwidth_price = 0;
  sector_access_price = 0;
  storage_price = p;
  upload_bandwidth_price = 0;
  ephemeral_account_expiry = 0;
  max_ephemeral_account_balance = 0;
  revision_number = 0;
  version = [];
  release = [];
  sia_mux_port = [];
}

abbrev pub plain_table : HostPriceTable
plain_table = record {
  uid = 3;
  validity = 600;
  host_block_height = 500_000;
  update_price_table_cost = 1;
  account_balance_cost = 1;
  fund_account_cost = 1;
  latest_revision_cost = 1;
  subscription_memory_cost = 1;
  subscription_notification_cost = 1;
  init_base_cost = 100;
  memory_time_cost = 1;
  download_bandwidth_cost = 80;
  upload_bandwidth_cost = 20;
  drop_sectors_base_cost = 1;
  drop_sectors_unit_cost = 1;
  has_sector_base_cost = 1;
  read_base_cost = 1000;
  read_length_cost = 1;
  renew_contract_cost = 1;
  revision_base_cost = 0;
  swap_sector_base_cost = 1;
  write_base_cost = 1000;
  write_length_cost = 1;
  write_store_cost = 50;
  txn_fee_min_recommended = 1;
  txn_fee_max_recommended = 2;
  contract_price = 10 ^ 23;
  collateral_cost = 100;
  max_collateral = 10 ^ 27;
  max_duration = 25_920;
  window_size = 144;
  registry_entries_left = 0;
  registry_entries_total = 0;
}
