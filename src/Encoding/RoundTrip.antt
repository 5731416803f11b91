-- ===== src/Encoding/RoundTrip.antt =====
-- internal/utils/encoding.go: what is encoded is decoded again.
use mathlib.Core.List.{append_assoc}
use hostscore.Prelude.{ℕ, ◌*◌, ◌^◌, ◌<◌, ◌≡◌, ap, List, ◌++◌, some, arith}
use hostscore.Types.{HostSettings, HostPriceTable}
use hostscore.Encoding.{
  Codec, CodecLaws, second, of_seconds, encode_settings, decode_settings, encode_price_table,
  decode_price_table,
}

-- A duration of whole seconds, within an int64 of nanoseconds.
abbrev pub IsWhole : ℕ → Type 0
IsWhole d = (n : ℕ) × (d ≡ n * second) × (d < 2 ^ 63)

-- Every number in the range of its type, the duration in whole seconds.
pub record SettingsInRange (v : HostSettings) : Type 0 where
  pub max_download_batch_size : v.max_download_batch_size < 2 ^ 64
  pub max_duration : v.max_duration < 2 ^ 64
  pub max_revise_batch_size : v.max_revise_batch_size < 2 ^ 64
  pub remaining_storage : v.remaining_storage < 2 ^ 64
  pub sector_size : v.sector_size < 2 ^ 64
  pub total_storage : v.total_storage < 2 ^ 64
  pub address : v.address < 2 ^ 256
  pub window_size : v.window_size < 2 ^ 64
  pub collateral : v.collateral < 2 ^ 128
  pub max_collateral : v.max_collateral < 2 ^ 128
  pub base_rpc_price : v.base_rpc_price < 2 ^ 128
  pub contract_price : v.contract_price < 2 ^ 128
  pub download_bandwidth_price : v.download_bandwidth_price < 2 ^ 128
  pub sector_access_price : v.sector_access_price < 2 ^ 128
  pub storage_price : v.storage_price < 2 ^ 128
  pub upload_bandwidth_price : v.upload_bandwidth_price < 2 ^ 128
  pub ephemeral_account_expiry : IsWhole v.ephemeral_account_expiry
  pub max_ephemeral_account_balance : v.max_ephemeral_account_balance < 2 ^ 128
  pub revision_number : v.revision_number < 2 ^ 64

pub record TableInRange (v : HostPriceTable) : Type 0 where
  pub uid : v.uid < 2 ^ 128
  pub validity : IsWhole v.validity
  pub host_block_height : v.host_block_height < 2 ^ 64
  pub update_price_table_cost : v.update_price_table_cost < 2 ^ 128
  pub account_balance_cost : v.account_balance_cost < 2 ^ 128
  pub fund_account_cost : v.fund_account_cost < 2 ^ 128
  pub latest_revision_cost : v.latest_revision_cost < 2 ^ 128
  pub subscription_memory_cost : v.subscription_memory_cost < 2 ^ 128
  pub subscription_notification_cost : v.subscription_notification_cost < 2 ^ 128
  pub init_base_cost : v.init_base_cost < 2 ^ 128
  pub memory_time_cost : v.memory_time_cost < 2 ^ 128
  pub download_bandwidth_cost : v.download_bandwidth_cost < 2 ^ 128
  pub upload_bandwidth_cost : v.upload_bandwidth_cost < 2 ^ 128
  pub drop_sectors_base_cost : v.drop_sectors_base_cost < 2 ^ 128
  pub drop_sectors_unit_cost : v.drop_sectors_unit_cost < 2 ^ 128
  pub has_sector_base_cost : v.has_sector_base_cost < 2 ^ 128
  pub read_base_cost : v.read_base_cost < 2 ^ 128
  pub read_length_cost : v.read_length_cost < 2 ^ 128
  pub renew_contract_cost : v.renew_contract_cost < 2 ^ 128
  pub revision_base_cost : v.revision_base_cost < 2 ^ 128
  pub swap_sector_base_cost : v.swap_sector_base_cost < 2 ^ 128
  pub write_base_cost : v.write_base_cost < 2 ^ 128
  pub write_length_cost : v.write_length_cost < 2 ^ 128
  pub write_store_cost : v.write_store_cost < 2 ^ 128
  pub txn_fee_min_recommended : v.txn_fee_min_recommended < 2 ^ 128
  pub txn_fee_max_recommended : v.txn_fee_max_recommended < 2 ^ 128
  pub contract_price : v.contract_price < 2 ^ 128
  pub collateral_cost : v.collateral_cost < 2 ^ 128
  pub max_collateral : v.max_collateral < 2 ^ 128
  pub max_duration : v.max_duration < 2 ^ 64
  pub window_size : v.window_size < 2 ^ 64
  pub registry_entries_left : v.registry_entries_left < 2 ^ 64
  pub registry_entries_total : v.registry_entries_total < 2 ^ 64

module _ {c : Codec} (l : CodecLaws c) where
  whole_read :
      (d : ℕ) (h : IsWhole d) (r : List ℕ)
      → c.read_uint64 (c.write_uint64 (c.whole_seconds d) ++ r) ≡ some (c.whole_seconds d, r)
  whole_read d (n, e, lt) r = l.uint64_law _ r (rw (e, l.seconds_law n (omega arith)) (omega arith))

  whole_back : (d : ℕ) → IsWhole d → of_seconds (c.whole_seconds d) ≡ d
  whole_back d (n, e, lt) = rw (e, l.seconds_law n (omega arith)) (omega arith)

  -- Settings in range, whatever bytes follow: decoding what was encoded gives every field back.
  pub decode-encode_settings :
      (hs : HostSettings) (rest : List ℕ)
      → SettingsInRange hs
      → decode_settings c (encode_settings c hs ++ rest) ≡ some (hs, rest)
  unfolding encode_settings decode_settings
  decode-encode_settings hs rest h = simp append_assoc (
      rw
        (
          l.bool_law hs.accepting_contracts _,
          l.uint64_law hs.max_download_batch_size _ h.max_download_batch_size,
          l.uint64_law hs.max_duration _ h.max_duration,
          l.uint64_law hs.max_revise_batch_size _ h.max_revise_batch_size,
          l.string_law hs.net_address _,
          l.uint64_law hs.remaining_storage _ h.remaining_storage,
          l.uint64_law hs.sector_size _ h.sector_size,
          l.uint64_law hs.total_storage _ h.total_storage,
          l.address_law hs.address _ h.address,
          l.uint64_law hs.window_size _ h.window_size,
          l.currency_law hs.collateral _ h.collateral,
          l.currency_law hs.max_collateral _ h.max_collateral,
          l.currency_law hs.base_rpc_price _ h.base_rpc_price,
          l.currency_law hs.contract_price _ h.contract_price,
          l.currency_law hs.download_bandwidth_price _ h.download_bandwidth_price,
          l.currency_law hs.sector_access_price _ h.sector_access_price,
          l.currency_law hs.storage_price _ h.storage_price,
          l.currency_law hs.upload_bandwidth_price _ h.upload_bandwidth_price,
          whole_read hs.ephemeral_account_expiry h.ephemeral_account_expiry _,
          l.currency_law hs.max_ephemeral_account_balance _ h.max_ephemeral_account_balance,
          l.uint64_law hs.revision_number _ h.revision_number,
          l.string_law hs.version _,
          l.string_law hs.release _,
          l.string_law hs.sia_mux_port _,
        )
        (ap (λ d. some (record hs { ephemeral_account_expiry = d }, rest))
          (whole_back hs.ephemeral_account_expiry h.ephemeral_account_expiry)))

  -- A price table in range, whatever bytes follow: decoding what was encoded gives every field back.
  pub decode-encode_price_table :
      (pt : HostPriceTable) (rest : List ℕ)
      → TableInRange pt
      → decode_price_table c (encode_price_table c pt ++ rest) ≡ some (pt, rest)
  unfolding encode_price_table decode_price_table
  decode-encode_price_table pt rest h = simp append_assoc (
      rw
        (
          l.uid_law pt.uid _ h.uid,
          whole_read pt.validity h.validity _,
          l.uint64_law pt.host_block_height _ h.host_block_height,
          l.currency_law pt.update_price_table_cost _ h.update_price_table_cost,
          l.currency_law pt.account_balance_cost _ h.account_balance_cost,
          l.currency_law pt.fund_account_cost _ h.fund_account_cost,
          l.currency_law pt.latest_revision_cost _ h.latest_revision_cost,
          l.currency_law pt.subscription_memory_cost _ h.subscription_memory_cost,
          l.currency_law pt.subscription_notification_cost _ h.subscription_notification_cost,
          l.currency_law pt.init_base_cost _ h.init_base_cost,
          l.currency_law pt.memory_time_cost _ h.memory_time_cost,
          l.currency_law pt.download_bandwidth_cost _ h.download_bandwidth_cost,
          l.currency_law pt.upload_bandwidth_cost _ h.upload_bandwidth_cost,
          l.currency_law pt.drop_sectors_base_cost _ h.drop_sectors_base_cost,
          l.currency_law pt.drop_sectors_unit_cost _ h.drop_sectors_unit_cost,
          l.currency_law pt.has_sector_base_cost _ h.has_sector_base_cost,
          l.currency_law pt.read_base_cost _ h.read_base_cost,
          l.currency_law pt.read_length_cost _ h.read_length_cost,
          l.currency_law pt.renew_contract_cost _ h.renew_contract_cost,
          l.currency_law pt.revision_base_cost _ h.revision_base_cost,
          l.currency_law pt.swap_sector_base_cost _ h.swap_sector_base_cost,
          l.currency_law pt.write_base_cost _ h.write_base_cost,
          l.currency_law pt.write_length_cost _ h.write_length_cost,
          l.currency_law pt.write_store_cost _ h.write_store_cost,
          l.currency_law pt.txn_fee_min_recommended _ h.txn_fee_min_recommended,
          l.currency_law pt.txn_fee_max_recommended _ h.txn_fee_max_recommended,
          l.currency_law pt.contract_price _ h.contract_price,
          l.currency_law pt.collateral_cost _ h.collateral_cost,
          l.currency_law pt.max_collateral _ h.max_collateral,
          l.uint64_law pt.max_duration _ h.max_duration,
          l.uint64_law pt.window_size _ h.window_size,
          l.uint64_law pt.registry_entries_left _ h.registry_entries_left,
          l.uint64_law pt.registry_entries_total _ h.registry_entries_total,
        )
        (ap (λ d. some (record pt { validity = d }, rest)) (whole_back pt.validity h.validity)))
