-- ===== src/Encoding/Tests.antt =====
-- A codec over lists of numbers, and the round trips at concrete values.
use hostscore.Prelude.{
  ℕ, zero, suc, ◌/◌, ◌≡◌, refl, Bool, true, false, List, [], ◌∷◌, ◌++◌, Option, none, some, arith,
  length,
}
use hostscore.Types.{HostSettings, HostPriceTable}
use hostscore.Encoding.{
  Codec, CodecLaws, second, encode_settings, decode_settings, encode_price_table,
  decode_price_table, ◌>>=◌,
}
use hostscore.Encoding.RoundTrip.{
  SettingsInRange, TableInRange, decode-encode_settings, decode-encode_price_table,
}

abbrev of_bool : Bool → ℕ
of_bool true = 1
of_bool false = 0

abbrev to_bool : ℕ → Bool
to_bool zero = false
to_bool (suc n) = true

abbrev read_one : List ℕ → Option (ℕ × List ℕ)
read_one [] = none
read_one (x ∷ r) = some (x, r)

-- The first `n` elements, and the rest.
abbrev split_at : ℕ → List ℕ → Option (List ℕ × List ℕ)
split_at zero r = some ([], r)
split_at (suc n) [] = none
split_at (suc n) (x ∷ r) = split_at n r >>= λ p. some (x ∷ p.0, p.1)

split_at-length : (x r : List ℕ) → split_at (length x) (x ++ r) ≡ some (x, r)
split_at-length [] r = refl
split_at-length (a ∷ x) r = rw (split_at-length x r) refl

abbrev plain_codec : Codec
plain_codec = record {
  write_bool = λ b. of_bool b ∷ [];
  write_uint64 = λ x. x ∷ [];
  write_string = λ s. length s ∷ s;
  write_currency = λ x. x ∷ [];
  write_address = λ x. x ∷ [];
  write_uid = λ x. x ∷ [];
  read_bool = λ r. read_one r >>= λ p. some (to_bool p.0, p.1);
  read_uint64 = read_one;
  read_string = λ r. read_one r >>= λ p. split_at p.0 p.1;
  read_currency = read_one;
  read_address = read_one;
  read_uid = read_one;
  whole_seconds = λ d. d / second;
}

bool_back : (b : Bool) → to_bool (of_bool b) ≡ b
bool_back true = refl
bool_back false = refl

plain_laws : CodecLaws plain_codec
plain_laws = record {
  bool_law = λ b r. rw (bool_back b) refl;
  uint64_law = λ x r h. refl;
  string_law = λ s r. split_at-length s r;
  currency_law = λ x r h. refl;
  address_law = λ x r h. refl;
  uid_law = λ x r h. refl;
  seconds_law = λ n h. omega arith;
}

abbrev sample_settings : HostSettings
sample_settings = record {
  accepting_contracts = true;
  max_download_batch_size = 10;
  max_duration = 17;
  max_revise_batch_size = 24;
  net_address = b'h' ∷ [];
  remaining_storage = 38;
  sector_size = 45;
  total_storage = 52;
  address = 59;
  window_size = 66;
  collateral = 73;
  max_collateral = 80;
  base_rpc_price = 87;
  contract_price = 94;
  download_bandwidth_price = 101;
  sector_access_price = 108;
  storage_price = 115;
  upload_bandwidth_price = 122;
  ephemeral_account_expiry = 300_000_000_000;
  max_ephemeral_account_balance = 136;
  revision_number = 143;
  version = b'1' ∷ b'.' ∷ b'6' ∷ [];
  release = b'h' ∷ [];
  sia_mux_port = b'h' ∷ [];
}

abbrev sample_table : HostPriceTable
sample_table = record {
  uid = 3;
  validity = 300_000_000_000;
  host_block_height = 17;
  update_price_table_cost = 24;
  account_balance_cost = 31;
  fund_account_cost = 38;
  latest_revision_cost = 45;
  subscription_memory_cost = 52;
  subscription_notification_cost = 59;
  init_base_cost = 66;
  memory_time_cost = 73;
  download_bandwidth_cost = 80;
  upload_bandwidth_cost = 87;
  drop_sectors_base_cost = 94;
  drop_sectors_unit_cost = 101;
  has_sector_base_cost = 108;
  read_base_cost = 115;
  read_length_cost = 122;
  renew_contract_cost = 129;
  revision_base_cost = 136;
  swap_sector_base_cost = 143;
  write_base_cost = 150;
  write_length_cost = 157;
  write_store_cost = 164;
  txn_fee_min_recommended = 171;
  txn_fee_max_recommended = 178;
  contract_price = 185;
  collateral_cost = 192;
  max_collateral = 199;
  max_duration = 206;
  window_size = 213;
  registry_entries_left = 220;
  registry_entries_total = 227;
}

sample_settings-InRange : SettingsInRange sample_settings
sample_settings-InRange = record {
  max_download_batch_size = omega arith;
  max_duration = omega arith;
  max_revise_batch_size = omega arith;
  remaining_storage = omega arith;
  sector_size = omega arith;
  total_storage = omega arith;
  address = omega arith;
  window_size = omega arith;
  collateral = omega arith;
  max_collateral = omega arith;
  base_rpc_price = omega arith;
  contract_price = omega arith;
  download_bandwidth_price = omega arith;
  sector_access_price = omega arith;
  storage_price = omega arith;
  upload_bandwidth_price = omega arith;
  ephemeral_account_expiry = (300, refl, omega arith);
  max_ephemeral_account_balance = omega arith;
  revision_number = omega arith;
}

sample_table-InRange : TableInRange sample_table
sample_table-InRange = record {
  uid = omega arith;
  validity = (300, refl, omega arith);
  host_block_height = omega arith;
  update_price_table_cost = omega arith;
  account_balance_cost = omega arith;
  fund_account_cost = omega arith;
  latest_revision_cost = omega arith;
  subscription_memory_cost = omega arith;
  subscription_notification_cost = omega arith;
  init_base_cost = omega arith;
  memory_time_cost = omega arith;
  download_bandwidth_cost = omega arith;
  upload_bandwidth_cost = omega arith;
  drop_sectors_base_cost = omega arith;
  drop_sectors_unit_cost = omega arith;
  has_sector_base_cost = omega arith;
  read_base_cost = omega arith;
  read_length_cost = omega arith;
  renew_contract_cost = omega arith;
  revision_base_cost = omega arith;
  swap_sector_base_cost = omega arith;
  write_base_cost = omega arith;
  write_length_cost = omega arith;
  write_store_cost = omega arith;
  txn_fee_min_recommended = omega arith;
  txn_fee_max_recommended = omega arith;
  contract_price = omega arith;
  collateral_cost = omega arith;
  max_collateral = omega arith;
  max_duration = omega arith;
  window_size = omega arith;
  registry_entries_left = omega arith;
  registry_entries_total = omega arith;
}

decode-encode_settings_example :
    decode_settings plain_codec (encode_settings plain_codec sample_settings ++ 9 ∷ [])
    ≡ some (sample_settings, 9 ∷ [])
decode-encode_settings_example =
    decode-encode_settings plain_laws sample_settings (9 ∷ []) sample_settings-InRange

decode-encode_price_table_example :
    decode_price_table plain_codec (encode_price_table plain_codec sample_table ++ 9 ∷ [])
    ≡ some (sample_table, 9 ∷ [])
decode-encode_price_table_example =
    decode-encode_price_table plain_laws sample_table (9 ∷ []) sample_table-InRange
