-- ===== src/Encoding.antt =====
-- internal/utils/encoding.go: the binary form of host settings and price tables. types.Encoder and
-- types.Decoder of go.sia.tech/core are a record with their documented round trips; a read past the
-- end is `none` (the decoder's error, which every caller checks before it uses the value).
pub mod RoundTrip
mod Tests
use hostscore.Prelude.{ℕ, ◌*◌, ◌%◌, ◌^◌, ◌<◌, ◌≡◌, Bool, List, [], ◌++◌, Option, none, some}
use hostscore.Types.{HostSettings, HostPriceTable}

-- One second in nanoseconds.
abbrev pub second : ℕ
second = 1_000_000_000

pub record Codec : Type 0 where
  pub write_bool : Bool → List ℕ
  pub write_uint64 : ℕ → List ℕ
  pub write_string : List ℕ → List ℕ
  pub write_currency : ℕ → List ℕ
  pub write_address : ℕ → List ℕ
  pub write_uid : ℕ → List ℕ
  pub read_bool : List ℕ → Option (Bool × List ℕ)
  pub read_uint64 : List ℕ → Option (ℕ × List ℕ)
  pub read_string : List ℕ → Option (List ℕ × List ℕ)
  pub read_currency : List ℕ → Option (ℕ × List ℕ)
  pub read_address : List ℕ → Option (ℕ × List ℕ)
  pub read_uid : List ℕ → Option (ℕ × List ℕ)
  -- `uint64(d.Seconds())`, which goes through a float.
  pub whole_seconds : ℕ → ℕ

-- What is written is read back, in the range of its type.
pub record CodecLaws (c : Codec) : Type 0 where
  pub bool_law : (x : Bool) (r : List ℕ) → c.read_bool (c.write_bool x ++ r) ≡ some (x, r)
  pub uint64_law :
      (x : ℕ) (r : List ℕ) → x < 2 ^ 64 → c.read_uint64 (c.write_uint64 x ++ r) ≡ some (x, r)
  pub string_law : (x r : List ℕ) → c.read_string (c.write_string x ++ r) ≡ some (x, r)
  pub currency_law :
      (x : ℕ) (r : List ℕ) → x < 2 ^ 128 → c.read_currency (c.write_currency x ++ r) ≡ some (x, r)
  pub address_law :
      (x : ℕ) (r : List ℕ) → x < 2 ^ 256 → c.read_address (c.write_address x ++ r) ≡ some (x, r)
  pub uid_law : (x : ℕ) (r : List ℕ) → x < 2 ^ 128 → c.read_uid (c.write_uid x ++ r) ≡ some (x, r)
  pub seconds_law : (n : ℕ) → n * second < 2 ^ 63 → c.whole_seconds (n * second) ≡ n

infixl 5 ◌>>=◌
abbrev pub ◌>>=◌ : {A B : Type 0} → Option A → (A → Option B) → Option B
none >>= f = none
some a >>= f = f a

-- `time.Duration(n) * time.Second` on 64 bits.
abbrev pub of_seconds : ℕ → ℕ
of_seconds n = n * second % 2 ^ 64

module _ (c : Codec) where
  open c use {
    write_bool, write_uint64, write_string, write_currency, write_address, write_uid, read_bool,
    read_uint64, read_string, read_currency, read_address, read_uid, whole_seconds,
  }

  pub encode_settings : HostSettings → List ℕ
  encode_settings hs =
      write_bool hs.accepting_contracts
      ++ (write_uint64 hs.max_download_batch_size
          ++ (write_uint64 hs.max_duration
              ++ (write_uint64 hs.max_revise_batch_size
                  ++ (write_string hs.net_address
                      ++ (write_uint64 hs.remaining_storage
                          ++ (write_uint64 hs.sector_size
                              ++ (write_uint64 hs.total_storage
                                  ++ (write_address hs.address
                                      ++ (write_uint64 hs.window_size
                                          ++ (write_currency hs.collateral
                                              ++ (write_currency hs.max_collateral
                                                  ++ (write_currency hs.base_rpc_price
                                                      ++ (write_currency hs.contract_price
                                                          ++ (write_currency
                                                            hs.download_bandwidth_price
                                                            ++ (write_currency
                                                            hs.sector_access_price
                                                            ++ (write_currency hs.storage_price
                                                            ++ (write_currency
                                                            hs.upload_bandwidth_price
                                                            ++ (write_uint64 (
                                                            whole_seconds
                                                            hs.ephemeral_account_expiry)
                                                            ++ (write_currency
                                                            hs.max_ephemeral_account_balance
                                                            ++ (write_uint64 hs.revision_number
                                                            ++ (write_string hs.version
                                                            ++ (write_string hs.release
                                                            ++ (write_string
                                                            hs.sia_mux_port)))))))))))))))))))))))

  pub decode_settings : List ℕ → Option (HostSettings × List ℕ)
  decode_settings b₀ = do
    (accepting_contracts, b₁) ← read_bool b₀
    (max_download_batch_size, b₂) ← read_uint64 b₁
    (max_duration, b₃) ← read_uint64 b₂
    (max_revise_batch_size, b₄) ← read_uint64 b₃
    (net_address, b₅) ← read_string b₄
    (remaining_storage, b₆) ← read_uint64 b₅
    (sector_size, b₇) ← read_uint64 b₆
    (total_storage, b₈) ← read_uint64 b₇
    (address, b₉) ← read_address b₈
    (window_size, b₁₀) ← read_uint64 b₉
    (collateral, b₁₁) ← read_currency b₁₀
    (max_collateral, b₁₂) ← read_currency b₁₁
    (base_rpc_price, b₁₃) ← read_currency b₁₂
    (contract_price, b₁₄) ← read_currency b₁₃
    (download_bandwidth_price, b₁₅) ← read_currency b₁₄
    (sector_access_price, b₁₆) ← read_currency b₁₅
    (storage_price, b₁₇) ← read_currency b₁₆
    (upload_bandwidth_price, b₁₈) ← read_currency b₁₇
    (ephemeral_account_expiry, b₁₉) ← read_uint64 b₁₈
    (max_ephemeral_account_balance, b₂₀) ← read_currency b₁₉
    (revision_number, b₂₁) ← read_uint64 b₂₀
    (version, b₂₂) ← read_string b₂₁
    (release, b₂₃) ← read_string b₂₂
    (sia_mux_port, b₂₄) ← read_string b₂₃
    some (
      record {
        accepting_contracts = accepting_contracts;
        max_download_batch_size = max_download_batch_size;
        max_duration = max_duration;
        max_revise_batch_size = max_revise_batch_size;
        net_address = net_address;
        remaining_storage = remaining_storage;
        sector_size = sector_size;
        total_storage = total_storage;
        address = address;
        window_size = window_size;
        collateral = collateral;
        max_collateral = max_collateral;
        base_rpc_price = base_rpc_price;
        contract_price = contract_price;
        download_bandwidth_price = download_bandwidth_price;
        sector_access_price = sector_access_price;
        storage_price = storage_price;
        upload_bandwidth_price = upload_bandwidth_price;
        ephemeral_account_expiry = of_seconds ephemeral_account_expiry;
        max_ephemeral_account_balance = max_ephemeral_account_balance;
        revision_number = revision_number;
        version = version;
        release = release;
        sia_mux_port = sia_mux_port;
      },
      b₂₄,
    )

  pub encode_price_table : HostPriceTable → List ℕ
  encode_price_table pt =
      write_uid pt.uid
      ++ (write_uint64 (whole_seconds pt.validity)
          ++ (write_uint64 pt.host_block_height
              ++ (write_currency pt.update_price_table_cost
                  ++ (write_currency pt.account_balance_cost
                      ++ (write_currency pt.fund_account_cost
                          ++ (write_currency pt.latest_revision_cost
                              ++ (write_currency pt.subscription_memory_cost
                                  ++ (write_currency pt.subscription_notification_cost
                                      ++ (write_currency pt.init_base_cost
                                          ++ (write_currency pt.memory_time_cost
                                              ++ (write_currency pt.download_bandwidth_cost
                                                  ++ (write_currency pt.upload_bandwidth_cost
                                                      ++ (write_currency pt.drop_sectors_base_cost
                                                          ++ (write_currency
                                                            pt.drop_sectors_unit_cost
                                                            ++ (write_currency
                                                            pt.has_sector_base_cost
                                                            ++ (write_currency pt.read_base_cost
                                                            ++ (write_currency pt.read_length_cost
                                                            ++ (write_currency
                                                            pt.renew_contract_cost
                                                            ++ (write_currency pt.revision_base_cost
                                                            ++ (write_currency
                                                            pt.swap_sector_base_cost
                                                            ++ (write_currency pt.write_base_cost
                                                            ++ (write_currency pt.write_length_cost
                                                            ++ (write_currency pt.write_store_cost
                                                            ++ (write_currency
                                                            pt.txn_fee_min_recommended
                                                            ++ (write_currency
                                                            pt.txn_fee_max_recommended
                                                            ++ (write_currency pt.contract_price
                                                            ++ (write_currency pt.collateral_cost
                                                            ++ (write_currency pt.max_collateral
                                                            ++ (write_uint64 pt.max_duration
                                                            ++ (write_uint64 pt.window_size
                                                            ++ (write_uint64
                                                            pt.registry_entries_left
                                                            ++ (write_uint64
                                                            pt.registry_entries_total))))))))))))))))))))))))))))))))

  pub decode_price_table : List ℕ → Option (HostPriceTable × List ℕ)
  decode_price_table b₀ = do
    (uid, b₁) ← read_uid b₀
    (validity, b₂) ← read_uint64 b₁
    (host_block_height, b₃) ← read_uint64 b₂
    (update_price_table_cost, b₄) ← read_currency b₃
    (account_balance_cost, b₅) ← read_currency b₄
    (fund_account_cost, b₆) ← read_currency b₅
    (latest_revision_cost, b₇) ← read_currency b₆
    (subscription_memory_cost, b₈) ← read_currency b₇
    (subscription_notification_cost, b₉) ← read_currency b₈
    (init_base_cost, b₁₀) ← read_currency b₉
    (memory_time_cost, b₁₁) ← read_currency b₁₀
    (download_bandwidth_cost, b₁₂) ← read_currency b₁₁
    (upload_bandwidth_cost, b₁₃) ← read_currency b₁₂
    (drop_sectors_base_cost, b₁₄) ← read_currency b₁₃
    (drop_sectors_unit_cost, b₁₅) ← read_currency b₁₄
    (has_sector_base_cost, b₁₆) ← read_currency b₁₅
    (read_base_cost, b₁₇) ← read_currency b₁₆
    (read_length_cost, b₁₈) ← read_currency b₁₇
    (renew_contract_cost, b₁₉) ← read_currency b₁₈
    (revision_base_cost, b₂₀) ← read_currency b₁₉
    (swap_sector_base_cost, b₂₁) ← read_currency b₂₀
    (write_base_cost, b₂₂) ← read_currency b₂₁
    (write_length_cost, b₂₃) ← read_currency b₂₂
    (write_store_cost, b₂₄) ← read_currency b₂₃
    (txn_fee_min_recommended, b₂₅) ← read_currency b₂₄
    (txn_fee_max_recommended, b₂₆) ← read_currency b₂₅
    (contract_price, b₂₇) ← read_currency b₂₆
    (collateral_cost, b₂₈) ← read_currency b₂₇
    (max_collateral, b₂₉) ← read_currency b₂₈
    (max_duration, b₃₀) ← read_uint64 b₂₉
    (window_size, b₃₁) ← read_uint64 b₃₀
    (registry_entries_left, b₃₂) ← read_uint64 b₃₁
    (registry_entries_total, b₃₃) ← read_uint64 b₃₂
    some (
      record {
        uid = uid;
        validity = of_seconds validity;
        host_block_height = host_block_height;
        update_price_table_cost = update_price_table_cost;
        account_balance_cost = account_balance_cost;
        fund_account_cost = fund_account_cost;
        latest_revision_cost = latest_revision_cost;
        subscription_memory_cost = subscription_memory_cost;
        subscription_notification_cost = subscription_notification_cost;
        init_base_cost = init_base_cost;
        memory_time_cost = memory_time_cost;
        download_bandwidth_cost = download_bandwidth_cost;
        upload_bandwidth_cost = upload_bandwidth_cost;
        drop_sectors_base_cost = drop_sectors_base_cost;
        drop_sectors_unit_cost = drop_sectors_unit_cost;
        has_sector_base_cost = has_sector_base_cost;
        read_base_cost = read_base_cost;
        read_length_cost = read_length_cost;
        renew_contract_cost = renew_contract_cost;
        revision_base_cost = revision_base_cost;
        swap_sector_base_cost = swap_sector_base_cost;
        write_base_cost = write_base_cost;
        write_length_cost = write_length_cost;
        write_store_cost = write_store_cost;
        txn_fee_min_recommended = txn_fee_min_recommended;
        txn_fee_max_recommended = txn_fee_max_recommended;
        contract_price = contract_price;
        collateral_cost = collateral_cost;
        max_collateral = max_collateral;
        max_duration = max_duration;
        window_size = window_size;
        registry_entries_left = registry_entries_left;
        registry_entries_total = registry_entries_total;
      },
      b₃₃,
    )
