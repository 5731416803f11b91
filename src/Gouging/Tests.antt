-- ===== src/Gouging/Tests.antt =====
-- A host within the limits and one with a dear price table.
use hostscore.Prelude.{◌^◌, ◌≡◌, ◌↔◌, ◌==◌, none, some, arith}
use hostscore.Currency.{exact_ops, exact_laws, IsChecked}
use hostscore.Types.Examples.{plain_table}
use hostscore.Gouging.{
  RhpTypes, HostDbPriceLimits, check_gouging, sector_read_cost, sectors_per_tib,
}
use hostscore.Gouging.Cost.{read_cost, sector_read_cost-IsChecked}
use hostscore.Gouging.Accepts.{Accepted, FairSettings, FairTable, check_gouging-none}

abbrev rhp : RhpTypes
rhp = record {
  sector_size = 4_194_304;
  is_zero_settings = λ hs. hs.revision_number == 0;
  is_zero_table = λ pt. pt.uid == 0;
}

abbrev limits : HostDbPriceLimits
limits = record {
  max_contract_price = 10 ^ 24;
  max_upload_price = 10 ^ 27;
  max_download_price = 10 ^ 28;
  max_storage_price = 10 ^ 12;
  max_base_rpc_price = 10 ^ 20;
  max_sector_access_price = 10 ^ 20;
}

sector_read_cost-IsChecked_example :
    IsChecked (read_cost plain_table 4_194_304) (sector_read_cost exact_ops rhp plain_table)
sector_read_cost-IsChecked_example = sector_read_cost-IsChecked exact_laws rhp plain_table

check_gouging-none_example : (check_gouging exact_ops rhp none (some plain_table) limits ≡ none) ↔ (
    Accepted rhp.is_zero_settings (FairSettings limits) none
    × Accepted rhp.is_zero_table
        (FairTable limits 4_194_304 (sectors_per_tib rhp))
        (some plain_table))
check_gouging-none_example =
    check_gouging-none exact_laws rhp (omega arith) limits (omega arith) (omega arith) none
      (some plain_table)
