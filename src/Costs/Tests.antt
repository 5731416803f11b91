-- ===== src/Costs/Tests.antt =====
-- A host whose price table asks for a contract price, and its settings for none.
use hostscore.Prelude.{ℕ, ◌+◌, ◌*◌, ◌≡◌, refl, some, arith}
use hostscore.Currency.{exact_ops, exact_laws}
use hostscore.Types.Examples.{priced, plain_table}
use hostscore.Costs.{
  RhpCosts, ResourceCost, data_per_host, bytes_to_sectors, contract_price_for_score,
  host_period_cost_for_score,
}
use hostscore.Costs.Month.{month, smaller, Holds, host_period_cost_for_score-IsMonth}

abbrev cost : ℕ → ℕ → ResourceCost
cost base storage = record {
  base = base;
  storage = storage;
  ingress = 0;
  egress = 0;
  collateral = 0;
}

-- A sector costs 7 and its storage, which is 1 for each block; reading it costs 2 more.
abbrev flat : RhpCosts
flat = record {
  sector_size = 4_194_304;
  formation_collateral = λ period bytes settings. some (period * 2);
  base_cost = λ pt. some (cost 7 0);
  append_sector_cost = λ pt period. some (cost 0 period);
  read_sector_cost = λ pt size. some (cost 2 0);
  add = λ a b. some (cost (a.base + b.base) (a.storage + b.storage));
  total = λ a. some (a.base + a.storage, a.collateral);
}

host_period_cost_for_score-IsMonth_example :
    (host_period_cost_for_score exact_ops flat (priced 3) plain_table
      ≡ some (
          month 8640
            (smaller 0 plain_table.contract_price)
            4327
            9
            4320
            (bytes_to_sectors exact_ops flat data_per_host)))
    × Holds 4_194_304 data_per_host (bytes_to_sectors exact_ops flat data_per_host)
unfolding bytes_to_sectors
host_period_cost_for_score-IsMonth_example =
    host_period_cost_for_score-IsMonth exact_laws flat (priced 3) plain_table (cost 7 0)
      (cost 0 4320) (cost 2 0) (cost 7 4320) (cost 9 0) 8640 4327 9 0 0 refl refl refl refl refl
      refl refl refl (omega arith) (omega arith)

-- The price table asks for a contract price, the settings for none.
smaller_price : contract_price_for_score exact_ops flat (priced 3) plain_table ≡ 0
unfolding contract_price_for_score exact_ops
smaller_price = refl
