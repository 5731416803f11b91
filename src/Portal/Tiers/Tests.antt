-- ===== src/Portal/Tiers/Tests.antt =====
-- Twelve hosts with prices 1 to 12, of which the last but one is offline.
use hostscore.Prelude.{◌≡◌, refl, [], ◌∷◌, List, Bool, true, false, some, arith}
use hostscore.Currency.{exact_ops, exact_laws}
use hostscore.Portal.{PortalHost, sort_by_rank, compare_hosts, is_online, select_hosts}
use hostscore.Portal.Listed.{host}
use hostscore.Portal.Sorting.{Sorted, compare_hosts-IsOrder}
use hostscore.Portal.Pages.{count}
use hostscore.Portal.Tiers.{
  tier1_hosts, tier2_hosts, tier3_hosts, ranked, calculate_averages, no_averages,
}
use hostscore.Portal.Tiers.Cuts.{Cut}
use hostscore.Portal.Tiers.Means.{means, calculate_averages-IsMeans}

abbrev hosts : List PortalHost
hosts =
    host 12 12 true
    ∷ host 11 11 false
    ∷ host 1 1 true
    ∷ host 2 2 true
    ∷ host 3 3 true
    ∷ host 4 4 true
    ∷ host 5 5 true
    ∷ host 6 6 true
    ∷ host 7 7 true
    ∷ host 8 8 true
    ∷ host 9 9 true
    ∷ host 10 10 true
    ∷ []

calculate_averages-IsMeans_example :
    (calculate_averages exact_ops hosts
      ≡ some (record {
        tier1 = means (tier1_hosts (ranked hosts));
        tier2 = means (tier2_hosts (ranked hosts));
        tier3 = means (tier3_hosts (ranked hosts));
      }))
    × Cut (ranked hosts)
    × Sorted
        (compare_hosts sort_by_rank true)
        (compare_hosts-IsOrder sort_by_rank true)
        (ranked hosts)
    × ((p : PortalHost → Bool) → count p (ranked hosts) ≡ count p (select_hosts is_online hosts))
unfolding select_hosts is_online
calculate_averages-IsMeans_example =
    calculate_averages-IsMeans exact_laws hosts
      (omega arith, omega arith, omega arith, omega arith, omega arith)

-- The mean of 1 to 10 is rounded down, and the twelfth host is alone in the second tier.
averages :
    calculate_averages exact_ops hosts
    ≡ some (record {
      tier1 = record {
        storage_price = 5;
        collateral = 0;
        upload_price = 0;
        download_price = 0;
        contract_duration = 0;
        available = true;
      };
      tier2 = record {
        storage_price = 12;
        collateral = 0;
        upload_price = 0;
        download_price = 0;
        contract_duration = 0;
        available = true;
      };
      tier3 = no_averages;
    })
unfolding calculate_averages exact_ops
averages = refl
