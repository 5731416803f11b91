-- ===== src/Gouging/Cost.antt =====
-- hostdb/gouging.go: the sector costs as exact sums, overflow included.
use native.Mathlib.Decide.{dec_lt}
use hostscore.Prelude.{ℕ, ◌+◌, ◌*◌, ◌≤◌, ◌≡◌, refl, Bool, true, false, arith}
use hostscore.Currency.{CurrencyOps, CurrencyLaws, IsChecked, max_currency}
use hostscore.Types.{HostPriceTable}
use hostscore.Gouging.{RhpTypes, ◌>>=◌, sector_read_cost, sector_upload_cost}

-- A step over an exact amount, into an amount that is no smaller.
bind-IsChecked :
    (n m : ℕ) (r : ℕ × Bool) (f : ℕ → ℕ × Bool)
    → IsChecked n r
    → n ≤ m
    → IsChecked m (f n)
    → IsChecked m (r >>= f)
bind-IsChecked n m (c, true) f h le k = (λ lt. cc (h.0 (omega arith)), λ _. refl)
bind-IsChecked n m (c, false) f h le k = elim (dec_lt n max_currency) [
  | yes p ↦ let same : n ≡ c = cc (h.0 p) in rw same at k
  | no p ↦ cc (h.1 (omega arith))
]

-- The last step returns its amount.
last-IsChecked : (n : ℕ) (r : ℕ × Bool) → IsChecked n r → IsChecked n (r >>= λ c. (c, false))
last-IsChecked n (c, true) h = (λ lt. cc (h.0 lt), λ _. refl)
last-IsChecked n (c, false) h = h

-- The cost of reading a sector, and of uploading one, in hastings.
abbrev pub read_cost : HostPriceTable → ℕ → ℕ
read_cost pt s =
    pt.read_length_cost * s
    + pt.read_base_cost
    + pt.init_base_cost
    + pt.upload_bandwidth_cost * 32
    + pt.download_bandwidth_cost * s

abbrev pub upload_cost : HostPriceTable → ℕ → ℕ
upload_cost pt s =
    pt.write_length_cost * s + pt.write_base_cost + pt.init_base_cost + pt.upload_bandwidth_cost * s

module _ {cur : CurrencyOps} (laws : CurrencyLaws cur) (rhp : RhpTypes) (pt : HostPriceTable) where
  open laws use {add_checked as plus, mul64_checked as times}
  open rhp use {sector_size as s}
  open pt use {
    read_length_cost, read_base_cost, init_base_cost, upload_bandwidth_cost,
    download_bandwidth_cost, write_length_cost, write_base_cost,
  }

  -- `sectorReadCostRHPv3` returns the exact cost below 2 ^ 128, and reports an overflow otherwise.
  pub sector_read_cost-IsChecked : IsChecked (read_cost pt s) (sector_read_cost cur rhp pt)
  unfolding sector_read_cost
  sector_read_cost-IsChecked =
      let n₁ = read_length_cost * s in
      let n₂ = n₁ + read_base_cost in
      let n₃ = n₂ + init_base_cost in
      let i = upload_bandwidth_cost * 32 in
      let e = download_bandwidth_cost * s in
      bind-IsChecked n₁ _ _ _ (times _ s) (omega arith) (
        bind-IsChecked n₂ _ _ _ (plus n₁ _) (omega arith) (
          bind-IsChecked n₃ _ _ _ (plus n₂ _) (omega arith) (
            bind-IsChecked i _ _ _ (times _ 32) (omega arith) (
              bind-IsChecked e _ _ _ (times _ s) (omega arith) (
                bind-IsChecked (n₃ + i) _ _ _ (plus n₃ i) (omega arith)
                  (last-IsChecked _ _ (plus (n₃ + i) e)))))))

  -- So does `sectorUploadCostRHPv3`.
  pub sector_upload_cost-IsChecked : IsChecked (upload_cost pt s) (sector_upload_cost cur rhp pt)
  unfolding sector_upload_cost
  sector_upload_cost-IsChecked =
      let n₁ = write_length_cost * s in
      let n₂ = n₁ + write_base_cost in
      let n₃ = n₂ + init_base_cost in
      let i = upload_bandwidth_cost * s in
      bind-IsChecked n₁ _ _ _ (times _ s) (omega arith) (
        bind-IsChecked n₂ _ _ _ (plus n₁ _) (omega arith) (
          bind-IsChecked n₃ _ _ _ (plus n₂ _) (omega arith)
            (bind-IsChecked i _ _ _ (times _ s) (omega arith) (last-IsChecked _ _ (plus n₃ i)))))
