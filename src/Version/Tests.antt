-- ===== src/Version/Tests.antt =====
-- Three versions, and the theorems at them.
use hostscore.Prelude.{ℕ, ◌-◌, ◌≡◌, ◌≢◌, ◌↔◌, refl, List, [], ◌∷◌}
use hostscore.Prelude.Int.{ℤ, pos}
use hostscore.Version.{compare_split, less, equal, greater, version_cmp, split_version}
use hostscore.Version.Order.{version_cmp_trans, version_cmp-equal}

-- The value of one digit.
abbrev digit : List ℕ → ℤ
digit [] = pos 0
digit (x ∷ xs) = pos (x - b'0')

-- "1.6-rc2", "1.6" and "1.6.0".
abbrev candidate : List ℕ
candidate = b'1' ∷ b'.' ∷ b'6' ∷ b'-' ∷ b'r' ∷ b'c' ∷ b'2' ∷ []

abbrev release : List ℕ
release = b'1' ∷ b'.' ∷ b'6' ∷ []

abbrev longer : List ℕ
longer = b'1' ∷ b'.' ∷ b'6' ∷ b'.' ∷ b'0' ∷ []

candidate_older : version_cmp digit candidate release ≡ less
unfolding version_cmp compare_split split_version
candidate_older = refl

release_older : version_cmp digit release longer ≡ less
unfolding version_cmp compare_split split_version
release_older = refl

version_cmp_trans_example : version_cmp digit candidate longer ≢ greater
version_cmp_trans_example =
    version_cmp_trans digit candidate release longer (λ h. let less_ = candidate_older in cc)
      (λ h. let less_ = release_older in cc)

version_cmp-equal_example :
    (version_cmp digit release release ≡ equal)
    ↔ (split_version digit release ≡ split_version digit release)
version_cmp-equal_example = version_cmp-equal digit release release
