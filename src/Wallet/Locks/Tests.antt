-- ===== src/Wallet/Locks/Tests.antt =====
-- A wallet with two reservations.
use hostscore.Prelude.{
  ℕ, ◌≡◌, refl, true, false, Option, none, some, List, [], ◌∷◌, arith, ◌==◌, if◌then◌else◌,
}
use hostscore.Wallet.{Wallet, Transaction, release_inputs, is_locked, prune_locked, lock, release}
use hostscore.Wallet.Locks.{
  spends, release_inputs-locked, prune_locked-is_locked, Mirrors, Change, locks, releases, prunes,
  change_all, change_all-Mirrors,
}

-- Output 2 is reserved until 100, output 3 until 50.
abbrev until : ℕ → Option ℕ
until id = if id == 2 then some 100 else if id == 3 then some 50 else none

abbrev wallet : Wallet
wallet = record {
  locked = until;
  table = λ id. if id == 2 then some 0 else if id == 3 then some 0 else none;
}

abbrev spending : Transaction
spending = record {
  siacoin_inputs = record { parent_id = 2; key = 7 } ∷ [];
  siacoin_outputs = [];
  siafund_inputs = 8 ∷ [];
}

release_inputs-locked_example :
    (release_inputs (λ _. false) wallet (spending ∷ [])).locked 2
    ≡ (if spends 2 (spending ∷ []) then none else wallet.locked 2)
release_inputs-locked_example = release_inputs-locked (λ _. false) wallet (spending ∷ []) 2

prune_locked-is_locked_example :
    is_locked 70 (prune_locked true wallet 59 (λ _. 60)) 2 ≡ is_locked 70 wallet 2
prune_locked-is_locked_example = prune_locked-is_locked true wallet 59 (λ _. 60) 70 2 (omega arith)

-- Output 5 is reserved until 100.5 s; the round at 100.7 s frees it and leaves its row.
abbrev some_changes : List Change
some_changes =
    locks 5 100_500_000_000
    ∷ prunes 100_600_000_000 (λ _. 100_700_000_000) 100_700_000_000
    ∷ releases 2
    ∷ []

wallet-Mirrors : Mirrors 40 wallet
wallet-Mirrors id = ground arith

change_all-Mirrors_example : Mirrors 100_800_000_000 (change_all wallet some_changes)
change_all-Mirrors_example =
    change_all-Mirrors 40 100_800_000_000 wallet some_changes
      (omega arith, (λ id. (omega arith, omega arith)), omega arith) wallet-Mirrors

row_left : (change_all wallet some_changes).table 5 ≡ some 100
unfolding prune_locked lock release
row_left = refl
