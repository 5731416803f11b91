-- ===== src/ThreadGroup/Shutdown.antt =====
-- internal/sync/threadgroup.go: what `Stop` guarantees, over every interleaving.
use mathlib.Core.List.{reverse}
use hostscore.Prelude.{ℕ, ◌≡◌, ◌⊎◌, List, ◌++◌, arith}
use hostscore.ThreadGroup.{ThreadGroup, after_stop_loop, stopped, new, Reach}
use hostscore.ThreadGroup.Invariant.{Reach-Inv}

-- When `Stop` returns, it has called every registered OnStop function once, the last registered
-- first, and then every registered AfterStop function once, the last registered first. A
-- registration that raced with `Stop` and was accepted is among them.
pub stopped-called :
    {s : ThreadGroup}
    → Reach new s
    → s.phase ≡ stopped
    → s.called ≡ reverse s.registered_on ++ reverse s.registered_after
stopped-called r e = ground (arith, Reach-Inv r)

-- While `Stop` calls AfterStop functions, and from then on, no thread of the group is running.
pub after_stop-wg :
    {s : ThreadGroup} (rest : List ℕ)
    → Reach new s
    → (s.phase ≡ after_stop_loop rest) ⊎ (s.phase ≡ stopped)
    → s.wg ≡ 0
after_stop-wg rest r e = ground (arith, Reach-Inv r)
