-- ===== src/ThreadGroup/Progress.antt =====
-- internal/sync/threadgroup.go: `Stop` does not deadlock, whatever the other threads do.
use mathlib.Core.List.{reverse}
use hostscore.Prelude.{ℕ, ◌+◌, ◌<◌, ◌≡◌, ◌⊎◌, List, Bool, true, false, Option, none, some, length}
use hostscore.ThreadGroup.{
  ThreadGroup, Phase, running, cancelled, on_stop_loop, waiting, after_stop_loop, stopped, Pending,
  Step, stop_flush, stop_call_on, stop_on_done, stop_wait, stop_call_after, stop_after_done,
}

-- Whether a step is one of the call of `Stop` itself, past the cancelling of the context.
abbrev pub is_own : {s t : ThreadGroup} → Step s t → Bool
is_own (stop_flush a b e) = true
is_own (stop_call_on fn rest a e) = true
is_own (stop_on_done a e) = true
is_own (stop_wait a b e) = true
is_own (stop_call_after fn rest a e) = true
is_own (stop_after_done a e) = true
is_own st = false

-- How many steps of its own `Stop` has left at most.
abbrev pub pending : Option Pending → ℕ
pending none = 0
pending (some p) = 1

abbrev pub steps_left : ThreadGroup → Phase → ℕ
steps_left s running = 0
steps_left s cancelled = 5 + length s.on_stop_fns + length s.after_stop_fns + pending s.mu
steps_left s (on_stop_loop rest) = 4 + length rest + length s.after_stop_fns
steps_left s waiting = 3 + length s.after_stop_fns
steps_left s (after_stop_loop rest) = 1 + length rest
steps_left s stopped = 0

abbrev pub left : ThreadGroup → ℕ
left s = steps_left s s.phase

-- What `Stop` can be waiting for: a registration in progress that has the lock, and whose own next
-- step is possible, or, once it has called all OnStop functions, threads that are not done.
abbrev pub Waits : ThreadGroup → Type 0
Waits s =
    ((s.phase ≡ cancelled)
      × (t : ThreadGroup) × (st : Step s t) × (is_own st ≡ false)
      × (t.mu ≡ none))
    ⊎ ((s.phase ≡ waiting) × (s.called ≡ reverse s.registered_on) × (0 < s.wg))

abbrev pub Moves : ThreadGroup → Type 0
Moves s = (t : ThreadGroup) × (st : Step s t) × (is_own st ≡ true)

-- Where `Stop` stands at a phase.
abbrev pub Goes : ThreadGroup → Type 0
Goes s = (s.phase ≡ stopped) ⊎ (Moves s ⊎ Waits s)
