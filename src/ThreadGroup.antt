-- ===== src/ThreadGroup.antt =====
-- internal/sync/threadgroup.go: any number of threads that call `Add`, `Done`, `Flush`, `OnStop`,
-- `AfterStop` and `Stop` at once. A step is what one thread does between two points at which
-- another thread can be seen: a section under `bmu` or `mu`, or one call of a registered function.
-- A function is its number; the zero value is initialised by `once` before its first use.
pub mod Invariant
pub mod Shutdown
pub mod Progress
mod Tests
use mathlib.Core.List.{reverse}
use hostscore.Prelude.{
  ℕ, zero, suc, ◌≡◌, List, [], ◌∷◌, ◌++◌, Bool, true, false, Option, none, some,
}

-- How far the one call of `Stop` that found the group running has come.
pub data Phase : Type 0 where
  -- Not called.
  running : Phase
  -- The context is cancelled; `mu` is not yet taken.
  cancelled : Phase
  -- In the loop over `onStopFns`, with the functions that are left.
  on_stop_loop : List ℕ → Phase
  -- At `wg.Wait()`.
  waiting : Phase
  -- In the loop over `afterStopFns`.
  after_stop_loop : List ℕ → Phase
  stopped : Phase

-- An `OnStop` or `AfterStop` call that holds `mu` and has seen the group running.
pub data Pending : Type 0 where
  on_stop after_stop : ℕ → Pending

pub record ThreadGroup : Type 0 where
  pub on_stop_fns : List ℕ
  pub after_stop_fns : List ℕ
  -- Whether `stopCtx` is cancelled.
  pub is_stopped : Bool
  -- The counter of `wg`.
  pub wg : ℕ
  -- Whether a `Flush` holds `bmu` and waits for `wg`.
  pub flushing : Bool
  -- Who holds `mu`.
  pub mu : Option Pending
  pub phase : Phase
  -- History, which the code does not keep: what was registered, and what `Stop` has called.
  pub registered_on : List ℕ
  pub registered_after : List ℕ
  pub called : List ℕ

unfoldable pub new : ThreadGroup
new = record {
  on_stop_fns = [];
  after_stop_fns = [];
  is_stopped = false;
  wg = 0;
  flushing = false;
  mu = none;
  phase = running;
  registered_on = [];
  registered_after = [];
  called = [];
}

-- The calls that change the group, each with the test that its code makes. `Add`, `Flush` and
-- `Stop` after `Stop` return ErrStopped and change nothing; `OnStop` and `AfterStop` then call
-- their function at once and change nothing.
pub data Step (s t : ThreadGroup) : Type 0 where
  add : s.flushing ≡ false → s.is_stopped ≡ false → t ≡ record s { wg = suc s.wg } → Step s t
  done : (n : ℕ) → s.wg ≡ suc n → t ≡ record s { wg = n } → Step s t
  flush_begin :
      s.flushing ≡ false → s.is_stopped ≡ false → t ≡ record s { flushing = true } → Step s t
  flush_end : s.flushing ≡ true → s.wg ≡ 0 → t ≡ record s { flushing = false } → Step s t
  on_stop_check :
      (fn : ℕ)
      → s.mu ≡ none
      → s.is_stopped ≡ false
      → t ≡ record s { mu = some (on_stop fn) }
      → Step s t
  on_stop_append :
      (fn : ℕ)
      → s.mu ≡ some (on_stop fn)
      → t ≡ record s {
        mu = none;
        on_stop_fns = s.on_stop_fns ++ (fn ∷ []);
        registered_on = s.registered_on ++ (fn ∷ []);
      }
      → Step s t
  after_stop_check :
      (fn : ℕ)
      → s.mu ≡ none
      → s.is_stopped ≡ false
      → t ≡ record s { mu = some (after_stop fn) }
      → Step s t
  after_stop_append :
      (fn : ℕ)
      → s.mu ≡ some (after_stop fn)
      → t ≡ record s {
        mu = none;
        after_stop_fns = s.after_stop_fns ++ (fn ∷ []);
        registered_after = s.registered_after ++ (fn ∷ []);
      }
      → Step s t
  stop_cancel :
      s.flushing ≡ false
      → s.is_stopped ≡ false
      → t ≡ record s { is_stopped = true; phase = cancelled }
      → Step s t
  -- `tg.mu.Lock(); tg.mu.Unlock()`, and on to the first loop, from the last function down.
  stop_flush :
      s.phase ≡ cancelled
      → s.mu ≡ none
      → t ≡ record s { phase = on_stop_loop (reverse s.on_stop_fns) }
      → Step s t
  stop_call_on :
      (fn : ℕ) (rest : List ℕ)
      → s.phase ≡ on_stop_loop (fn ∷ rest)
      → t ≡ record s { phase = on_stop_loop rest; called = s.called ++ (fn ∷ []) }
      → Step s t
  stop_on_done :
      s.phase ≡ on_stop_loop [] → t ≡ record s { phase = waiting; on_stop_fns = [] } → Step s t
  stop_wait :
      s.phase ≡ waiting
      → s.wg ≡ 0
      → t ≡ record s { phase = after_stop_loop (reverse s.after_stop_fns) }
      → Step s t
  stop_call_after :
      (fn : ℕ) (rest : List ℕ)
      → s.phase ≡ after_stop_loop (fn ∷ rest)
      → t ≡ record s { phase = after_stop_loop rest; called = s.called ++ (fn ∷ []) }
      → Step s t
  stop_after_done :
      s.phase ≡ after_stop_loop []
      → t ≡ record s { phase = stopped; after_stop_fns = [] }
      → Step s t

pub data Reach (s : ThreadGroup) : ThreadGroup → Type 0 where
  here : Reach s s
  next : {t u : ThreadGroup} → Reach s t → Step t u → Reach s u
