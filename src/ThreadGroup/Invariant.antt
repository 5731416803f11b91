-- ===== src/ThreadGroup/Invariant.antt =====
-- internal/sync/threadgroup.go: what holds between any two steps.
use mathlib.Core.List.{reverse, append-nil, append_assoc}
use hostscore.Prelude.{◌≡◌, refl, [], ◌∷◌, ◌++◌, true, false, none, arith}
use hostscore.ThreadGroup.{
  ThreadGroup, Phase, running, cancelled, on_stop_loop, waiting, after_stop_loop, stopped, new,
  Step, add, done, flush_begin, flush_end, on_stop_check, on_stop_append, after_stop_check,
  after_stop_append, stop_cancel, stop_flush, stop_call_on, stop_on_done, stop_wait,
  stop_call_after, stop_after_done, Reach, here, next,
}

-- What each phase of `Stop` guarantees: `ro` and `ra` are the registered functions, `f` and `g` the
-- lists of the group.
abbrev pub PhaseOk : Phase → ThreadGroup → Type 0
PhaseOk running s =
    (s.is_stopped ≡ false)
    × (s.called ≡ [])
    × (s.on_stop_fns ≡ s.registered_on)
    × (s.after_stop_fns ≡ s.registered_after)
PhaseOk cancelled s =
    (s.is_stopped ≡ true)
    × (s.called ≡ [])
    × (s.on_stop_fns ≡ s.registered_on)
    × (s.after_stop_fns ≡ s.registered_after)
PhaseOk (on_stop_loop rest) s =
    (s.is_stopped ≡ true)
    × (s.mu ≡ none)
    × (s.called ++ rest ≡ reverse s.registered_on)
    × (s.after_stop_fns ≡ s.registered_after)
PhaseOk waiting s =
    (s.is_stopped ≡ true)
    × (s.mu ≡ none)
    × (s.called ≡ reverse s.registered_on)
    × (s.after_stop_fns ≡ s.registered_after)
PhaseOk (after_stop_loop rest) s =
    (s.is_stopped ≡ true)
    × (s.mu ≡ none)
    × (s.called ++ rest ≡ reverse s.registered_on ++ reverse s.registered_after)
    × (s.wg ≡ 0)
PhaseOk stopped s =
    (s.is_stopped ≡ true)
    × (s.mu ≡ none)
    × (s.called ≡ reverse s.registered_on ++ reverse s.registered_after)
    × (s.wg ≡ 0)

abbrev pub Inv : ThreadGroup → Type 0
Inv s = PhaseOk s.phase s

module _ {s t : ThreadGroup} where
  -- One step keeps the invariant.
  pub Step-Inv : Step s t → Inv s → Inv t
  Step-Inv (add a b e) i = ground arith
  Step-Inv (done n w e) i = ground arith
  Step-Inv (flush_begin a b e) i = ground arith
  Step-Inv (flush_end a b e) i = ground arith
  Step-Inv (on_stop_check fn a b e) i = ground arith
  Step-Inv (on_stop_append fn a e) i = ground arith
  Step-Inv (after_stop_check fn a b e) i = ground arith
  Step-Inv (after_stop_append fn a e) i = ground arith
  Step-Inv (stop_cancel a b e) i = ground arith
  Step-Inv (stop_flush a b e) i = ground arith
  Step-Inv (stop_call_on fn rest a e) i = ground (arith, append_assoc s.called (fn ∷ []) rest)
  Step-Inv (stop_on_done a e) i = ground (arith, append-nil s.called)
  Step-Inv (stop_wait a b e) i = ground arith
  Step-Inv (stop_call_after fn rest a e) i = ground (arith, append_assoc s.called (fn ∷ []) rest)
  Step-Inv (stop_after_done a e) i = ground (arith, append-nil s.called)

new-Inv : Inv new
unfolding new
new-Inv = (refl, refl, refl, refl)

pub Reach-Inv : {s : ThreadGroup} → Reach new s → Inv s
Reach-Inv here = new-Inv
Reach-Inv (next r st) = Step-Inv st (Reach-Inv r)
