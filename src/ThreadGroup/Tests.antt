-- ===== src/ThreadGroup/Tests.antt =====
-- A shutdown that races with a registration, and the theorems at its states.
use mathlib.Core.List.{reverse}
use hostscore.Prelude.{◌≡◌, refl, inr, [], ◌∷◌, ◌++◌, true}
use hostscore.ThreadGroup.{
  ThreadGroup, stopped, cancelled, new, add, done, on_stop_check, on_stop_append, after_stop_check,
  after_stop_append, stop_cancel, stop_flush, stop_call_on, stop_on_done, stop_wait,
  stop_call_after, stop_after_done, Reach, here, next,
}
use hostscore.ThreadGroup.Shutdown.{stopped-called, after_stop-wg}

-- A thread is added, function 7 is registered to run after the stop, function 3 passes the check of
-- `OnStop`, the context is cancelled, and function 3 is appended.
racing : ThreadGroup
unfolding new
racing = record new {
  is_stopped = true;
  on_stop_fns = 3 ∷ [];
  after_stop_fns = 7 ∷ [];
  registered_on = 3 ∷ [];
  registered_after = 7 ∷ [];
  phase = cancelled;
}

Reach-racing : Reach new racing
unfolding racing new
Reach-racing =
    next
      (next
        (next
          (next
            (next (next (next here (add refl refl refl)) (after_stop_check 7 refl refl refl))
              (after_stop_append 7 refl refl))
            (on_stop_check 3 refl refl refl))
          (stop_cancel refl refl refl))
        (on_stop_append 3 refl refl))
      (done 0 refl refl)

-- The group at the end of the shutdown.
shut : ThreadGroup
unfolding racing
shut = record racing { on_stop_fns = []; after_stop_fns = []; called = 3 ∷ 7 ∷ []; phase = stopped }

Reach-shut : Reach new shut
unfolding shut racing new
Reach-shut =
    next
      (next
        (next
          (next (next (next Reach-racing (stop_flush refl refl refl)) (stop_call_on 3 [] refl refl))
            (stop_on_done refl refl))
          (stop_wait refl refl refl))
        (stop_call_after 7 [] refl refl))
      (stop_after_done refl refl)

stopped-called_example : shut.called ≡ reverse shut.registered_on ++ reverse shut.registered_after
unfolding shut racing
stopped-called_example = stopped-called Reach-shut refl

after_stop-wg_example : shut.wg ≡ 0
unfolding shut racing
after_stop-wg_example = after_stop-wg [] Reach-shut (inr refl)
