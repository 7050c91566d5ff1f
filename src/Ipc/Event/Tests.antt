-- ===== src/Ipc/Event/Tests.antt =====
-- A thread that waits for an event, and the theorem on it.
use aexkernel.Base.{ℕ, false, Option, none, some, refl, ◌≡◌}
use aexkernel.Ipc.Event.{
  Event, Threads, Status, runnable, no_event, wait, put_to_sleep, raise, wake_all, defunct,
}
use aexkernel.Ipc.Event.Simple.{
  SimpleEvent, simple_wait, simple_raise, simple_defunct, view, viewed, simple_event_implements,
}
use aexkernel.Ipc.Event.Waiters.{
  waits_for, Reachable, start, then_step, Remembers, Reachable-Remembers,
}

abbrev running : Threads
running = record { status = λ t. runnable; wakeup_at = λ t. 0 }

abbrev after_wait : Event × Threads
after_wait = wait no_event running 3 0 0

waits_once : Reachable after_wait.0 after_wait.1
waits_once =
    then_step no_event running after_wait.0 after_wait.1 (start running (λ t. refl))
      (waits_for no_event running 3 0 0)

Reachable-Remembers_example : Remembers after_wait.0 after_wait.1
Reachable-Remembers_example = Reachable-Remembers after_wait.0 after_wait.1 waits_once

-- `raise` wakes the one thread that waits.
abbrev woken_status : Option (ℕ × Status)
woken_status = elim (raise after_wait.0 after_wait.1) [
  | none ↦ none
  | some (n, _, ts) ↦ some (n, ts.status 3)
]

woken_status_test : woken_status ≡ some (1, runnable)
unfolding raise wait put_to_sleep wake_all
woken_status_test = refl

-- A SimpleEvent that thread 3 waits for.
abbrev awaited : SimpleEvent
awaited = record { waiter = some 3; is_defunct = false }

simple_event_implements_example :
    (viewed (simple_wait awaited running 5 0 0) ≡ none)
    × (raise (view awaited) running
        ≡ some (1, view (simple_raise awaited running).0, (simple_raise awaited running).1))
    × (defunct (view awaited) running
        ≡ some (1, view (simple_defunct awaited running).0, (simple_defunct awaited running).1))
simple_event_implements_example = simple_event_implements awaited running 5 0 0 refl
