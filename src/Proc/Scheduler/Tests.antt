-- ===== src/Proc/Scheduler/Tests.antt =====
-- Two processors and a ring of three threads, of which thread 1 is of a nice process.
use aexkernel.Base.{
  ℕ, zero, suc, ◌+◌, ◌≡◌, ◌≢◌, refl, ap, ◌∙◌, arith, Bool, true, false, not, none, some, ◌==◌,
  ==_ne, if◌then◌else◌,
}
use aexkernel.Base.Int.{pos}
use aexkernel.Ipc.Event.{runnable}
use aexkernel.Proc.Scheduler.{
  Thread, Process, Machine, visit, pick, schedule, reschedule, switch_to,
}
use aexkernel.Proc.Scheduler.Picks.{Picks, pick-Picks}
use aexkernel.Proc.Scheduler.Starves.{IsLeft, AreLeft, schedule_starves}
use aexkernel.Proc.Scheduler.Exclusive.{schedule-IsExclusive}
use aexkernel.Proc.Scheduler.Currents.{IsExclusive, AreExclusive}

-- Threads 0, 1 and 2 are the ring; 10 and 11 are idle threads.
abbrev thread_of : Bool → ℕ → ℕ → Thread
thread_of locked parent next = record {
  status = runnable;
  interrupted = false;
  critical = 0;
  wakeup_at = 0;
  sched_counter = pos 0;
  locked = locked;
  parent = parent;
  next = some next;
}

abbrev threads : ℕ → Thread
threads zero = thread_of true 0 1
threads (suc zero) = thread_of false 1 2
threads (suc (suc n)) = thread_of (not (n == 0)) 0 0

abbrev processes : ℕ → Process
processes p = record { nice = if p == 1 then pos 1 else pos 0; masked = λ c. false; cpu_time = 0 }

abbrev machine : Machine
machine = record {
  threads = threads;
  processes = processes;
  cpus = λ c. record {
    current = if c == 0 then 0 else suc (suc (suc (c + 7)));
    idle = suc (suc (suc (c + 7)));
    should_yield = false;
    measurement_start = 0;
  };
  list_head = 0;
  list_size = 3;
}

abbrev order : ℕ → ℕ
order zero = 0
order (suc zero) = 1
order (suc (suc zero)) = 2
order (suc (suc (suc k))) = order k

order_next : (k : ℕ) → (threads (order k)).next ≡ some (order (suc k))
order_next zero = refl
order_next (suc zero) = refl
order_next (suc (suc zero)) = refl
order_next (suc (suc (suc k))) = order_next k

-- Thread 1 is too nice, so that thread 2 is taken.
takes_2 :
    (elim (schedule machine 0 5 true (λ a. a)) as (λ _. ℕ) [
      | none ↦ 99
      | some m ↦ (m.cpus 0).current
    ])
    ≡ 2
unfolding schedule reschedule switch_to pick visit
takes_2 = refl

pick-Picks_example : Picks processes 0 5 4 threads order (pick 4 processes 0 5 threads 0)
pick-Picks_example = pick-Picks processes 0 5 4 threads order order_next

machine-IsExclusive : IsExclusive machine
machine-IsExclusive = record {
  held = λ c. held c;
  alone = λ c d ne e. ground (arith, ne, e);
  own = λ c d ne e. ground (arith, ne, e);
  idles = λ c d ne e. ne (omega (arith, e));
  hidden = λ t c e. hidden t c e;
  outside = λ c e. omega (arith, e);
}
  where
    behind_ring : (n : ℕ) → (suc n == 0) ≡ false
    behind_ring n = ==_ne (suc n) 0 (λ e. omega (arith, e))

    held : (c : ℕ) → (threads (if c == 0 then 0 else suc (suc (suc (c + 7))))).locked ≡ true
    held zero = refl
    held (suc c) =
        ap (λ b. (threads (if b then 0 else suc (suc (suc (suc c + 7))))).locked) (behind_ring c)
        ∙ ap not (behind_ring (suc c + 7))

    some_inj : (x y : ℕ) → some x ≡ some y → x ≡ y
    some_inj x y e = cc

    hidden : (t c : ℕ) → (threads t).next ≢ some (suc (suc (suc (c + 7))))
    hidden zero c e = omega (arith, some_inj 1 (suc (suc (suc (c + 7)))) e)
    hidden (suc zero) c e = omega (arith, some_inj 2 (suc (suc (suc (c + 7)))) e)
    hidden (suc (suc n)) c e = omega (arith, some_inj 0 (suc (suc (suc (c + 7)))) e)

schedule-IsExclusive_example : AreExclusive (schedule machine 0 5 true (λ a. a))
schedule-IsExclusive_example =
    schedule-IsExclusive machine 0 5 true (λ a. a) machine-IsExclusive (λ a h. h)

thread_1-IsLeft : IsLeft machine 1
thread_1-IsLeft = record {
  not_current = λ c e. ground (arith, e);
  not_idle = λ c e. omega (arith, e);
  poor = refl;
}

schedule_starves_example : AreLeft (schedule machine 0 5 true (λ a. a)) 1
schedule_starves_example = schedule_starves 1 machine 0 5 true (λ a. a) thread_1-IsLeft (λ a h. h)
