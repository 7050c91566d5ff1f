-- ===== src/Proc/Scheduler/Exclusive.antt =====
-- No thread is current on two processors, whatever they schedule: each current thread is locked, and
-- only a thread that is not locked is taken.
use aexkernel.Base.{
  ℕ, ◌+◌, ◌≡◌, ◌≢◌, refl, sym, ap, ◌∙◌, Bool, true, false, not, ◌&&◌, Option, none, some, ltb,
  if◌then◌else◌,
}
use aexkernel.Base.Int.{pos, ltb_ℤ}
use native.Mathlib.Decide.{ℕ_discrete}
use aexkernel.Proc.Scheduler.{Machine, with_cpu, is_runnable, put_down, reschedule, pay, schedule}
use aexkernel.Proc.Scheduler.Picks.{pick-Ends}
use aexkernel.Proc.Scheduler.Currents.{
  IsExclusive, AreExclusive, with_cpu_hit, with_cpu_miss, with_thread_miss, with_thread_hit,
}
use aexkernel.Proc.Scheduler.Switches.{switch_to-IsExclusive}

from_current : Machine → ℕ → Option ℕ → ℕ
from_current m c next = elim next as (λ _. ℕ) [ none ↦ m.list_head | some _ ↦ (m.cpus c).current ]

from_outside :
    (m : Machine) (c : ℕ) (next : Option ℕ)
    → IsExclusive m
    → (d : ℕ) → d ≢ c
    → from_current m c next ≢ (m.cpus d).idle
unfolding from_current
from_outside m c none h d ne = h.outside d
from_outside m c (some t) h d ne = h.own c d (λ e. ne (sym e))

either :
    (b : Bool) (x y : Option Machine)
    → AreExclusive x
    → AreExclusive y
    → AreExclusive (if b then x else y)
either true x y h k = h
either false x y h k = k

reschedule-IsExclusive :
    (m : Machine) (c now : ℕ) → IsExclusive m → AreExclusive (reschedule m c now)
unfolding reschedule from_current
reschedule-IsExclusive m c now h =
    either (m.threads (m.cpus c).current).locked _ none
      (switch_to-IsExclusive m c now h (from_current m c (m.threads (m.cpus c).current).next) _
        (from_outside m c (m.threads (m.cpus c).current).next h)
        (pick-Ends (put_down m c now).processes c now (m.list_size + 1) (put_down m c now).threads
          _))
      refl

pay-IsExclusive : (m : Machine) (u : ℕ) → IsExclusive m → IsExclusive (pay m u)
pay-IsExclusive m u h = record {
  held = λ c. paid_locked (m.cpus c).current ∙ h.held c;
  alone = h.alone;
  own = h.own;
  idles = h.idles;
  hidden = λ t c e. h.hidden t c (sym (paid_next t) ∙ e);
  outside = h.outside;
}
  where
    paid_locked : (t : ℕ) → ((pay m u).threads t).locked ≡ (m.threads t).locked
    paid_locked t = elim (ℕ_discrete t u) [
      | yes e ↦
          ap (λ x. x.locked) (ap (pay m u).threads e ∙ with_thread_hit m.threads u _)
          ∙ ap (λ x. (m.threads x).locked) (sym e)
      | no ne ↦ ap (λ x. x.locked) (with_thread_miss m.threads u _ t ne)
    ]

    paid_next : (t : ℕ) → ((pay m u).threads t).next ≡ (m.threads t).next
    paid_next t = elim (ℕ_discrete t u) [
      | yes e ↦
          ap (λ x. x.next) (ap (pay m u).threads e ∙ with_thread_hit m.threads u _)
          ∙ ap (λ x. (m.threads x).next) (sym e)
      | no ne ↦ ap (λ x. x.next) (with_thread_miss m.threads u _ t ne)
    ]

abbrev yields : Machine → ℕ → Machine
yields m c = record m { cpus = with_cpu m.cpus c (record (m.cpus c) { should_yield = true }) }

yields-IsExclusive : (m : Machine) (c : ℕ) → IsExclusive m → IsExclusive (yields m c)
yields-IsExclusive m c h = record {
  held = λ d. ap (λ x. (m.threads x).locked) (same_current d) ∙ h.held d;
  alone = λ a b ne e. h.alone a b ne (sym (same_current a) ∙ e ∙ same_current b);
  own = λ a b ne e. h.own a b ne (sym (same_current a) ∙ e ∙ same_idle b);
  idles = λ a b ne e. h.idles a b ne (sym (same_idle a) ∙ e ∙ same_idle b);
  hidden = λ t d e. h.hidden t d (e ∙ ap (λ x. some x) (same_idle d));
  outside = λ d e. h.outside d (e ∙ same_idle d);
}
  where
    same_current : (d : ℕ) → ((yields m c).cpus d).current ≡ (m.cpus d).current
    same_current d = elim (ℕ_discrete d c) [
      | yes e ↦
          ap (λ x. x.current)
            (ap (yields m c).cpus e
              ∙ with_cpu_hit m.cpus c (record (m.cpus c) { should_yield = true }))
          ∙ ap (λ x. (m.cpus x).current) (sym e)
      | no ne ↦
          ap (λ x. x.current)
            (with_cpu_miss m.cpus c (record (m.cpus c) { should_yield = true }) d ne)
    ]

    same_idle : (d : ℕ) → ((yields m c).cpus d).idle ≡ (m.cpus d).idle
    same_idle d = elim (ℕ_discrete d c) [
      | yes e ↦
          ap (λ x. x.idle)
            (ap (yields m c).cpus e
              ∙ with_cpu_hit m.cpus c (record (m.cpus c) { should_yield = true }))
          ∙ ap (λ x. (m.cpus x).idle) (sym e)
      | no ne ↦
          ap (λ x. x.idle) (with_cpu_miss m.cpus c (record (m.cpus c) { should_yield = true }) d ne)
    ]

-- Whatever a processor schedules, and others do meanwhile that keep this, no two processors have the
-- same current thread afterwards, and each current thread is locked.
pub schedule-IsExclusive :
    (m : Machine) (c now : ℕ) (got : Bool) (others : Machine → Machine)
    → IsExclusive m
    → ((a : Machine) → IsExclusive a → IsExclusive (others a))
    → AreExclusive (schedule m c now got others)
unfolding schedule
schedule-IsExclusive m c now got others h keep =
    let th = m.threads (m.cpus c).current in
    let rich = not (ltb_ℤ th.sched_counter (pos 1000000)) in
    let m' = if rich then pay m (m.cpus c).current else m in
    either (ltb 0 th.critical) (some (yields m c)) _ (yields-IsExclusive m c h) (
      either (rich && is_runnable th.status) (some m') _ (paid rich) (
        either got (reschedule m' c now) _ (reschedule-IsExclusive m' c now (paid rich)) (
          either (is_runnable th.status) (some m') (reschedule (others m') c now) (paid rich)
            (reschedule-IsExclusive (others m') c now (keep m' (paid rich))))))
  where
    paid : (b : Bool) → IsExclusive (if b then pay m (m.cpus c).current else m)
    paid true = pay-IsExclusive m (m.cpus c).current h
    paid false = h
