-- ===== src/Proc/Scheduler/Starves.antt =====
-- A thread that is not current on any processor and has too small a counter stays so, whatever is
-- scheduled: a look at it does not add to its counter.
use aexkernel.Base.{
  ℕ, ◌+◌, ◌≡◌, ◌≢◌, refl, sym, ap, ◌∙◌, Bool, true, false, not, ◌&&◌, Option, none, some, ltb, ◌==◌,
  ==_ne, inl, inr, Bool-cases, if◌then◌else◌,
}
use aexkernel.Base.Int.{pos, ltb_ℤ}
use mathlib.Core.Bool.{false≢true}
use aexkernel.Proc.Scheduler.{
  Thread, Process, Cpu, Machine, Pick, chosen, nobody, crashed, with_thread, with_cpu, add_nice,
  is_runnable, switch_to, put_down, reschedule, pay, schedule,
}
use aexkernel.Proc.Scheduler.Picks.{Ends, pick-Ends}

abbrev pub is_poor : Machine → ℕ → Bool
is_poor m t =
    ltb_ℤ (add_nice (m.processes (m.threads t).parent).nice (m.threads t).sched_counter)
      (pos 1000000)

pub record IsLeft (m : Machine) (t : ℕ) : Type 0 where
  pub not_current : (c : ℕ) → (m.cpus c).current ≢ t
  pub not_idle : (c : ℕ) → (m.cpus c).idle ≢ t
  pub poor : is_poor m t ≡ true

-- A machine that is left, whatever it is; none is.
abbrev pub AreLeft : Option Machine → ℕ → Type 0
AreLeft none t = t ≡ t
AreLeft (some m) t = IsLeft m t

module _ (t : ℕ) where
  other_thread : (ts : ℕ → Thread) (u : ℕ) (th : Thread) → u ≢ t → with_thread ts u th t ≡ ts t
  other_thread ts u th ne = ap (λ b. if b then th else ts t) (==_ne t u (λ e. ne (sym e)))

  poor_of :
      (ps ps' : ℕ → Process) (th th' : Thread)
      → ((p : ℕ) → (ps' p).nice ≡ (ps p).nice)
      → th'.parent ≡ th.parent
      → th'.sched_counter ≡ th.sched_counter
      → ltb_ℤ (add_nice (ps th.parent).nice th.sched_counter) (pos 1000000) ≡ true
      → ltb_ℤ (add_nice (ps' th'.parent).nice th'.sched_counter) (pos 1000000) ≡ true
  poor_of ps ps' th th' n e f h =
      ap (λ k. ltb_ℤ (add_nice (ps' th'.parent).nice k) (pos 1000000)) f
      ∙ ap (λ q. ltb_ℤ (add_nice (ps' q).nice th.sched_counter) (pos 1000000)) e
      ∙ ap (λ k. ltb_ℤ (add_nice k th.sched_counter) (pos 1000000)) (n th.parent)
      ∙ h

  -- One processor's record is another.
  one_cpu :
      (cpus : ℕ → Cpu) (c : ℕ) (cpu : Cpu)
      → ((d : ℕ) → (cpus d).current ≢ t)
      → cpu.current ≢ t
      → (d : ℕ) → (with_cpu cpus c cpu d).current ≢ t
  one_cpu cpus c cpu all it d = elim (Bool-cases (d == c)) [
    | inl e ↦ rw e it
    | inr e ↦ rw e (all d)
  ]

  one_idle :
      (cpus : ℕ → Cpu) (c : ℕ) (cpu : Cpu)
      → ((d : ℕ) → (cpus d).idle ≢ t)
      → cpu.idle ≢ t
      → (d : ℕ) → (with_cpu cpus c cpu d).idle ≢ t
  one_idle cpus c cpu all it d = elim (Bool-cases (d == c)) [
    | inl e ↦ rw e it
    | inr e ↦ rw e (all d)
  ]

  pay-IsLeft : (m : Machine) (u : ℕ) → u ≢ t → IsLeft m t → IsLeft (pay m u) t
  pay-IsLeft m u ne h = record {
    not_current = h.not_current;
    not_idle = h.not_idle;
    poor =
        ap (λ th. ltb_ℤ (add_nice (m.processes th.parent).nice th.sched_counter) (pos 1000000))
          (other_thread m.threads u _ ne)
        ∙ h.poor;
  }

  put_down-IsLeft : (m : Machine) (c now : ℕ) → IsLeft m t → IsLeft (put_down m c now) t
  put_down-IsLeft m c now h = record {
    not_current =
        one_cpu m.cpus c (record (m.cpus c) { measurement_start = now }) h.not_current
          (h.not_current c);
    not_idle =
        one_idle m.cpus c (record (m.cpus c) { measurement_start = now }) h.not_idle (h.not_idle c);
    poor =
        poor_of m.processes (put_down m c now).processes (m.threads t)
          ((put_down m c now).threads t)
          (λ p. same_nice p _ (p == (m.threads (m.cpus c).current).parent))
          (ap (λ th. th.parent) (other_thread m.threads (m.cpus c).current _ (h.not_current c)))
          (ap (λ th. th.sched_counter)
            (other_thread m.threads (m.cpus c).current _ (h.not_current c)))
          h.poor;
  }
    where
      same_nice :
          (p k : ℕ) (b : Bool)
          → (if b then record (m.processes p) { cpu_time = k } else m.processes p).nice
            ≡ (m.processes p).nice
      same_nice p k true = refl
      same_nice p k false = refl

  switch_to-IsLeft :
      (m : Machine) (c now from : ℕ) (r : Pick)
      → IsLeft m t
      → Ends m.processes c now m.threads from r
      → AreLeft (switch_to m c r) t
  unfolding switch_to
  switch_to-IsLeft m c now from crashed h e = refl
  switch_to-IsLeft m c now from (chosen ts u) h (taken, others, _) = record {
    not_current = one_cpu m.cpus c (record (m.cpus c) { current = u }) h.not_current not_it;
    not_idle = one_idle m.cpus c (record (m.cpus c) { current = u }) h.not_idle (h.not_idle c);
    poor =
        poor_of m.processes m.processes (m.threads t) (ts t) (λ p. refl)
          (others t (λ e. not_it (sym e))).parent (others t (λ e. not_it (sym e))).counter h.poor;
  }
    where
      not_it : u ≢ t
      not_it e = false≢true (
          sym taken.enough
          ∙ ap
              (λ x.
                ltb_ℤ (add_nice (m.processes (m.threads x).parent).nice (m.threads x).sched_counter)
                  (pos 1000000))
              e
          ∙ h.poor)
  switch_to-IsLeft m c now from (nobody ts u) h (others, _) = record {
    not_current =
        one_cpu m.cpus c (record (m.cpus c) { current = (m.cpus c).idle }) h.not_current
          (h.not_idle c);
    not_idle =
        one_idle m.cpus c (record (m.cpus c) { current = (m.cpus c).idle }) h.not_idle
          (h.not_idle c);
    poor =
        poor_of m.processes m.processes (m.threads t) (with_thread ts (m.cpus c).idle _ t)
          (λ p. refl)
          (ap (λ th. th.parent) (other_thread ts (m.cpus c).idle _ (h.not_idle c))
            ∙ (others t).parent)
          (ap (λ th. th.sched_counter) (other_thread ts (m.cpus c).idle _ (h.not_idle c))
            ∙ (others t).counter)
          h.poor;
  }

  if_left :
      (b : Bool) (x y : Option Machine) → AreLeft x t → AreLeft y t → AreLeft (if b then x else y) t
  if_left true x y h k = h
  if_left false x y h k = k

  reschedule-IsLeft : (m : Machine) (c now : ℕ) → IsLeft m t → AreLeft (reschedule m c now) t
  unfolding reschedule
  reschedule-IsLeft m c now h =
      if_left (m.threads (m.cpus c).current).locked _ none
        (switch_to-IsLeft (put_down m c now) c now _ _ (put_down-IsLeft m c now h) (
          pick-Ends (put_down m c now).processes c now (m.list_size + 1) (put_down m c now).threads
            _))
        refl

  abbrev yields : Machine → ℕ → Machine
  yields m c = record m { cpus = with_cpu m.cpus c (record (m.cpus c) { should_yield = true }) }

  yields-IsLeft : (m : Machine) (c : ℕ) → IsLeft m t → IsLeft (yields m c) t
  yields-IsLeft m c h = record {
    not_current =
        one_cpu m.cpus c (record (m.cpus c) { should_yield = true }) h.not_current
          (h.not_current c);
    not_idle =
        one_idle m.cpus c (record (m.cpus c) { should_yield = true }) h.not_idle (h.not_idle c);
    poor = h.poor;
  }

  -- A thread that is not current on any processor and no processor's idle thread, and whose counter is
  -- too small with the niceness of its process, is all that after any processor's schedule too, whatever
  -- the others do meanwhile that leaves it so.
  pub schedule_starves :
      (m : Machine) (c now : ℕ) (got : Bool) (others : Machine → Machine)
      → IsLeft m t
      → ((a : Machine) → IsLeft a t → IsLeft (others a) t)
      → AreLeft (schedule m c now got others) t
  unfolding schedule
  schedule_starves m c now got others h keep =
      let th = m.threads (m.cpus c).current in
      let rich = not (ltb_ℤ th.sched_counter (pos 1000000)) in
      let m' = if rich then pay m (m.cpus c).current else m in
      if_left (ltb 0 th.critical) (some (yields m c)) _ (yields-IsLeft m c h) (
        if_left (rich && is_runnable th.status) (some m') _ (paid rich) (
          if_left got (reschedule m' c now) _ (reschedule-IsLeft m' c now (paid rich)) (
            if_left (is_runnable th.status) (some m') (reschedule (others m') c now) (paid rich)
              (reschedule-IsLeft (others m') c now (keep m' (paid rich))))))
    where
      paid : (b : Bool) → IsLeft (if b then pay m (m.cpus c).current else m) t
      paid true = pay-IsLeft m (m.cpus c).current (h.not_current c) h
      paid false = h
