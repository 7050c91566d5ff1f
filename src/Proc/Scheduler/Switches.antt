-- ===== src/Proc/Scheduler/Switches.antt =====
-- What the parts of schedule leave of the threads that are current, locked and idle.
use aexkernel.Base.{
  ℕ, ◌≡◌, ◌≢◌, refl, sym, ap, ◌∙◌, true, some, ◌==◌, ==_ne, ==_refl, inl, inr, if◌then◌else◌,
}
use mathlib.Core.Bool.{false≢true}
use native.Mathlib.Decide.{ℕ_discrete}
use aexkernel.Proc.Scheduler.{
  Thread, Cpu, Machine, Pick, chosen, nobody, crashed, with_cpu, switch_to, put_down,
}
use aexkernel.Proc.Scheduler.Picks.{Ends}
use aexkernel.Proc.Scheduler.Currents.{
  IsExclusive, AreExclusive, Switched-IsExclusive, some_inj, with_cpu_hit, with_cpu_miss,
  with_thread_miss, with_thread_hit, with_thread-next,
}

module _ (m : Machine) (c now : ℕ) (h : IsExclusive m) where
  abbrev down : Machine
  down = put_down m c now

  down-idle : (d : ℕ) → (down.cpus d).idle ≡ (m.cpus d).idle
  down-idle d = elim (ℕ_discrete d c) [
    | yes e ↦
        ap (λ x. x.idle)
          (ap down.cpus e ∙ with_cpu_hit m.cpus c (record (m.cpus c) { measurement_start = now }))
        ∙ ap (λ x. (m.cpus x).idle) (sym e)
    | no ne ↦
        ap (λ x. x.idle)
          (with_cpu_miss m.cpus c (record (m.cpus c) { measurement_start = now }) d ne)
  ]

  down-next : (t : ℕ) → (down.threads t).next ≡ (m.threads t).next
  down-next t = elim (ℕ_discrete t (m.cpus c).current) [
    | yes e ↦
        ap (λ x. x.next) (ap down.threads e ∙ with_thread_hit m.threads (m.cpus c).current _)
        ∙ ap (λ x. (m.threads x).next) (sym e)
    | no ne ↦ ap (λ x. x.next) (with_thread_miss m.threads (m.cpus c).current _ t ne)
  ]

  down-locked : (d : ℕ) → d ≢ c → (down.threads (m.cpus d).current).locked ≡ true
  down-locked d ne =
      ap (λ x. x.locked)
        (with_thread_miss m.threads (m.cpus c).current _ (m.cpus d).current (h.alone d c ne))
      ∙ h.held d

  module _ (cpu : Cpu) where
    -- After the record of the processor is replaced once more.
    twice-idle :
        cpu.idle ≡ (m.cpus c).idle → (d : ℕ) → (with_cpu down.cpus c cpu d).idle ≡ (m.cpus d).idle
    twice-idle same d = elim (ℕ_discrete d c) [
      | yes e ↦
          ap (λ x. x.idle) (ap (with_cpu down.cpus c cpu) e ∙ with_cpu_hit down.cpus c cpu)
          ∙ same
          ∙ ap (λ x. (m.cpus x).idle) (sym e)
      | no ne ↦ ap (λ x. x.idle) (with_cpu_miss down.cpus c cpu d ne) ∙ down-idle d
    ]

    twice-current : (d : ℕ) → d ≢ c → (with_cpu down.cpus c cpu d).current ≡ (m.cpus d).current
    twice-current d ne =
        ap (λ x. x.current)
          (with_cpu_miss down.cpus c cpu d ne
            ∙ with_cpu_miss m.cpus c (record (m.cpus c) { measurement_start = now }) d ne)

  chosen-IsExclusive :
      (from u : ℕ) (ts : ℕ → Thread)
      → Ends down.processes c now down.threads from (chosen ts u)
      → AreExclusive (switch_to down c (chosen ts u))
  unfolding switch_to
  chosen-IsExclusive from u ts (taken, others, (v, e)) = Switched-IsExclusive m _ c u h record {
    idle = twice-idle (record (down.cpus c) { current = u }) (down-idle c);
    its = ap (λ x. x.current) (with_cpu_hit down.cpus c (record (down.cpus c) { current = u }));
    others = twice-current (record (down.cpus c) { current = u });
    not_theirs = not_theirs;
    not_idle = λ d ne x. h.hidden v d (sym (down-next v) ∙ e ∙ ap (λ y. some y) x);
    locked = taken.locked;
    still_locked = λ d ne.
        (others (m.cpus d).current (λ x. not_theirs d ne (sym x))).locked ∙ down-locked d ne;
    still_hidden = λ t d x. h.hidden t d (sym (down-next t) ∙ sym (next_kept t) ∙ x);
    same_head = refl;
  }
    where
      not_theirs : (d : ℕ) → d ≢ c → u ≢ (m.cpus d).current
      not_theirs d ne x =
          false≢true (sym taken.was_free ∙ ap (λ y. (down.threads y).locked) x ∙ down-locked d ne)

      next_kept : (t : ℕ) → (ts t).next ≡ (down.threads t).next
      next_kept t = elim (ℕ_discrete t u) [
        | yes x ↦ ap (λ y. (ts y).next) x ∙ taken.next ∙ ap (λ y. (down.threads y).next) (sym x)
        | no ne ↦ (others t ne).next
      ]

  nobody-IsExclusive :
      (from u : ℕ) (ts : ℕ → Thread)
      → ((d : ℕ) → d ≢ c → from ≢ (m.cpus d).idle)
      → Ends down.processes c now down.threads from (nobody ts u)
      → AreExclusive (switch_to down c (nobody ts u))
  unfolding switch_to
  nobody-IsExclusive from u ts start (others, whence) =
      Switched-IsExclusive m _ c (down.cpus c).idle h record {
        idle = twice-idle (record (down.cpus c) { current = (down.cpus c).idle }) (down-idle c);
        its =
            ap (λ x. x.current)
              (with_cpu_hit down.cpus c (record (down.cpus c) { current = (down.cpus c).idle }));
        others = twice-current (record (down.cpus c) { current = (down.cpus c).idle });
        not_theirs = not_theirs;
        not_idle = λ d ne x. h.idles c d (λ y. ne (sym y)) (sym (down-idle c) ∙ x);
        locked = ap (λ x. x.locked) (with_thread_hit ts (down.cpus c).idle _);
        still_locked = λ d ne.
            ap (λ x. x.locked)
              (with_thread_miss ts (down.cpus c).idle _ (m.cpus d).current
                (λ x. not_theirs d ne (sym x)))
            ∙ (others (m.cpus d).current).locked
            ∙ down-locked d ne;
        still_hidden = λ t d x. elim (ℕ_discrete t (down.cpus c).idle) [
          | no ne ↦ h.hidden t d (
              sym (down-next t)
              ∙ sym (others t).next
              ∙ sym (ap (λ y. y.next) (with_thread_miss ts (down.cpus c).idle _ t ne))
              ∙ x)
          | yes y ↦ last_outside d (
              some_inj (if u == (down.cpus c).idle then m.list_head else u) ((m.cpus d).idle) (
                sym (
                  with_thread-next ts (down.cpus c).idle
                    (record (ts (down.cpus c).idle) {
                      locked = true;
                      next = some (if u == (down.cpus c).idle then m.list_head else u);
                    })
                    t y)
                ∙ x))
        ];
        same_head = refl;
      }
    where
      not_theirs : (d : ℕ) → d ≢ c → (down.cpus c).idle ≢ (m.cpus d).current
      not_theirs d ne x = h.own d c ne (sym x ∙ down-idle c)

      u_outside : (d : ℕ) → d ≢ c → u ≢ (m.cpus d).idle
      u_outside d ne x = elim whence [
        | inl y ↦ start d ne (sym y ∙ x)
        | inr (v, y) ↦ h.hidden v d (sym (down-next v) ∙ y ∙ ap (λ z. some z) x)
      ]

      last_outside :
          (d : ℕ) → (if u == (down.cpus c).idle then m.list_head else u) ≢ (m.cpus d).idle
      last_outside d = elim (ℕ_discrete u (down.cpus c).idle) [
        | yes y ↦ λ x. h.outside d (
            sym (
              ap (λ b. if b then m.list_head else u)
                (ap (λ z. z == (down.cpus c).idle) y ∙ ==_refl (down.cpus c).idle))
            ∙ x)
        | no y ↦ λ x. elim (ℕ_discrete d c) [
          | yes z ↦ y (
              sym (ap (λ b. if b then m.list_head else u) (==_ne u (down.cpus c).idle y))
              ∙ x
              ∙ ap (λ w. (m.cpus w).idle) z
              ∙ sym (down-idle c))
          | no z ↦
              u_outside d z
                (sym (ap (λ b. if b then m.list_head else u) (==_ne u (down.cpus c).idle y)) ∙ x)
        ]
      ]

  pub switch_to-IsExclusive :
      (from : ℕ) (r : Pick)
      → ((d : ℕ) → d ≢ c → from ≢ (m.cpus d).idle)
      → Ends down.processes c now down.threads from r
      → AreExclusive (switch_to down c r)
  switch_to-IsExclusive from crashed start e = unfold switch_to in refl
  switch_to-IsExclusive from (chosen ts u) start e = chosen-IsExclusive from u ts e
  switch_to-IsExclusive from (nobody ts u) start e = nobody-IsExclusive from u ts start e
