-- ===== src/Proc/Scheduler/Picks.antt =====
-- The loop over the ring of threads: it takes the first thread that can run, and changes nothing but
-- that thread's lock and counter, and the status of sleepers whose time has come.
use aexkernel.Base.{
  ◌+◌, ◌*◌, leb, ◌&&◌, ◌||◌, not, ℕ, zero, suc, ◌<◌, ◌≡◌, ◌≢◌, ◌⊎◌, refl, sym, ap, ◌∙◌, arith, Bool,
  true, false, some, ==_refl, ==_ne, inl, inr, Bool-cases, Option-cases, if◌then◌else◌,
}
use aexkernel.Base.Int.{ℤ, pos, negsuc, ltb_ℤ, ◌+ℤ◌, ◌-ℤ◌}
use mathlib.Core.Path.{subst}
use mathlib.Core.Bool.{false≢true}
use native.Mathlib.Decide.{ℕ_discrete}
use aexkernel.Proc.Scheduler.{
  Status, fresh, runnable, sleeping, blocked, dead, Thread, Process, Pick, chosen, nobody, crashed,
  with_thread, add_nice, wakes, visit, pick,
}

-- What a look at a thread that is not taken leaves as it was.
pub record Same (th th' : Thread) : Type 0 where
  pub next : th'.next ≡ th.next
  pub parent : th'.parent ≡ th.parent
  pub locked : th'.locked ≡ th.locked
  pub counter : th'.sched_counter ≡ th.sched_counter

-- A thread that is taken: it was not locked and is now, and its counter was enough.
pub record Taken (ps : ℕ → Process) (c : ℕ) (th th' : Thread) : Type 0 where
  pub next : th'.next ≡ th.next
  pub parent : th'.parent ≡ th.parent
  pub was_free : th.locked ≡ false
  pub locked : th'.locked ≡ true
  pub allowed : (ps th.parent).masked c ≡ false
  pub enough : ltb_ℤ (add_nice (ps th.parent).nice th.sched_counter) (pos 1000000) ≡ false

same : (th : Thread) → Same th th
same th = record { next = refl; parent = refl; locked = refl; counter = refl }

module _ (ps : ℕ → Process) (c now : ℕ) where
  abbrev is_taken : Thread → Bool
  is_taken th = (visit ps c now th).0

  visit-cases :
      (th : Thread)
      → (((visit ps c now th).0 ≡ false) × Same th (visit ps c now th).1)
        ⊎ (((visit ps c now th).0 ≡ true) × Taken ps c th (visit ps c now th).1)
  unfolding visit
  visit-cases th = elim (Bool-cases (wakes th now).0) [
    | inr w ↦ rw w (inl (refl, same th))
    | inl w ↦ elim (Bool-cases ((ps th.parent).masked c)) [
      | inl m ↦
          rw (w, m)
            (inl (refl, record { next = refl; parent = refl; locked = refl; counter = refl }))
      | inr m ↦
          elim (Bool-cases (ltb_ℤ (add_nice (ps th.parent).nice th.sched_counter) (pos 1000000))) [
            | inl p ↦
                rw (w, m, p)
                  (inl (refl, record { next = refl; parent = refl; locked = refl; counter = refl }))
            | inr p ↦ elim (Bool-cases th.locked) [
              | inl l ↦
                  rw (w, m, p, l)
                    (inl
                      (refl, record { next = refl; parent = refl; locked = refl; counter = refl }))
              | inr l ↦
                  rw (w, m, p, l)
                    (inr (
                      refl,
                      record {
                        next = refl;
                        parent = refl;
                        was_free = refl;
                        locked = refl;
                        allowed = m;
                        enough = p;
                      },
                    ))
            ]
          ]
    ]
  ]

  -- What the loop has come to from thread `t` on, `p` being the threads in the order of the ring: the
  -- first that can run of the rounds it has, or none; where it panics, the first that can run has too
  -- large a counter.
  abbrev Takes : ℕ → (ℕ → Thread) → (ℕ → ℕ) → Pick → Type 0
  Takes left ts p (chosen ts' u) =
      (k : ℕ) × (k < left)
      × (u ≡ p (suc k))
      × (is_taken (ts u) ≡ true)
      × ((j : ℕ) → j < k → is_taken (ts (p (suc j))) ≡ false)
  Takes left ts p (nobody ts' u) = (j : ℕ) → j < left → is_taken (ts (p (suc j))) ≡ false
  Takes left ts p crashed =
      (k : ℕ) × (k < left)
      × (is_taken (ts (p (suc k))) ≡ true)
      × ((j : ℕ) → j < k → is_taken (ts (p (suc j))) ≡ false)
      × (ltb_ℤ (visit ps c now (ts (p (suc k)))).1.sched_counter (pos 25000000) ≡ false)

  -- A thread that could not run still cannot after the look at it.
  visit-again :
      (th : Thread)
      → (visit ps c now th).0 ≡ false
      → (visit ps c now (visit ps c now th).1).0 ≡ false
  unfolding visit
  visit-again th e = ground (arith, e)

  -- The thread that is taken, and the others.
  abbrev pub Ends : (ℕ → Thread) → ℕ → Pick → Type 0
  Ends ts t (chosen ts' u) =
      Taken ps c (ts u) (ts' u)
      × ((v : ℕ) → v ≢ u → Same (ts v) (ts' v))
      × ((v : ℕ) × ((ts v).next ≡ some u))
  Ends ts t (nobody ts' u) =
      ((v : ℕ) → Same (ts v) (ts' v)) × ((u ≡ t) ⊎ ((v : ℕ) × ((ts v).next ≡ some u)))
  Ends ts t crashed = t ≡ t

  Same-trans : (a b d : Thread) → Same a b → Same b d → Same a d
  Same-trans a b d x y = record {
    next = y.next ∙ x.next;
    parent = y.parent ∙ x.parent;
    locked = y.locked ∙ x.locked;
    counter = y.counter ∙ x.counter;
  }

  Same-Taken : (a b d : Thread) → Same a b → Taken ps c b d → Taken ps c a d
  Same-Taken a b d x y = record {
    next = y.next ∙ x.next;
    parent = y.parent ∙ x.parent;
    was_free = sym x.locked ∙ y.was_free;
    locked = y.locked;
    allowed = ap (λ q. (ps q).masked c) (sym x.parent) ∙ y.allowed;
    enough =
        ap (λ k. ltb_ℤ (add_nice (ps a.parent).nice k) (pos 1000000)) (sym x.counter)
        ∙ ap (λ q. ltb_ℤ (add_nice (ps q).nice b.sched_counter) (pos 1000000)) (sym x.parent)
        ∙ y.enough;
  }

  module _ (ts : ℕ → Thread) (u : ℕ) where
    abbrev looked : ℕ → Thread
    looked = with_thread ts u (visit ps c now (ts u)).1

    looked_at : looked u ≡ (visit ps c now (ts u)).1
    looked_at = ap (λ b. if b then (visit ps c now (ts u)).1 else ts u) (==_refl u)

    looked_other : (v : ℕ) → v ≢ u → looked v ≡ ts v
    looked_other v ne = ap (λ b. if b then (visit ps c now (ts u)).1 else ts v) (==_ne v u ne)

    looked-Same : (visit ps c now (ts u)).0 ≡ false → (v : ℕ) → Same (ts v) (looked v)
    looked-Same e v = elim (ℕ_discrete v u) [
      | no ne ↦ subst (λ x. Same (ts v) x) (sym (looked_other v ne)) (same (ts v))
      | yes here ↦
          subst (λ x. Same (ts x) (looked x)) (sym here)
            (subst (λ x. Same (ts u) x) (sym looked_at) (its_Same (visit-cases (ts u))))
    ]
      where
        its_Same :
            ((((visit ps c now (ts u)).0 ≡ false) × Same (ts u) (visit ps c now (ts u)).1)
              ⊎ (((visit ps c now (ts u)).0 ≡ true) × Taken ps c (ts u) (visit ps c now (ts u)).1))
            → Same (ts u) (visit ps c now (ts u)).1
        its_Same (inl (_, s)) = s
        its_Same (inr (t, _)) = absurd (false≢true (sym e ∙ t))

    looked-Taken : (visit ps c now (ts u)).0 ≡ true → Taken ps c (ts u) (looked u)
    looked-Taken e =
        subst (λ x. Taken ps c (ts u) x) (sym looked_at) (its_Taken (visit-cases (ts u)))
      where
        its_Taken :
            ((((visit ps c now (ts u)).0 ≡ false) × Same (ts u) (visit ps c now (ts u)).1)
              ⊎ (((visit ps c now (ts u)).0 ≡ true) × Taken ps c (ts u) (visit ps c now (ts u)).1))
            → Taken ps c (ts u) (visit ps c now (ts u)).1
        its_Taken (inl (f, _)) = absurd (false≢true (sym f ∙ e))
        its_Taken (inr (_, t)) = t

    still_cannot :
        (visit ps c now (ts u)).0 ≡ false
        → (v : ℕ) → is_taken (ts v) ≡ false
        → is_taken (looked v) ≡ false
    still_cannot e v f = elim (ℕ_discrete v u) [
      | no ne ↦ ap is_taken (looked_other v ne) ∙ f
      | yes here ↦ ap (λ x. is_taken (looked x)) here ∙ ap is_taken looked_at ∙ visit-again (ts u) e
    ]

    same_runner :
        (visit ps c now (ts u)).0 ≡ false → (v : ℕ) → is_taken (looked v) ≡ true → looked v ≡ ts v
    same_runner e v f = elim (ℕ_discrete v u) [
      | no ne ↦ looked_other v ne
      | yes here ↦
          absurd (false≢true (sym (still_cannot e v (ap (λ x. is_taken (ts x)) here ∙ e)) ∙ f))
    ]

    could_not :
        (visit ps c now (ts u)).0 ≡ false
        → (v : ℕ) → is_taken (looked v) ≡ false
        → is_taken (ts v) ≡ false
    could_not e v f = elim (ℕ_discrete v u) [
      | no ne ↦ sym (ap is_taken (looked_other v ne)) ∙ f
      | yes here ↦ ap (λ x. is_taken (ts x)) here ∙ e
    ]

    abbrev after_look : ℕ → Pick
    after_look left =
        if (visit ps c now (ts u)).0
        then if ltb_ℤ (visit ps c now (ts u)).1.sched_counter (pos 25000000)
          then chosen looked u
          else crashed
        else pick left ps c now looked u

    pick_next :
        (left t : ℕ) → (ts t).next ≡ some u → pick (suc left) ps c now ts t ≡ after_look left
    unfolding pick
    pick_next left t e = rw (e, pick) refl

  pub pick-Ends : (left : ℕ) (ts : ℕ → Thread) (t : ℕ) → Ends ts t (pick left ps c now ts t)
  unfolding pick
  pick-Ends zero ts t = ((λ v. same (ts v)), inl refl)
  pick-Ends (suc left) ts t = elim (Option-cases (ts t).next) [
    | inl e ↦ rw (e, pick) refl
    | inr (u, e) ↦
        subst (λ r. Ends ts t r) (sym (pick_next ts u left t e))
          (elim (Bool-cases (visit ps c now (ts u)).0) [
            | inl yes_it ↦
                rw yes_it
                  (elim (Bool-cases
                    (ltb_ℤ (visit ps c now (ts u)).1.sched_counter (pos 25000000))) [
                      | inr large ↦ rw large refl
                      | inl small ↦ rw small (
                        looked-Taken ts u yes_it,
                        (λ v ne.
                            subst (λ x. Same (ts v) x) (sym (looked_other ts u v ne))
                              (same (ts v))),
                        (t, e),
                      )
                    ])
            | inr not_it ↦ rw not_it (
                further u (pick left ps c now (looked ts u) u) (looked-Same ts u not_it) e
                  (pick-Ends left (looked ts u) u))
          ])
  ]
    where
      further :
          (u : ℕ) (r : Pick)
          → ((v : ℕ) → Same (ts v) (looked ts u v))
          → (ts t).next ≡ some u
          → Ends (looked ts u) u r
          → Ends ts t r
      further u (chosen ts' w) k e (a, b, (v, d)) = (
        Same-Taken (ts w) (looked ts u w) (ts' w) (k w) a,
        (λ v ne. Same-trans (ts v) (looked ts u v) (ts' v) (k v) (b v ne)),
        (v, sym (k v).next ∙ d),
      )
      further u (nobody ts' w) k e (b, from) =
          ((λ v. Same-trans (ts v) (looked ts u v) (ts' v) (k v) (b v)), whence from)
        where
          whence :
              (w ≡ u) ⊎ ((v : ℕ) × ((looked ts u v).next ≡ some w))
              → (w ≡ t) ⊎ ((v : ℕ) × ((ts v).next ≡ some w))
          whence (inl x) = inr (t, e ∙ ap (λ y. some y) (sym x))
          whence (inr (v, d)) = inr (v, sym (k v).next ∙ d)
      further u crashed k e x = refl

  -- Along the ring, `p` being its threads in their order, the loop takes the first that a look takes.
  pick-Takes :
      (left : ℕ) (ts : ℕ → Thread) (p : ℕ → ℕ)
      → ((k : ℕ) → (ts (p k)).next ≡ some (p (suc k)))
      → Takes left ts p (pick left ps c now ts (p 0))
  unfolding pick
  pick-Takes zero ts p ring = λ j lt. absurd (omega (arith, lt))
  pick-Takes (suc left) ts p ring =
      subst (λ r. Takes (suc left) ts p r) (sym (pick_next ts (p 1) left (p 0) (ring 0)))
        (elim (Bool-cases (visit ps c now (ts (p 1))).0) [
          | inl yes_it ↦
              rw yes_it
                (elim (Bool-cases
                  (ltb_ℤ (visit ps c now (ts (p 1))).1.sched_counter (pos 25000000))) [
                    | inr large ↦
                        rw large
                          (0, omega arith, yes_it, (λ j lt. absurd (omega (arith, lt))), large)
                    | inl small ↦
                        rw small (0, omega arith, refl, yes_it, λ j lt. absurd (omega (arith, lt)))
                  ])
          | inr not_it ↦ rw not_it (
              onward (pick left ps c now (looked ts (p 1)) (p 1)) not_it (
                pick-Takes left (looked ts (p 1)) (λ k. p (suc k))
                  (λ k. (looked-Same ts (p 1) not_it (p (suc k))).next ∙ ring (suc k))))
        ])
    where
      none_before :
          (visit ps c now (ts (p 1))).0 ≡ false
          → (k : ℕ) → ((i : ℕ) → i < k → is_taken (ts (p (suc (suc i)))) ≡ false)
          → (j : ℕ) → j < suc k
          → is_taken (ts (p (suc j))) ≡ false
      none_before e k later zero lt' = e
      none_before e k later (suc j) lt' = later j (omega (arith, lt'))

      onward :
          (r : Pick)
          → (visit ps c now (ts (p 1))).0 ≡ false
          → Takes left (looked ts (p 1)) (λ k. p (suc k)) r
          → Takes (suc left) ts p r
      onward (chosen ts' u) e (k, lt, from, able, before) = (
        suc k,
        omega (arith, lt),
        from,
        ap is_taken (sym (same_runner ts (p 1) e u able)) ∙ able,
        λ j lt'.
            none_before e k (λ i lt''. could_not ts (p 1) e (p (suc (suc i))) (before i lt'')) j
              lt',
      )
      onward (nobody ts' u) e x = λ j lt. none_at j lt
        where
          none_at : (j : ℕ) → j < suc left → is_taken (ts (p (suc j))) ≡ false
          none_at zero lt = e
          none_at (suc j) lt = could_not ts (p 1) e (p (suc (suc j))) (x j (omega (arith, lt)))
      onward crashed e (k, lt, able, before, large) =
          let same_one = same_runner ts (p 1) e (p (suc (suc k))) able in
          (
            suc k,
            omega (arith, lt),
            ap is_taken (sym same_one) ∙ able,
            (λ j lt'.
                none_before e k (λ i lt''. could_not ts (p 1) e (p (suc (suc i))) (before i lt'')) j
                  lt'),
            ap (λ th. ltb_ℤ (visit ps c now th).1.sched_counter (pos 25000000)) (sym same_one)
                ∙ large,
          )

-- A thread that is awake, or is to wake up: it is runnable, or waits and is interrupted, or its time has
-- come.
abbrev pub is_awake : Status → ℕ → ℕ → Bool → Bool
is_awake fresh wakeup_at now interrupted = false
is_awake runnable wakeup_at now interrupted = true
is_awake sleeping wakeup_at now interrupted = leb wakeup_at now || interrupted
is_awake blocked wakeup_at now interrupted = interrupted
is_awake dead wakeup_at now interrupted = false

-- What the niceness of its process adds to a thread's counter at a look: 1000000 where it is 0, 25000
-- less for each step above and 50000 more for each below.
abbrev pub credit : ℤ → ℤ
credit (pos n) = pos 1000000 -ℤ pos (25000 * n)
credit (negsuc n) = pos (1050000 + 50000 * n)

-- A thread can run on processor `c`: it is awake, its process may run there, it has a turn's worth of
-- credit, and nobody holds it.
abbrev pub can_run : (ℕ → Process) → ℕ → ℕ → Thread → Bool
can_run ps c now th =
    is_awake th.status th.wakeup_at now th.interrupted
    && (not ((ps th.parent).masked c)
        && (not (ltb_ℤ (th.sched_counter +ℤ credit (ps th.parent).nice) (pos 1000000))
            && not th.locked))

add_nice-credit : (nice counter : ℤ) → add_nice nice counter ≡ counter +ℤ credit nice
add_nice-credit (pos n) counter = refl
add_nice-credit (negsuc n) counter = ap (λ k. counter +ℤ pos k) (omega arith)

wakes-is_awake :
    (th : Thread) (now : ℕ) → (wakes th now).0 ≡ is_awake th.status th.wakeup_at now th.interrupted
wakes-is_awake th now = ground arith

visit-can_run :
    (ps : ℕ → Process) (c now : ℕ) (th : Thread) → (visit ps c now th).0 ≡ can_run ps c now th
unfolding visit
visit-can_run ps c now th =
    rw (wakes-is_awake th now, add_nice-credit (ps th.parent).nice th.sched_counter) (ground arith)

visit-counter :
    (ps : ℕ → Process) (c now : ℕ) (th : Thread)
    → can_run ps c now th ≡ true
    → (visit ps c now th).1.sched_counter
      ≡ th.sched_counter +ℤ credit (ps th.parent).nice -ℤ pos 1000000
unfolding visit
visit-counter ps c now th h =
    let same = visit-can_run ps c now th ∙ h in
    ground (arith, same, add_nice-credit (ps th.parent).nice th.sched_counter)

-- What the loop has come to from a thread on, `p` being the threads in the order of the ring: the first
-- that can run of the rounds it has, or none; where it panics, the first that can run has too large a
-- counter.
abbrev pub Picks : (ℕ → Process) → ℕ → ℕ → ℕ → (ℕ → Thread) → (ℕ → ℕ) → Pick → Type 0
Picks ps c now left ts p (chosen ts' u) =
    (k : ℕ) × (k < left)
    × (u ≡ p (suc k))
    × (can_run ps c now (ts u) ≡ true)
    × ((j : ℕ) → j < k → can_run ps c now (ts (p (suc j))) ≡ false)
Picks ps c now left ts p (nobody ts' u) =
    (j : ℕ) → j < left → can_run ps c now (ts (p (suc j))) ≡ false
Picks ps c now left ts p crashed =
    (k : ℕ) × (k < left)
    × (can_run ps c now (ts (p (suc k))) ≡ true)
    × ((j : ℕ) → j < k → can_run ps c now (ts (p (suc j))) ≡ false)
    × (ltb_ℤ
          ((ts (p (suc k))).sched_counter
            +ℤ credit (ps (ts (p (suc k))).parent).nice
            -ℤ pos 1000000)
          (pos 25000000)
        ≡ false)

Takes-Picks :
    (ps : ℕ → Process) (c now left : ℕ) (ts : ℕ → Thread) (p : ℕ → ℕ) (r : Pick)
    → Takes ps c now left ts p r
    → Picks ps c now left ts p r
Takes-Picks ps c now left ts p (chosen ts' u) (k, lt, e, able, none_before) = (
  k,
  lt,
  e,
  sym (visit-can_run ps c now (ts u)) ∙ able,
  λ j h. sym (visit-can_run ps c now (ts (p (suc j)))) ∙ none_before j h,
)
Takes-Picks ps c now left ts p (nobody ts' u) none_at =
    λ j h. sym (visit-can_run ps c now (ts (p (suc j)))) ∙ none_at j h
Takes-Picks ps c now left ts p crashed (k, lt, able, none_before, large) =
    let can = sym (visit-can_run ps c now (ts (p (suc k)))) ∙ able in
    (
      k,
      lt,
      can,
      (λ j h. sym (visit-can_run ps c now (ts (p (suc j)))) ∙ none_before j h),
      ap (λ n. ltb_ℤ n (pos 25000000)) (sym (visit-counter ps c now (ts (p (suc k))) can)) ∙ large,
    )

-- Along a ring of threads, `p` being its threads in their order, the loop takes the first thread that can
-- run on this processor: one that is awake or whose time has come, whose process may run there, whose
-- counter comes to 1000000 with its niceness, and that is not locked. It takes none only if none of the
-- rounds it has finds one; where it panics, the first that can run has too large a counter.
pub pick-Picks :
    (ps : ℕ → Process) (c now left : ℕ) (ts : ℕ → Thread) (p : ℕ → ℕ)
    → ((k : ℕ) → (ts (p k)).next ≡ some (p (suc k)))
    → Picks ps c now left ts p (pick left ps c now ts (p 0))
pick-Picks ps c now left ts p ring =
    Takes-Picks ps c now left ts p (pick left ps c now ts (p 0))
      (pick-Takes ps c now left ts p ring)
