-- ===== src/Ipc/Event/Simple.antt =====
-- The class SimpleEvent of ipc/event.cpp, an event with room for one thread, and that it does what
-- Event does. `none` is a panic.
use aexkernel.Base.{
  ℕ, ◌≡◌, refl, Bool, true, false, Option, none, some, List, [], ◌∷◌, if◌then◌else◌, length, not,
  ◌||◌, sym, ap, ◌∙◌, inl, inr, Bool-cases,
}
use aexkernel.Ipc.Event.{
  runnable, is_dead, Threads, Event, set_status, put_to_sleep, wait, wake_all, raise, defunct,
}

pub record SimpleEvent : Type 0 where
  pub waiter : Option ℕ
  pub is_defunct : Bool

-- The assertion, that no other thread waits, stands behind the look at `m_defunct`.
unfoldable pub simple_wait : SimpleEvent → Threads → ℕ → ℕ → ℕ → Option (SimpleEvent × Threads)
simple_wait e ts current timeout now = if e.is_defunct then some (e, ts) else elim e.waiter [
  | none ↦ some (record e { waiter = some current }, put_to_sleep ts current timeout now)
  | some _ ↦ none
]

abbrev pub wake_one : Option ℕ → Threads → Threads
wake_one none ts = ts
wake_one (some t) ts = set_status ts t runnable

unfoldable pub simple_raise : SimpleEvent → Threads → SimpleEvent × Threads
simple_raise e ts = (record e { waiter = none }, wake_one e.waiter ts)

unfoldable pub simple_defunct : SimpleEvent → Threads → SimpleEvent × Threads
simple_defunct e ts = (record { waiter = none; is_defunct = true }, wake_one e.waiter ts)

-- The event with a list of waiters that stands for it.
abbrev pub waiters_of : Option ℕ → List ℕ
waiters_of none = []
waiters_of (some t) = t ∷ []

abbrev pub view : SimpleEvent → Event
view e = record { waiters = waiters_of e.waiter; is_defunct = e.is_defunct }

abbrev pub viewed : Option (SimpleEvent × Threads) → Option (Event × Threads)
viewed none = none
viewed (some (e, ts)) = some (view e, ts)

abbrev pub no_waiter : Option ℕ → Bool
no_waiter none = true
no_waiter (some _) = false

abbrev pub is_alive : Option ℕ → Threads → Bool
is_alive none ts = true
is_alive (some t) ts = not (is_dead (ts.status t))

wait_implements :
    (w : Option ℕ) (d : Bool) (ts : Threads) (current timeout now : ℕ)
    → let e : SimpleEvent = record { waiter = w; is_defunct = d } in
      viewed (simple_wait e ts current timeout now)
      ≡ (if d || no_waiter w then some (wait (view e) ts current timeout now) else none)
unfolding simple_wait wait
wait_implements none true ts current timeout now = refl
wait_implements (some t) true ts current timeout now = refl
wait_implements none false ts current timeout now = refl
wait_implements (some t) false ts current timeout now = refl

wake_implements :
    (w : Option ℕ) (ts : Threads)
    → is_alive w ts ≡ true
    → wake_all (waiters_of w) ts ≡ some (wake_one w ts)
unfolding wake_all
wake_implements none ts h = refl
wake_implements (some t) ts h = elim (Bool-cases (is_dead (ts.status t))) [
  | inl e ↦ absurd (clash (sym (ap not e) ∙ h))
  | inr e ↦ rw e refl
]
  where
    clash : false ≡ true → ⊥
    clash q = cc

-- Where the thread that waits, if any, is not dead, the calls of a SimpleEvent are those of the Event
-- with the same waiters: wait panics where a thread waits already and the event is not defunct, and is
-- Event's otherwise; raise and defunct do what Event's do, without the number of waiters.
pub simple_event_implements :
    (e : SimpleEvent) (ts : Threads) (current timeout now : ℕ)
    → is_alive e.waiter ts ≡ true
    → (viewed (simple_wait e ts current timeout now) ≡ (
        if e.is_defunct || no_waiter e.waiter
        then some (wait (view e) ts current timeout now)
        else none))
      × (raise (view e) ts
          ≡ some (length (waiters_of e.waiter), view (simple_raise e ts).0, (simple_raise e ts).1))
      × (defunct (view e) ts
          ≡ some
              (length (waiters_of e.waiter), view (simple_defunct e ts).0, (simple_defunct e ts).1))
unfolding raise defunct simple_raise simple_defunct
simple_event_implements e ts current timeout now h =
    let woken = wake_implements e.waiter ts h in
    (
      wait_implements e.waiter e.is_defunct ts current timeout now,
      rw (woken, raise) refl,
      rw (woken, defunct) refl,
    )
