-- ===== src/Ipc/Event.antt =====
-- ipc/event.cpp: an event that threads wait for. A thread is a number; `wait` is modelled up to the
-- `yield` that ends it. `none` is a panic.
pub mod Simple
pub mod Waiters
pub mod Tests
use aexkernel.Base.{
  ℕ, ◌+◌, ◌*◌, ◌%◌, ◌^◌, Bool, true, false, Option, none, some, List, [], ◌∷◌, ◌++◌, ◌==◌,
  if◌then◌else◌, length,
}

pub data Status : Type 0 where
  fresh : Status
  runnable : Status
  sleeping : Status
  blocked : Status
  dead : Status

abbrev pub is_dead : Status → Bool
is_dead fresh = false
is_dead runnable = false
is_dead sleeping = false
is_dead blocked = false
is_dead dead = true

pub record Threads : Type 0 where
  pub status : ℕ → Status
  pub wakeup_at : ℕ → ℕ

pub record Event : Type 0 where
  pub waiters : List ℕ
  pub is_defunct : Bool

abbrev pub no_event : Event
no_event = record { waiters = []; is_defunct = false }

abbrev pub set_status : Threads → ℕ → Status → Threads
set_status ts t s = record ts { status = λ u. if u == t then s else ts.status u }

abbrev pub is_among : ℕ → List ℕ → Bool
is_among t [] = false
is_among t (u ∷ us) = let rest = is_among t us in if t == u then true else rest

-- The status that the waiting thread gets; `timeout` is in milliseconds, and a `uint64_t` product.
unfoldable pub put_to_sleep : Threads → ℕ → ℕ → ℕ → Threads
put_to_sleep ts current timeout now =
    if timeout == 0
    then set_status ts current blocked
    else record (set_status ts current sleeping) {
      wakeup_at = λ u. if u == current then (now + timeout * 1000000) % 2 ^ 64 else ts.wakeup_at u;
    }

unfoldable pub wait : Event → Threads → ℕ → ℕ → ℕ → Event × Threads
wait e ts current timeout now = if e.is_defunct then (e, ts) else (
  record e {
    waiters = if is_among current e.waiters then e.waiters else e.waiters ++ current ∷ [];
  },
  put_to_sleep ts current timeout now,
)

-- The loop of `raise` and of `defunct`.
unfoldable pub wake_all : List ℕ → Threads → Option Threads
wake_all [] ts = some ts
wake_all (t ∷ rest) ts =
    let others = wake_all rest (set_status ts t runnable) in
    if is_dead (ts.status t) then none else others

unfoldable pub raise : Event → Threads → Option (ℕ × Event × Threads)
raise e ts = elim (wake_all e.waiters ts) [
  | none ↦ none
  | some ts' ↦ some (length e.waiters, record e { waiters = [] }, ts')
]

unfoldable pub defunct : Event → Threads → Option (ℕ × Event × Threads)
defunct e ts = elim (wake_all e.waiters ts) [
  | none ↦ none
  | some ts' ↦ some (length e.waiters, record { waiters = []; is_defunct = true }, ts')
]
