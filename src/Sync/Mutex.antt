-- ===== src/Sync/Mutex.antt =====
-- The mutex of kernel/mutex.cpp. Each compare-and-swap is one step; a list of turns says what others do
-- to the mutex between the tries of a thread that waits. A thread is a number, and its counts are a
-- record. The warning about a thread that waits while it is critical has no effect on either.
mod Tests
use aexkernel.Base.{
  ℕ, ◌+◌, ◌-◌, ◌*◌, ◌≡◌, refl, Bool, true, false, not, ◌&&◌, Option, none, some, List, [], ◌∷◌, ltb,
  ◌==◌, if◌then◌else◌, arith,
}

pub record Mutex : Type 0 where
  pub lock : Bool
  pub thread : Option ℕ

-- `m_busy` and `held_mutexes` of a thread.
pub record ThreadCounts : Type 0 where
  pub busy : ℕ
  pub held_mutexes : ℕ

-- `__sync_bool_compare_and_swap(&m_lock, a, b)`
abbrev pub swaps : Bool → Mutex → Bool
swaps true m = m.lock
swaps false m = not m.lock

abbrev pub hang_limit : ℕ
hang_limit = 12212222 * 50

-- What a thread that has got the lock leaves.
abbrev pub taken_by : ℕ → ThreadCounts → Mutex × ThreadCounts
taken_by current t = (
  record { lock = true; thread = some current },
  record { busy = t.busy + 1; held_mutexes = t.held_mutexes + 1 },
)

pub data Acquired : Type 0 where
  acquired : Mutex → ThreadCounts → Acquired
  waits : Mutex → Acquired  -- the turns are over
  panicked : Acquired

-- `acquire`, after `count` tries. The thread is busy while it tries, and not between the tries.
pub acquire_loop : ℕ → List (Mutex → Mutex) → ℕ → Mutex → ThreadCounts → Acquired
acquire_loop current [] count m t =
    if swaps false m
    then acquired (taken_by current t).0 (taken_by current t).1
    else if ltb hang_limit (count + 1)
    then panicked
    else waits m
acquire_loop current (others ∷ turns) count m t =
    let again = acquire_loop current turns (count + 1) (others m) t in
    if swaps false m
    then acquired (taken_by current t).0 (taken_by current t).1
    else if ltb hang_limit (count + 1)
    then panicked
    else again

pub acquire : ℕ → List (Mutex → Mutex) → Mutex → ThreadCounts → Acquired
unfolding acquire_loop
acquire current turns m t = acquire_loop current turns 0 m t

-- `tryAcquire`
pub try_acquire : ℕ → Mutex → ThreadCounts → Bool × (Mutex × ThreadCounts)
try_acquire current m t = if swaps false m then (true, taken_by current t) else (false, (m, t))

-- `release`; `none` is one of its assertions.
pub release : Mutex → ThreadCounts → Option (Mutex × ThreadCounts)
release m t =
    if ltb 0 t.busy && swaps true m
    then some (
      record { lock = false; thread = none },
      record { busy = t.busy - 1; held_mutexes = t.held_mutexes - 1 },
    )
    else none
