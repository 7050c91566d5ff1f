-- ===== src/Sync/RwMutex.antt =====
-- The readers-writer lock of kernel/rwmutex.cpp. Each operation runs under `m_lock`, or is one atomic
-- access, so that it is one step. An operation that waits looks at the lock again and again; the look
-- that ends its wait is its step, and until then it is not enabled. The count of a thread's busy
-- locks has no part in the state.
pub mod Steps
mod Tests
use aexkernel.Base.{
  ℕ, ◌+◌, ◌-◌, Bool, true, false, not, Option, none, some, ltb, ◌==◌, if◌then◌else◌,
}

pub record RwMutex : Type 0 where
  pub read : ℕ
  pub write : ℕ

abbrev pub unlocked : RwMutex
unlocked = record { read = 0; write = 0 }

-- `acquire_read`, where `none` is another round of its loop.
pub acquire_read : RwMutex → Option RwMutex
acquire_read m = if m.write == 0 then some (record m { read = m.read + 1 }) else none

-- `acquire_write`
pub acquire_write : RwMutex → Option RwMutex
acquire_write m = if m.write == 0 then some (record m { write = m.write + 1 }) else none

pub try_acquire_read : RwMutex → Bool × RwMutex
try_acquire_read m =
    if not (m.write == 0) then (false, m) else (true, record m { read = m.read + 1 })

pub try_acquire_write : RwMutex → Bool × RwMutex
try_acquire_write m =
    if not (m.write == 0) then (false, m) else (true, record m { write = m.write + 1 })

-- `upgrade`, by a reader.
pub upgrade : RwMutex → Option RwMutex
upgrade m = if m.write == 0 then some (record { read = m.read - 1; write = m.write + 1 }) else none

-- `downgrade`, by a writer.
pub downgrade : RwMutex → RwMutex
downgrade m = record { read = m.read + 1; write = m.write - 1 }

-- `release_read`; `none` is its assertion.
pub release_read : RwMutex → Option RwMutex
release_read m = if ltb 0 m.read then some (record m { read = m.read - 1 }) else none

-- `release_write`; `none` is its assertion.
pub release_write : RwMutex → Option RwMutex
release_write m = if ltb 0 m.write then some (record m { write = m.write - 1 }) else none

-- `acquired_read` and `acquired_write`
abbrev pub acquired_read : RwMutex → Bool
acquired_read m = not (m.read == 0)

abbrev pub acquired_write : RwMutex → Bool
acquired_write m = not (m.write == 0)
