-- ===== src/Sync/RwMutex/Steps.antt =====
-- The lock among threads that use it as they should: a thread releases, upgrades or downgrades what it
-- holds.
use aexkernel.Base.{Bool, true, false, if◌then◌else◌, ℕ, ◌+◌, ◌-◌, ◌≤◌, ◌≡◌, refl, some, arith}
use aexkernel.Sync.RwMutex.{
  RwMutex, unlocked, acquire_read, acquire_write, try_acquire_read, try_acquire_write, upgrade,
  downgrade, release_read, release_write,
}

-- The lock, with the numbers of threads that hold it as readers and as writers.
pub record Held : Type 0 where
  pub lock : RwMutex
  pub readers : ℕ
  pub writers : ℕ

infix 40 ◌⇒◌ ◌⇒*◌
pub data ◌⇒◌ : Held → Held → Type 0 where
  reads :
      {m m' : RwMutex} {r w : ℕ}
      → acquire_read m ≡ some m'
      → record { lock = m; readers = r; writers = w }
        ⇒ record { lock = m'; readers = r + 1; writers = w }
  writes :
      {m m' : RwMutex} {r w : ℕ}
      → acquire_write m ≡ some m'
      → record { lock = m; readers = r; writers = w }
        ⇒ record { lock = m'; readers = r; writers = w + 1 }
  tries_read :
      {m m' : RwMutex} {r w : ℕ}
      → try_acquire_read m ≡ (true, m')
      → record { lock = m; readers = r; writers = w }
        ⇒ record { lock = m'; readers = r + 1; writers = w }
  misses_read :
      {m m' : RwMutex} {r w : ℕ}
      → try_acquire_read m ≡ (false, m')
      → record { lock = m; readers = r; writers = w }
        ⇒ record { lock = m'; readers = r; writers = w }
  tries_write :
      {m m' : RwMutex} {r w : ℕ}
      → try_acquire_write m ≡ (true, m')
      → record { lock = m; readers = r; writers = w }
        ⇒ record { lock = m'; readers = r; writers = w + 1 }
  misses_write :
      {m m' : RwMutex} {r w : ℕ}
      → try_acquire_write m ≡ (false, m')
      → record { lock = m; readers = r; writers = w }
        ⇒ record { lock = m'; readers = r; writers = w }
  upgrades :
      {m m' : RwMutex} {r w : ℕ}
      → upgrade m ≡ some m'
      → record { lock = m; readers = r + 1; writers = w }
        ⇒ record { lock = m'; readers = r; writers = w + 1 }
  downgrades :
      {m : RwMutex} {r w : ℕ}
      → record { lock = m; readers = r; writers = w + 1 }
        ⇒ record { lock = downgrade m; readers = r + 1; writers = w }
  leaves_read :
      {m m' : RwMutex} {r w : ℕ}
      → release_read m ≡ some m'
      → record { lock = m; readers = r + 1; writers = w }
        ⇒ record { lock = m'; readers = r; writers = w }
  leaves_write :
      {m m' : RwMutex} {r w : ℕ}
      → release_write m ≡ some m'
      → record { lock = m; readers = r; writers = w + 1 }
        ⇒ record { lock = m'; readers = r; writers = w }

pub data ◌⇒*◌ : Held → Held → Type 0 where
  done : {h : Held} → h ⇒* h
  more : {h i j : Held} → h ⇒ i → i ⇒* j → h ⇒* j

-- The counts are those of the threads, and there is one writer at most.
abbrev pub Counted : Held → Type 0
Counted h = (h.lock.read ≡ h.readers) × (h.lock.write ≡ h.writers) × (h.writers ≤ 1)

acquire_read_lem :
    (m m' : RwMutex)
    → acquire_read m ≡ some m'
    → (m.write ≡ 0) × (m'.read ≡ m.read + 1) × (m'.write ≡ m.write)
unfolding acquire_read
acquire_read_lem m m' h = ground (arith, h)

acquire_write_lem :
    (m m' : RwMutex)
    → acquire_write m ≡ some m'
    → (m.write ≡ 0) × (m'.read ≡ m.read) × (m'.write ≡ 1)
unfolding acquire_write
acquire_write_lem m m' h = ground (arith, h)

try_acquire_read_lem :
    (m m' : RwMutex) (b : Bool)
    → try_acquire_read m ≡ (b, m')
    → (m'.read ≡ (if b then m.read + 1 else m.read)) × (m'.write ≡ m.write)
unfolding try_acquire_read
try_acquire_read_lem m m' b h = ground (arith, h)

try_acquire_write_lem :
    (m m' : RwMutex) (b : Bool)
    → try_acquire_write m ≡ (b, m')
    → (m'.read ≡ m.read) × (m'.write ≡ (if b then 1 else m.write)) × (b ≡ true → m.write ≡ 0)
unfolding try_acquire_write
try_acquire_write_lem m m' b h = ground (arith, h)

upgrade_lem :
    (m m' : RwMutex) → upgrade m ≡ some m' → (m.write ≡ 0) × (m'.read ≡ m.read - 1) × (m'.write ≡ 1)
unfolding upgrade
upgrade_lem m m' h = ground (arith, h)

release_read_lem :
    (m m' : RwMutex) → release_read m ≡ some m' → (m'.read ≡ m.read - 1) × (m'.write ≡ m.write)
unfolding release_read
release_read_lem m m' h = ground (arith, h)

release_write_lem :
    (m m' : RwMutex) → release_write m ≡ some m' → (m'.read ≡ m.read) × (m'.write ≡ m.write - 1)
unfolding release_write
release_write_lem m m' h = ground (arith, h)

step-Counted : {h i : Held} → h ⇒ i → Counted h → Counted i
unfolding downgrade
step-Counted (reads {m} {m'} e) c = omega (arith, acquire_read_lem m m' e, c)
step-Counted (writes {m} {m'} e) c = omega (arith, acquire_write_lem m m' e, c)
step-Counted (tries_read {m} {m'} e) c = omega (arith, try_acquire_read_lem m m' true e, c)
step-Counted (misses_read {m} {m'} e) c = omega (arith, try_acquire_read_lem m m' false e, c)
step-Counted (tries_write {m} {m'} e) c =
    let (r, w, free) = try_acquire_write_lem m m' true e in omega (arith, r, w, free refl, c)
step-Counted (misses_write {m} {m'} e) c =
    let (r, w, _) = try_acquire_write_lem m m' false e in omega (arith, r, w, c)
step-Counted (upgrades {m} {m'} e) c = omega (arith, upgrade_lem m m' e, c)
step-Counted downgrades c = omega (arith, c)
step-Counted (leaves_read {m} {m'} e) c = omega (arith, release_read_lem m m' e, c)
step-Counted (leaves_write {m} {m'} e) c = omega (arith, release_write_lem m m' e, c)

steps-Counted : {h i : Held} → h ⇒* i → Counted h → Counted i
steps-Counted done c = c
steps-Counted (more s ss) c = steps-Counted ss (step-Counted s c)

abbrev pub nobody : Held
nobody = record { lock = unlocked; readers = 0; writers = 0 }

-- However threads use the lock that release, upgrade and downgrade only what they hold: its counts are
-- the numbers of its readers and of its writers, and there is one writer at most.
pub reachable-Counted : (h : Held) → nobody ⇒* h → Counted h
reachable-Counted h s = steps-Counted s (refl, refl, omega arith)

-- Among such threads, where there is no writer, one that asks gets in at once, whatever the number of
-- readers, who stay.
pub writer_beside_readers :
    (h : Held)
    → nobody ⇒* h
    → h.writers ≡ 0
    → acquire_write h.lock ≡ some (record { read = h.readers; write = 1 })
unfolding acquire_write
writer_beside_readers h s z = let (r, w, l) = reachable-Counted h s in ground (arith, r, w, z)
