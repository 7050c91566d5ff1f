-- ===== src/Proc/Scheduler.antt =====
-- `schedule` of proc/scheduler.cpp, which gives a processor the next thread of the ring of threads.
-- Threads, processes and processors are numbers. `none` is a panic, or a null pointer that is followed.
-- `sched_lock` is held from its acquisition to the end; the counters of time wrap at 64 bits.
pub mod Picks
pub mod Currents
pub mod Switches
pub mod Exclusive
pub mod Starves
mod Tests
use aexkernel.Base.{
  ℕ, zero, suc, ◌+◌, ◌-◌, ◌*◌, ◌%◌, ◌^◌, Bool, true, false, ◌&&◌, not, Option, none, some, ltb,
  ◌==◌, if◌then◌else◌,
}
use aexkernel.Base.Int.{ℤ, pos, negsuc, ◌+ℤ◌, ◌-ℤ◌, ltb_ℤ}
use aexkernel.Ipc.Event.{Status, fresh, runnable, sleeping, blocked, dead}

-- `masked` is whether the process's affinity masks a processor.
pub record Process : Type 0 where
  pub nice : ℤ
  pub masked : ℕ → Bool
  pub cpu_time : ℕ

pub record Thread : Type 0 where
  pub status : Status
  pub interrupted : Bool
  pub critical : ℕ
  pub wakeup_at : ℕ
  pub sched_counter : ℤ
  pub locked : Bool
  pub parent : ℕ
  pub next : Option ℕ

pub record Cpu : Type 0 where
  pub current : ℕ
  pub idle : ℕ
  pub should_yield : Bool
  pub measurement_start : ℕ

pub record Machine : Type 0 where
  pub threads : ℕ → Thread
  pub processes : ℕ → Process
  pub cpus : ℕ → Cpu
  pub list_head : ℕ
  pub list_size : ℕ

abbrev pub with_thread : (ℕ → Thread) → ℕ → Thread → ℕ → Thread
with_thread ts t th u = if u == t then th else ts u

abbrev pub with_cpu : (ℕ → Cpu) → ℕ → Cpu → ℕ → Cpu
with_cpu cpus c cpu d = if d == c then cpu else cpus d

abbrev pub is_runnable : Status → Bool
is_runnable fresh = false
is_runnable runnable = true
is_runnable sleeping = false
is_runnable blocked = false
is_runnable dead = false

-- `counter` after the niceness of the process.
abbrev pub add_nice : ℤ → ℤ → ℤ
add_nice (pos n) counter = counter +ℤ (pos 1000000 -ℤ pos (25000 * n))
add_nice (negsuc n) counter = counter +ℤ pos (1000000 + 50000 * (n + 1))

-- The `switch`: whether it goes on with the thread, and the status that the thread has then.
abbrev pub wakes : Thread → ℕ → Bool × Status
wakes th now = elim th.status [
  | fresh ↦ (false, fresh)
  | runnable ↦ (true, runnable)
  | sleeping ↦
      if ltb now th.wakeup_at && not th.interrupted then (false, sleeping) else (true, runnable)
  | blocked ↦ (th.interrupted, blocked)
  | dead ↦ (false, dead)
]

-- A round of the loop, at a thread: whether it is taken, and the thread afterwards.
unfoldable pub visit : (ℕ → Process) → ℕ → ℕ → Thread → Bool × Thread
visit ps c now th =
    let woken = record th { status = (wakes th now).1 } in
    let counter = add_nice (ps th.parent).nice th.sched_counter in
    let taken = record woken { locked = true; sched_counter = counter -ℤ pos 1000000 } in
    if not (wakes th now).0
    then (false, th)
    else if (ps th.parent).masked c
    then (false, woken)
    else if ltb_ℤ counter (pos 1000000)
    then (false, woken)
    else if th.locked
    then (false, woken)
    else (true, taken)

-- How the loop ends.
pub data Pick : Type 0 where
  crashed : Pick
  chosen : (ℕ → Thread) → ℕ → Pick
  nobody : (ℕ → Thread) → ℕ → Pick

-- The loop, with this many rounds left. The counter of a thread that is taken is asserted to be small.
unfoldable pub pick : ℕ → (ℕ → Process) → ℕ → ℕ → (ℕ → Thread) → ℕ → Pick
pick zero ps c now ts t = nobody ts t
pick (suc left) ps c now ts t = elim (ts t).next [
  | none ↦ crashed
  | some u ↦
      let looked = visit ps c now (ts u) in
      let ts' = with_thread ts u looked.1 in
      let later = pick left ps c now ts' u in
      let fits = ltb_ℤ looked.1.sched_counter (pos 25000000) in
      if looked.0 then if fits then chosen ts' u else crashed else later
]

-- The processor runs a thread, or its idle thread, which remembers where the loop ended.
unfoldable pub switch_to : Machine → ℕ → Pick → Option Machine
switch_to m c crashed = none
switch_to m c (chosen ts t) =
    some (record m { threads = ts; cpus = with_cpu m.cpus c (record (m.cpus c) { current = t }) })
switch_to m c (nobody ts t) =
    let idle = (m.cpus c).idle in
    let last = if t == idle then m.list_head else t in
    some (record m {
      threads = with_thread ts idle (record (ts idle) { locked = true; next = some last });
      cpus = with_cpu m.cpus c (record (m.cpus c) { current = idle });
    })

-- The current thread's time is counted, and its lock released.
abbrev pub put_down : Machine → ℕ → ℕ → Machine
put_down m c now =
    let cpu = m.cpus c in
    let th = m.threads cpu.current in
    let delta = (now + 2 ^ 64 - cpu.measurement_start) % 2 ^ 64 in
    record m {
      threads = with_thread m.threads cpu.current (record th { locked = false });
      processes = λ p.
          if p == th.parent
          then record (m.processes p) { cpu_time = ((m.processes p).cpu_time + delta) % 2 ^ 64 }
          else m.processes p;
      cpus = with_cpu m.cpus c (record cpu { measurement_start = now });
    }

-- `schedule` from where it has `sched_lock`.
unfoldable pub reschedule : Machine → ℕ → ℕ → Option Machine
reschedule m c now =
    let t = (m.cpus c).current in
    let from = elim (m.threads t).next as (λ _. ℕ) [ none ↦ m.list_head | some _ ↦ t ] in
    let m' = put_down m c now in
    let picked = pick (m.list_size + 1) m'.processes c now m'.threads from in
    if (m.threads t).locked then switch_to m' c picked else none

abbrev pub pay : Machine → ℕ → Machine
pay m t =
    let th = m.threads t in
    record m {
      threads =
          with_thread m.threads t (record th { sched_counter = th.sched_counter -ℤ pos 1000000 });
    }

-- `schedule`. `got` is whether `sched_lock` is free, and `others` what happens until it is.
unfoldable pub schedule : Machine → ℕ → ℕ → Bool → (Machine → Machine) → Option Machine
schedule m c now got others =
    let cpu = m.cpus c in
    let th = m.threads cpu.current in
    let rich = not (ltb_ℤ th.sched_counter (pos 1000000)) in
    let m' = if rich then pay m cpu.current else m in
    if ltb 0 th.critical
    then some (record m { cpus = with_cpu m.cpus c (record cpu { should_yield = true }) })
    else if rich && is_runnable th.status
    then some m'
    else if got
    then reschedule m' c now
    else if is_runnable th.status
    then some m'
    else reschedule (others m') c now
