-- ===== src/Sync/RwMutex/Tests.antt =====
-- A reader and then a writer, and the theorems there.
use aexkernel.Base.{true, ◌+◌, ◌≡◌, refl, some}
use aexkernel.Sync.RwMutex.{RwMutex, unlocked, acquire_read, try_acquire_write}
use aexkernel.Sync.RwMutex.Steps.{
  Held, ◌⇒*◌, reads, tries_write, done, more, nobody, Counted, reachable-Counted,
}

abbrev one_reader : RwMutex
one_reader = record { read = 0 + 1; write = 0 }

first_reads : acquire_read unlocked ≡ some one_reader
unfolding acquire_read
first_reads = refl

-- A thread that tries to be a writer then, and gets in.
abbrev held_by_both : Held
held_by_both = record {
  lock = record { read = 0 + 1; write = 0 + 1 };
  readers = 0 + 1;
  writers = 0 + 1;
}

writer_tries : try_acquire_write one_reader ≡ (true, record { read = 0 + 1; write = 0 + 1 })
unfolding try_acquire_write
writer_tries = refl

writer_got_in : nobody ⇒* held_by_both
writer_got_in = more (reads first_reads) (more (tries_write writer_tries) done)

reachable-Counted_example : Counted held_by_both
reachable-Counted_example = reachable-Counted held_by_both writer_got_in
