-- ===== src/Sync/Mutex/Tests.antt =====
-- A mutex that is released while a thread waits for it.
use aexkernel.Base.{◌≡◌, refl, true, false, some, none, [], ◌∷◌}
use aexkernel.Sync.Mutex.{Mutex, ThreadCounts, acquired, acquire, release}

abbrev held_by_5 : Mutex
held_by_5 = record { lock = true; thread = some 5 }

abbrev free_mutex : Mutex
free_mutex = record { lock = false; thread = none }

abbrev idle : ThreadCounts
idle = record { busy = 0; held_mutexes = 0 }

waits_one_turn :
    acquire 6 ((λ m. free_mutex) ∷ []) held_by_5 idle
    ≡ acquired (record { lock = true; thread = some 6 }) (record { busy = 1; held_mutexes = 1 })
unfolding acquire
waits_one_turn = refl

released : release held_by_5 (record { busy = 1; held_mutexes = 1 }) ≡ some (free_mutex, idle)
unfolding release
released = refl

-- A thread that is not busy may not release it.
not_busy : release held_by_5 idle ≡ none
unfolding release
not_busy = refl
