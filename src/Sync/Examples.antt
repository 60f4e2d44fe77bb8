-- ===== src/Sync/Examples.antt =====
-- The theorems on semaphores and locks at a machine with three threads: 1 runs, 2 is ready, and 9,
-- the idle thread, is blocked.
use winx.Base.{[], ◌∷◌}
use winx.Sync.{Semaphore}

abbrev taken : Semaphore
taken = record { value = 0; waiters = 5 ∷ [] }
