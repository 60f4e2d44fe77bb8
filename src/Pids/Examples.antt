-- ===== src/Pids/Examples.antt =====
-- Tests of the numbers of processes of thread/thread.c.
use winx.Base.{ℕ, ◌≤◌, ◌<◌, ◌≡◌, true, false, arith, ◌==◌, if◌then◌else◌, done}
use winx.Bitmap.Taking.{free_bits}
use winx.CString.{Memory}
use winx.Pids.{PidPool, pid_pool_init, allocate_pid, release_pid}
use winx.Pids.Numbers.{IsPids, in_use, pid_pool_init-IsPids, release_pid-allocate_pid}

abbrev zeros : Memory
zeros a = 0

abbrev fresh : PidPool
fresh = pid_pool_init zeros

fresh-holds : IsPids fresh × (free_bits fresh.pid_bitmap ≡ 1024)
fresh-holds = pid_pool_init-IsPids zeros (λ a. omega arith)

release_pid-allocate_pid_example :
    (pool₁ pool₂ : PidPool) × (pid : ℕ) × (allocate_pid fresh ≡ done (pool₁, pid))
    × (release_pid pool₁ pid ≡ done pool₂)
    × (1 ≤ pid)
    × (pid ≤ 1024)
    × (in_use fresh pid ≡ false)
    × ((q : ℕ) → 1 ≤ q → q < pid → in_use fresh q ≡ true)
    × ((q : ℕ) → 1 ≤ q → in_use pool₁ q ≡ (if q == pid then true else in_use fresh q))
    × ((q : ℕ) → 1 ≤ q → in_use pool₂ q ≡ in_use fresh q)
    × IsPids pool₁
    × IsPids pool₂
release_pid-allocate_pid_example =
    release_pid-allocate_pid fresh fresh-holds.0 (omega (arith, fresh-holds.1))
