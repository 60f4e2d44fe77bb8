-- ===== src/Sync/Machine.antt =====
-- A machine with three threads to try thread/sync.c on: 1 runs, 2 is ready, and 9, the idle thread,
-- is blocked.
use winx.Base.{ℕ, refl, false, [], ◌∷◌, arith, ◌==◌, if◌then◌else◌}
use winx.Thread.{TaskStatus, task_running, task_ready, task_blocked, Task, Kernel}
use winx.Thread.Valid.{IsValid}

abbrev pub task : TaskStatus → ℕ → Task
task stat left = record {
  status = stat;
  priority = 31;
  ticks = left;
  elapsed_ticks = 5;
  stack_magic = 0x19870916;
}

abbrev pub machine : Kernel
machine = record {
  running = 1;
  idle_thread = 9;
  tasks = λ t.
      if t == 1
      then task task_running 7
      else if t == 2
      then task task_ready 31
      else task task_blocked 10;
  thread_ready_list = 2 ∷ [];
  intr_on = false;
  ticks = 100;
}

pub machine-IsValid : IsValid machine
machine-IsValid = record {
  parked = record {
    listed_ready = λ t. ground arith;
    ready_listed = λ t. ground arith;
    distinct = (refl, tt);
    only_running = λ t. ground arith;
    idle = refl;
  };
  running = refl;
}
