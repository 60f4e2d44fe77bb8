-- ===== src/Sync/System/Examples.antt =====
-- Mutual exclusion at a run: thread 1 takes the lock, a timer interrupt gives thread 2 the processor,
-- which has to wait, and thread 1 runs again.
use winx.Base.{◌≡◌, refl, List, [], ◌∷◌, ◌==◌, if◌then◌else◌, Run, done, halted, unfinished}
use winx.Thread.{
  Kernel, task_running, task_ready, thread_block, schedule, requeue, wake_idle, wake_idle_in,
  dispatch, dispatch_to,
}
use winx.Sync.{sema_down_loop, sema_down, lock_acquired}
use winx.Sync.Machine.{machine, task}
use winx.Sync.System.{
  Action, acquire, elsewhere, System, run, start, step, turn_of, after_down, start_acquire,
  finish_acquire,
}
use winx.Sync.System.Exclusion.{mutual_exclusion}

abbrev second : Kernel
second = record machine {
  running = 2;
  tasks = λ t. if t == 2 then task task_running 31 else task task_ready 3;
  thread_ready_list = 1 ∷ [];
}

abbrev contention : List Action
contention = acquire ∷ acquire ∷ elsewhere second ∷ acquire ∷ []

abbrev system_or : System → Run System → System
system_or s (done s') = s'
system_or s halted = s
system_or s unfinished = s

abbrev contended : System
contended = system_or (start machine) (run contention (start machine))

contention-runs : run contention (start machine) ≡ done contended
unfolding run step turn_of after_down start_acquire finish_acquire sema_down sema_down_loop
    lock_acquired thread_block schedule requeue wake_idle wake_idle_in dispatch dispatch_to
contention-runs = refl

mutual_exclusion_example : 1 ≡ contended.kernel.running
unfolding run step turn_of after_down start_acquire finish_acquire sema_down sema_down_loop
    lock_acquired thread_block schedule requeue wake_idle wake_idle_in dispatch dispatch_to
mutual_exclusion_example =
    mutual_exclusion contention machine contended contention-runs 1 contended.kernel.running refl
      refl
