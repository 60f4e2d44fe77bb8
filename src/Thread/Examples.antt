-- ===== src/Thread/Examples.antt =====
-- The theorems on the scheduler at a machine with three threads: 1 runs, 2 is ready, and 9, the idle
-- thread, is blocked.
use winx.Base.{
  ℕ, ◌+◌, ◌≡◌, refl, ◌≢◌, ◌⊎◌, inl, true, false, [], ◌∷◌, arith, ◌==◌, if◌then◌else◌, done, halted,
}
use winx.Thread.{
  TaskStatus, task_running, task_ready, task_blocked, task_waiting, Task, Kernel, status_of,
  is_stopped, thread_block, thread_unblock, intr_timer_handler,
}
use winx.Thread.Valid.{IsValid}
use winx.Thread.Schedule.{thread_unblock_lem}
use winx.Thread.Block.{Blocks, thread_block_lem}
use winx.Thread.Timer.{intr_timer_handler-IsValid, intr_timer_handler-rotates}

abbrev task : TaskStatus → ℕ → Task
task stat left = record {
  status = stat;
  priority = 31;
  ticks = left;
  elapsed_ticks = 5;
  stack_magic = 0x19870916;
}

-- `left` ticks of the running thread's slice are left
abbrev machine : ℕ → Kernel
machine left = record {
  running = 1;
  idle_thread = 9;
  tasks = λ t.
      if t == 1
      then task task_running left
      else if t == 2
      then task task_ready 31
      else task task_blocked 10;
  thread_ready_list = 2 ∷ [];
  intr_on = false;
  ticks = 100;
}

machine-IsValid : (left : ℕ) → IsValid (machine left)
machine-IsValid left = record {
  parked = record {
    listed_ready = λ t. ground arith;
    ready_listed = λ t. ground arith;
    distinct = (refl, tt);
    only_running = λ t. ground arith;
    idle = refl;
  };
  running = refl;
}

thread_unblock_lem_example :
    ((is_stopped (status_of (machine 3) 9) ≡ true)
      × ((k' : Kernel) × (thread_unblock (machine 3) 9 ≡ done k')
          × IsValid k'
          × (k'.thread_ready_list ≡ 9 ∷ 2 ∷ [])
          × (k'.running ≡ 1)
          × ((u : ℕ) → u ≢ 9 → k'.tasks u ≡ (machine 3).tasks u)))
    ⊎ ((is_stopped (status_of (machine 3) 9) ≡ false) × (thread_unblock (machine 3) 9 ≡ halted))
thread_unblock_lem_example = thread_unblock_lem (machine 3) 9 (machine-IsValid 3)

thread_block_lem_example :
    (k' : Kernel) × (thread_block (machine 3) task_waiting ≡ done k')
    × Blocks (machine 3) task_waiting k'
thread_block_lem_example =
    thread_block_lem {k = machine 3} task_waiting (machine-IsValid 3) refl (inl (omega arith))

intr_timer_handler-IsValid_example :
    (k' : Kernel) × (intr_timer_handler (machine 3) ≡ done k')
    × IsValid k'
    × ((◌≡◌ {A = ℕ} 3 0)
        ⊎ ((k'.running ≡ 1) × (k'.thread_ready_list ≡ 2 ∷ []) × ((k'.tasks 1).ticks + 1 ≡ 3)))
intr_timer_handler-IsValid_example = intr_timer_handler-IsValid (machine-IsValid 3) refl refl

intr_timer_handler-rotates_example :
    (k' : Kernel) × (intr_timer_handler (machine 0) ≡ done k')
    × (k'.running ≡ 2)
    × (k'.thread_ready_list ≡ 1 ∷ [])
    × ((k'.tasks 1).ticks ≡ 31)
intr_timer_handler-rotates_example =
    intr_timer_handler-rotates (machine 0) 2 [] (machine-IsValid 0) refl refl refl refl
