-- ===== src/Thread.antt =====
-- thread/thread.c and the timer interrupt of device/timer.c: the states of the threads and the
-- scheduler. A thread is named by the address of its task_struct. The two thread lists are the
-- sequences of their elements. What follows `switch_to` in the switched-out thread runs later: a
-- function that switches ends with the next thread running and interrupts off.
pub mod Valid
pub mod Schedule
pub mod Timer
pub mod Block
mod Examples
use winx.Base.{
  ℕ, zero, suc, ◌+◌, ◌-◌, ◌*◌, ◌/◌, ◌%◌, ◌^◌, ◌≤◌, ◌<◌, min, bit_and, bit_or, ◌≡◌, refl, sym, ap,
  ap₂, subst, ◌∙◌, fun_ext, ◌≢◌, ◌↔◌, ◌⊎◌, inl, inr, Bool, true, false, not, ◌&&◌, ◌||◌, Option,
  none, some, List, [], ◌∷◌, ◌++◌, arith, ltb, leb, ◌==◌, if◌then◌else◌, Bool-cases, Option-cases,
  ==→eq, ==-refl, ne→==, lt→ltb, le→ltb, length, get_or, length-append, update, slice, Run, done,
  halted, unfinished, ◌>>=◌, ◌>>◌, assert, ℤ, pos, negsuc, le→leb, lt→leb, leb→le, leb→lt, ltb→lt,
  ltb→le, Ends, Ends->>=, Ends-assert, Ends-any,
}

pub data TaskStatus : Type 0 where
  task_running : TaskStatus
  task_ready : TaskStatus
  task_blocked : TaskStatus
  task_waiting : TaskStatus
  task_hanging : TaskStatus
  task_died : TaskStatus

abbrev pub is_running : TaskStatus → Bool
is_running task_running = true
is_running _ = false

abbrev pub is_ready : TaskStatus → Bool
is_ready task_ready = true
is_ready _ = false

-- the states that `thread_block` sets and `thread_unblock` ends
abbrev pub is_stopped : TaskStatus → Bool
is_stopped task_blocked = true
is_stopped task_waiting = true
is_stopped task_hanging = true
is_stopped _ = false

-- the fields of task_struct that scheduling reads and writes
pub record Task : Type 0 where
  pub status : TaskStatus
  pub priority : ℕ
  pub ticks : ℕ
  pub elapsed_ticks : ℕ
  pub stack_magic : ℕ

pub record Kernel : Type 0 where
  pub running : ℕ
  pub idle_thread : ℕ
  pub tasks : ℕ → Task
  pub thread_ready_list : List ℕ
  pub intr_on : Bool
  -- the count of timer interrupts
  pub ticks : ℕ

abbrev pub status_of : Kernel → ℕ → TaskStatus
status_of k t = (k.tasks t).status

abbrev pub set_status : Kernel → ℕ → TaskStatus → ℕ → Task
set_status k t stat = update k.tasks t (record (k.tasks t) { status = stat })

-- `elem_find`
abbrev pub elem_find : List ℕ → ℕ → Bool
elem_find [] t = false
elem_find (x ∷ xs) t = if x == t then true else elem_find xs t

-- The second test of the ready list, before the PANIC, repeats the one of the ASSERT.
pub thread_unblock : Kernel → ℕ → Run Kernel
thread_unblock k t = do
  assert (is_stopped (status_of k t))
  assert (not (elem_find k.thread_ready_list t))
  done (record k { thread_ready_list = t ∷ k.thread_ready_list; tasks = set_status k t task_ready })

-- a thread that is still running goes to the end of the ready list with a full time slice
unfoldable pub requeue : Kernel → Run Kernel
requeue k =
    if is_running (status_of k k.running)
    then (do
      assert (not (elem_find k.thread_ready_list k.running))
      done (record k {
        thread_ready_list = k.thread_ready_list ++ k.running ∷ [];
        tasks = update k.tasks k.running (record (k.tasks k.running) {
          ticks = (k.tasks k.running).priority;
          status = task_ready;
        });
      }))
    else done k

-- `if (list_empty(&thread_ready_list)) thread_unblock(idle_thread);`
unfoldable pub wake_idle_in : List ℕ → Kernel → Run Kernel
unfolding thread_unblock
wake_idle_in [] k = thread_unblock k k.idle_thread
wake_idle_in (t ∷ ts) k = done k

unfoldable pub wake_idle : Kernel → Run Kernel
unfolding wake_idle_in
wake_idle k = wake_idle_in k.thread_ready_list k

-- `list_pop`, and the switch to the thread that it gives
unfoldable pub dispatch_to : List ℕ → Kernel → Run Kernel
dispatch_to [] k = halted
dispatch_to (next ∷ rest) k =
    done (record k {
      thread_ready_list = rest;
      tasks = set_status k next task_running;
      running = next;
    })

unfoldable pub dispatch : Kernel → Run Kernel
unfolding dispatch_to
dispatch k = dispatch_to k.thread_ready_list k

unfoldable pub schedule : Kernel → Run Kernel
schedule k = do assert (not k.intr_on); k ← requeue k; k ← wake_idle k; dispatch k

unfoldable pub thread_block : Kernel → TaskStatus → Run Kernel
thread_block k stat = do
  assert (is_stopped stat)
  schedule (record k { intr_on = false; tasks = set_status k k.running stat })

pub thread_yield : Kernel → Run Kernel
thread_yield k = do
  assert (not (elem_find k.thread_ready_list k.running))
  schedule (record k {
    intr_on = false;
    thread_ready_list = k.thread_ready_list ++ k.running ∷ [];
    tasks = set_status k k.running task_ready;
  })

-- `cur_thread->elapsed_ticks++; ticks++;`
pub count_tick : Kernel → Kernel
count_tick k = record k {
  tasks = update k.tasks k.running (record (k.tasks k.running) {
    elapsed_ticks = ((k.tasks k.running).elapsed_ticks + 1) % 2 ^ 32;
  });
  ticks = (k.ticks + 1) % 2 ^ 32;
}

-- `cur_thread->ticks--`, which runs only where it is not 0
pub use_tick : Kernel → Kernel
use_tick k = record k {
  tasks =
      update k.tasks k.running
        (record (k.tasks k.running) { ticks = (k.tasks k.running).ticks - 1 });
}

-- The handler runs with interrupts off. Counting leaves the field that is tested as it was.
pub intr_timer_handler : Kernel → Run Kernel
intr_timer_handler k = do
  assert ((k.tasks k.running).stack_magic == 0x19870916)
  if (k.tasks k.running).ticks == 0 then schedule (count_tick k) else done (use_tick (count_tick k))
