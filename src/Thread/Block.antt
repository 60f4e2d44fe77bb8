-- ===== src/Thread/Block.antt =====
-- What `thread_block` of thread/thread.c does to the threads.
use winx.Base.{
  ℕ, ◌≡◌, refl, sym, ap, subst, ◌∙◌, ◌≢◌, ◌⊎◌, true, false, List, [], ◌∷◌, arith, ==-refl, Run,
  done, halted, unfinished,
}
use winx.Base.{Run}
use winx.Thread.{
  TaskStatus, task_blocked, Kernel, status_of, set_status, is_stopped, is_running, elem_find,
  thread_unblock, wake_idle_in, wake_idle, schedule, thread_block,
}
use winx.Thread.Valid.{IsValid, IsParked}
use winx.Thread.Schedule.{thread_block-IsValid, unblocked, thread_unblock-done}
use winx.Thread.Timer.{switched, requeue-done, dispatch-switched, schedule-switched}

-- the thread that runs next, and those that are ready then
abbrev pub next_of : Kernel → List ℕ → ℕ
next_of k [] = k.idle_thread
next_of k (next ∷ rest) = next

abbrev pub rest_of : List ℕ → List ℕ
rest_of [] = []
rest_of (next ∷ rest) = rest

-- What blocking comes to: the front of the ready list runs, or the idle thread; the running thread has
-- its new status unless it is the one that runs, and no third thread changes.
pub record Blocks (k : Kernel) (stat : TaskStatus) (k' : Kernel) : Type 0 where
  pub valid : IsValid k'
  pub running : k'.running ≡ next_of k k.thread_ready_list
  pub ready : k'.thread_ready_list ≡ rest_of k.thread_ready_list
  pub stopped :
      k'.running ≢ k.running → k'.tasks k.running ≡ record (k.tasks k.running) { status = stat }
  pub idle_thread : k'.idle_thread ≡ k.idle_thread
  pub others : (t : ℕ) → t ≢ k.running → t ≢ k'.running → k'.tasks t ≡ k.tasks t

-- the running thread with its new status
unfoldable pub parked : Kernel → TaskStatus → Kernel
parked k stat = record k { intr_on = false; tasks = set_status k k.running stat }

block-schedule :
    (k : Kernel) (stat : TaskStatus)
    → is_stopped stat ≡ true
    → thread_block k stat ≡ schedule (parked k stat)
unfolding thread_block parked
block-schedule k stat s = rw s refl

stopped-not_running : (stat : TaskStatus) → is_stopped stat ≡ true → is_running stat ≡ false
stopped-not_running stat s = ground (arith, s)

not_running :
    (k : Kernel) (stat : TaskStatus)
    → is_stopped stat ≡ true
    → is_running (status_of (parked k stat) k.running) ≡ false
unfolding parked
not_running k stat s = rw (status_of, set_status, ==-refl k.running) (stopped-not_running stat s)

parked-IsParked :
    {k : Kernel} (stat : TaskStatus)
    → IsValid k
    → is_stopped stat ≡ true
    → (k.running ≢ k.idle_thread) ⊎ (stat ≡ task_blocked)
    → IsParked (parked k stat)
unfolding parked
parked-IsParked {k} stat v s idle = record {
  listed_ready = λ t. ground (arith, v.parked.listed_ready t, v.running);
  ready_listed = λ t. ground (arith, v.parked.ready_listed t);
  distinct = v.parked.distinct;
  only_running = λ t. ground (arith, v.parked.only_running t);
  idle = ground (arith, v.parked.idle);
}

idle-stopped :
    (k : Kernel) (stat : TaskStatus)
    → IsParked (parked k stat)
    → is_stopped stat ≡ true
    → k.thread_ready_list ≡ []
    → is_stopped (status_of (parked k stat) k.idle_thread) ≡ true
unfolding parked
idle-stopped k stat p s empty = ground (
  arith,
  p.idle,
  p.only_running k.idle_thread,
  p.ready_listed k.idle_thread,
  ap (λ xs. elem_find xs k.idle_thread) empty,
  s,
)

wake_idle-empty :
    (k : Kernel) → k.thread_ready_list ≡ [] → wake_idle k ≡ thread_unblock k k.idle_thread
unfolding wake_idle wake_idle_in
wake_idle-empty k empty = ap (λ xs. wake_idle_in xs k) empty

schedule-idle :
    (k k' : Kernel)
    → k.intr_on ≡ false
    → is_running (status_of k k.running) ≡ false
    → k.thread_ready_list ≡ []
    → thread_unblock k k.idle_thread ≡ done k'
    → k'.thread_ready_list ≡ k.idle_thread ∷ []
    → schedule k ≡ done (switched k' k.idle_thread [])
unfolding schedule
schedule-idle k k' off stopped empty woken list =
    simp (off, requeue-done k stopped, wake_idle-empty k empty, woken, dispatch-switched k' list)

-- the state after blocking
after_block : Kernel → TaskStatus → List ℕ → Kernel
after_block k stat [] = switched (unblocked (parked k stat) k.idle_thread) k.idle_thread []
after_block k stat (next ∷ rest) = switched (parked k stat) next rest

thread_block-after :
    (k : Kernel) (stat : TaskStatus) (xs : List ℕ)
    → IsParked (parked k stat)
    → is_stopped stat ≡ true
    → k.thread_ready_list ≡ xs
    → thread_block k stat ≡ done (after_block k stat xs)
unfolding after_block parked unblocked
thread_block-after k stat [] p s e =
    block-schedule k stat s
    ∙ schedule-idle (parked k stat) (unblocked (parked k stat) k.idle_thread) refl
        (not_running k stat s) e (thread_unblock-done k.idle_thread p (idle-stopped k stat p s e))
        (ap (λ ys. k.idle_thread ∷ ys) e)
thread_block-after k stat (next ∷ rest) p s e =
    block-schedule k stat s ∙ schedule-switched (parked k stat) refl (not_running k stat s) e

result : Kernel → Run Kernel → Kernel
result other (done k) = k
result other halted = other
result other unfinished = other

after_block-Blocks :
    (k : Kernel) (stat : TaskStatus) (xs : List ℕ)
    → IsValid (after_block k stat xs)
    → k.thread_ready_list ≡ xs
    → Blocks k stat (after_block k stat xs)
unfolding after_block switched unblocked parked
after_block-Blocks k stat [] v e = record {
  valid = v;
  running = ap (next_of k) (sym e);
  ready = ap rest_of (sym e);
  stopped = λ ne. ground (arith, ne);
  idle_thread = refl;
  others = λ t a b. ground (arith, a, b);
}
after_block-Blocks k stat (next ∷ rest) v e = record {
  valid = v;
  running = ap (next_of k) (sym e);
  ready = ap rest_of (sym e);
  stopped = λ ne. ground (arith, ne);
  idle_thread = refl;
  others = λ t a b. ground (arith, a, b);
}

-- In a valid state, `thread_block` in one of the three states that stop a thread, for the idle thread
-- TASK_BLOCKED, never halts and leaves a valid state: the first ready thread runs next, or the idle
-- thread where none is ready, and the ready list loses what runs. The thread that blocks has the new
-- status, unless it is the one that runs next, no third thread changes, and the idle thread is the
-- same.
pub thread_block_lem :
    {k : Kernel} (stat : TaskStatus)
    → IsValid k
    → is_stopped stat ≡ true
    → (k.running ≢ k.idle_thread) ⊎ (stat ≡ task_blocked)
    → (k' : Kernel) × (thread_block k stat ≡ done k') × Blocks k stat k'
unfolding result
thread_block_lem {k} stat v s idle =
    let p = parked-IsParked {k = k} stat v s idle in
    let run = thread_block-after k stat k.thread_ready_list p s refl in
    let (k', e, v', same) = thread_block-IsValid {k = k} stat v s idle in
    let reached : k' ≡ after_block k stat k.thread_ready_list = ap (result k) (sym e ∙ run) in
    (
      after_block k stat k.thread_ready_list,
      run,
      after_block-Blocks k stat k.thread_ready_list (subst IsValid reached v') refl,
    )
