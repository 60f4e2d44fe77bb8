-- ===== src/Thread/Timer.antt =====
-- Time slices: the timer interrupt of device/timer.c, and the order in which threads take turns.
use winx.Base.{
  ℕ, ◌+◌, ◌≡◌, refl, ap, ◌∙◌, ◌≢◌, ◌⊎◌, inl, inr, true, false, List, [], ◌∷◌, ◌++◌, arith, ◌==◌,
  Bool-cases, ==→eq, done,
}
use winx.Thread.{
  set_status, count_tick, use_tick, task_running, task_ready, Kernel, status_of, is_running,
  elem_find, requeue, wake_idle_in, wake_idle, dispatch_to, dispatch, schedule, thread_yield,
  intr_timer_handler,
}
use winx.Thread.Valid.{IsParked, IsValid}
use winx.Thread.Schedule.{requeued, schedule-IsValid}

count_tick-IsParked : {k : Kernel} → IsParked k → IsParked (count_tick k)
unfolding count_tick
count_tick-IsParked {k} p = record {
  listed_ready = λ t. ground (arith, p.listed_ready t);
  ready_listed = λ t. ground (arith, p.ready_listed t);
  distinct = p.distinct;
  only_running = λ t. ground (arith, p.only_running t);
  idle = ground (arith, p.idle);
}

use_tick-IsValid : {k : Kernel} → IsValid k → IsValid (use_tick (count_tick k))
unfolding count_tick use_tick
use_tick-IsValid {k} v = record {
  parked = record {
    listed_ready = λ t. ground (arith, v.parked.listed_ready t);
    ready_listed = λ t. ground (arith, v.parked.ready_listed t);
    distinct = v.parked.distinct;
    only_running = λ t. ground (arith, v.parked.only_running t);
    idle = ground (arith, v.parked.idle);
  };
  running = ground (arith, v.running);
}

kept :
    (k : Kernel)
    → (k.tasks k.running).ticks ≢ 0
    → ((use_tick (count_tick k)).running ≡ k.running)
      × ((use_tick (count_tick k)).thread_ready_list ≡ k.thread_ready_list)
      × (((use_tick (count_tick k)).tasks k.running).ticks + 1 ≡ (k.tasks k.running).ticks)
unfolding count_tick use_tick
kept k ne = (refl, refl, ground arith)

intr_on-count_tick : (k : Kernel) → (count_tick k).intr_on ≡ k.intr_on
unfolding count_tick
intr_on-count_tick k = refl

-- While the running thread's stack is intact, a timer interrupt in a valid state never halts and
-- leaves a valid state; as long as the thread has ticks left it keeps the processor and loses one.
pub intr_timer_handler-IsValid :
    {k : Kernel}
    → IsValid k
    → k.intr_on ≡ false
    → (k.tasks k.running).stack_magic ≡ 0x19870916
    → (k' : Kernel) × (intr_timer_handler k ≡ done k')
      × IsValid k'
      × (((k.tasks k.running).ticks ≡ 0)
          ⊎ ((k'.running ≡ k.running)
              × (k'.thread_ready_list ≡ k.thread_ready_list)
              × ((k'.tasks k.running).ticks + 1 ≡ (k.tasks k.running).ticks)))
unfolding intr_timer_handler
intr_timer_handler-IsValid {k} v off magic = elim (Bool-cases ((k.tasks k.running).ticks == 0)) [
  | inl spent ↦
      let (k', e, v', s) =
        schedule-IsValid (count_tick-IsParked v.parked) (intr_on-count_tick k ∙ off) in
      (k', rw (magic, spent, e), v', inl (==→eq _ 0 spent))
  | inr left ↦
      (use_tick (count_tick k), rw (magic, left), use_tick-IsValid v, inr (kept k (ground arith)))
]

-- the state after a switch to `next`
unfoldable pub switched : Kernel → ℕ → List ℕ → Kernel
switched k next rest = record k {
  thread_ready_list = rest;
  tasks = set_status k next task_running;
  running = next;
}

pub requeue-done : (k : Kernel) → is_running (status_of k k.running) ≡ false → requeue k ≡ done k
unfolding requeue
requeue-done k h = rw h

wake_idle-done :
    (k : Kernel) {x : ℕ} {xs : List ℕ} → k.thread_ready_list ≡ x ∷ xs → wake_idle k ≡ done k
unfolding wake_idle wake_idle_in
wake_idle-done k h = ap (λ ys. wake_idle_in ys k) h

pub dispatch-switched :
    (k : Kernel) {x : ℕ} {xs : List ℕ}
    → k.thread_ready_list ≡ x ∷ xs
    → dispatch k ≡ done (switched k x xs)
unfolding dispatch dispatch_to switched
dispatch-switched k h = ap (λ ys. dispatch_to ys k) h

pub schedule-switched :
    (k : Kernel) {x : ℕ} {xs : List ℕ}
    → k.intr_on ≡ false
    → is_running (status_of k k.running) ≡ false
    → k.thread_ready_list ≡ x ∷ xs
    → schedule k ≡ done (switched k x xs)
unfolding schedule
schedule-switched k off idle h =
    simp (off, requeue-done k idle, wake_idle-done k h, dispatch-switched k h)

-- A thread that yields goes behind all that are ready, and the first of them runs next.
pub thread_yield-rotates :
    (k : Kernel) (next : ℕ) (rest : List ℕ)
    → IsValid k
    → k.thread_ready_list ≡ next ∷ rest
    → (k' : Kernel) × (thread_yield k ≡ done k')
      × (k'.running ≡ next)
      × (k'.thread_ready_list ≡ rest ++ k.running ∷ [])
unfolding thread_yield switched
thread_yield-rotates k next rest v e =
    let free : elem_find k.thread_ready_list k.running ≡ false =
      ground (arith, v.parked.listed_ready k.running, v.running) in
    let queued : Kernel = record k {
      intr_on = false;
      thread_ready_list = k.thread_ready_list ++ k.running ∷ [];
      tasks = set_status k k.running task_ready;
    } in
    let ready : is_running (status_of queued queued.running) ≡ false = ground arith in
    (
      switched queued next (rest ++ k.running ∷ []),
      rw free (schedule-switched queued refl ready (ap (λ xs. xs ++ k.running ∷ []) e)),
      refl,
      refl,
    )

requeue-requeued :
    (k : Kernel)
    → is_running (status_of k k.running) ≡ true
    → elem_find k.thread_ready_list k.running ≡ false
    → requeue k ≡ done (requeued k)
unfolding requeue requeued
requeue-requeued k on free = rw (on, free)

module _ (c : Kernel) (next : ℕ) (rest : List ℕ) (off : c.intr_on ≡ false)
    (on : status_of c c.running ≡ task_running)
    (free : elem_find c.thread_ready_list c.running ≡ false)
    (e : c.thread_ready_list ≡ next ∷ rest) where
  queue : (requeued c).thread_ready_list ≡ next ∷ (rest ++ c.running ∷ [])
  unfolding requeued
  queue = ap (λ xs. xs ++ c.running ∷ []) e

  schedule-rotated : schedule c ≡ done (switched (requeued c) next (rest ++ c.running ∷ []))
  unfolding schedule
  schedule-rotated =
      let on' : is_running (status_of c c.running) ≡ true = ap is_running on in
      simp (
        off,
        requeue-requeued c on' free,
        wake_idle-done (requeued c) queue,
        dispatch-switched (requeued c) queue,
      )

  slice :
      ((switched (requeued c) next (rest ++ c.running ∷ [])).tasks c.running).ticks
      ≡ (c.tasks c.running).priority
  unfolding switched requeued
  slice = ground arith

spent_slice :
    (k : Kernel)
    → (k.tasks k.running).stack_magic ≡ 0x19870916
    → (k.tasks k.running).ticks ≡ 0
    → intr_timer_handler k ≡ schedule (count_tick k)
unfolding intr_timer_handler
spent_slice k magic spent =
    let spent' : ((k.tasks k.running).ticks == 0) ≡ true = ground arith in rw (magic, spent')

-- In a valid state with interrupts off, a ready list that is not empty and an intact stack, a timer
-- interrupt takes a thread whose time slice is used up off the processor: it goes to the end of the
-- ready list, with a new slice of its priority, and the one at the front of the list runs next.
pub intr_timer_handler-rotates :
    (k : Kernel) (next : ℕ) (rest : List ℕ)
    → IsValid k
    → k.intr_on ≡ false
    → (k.tasks k.running).stack_magic ≡ 0x19870916
    → (k.tasks k.running).ticks ≡ 0
    → k.thread_ready_list ≡ next ∷ rest
    → (k' : Kernel) × (intr_timer_handler k ≡ done k')
      × (k'.running ≡ next)
      × (k'.thread_ready_list ≡ rest ++ k.running ∷ [])
      × ((k'.tasks k.running).ticks ≡ (k.tasks k.running).priority)
unfolding count_tick switched requeued
intr_timer_handler-rotates k next rest v off magic spent e =
    let free : elem_find k.thread_ready_list k.running ≡ false =
      ground (arith, v.parked.listed_ready k.running, v.running) in
    let on : status_of (count_tick k) k.running ≡ task_running = ground (arith, v.running) in
    let c = count_tick k in
    (
      switched (requeued c) next (rest ++ c.running ∷ []),
      spent_slice k magic spent ∙ schedule-rotated c next rest off on free e,
      refl,
      refl,
      slice c next rest off on free e ∙ ground arith,
    )
