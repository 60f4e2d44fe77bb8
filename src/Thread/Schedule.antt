-- ===== src/Thread/Schedule.antt =====
-- schedule, thread_block, thread_unblock and thread_yield of thread/thread.c never halt between
-- valid states, and keep the invariant.
use winx.Base.{
  ℕ, ◌≡◌, refl, subst, ◌∙◌, ◌≢◌, ◌⊎◌, inl, inr, true, false, List, [], ◌∷◌, ◌++◌, arith, Bool-cases,
  update, done, halted,
}
use winx.Thread.{
  task_running, task_blocked, dispatch_to, TaskStatus, dispatch, thread_yield, schedule,
  thread_block, wake_idle_in, wake_idle, is_running, requeue, task_ready, Kernel, status_of,
  set_status, is_stopped, elem_find, thread_unblock,
}
use winx.Thread.Valid.{Distinct, Distinct-snoc, elem_find-snoc, NoneRunning, IsValid, IsParked}

-- what stays the same in a call
pub record Keeps (k k' : Kernel) : Type 0 where
  pub idle_thread : k'.idle_thread ≡ k.idle_thread
  pub intr_on : k'.intr_on ≡ k.intr_on

unfoldable pub unblocked : Kernel → ℕ → Kernel
unblocked k t = record k {
  thread_ready_list = t ∷ k.thread_ready_list;
  tasks = set_status k t task_ready;
}

-- A stopped thread is not in the ready list.
stopped-not_listed :
    {k : Kernel} (t : ℕ)
    → IsParked k
    → is_stopped (status_of k t) ≡ true
    → elem_find k.thread_ready_list t ≡ false
stopped-not_listed {k} t p s = ground (arith, p.listed_ready t)

pub thread_unblock-done :
    {k : Kernel} (t : ℕ)
    → IsParked k
    → is_stopped (status_of k t) ≡ true
    → thread_unblock k t ≡ done (unblocked k t)
unfolding thread_unblock unblocked
thread_unblock-done t p s = rw (s, stopped-not_listed t p s)

unblocked-IsParked :
    {k : Kernel} (t : ℕ) → IsParked k → is_stopped (status_of k t) ≡ true → IsParked (unblocked k t)
unfolding unblocked
unblocked-IsParked {k} t p s = record {
  listed_ready = λ u. ground (arith, p.listed_ready u);
  ready_listed = λ u. ground (arith, p.ready_listed u);
  distinct = (stopped-not_listed t p s, p.distinct);
  only_running = λ u. ground (arith, p.only_running u);
  idle = ground (arith, p.idle);
}

-- `thread_unblock` of a stopped thread succeeds, puts it first in the ready list and marks it as
-- ready, and keeps the invariant and all other threads; of any other thread it halts.
pub thread_unblock_lem :
    (k : Kernel) (t : ℕ)
    → IsValid k
    → ((is_stopped (status_of k t) ≡ true)
        × ((k' : Kernel) × (thread_unblock k t ≡ done k')
            × IsValid k'
            × (k'.thread_ready_list ≡ t ∷ k.thread_ready_list)
            × (k'.running ≡ k.running)
            × ((u : ℕ) → u ≢ t → k'.tasks u ≡ k.tasks u)))
      ⊎ ((is_stopped (status_of k t) ≡ false) × (thread_unblock k t ≡ halted))
unfolding thread_unblock unblocked
thread_unblock_lem k t v = elim (Bool-cases (is_stopped (status_of k t))) [
  | inl s ↦ inl (
    s,
    (
      unblocked k t,
      thread_unblock-done t v.parked s,
      record { parked = unblocked-IsParked t v.parked s; running = ground (arith, v.running) },
      refl,
      refl,
      λ u ne. ground arith,
    ),
  )
  | inr s ↦ inr (s, rw s)
]

unfoldable pub requeued : Kernel → Kernel
requeued k = record k {
  thread_ready_list = k.thread_ready_list ++ k.running ∷ [];
  tasks =
      update k.tasks k.running
        (record (k.tasks k.running) { ticks = (k.tasks k.running).priority; status = task_ready });
}

-- ready for `list_pop`: nobody runs
record IsOpen (k : Kernel) : Type 0 where
  parked : IsParked k
  none_running : NoneRunning k

requeue-IsOpen :
    {k : Kernel} → IsParked k → (k' : Kernel) × (requeue k ≡ done k') × IsOpen k' × Keeps k k'
unfolding requeue requeued
requeue-IsOpen {k} p = elim (Bool-cases (is_running (status_of k k.running))) [
  | inr off ↦ (
    k,
    rw off,
    record { parked = p; none_running = λ t. ground (arith, p.only_running t) },
    record { idle_thread = refl; intr_on = refl },
  )
  | inl on ↦
      let free : elem_find k.thread_ready_list k.running ≡ false =
        ground (arith, p.listed_ready k.running) in
      (
        requeued k,
        rw (on, free),
        record {
          parked = record {
            listed_ready = λ t.
                ground (arith, p.listed_ready t, elem_find-snoc k.thread_ready_list k.running t);
            ready_listed = λ t.
                ground (arith, p.ready_listed t, elem_find-snoc k.thread_ready_list k.running t);
            distinct = Distinct-snoc k.thread_ready_list k.running p.distinct free;
            only_running = λ t. ground (arith, p.only_running t);
            idle = ground (arith, p.idle);
          };
          none_running = λ t. ground (arith, p.only_running t);
        },
        record { idle_thread = refl; intr_on = refl },
      )
]

wake_idle-IsOpen :
    {k : Kernel}
    → IsOpen k
    → (k' : Kernel) × (wake_idle k ≡ done k') × IsOpen k' × (k'.thread_ready_list ≢ []) × Keeps k k'
unfolding wake_idle wake_idle_in unblocked
wake_idle-IsOpen {k} o = go k.thread_ready_list refl
  where
    go :
        (xs : List ℕ)
        → k.thread_ready_list ≡ xs
        → (k' : Kernel) × (wake_idle_in xs k ≡ done k')
          × IsOpen k'
          × (k'.thread_ready_list ≢ [])
          × Keeps k k'
    go [] e =
        let stopped : is_stopped (status_of k k.idle_thread) ≡ true = ground (
          arith,
          o.none_running k.idle_thread,
          o.parked.ready_listed k.idle_thread,
          o.parked.idle,
        ) in
        (
          unblocked k k.idle_thread,
          thread_unblock-done k.idle_thread o.parked stopped,
          record {
            parked = unblocked-IsParked k.idle_thread o.parked stopped;
            none_running = λ t. ground (arith, o.none_running t);
          },
          λ e'. cc,
          record { idle_thread = refl; intr_on = refl },
        )
    go (x ∷ xs) e =
        (k, refl, o, (λ e'. ground arith), record { idle_thread = refl; intr_on = refl })

dispatch-IsValid :
    {k : Kernel}
    → IsOpen k
    → k.thread_ready_list ≢ []
    → (k' : Kernel) × (dispatch k ≡ done k') × IsValid k' × Keeps k k'
unfolding dispatch dispatch_to
dispatch-IsValid {k} o ne = go k.thread_ready_list refl
  where
    go :
        (xs : List ℕ)
        → k.thread_ready_list ≡ xs
        → (k' : Kernel) × (dispatch_to xs k ≡ done k') × IsValid k' × Keeps k k'
    go [] e = absurd (ne e)
    go (next ∷ rest) e =
        let d : Distinct (next ∷ rest) = subst Distinct e o.parked.distinct in
        let listed : (t : ℕ) → elem_find (next ∷ rest) t ≡ true → status_of k t ≡ task_ready =
          subst (λ xs. (t : ℕ) → elem_find xs t ≡ true → status_of k t ≡ task_ready) e
            o.parked.listed_ready in
        let ready : (t : ℕ) → status_of k t ≡ task_ready → elem_find (next ∷ rest) t ≡ true =
          subst (λ xs. (t : ℕ) → status_of k t ≡ task_ready → elem_find xs t ≡ true) e
            o.parked.ready_listed in
        (
          record k {
            thread_ready_list = rest;
            tasks = set_status k next task_running;
            running = next;
          },
          refl,
          record {
            parked = record {
              listed_ready = λ t. ground (arith, listed t, d.0);
              ready_listed = λ t. ground (arith, ready t);
              distinct = d.1;
              only_running = λ t. ground (arith, o.none_running t);
              idle = ground (arith, o.parked.idle);
            };
            running = ground arith;
          },
          record { idle_thread = refl; intr_on = refl },
        )

-- With interrupts off and the invariant between two switches, `schedule` never halts: it switches
-- to a thread and the state is valid again.
pub schedule-IsValid :
    {k : Kernel}
    → IsParked k
    → k.intr_on ≡ false
    → (k' : Kernel) × (schedule k ≡ done k') × IsValid k' × Keeps k k'
unfolding schedule
schedule-IsValid {k} p off =
    let (k₁, e₁, o₁, s₁) = requeue-IsOpen p in
    let (k₂, e₂, o₂, ne, s₂) = wake_idle-IsOpen o₁ in
    let (k₃, e₃, v₃, s₃) = dispatch-IsValid o₂ ne in
    (
      k₃,
      simp (off, e₁, e₂, e₃),
      v₃,
      record {
        idle_thread = s₃.idle_thread ∙ s₂.idle_thread ∙ s₁.idle_thread;
        intr_on = s₃.intr_on ∙ s₂.intr_on ∙ s₁.intr_on;
      },
    )

-- A valid state's running thread that is not the idle thread may block in any of the three ways, and
-- the idle thread as TASK_BLOCKED: `thread_block` never halts and leaves a valid state.
pub thread_block-IsValid :
    {k : Kernel} (stat : TaskStatus)
    → IsValid k
    → is_stopped stat ≡ true
    → (k.running ≢ k.idle_thread) ⊎ (stat ≡ task_blocked)
    → (k' : Kernel) × (thread_block k stat ≡ done k')
      × IsValid k'
      × (k'.idle_thread ≡ k.idle_thread)
unfolding thread_block
thread_block-IsValid {k} stat v s idle =
    let stopped : Kernel = record k { intr_on = false; tasks = set_status k k.running stat } in
    let parked : IsParked stopped = record {
      listed_ready = λ t. ground (arith, v.parked.listed_ready t, v.running);
      ready_listed = λ t. ground (arith, v.parked.ready_listed t);
      distinct = v.parked.distinct;
      only_running = λ t. ground (arith, v.parked.only_running t);
      idle = ground (arith, v.parked.idle);
    } in
    let (k', e, v', keeps) = schedule-IsValid parked refl in (k', rw (s, e), v', keeps.idle_thread)

-- `thread_yield` in a valid state never halts and leaves a valid state.
pub thread_yield-IsValid :
    {k : Kernel}
    → IsValid k
    → (k' : Kernel) × (thread_yield k ≡ done k') × IsValid k' × (k'.idle_thread ≡ k.idle_thread)
unfolding thread_yield
thread_yield-IsValid {k} v =
    let free : elem_find k.thread_ready_list k.running ≡ false =
      ground (arith, v.parked.listed_ready k.running, v.running) in
    let queued : Kernel = record k {
      intr_on = false;
      thread_ready_list = k.thread_ready_list ++ k.running ∷ [];
      tasks = set_status k k.running task_ready;
    } in
    let parked : IsParked queued = record {
      listed_ready = λ t.
          ground (arith, v.parked.listed_ready t, elem_find-snoc k.thread_ready_list k.running t);
      ready_listed = λ t.
          ground (arith, v.parked.ready_listed t, elem_find-snoc k.thread_ready_list k.running t);
      distinct = Distinct-snoc k.thread_ready_list k.running v.parked.distinct free;
      only_running = λ t. ground (arith, v.parked.only_running t);
      idle = ground (arith, v.parked.idle);
    } in
    let (k', e, v', keeps) = schedule-IsValid parked refl in
    (k', rw (free, e), v', keeps.idle_thread)
