-- ===== src/Thread/Valid.antt =====
-- The invariant of the scheduler of thread/thread.c, and the ready list under it.
use winx.Base.{
  ℕ, ◌≡◌, refl, ◌≢◌, Bool, true, false, List, [], ◌∷◌, ◌++◌, arith, ◌==◌, if◌then◌else◌,
}
use winx.Thread.{TaskStatus, task_running, task_ready, task_blocked, Kernel, status_of, elem_find}

-- no thread stands twice in the list
abbrev pub Distinct : List ℕ → Type 0
Distinct [] = Unit
Distinct (x ∷ xs) = (elem_find xs x ≡ false) × Distinct xs

-- the idle thread only ever blocks as TASK_BLOCKED
abbrev pub is_idle_state : TaskStatus → Bool
is_idle_state task_running = true
is_idle_state task_ready = true
is_idle_state task_blocked = true
is_idle_state _ = false

-- The ready list holds exactly the ready threads, each once, and no thread but the one on the
-- processor is marked as running. The latter may have been marked otherwise.
pub record IsParked (k : Kernel) : Type 0 where
  pub listed_ready : (t : ℕ) → elem_find k.thread_ready_list t ≡ true → status_of k t ≡ task_ready
  pub ready_listed : (t : ℕ) → status_of k t ≡ task_ready → elem_find k.thread_ready_list t ≡ true
  pub distinct : Distinct k.thread_ready_list
  pub only_running : (t : ℕ) → status_of k t ≡ task_running → t ≡ k.running
  pub idle : is_idle_state (status_of k k.idle_thread) ≡ true

-- Between two switches the thread on the processor is marked as running.
pub record IsValid (k : Kernel) : Type 0 where
  pub parked : IsParked k
  pub running : status_of k k.running ≡ task_running

abbrev pub NoneRunning : Kernel → Type 0
NoneRunning k = (t : ℕ) → status_of k t ≢ task_running

pub elem_find-snoc :
    (xs : List ℕ) (t u : ℕ)
    → elem_find (xs ++ t ∷ []) u ≡ (if elem_find xs u then true else (t == u))
elem_find-snoc [] t u = ground arith
elem_find-snoc (x ∷ xs) t u = ground (arith, elem_find-snoc xs t u)

pub Distinct-snoc :
    (xs : List ℕ) (t : ℕ) → Distinct xs → elem_find xs t ≡ false → Distinct (xs ++ t ∷ [])
Distinct-snoc [] t d f = (refl, tt)
Distinct-snoc (x ∷ xs) t d f =
    (ground (arith, elem_find-snoc xs t x), Distinct-snoc xs t d.1 (ground arith))
