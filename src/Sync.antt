-- ===== src/Sync.antt =====
-- thread/sync.c: semaphores and locks over the scheduler. A thread that has to wait leaves the
-- processor in the middle of `sema_down`; its turn ends there, and a later turn tests the loop's
-- condition again.
pub mod Semaphores
pub mod Nesting
pub mod System
pub mod Machine
mod Examples
use winx.Base.{
  ℕ, ◌+◌, ◌-◌, ◌%◌, ◌^◌, Bool, true, false, not, Option, none, some, List, [], ◌∷◌, ◌++◌, ltb, ◌==◌,
  if◌then◌else◌, Run, done, ◌>>=◌, ◌>>◌, assert,
}
use winx.Thread.{Kernel, task_blocked, elem_find, thread_block, thread_unblock}

pub record Semaphore : Type 0 where
  -- uint8_t
  pub value : ℕ
  pub waiters : List ℕ

pub record Lock : Type 0 where
  pub holder : Option ℕ
  pub semaphore : Semaphore
  -- uint32_t
  pub holder_repeat_nr : ℕ

abbrev pub sema_init : ℕ → Semaphore
sema_init value = record { value = value % 2 ^ 8; waiters = [] }

abbrev pub lock_init : Lock
lock_init = record { holder = none; semaphore = sema_init 1; holder_repeat_nr = 0 }

-- How a turn ends: the call is over, or its thread waits and another one runs.
pub data Turn (A : Type 0) : Type 0 where
  returned : Kernel → A → Turn A
  waiting : Kernel → A → Turn A

-- the loop of `sema_down` and what follows it, up to the end of the turn; `old` is `old_status`
pub sema_down_loop : Bool → Kernel → Semaphore → Run (Turn Semaphore)
sema_down_loop old k psema =
    if psema.value == 0
    then (do
      assert (not (elem_find psema.waiters k.running))
      k' ← thread_block k task_blocked
      done (waiting k' (record psema { waiters = psema.waiters ++ k.running ∷ [] })))
    else (do
      assert ((psema.value + 255) % 2 ^ 8 == 0)
      done (
          returned (record k { intr_on = old })
            (record psema { value = (psema.value + 255) % 2 ^ 8 })))

pub sema_down : Kernel → Semaphore → Run (Turn Semaphore)
sema_down k psema = sema_down_loop k.intr_on (record k { intr_on = false }) psema

-- `if (!list_empty(&psema->waiters)) thread_unblock(...list_pop(&psema->waiters))`
pub wake_waiter : List ℕ → Kernel → Run (List ℕ × Kernel)
wake_waiter [] k = done ([], k)
wake_waiter (t ∷ rest) k = do k' ← thread_unblock k t; done (rest, k')

pub sema_up : Kernel → Semaphore → Run (Kernel × Semaphore)
sema_up k psema = do
  assert (psema.value == 0)
  (waiters, k') ← wake_waiter psema.waiters (record k { intr_on = false })
  assert ((psema.value + 1) % 2 ^ 8 == 1)
  done (
    record k' { intr_on = k.intr_on },
    record { value = (psema.value + 1) % 2 ^ 8; waiters = waiters },
  )

-- `plock->holder == running_thread()`
abbrev pub holds : Option ℕ → ℕ → Bool
holds none t = false
holds (some u) t = u == t

-- `lock_acquire` after `sema_down`
pub lock_acquired : Kernel → Lock → Run Lock
lock_acquired k plock = do
  assert (plock.holder_repeat_nr == 0)
  done (record plock { holder = some k.running; holder_repeat_nr = 1 })

-- the branch of `lock_acquire` for the thread that has the lock
pub lock_again : Lock → Lock
lock_again plock = record plock { holder_repeat_nr = (plock.holder_repeat_nr + 1) % 2 ^ 32 }

-- The first turn of `lock_acquire`. A thread that waits comes back to the loop of `sema_down`, and
-- goes on with `lock_acquired`.
pub lock_acquire : Kernel → Lock → Run (Turn Lock)
lock_acquire k plock =
    if holds plock.holder k.running
    then done (returned k (lock_again plock))
    else (sema_down k plock.semaphore >>= elim [
      | waiting k' s ↦ done (waiting k' (record plock { semaphore = s }))
      | returned k' s ↦ do
        plock' ← lock_acquired k' (record plock { semaphore = s })
        done (returned k' plock')
    ])

-- `lock_release` up to `sema_up`, and whether that follows
pub lock_give_up : Kernel → Lock → Run (Bool × Lock)
lock_give_up k plock = do
  assert (holds plock.holder k.running)
  if ltb 1 plock.holder_repeat_nr
      then done (false, record plock { holder_repeat_nr = plock.holder_repeat_nr - 1 })
      else (do
        assert (plock.holder_repeat_nr == 1)
        done (true, record plock { holder = none; holder_repeat_nr = 0 }))

pub lock_release : Kernel → Lock → Run (Kernel × Lock)
lock_release k plock = do
  (last, plock') ← lock_give_up k plock
  if last
      then (do (k', s) ← sema_up k plock'.semaphore; done (k', record plock' { semaphore = s }))
      else done (k, plock')
