-- ===== src/Sync/System.antt =====
-- Threads that share one lock of thread/sync.c: every thread is somewhere between its calls of
-- `lock_acquire` and `lock_release`, and a run is any sequence of turns. Between two turns the
-- kernel may do anything that leaves the lock alone, timer interrupts and switches included.
pub mod Exclusion
mod Examples
use winx.Base.{
  ℕ, zero, suc, ◌+◌, ◌-◌, ◌*◌, ◌/◌, ◌%◌, ◌^◌, ◌≤◌, ◌<◌, min, bit_and, bit_or, ◌≡◌, refl, sym, ap,
  ap₂, subst, ◌∙◌, fun_ext, ◌≢◌, ◌↔◌, ◌⊎◌, inl, inr, Bool, true, false, not, ◌&&◌, ◌||◌, Option,
  none, some, List, [], ◌∷◌, ◌++◌, arith, ltb, leb, ◌==◌, if◌then◌else◌, Bool-cases, Option-cases,
  ==→eq, ==-refl, ne→==, lt→ltb, le→ltb, length, get_or, length-append, update, slice, Run, done,
  halted, unfinished, ◌>>=◌, ◌>>◌, assert, ℤ, pos, negsuc, le→leb, lt→leb, leb→le, leb→lt, ltb→lt,
  ltb→le, Ends, Ends->>=, Ends-assert, Ends-any,
}
use winx.Thread.{Kernel}
use winx.Sync.{
  Semaphore, Lock, Turn, returned, waiting, lock_init, sema_down_loop, sema_down, sema_up, holds,
  lock_acquired, lock_again, lock_give_up,
}

-- where a thread is: outside; in `sema_down` with the interrupt status to restore; behind it, the
-- holder not stored yet; with the lock; behind the reset of the holder, before `sema_up`
pub data Stage : Type 0 where
  outside : Stage
  in_down : Bool → Stage
  entered : Stage
  holding : Stage
  leaving : Stage

pub record System : Type 0 where
  pub kernel : Kernel
  pub lock : Lock
  pub stage : ℕ → Stage

pub data Action : Type 0 where
  -- the kernel does something else
  elsewhere : Kernel → Action
  -- The running thread goes on: into `lock_acquire` where it could also call `lock_release`,
  acquire : Action
  -- into `lock_release` where it could also call `lock_acquire`.
  release : Action

abbrev pub with_semaphore : Lock → Semaphore → Lock
with_semaphore plock s = record plock { semaphore = s }

-- the state after a turn in `sema_down` of thread `t`
pub after_down : System → ℕ → Bool → Turn Semaphore → System
after_down s t old (returned k psema) = record {
  kernel = k;
  lock = with_semaphore s.lock psema;
  stage = update s.stage t entered;
}
after_down s t old (waiting k psema) = record {
  kernel = k;
  lock = with_semaphore s.lock psema;
  stage = update s.stage t (in_down old);
}

-- `lock_acquire` up to its first call's end, or as a whole for the thread that has the lock
pub start_acquire : System → Run System
start_acquire s =
    if holds s.lock.holder s.kernel.running
    then done
        (record s { lock = lock_again s.lock; stage = update s.stage s.kernel.running holding })
    else (do
      turn ← sema_down s.kernel s.lock.semaphore
      done (after_down s s.kernel.running s.kernel.intr_on turn))

pub resume_down : System → Bool → Run System
resume_down s old = do
  turn ← sema_down_loop old s.kernel s.lock.semaphore
  done (after_down s s.kernel.running old turn)

pub finish_acquire : System → Run System
finish_acquire s = do
  plock ← lock_acquired s.kernel s.lock
  done (record s { lock = plock; stage = update s.stage s.kernel.running holding })

pub start_release : System → Run System
start_release s = do
  (last, plock) ← lock_give_up s.kernel s.lock
  done (record s {
    lock = plock;
    stage = update s.stage s.kernel.running (if last then leaving else holding);
  })

pub finish_release : System → Run System
finish_release s = do
  (k, psema) ← sema_up s.kernel s.lock.semaphore
  done (record {
    kernel = k;
    lock = with_semaphore s.lock psema;
    stage = update s.stage s.kernel.running outside;
  })

-- A thread outside may also try to release, which its ASSERT has to stop.
pub turn_of : Action → Stage → System → Run System
turn_of (elsewhere k) stage s = done (record s { kernel = k })
turn_of acquire outside s = start_acquire s
turn_of release outside s = start_release s
turn_of _ (in_down old) s = resume_down s old
turn_of _ entered s = finish_acquire s
turn_of acquire holding s = start_acquire s
turn_of release holding s = start_release s
turn_of _ leaving s = finish_release s

pub step : Action → System → Run System
step action s = turn_of action (s.stage s.kernel.running) s

pub run : List Action → System → Run System
run [] s = done s
run (action ∷ actions) s = step action s >>= run actions

abbrev pub start : Kernel → System
start k = record { kernel = k; lock = lock_init; stage = λ t. outside }
