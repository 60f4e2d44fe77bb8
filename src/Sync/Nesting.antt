-- ===== src/Sync/Nesting.antt =====
-- Nested calls of lock_acquire and lock_release of thread/sync.c by one thread.
use winx.Base.{
  ℕ, zero, suc, ◌+◌, ◌%◌, ◌^◌, ◌<◌, ◌≡◌, refl, ap, true, some, [], arith, ltb, ◌==◌, ==-refl, Run,
  done, unfinished, ◌>>=◌,
}
use winx.Thread.{Kernel}
use winx.Sync.{
  Lock, returned, waiting, sema_down_loop, sema_down, sema_up, wake_waiter, lock_init, lock_acquire,
  lock_acquired, lock_again, lock_give_up, lock_release,
}

-- `n` calls of `lock_acquire`, one inside the other, each with its `lock_release`; a thread that
-- waits goes on in another turn
pub nested : ℕ → Kernel → Lock → Run (Kernel × Lock)
nested zero k plock = done (k, plock)
nested (suc n) k plock = lock_acquire k plock >>= elim [
  | waiting k' plock' ↦ unfinished
  | returned k' plock' ↦ do (k'', plock'') ← nested n k' plock'; lock_release k'' plock''
]

-- the lock of thread `t` after `count` calls, with nobody waiting
pub held : ℕ → ℕ → Lock
held t count = record {
  holder = some t;
  semaphore = record { value = 0; waiters = [] };
  holder_repeat_nr = count;
}

release_once :
    (k : Kernel) (count : ℕ)
    → 0 < count
    → lock_release k (held k.running (count + 1)) ≡ done (k, held k.running count)
unfolding lock_release lock_give_up held
release_once k count first =
    let mine : (k.running == k.running) ≡ true = ==-refl k.running in
    let many : ltb 1 (count + 1) ≡ true = ground arith in
    rw (mine, many) (ap (λ n. done (k, held k.running n)) (omega arith))

nested-held :
    (n count : ℕ) (k : Kernel)
    → 0 < count
    → count + n < 2 ^ 32
    → nested n k (held k.running count) ≡ done (k, held k.running count)
unfolding nested lock_acquire lock_again lock_release lock_give_up held
nested-held zero count k first small = refl
nested-held (suc n) count k first small =
    let mine : (k.running == k.running) ≡ true = ==-refl k.running in
    let wrap : (count + 1) % 2 ^ 32 ≡ count + 1 = omega arith in
    let inner = nested-held n (count + 1) k (omega arith) (omega arith) in
    rw (mine, wrap, inner) (release_once k count first)

-- A thread that acquires a free lock any number of times below 2^32, and releases it as often, ends
-- with the lock free again and the kernel as it was.
pub nested-lock_init :
    (n : ℕ) (k : Kernel) → n < 2 ^ 32 → nested n k lock_init ≡ done (k, lock_init)
unfolding nested lock_acquire lock_acquired lock_release lock_give_up held sema_down sema_down_loop
    sema_up wake_waiter
nested-lock_init zero k small = refl
nested-lock_init (suc n) k small =
    let inner = nested-held n 1 k (omega arith) (omega arith) in
    let mine : (k.running == k.running) ≡ true = ==-refl k.running in rw (inner, mine) refl

-- the first call for a free lock
pub lock_acquire-lock_init :
    (k : Kernel) → lock_acquire k lock_init ≡ done (returned k (held k.running 1))
unfolding lock_acquire lock_acquired held sema_down sema_down_loop
lock_acquire-lock_init k = refl
