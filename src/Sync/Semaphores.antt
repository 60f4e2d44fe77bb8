-- ===== src/Sync/Semaphores.antt =====
-- What the semaphores of thread/sync.c do, on every branch.
use winx.Base.{
  ℕ, ◌+◌, ◌%◌, ◌^◌, ◌<◌, ◌≡◌, refl, ap, ◌⊎◌, inl, inr, Bool, true, false, List, [], ◌∷◌, ◌++◌,
  arith, ◌==◌, Bool-cases, ==→eq, done, halted,
}
use winx.Thread.{task_ready, Kernel, task_blocked, elem_find, is_stopped, status_of}
use winx.Thread.Valid.{IsValid}
use winx.Thread.Schedule.{thread_block-IsValid, thread_unblock_lem}
use winx.Sync.{Semaphore, returned, waiting, sema_down_loop, sema_down, sema_up, wake_waiter}

-- Validity does not depend on the interrupt flag.
IsValid-intr_on : {k : Kernel} (on : Bool) → IsValid k → IsValid (record k { intr_on = on })
IsValid-intr_on on v = record {
  parked = record {
    listed_ready = v.parked.listed_ready;
    ready_listed = v.parked.ready_listed;
    distinct = v.parked.distinct;
    only_running = v.parked.only_running;
    idle = v.parked.idle;
  };
  running = v.running;
}

-- In a valid state `sema_down` takes a semaphore that is up; on one that is down the thread, unless
-- it waits already, goes to the end of the waiters and another thread runs in a valid state; and it
-- halts on a semaphore above 1 or where the thread waits already.
pub sema_down_lem :
    (k : Kernel) (psema : Semaphore)
    → IsValid k
    → psema.value < 256
    → ((psema.value ≡ 1) × (sema_down k psema ≡ done (returned k (record psema { value = 0 }))))
      ⊎ ((psema.value ≡ 0)
          × (elem_find psema.waiters k.running ≡ false)
          × ((k' : Kernel) × (sema_down k psema
                ≡ done (waiting k' (record psema { waiters = psema.waiters ++ k.running ∷ [] })))
              × IsValid k'))
      ⊎ (((1 < psema.value) ⊎ (elem_find psema.waiters k.running ≡ true))
          × (sema_down k psema ≡ halted))
unfolding sema_down sema_down_loop
sema_down_lem k psema v small = elim (Bool-cases (psema.value == 0)) [
  | inl zeroed ↦ elim (Bool-cases (elem_find psema.waiters k.running)) [
    | inl again ↦ inr (inr (inr again, rw (zeroed, again) refl))
    | inr fresh ↦
        let (k', e, v', i) =
          thread_block-IsValid {k = record k { intr_on = false }} task_blocked
            (IsValid-intr_on false v) refl (inr refl) in
        inr (inl (==→eq _ _ zeroed, fresh, (k', rw (zeroed, fresh, e) refl, v')))
  ]
  | inr up ↦ elim (Bool-cases ((psema.value + 255) % 2 ^ 8 == 0)) [
    | inl one ↦ inl (
      ground arith,
      rw (up, one)
          (ap (λ n. done (returned k (record { value = n; waiters = psema.waiters })))
            (==→eq _ _ one)),
    )
    | inr more ↦ inr (inr (inl (ground arith), rw (up, more) refl))
  ]
]

-- `sema_up` of a semaphore that is down and has waiters, in a valid state where the first one is
-- stopped: it sets the semaphore up, and that thread alone leaves the waiters and becomes the first
-- ready one, in a valid state with the same thread running.
pub sema_up_lem :
    (k : Kernel) (t : ℕ) (rest : List ℕ)
    → IsValid k
    → is_stopped (status_of k t) ≡ true
    → (k' : Kernel) × (sema_up k (record { value = 0; waiters = t ∷ rest })
        ≡ done (k', record { value = 1; waiters = rest }))
      × IsValid k'
      × (k'.thread_ready_list ≡ t ∷ k.thread_ready_list)
      × (k'.running ≡ k.running)
      × (status_of k' t ≡ task_ready)
unfolding sema_up wake_waiter
sema_up_lem k t rest v stopped =
    elim (thread_unblock_lem (record k { intr_on = false }) t (IsValid-intr_on false v)) [
      | inr (other, e) ↦ absurd (ground (arith, stopped, other))
      | inl (s, (k', e, v', ready, same, frame)) ↦ (
        record k' { intr_on = k.intr_on },
        rw e refl,
        IsValid-intr_on k.intr_on v',
        ready,
        same,
        v'.parked.listed_ready t (rw ready (ground arith)),
      )
    ]
