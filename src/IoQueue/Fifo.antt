-- ===== src/IoQueue/Fifo.antt =====
-- device/ioqueue.c as a first-in first-out queue of at most 2047 bytes.
use winx.Base.{
  ℕ, ◌<◌, ◌≡◌, refl, sym, ap, ◌∙◌, ◌≢◌, inl, inr, true, false, Option, none, some, List, [], ◌∷◌,
  ◌++◌, arith, ◌==◌, ==-refl, ne→==, length, get_or, done,
}
use winx.Thread.{Kernel, elem_find, task_ready, is_stopped, status_of, task_blocked}
use winx.Thread.Valid.{IsValid}
use winx.Thread.Schedule.{thread_unblock_lem, thread_block-IsValid}
use winx.Sync.{lock_init}
use winx.Sync.Nesting.{held, lock_acquire-lock_init}
use winx.IoQueue.{
  wait_for_byte, IoQueue, ioq_length, ioq_full, ioq_empty, wakeup, ioq_wait, wait_for_room, passed,
  blocked, add_byte, take_byte, ioq_putchar, ioq_getchar, next_pos,
}
use winx.IoQueue.Ring.{
  contents-frame, IsRing, contents, ioq_length-contents, empty_lem, full_lem, stored,
  contents-stored, taken, contents-taken,
}

-- A thread that waits at the queue is stopped.
abbrev pub CanWake : Kernel → Option ℕ → Type 0
CanWake k none = Unit
CanWake k (some t) = is_stopped (status_of k t) ≡ true

abbrev behind : List ℕ → List ℕ
behind [] = []
behind (x ∷ xs) = xs

-- The thread that waited, if one did, is ready and first in the ready list; no other thread changes.
abbrev pub Woken : Kernel → Option ℕ → Kernel → Type 0
Woken k none k' = k' ≡ k
Woken k (some t) k' =
    (status_of k' t ≡ task_ready)
    × (k'.thread_ready_list ≡ t ∷ k.thread_ready_list)
    × (k'.running ≡ k.running)
    × ((u : ℕ) → u ≢ t → k'.tasks u ≡ k.tasks u)

wakeup_lem :
    (k : Kernel) (waiter : Option ℕ)
    → IsValid k
    → CanWake k waiter
    → (k' : Kernel) × (wakeup k waiter ≡ done (k', none)) × IsValid k' × Woken k waiter k'
unfolding wakeup
wakeup_lem k none v w = (k, refl, v, refl)
wakeup_lem k (some t) v w = elim (thread_unblock_lem k t v) [
  | inl (s, (k', e, v', ready, same, frame)) ↦
      let listed : elem_find k'.thread_ready_list t ≡ true =
        ap (λ xs. elem_find xs t) ready ∙ rw (==-refl t) refl in
      (k', rw e refl, v', (v'.parked.listed_ready t listed, ready, same, frame))
  | inr (other, e) ↦ absurd (ground (arith, w, other))
]

pub ioq_full-done :
    (k : Kernel) (ioq : IoQueue)
    → k.intr_on ≡ false
    → IsRing ioq
    → ioq_full k ioq ≡ done (length (contents ioq) == 2047)
unfolding ioq_full
ioq_full-done k ioq off r =
    simp (off, full_lem ioq r ∙ ap (λ n. n == 2047) (ioq_length-contents ioq r).0)

module _ (k : Kernel) (ioq : IoQueue) (v : IsValid k) (off : k.intr_on ≡ false)
    (r : IsRing ioq) where
  -- With interrupts off, in a valid kernel, `ioq_putchar` on a well-formed queue of less than 2047
  -- bytes adds the byte behind them. If a consumer waits, which has to be stopped, it is ready now and
  -- first in the ready list; no other thread changes, and the kernel stays valid.
  pub ioq_putchar_lem :
      (byte : ℕ)
      → CanWake k ioq.consumer
      → length (contents ioq) < 2047
      → (k' : Kernel) × (ioq' : IoQueue) × (ioq_putchar k ioq byte ≡ done (passed k' ioq' tt))
        × IsValid k'
        × IsRing ioq'
        × Woken k ioq.consumer k'
        × (ioq'.consumer ≡ none)
        × (contents ioq' ≡ contents ioq ++ byte ∷ [])
  unfolding ioq_putchar ioq_full add_byte
  ioq_putchar_lem byte wake room =
      let (k', e, v', woken) = wakeup_lem k ioq.consumer v wake in
      let few : ioq_length ioq < 2047 = omega (arith, (ioq_length-contents ioq r).0) in
      let not_full : (next_pos ioq.head == ioq.tail) ≡ false =
        full_lem ioq r ∙ ne→== _ _ (λ same. omega arith) in
      (
        k',
        record (stored ioq r byte) { consumer = none },
        simp (off, not_full, e),
        v',
        record { head = omega arith; tail = r.tail },
        woken,
        refl,
        contents-frame (stored ioq r byte) ioq.lock ioq.producer none
            ∙ contents-stored ioq r byte few,
      )

  -- With interrupts off, in a valid kernel, `ioq_getchar` on a well-formed queue that holds bytes
  -- takes the oldest one. If a producer waits, which has to be stopped, it is ready now and first in
  -- the ready list; no other thread changes, and the kernel stays valid.
  pub ioq_getchar_lem :
      (byte : ℕ) (rest : List ℕ)
      → CanWake k ioq.producer
      → contents ioq ≡ byte ∷ rest
      → (k' : Kernel) × (ioq' : IoQueue) × (ioq_getchar k ioq ≡ done (passed k' ioq' byte))
        × IsValid k'
        × IsRing ioq'
        × Woken k ioq.producer k'
        × (ioq'.producer ≡ none)
        × (contents ioq' ≡ rest)
  unfolding ioq_getchar ioq_empty take_byte
  ioq_getchar_lem byte rest wake e₀ =
      let (k', e, v', woken) = wakeup_lem k ioq.producer v wake in
      let holds_bytes : 0 < ioq_length ioq =
        omega (arith, (ioq_length-contents ioq r).0, ap length e₀) in
      let not_empty : (ioq.head == ioq.tail) ≡ false =
        empty_lem ioq r ∙ ne→== _ _ (λ same. omega arith) in
      let split : ioq.buf ioq.tail ∷ contents (taken ioq r) ≡ byte ∷ rest =
        sym (contents-taken ioq r holds_bytes) ∙ e₀ in
      let oldest : ioq.buf ioq.tail ≡ byte = ap (λ xs. get_or xs 0 0) split in
      (
        k',
        record (taken ioq r) { producer = none },
        simp (off, not_empty, e, oldest),
        v',
        record { head = r.head; tail = omega arith },
        woken,
        refl,
        contents-frame (taken ioq r) ioq.lock none ioq.consumer ∙ ap behind split,
      )

  -- On a full queue whose lock is free and where no producer waits, `ioq_putchar` leaves the bytes
  -- as they are, names the running thread as the producer that waits, with the lock in its hands,
  -- and another thread runs in a valid state.
  pub ioq_putchar-full :
      (byte : ℕ)
      → ioq.lock ≡ lock_init
      → ioq.producer ≡ none
      → length (contents ioq) ≡ 2047
      → (k' : Kernel) × (ioq' : IoQueue) × (ioq_putchar k ioq byte ≡ done (blocked k' ioq'))
        × IsValid k'
        × (ioq'.lock ≡ held k.running 1)
        × (ioq'.producer ≡ some k.running)
        × (contents ioq' ≡ contents ioq)
  unfolding ioq_putchar ioq_full wait_for_room ioq_wait
  ioq_putchar-full byte free alone full =
      let (k', e, v', i) = thread_block-IsValid {k = k} task_blocked v refl (inr refl) in
      let is_full : (next_pos ioq.head == ioq.tail) ≡ true =
        full_lem ioq r ∙ ground (arith, (ioq_length-contents ioq r).0, full) in
      (
        k',
        record ioq { lock = held k.running 1; producer = some k.running },
        simp (off, is_full, free, lock_acquire-lock_init k, alone, e),
        v',
        refl,
        refl,
        contents-frame ioq (held k.running 1) (some k.running) ioq.consumer,
      )

  -- On an empty queue whose lock is free and where no consumer waits, `ioq_getchar` leaves it empty,
  -- names the running thread as the consumer that waits, with the lock in its hands, and another
  -- thread runs in a valid state.
  pub ioq_getchar-empty :
      ioq.lock ≡ lock_init
      → ioq.consumer ≡ none
      → contents ioq ≡ []
      → (k' : Kernel) × (ioq' : IoQueue) × (ioq_getchar k ioq ≡ done (blocked k' ioq'))
        × IsValid k'
        × (ioq'.lock ≡ held k.running 1)
        × (ioq'.consumer ≡ some k.running)
        × (contents ioq' ≡ [])
  unfolding ioq_getchar ioq_empty wait_for_byte ioq_wait
  ioq_getchar-empty free alone empty =
      let (k', e, v', i) = thread_block-IsValid {k = k} task_blocked v refl (inr refl) in
      let is_empty : (ioq.head == ioq.tail) ≡ true =
        empty_lem ioq r ∙ ground (arith, (ioq_length-contents ioq r).0, ap length empty) in
      (
        k',
        record ioq { lock = held k.running 1; consumer = some k.running },
        simp (off, is_empty, free, lock_acquire-lock_init k, alone, e),
        v',
        refl,
        refl,
        contents-frame ioq (held k.running 1) ioq.producer (some k.running) ∙ empty,
      )
