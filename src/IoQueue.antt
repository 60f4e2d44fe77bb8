-- ===== src/IoQueue.antt =====
-- device/ioqueue.c: a ring of bytes between a producer and a consumer, over locks and the scheduler.
-- A call that has to wait ends its turn there; the functions named `_again` go on in a later turn.
pub mod Ring
pub mod Fifo
mod Examples
use winx.Base.{
  ℕ, zero, suc, ◌+◌, ◌-◌, ◌*◌, ◌/◌, ◌%◌, ◌^◌, ◌≤◌, ◌<◌, min, bit_and, bit_or, ◌≡◌, refl, sym, ap,
  ap₂, subst, ◌∙◌, fun_ext, ◌≢◌, ◌↔◌, ◌⊎◌, inl, inr, Bool, true, false, not, ◌&&◌, ◌||◌, Option,
  none, some, List, [], ◌∷◌, ◌++◌, arith, ltb, leb, ◌==◌, if◌then◌else◌, Bool-cases, Option-cases,
  ==→eq, ==-refl, ne→==, lt→ltb, le→ltb, length, get_or, length-append, update, slice, Run, done,
  halted, unfinished, ◌>>=◌, ◌>>◌, assert, ℤ, pos, negsuc, le→leb, lt→leb, leb→le, leb→lt, ltb→lt,
  ltb→le, Ends, Ends->>=, Ends-assert, Ends-any,
}
use winx.Thread.{Kernel, task_blocked, thread_block, thread_unblock}
use winx.Sync.{Lock, Turn, returned, waiting, lock_init, lock_acquire, lock_release}

abbrev pub bufsize : ℕ
bufsize = 2048

pub record IoQueue : Type 0 where
  pub lock : Lock
  pub producer : Option ℕ
  pub consumer : Option ℕ
  pub buf : ℕ → ℕ
  pub head : ℕ
  pub tail : ℕ

pub ioqueue_init : IoQueue → IoQueue
ioqueue_init ioq = record ioq {
  lock = lock_init;
  producer = none;
  consumer = none;
  head = 0;
  tail = 0;
}

abbrev pub next_pos : ℕ → ℕ
next_pos p = (p + 1) % bufsize

pub ioq_full : Kernel → IoQueue → Run Bool
ioq_full k ioq = do assert (not k.intr_on); done (next_pos ioq.head == ioq.tail)

pub ioq_empty : Kernel → IoQueue → Run Bool
ioq_empty k ioq = do assert (not k.intr_on); done (ioq.head == ioq.tail)

-- the new `*waiter`, and the kernel when another thread runs
pub ioq_wait : Kernel → Option ℕ → Run (Kernel × Option ℕ)
ioq_wait k (some other) = halted
ioq_wait k none = do k' ← thread_block k task_blocked; done (k', some k.running)

-- `if (*waiter != NULL) wakeup(waiter);`
pub wakeup : Kernel → Option ℕ → Run (Kernel × Option ℕ)
wakeup k none = done (k, none)
wakeup k (some t) = do k' ← thread_unblock k t; done (k', none)

-- How a turn ends: with a result, or with another thread running.
pub data Pass (A : Type 0) : Type 0 where
  passed : Kernel → IoQueue → A → Pass A
  blocked : Kernel → IoQueue → Pass A

-- the body of the consumer's loop, up to `thread_block`
pub wait_for_byte : Kernel → IoQueue → Run (Pass ℕ)
wait_for_byte k ioq = lock_acquire k ioq.lock >>= elim [
  | waiting k' plock ↦ done (blocked k' (record ioq { lock = plock }))
  | returned k' plock ↦ do
    (k'', waiter) ← ioq_wait k' ioq.consumer
    done (blocked k'' (record ioq { lock = plock; consumer = waiter }))
]

pub take_byte : Kernel → IoQueue → Run (Pass ℕ)
take_byte k ioq = do
  (k', producer) ← wakeup k ioq.producer
  done (passed k' (record ioq { tail = next_pos ioq.tail; producer = producer }) (ioq.buf ioq.tail))

pub ioq_getchar : Kernel → IoQueue → Run (Pass ℕ)
ioq_getchar k ioq = do
  assert (not k.intr_on)
  empty ← ioq_empty k ioq
  if empty then wait_for_byte k ioq else take_byte k ioq

-- behind `ioq_wait`: the lock is released and the loop's condition tested again
pub ioq_getchar_again : Kernel → IoQueue → Run (Pass ℕ)
ioq_getchar_again k ioq = do
  (k', plock) ← lock_release k ioq.lock
  empty ← ioq_empty k' ioq
  if empty
      then wait_for_byte k' (record ioq { lock = plock })
      else take_byte k' (record ioq { lock = plock })

-- the body of the producer's loop, up to `thread_block`
pub wait_for_room : Kernel → IoQueue → Run (Pass (Unit {0}))
wait_for_room k ioq = lock_acquire k ioq.lock >>= elim [
  | waiting k' plock ↦ done (blocked k' (record ioq { lock = plock }))
  | returned k' plock ↦ do
    (k'', waiter) ← ioq_wait k' ioq.producer
    done (blocked k'' (record ioq { lock = plock; producer = waiter }))
]

pub add_byte : Kernel → IoQueue → ℕ → Run (Pass (Unit {0}))
add_byte k ioq byte = do
  (k', consumer) ← wakeup k ioq.consumer
  done (
      passed k'
        (record ioq {
          buf = update ioq.buf ioq.head byte;
          head = next_pos ioq.head;
          consumer = consumer;
        })
        tt)

pub ioq_putchar : Kernel → IoQueue → ℕ → Run (Pass (Unit {0}))
ioq_putchar k ioq byte = do
  assert (not k.intr_on)
  full ← ioq_full k ioq
  if full then wait_for_room k ioq else add_byte k ioq byte

pub ioq_putchar_again : Kernel → IoQueue → ℕ → Run (Pass (Unit {0}))
ioq_putchar_again k ioq byte = do
  (k', plock) ← lock_release k ioq.lock
  full ← ioq_full k' ioq
  if full
      then wait_for_room k' (record ioq { lock = plock })
      else add_byte k' (record ioq { lock = plock }) byte

pub ioq_length : IoQueue → ℕ
ioq_length ioq =
    if leb ioq.tail ioq.head then ioq.head - ioq.tail else bufsize - (ioq.tail - ioq.head)
