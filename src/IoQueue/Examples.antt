-- ===== src/IoQueue/Examples.antt =====
-- The queue of device/ioqueue.c at the end of its buffer: two bytes, the second one behind the wrap.
use winx.Base.{
  ℕ, ◌≡◌, refl, ap, Option, none, some, [], ◌∷◌, ◌++◌, arith, ◌==◌, if◌then◌else◌, length, done,
}
use winx.Thread.{Kernel}
use winx.Thread.Valid.{IsValid}
use winx.Sync.{lock_init}
use winx.Sync.Machine.{machine, machine-IsValid}
use winx.IoQueue.{IoQueue, passed, ioq_putchar, ioq_getchar, ioq_length}
use winx.IoQueue.Ring.{IsRing, contents, bytes}
use winx.IoQueue.Fifo.{Woken, ioq_putchar_lem, ioq_getchar_lem}

abbrev queue : ℕ → ℕ → Option ℕ → Option ℕ → IoQueue
queue tail head producer consumer = record {
  lock = lock_init;
  producer = producer;
  consumer = consumer;
  buf = λ p. if p == 2047 then 65 else if p == 0 then 66 else 67;
  head = head;
  tail = tail;
}

wrapped : IsRing (queue 2047 1 none (some 9))
wrapped = record { head = omega arith; tail = omega arith }

two_bytes : contents (queue 2047 1 none (some 9)) ≡ 65 ∷ 66 ∷ []
unfolding contents ioq_length bytes
two_bytes = refl

two_bytes_kept : contents (queue 2047 1 (some 9) none) ≡ 65 ∷ 66 ∷ []
unfolding contents ioq_length bytes
two_bytes_kept = refl

ioq_putchar_lem_example :
    (k' : Kernel) × (ioq' : IoQueue) × (ioq_putchar machine (queue 2047 1 none (some 9)) 68
      ≡ done (passed k' ioq' tt))
    × IsValid k'
    × IsRing ioq'
    × Woken machine (some 9) k'
    × (ioq'.consumer ≡ none)
    × (contents ioq' ≡ contents (queue 2047 1 none (some 9)) ++ 68 ∷ [])
ioq_putchar_lem_example =
    ioq_putchar_lem machine (queue 2047 1 none (some 9)) machine-IsValid refl wrapped 68 refl
      (omega (arith, ap length two_bytes))

ioq_getchar_lem_example :
    (k' : Kernel) × (ioq' : IoQueue) × (ioq_getchar machine (queue 2047 1 (some 9) none)
      ≡ done (passed k' ioq' 65))
    × IsValid k'
    × IsRing ioq'
    × Woken machine (some 9) k'
    × (ioq'.producer ≡ none)
    × (contents ioq' ≡ 66 ∷ [])
ioq_getchar_lem_example =
    ioq_getchar_lem machine (queue 2047 1 (some 9) none) machine-IsValid refl
      (record { head = omega arith; tail = omega arith }) 65 (66 ∷ []) refl two_bytes_kept

full : IsRing (queue 5 4 none none)
full = record { head = omega arith; tail = omega arith }

full_length : ioq_length (queue 5 4 none none) ≡ 2047
unfolding ioq_length
full_length = refl

nothing : contents (queue 7 7 none none) ≡ []
unfolding contents ioq_length bytes
nothing = refl
