-- ===== src/IoQueue/Ring.antt =====
-- The bytes that the ring of device/ioqueue.c holds.
use winx.Base.{
  ℕ, zero, suc, ◌+◌, ◌%◌, ◌<◌, ◌≡◌, refl, sym, ap, ap₂, ◌∙◌, false, Option, List, [], ◌∷◌, ◌++◌,
  arith, ◌==◌, ne→==, length, update,
}
use winx.Sync.{Lock}
use winx.IoQueue.{IoQueue, bufsize, next_pos, ioq_length}

-- `head` and `tail` are positions of the buffer.
pub record IsRing (ioq : IoQueue) : Type 0 where
  pub head : ioq.head < bufsize
  pub tail : ioq.tail < bufsize

-- `n` bytes from position `p` on
unfoldable pub bytes : (ℕ → ℕ) → ℕ → ℕ → List ℕ
bytes buf p zero = []
bytes buf p (suc n) = buf p ∷ bytes buf (next_pos p) n

-- the bytes from the oldest to the newest
unfoldable pub contents : IoQueue → List ℕ
contents ioq = bytes ioq.buf ioq.tail (ioq_length ioq)

length-bytes : (buf : ℕ → ℕ) (p n : ℕ) → length (bytes buf p n) ≡ n
unfolding bytes
length-bytes buf p zero = refl
length-bytes buf p (suc n) = ap suc (length-bytes buf (next_pos p) n)

bytes-snoc :
    (buf : ℕ → ℕ) (p n : ℕ)
    → p < bufsize
    → bytes buf p (suc n) ≡ bytes buf p n ++ buf ((p + n) % bufsize) ∷ []
unfolding bytes
bytes-snoc buf p zero small = ap (λ q. buf q ∷ []) (omega arith)
bytes-snoc buf p (suc n) small =
    ap (λ xs. buf p ∷ xs)
      (bytes-snoc buf (next_pos p) n (omega arith)
        ∙ ap (λ q. bytes buf (next_pos p) n ++ buf q ∷ []) (omega arith))

-- A byte stored at or behind the end of the ones that are read is not among them.
bytes-update :
    (buf : ℕ → ℕ) (p n m h byte : ℕ)
    → p < bufsize
    → n + m < bufsize
    → h ≡ (p + (n + m)) % bufsize
    → bytes (update buf h byte) p n ≡ bytes buf p n
unfolding bytes
bytes-update buf p zero m h byte small few e = refl
bytes-update buf p (suc n) m h byte small few e =
    let apart : (p == h) ≡ false = ne→== p h (λ same. omega arith) in
    let rest = bytes-update buf (next_pos p) n m h byte (omega arith) (omega arith) (omega arith) in
    rw (apart, rest) refl

-- `ioq_length` is the number of bytes in the ring, at most 2047.
pub ioq_length-contents :
    (ioq : IoQueue)
    → IsRing ioq
    → (ioq_length ioq ≡ length (contents ioq)) × (ioq_length ioq < bufsize)
unfolding contents ioq_length
ioq_length-contents ioq r = (sym (length-bytes ioq.buf ioq.tail (ioq_length ioq)), ground arith)

-- The contents do not depend on the lock and on who waits.
pub contents-frame :
    (ioq : IoQueue) (plock : Lock) (p c : Option ℕ)
    → contents (record ioq { lock = plock; producer = p; consumer = c }) ≡ contents ioq
unfolding contents ioq_length
contents-frame ioq plock p c = refl

-- The queue is empty exactly where its contents are, and full with 2047 bytes.
pub empty_lem : (ioq : IoQueue) → IsRing ioq → (ioq.head == ioq.tail) ≡ (ioq_length ioq == 0)
unfolding ioq_length
empty_lem ioq r = ground arith

pub full_lem :
    (ioq : IoQueue) → IsRing ioq → (next_pos ioq.head == ioq.tail) ≡ (ioq_length ioq == 2047)
unfolding ioq_length
full_lem ioq r = ground arith

-- a byte stored at the head
module _ (ioq : IoQueue) (r : IsRing ioq) (byte : ℕ) where
  abbrev pub stored : IoQueue
  stored = record ioq { buf = update ioq.buf ioq.head byte; head = next_pos ioq.head }

  pub stored-IsRing : IsRing stored
  stored-IsRing = record { head = omega arith; tail = r.tail }

  length-stored : ioq_length ioq < 2047 → ioq_length stored ≡ suc (ioq_length ioq)
  unfolding ioq_length
  length-stored room = let small = r.head in let small' = r.tail in ground arith

  head_place : ioq.head ≡ (ioq.tail + ioq_length ioq) % bufsize
  unfolding ioq_length
  head_place = let small = r.head in let small' = r.tail in ground arith

  byte_at : update ioq.buf ioq.head byte ((ioq.tail + ioq_length ioq) % bufsize) ≡ byte
  byte_at = let same = head_place in ground arith

  pub contents-stored : ioq_length ioq < 2047 → contents stored ≡ contents ioq ++ byte ∷ []
  unfolding contents
  contents-stored room =
      ap (bytes stored.buf ioq.tail) (length-stored room)
      ∙ bytes-snoc stored.buf ioq.tail (ioq_length ioq) r.tail
      ∙ ap₂ (λ xs b. xs ++ b ∷ [])
          (bytes-update ioq.buf ioq.tail (ioq_length ioq) 0 ioq.head byte r.tail (omega arith)
            (omega (arith, head_place)))
          byte_at

-- the oldest byte taken out
module _ (ioq : IoQueue) (r : IsRing ioq) where
  abbrev pub taken : IoQueue
  taken = record ioq { tail = next_pos ioq.tail }

  pub taken-IsRing : IsRing taken
  taken-IsRing = record { head = r.head; tail = omega arith }

  length-taken : 0 < ioq_length ioq → ioq_length ioq ≡ suc (ioq_length taken)
  unfolding ioq_length
  length-taken full = let small = r.head in let small' = r.tail in ground arith

  pub contents-taken : 0 < ioq_length ioq → contents ioq ≡ ioq.buf ioq.tail ∷ contents taken
  unfolding contents bytes
  contents-taken full = ap (bytes ioq.buf ioq.tail) (length-taken full)
