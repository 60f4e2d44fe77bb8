-- ===== src/Keyboard/Handler.antt =====
-- The keyboard interrupt of device/keyboard.c over the queue of device/ioqueue.c.
use winx.Base.{
  ℕ, ◌≡◌, refl, ap, ◌∙◌, inl, inr, true, false, List, [], ◌∷◌, ◌++◌, arith, ◌==◌, if◌then◌else◌,
  Bool-cases, length, done,
}
use winx.Thread.{Kernel}
use winx.Thread.Valid.{IsValid}
use winx.IoQueue.{IoQueue, passed, ioq_full}
use winx.IoQueue.Ring.{IsRing, contents, ioq_length-contents}
use winx.IoQueue.Fifo.{CanWake, ioq_putchar_lem, ioq_full-done}
use winx.Keyboard.{
  Keyboard, Key, silent, typed, unknown_key, read_key, put_key, intr_keyboard_handler,
}

-- what the queue holds after a key: a character is dropped where it has 2047 already
abbrev pub with_key : List ℕ → Key → List ℕ
with_key cs silent = cs
with_key cs (typed c) = if length cs == 2047 then cs else cs ++ c ∷ []
with_key cs unknown_key = cs

module _ (k : Kernel) (kbd_buf : IoQueue) (v : IsValid k) (off : k.intr_on ≡ false)
    (r : IsRing kbd_buf) (wake : CanWake k kbd_buf.consumer) where
  Put : Key → Type 0
  Put key =
      (k' : Kernel) × (ioq' : IoQueue) × (put_key k kbd_buf key ≡ done (passed k' ioq' tt))
      × IsValid k'
      × IsRing ioq'
      × (contents ioq' ≡ with_key (contents kbd_buf) key)

  put_key_lem : (key : Key) → Put key
  unfolding Put put_key
  put_key_lem silent = (k, kbd_buf, refl, v, r, refl)
  put_key_lem unknown_key = (k, kbd_buf, refl, v, r, refl)
  put_key_lem (typed c) =
      let (len, few) = ioq_length-contents kbd_buf r in
      elim (Bool-cases (length (contents kbd_buf) == 2047)) [
        | inl full ↦
            let is_full : ioq_full k kbd_buf ≡ done true =
              ioq_full-done k kbd_buf off r ∙ ap done full in
            (k, kbd_buf, rw is_full refl, v, r, rw full refl)
        | inr room ↦
            let not_full : ioq_full k kbd_buf ≡ done false =
              ioq_full-done k kbd_buf off r ∙ ap done room in
            let (k', ioq', e, v', r', woken, n, c') =
              ioq_putchar_lem k kbd_buf v off r c wake (ground arith) in
            (k', ioq', rw not_full e, v', r', c' ∙ rw room refl)
      ]

  -- A keyboard interrupt in a valid state, whatever byte the keyboard sends, never halts or waits:
  -- the character that the byte completes goes behind those in the queue, or is dropped where the
  -- queue is full, and the kernel stays valid.
  pub intr_keyboard_handler_lem :
      (kbd : Keyboard) (code : ℕ)
      → (k' : Kernel) × (ioq' : IoQueue) × (intr_keyboard_handler k kbd kbd_buf code
          ≡ done ((read_key code kbd).0, passed k' ioq' tt))
        × IsValid k'
        × IsRing ioq'
        × (contents ioq' ≡ with_key (contents kbd_buf) (read_key code kbd).1)
  unfolding intr_keyboard_handler Put
  intr_keyboard_handler_lem kbd code =
      let (k', ioq', e, v', r', c') = put_key_lem (read_key code kbd).1 in
      (k', ioq', rw e refl, v', r', c')
