-- ===== src/Keyboard/Examples.antt =====
-- The keyboard at single keys, with thread 9 waiting for input.
use winx.Base.{◌≡◌, refl, none, some, arith, done}
use winx.Thread.{Kernel}
use winx.Thread.Valid.{IsValid}
use winx.Sync.{lock_init}
use winx.Sync.Machine.{machine, machine-IsValid}
use winx.IoQueue.{IoQueue, passed}
use winx.IoQueue.Ring.{IsRing, contents}
use winx.Keyboard.{Keyboard, read_key, intr_keyboard_handler}
use winx.Keyboard.Keys.{IsKeyboard, keys, swap_key, caps_lock-swap_case}
use winx.Keyboard.Handler.{with_key, intr_keyboard_handler_lem}

abbrev right_ctrl_held : Keyboard
right_ctrl_held = record {
  ctrl_status = 1;
  shift_status = 1;
  alt_status = 0;
  caps_lock_status = 1;
  ext_scancode = 1;
}

right_ctrl_held-IsKeyboard : IsKeyboard right_ctrl_held
right_ctrl_held-IsKeyboard = record {
  ctrl = omega arith;
  shift = omega arith;
  alt = omega arith;
  caps_lock = omega arith;
  ext = omega arith;
}

-- `q` with shift
caps_lock-swap_case_example :
    (read_key 0x10 (keys 1 0 1)).1 ≡ swap_key (read_key 0x10 (keys 1 0 0)).1
caps_lock-swap_case_example = caps_lock-swap_case 0x10 1 0 (omega arith) (omega arith)

abbrev kbd_buf : IoQueue
kbd_buf = record {
  lock = lock_init;
  producer = none;
  consumer = some 9;
  buf = λ p. 0;
  head = 2047;
  tail = 2047;
}

intr_keyboard_handler_lem_example :
    (k' : Kernel) × (ioq' : IoQueue) × (intr_keyboard_handler machine (keys 0 0 1) kbd_buf 0x10
      ≡ done ((read_key 0x10 (keys 0 0 1)).0, passed k' ioq' tt))
    × IsValid k'
    × IsRing ioq'
    × (contents ioq' ≡ with_key (contents kbd_buf) (read_key 0x10 (keys 0 0 1)).1)
intr_keyboard_handler_lem_example =
    intr_keyboard_handler_lem machine kbd_buf machine-IsValid refl
      (record { head = omega arith; tail = omega arith }) refl (keys 0 0 1) 0x10
