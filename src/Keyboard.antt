-- ===== src/Keyboard.antt =====
-- device/keyboard.c: from scancodes to the characters in the keyboard's queue. The handler runs at
-- each keyboard interrupt, with interrupts off; the byte that it reads from the port is an argument.
pub mod Keys
pub mod Handler
mod Examples
use winx.Base.{
  ℕ, zero, suc, ◌+◌, ◌-◌, ◌*◌, ◌/◌, ◌%◌, ◌^◌, ◌≤◌, ◌<◌, min, bit_and, bit_or, ◌≡◌, refl, sym, ap,
  ap₂, subst, ◌∙◌, fun_ext, ◌≢◌, ◌↔◌, ◌⊎◌, inl, inr, Bool, true, false, not, ◌&&◌, ◌||◌, Option,
  none, some, List, [], ◌∷◌, ◌++◌, arith, ltb, leb, ◌==◌, if◌then◌else◌, Bool-cases, Option-cases,
  ==→eq, ==-refl, ne→==, lt→ltb, le→ltb, length, get_or, length-append, update, slice, Run, done,
  halted, unfinished, ◌>>=◌, ◌>>◌, assert, ℤ, pos, negsuc, le→leb, lt→leb, leb→le, leb→lt, ltb→lt,
  ltb→le, Ends, Ends->>=, Ends-assert, Ends-any,
}
use winx.Base.Bits.{bit}
use winx.Thread.{Kernel}
use winx.IoQueue.{IoQueue, Pass, passed, ioq_full, ioq_putchar}

abbrev pub shift_l_make : ℕ
shift_l_make = 0x2a

abbrev pub shift_r_make : ℕ
shift_r_make = 0x36

abbrev pub alt_l_make : ℕ
alt_l_make = 0x38

abbrev pub alt_r_make : ℕ
alt_r_make = 0xe038

abbrev pub ctrl_l_make : ℕ
ctrl_l_make = 0x1d

abbrev pub ctrl_r_make : ℕ
ctrl_r_make = 0xe01d

abbrev pub caps_lock_make : ℕ
caps_lock_make = 0x3a

-- a key without and with shift, by its make code
abbrev pub keymap : List (ℕ × ℕ)
keymap =
    (0, 0)
    ∷ (27, 27)
    ∷ (49, 33)
    ∷ (50, 64)
    ∷ (51, 35)
    ∷ (52, 36)
    ∷ (53, 37)
    ∷ (54, 94)
    ∷ (55, 38)
    ∷ (56, 42)
    ∷ (57, 40)
    ∷ (48, 41)
    ∷ (45, 95)
    ∷ (61, 43)
    ∷ (8, 8)
    ∷ (9, 9)
    ∷ (113, 81)
    ∷ (119, 87)
    ∷ (101, 69)
    ∷ (114, 82)
    ∷ (116, 84)
    ∷ (121, 89)
    ∷ (117, 85)
    ∷ (105, 73)
    ∷ (111, 79)
    ∷ (112, 80)
    ∷ (91, 123)
    ∷ (93, 125)
    ∷ (13, 13)
    ∷ (0, 0)
    ∷ (97, 65)
    ∷ (115, 83)
    ∷ (100, 68)
    ∷ (102, 70)
    ∷ (103, 71)
    ∷ (104, 72)
    ∷ (106, 74)
    ∷ (107, 75)
    ∷ (108, 76)
    ∷ (59, 58)
    ∷ (39, 34)
    ∷ (96, 126)
    ∷ (0, 0)
    ∷ (92, 124)
    ∷ (122, 90)
    ∷ (120, 88)
    ∷ (99, 67)
    ∷ (118, 86)
    ∷ (98, 66)
    ∷ (110, 78)
    ∷ (109, 77)
    ∷ (44, 60)
    ∷ (46, 62)
    ∷ (47, 63)
    ∷ (0, 0)
    ∷ (42, 42)
    ∷ (0, 0)
    ∷ (32, 32)
    ∷ (0, 0)
    ∷ []

-- The globals, 0 or 1 each.
pub record Keyboard : Type 0 where
  pub ctrl_status : ℕ
  pub shift_status : ℕ
  pub alt_status : ℕ
  pub caps_lock_status : ℕ
  pub ext_scancode : ℕ

-- What a scancode comes to: nothing, a character, or the message about an unknown key.
pub data Key : Type 0 where
  silent : Key
  typed : ℕ → Key
  unknown_key : Key

-- `!status`
abbrev pub flip : ℕ → ℕ
flip status = if status == 0 then 1 else 0

pub release_key : ℕ → Keyboard → Keyboard
release_key make kbd =
    if make == ctrl_l_make || make == ctrl_r_make
    then record kbd { ctrl_status = 0 }
    else if make == shift_l_make || make == shift_r_make
    then record kbd { shift_status = 0 }
    else if make == alt_l_make || make == alt_r_make
    then record kbd { alt_status = 0 }
    else kbd

-- the keys whose two characters caps lock does not swap
abbrev pub has_symbols : ℕ → Bool
has_symbols scancode =
    ltb scancode 0x0e
    || scancode == 0x29
    || scancode == 0x1a
    || scancode == 0x1b
    || scancode == 0x2b
    || scancode == 0x27
    || scancode == 0x28
    || scancode == 0x33
    || scancode == 0x34
    || scancode == 0x35

-- `shift`
pub is_shifted : ℕ → Keyboard → Bool
is_shifted scancode kbd =
    if has_symbols scancode
    then not (kbd.shift_status == 0)
    else (kbd.shift_status + kbd.caps_lock_status == 1)

-- `cur_char` where it is not 0: ctrl-l and ctrl-u lose 'a'
pub key_of : ℕ → ℕ → Key
key_of ctrl cur_char =
    if cur_char == 0
    then silent
    else if not (ctrl == 0) && (cur_char == 108 || cur_char == 117)
    then typed (cur_char - 97)
    else typed cur_char

pub type_key : ℕ → Keyboard → Key
unfolding is_shifted key_of
type_key scancode kbd =
    let row = get_or keymap (bit_and scancode 0x00ff) (0, 0) in
    key_of kbd.ctrl_status (if is_shifted scancode kbd then row.1 else row.0)

pub press_key : ℕ → Keyboard → Keyboard × Key
unfolding type_key
press_key scancode kbd =
    if scancode == ctrl_l_make || scancode == ctrl_r_make
    then (record kbd { ctrl_status = 1 }, silent)
    else if scancode == shift_l_make || scancode == shift_r_make
    then (record kbd { shift_status = 1 }, silent)
    else if scancode == alt_l_make || scancode == alt_r_make
    then (record kbd { alt_status = 1 }, silent)
    else if scancode == caps_lock_make
    then (record kbd { caps_lock_status = flip kbd.caps_lock_status }, silent)
    else (kbd, type_key scancode kbd)

-- a whole scancode, behind its prefix
pub scan_key : ℕ → Keyboard → Keyboard × Key
unfolding release_key press_key
scan_key scancode kbd =
    if bit scancode 7
    then (release_key (bit_and scancode 0xff7f) kbd, silent)
    else if (ltb 0x00 scancode && ltb scancode 0x3b)
        || scancode == alt_r_make
        || scancode == ctrl_r_make
    then press_key scancode kbd
    else (kbd, unknown_key)

pub read_key : ℕ → Keyboard → Keyboard × Key
unfolding scan_key
read_key code kbd =
    if code == 0xe0
    then (record kbd { ext_scancode = 1 }, silent)
    else if kbd.ext_scancode == 0
    then scan_key code kbd
    else scan_key (bit_or 0xe000 code) (record kbd { ext_scancode = 0 })

-- `if (!ioq_full(&kbd_buf)) ioq_putchar(&kbd_buf, cur_char);`
pub put_key : Kernel → IoQueue → Key → Run (Pass (Unit {0}))
put_key k kbd_buf silent = done (passed k kbd_buf tt)
put_key k kbd_buf unknown_key = done (passed k kbd_buf tt)
put_key k kbd_buf (typed cur_char) = do
  full ← ioq_full k kbd_buf
  if full then done (passed k kbd_buf tt) else ioq_putchar k kbd_buf cur_char

pub intr_keyboard_handler : Kernel → Keyboard → IoQueue → ℕ → Run (Keyboard × Pass (Unit {0}))
intr_keyboard_handler k kbd kbd_buf code = do
  let (kbd', key) = read_key code kbd
  pass ← put_key k kbd_buf key
  done (kbd', pass)
