-- ===== src/Keyboard/Keys.antt =====
-- The state of the keyboard of device/keyboard.c, and what its keys type.
use winx.Base.{
  ℕ, ◌+◌, ◌-◌, ◌<◌, bit_and, bit_or, ◌≡◌, refl, ap, inl, inr, Bool, true, false, ◌&&◌, ◌||◌, arith,
  ltb, leb, ◌==◌, if◌then◌else◌, Bool-cases, ==→eq,
}
use winx.Base.Bits.{every, every-at, bit}
use winx.Keyboard.{
  alt_r_make, ctrl_r_make, Keyboard, Key, silent, typed, unknown_key, release_key, press_key,
  scan_key, read_key, type_key, is_shifted, key_of,
}

-- Every status is 0 or 1.
pub record IsKeyboard (kbd : Keyboard) : Type 0 where
  pub ctrl : kbd.ctrl_status < 2
  pub shift : kbd.shift_status < 2
  pub alt : kbd.alt_status < 2
  pub caps_lock : kbd.caps_lock_status < 2
  pub ext : kbd.ext_scancode < 2

release_key-IsKeyboard :
    (make : ℕ) {kbd : Keyboard} → IsKeyboard kbd → IsKeyboard (release_key make kbd)
unfolding release_key
release_key-IsKeyboard make {kbd} i = record {
  ctrl = ground (arith, i.ctrl);
  shift = ground (arith, i.shift);
  alt = ground (arith, i.alt);
  caps_lock = ground (arith, i.caps_lock);
  ext = ground (arith, i.ext);
}

press_key-IsKeyboard :
    (scancode : ℕ) {kbd : Keyboard} → IsKeyboard kbd → IsKeyboard (press_key scancode kbd).0
unfolding press_key
press_key-IsKeyboard scancode {kbd} i = record {
  ctrl = ground (arith, i.ctrl);
  shift = ground (arith, i.shift);
  alt = ground (arith, i.alt);
  caps_lock = ground (arith, i.caps_lock);
  ext = ground (arith, i.ext);
}

scan_key-IsKeyboard :
    (scancode : ℕ) {kbd : Keyboard} → IsKeyboard kbd → IsKeyboard (scan_key scancode kbd).0
unfolding scan_key
scan_key-IsKeyboard scancode {kbd} i = elim (Bool-cases (bit scancode 7)) [
  | inl up ↦ rw up (release_key-IsKeyboard (bit_and scancode 0xff7f) i)
  | inr down ↦
      elim (Bool-cases (
        (ltb 0x00 scancode && ltb scancode 0x3b)
        || scancode == alt_r_make
        || scancode == ctrl_r_make)) [
          | inl known ↦ rw (down, known) (press_key-IsKeyboard scancode i)
          | inr unknown ↦ rw (down, unknown) i
        ]
]

-- Every byte from the keyboard leaves each status 0 or 1.
pub read_key-IsKeyboard :
    (code : ℕ) {kbd : Keyboard} → IsKeyboard kbd → IsKeyboard (read_key code kbd).0
unfolding read_key
read_key-IsKeyboard code {kbd} i = elim (Bool-cases (code == 0xe0)) [
  | inl prefix ↦ rw prefix (record {
    ctrl = i.ctrl;
    shift = i.shift;
    alt = i.alt;
    caps_lock = i.caps_lock;
    ext = omega arith;
  })
  | inr other ↦ elim (Bool-cases (kbd.ext_scancode == 0)) [
    | inl plain ↦ rw (other, plain) (scan_key-IsKeyboard code i)
    | inr extended ↦
        rw (other, extended)
          (scan_key-IsKeyboard (bit_or 0xe000 code) (record {
            ctrl = i.ctrl;
            shift = i.shift;
            alt = i.alt;
            caps_lock = i.caps_lock;
            ext = omega arith;
          }))
  ]
]

-- an ASCII letter in the other case
abbrev pub swap_case : ℕ → ℕ
swap_case c = if leb 97 c && leb c 122 then c - 32 else if leb 65 c && leb c 90 then c + 32 else c

abbrev pub swap_key : Key → Key
swap_key silent = silent
swap_key (typed c) = typed (swap_case c)
swap_key unknown_key = unknown_key

abbrev same_key : Key → Key → Bool
same_key silent silent = true
same_key (typed c) (typed d) = c == d
same_key unknown_key unknown_key = true
same_key _ _ = false

same_key→eq : (a b : Key) → same_key a b ≡ true → a ≡ b
same_key→eq silent silent e = refl
same_key→eq silent (typed d) e = absurd (ground arith)
same_key→eq silent unknown_key e = absurd (ground arith)
same_key→eq (typed c) silent e = absurd (ground arith)
same_key→eq (typed c) (typed d) e = ap typed (==→eq c d e)
same_key→eq (typed c) unknown_key e = absurd (ground arith)
same_key→eq unknown_key silent e = absurd (ground arith)
same_key→eq unknown_key (typed d) e = absurd (ground arith)
same_key→eq unknown_key unknown_key e = refl

abbrev pub keys : ℕ → ℕ → ℕ → Keyboard
keys shift alt caps_lock = record {
  ctrl_status = 0;
  shift_status = shift;
  alt_status = alt;
  caps_lock_status = caps_lock;
  ext_scancode = 0;
}

caps_test : ℕ → ℕ → ℕ → Bool
caps_test shift alt code =
    same_key (read_key code (keys shift alt 1)).1 (swap_key (read_key code (keys shift alt 0)).1)

caps_table : (alt : ℕ) → every (λ shift. every (caps_test shift alt) 256) 2 ≡ true
unfolding every caps_test read_key scan_key press_key type_key is_shifted key_of
caps_table alt = refl

-- With caps lock on, and ctrl up, every scancode without a prefix types what it types with caps lock
-- off in the other case: letters swap theirs, shift or not, and all other keys stay the same.
pub caps_lock-swap_case :
    (code shift alt : ℕ)
    → code < 256
    → shift < 2
    → (read_key code (keys shift alt 1)).1 ≡ swap_key (read_key code (keys shift alt 0)).1
unfolding caps_test
caps_lock-swap_case code shift alt hc hs = same_key→eq _ _ (
    every-at (caps_test shift alt) 256 code hc
      (every-at (λ s. every (caps_test s alt) 256) 2 shift hs (caps_table alt)))
