-- ===== src/CString.antt =====
-- impl/string.c: the memory and string functions, over a memory of bytes. A pointer is an address
-- and NULL is 0. A `char` is its byte; the comparisons of `char` values are signed, as on x86.
-- The loops that run to a NUL take fuel.
pub mod Holds
pub mod Scan
pub mod Compare
pub mod Write
mod Examples
use winx.Base.{
  ℕ, zero, suc, ◌+◌, ◌-◌, ◌%◌, ◌^◌, Bool, true, false, not, ◌&&◌, ◌||◌, Option, none, some, ltb,
  ◌==◌, if◌then◌else◌, update, Run, done, unfinished, ◌>>=◌, ◌>>◌, assert, ℤ, pos, negsuc,
}

abbrev pub Memory : Type 0
Memory = ℕ → ℕ

abbrev pub null : ℕ
null = 0

abbrev pub not_null : ℕ → Bool
not_null p = not (p == null)

-- `a < b` for two values of the signed type `char`
abbrev pub char_lt : ℕ → ℕ → Bool
char_lt a b = ltb ((a + 128) % 256) ((b + 128) % 256)

unfoldable pub fill : ℕ → ℕ → Memory → ℕ → Memory
fill dst value m zero = m
fill dst value m (suc size) = fill (suc dst) value (update m dst value) size

pub memset : Memory → ℕ → ℕ → ℕ → Run Memory
unfolding fill
memset m dst value size = do assert (not_null dst); done (fill dst (value % 256) m size)

unfoldable pub copy : ℕ → ℕ → Memory → ℕ → Memory
copy dst src m zero = m
copy dst src m (suc size) = copy (suc dst) (suc src) (update m dst (m src)) size

pub memcpy : Memory → ℕ → ℕ → ℕ → Run Memory
unfolding copy
memcpy m dst src size = do assert (not_null dst && not_null src); done (copy dst src m size)

pub compare_bytes : Memory → ℕ → ℕ → ℕ → ℤ
compare_bytes m a b zero = pos 0
compare_bytes m a b (suc size) = elim (m a == m b) [
  | true ↦ compare_bytes m (suc a) (suc b) size
  | false ↦ (if char_lt (m b) (m a) then pos 1 else negsuc 0)
]

pub memcmp : Memory → ℕ → ℕ → ℕ → Run ℤ
unfolding compare_bytes
memcmp m a b size = do assert (not_null a || not_null b); done (compare_bytes m a b size)

-- `while ((*dst_++ = *src_++))`: the byte is written first, then tested.
pub copy_string : ℕ → Memory → ℕ → ℕ → Run Memory
copy_string zero m dst src = unfinished
copy_string (suc fuel) m dst src =
    let m' = update m dst (m src) in
    let rest = copy_string fuel m' (suc dst) (suc src) in if m src == 0 then done m' else rest

pub strcpy : ℕ → Memory → ℕ → ℕ → Run (ℕ × Memory)
unfolding copy_string
strcpy fuel m dst src = do
  assert (not_null dst && not_null src)
  m' ← copy_string fuel m dst src
  done (dst, m')

-- `while (*p++)`: where `p` stands after the loop
pub past_end : ℕ → Memory → ℕ → Run ℕ
past_end zero m p = unfinished
past_end (suc fuel) m p =
    let rest = past_end fuel m (suc p) in if m p == 0 then done (suc p) else rest

pub strlen : ℕ → Memory → ℕ → Run ℕ
unfolding past_end
strlen fuel m str = do assert (not_null str); p ← past_end fuel m str; done ((p - str - 1) % 2 ^ 32)

-- `*a < *b ? -1 : *a > *b`
abbrev pub sign : ℕ → ℕ → ℤ
sign a b = if char_lt a b then negsuc 0 else if char_lt b a then pos 1 else pos 0

pub compare_strings : ℕ → Memory → ℕ → ℕ → Run ℤ
compare_strings zero m a b = unfinished
compare_strings (suc fuel) m a b =
    let rest = compare_strings fuel m (suc a) (suc b) in
    if not (m a == 0) && m a == m b then rest else done (sign (m a) (m b))

pub strcmp : ℕ → Memory → ℕ → ℕ → Run ℤ
unfolding compare_strings
strcmp fuel m a b = do assert (not_null a && not_null b); compare_strings fuel m a b

-- `none` is NULL.
pub find_char : ℕ → Memory → ℕ → ℕ → Run (Option ℕ)
find_char zero m str ch = unfinished
find_char (suc fuel) m str ch =
    let rest = find_char fuel m (suc str) ch in
    if m str == 0 then done none else if m str == ch then done (some str) else rest

pub strchr : ℕ → Memory → ℕ → ℕ → Run (Option ℕ)
unfolding find_char
strchr fuel m str ch = do assert (not_null str); find_char fuel m str ch

pub find_last : ℕ → Memory → ℕ → ℕ → Option ℕ → Run (Option ℕ)
find_last zero m str ch last_char = unfinished
find_last (suc fuel) m str ch last_char =
    let rest = find_last fuel m (suc str) ch (if m str == ch then some str else last_char) in
    if m str == 0 then done last_char else rest

pub strrchr : ℕ → Memory → ℕ → ℕ → Run (Option ℕ)
unfolding find_last
strrchr fuel m str ch = do assert (not_null str); find_last fuel m str ch none

pub strcat : ℕ → Memory → ℕ → ℕ → Run (ℕ × Memory)
unfolding past_end copy_string
strcat fuel m dst src = do
  assert (not_null dst && not_null src)
  p ← past_end fuel m dst
  m' ← copy_string fuel m (p - 1) src
  done (dst, m')

pub count_char : ℕ → Memory → ℕ → ℕ → ℕ → Run ℕ
count_char zero m p ch ch_cnt = unfinished
count_char (suc fuel) m p ch ch_cnt =
    let rest = count_char fuel m (suc p) ch (if m p == ch then (ch_cnt + 1) % 2 ^ 32 else ch_cnt) in
    if m p == 0 then done ch_cnt else rest

pub strchrs : ℕ → Memory → ℕ → ℕ → Run ℕ
unfolding count_char
strchrs fuel m str ch = do assert (not_null str); count_char fuel m str ch 0
