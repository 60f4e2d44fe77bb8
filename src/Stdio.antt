-- ===== src/Stdio.antt =====
-- impl/stdio.c: numbers as text. `itoa` writes into the memory of CString from the pointer on, which
-- it moves.
pub mod Itoa
mod Examples
use winx.Base.{
  ℕ, zero, suc, ◌+◌, ◌-◌, ◌*◌, ◌/◌, ◌%◌, ◌^◌, ◌≤◌, ◌<◌, min, bit_and, bit_or, ◌≡◌, refl, sym, ap,
  ap₂, subst, ◌∙◌, fun_ext, ◌≢◌, ◌↔◌, ◌⊎◌, inl, inr, Bool, true, false, not, ◌&&◌, ◌||◌, Option,
  none, some, List, [], ◌∷◌, ◌++◌, arith, ltb, leb, ◌==◌, if◌then◌else◌, Bool-cases, Option-cases,
  ==→eq, ==-refl, ne→==, lt→ltb, le→ltb, length, get_or, length-append, update, slice, Run, done,
  halted, unfinished, ◌>>=◌, ◌>>◌, assert, ℤ, pos, negsuc, le→leb, lt→leb, leb→le, leb→lt, ltb→lt,
  ltb→le, Ends, Ends->>=, Ends-assert, Ends-any,
}
use winx.CString.{Memory}

-- `m < 10 ? m + '0' : m - 10 + 'A'`, stored in a char
abbrev pub digit_char : ℕ → ℕ
digit_char m = if ltb m 10 then m + 48 else (m - 10 + 65) % 2 ^ 8

-- The memory and the pointer behind the text.
pub itoa : ℕ → Memory → ℕ → ℕ → ℕ → Run (Memory × ℕ)
itoa zero mem value buf_ptr base = unfinished
itoa (suc fuel) mem value buf_ptr base =
    let m = value % base in
    let i = value / base in
    let rest = itoa fuel mem i buf_ptr base in
    (if i == 0 then done (mem, buf_ptr) else rest) >>= λ (mem', ptr).
    done (update mem' ptr (digit_char m), ptr + 1)
