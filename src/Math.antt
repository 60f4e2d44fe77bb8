-- ===== src/Math.antt =====
-- impl/math.c: division of 64-bit words without the compiler's support routines. The subtraction
-- runs only where the divisor is at most the remainder, so it cannot wrap.
pub mod Division
mod Examples
use winx.Base.{
  ℕ, zero, suc, ◌+◌, ◌-◌, ◌*◌, ◌/◌, ◌%◌, ◌^◌, ◌≤◌, ◌<◌, min, bit_and, bit_or, ◌≡◌, refl, sym, ap,
  ap₂, subst, ◌∙◌, fun_ext, ◌≢◌, ◌↔◌, ◌⊎◌, inl, inr, Bool, true, false, not, ◌&&◌, ◌||◌, Option,
  none, some, List, [], ◌∷◌, ◌++◌, arith, ltb, leb, ◌==◌, if◌then◌else◌, Bool-cases, Option-cases,
  ==→eq, ==-refl, ne→==, lt→ltb, le→ltb, length, get_or, length-append, update, slice, Run, done,
  halted, unfinished, ◌>>=◌, ◌>>◌, assert, ℤ, pos, negsuc,
}

-- One step of the loop: bit `i` of the dividend goes into the remainder.
abbrev pub shifted : ℕ → ℕ → ℕ → ℕ
shifted dividend remainder i = bit_or ((remainder * 2) % 2 ^ 64) ((dividend / 2 ^ i) % 2)

-- `for (i = 63; i >= 0; i--)`, with the number of rounds left: the quotient and the remainder
pub divide_rounds : ℕ → ℕ → ℕ → ℕ → ℕ → ℕ × ℕ
divide_rounds zero dividend divisor remainder quotient = (quotient, remainder)
divide_rounds (suc i) dividend divisor remainder quotient =
    let next = shifted dividend remainder i in
    let fits = leb divisor next in
    divide_rounds i dividend divisor (if fits then next - divisor else next)
      (if fits then bit_or quotient (2 ^ i) else quotient)

-- The remainder comes in through the pointer, and the loop starts from what it finds there.
pub divide_u64_u32 : ℕ → ℕ → ℕ → ℕ × ℕ
divide_u64_u32 dividend divisor remainder =
    if divisor == 0 then (0, remainder) else divide_rounds 64 dividend divisor remainder 0

unfoldable pub divide_u64_u32_no_mod : ℕ → ℕ → ℕ
divide_u64_u32_no_mod dividend divisor =
    if divisor == 0 then 0 else (divide_rounds 64 dividend divisor 0 0).0

unfoldable pub mod_u64_u32 : ℕ → ℕ → ℕ
mod_u64_u32 dividend divisor = if divisor == 0 then 0 else (divide_rounds 64 dividend divisor 0 0).1

-- What the processor's `divl` returns for the high and low word and the divisor: the quotient and
-- the remainder. It is a parameter.
abbrev pub Divl : Type 0
Divl = ℕ → ℕ → ℕ → ℕ × ℕ

-- The union is written as its two halves: the high one of the result is set before the `divl`.
unfoldable pub div_u64_rem : Divl → ℕ → ℕ → ℕ × ℕ
div_u64_rem divl dividend divisor =
    let upper = dividend / 2 ^ 32 in
    let large = leb divisor upper in
    let (low, remainder) =
      divl (if large then upper % divisor else upper) (dividend % 2 ^ 32) divisor in
    ((if large then upper / divisor else 0) * 2 ^ 32 + low, remainder)
