-- ===== src/Bitmap.antt =====
-- kernel/bitmap.c. `bits` is the memory from the pointer on, so that an index past the map reads
-- and writes what lies behind it. Bit indices are uint32_t.
pub mod Laws
pub mod Scan
pub mod Taking
mod Examples
use winx.Base.{
  ℕ, zero, suc, ◌+◌, ◌-◌, ◌*◌, ◌/◌, ◌%◌, ◌^◌, ◌≤◌, ◌<◌, min, bit_and, bit_or, ◌≡◌, refl, sym, ap,
  ap₂, subst, ◌∙◌, fun_ext, ◌≢◌, ◌↔◌, ◌⊎◌, inl, inr, Bool, true, false, not, ◌&&◌, ◌||◌, Option,
  none, some, List, [], ◌∷◌, ◌++◌, arith, ltb, leb, ◌==◌, if◌then◌else◌, Bool-cases, Option-cases,
  ==→eq, ==-refl, ne→==, lt→ltb, le→ltb, length, get_or, length-append, update, slice, Run, done,
  halted, unfinished, ◌>>=◌, ◌>>◌, assert, le→leb, lt→leb, leb→le, leb→lt, ltb→lt, ltb→le, Ends,
  Ends->>=, Ends-assert, Ends-any, ℤ, pos, negsuc,
}
use winx.Base.Bits.{bit, bit_on, bit_off}
use winx.CString.{Memory, fill}

pub record Bitmap : Type 0 where
  pub btmp_bytes_len : ℕ
  pub bits : Memory

pub init : Bitmap → Bitmap
unfolding fill
init btmp = record btmp { bits = fill 0 0 btmp.bits btmp.btmp_bytes_len }

unfoldable pub scan_test : Bitmap → ℕ → Bool
scan_test btmp bit_idx = bit (btmp.bits (bit_idx / 8)) (bit_idx % 8)

-- `while (scan_test(area_start) && area_start / 8 < len) area_start++;`
pub skip_used : ℕ → Bitmap → ℕ → Run ℕ
skip_used zero btmp area_start = unfinished
skip_used (suc fuel) btmp area_start =
    let rest = skip_used fuel btmp ((area_start + 1) % 2 ^ 32) in
    if scan_test btmp area_start && ltb (area_start / 8) btmp.btmp_bytes_len
    then rest
    else done area_start

-- How the inner loop ends: at `break` or at its test with the size so far, or by `return -1`.
pub data Area : Type 0 where
  sized : ℕ → Area
  exhausted : Area

pub grow_area : ℕ → Bitmap → ℕ → ℕ → ℕ → Run Area
grow_area zero btmp cnt area_start area_size = unfinished
grow_area (suc fuel) btmp cnt area_start area_size =
    let rest = grow_area fuel btmp cnt area_start ((area_size + 1) % 2 ^ 32) in
    let next = (area_start + area_size) % 2 ^ 32 in
    if ltb area_size cnt
    then (if ltb (next / 8) btmp.btmp_bytes_len
        then (if scan_test btmp next then done (sized area_size) else rest)
        else done exhausted)
    else done (sized area_size)

-- `none` is the result -1.
pub scan_from : ℕ → Bitmap → ℕ → ℕ → Run (Option ℕ)
scan_from zero btmp cnt area_start = unfinished
scan_from (suc fuel) btmp cnt area_start = skip_used (suc fuel) btmp area_start >>= λ free.
    if leb btmp.btmp_bytes_len (free / 8)
    then done none
    else (grow_area (suc fuel) btmp cnt free 1 >>= elim [
      | exhausted ↦ done none
      | sized area_size ↦
          let rest = scan_from fuel btmp cnt ((free + (area_size + 1)) % 2 ^ 32) in
          if area_size == cnt then done (some free) else rest
    ])

-- enough rounds for every bit of the map, and one to see its end
abbrev pub rounds : Bitmap → ℕ
rounds btmp = 8 * btmp.btmp_bytes_len + 2

pub scan : Bitmap → ℕ → Run (Option ℕ)
unfolding scan_from skip_used grow_area
scan btmp cnt = scan_from (rounds btmp) btmp cnt 0

pub set : Bitmap → ℕ → ℕ → Run Bitmap
set btmp bit_idx value = do
  assert (value == 0 || value == 1)
  let byte_idx = bit_idx / 8
  let bit_odd = bit_idx % 8
  let old = btmp.bits byte_idx
  done (record btmp {
    bits =
        update btmp.bits byte_idx (if value == 0 then bit_off old bit_odd else bit_on old bit_odd);
  })
