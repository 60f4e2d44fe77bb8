-- ===== src/Math/Examples.antt =====
-- The theorems on impl/math.c at small words, and runs.
use winx.Base.{◌+◌, ◌*◌, ◌/◌, ◌%◌, ◌^◌, ◌≡◌, refl, arith}
use winx.Math.{Divl, divide_rounds, divide_u64_u32, divide_u64_u32_no_mod, mod_u64_u32}
use winx.Math.Division.{IsDivl, division_lem}

-- a processor that divides
abbrev divl : Divl
divl high low v = ((high * 2 ^ 32 + low) / v, (high * 2 ^ 32 + low) % v)

divl-IsDivl : IsDivl divl
divl-IsDivl high low v h l = refl

stale_remainder : divide_u64_u32 0 1000 1 ≡ (18446744073709551, 616)
unfolding divide_u64_u32 divide_rounds
stale_remainder = refl

division_lem_example :
    (divide_u64_u32_no_mod 1000000000000 86400 ≡ 11574074)
    × (mod_u64_u32 1000000000000 86400 ≡ 6400)
division_lem_example = division_lem 1000000000000 86400 (omega arith) (omega arith)
