-- ===== src/Stdio/Examples.antt =====
-- `itoa` at a number in base 16.
use winx.Base.{ℕ, ◌+◌, ◌≤◌, ◌<◌, ◌≡◌, ◌⊎◌, arith, slice, done}
use winx.CString.{Memory}
use winx.Stdio.{itoa}
use winx.Stdio.Itoa.{number, itoa_lem}

abbrev blank : Memory
blank a = 0

itoa_lem_example :
    (mem' : Memory) × (n : ℕ) × (itoa 32 blank 0x19870916 100 16 ≡ done (mem', 100 + n))
    × (0 < n)
    × (n ≤ 32)
    × (number 16 0 (slice mem' 100 n) ≡ 0x19870916)
    × ((a : ℕ) → (a < 100) ⊎ (100 + n ≤ a) → mem' a ≡ blank a)
itoa_lem_example =
    itoa_lem 32 blank 0x19870916 100 16 (omega arith) (omega arith) (omega arith) (omega arith)
