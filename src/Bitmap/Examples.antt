-- ===== src/Bitmap/Examples.antt =====
-- The theorems on kernel/bitmap.c at a map of one byte, and runs.
use winx.Base.{ℕ, ◌≡◌, refl, Option, none, some, arith, ◌==◌, if◌then◌else◌, done, halted}
use winx.Bitmap.{Bitmap, scan_test, scan, set}
use winx.Bitmap.Laws.{IsBytes, set-halted}
use winx.Bitmap.Scan.{IsFirstRun, scan_lem}

-- bits 0, 1 and 3 are used, and so is all that lies behind the map
abbrev btmp : Bitmap
btmp = record { btmp_bytes_len = 1; bits = λ a. if a == 0 then 11 else 255 }

btmp-IsBytes : IsBytes btmp
btmp-IsBytes a = ground arith

scan_runs :
    (scan btmp 1 ≡ done (some 2)) × (scan btmp 4 ≡ done (some 4)) × (scan btmp 5 ≡ done none)
unfolding scan scan_test
scan_runs = (refl, refl, refl)

scan_lem_example : (r : Option ℕ) × (scan btmp 2 ≡ done r) × IsFirstRun btmp 2 r
scan_lem_example = scan_lem btmp 2 (omega arith) (omega arith)

set-halted_example : set btmp 3 255 ≡ halted
set-halted_example = set-halted btmp 3 255 (omega arith)
