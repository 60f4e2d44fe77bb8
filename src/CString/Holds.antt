-- ===== src/CString/Holds.antt =====
-- What it means that a memory holds a NUL-terminated string.
use winx.Base.{ℕ, suc, ◌<◌, ◌≡◌, ◌≢◌, List, [], ◌∷◌}
use winx.CString.{Memory}

-- from `p` on stand the bytes `s`, none of them NUL, then a NUL
abbrev pub Holds : Memory → ℕ → List ℕ → Type 0
Holds m p [] = m p ≡ 0
Holds m p (c ∷ s) = (m p ≡ c) × (c ≢ 0) × (c < 256) × Holds m (suc p) s

abbrev pub Without : ℕ → List ℕ → Type 0
Without ch [] = Unit
Without ch (c ∷ s) = (c ≢ ch) × Without ch s
