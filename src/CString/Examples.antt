-- ===== src/CString/Examples.antt =====
-- The theorems on impl/string.c at a small memory, and runs of the functions there.
use winx.Base.{ℕ, ◌≡◌, refl, ◌↔◌, some, List, [], ◌∷◌, arith, update, done, pos, negsuc}
use winx.CString.{Memory, strrchr, strcmp, memcmp}
use winx.CString.Holds.{Holds}
use winx.CString.Compare.{order, strcmp-order}

-- "/a/" at 16 and "b" at 32, NULs elsewhere
abbrev slashes : List ℕ
slashes = b'/' ∷ b'a' ∷ b'/' ∷ []

abbrev name : List ℕ
name = b'b' ∷ []

abbrev memory : Memory
memory = update (update (update (update (λ a. 0) 16 b'/') 17 b'a') 18 b'/') 32 b'b'

slashes-Holds : Holds memory 16 slashes
slashes-Holds = ground arith

name-Holds : Holds memory 32 name
name-Holds = ground arith

strrchr_finds : strrchr 9 memory 16 b'/' ≡ done (some 18)
unfolding strrchr
strrchr_finds = refl

memcmp_signed : memcmp (update memory 40 200) 40 32 1 ≡ done (negsuc 0)
unfolding memcmp
memcmp_signed = refl

strcmp-order_example :
    (strcmp 9 memory 16 32 ≡ done (order slashes name))
    × ((order slashes name ≡ pos 0) ↔ (slashes ≡ name))
strcmp-order_example =
    strcmp-order 9 memory 16 32 slashes name (omega arith) (omega arith) slashes-Holds name-Holds
      (omega arith)
