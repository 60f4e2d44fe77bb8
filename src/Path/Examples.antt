-- ===== src/Path/Examples.antt =====
-- `path_parse` at the path `//ab/c`.
use winx.Base.{
  ℕ, zero, suc, ◌+◌, ◌<◌, ◌≡◌, refl, ◌≢◌, inr, none, some, [], ◌∷◌, arith, ◌==◌, if◌then◌else◌,
  get_or, done,
}
use winx.CString.{Memory, copy}
use winx.Path.{path_parse}
use winx.Path.Component.{IsComponent, path_parse_lem}

abbrev path : Memory
path a = get_or (47 ∷ 47 ∷ 97 ∷ 98 ∷ 47 ∷ 99 ∷ []) a 0

name-IsComponent : IsComponent path 2 2
name-IsComponent = record {
  no_slash = λ i h. no_byte 47 (λ e. omega arith) (λ e. omega arith) i h;
  no_nul = λ i h. no_byte 0 (λ e. omega arith) (λ e. omega arith) i h;
  ends = inr refl;
}
  where
    no_byte : (c : ℕ) → 97 ≢ c → 98 ≢ c → (i : ℕ) → i < 2 → path (2 + i) ≢ c
    no_byte c a b zero h = a
    no_byte c a b (suc zero) h = b
    no_byte c a b (suc (suc i)) h = absurd (omega arith)

path_parse_lem_example :
    path_parse 9 path 0 100 ≡ done (copy 100 2 path 2, (if path 4 == 0 then none else some 4))
path_parse_lem_example =
    path_parse_lem 9 path 0 2 2 100 (omega arith) slashes (λ e. omega arith) name-IsComponent
      (inr (omega arith))
  where
    slashes : (i : ℕ) → i < 2 → path (0 + i) ≡ 47
    slashes zero h = refl
    slashes (suc zero) h = refl
    slashes (suc (suc i)) h = absurd (omega arith)
