-- ===== src/Base/Memory.antt =====
-- Memory as a function from addresses, or the cells of an array from its indices.
use Prim.Native.Nat.{ℕ, zero, suc}
use mathlib.Core.List.{List, [], ◌∷◌}
use winx.Base.Tests.{◌==◌, if◌then◌else◌}

module _ {ℓ} {A : Type ℓ} where
  abbrev pub update : (ℕ → A) → ℕ → A → ℕ → A
  update m a v b = if b == a then v else m b

  -- the `n` cells from `a` on
  abbrev pub slice : (ℕ → A) → ℕ → ℕ → List A
  slice m a zero = []
  slice m a (suc n) = m a ∷ slice m (suc a) n
