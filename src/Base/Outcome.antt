-- ===== src/Base/Outcome.antt =====
-- What a call comes to: a result, a failed ASSERT or PANIC, or a model that ran out of fuel.
use mathlib.Core.Path.{◌≡◌, refl}
use mathlib.Core.Bool.{Bool, true, false}

pub data Run {ℓ} (A : Type ℓ) : Type ℓ where
  done : A → Run A
  halted : Run A
  unfinished : Run A

infixl 5 ◌>>=◌ ◌>>◌
abbrev pub ◌>>=◌ {ℓ κ} : {A : Type ℓ} {B : Type κ} (m : Run A) (next : A → Run B) → Run B
halted >>= next = halted
unfinished >>= next = unfinished
done a >>= next = next a

abbrev pub ◌>>◌ {ℓ} : {B : Type ℓ} (first : Run (Unit {0})) (next : Run B) → Run B
first >> next = first >>= λ _. next

-- `ASSERT(cond)`
abbrev pub assert : Bool → Run (Unit {0})
assert true = done tt
assert false = halted

-- A run that comes to a result comes to one with the property.
abbrev pub Ends {ℓ κ} : {A : Type ℓ} (P : A → Type κ) → Run A → Type κ
Ends P (done a) = P a
Ends P halted = Unit
Ends P unfinished = Unit

pub Ends->>= {ℓ κ μ ν} :
    {A : Type ℓ} {B : Type κ} (P : A → Type μ) (Q : B → Type ν) (m : Run A) (next : A → Run B)
    → Ends P m
    → ((a : A) → P a → Ends Q (next a))
    → Ends Q (m >>= next)
Ends->>= P Q (done a) next p q = q a p
Ends->>= P Q halted next p q = tt
Ends->>= P Q unfinished next p q = tt

module _ {ℓ κ} {B : Type ℓ} (P : B → Type κ) where
  pub Ends-assert : (b : Bool) (m : Run B) → (b ≡ true → Ends P m) → Ends P (assert b >> m)
  Ends-assert true m p = p refl
  Ends-assert false m p = tt

  pub Ends-any {μ} :
      {A : Type μ} (m : Run A) (next : A → Run B)
      → ((a : A) → Ends P (next a))
      → Ends P (m >>= next)
  Ends-any (done a) next p = p a
  Ends-any halted next p = tt
  Ends-any unfinished next p = tt
