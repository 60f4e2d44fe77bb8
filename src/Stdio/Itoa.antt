-- ===== src/Stdio/Itoa.antt =====
-- `itoa` of impl/stdio.c prints the number.
use native.Mathlib.Nat.{mod-lt, div-add-mod', mul-le-mul_left, pow-suc}
use winx.Base.{
  ℕ, zero, suc, ◌+◌, ◌-◌, ◌*◌, ◌/◌, ◌%◌, ◌^◌, ◌≤◌, ◌<◌, ◌≡◌, refl, sym, ap, ap₂, ◌∙◌, ◌⊎◌, inl, inr,
  true, false, List, [], ◌∷◌, ◌++◌, arith, ltb, ◌==◌, if◌then◌else◌, Bool-cases, ==→eq, ne→==,
  update, slice, done,
}
use winx.CString.{Memory}
use winx.Stdio.{itoa, digit_char}

-- the value of a digit as a number above 9 has it, and of a text in a base, read from the left
abbrev pub digit : ℕ → ℕ
digit c = if ltb c 58 then c - 48 else c - 55

pub number : ℕ → ℕ → List ℕ → ℕ
number base so_far [] = so_far
number base so_far (c ∷ cs) = number base (so_far * base + digit c) cs

number-snoc :
    (base so_far : ℕ) (cs : List ℕ) (c : ℕ)
    → number base so_far (cs ++ c ∷ []) ≡ number base so_far cs * base + digit c
unfolding number
number-snoc base so_far [] c = refl
number-snoc base so_far (d ∷ cs) c = number-snoc base (so_far * base + digit d) cs c

digit-digit_char : (d : ℕ) → d < 36 → digit (digit_char d) ≡ d
digit-digit_char d small = ground arith

slice-update :
    (m : Memory) (p n a v : ℕ) → a ≡ p + n → slice (update m a v) p (suc n) ≡ slice m p n ++ v ∷ []
slice-update m p zero a v e = let here : (p == a) ≡ true = ground arith in rw here refl
slice-update m p (suc n) a v e =
    let apart : (p == a) ≡ false = ne→== p a (λ same. omega arith) in
    rw apart (ap (λ xs. m p ∷ xs) (slice-update m (suc p) n a v (omega arith)))

half-below : (value base n : ℕ) → 1 < base → value < 2 ^ suc n → value / base < 2 ^ n
half-below value base n two below =
    omega (arith, div-add-mod' value base, mul-le-mul_left (value / base) two, pow-suc 2 n)

-- the text of a number at `p`, and what is left alone
Printed : Memory → ℕ → ℕ → ℕ → Memory → ℕ → Type 0
Printed mem value p base mem' n =
    (number base 0 (slice mem' p n) ≡ value) × ((a : ℕ) → (a < p) ⊎ (p + n ≤ a) → mem' a ≡ mem a)

-- one more digit behind those of the quotient
append_digit :
    (mem mem' : Memory) (value p base n : ℕ)
    → 1 < base
    → base ≤ 36
    → Printed mem (value / base) p base mem' n
    → Printed mem value p base (update mem' (p + n) (digit_char (value % base))) (suc n)
unfolding Printed
append_digit mem mem' value p base n two most (text, kept) =
    let low : value % base < base = mod-lt value (omega arith) in
    let c = digit_char (value % base) in
    (
      ap (number base 0) (slice-update mem' p n (p + n) c refl)
          ∙ number-snoc base 0 (slice mem' p n) c
          ∙ ap₂ (λ q d. q * base + d) text (digit-digit_char (value % base) (omega arith))
          ∙ div-add-mod' value base,
      λ a outside.
          let apart : (a == p + n) ≡ false = ne→== a (p + n) (λ same. omega (arith, outside)) in
          rw apart (kept a (elim outside [ inl l ↦ inl l | inr g ↦ inr (omega arith) ])),
    )

none_before :
    (mem : Memory) (value p base : ℕ) → value / base ≡ 0 → Printed mem (value / base) p base mem 0
unfolding Printed number
none_before mem value p base e = (sym e, λ a outside. refl)

fuel-pos : (fuel q : ℕ) → 0 < q → q < 2 ^ fuel → 0 < fuel
fuel-pos zero q some_left below = absurd (omega arith)
fuel-pos (suc fuel) q some_left below = omega arith

-- With fuel for the number's bits, which for a uint32_t are 32, and in a base from 2 to 36, `itoa`
-- ends: from the pointer on it writes at least one and at most as many characters as there are
-- bits, which read in that base are the number, and changes no other byte.
pub itoa_lem :
    (fuel : ℕ) (mem : Memory) (value p base : ℕ)
    → 1 < base
    → base ≤ 36
    → 0 < fuel
    → value < 2 ^ fuel
    → (mem' : Memory) × (n : ℕ) × (itoa fuel mem value p base ≡ done (mem', p + n))
      × (0 < n)
      × (n ≤ fuel)
      × (number base 0 (slice mem' p n) ≡ value)
      × ((a : ℕ) → (a < p) ⊎ (p + n ≤ a) → mem' a ≡ mem a)
unfolding itoa Printed
itoa_lem zero mem value p base two most first below = absurd (omega arith)
itoa_lem (suc fuel) mem value p base two most first below =
    let c = digit_char (value % base) in
    elim (Bool-cases (value / base == 0)) [
      | inl single ↦
          let (text, kept) =
            append_digit mem mem value p base 0 two most
              (none_before mem value p base (==→eq _ _ single)) in
          (
            update mem (p + 0) c,
            1,
            rw single (ap (λ q. done (update mem q c, p + 1)) (omega arith)),
            omega arith,
            omega arith,
            text,
            kept,
          )
      | inr more ↦
          let half = half-below value base fuel two below in
          let some_left : 0 < value / base = ground arith in
          let (mem', n, e, some_text, few, digits, same) =
            itoa_lem fuel mem (value / base) p base two most (fuel-pos fuel _ some_left half)
              half in
          let (text, kept) = append_digit mem mem' value p base n two most (digits, same) in
          (
            update mem' (p + n) c,
            suc n,
            rw (more, e) (ap (λ q. done (update mem' (p + n) c, q)) (omega arith)),
            omega arith,
            omega arith,
            text,
            kept,
          )
    ]
