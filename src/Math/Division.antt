-- ===== src/Math/Division.antt =====
-- The division routines of impl/math.c divide.
use native.Mathlib.Nat.{
  pow-suc, div-eq_of_lt-le, mod-lt, div-add-mod', one-le-pow, div-div-eq-div-mul,
}
use winx.Base.{
  ℕ, zero, suc, ◌+◌, ◌-◌, ◌*◌, ◌/◌, ◌%◌, ◌^◌, ◌≤◌, ◌<◌, bit_or, ◌≡◌, refl, sym, ap, subst, ◌∙◌, inl,
  inr, Bool, false, arith, leb, ◌==◌, if◌then◌else◌, Bool-cases,
}
use winx.Base.Words.{bit_or-shifted}
use winx.Math.{
  shifted, divide_rounds, divide_u64_u32, divide_u64_u32_no_mod, mod_u64_u32, Divl, div_u64_rem,
}

half-pow : (d i : ℕ) → d / 2 ^ suc i ≡ d / 2 ^ i / 2
half-pow d i = rw pow-suc (sym (div-div-eq-div-mul d (2 ^ i) 2))

-- The word shifted in is twice the remainder and the next bit: nothing is lost.
shifted-sum : (d r i : ℕ) → r < 2 ^ 63 → shifted d r i ≡ r * 2 + (d / 2 ^ i) % 2
shifted-sum d r i small =
    let wrap : (r * 2) % 2 ^ 64 ≡ r * 2 ^ 1 = omega arith in
    rw wrap (bit_or-shifted 1 r ((d / 2 ^ i) % 2) (omega arith) ∙ omega arith)

-- what the rounds leave
abbrev Divides : ℕ → ℕ → ℕ × ℕ → Type 0
Divides d v (q, r) = (d ≡ q * v + r) × (r < v)

pow-pos : (i : ℕ) → 0 < 2 ^ i
pow-pos i = one-le-pow i 2 (omega arith)

-- The quotient bit goes into a place that is still free.
quotient-bit : (q i : ℕ) → bit_or (q * 2 ^ suc i) (2 ^ i) ≡ (2 * q + 1) * 2 ^ i
quotient-bit q i =
    bit_or-shifted (suc i) q (2 ^ i) (omega (arith, pow-suc 2 i, pow-pos i))
    ∙ omega (arith, ap (λ (t : ℕ). q * t) (pow-suc 2 i))

quotient-shift : (q i : ℕ) → q * 2 ^ suc i ≡ (2 * q) * 2 ^ i
quotient-shift q i = omega (arith, ap (λ (t : ℕ). q * t) (pow-suc 2 i))

abbrev round : (i d v r q : ℕ) → Bool → ℕ × ℕ
round i d v r q fits =
    divide_rounds i d v (if fits then shifted d r i - v else shifted d r i)
      (if fits then bit_or q (2 ^ i) else q)

divide_rounds-suc :
    (i d v r q : ℕ) {b : Bool}
    → leb v (shifted d r i) ≡ b
    → divide_rounds (suc i) d v r q ≡ round i d v r q b
unfolding divide_rounds
divide_rounds-suc i d v r q h = ap (round i d v r q) h

divide_rounds-zero : (d v r q : ℕ) → divide_rounds zero d v r q ≡ (q, r)
unfolding divide_rounds
divide_rounds-zero d v r q = refl

-- Before the round for bit `i` the higher bits of the dividend have been divided.
divide_rounds-Divides :
    (i d v r q : ℕ)
    → v ≤ 2 ^ 32
    → r < v
    → d / 2 ^ i ≡ q * v + r
    → Divides d v (divide_rounds i d v r (q * 2 ^ i))
divide_rounds-Divides zero d v r q small lt e =
    subst (Divides d v) (sym (divide_rounds-zero d v r (q * 2 ^ 0))) (omega (arith, e), lt)
divide_rounds-Divides (suc i) d v r q small lt e =
    let next : shifted d r i ≡ r * 2 + (d / 2 ^ i) % 2 = shifted-sum d r i (omega arith) in
    elim (Bool-cases (leb v (shifted d r i))) [
      | inl fits ↦ subst (Divides d v) (sym (divide_rounds-suc i d v r (q * 2 ^ suc i) fits)) (
          rw (quotient-bit q i) (
            divide_rounds-Divides i d v (shifted d r i - v) (2 * q + 1) small (ground (arith, next))
              (ground (arith, next, half-pow d i))))
      | inr less ↦ subst (Divides d v) (sym (divide_rounds-suc i d v r (q * 2 ^ suc i) less)) (
          rw (quotient-shift q i) (
            divide_rounds-Divides i d v (shifted d r i) (2 * q) small (ground arith)
              (ground (arith, next, half-pow d i))))
    ]

Divides-unique : (d v : ℕ) (p : ℕ × ℕ) → Divides d v p → p ≡ (d / v, d % v)
Divides-unique d v (q, r) h =
    let e : d / v ≡ q = div-eq_of_lt-le v (omega arith) (omega arith) in
    let e' : d % v ≡ r = omega (arith, div-add-mod' d v, ap (λ (t : ℕ). t * v) e) in ground arith

divide_rounds_lem :
    (d v : ℕ) → 0 < v → v ≤ 2 ^ 32 → d < 2 ^ 64 → divide_rounds 64 d v 0 0 ≡ (d / v, d % v)
divide_rounds_lem d v p small lt =
    Divides-unique d v (divide_rounds 64 d v 0 0)
      (divide_rounds-Divides 64 d v 0 0 small p (omega arith))

-- For a dividend of 64 bits and a divisor of 32 that is not 0, `divide_u64_u32_no_mod` is the
-- quotient and `mod_u64_u32` the remainder; for the divisor 0 both return 0.
pub division_lem :
    (d v : ℕ)
    → d < 2 ^ 64
    → v < 2 ^ 32
    → (divide_u64_u32_no_mod d v ≡ (if v == 0 then 0 else d / v))
      × (mod_u64_u32 d v ≡ (if v == 0 then 0 else d % v))
unfolding divide_u64_u32_no_mod mod_u64_u32
division_lem d v hd hv = elim (Bool-cases (v == 0)) [
  | inl z ↦ ground arith
  | inr nz ↦
      let e = divide_rounds_lem d v (ground arith) (omega arith) hd in (rw (nz, e), rw (nz, e))
]

-- `divide_u64_u32` returns quotient and remainder where the caller's remainder is 0 at the call.
pub divide_u64_u32_lem :
    (d v : ℕ) → 0 < v → v < 2 ^ 32 → d < 2 ^ 64 → divide_u64_u32 d v 0 ≡ (d / v, d % v)
unfolding divide_u64_u32
divide_u64_u32_lem d v p small lt =
    let nz : (v == 0) ≡ false = ground arith in rw nz (divide_rounds_lem d v p (omega arith) lt)

-- what the processor documents of `divl`: a quotient that fits is returned with its remainder
abbrev pub IsDivl : Divl → Type 0
IsDivl divl =
    (high low v : ℕ)
    → high < v
    → low < 2 ^ 32
    → divl high low v ≡ ((high * 2 ^ 32 + low) / v, (high * 2 ^ 32 + low) % v)

-- Dividing the high word first and the rest after it divides the whole.
long-Divides :
    (d v : ℕ)
    → 0 < v
    → let rest = d / 2 ^ 32 % v * 2 ^ 32 + d % 2 ^ 32 in
      Divides d v (d / 2 ^ 32 / v * 2 ^ 32 + rest / v, rest % v)
long-Divides d v p =
    let rest : ℕ = d / 2 ^ 32 % v * 2 ^ 32 + d % 2 ^ 32 in
    let inner = div-add-mod' rest v in
    let outer = ap (λ (t : ℕ). t * 2 ^ 32) (div-add-mod' (d / 2 ^ 32) v) in
    (omega (arith, inner, outer), mod-lt rest p)

-- With a processor's `divl`, `div_u64_rem` returns the quotient and the remainder of the division.
pub div_u64_rem_lem :
    (divl : Divl) (d v : ℕ) → IsDivl divl → 0 < v → div_u64_rem divl d v ≡ (d / v, d % v)
unfolding div_u64_rem
div_u64_rem_lem divl d v h p = elim (Bool-cases (leb v (d / 2 ^ 32))) [
  | inl large ↦
      let e = h (d / 2 ^ 32 % v) (d % 2 ^ 32) v (mod-lt (d / 2 ^ 32) p) (omega arith) in
      rw (large, e, Divides-unique d v _ (long-Divides d v p))
  | inr less ↦
      let e = h (d / 2 ^ 32) (d % 2 ^ 32) v (ground arith) (omega arith) in
      let whole : d / 2 ^ 32 * 2 ^ 32 + d % 2 ^ 32 ≡ d = omega arith in
      rw (less, e, whole) (ground arith)
]
