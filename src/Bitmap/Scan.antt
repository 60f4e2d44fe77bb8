-- ===== src/Bitmap/Scan.antt =====
-- `bitmap_scan` of kernel/bitmap.c finds the first run of free bits.
use winx.Base.{
  ℕ, zero, suc, ◌+◌, ◌-◌, ◌/◌, ◌%◌, ◌^◌, ◌≤◌, ◌<◌, ◌≡◌, refl, sym, subst, inl, inr, Bool, true,
  false, Option, none, some, arith, ltb, leb, ◌==◌, Bool-cases, ==-refl, done,
}
use winx.Bitmap.{
  rounds, scan, exhausted, sized, Area, scan_from, grow_area, Bitmap, scan_test, skip_used,
}
use winx.Bitmap.Laws.{total_bits}

-- the bits `p .. q-1` are all used, or all free
abbrev pub AllAre : Bool → Bitmap → ℕ → ℕ → Type 0
AllAre used btmp p q = (i : ℕ) → p ≤ i → i < q → scan_test btmp i ≡ used

-- `cnt` free bits in a row from `p` on, inside the map
abbrev pub IsRun : Bitmap → ℕ → ℕ → Type 0
IsRun btmp cnt p = (p + cnt ≤ total_bits btmp) × AllAre false btmp p (p + cnt)

skip_used_lem :
    (fuel : ℕ) (btmp : Bitmap) (a : ℕ)
    → btmp.btmp_bytes_len ≤ 2 ^ 28
    → a ≤ total_bits btmp
    → total_bits btmp - a < fuel
    → (r : ℕ) × (skip_used fuel btmp a ≡ done r)
      × (a ≤ r)
      × (r ≤ total_bits btmp)
      × AllAre true btmp a r
      × (r < total_bits btmp → scan_test btmp r ≡ false)
unfolding skip_used
skip_used_lem zero btmp a small h f = absurd (omega arith)
skip_used_lem (suc fuel) btmp a small h f = elim (Bool-cases (ltb (a / 8) btmp.btmp_bytes_len)) [
  | inr out ↦ (a, ground arith, omega arith, h, λ i l u. absurd (omega arith), λ lt. ground arith)
  | inl ok ↦ elim (Bool-cases (scan_test btmp a)) [
    | inr free ↦ (a, ground arith, omega arith, h, λ i l u. absurd (omega arith), λ lt. free)
    | inl used ↦
        let wrap : (a + 1) % 2 ^ 32 ≡ a + 1 = ground arith in
        let (r, e, l, u, all, last) =
          skip_used_lem fuel btmp (a + 1) small (ground arith) (ground arith) in
        (r, rw (used, ok, wrap) e, omega arith, u, λ i l u. ground (arith, all i), last)
  ]
]

-- what the inner loop has found from the free bit `start` on
data Grown (btmp : Bitmap) (cnt start : ℕ) : Area → Type 0 where
  short : total_bits btmp < start + cnt → Grown btmp cnt start exhausted
  full : IsRun btmp cnt start → Grown btmp cnt start (sized cnt)
  broken :
      (k : ℕ)
      → k < cnt
      → 0 < k
      → start + k < total_bits btmp
      → scan_test btmp (start + k) ≡ true
      → Grown btmp cnt start (sized k)

grow_area_lem :
    (fuel : ℕ) (btmp : Bitmap) (cnt start size : ℕ)
    → btmp.btmp_bytes_len ≤ 2 ^ 28
    → 0 < size
    → size ≤ cnt
    → start + size ≤ total_bits btmp
    → AllAre false btmp start (start + size)
    → total_bits btmp - (start + size) < fuel
    → (r : Area) × (grow_area fuel btmp cnt start size ≡ done r) × Grown btmp cnt start r
unfolding grow_area
grow_area_lem zero btmp cnt start size small p c t all f = absurd (omega arith)
grow_area_lem (suc fuel) btmp cnt start size small p c t all f = elim (Bool-cases (ltb size cnt)) [
  | inr done' ↦
      let e : size ≡ cnt = ground arith in
      (
        sized size,
        rw done',
        subst (λ k. Grown btmp cnt start (sized k)) (sym e) (full (rw (← e) (t, all))),
      )
  | inl more ↦
      let wrap : (start + size) % 2 ^ 32 ≡ start + size = ground arith in
      elim (Bool-cases (ltb ((start + size) / 8) btmp.btmp_bytes_len)) [
        | inr out ↦ (exhausted, rw (more, wrap, out), short (ground arith))
        | inl ok ↦ elim (Bool-cases (scan_test btmp (start + size))) [
          | inl used ↦ (
            sized size,
            rw (more, wrap, ok, used),
            broken size (ground arith) p (ground arith) used,
          )
          | inr free ↦
              let wrap' : (size + 1) % 2 ^ 32 ≡ size + 1 = ground arith in
              let (r, e, g) =
                grow_area_lem fuel btmp cnt start (size + 1) small (omega arith) (ground arith)
                  (ground arith) (λ i l u. ground (arith, all i)) (ground arith) in
              (r, ground arith, g)
        ]
      ]
]

abbrev NoRunBefore : Bitmap → ℕ → ℕ → Type 0
NoRunBefore btmp cnt a = (p : ℕ) → p < a → ¬ IsRun btmp cnt p

-- the first run, or none at all
abbrev pub IsFirstRun : Bitmap → ℕ → Option ℕ → Type 0
IsFirstRun btmp cnt none = (p : ℕ) → ¬ IsRun btmp cnt p
IsFirstRun btmp cnt (some p) = IsRun btmp cnt p × ((q : ℕ) → q < p → ¬ IsRun btmp cnt q)

-- A run cannot begin among used bits.
skip-NoRunBefore :
    (btmp : Bitmap) (cnt a r : ℕ)
    → 0 < cnt
    → NoRunBefore btmp cnt a
    → AllAre true btmp a r
    → NoRunBefore btmp cnt r
skip-NoRunBefore btmp cnt a r c before used p lt run = elim (Bool-cases (ltb p a)) [
  | inl old ↦ before p (ground arith) run
  | inr new ↦ ground (arith, used p, run.1 p)
]

broken-NoRunBefore :
    (btmp : Bitmap) (cnt r k : ℕ)
    → k < cnt
    → NoRunBefore btmp cnt r
    → scan_test btmp (r + k) ≡ true
    → NoRunBefore btmp cnt (r + (k + 1))
broken-NoRunBefore btmp cnt r k c before used p lt run = elim (Bool-cases (ltb p r)) [
  | inl old ↦ before p (ground arith) run
  | inr new ↦ ground (arith, run.1 (r + k))
]

first_free :
    (btmp : Bitmap) (free : ℕ) → scan_test btmp free ≡ false → AllAre false btmp free (free + 1)
first_free btmp free h i l u = let e : i ≡ free = omega arith in rw e h

abbrev FromRound : ℕ → Bitmap → ℕ → ℕ → Type 0
FromRound fuel btmp cnt a =
    (r : Option ℕ) × (scan_from fuel btmp cnt a ≡ done r) × IsFirstRun btmp cnt r

module _ (fuel : ℕ) (btmp : Bitmap) (cnt a free : ℕ) (c : 0 < cnt)
    (e : skip_used (suc fuel) btmp a ≡ done free) (before : NoRunBefore btmp cnt free) where
  past_end-FromRound : leb btmp.btmp_bytes_len (free / 8) ≡ true → FromRound (suc fuel) btmp cnt a
  unfolding scan_from
  past_end-FromRound out = (none, rw (e, out), λ p run. before p (ground (arith, run.0)) run)

  -- what the round does with the area that begins at `free`
  area-FromRound :
      (r : Area)
      → leb btmp.btmp_bytes_len (free / 8) ≡ false
      → grow_area (suc fuel) btmp cnt free 1 ≡ done r
      → Grown btmp cnt free r
      → ((k : ℕ)
          → k < cnt
          → 0 < k
          → r ≡ sized k
          → free + k < total_bits btmp
          → scan_test btmp (free + k) ≡ true
          → FromRound fuel btmp cnt ((free + (k + 1)) % 2 ^ 32))
      → FromRound (suc fuel) btmp cnt a
  unfolding scan_from
  area-FromRound _ ok e' (short out) next =
      (none, rw (e, ok, e'), λ p run. before p (ground (arith, run.0)) run)
  area-FromRound _ ok e' (full run) next = (some free, rw (e, ok, e', ==-refl cnt), (run, before))
  area-FromRound _ ok e' (broken k lt p t used) next =
      let (r, e'', first) = next k lt p refl t used in
      let short : (k == cnt) ≡ false = ground arith in (r, rw (e, ok, e', short) e'', first)

scan_from_lem :
    (fuel : ℕ) (btmp : Bitmap) (cnt a : ℕ)
    → btmp.btmp_bytes_len ≤ 2 ^ 28
    → 0 < cnt
    → a ≤ total_bits btmp
    → total_bits btmp - a < fuel
    → NoRunBefore btmp cnt a
    → FromRound fuel btmp cnt a
scan_from_lem zero btmp cnt a small c h f before = absurd (omega arith)
scan_from_lem (suc fuel) btmp cnt a small c h f before =
    let (free, e, l, u, used, is_free) = skip_used_lem (suc fuel) btmp a small h (omega arith) in
    let before' = skip-NoRunBefore btmp cnt a free c before used in
    elim (Bool-cases (leb btmp.btmp_bytes_len (free / 8))) [
      | inl out ↦ past_end-FromRound fuel btmp cnt a free c e before' out
      | inr ok ↦
          let (r, e', g) =
            grow_area_lem (suc fuel) btmp cnt free 1 small (omega arith) c (ground arith)
              (first_free btmp free (is_free (ground arith))) (ground arith) in
          area-FromRound fuel btmp cnt a free c e before' r ok e' g (λ k lt p _ t hit.
            let wrap : (free + (k + 1)) % 2 ^ 32 ≡ free + (k + 1) = omega arith in
            rw wrap (
              scan_from_lem fuel btmp cnt (free + (k + 1)) small c (omega arith) (omega arith)
                (broken-NoRunBefore btmp cnt free k lt before' hit)))
    ]

-- On a map of at most 2^28 bytes a scan for at least one bit terminates: it returns the lowest
-- index at which that many free bits stand in a row inside the map, or -1 exactly when there is no
-- such run.
pub scan_lem :
    (btmp : Bitmap) (cnt : ℕ)
    → btmp.btmp_bytes_len ≤ 2 ^ 28
    → 0 < cnt
    → (r : Option ℕ) × (scan btmp cnt ≡ done r) × IsFirstRun btmp cnt r
unfolding scan
scan_lem btmp cnt small c =
    scan_from_lem (rounds btmp) btmp cnt 0 small c (omega arith) (omega arith)
      (λ p h. absurd (omega arith))
