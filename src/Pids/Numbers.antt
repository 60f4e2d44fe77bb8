-- ===== src/Pids/Numbers.antt =====
-- The numbers that thread/thread.c gives to processes are those that are free.
use winx.Base.{
  ℕ, ◌+◌, ◌-◌, ◌*◌, ◌%◌, ◌^◌, ◌≤◌, ◌<◌, ◌≡◌, refl, sym, ap, ◌∙◌, inl, inr, Bool, true, false, some,
  arith, ◌==◌, if◌then◌else◌, Bool-cases, ==→eq, done,
}
use winx.CString.{Memory}
use winx.Bitmap.{Bitmap, scan_test, scan, set}
use winx.Bitmap.Laws.{IsBytes, set_lem, scan_test-init, IsBytes-init, len-init}
use winx.Bitmap.Taking.{free_bits, free_below-all, scan-set}
use winx.Pids.{PidPool, pid_pool_init, allocate_pid, release_pid}

pub record IsPids (pool : PidPool) : Type 0 where
  pub bytes : IsBytes pool.pid_bitmap
  pub length : pool.pid_bitmap.btmp_bytes_len ≡ 128
  pub start : pool.pid_start ≡ 1

-- whether a process has the number
abbrev pub in_use : PidPool → ℕ → Bool
in_use pool pid = scan_test pool.pid_bitmap (pid - 1)

pub pid_pool_init-IsPids :
    (memory : Memory)
    → ((a : ℕ) → memory a < 256)
    → IsPids (pid_pool_init memory) × (free_bits (pid_pool_init memory).pid_bitmap ≡ 1024)
unfolding pid_pool_init
pid_pool_init-IsPids memory bytes =
    let map : Bitmap = record { btmp_bytes_len = 128; bits = memory } in
    let len = len-init map in
    (
      record { bytes = IsBytes-init map bytes; length = len; start = refl },
      free_below-all _ _ (λ i h. scan_test-init map i (omega (arith, h, len)))
          ∙ ap (λ n. 8 * n) len,
    )

allocate_pid-eq :
    (pool : PidPool) (b : ℕ) (btmp : Bitmap)
    → scan pool.pid_bitmap 1 ≡ done (some b)
    → set pool.pid_bitmap b 1 ≡ done btmp
    → allocate_pid pool ≡ done (record pool { pid_bitmap = btmp }, (b + pool.pid_start) % 2 ^ 16)
unfolding allocate_pid
allocate_pid-eq pool b btmp e e' = rw (e, e') refl

release_pid-eq :
    (pool : PidPool) (pid b : ℕ) (btmp : Bitmap)
    → (pid % 2 ^ 16 + 2 ^ 32 - pool.pid_start) % 2 ^ 32 ≡ b
    → set pool.pid_bitmap b 0 ≡ done btmp
    → release_pid pool pid ≡ done (record pool { pid_bitmap = btmp })
unfolding release_pid
release_pid-eq pool pid b btmp e e' = rw (e, e') refl

same_number : (q b : ℕ) → 1 ≤ q → (q - 1 == b) ≡ (q == b + 1)
same_number q b from = ground (arith, from)

-- Where the pool is well formed and a number is free, `allocate_pid` gives the lowest one, from 1 to
-- 1024, and marks no other; `release_pid` of it makes the numbers in use what they were.
pub release_pid-allocate_pid :
    (pool : PidPool)
    → IsPids pool
    → 0 < free_bits pool.pid_bitmap
    → (pool₁ pool₂ : PidPool) × (pid : ℕ) × (allocate_pid pool ≡ done (pool₁, pid))
      × (release_pid pool₁ pid ≡ done pool₂)
      × (1 ≤ pid)
      × (pid ≤ 1024)
      × (in_use pool pid ≡ false)
      × ((q : ℕ) → 1 ≤ q → q < pid → in_use pool q ≡ true)
      × ((q : ℕ) → 1 ≤ q → in_use pool₁ q ≡ (if q == pid then true else in_use pool q))
      × ((q : ℕ) → 1 ≤ q → in_use pool₂ q ≡ in_use pool q)
      × IsPids pool₁
      × IsPids pool₂
release_pid-allocate_pid pool v some_free =
    elim (scan-set pool.pid_bitmap (omega (arith, v.length)) v.bytes) [
      | inl (full, e) ↦ absurd (omega (arith, full, some_free))
      | inr (b, btmp, e, stored, t) ↦
          let pool₁ : PidPool = record pool { pid_bitmap = btmp } in
          let pid = b + 1 in
          let small : b < 1024 = omega (arith, t.inside, v.length) in
          let given : (b + pool.pid_start) % 2 ^ 16 ≡ pid = omega (arith, v.start, small) in
          let index : (pid % 2 ^ 16 + 2 ^ 32 - pool₁.pid_start) % 2 ^ 32 ≡ b =
            omega (arith, v.start, small) in
          let bit : pid - 1 ≡ b = omega arith in
          let (btmp₂, cleared, bits, len, bytes) = set_lem btmp b 0 t.bytes (omega arith) in
          (
            pool₁,
            record pool₁ { pid_bitmap = btmp₂ },
            pid,
            allocate_pid-eq pool b btmp e stored ∙ ap (λ p. done (pool₁, p)) given,
            release_pid-eq pool₁ pid b btmp₂ index cleared,
            omega arith,
            omega (arith, small),
            ap (scan_test pool.pid_bitmap) bit ∙ t.was_free,
            λ q from to. t.lowest (q - 1) (omega (arith, from, to)),
            λ q from.
                t.taken (q - 1)
                ∙ ap (λ c. if c then true else in_use pool q) (same_number q b from),
            λ q from. bits (q - 1) ∙ elim (Bool-cases (q - 1 == b)) [
              | inl here ↦
                  rw here (sym (ap (scan_test pool.pid_bitmap) (==→eq (q - 1) b here) ∙ t.was_free))
              | inr other ↦ rw other (t.taken (q - 1) ∙ rw other refl)
            ],
            record { bytes = t.bytes; length = t.length ∙ v.length; start = v.start },
            record { bytes = bytes; length = len ∙ t.length ∙ v.length; start = v.start },
          )
    ]
