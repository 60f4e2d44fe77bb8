-- ===== src/Sync/System/Exclusion.antt =====
-- Which thread is between acquiring and releasing the lock of thread/sync.c.
use winx.Base.{
  ℕ, ◌+◌, ◌%◌, ◌^◌, ◌≡◌, refl, sym, ap, subst, ◌∙◌, ◌≢◌, ◌↔◌, ◌⊎◌, inl, inr, Bool, true, false,
  none, some, List, [], ◌∷◌, ◌++◌, arith, ltb, ◌==◌, if◌then◌else◌, Bool-cases, ==→eq, ==-refl,
  update, done, Ends, Ends->>=, Ends-assert, Ends-any,
}
use winx.Thread.{Kernel, thread_block, task_blocked}
use winx.Sync.{
  lock_again, sema_down, Semaphore, Lock, Turn, returned, waiting, holds, sema_down_loop, sema_up,
  wake_waiter, lock_acquired, lock_give_up,
}
use winx.Sync.System.{
  acquire, release, entered, step, start, elsewhere, turn_of, run, Action, start_release,
  finish_release, resume_down, finish_acquire, start_acquire, Stage, outside, in_down, entered,
  holding, leaving, System, after_down,
}

-- between the end of `sema_down` and `sema_up`
abbrev pub is_inside : Stage → Bool
is_inside outside = false
is_inside (in_down old) = false
is_inside entered = true
is_inside holding = true
is_inside leaving = true

abbrev pub is_holding : Stage → Bool
is_holding outside = false
is_holding (in_down old) = false
is_holding entered = false
is_holding holding = true
is_holding leaving = false

pub record IsFree (s : System) : Type 0 where
  pub value : s.lock.semaphore.value ≡ 1
  pub holder : s.lock.holder ≡ none
  pub none_inside : (t : ℕ) → is_inside (s.stage t) ≡ false

pub record IsHeld (s : System) (owner : ℕ) : Type 0 where
  pub value : s.lock.semaphore.value ≡ 0
  pub holder : s.lock.holder ≡ (if is_holding (s.stage owner) then some owner else none)
  pub inside : (t : ℕ) → is_inside (s.stage t) ≡ (owner == t)

-- The semaphore is up and no thread is inside, or it is down and one is.
abbrev pub IsExclusive : System → Type 0
IsExclusive s = IsFree s ⊎ ((owner : ℕ) × IsHeld s owner)

abbrev Down : Semaphore → Turn Semaphore → Type 0
Down p (returned k p') = (p.value ≢ 0) × (p'.value ≡ 0)
Down p (waiting k p') = (p.value ≡ 0) × (p'.value ≡ 0)

sema_down_loop-Down :
    (old : Bool) (k : Kernel) (p : Semaphore) → Ends (Down p) (sema_down_loop old k p)
unfolding sema_down_loop
sema_down_loop-Down old k p = elim (Bool-cases (p.value == 0)) [
  | inl zeroed ↦ rw zeroed (
      Ends-assert (Down p) _ _ (λ e.
        Ends-any (Down p) (thread_block k task_blocked)
          (λ k'. done (waiting k' (record p { waiters = p.waiters ++ k.running ∷ [] })))
          (λ k'. (==→eq _ _ zeroed, ==→eq _ _ zeroed))))
  | inr up ↦
      rw up
        (Ends-assert (Down p) ((p.value + 255) % 2 ^ 8 == 0) _ (λ e. (ground arith, ==→eq _ _ e)))
]

lock_acquired-Held :
    (k : Kernel) (l : Lock)
    → Ends (λ l'. (l'.holder ≡ some k.running) × (l'.semaphore ≡ l.semaphore)) (lock_acquired k l)
unfolding lock_acquired
lock_acquired-Held k l = Ends-assert _ (l.holder_repeat_nr == 0) _ (λ e. (refl, refl))

-- what `lock_release` does before `sema_up`
GivenUp : Kernel → Lock → Bool × Lock → Type 0
GivenUp k l (last, l') =
    (holds l.holder k.running ≡ true)
    × (l'.semaphore ≡ l.semaphore)
    × (l'.holder ≡ (if last then none else l.holder))

lock_give_up-GivenUp : (k : Kernel) (l : Lock) → Ends (GivenUp k l) (lock_give_up k l)
unfolding lock_give_up GivenUp
lock_give_up-GivenUp k l = Ends-assert (GivenUp k l) (holds l.holder k.running) _ (λ h.
    elim (Bool-cases (ltb 1 l.holder_repeat_nr)) [
      | inl again ↦ rw again (h, refl, refl)
      | inr last ↦
          rw last (Ends-assert (GivenUp k l) (l.holder_repeat_nr == 1) _ (λ e. (h, refl, refl)))
    ])

sema_up-up :
    (k : Kernel) (p : Semaphore) → Ends (λ q. (p.value ≡ 0) × (q.1.value ≡ 1)) (sema_up k p)
unfolding sema_up
sema_up-up k p = Ends-assert _ (p.value == 0) _ (λ e.
    Ends-any _ (wake_waiter p.waiters _) _
      (λ q. Ends-assert _ ((p.value + 1) % 2 ^ 8 == 1) _ (λ e'. (==→eq _ _ e, ==→eq _ _ e'))))

-- a thread's turn in `sema_down`, from any stage outside
after_down-IsExclusive :
    (s : System) (old : Bool) (turn : Turn Semaphore)
    → IsExclusive s
    → is_inside (s.stage s.kernel.running) ≡ false
    → Down s.lock.semaphore turn
    → IsExclusive (after_down s s.kernel.running old turn)
unfolding after_down
after_down-IsExclusive s old (returned k p) (inl free) out d = inr (
  s.kernel.running,
  record {
    value = d.1;
    holder = ground (arith, free.holder);
    inside = λ t. ground (arith, free.none_inside t);
  },
)
after_down-IsExclusive s old (returned k p) (inr (owner, held)) out d =
    absurd (ground (arith, d.0, held.value))
after_down-IsExclusive s old (waiting k p) (inl free) out d =
    absurd (ground (arith, d.0, free.value))
after_down-IsExclusive s old (waiting k p) (inr (owner, held)) out d = inr (
  owner,
  record {
    value = d.1;
    holder = ground (arith, held.holder, held.inside s.kernel.running);
    inside = λ t. ground (arith, held.inside t);
  },
)

module _ (s : System) (old : Bool) (x : IsExclusive s)
    (out : is_inside (s.stage s.kernel.running) ≡ false) where
  resume_down-IsExclusive : Ends IsExclusive (resume_down s old)
  unfolding resume_down
  resume_down-IsExclusive =
      Ends->>= (Down s.lock.semaphore) IsExclusive (sema_down_loop old s.kernel s.lock.semaphore) _
        (sema_down_loop-Down old s.kernel s.lock.semaphore)
        (λ turn d. after_down-IsExclusive s old turn x out d)

not_held :
    (s : System)
    → IsExclusive s
    → is_inside (s.stage s.kernel.running) ≡ false
    → holds s.lock.holder s.kernel.running ≡ false
not_held s (inl free) out = rw free.holder refl
not_held s (inr (owner, held)) out = elim (Bool-cases (is_holding (s.stage owner))) [
  | inl on ↦
      let h : s.lock.holder ≡ some owner = ground (arith, held.holder) in
      rw h (sym (held.inside s.kernel.running) ∙ out)
  | inr off ↦ let h : s.lock.holder ≡ none = ground (arith, held.holder) in rw h refl
]

start_acquire_outside :
    (s : System)
    → IsExclusive s
    → is_inside (s.stage s.kernel.running) ≡ false
    → Ends IsExclusive (start_acquire s)
unfolding start_acquire sema_down
start_acquire_outside s x out = rw (not_held s x out) (
    Ends->>= (Down s.lock.semaphore) IsExclusive
      (sema_down_loop s.kernel.intr_on (record s.kernel { intr_on = false }) s.lock.semaphore) _
      (sema_down_loop-Down s.kernel.intr_on (record s.kernel { intr_on = false }) s.lock.semaphore)
      (λ turn d. after_down-IsExclusive s s.kernel.intr_on turn x out d))

-- the turns of a thread that is inside
module _ (s : System) (held : IsHeld s s.kernel.running) where
  start_acquire_inside : s.stage s.kernel.running ≡ holding → Ends IsExclusive (start_acquire s)
  unfolding start_acquire lock_again
  start_acquire_inside on =
      let h : s.lock.holder ≡ some s.kernel.running = ground (arith, held.holder) in
      let mine : holds s.lock.holder s.kernel.running ≡ true = rw h (==-refl s.kernel.running) in
      rw mine (
        inr (
          s.kernel.running,
          record {
            value = held.value;
            holder = ground (arith, h);
            inside = λ t. ground (arith, held.inside t);
          },
        ))

  finish_acquire-IsExclusive : Ends IsExclusive (finish_acquire s)
  unfolding finish_acquire
  finish_acquire-IsExclusive =
      Ends->>= (λ l. (l.holder ≡ some s.kernel.running) × (l.semaphore ≡ s.lock.semaphore))
        IsExclusive (lock_acquired s.kernel s.lock) _ (lock_acquired-Held s.kernel s.lock)
        (λ l e. inr (
          s.kernel.running,
          record {
            value = ap (λ p. p.value) e.1 ∙ held.value;
            holder = ground (arith, e.0);
            inside = λ t. ground (arith, held.inside t);
          },
        ))

  given_up :
      (last : Bool) (l : Lock)
      → s.stage s.kernel.running ≡ holding
      → GivenUp s.kernel s.lock (last, l)
      → IsExclusive (record s {
        lock = l;
        stage = update s.stage s.kernel.running (if last then leaving else holding);
      })
  unfolding GivenUp
  given_up true l on e = inr (
    s.kernel.running,
    record {
      value = ap (λ p. p.value) e.1 ∙ held.value;
      holder = ground (arith, e.2);
      inside = λ t. ground (arith, held.inside t);
    },
  )
  given_up false l on e = inr (
    s.kernel.running,
    record {
      value = ap (λ p. p.value) e.1 ∙ held.value;
      holder = e.2 ∙ ground (arith, held.holder);
      inside = λ t. ground (arith, held.inside t);
    },
  )

  start_release_inside : s.stage s.kernel.running ≡ holding → Ends IsExclusive (start_release s)
  unfolding start_release
  start_release_inside on =
      Ends->>= (GivenUp s.kernel s.lock) IsExclusive (lock_give_up s.kernel s.lock) _
        (lock_give_up-GivenUp s.kernel s.lock) (λ (last, l) e. given_up last l on e)

  finish_release-IsExclusive :
      s.stage s.kernel.running ≡ leaving → Ends IsExclusive (finish_release s)
  unfolding finish_release
  finish_release-IsExclusive on =
      Ends->>= _ IsExclusive (sema_up s.kernel s.lock.semaphore) _
        (sema_up-up s.kernel s.lock.semaphore)
        (λ q e. inl (record {
          value = e.1;
          holder = ground (arith, held.holder);
          none_inside = λ t. ground (arith, held.inside t);
        }))

-- A thread outside that calls `lock_release` meets the ASSERT.
start_release_outside :
    (s : System)
    → IsExclusive s
    → is_inside (s.stage s.kernel.running) ≡ false
    → Ends IsExclusive (start_release s)
unfolding start_release lock_give_up
start_release_outside s x out = rw (not_held s x out) tt

-- The thread that is inside is the owner.
owner_of :
    (s : System)
    → IsExclusive s
    → is_inside (s.stage s.kernel.running) ≡ true
    → IsHeld s s.kernel.running
owner_of s (inl free) on = absurd (ground (arith, free.none_inside s.kernel.running))
owner_of s (inr (owner, held)) on =
    subst (λ t. IsHeld s t) (==→eq _ _ (sym (held.inside s.kernel.running) ∙ on)) held

elsewhere-IsExclusive :
    (s : System) (k : Kernel) → IsExclusive s → IsExclusive (record s { kernel = k })
elsewhere-IsExclusive s k (inl free) =
    inl (record { value = free.value; holder = free.holder; none_inside = free.none_inside })
elsewhere-IsExclusive s k (inr (owner, held)) =
    inr (owner, record { value = held.value; holder = held.holder; inside = held.inside })

turn_of-IsExclusive :
    (action : Action) (g : Stage) (s : System)
    → s.stage s.kernel.running ≡ g
    → IsExclusive s
    → Ends IsExclusive (turn_of action g s)
unfolding turn_of
turn_of-IsExclusive (elsewhere k) g s e x = elsewhere-IsExclusive s k x
turn_of-IsExclusive acquire outside s e x = start_acquire_outside s x (ap is_inside e)
turn_of-IsExclusive release outside s e x = start_release_outside s x (ap is_inside e)
turn_of-IsExclusive acquire (in_down old) s e x = resume_down-IsExclusive s old x (ap is_inside e)
turn_of-IsExclusive release (in_down old) s e x = resume_down-IsExclusive s old x (ap is_inside e)
turn_of-IsExclusive acquire entered s e x =
    finish_acquire-IsExclusive s (owner_of s x (ap is_inside e))
turn_of-IsExclusive release entered s e x =
    finish_acquire-IsExclusive s (owner_of s x (ap is_inside e))
turn_of-IsExclusive acquire holding s e x = start_acquire_inside s (owner_of s x (ap is_inside e)) e
turn_of-IsExclusive release holding s e x = start_release_inside s (owner_of s x (ap is_inside e)) e
turn_of-IsExclusive acquire leaving s e x =
    finish_release-IsExclusive s (owner_of s x (ap is_inside e)) e
turn_of-IsExclusive release leaving s e x =
    finish_release-IsExclusive s (owner_of s x (ap is_inside e)) e

run-IsExclusive :
    (actions : List Action) (s : System) → IsExclusive s → Ends IsExclusive (run actions s)
unfolding run step
run-IsExclusive [] s x = x
run-IsExclusive (action ∷ actions) s x =
    Ends->>= IsExclusive IsExclusive (step action s) (run actions)
      (turn_of-IsExclusive action (s.stage s.kernel.running) s refl x) (run-IsExclusive actions)

holding_inside : (g : Stage) → is_holding g ≡ true → is_inside g ≡ true
holding_inside outside h = h
holding_inside (in_down old) h = h
holding_inside entered h = refl
holding_inside holding h = refl
holding_inside leaving h = refl

module _ (actions : List Action) (k : Kernel) (s : System)
    (e : run actions (start k) ≡ done s) where
  reached : IsExclusive s
  reached = subst (Ends IsExclusive) e (
      run-IsExclusive actions (start k)
        (inl (record { value = refl; holder = refl; none_inside = λ t. refl })))

  -- However the threads take turns, and whatever the kernel does between them: two threads that are
  -- between the end of `sema_down` and `sema_up` are the same one.
  pub mutual_exclusion :
      (t u : ℕ) → is_inside (s.stage t) ≡ true → is_inside (s.stage u) ≡ true → t ≡ u
  mutual_exclusion t u i j = elim reached [
    | inl free ↦ absurd (ground (arith, free.none_inside t))
    | inr (owner, held) ↦
        sym (==→eq owner t (sym (held.inside t) ∙ i)) ∙ ==→eq owner u (sym (held.inside u) ∙ j)
  ]

  -- However the threads take turns: the lock names as its holder exactly the thread that has
  -- acquired it and has not begun its last release.
  pub holder_lem : (t : ℕ) → (is_holding (s.stage t) ≡ true) ↔ (s.lock.holder ≡ some t)
  holder_lem t = elim reached [
    | inl free ↦ (
      λ h. absurd (ground (arith, free.none_inside t, holding_inside (s.stage t) h)),
      λ h. absurd (ground (arith, free.holder)),
    )
    | inr (owner, held) ↦ (
      λ h.
          let o = ==→eq owner t (sym (held.inside t) ∙ holding_inside (s.stage t) h) in
          ground (arith, held.holder),
      λ h. ground (arith, held.holder),
    )
  ]
