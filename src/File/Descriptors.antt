-- ===== src/File/Descriptors.antt =====
-- The descriptors of fs/file.c: a slot of the file table for each open file, and a descriptor of
-- the thread for the slot.
use winx.Base.{
  ℕ, zero, suc, ◌+◌, ◌≤◌, ◌<◌, ◌≡◌, refl, ap, subst, ◌∙◌, ◌≢◌, ◌⊎◌, inl, inr, Bool, true, false,
  Option, none, some, arith, ltb, ◌==◌, Bool-cases, ==→eq, ==-refl, ne→==, lt→ltb, update, done,
  ltb→lt,
}
use winx.File.{File, first_from, get_free_slot_in_global, pcb_fd_install, fd_local2global, is_none}

-- the lowest index from `a` up to `b` that passes the test, where one does
unfoldable pub IsFirst : (ℕ → Bool) → ℕ → ℕ → Option ℕ → Type 0
IsFirst test a b none = (i : ℕ) → a ≤ i → i < b → test i ≡ false
IsFirst test a b (some r) =
    (a ≤ r) × (r < b) × (test r ≡ true) × ((i : ℕ) → a ≤ i → i < r → test i ≡ false)

first_from_lem :
    (left : ℕ) (test : ℕ → Bool) (idx : ℕ)
    → IsFirst test idx (idx + left) (first_from left test idx)
unfolding first_from IsFirst
first_from_lem zero test idx = λ i a b. absurd (omega arith)
first_from_lem (suc left) test idx = elim (Bool-cases (test idx)) [
  | inl hit ↦ rw hit (omega arith, omega arith, hit, λ i a b. absurd (omega arith))
  | inr miss ↦
      rw miss (later (first_from left test (idx + 1)) (first_from_lem left test (idx + 1)) miss)
]
  where
    other : (i : ℕ) → idx ≤ i → test idx ≡ false → (idx + 1 ≤ i → test i ≡ false) → test i ≡ false
    other i a miss after = elim (Bool-cases (i == idx)) [
      | inl e ↦ ap test (==→eq i idx e) ∙ miss
      | inr ne ↦ after (ground arith)
    ]

    later :
        (r : Option ℕ)
        → IsFirst test (idx + 1) (idx + 1 + left) r
        → test idx ≡ false
        → IsFirst test idx (idx + suc left) r
    later none h miss = λ i a b. other i a miss (λ c. h i c (omega arith))
    later (some r) (a, b, e, h) miss =
        (omega arith, omega arith, e, λ i c d. other i c miss (λ k. h i k d))

pub fd_local2global-some :
    (fd_table : ℕ → Option ℕ) (local_fd slot : ℕ)
    → fd_table local_fd ≡ some slot
    → slot < 32
    → fd_local2global fd_table local_fd ≡ done slot
unfolding fd_local2global
fd_local2global-some fd_table local_fd slot e low = rw (fd_local2global, e, lt→ltb slot 32 low) refl

-- The slot that `get_free_slot_in_global` finds is the lowest of 3 to 31 of the file table that no
-- file has. `pcb_fd_install` of it, on a thread that has a descriptor free, takes the lowest of 3
-- to 7, and `fd_local2global` of that is the slot; all other descriptors stay, and all do on a
-- thread that has none free, where it fails.
pub pcb_fd_install_lem :
    (file_table : ℕ → File) (fd_table : ℕ → Option ℕ) (slot : ℕ)
    → get_free_slot_in_global file_table ≡ some slot
    → IsFirst (λ i. is_none (file_table i).fd_inode) 3 32 (some slot)
      × ((IsFirst (λ i. is_none (fd_table i)) 3 8 none
            × (pcb_fd_install fd_table slot ≡ (fd_table, none)))
          ⊎ ((local_fd : ℕ) × (fd_table' : ℕ → Option ℕ) × IsFirst
                (λ i. is_none (fd_table i))
                3
                8
                (some local_fd)
              × (pcb_fd_install fd_table slot ≡ (fd_table', some local_fd))
              × (fd_local2global fd_table' local_fd ≡ done slot)
              × ((i : ℕ) → i ≢ local_fd → fd_table' i ≡ fd_table i)))
unfolding get_free_slot_in_global pcb_fd_install IsFirst
pcb_fd_install_lem file_table fd_table slot e =
    (first, installed (first_from 5 free 3) refl (first_from_lem 5 free 3))
  where
    free : ℕ → Bool
    free i = is_none (fd_table i)

    first : IsFirst (λ i. is_none (file_table i).fd_inode) 3 32 (some slot)
    first =
        subst (IsFirst (λ i. is_none (file_table i).fd_inode) 3 32) e
          (first_from_lem 29 (λ i. is_none (file_table i).fd_inode) 3)

    installed :
        (r : Option ℕ)
        → first_from 5 free 3 ≡ r
        → IsFirst free 3 8 r
        → (IsFirst free 3 8 none × (pcb_fd_install fd_table slot ≡ (fd_table, none)))
          ⊎ ((local_fd : ℕ) × (fd_table' : ℕ → Option ℕ) × IsFirst free 3 8 (some local_fd)
              × (pcb_fd_install fd_table slot ≡ (fd_table', some local_fd))
              × (fd_local2global fd_table' local_fd ≡ done slot)
              × ((i : ℕ) → i ≢ local_fd → fd_table' i ≡ fd_table i))
    installed none found h = inl (h, rw (pcb_fd_install, found) refl)
    installed (some r) found h = inr (
      r,
      update fd_table r (some slot),
      h,
      rw (pcb_fd_install, found) refl,
      fd_local2global-some (update fd_table r (some slot)) r slot (rw (==-refl r) refl) first.1,
      λ i ne. rw (ne→== i r ne) refl,
    )

IsFirst-unique :
    (test : ℕ → Bool) (a b r : ℕ) (found : Option ℕ)
    → IsFirst test a b (some r)
    → IsFirst test a b found
    → found ≡ some r
unfolding IsFirst
IsFirst-unique test a b r none (low, high, hit, miss) h = absurd (cc (hit, h r low high))
IsFirst-unique test a b r (some q) (low, high, hit, miss) (low', high', hit', miss') =
    elim (Bool-cases (ltb q r)) [
      | inl under ↦ absurd (cc (hit', miss q low' (ltb→lt q r under)))
      | inr over ↦ elim (Bool-cases (ltb r q)) [
        | inl under' ↦ absurd (cc (hit, miss' r low (ltb→lt r q under')))
        | inr over' ↦ ap some (ground arith)
      ]
    ]

pub pcb_fd_install-IsFirst :
    (fd_table : ℕ → Option ℕ) (slot fd : ℕ)
    → IsFirst (λ i. is_none (fd_table i)) 3 8 (some fd)
    → pcb_fd_install fd_table slot ≡ (update fd_table fd (some slot), some fd)
unfolding pcb_fd_install
pcb_fd_install-IsFirst fd_table slot fd h =
    rw
      (
        pcb_fd_install,
        IsFirst-unique (λ i. is_none (fd_table i)) 3 8 fd
            (first_from 5 (λ i. is_none (fd_table i)) 3) h
            (first_from_lem 5 (λ i. is_none (fd_table i)) 3),
      )
      refl

pub IsFirst-bounds : (test : ℕ → Bool) (a b r : ℕ) → IsFirst test a b (some r) → (a ≤ r) × (r < b)
unfolding IsFirst
IsFirst-bounds test a b r (low, high, hit, miss) = (low, high)

pub get_free_slot_in_global-bounds :
    (file_table : ℕ → File) (slot : ℕ)
    → get_free_slot_in_global file_table ≡ some slot
    → (3 ≤ slot) × (slot < 32)
unfolding get_free_slot_in_global
get_free_slot_in_global-bounds file_table slot e =
    IsFirst-bounds (λ i. is_none (file_table i).fd_inode) 3 32 slot
      (subst (IsFirst (λ i. is_none (file_table i).fd_inode) 3 32) e
        (first_from_lem 29 (λ i. is_none (file_table i).fd_inode) 3))
