-- ===== src/Inode/Opened.antt =====
-- The list of open inodes of fs/inode.c as counts of openers.
use winx.Base.{
  ℕ, ◌+◌, ◌-◌, ◌%◌, ◌^◌, ◌<◌, ◌≡◌, refl, ap, ◌⊎◌, inl, inr, true, false, none, some, List, [], ◌∷◌,
  arith, ◌==◌, if◌then◌else◌, Bool-cases, done,
}
use winx.Volume.{Volume}
use winx.Inode.{Inode, Layout, load_inode, reopen, open_new, inode_open, inode_close}

-- how often an inode is open
unfoldable pub open_count : List Inode → ℕ → ℕ
open_count [] n = 0
open_count (inode ∷ rest) n = if inode.i_no == n then inode.i_open_cnts else open_count rest n

-- The list has one element for each open inode, whose count is positive and can grow.
abbrev pub IsCounted : List Inode → Type 0
IsCounted [] = Unit
IsCounted (inode ∷ rest) =
    (0 < inode.i_open_cnts)
    × (inode.i_open_cnts + 1 < 2 ^ 32)
    × (open_count rest inode.i_no ≡ 0)
    × IsCounted rest

-- What opening inode `n` comes to: one more opener of it, and closing it goes back.
Opens : List Inode → ℕ → List Inode → Type 0
Opens opened n opened' =
    ((m : ℕ)
      → open_count opened' m ≡ (if m == n then open_count opened n + 1 else open_count opened m))
    × (inode_close opened' n ≡ opened)

reopen-Opens :
    (opened : List Inode) (n : ℕ)
    → IsCounted opened
    → ((open_count opened n ≡ 0) × (reopen opened n ≡ none))
      ⊎ ((opened' : List Inode) × (reopen opened n ≡ some opened') × Opens opened n opened')
unfolding reopen open_count inode_close Opens
reopen-Opens [] n c = inl (refl, refl)
reopen-Opens (inode ∷ rest) n c = elim (Bool-cases (inode.i_no == n)) [
  | inl here ↦
      let wrap : (inode.i_open_cnts + 1) % 2 ^ 32 ≡ inode.i_open_cnts + 1 = omega (arith, c.1) in
      let back : (inode.i_open_cnts + 1 + 2 ^ 32 - 1) % 2 ^ 32 ≡ inode.i_open_cnts =
        omega (arith, c.1) in
      let still : (inode.i_open_cnts == 0) ≡ false = ground (arith, c.0) in
      inr (
        record inode { i_open_cnts = inode.i_open_cnts + 1 } ∷ rest,
        rw (here, wrap) refl,
        (λ m. ground (arith, here), rw (here, back, still) refl),
      )
  | inr other ↦ elim (reopen-Opens rest n c.3) [
    | inl (zeroed, missing) ↦ inl (rw other zeroed, rw (other, missing) refl)
    | inr (rest', found, (counts, closed)) ↦ inr (
      inode ∷ rest',
      rw (other, found) refl,
      (λ m. ground (arith, other, counts m, c.2), rw other (ap (λ xs. inode ∷ xs) closed)),
    )
  ]
]

-- Where the list has one element for each open inode, whose count is positive and can grow, and the
-- inode can be loaded and carries its number on the disk, `inode_open` adds one opener of that inode
-- and none of any other; `inode_close` of it then restores the list of open inodes.
pub inode_open_lem :
    (layout : Layout) (part : Volume) (opened : List Inode) (n : ℕ) (inode : Inode)
    → IsCounted opened
    → load_inode layout part n ≡ done inode
    → inode.i_no ≡ n
    → (opened' : List Inode) × (inode_open layout part opened n ≡ done opened')
      × ((m : ℕ)
          → open_count opened' m
            ≡ (if m == n then open_count opened n + 1 else open_count opened m))
      × (inode_close opened' n ≡ opened)
unfolding inode_open open_new inode_close open_count Opens
inode_open_lem layout part opened n inode c loaded own = elim (reopen-Opens opened n c) [
  | inr (opened', found, (counts, closed)) ↦ (opened', rw found refl, counts, closed)
  | inl (zeroed, missing) ↦
      let mine : (inode.i_no == n) ≡ true = ground arith in
      (
        record inode { i_open_cnts = 1 } ∷ opened,
        rw (missing, loaded) refl,
        λ m. ground (arith, zeroed),
        rw mine refl,
      )
]
