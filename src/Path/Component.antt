-- ===== src/Path/Component.antt =====
-- `path_parse` of fs/fs.c takes a path apart.
use winx.Base.{
  ℕ, zero, suc, ◌+◌, ◌≤◌, ◌<◌, ◌≡◌, refl, sym, ap, ◌∙◌, ◌≢◌, ◌⊎◌, inl, inr, true, false, not, ◌&&◌,
  none, some, arith, ◌==◌, if◌then◌else◌, ne→==, update, done,
}
use winx.CString.{Memory, copy}
use winx.CString.Write.{copy-Outside}
use winx.Path.{skip_slashes, copy_name, path_parse}

-- `n` bytes of a name from `p` on, and behind them a NUL or a slash
pub record IsComponent (m : Memory) (p n : ℕ) : Type 0 where
  pub no_slash : (i : ℕ) → i < n → m (p + i) ≢ 47
  pub no_nul : (i : ℕ) → i < n → m (p + i) ≢ 0
  pub ends : (m (p + n) ≡ 0) ⊎ (m (p + n) ≡ 47)

-- the name's place is not among the bytes of the name and the one behind it
abbrev pub Apart : ℕ → ℕ → ℕ → Type 0
Apart dst p n = (dst + n ≤ p) ⊎ (p + n < dst)

skip_slashes_lem :
    (fuel : ℕ) (m : Memory) (p k : ℕ)
    → k < fuel
    → ((i : ℕ) → i < k → m (p + suc i) ≡ 47)
    → m (p + suc k) ≢ 47
    → skip_slashes fuel m p ≡ done (p + suc k)
unfolding skip_slashes
skip_slashes_lem zero m p k enough slashes stop = absurd (omega arith)
skip_slashes_lem (suc fuel) m p zero enough slashes stop =
    let e : p + 1 ≡ suc p = omega arith in
    let other : (m (suc p) == 47) ≡ false = ne→== _ _ (λ h. stop (ap m e ∙ h)) in rw (e, other) refl
skip_slashes_lem (suc fuel) m p (suc k) enough slashes stop =
    let e : p + 1 ≡ suc p = omega arith in
    let slash : (m (suc p) == 47) ≡ true = rw (sym (ap m e) ∙ slashes 0 (omega arith)) refl in
    let shift : (j : ℕ) → p + suc j ≡ suc p + j = λ j. omega arith in
    rw (slash, shift (suc k))
      (skip_slashes_lem fuel m (suc p) k (omega arith)
        (λ i h. ap m (sym (shift (suc i))) ∙ slashes (suc i) (omega arith))
        (λ h. stop (ap m (shift (suc k)) ∙ h)))

copy_name_lem :
    (fuel : ℕ) (m : Memory) (p n dst : ℕ)
    → n < fuel
    → IsComponent m p n
    → Apart dst p n
    → copy_name fuel m p dst ≡ done (copy dst p m n, p + n)
unfolding copy_name copy
copy_name_lem zero m p n dst enough c apart = absurd (omega arith)
copy_name_lem (suc fuel) m p zero dst enough c apart =
    let e : p + 0 ≡ p = omega arith in
    let stopped : (not (m p == 47) && not (m p == 0)) ≡ false = elim c.ends [
      | inl nul ↦ let h : m p ≡ 0 = sym (ap m e) ∙ nul in ground (arith, h)
      | inr slash ↦ let h : m p ≡ 47 = sym (ap m e) ∙ slash in ground (arith, h)
    ] in
    rw stopped (ap (λ q. done (m, q)) (sym e))
copy_name_lem (suc fuel) m p (suc n) dst enough c apart =
    let e : p + 0 ≡ p = omega arith in
    let not_slash : (m p == 47) ≡ false =
      ne→== _ _ (λ h. c.no_slash 0 (omega arith) (ap m e ∙ h)) in
    let not_nul : (m p == 0) ≡ false = ne→== _ _ (λ h. c.no_nul 0 (omega arith) (ap m e ∙ h)) in
    let shift : (j : ℕ) → p + suc j ≡ suc p + j = λ j. omega arith in
    let same : (i : ℕ) → i < suc n → update m dst (m p) (suc p + i) ≡ m (p + suc i) = λ i h.
      let far : (suc p + i == dst) ≡ false = ne→== _ _ (λ hit. omega (arith, apart)) in
      rw far (ap m (sym (shift i))) in
    rw (not_slash, not_nul, shift n)
      (copy_name_lem fuel (update m dst (m p)) (suc p) n (suc dst) (omega arith)
        (record {
          no_slash = λ i h z. c.no_slash (suc i) (omega arith) (sym (same i (omega arith)) ∙ z);
          no_nul = λ i h z. c.no_nul (suc i) (omega arith) (sym (same i (omega arith)) ∙ z);
          ends = elim c.ends [
            | inl nul ↦ inl (same n (omega arith) ∙ nul)
            | inr slash ↦ inr (same n (omega arith) ∙ slash)
          ];
        })
        (elim apart [ inl l ↦ inl (omega arith) | inr g ↦ inr (omega arith) ]))

-- `path_parse` of a path that starts with `lead` slashes, also none, and then has `n` bytes up to a
-- slash or the end: given fuel for both, and a place for the name apart from it, it stores the name
-- there as `memcpy` would, and returns NULL at the end of the path, and otherwise where the path
-- goes on.
pub path_parse_lem :
    (fuel : ℕ) (m : Memory) (p lead n dst : ℕ)
    → lead + n < fuel
    → ((i : ℕ) → i < lead → m (p + i) ≡ 47)
    → m (p + lead) ≢ 47
    → IsComponent m (p + lead) n
    → Apart dst (p + lead) n
    → path_parse fuel m p dst
      ≡ done
          (copy dst (p + lead) m n, (if m (p + lead + n) == 0 then none else some (p + lead + n)))
unfolding path_parse
path_parse_lem fuel m p lead n dst enough slashes stop c apart =
    let first = begins lead slashes stop (omega arith) in
    let stored = copy_name_lem fuel m (p + lead) n dst (omega arith) c apart in
    let kept =
      copy-Outside dst (p + lead) m n (p + lead + n)
        (elim apart [ inl l ↦ inr (omega arith) | inr g ↦ inl (omega arith) ]) in
    rw (first, stored, kept) refl
  where
    begins :
        (lead : ℕ)
        → ((i : ℕ) → i < lead → m (p + i) ≡ 47)
        → m (p + lead) ≢ 47
        → lead < fuel
        → (if m p == 47 then skip_slashes fuel m p else done p) ≡ done (p + lead)
    begins zero slashes stop enough =
        let e : p + 0 ≡ p = omega arith in
        let other : (m p == 47) ≡ false = ne→== _ _ (λ h. stop (ap m e ∙ h)) in
        rw other (ap done (sym e))
    begins (suc k) slashes stop enough =
        let e : p + 0 ≡ p = omega arith in
        let slash : (m p == 47) ≡ true = rw (sym (ap m e) ∙ slashes 0 (omega arith)) refl in
        rw slash
          (skip_slashes_lem fuel m p k (omega arith) (λ i h. slashes (suc i) (omega arith)) stop)
