-- ===== src/Pages/Unmap.antt =====
-- The loops of `mfree_page` of kernel/memory.c: mapped pages are given back one after the other.
use winx.Base.{
  ℕ, zero, suc, ◌+◌, ◌*◌, ◌/◌, ◌%◌, ◌^◌, ◌≤◌, ◌<◌, ◌≡◌, refl, sym, ap, subst, ◌∙◌, ◌≢◌, Bool, true,
  false, ◌&&◌, none, some, arith, ltb, leb, ◌==◌, if◌then◌else◌, ne→==, Run, done,
}
use winx.Pages.{
  Pages, PoolFlags, pf_kernel, pf_user, mem_pool, addr_v2p, in_pool, pfree, page_table_pte_remove,
  unmap_pages,
}
use winx.Pages.Tables.{translate, tables_start, translate-words}
use winx.Pages.Bits.{IsFrame, IsPool}
use winx.Pages.Free.{
  IsLayout, FreesPage, PoolFreed, freed-IsFrame, kept-IsFrame, pfree_lem, addr_v2p_lem,
  page_table_pte_remove_lem,
}

abbrev pub is_user : PoolFlags → Bool
is_user pf_kernel = false
is_user pf_user = true

-- The `n` pages from `v` on are mapped to pages of the pool that are in use, each to another.
pub record Owns (pf : PoolFlags) (m : Pages) (v : ℕ) (n : ℕ) (phys : ℕ → ℕ) : Type 0 where
  pub mapped : (k : ℕ) → k < n → translate m (v + k * 4096) ≡ some (phys k)
  pub used : (k : ℕ) → k < n → IsFrame (mem_pool pf m) (phys k) true
  pub apart : (i j : ℕ) → i < n → j < n → phys i ≡ phys j → i ≡ j

-- What giving them back comes to: they are free and not mapped, and all other pages stay.
pub record Unmaps (pf : PoolFlags) (m : Pages) (v : ℕ) (n : ℕ) (phys : ℕ → ℕ) (m' : Pages)
    : Type 0 where
  pub mapped :
      (w : ℕ)
      → w < tables_start
      → translate m' w ≡ (if leb v w && ltb w (v + n * 4096) then none else translate m w)
  pub freed : (k : ℕ) → k < n → IsFrame (mem_pool pf m') (phys k) false
  pub kept :
      (q : ℕ) {used : Bool}
      → IsFrame (mem_pool pf m) q used
      → ((k : ℕ) → k < n → q ≢ phys k)
      → IsFrame (mem_pool pf m') q used
  pub layout : IsLayout m'

abbrev pub SameVaddr : Pages → Pages → Type 0
SameVaddr m m' = (m'.kernel_vaddr ≡ m.kernel_vaddr) × (m'.userprog_vaddr ≡ m.userprog_vaddr)

Unmaps-nothing :
    (pf : PoolFlags) (m : Pages) (v : ℕ) (phys : ℕ → ℕ) → IsLayout m → Unmaps pf m v 0 phys m
Unmaps-nothing pf m v phys ok = record {
  mapped = λ w h. ground arith;
  freed = λ k h. absurd (omega arith);
  kept = λ q f h. f;
  layout = ok;
}

layout-removed : (m : Pages) (v : ℕ) → IsLayout m → IsLayout (page_table_pte_remove m v)
unfolding page_table_pte_remove
layout-removed m v ok = record { pools = ok.pools; low = ok.low; below = ok.below }

vaddrs-removed :
    (m : Pages) (v : ℕ)
    → ((page_table_pte_remove m v).kernel_vaddr ≡ m.kernel_vaddr)
      × ((page_table_pte_remove m v).userprog_vaddr ≡ m.userprog_vaddr)
unfolding page_table_pte_remove
vaddrs-removed m v = (refl, refl)

pool-removed :
    (pf : PoolFlags) (m : Pages) (v : ℕ) → mem_pool pf (page_table_pte_remove m v) ≡ mem_pool pf m
unfolding page_table_pte_remove
pool-removed pf_kernel m v = refl
pool-removed pf_user m v = refl

IsPools-of : (pf : PoolFlags) (m : Pages) → IsLayout m → IsPool (mem_pool pf m)
IsPools-of pf_kernel m ok = ok.pools.0
IsPools-of pf_user m ok = ok.pools.1

module _ (pf : PoolFlags) (m m₁ : Pages) (v n : ℕ) (phys : ℕ → ℕ) (ok : IsLayout m)
    (owns : Owns pf m v (suc n) phys) (aligned : v % 4096 ≡ 0)
    (low : v + suc n * 4096 ≤ tables_start) (frees : FreesPage pf m (phys 0) m₁) where
  m₂ : Pages
  m₂ = page_table_pte_remove m₁ v

  first_used : IsFrame (mem_pool pf m) (phys 0) true
  first_used = owns.used 0 (omega arith)

  translate-m₂ : (w : ℕ) → translate m₂ w ≡ (if w / 4096 == v / 4096 then none else translate m w)
  unfolding m₂
  translate-m₂ w =
      page_table_pte_remove_lem m₁ v w (omega (arith, low))
      ∙ ap (λ t. if w / 4096 == v / 4096 then none else t) (translate-words m m₁ w frees.words)

  pool-m₂ : PoolFreed (mem_pool pf m) (phys 0) (mem_pool pf m₂)
  unfolding m₂
  pool-m₂ = subst (PoolFreed (mem_pool pf m) (phys 0)) (sym (pool-removed pf m₁ v)) frees.pool

  kept-m₂ :
      (q : ℕ) {used : Bool}
      → IsFrame (mem_pool pf m) q used
      → q ≢ phys 0
      → IsFrame (mem_pool pf m₂) q used
  kept-m₂ q f other = kept-IsFrame first_used f pool-m₂ other (IsPools-of pf m ok)

  apart_tail : (k : ℕ) → k < n → phys 0 ≢ phys (suc k)
  apart_tail k h e = absurd (omega (arith, owns.apart 0 (suc k) (omega arith) (omega arith) e))

  Owns-tail : Owns pf m₂ (v + 4096) n (λ k. phys (suc k))
  Owns-tail = record {
    mapped = λ k h.
        translate-m₂ (v + 4096 + k * 4096)
        ∙ rw (ne→== ((v + 4096 + k * 4096) / 4096) (v / 4096) (omega arith))
            (ap (translate m) (omega arith) ∙ owns.mapped (suc k) (omega arith));
    used = λ k h.
        kept-m₂ (phys (suc k)) (owns.used (suc k) (omega arith)) (λ e. apart_tail k h (sym e));
    apart = λ i j a b e. omega (arith, owns.apart (suc i) (suc j) (omega arith) (omega arith) e);
  }

  module _ (m' : Pages) (rest : Unmaps pf m₂ (v + 4096) n (λ k. phys (suc k)) m') where
    freed_cons : (k : ℕ) → k < suc n → IsFrame (mem_pool pf m') (phys k) false
    freed_cons zero h =
        rest.kept (phys 0) (freed-IsFrame first_used pool-m₂) (λ k h. apart_tail k h)
    freed_cons (suc k) h = rest.freed k (omega arith)

    mapped_cons :
        (w : ℕ)
        → w < tables_start
        → translate m' w ≡ (if leb v w && ltb w (v + suc n * 4096) then none else translate m w)
    mapped_cons w h = rest.mapped w h ∙ rw (translate-m₂ w) (ground arith)

    Unmaps-cons : Unmaps pf m v (suc n) phys m'
    unfolding m₂
    Unmaps-cons = record {
      mapped = mapped_cons;
      freed = freed_cons;
      kept = λ q f other.
          rest.kept q (kept-m₂ q f (other 0 (omega arith))) (λ k h. other (suc k) (omega arith));
      layout = rest.layout;
    }

    SameVaddr-cons : SameVaddr m₂ m' → SameVaddr m m'
    unfolding m₂
    SameVaddr-cons (e, e') = (
      e ∙ (vaddrs-removed m₁ v).0 ∙ frees.kernel_vaddr,
      e' ∙ (vaddrs-removed m₁ v).1 ∙ frees.userprog_vaddr,
    )

in_pool-IsFrame :
    (pf : PoolFlags) (m : Pages) (p : ℕ)
    → IsLayout m
    → IsFrame (mem_pool pf m) p true
    → (p % 4096 == 0) && in_pool (is_user pf) m p ≡ true
in_pool-IsFrame pf_kernel m p ok f =
    let f' : IsFrame m.kernel_pool p true = f in
    ground (arith, f'.from, f'.to, f'.aligned, ok.below)
in_pool-IsFrame pf_user m p ok f =
    let f' : IsFrame m.user_pool p true = f in ground (arith, f'.from, f'.aligned)

unmap_pages-round :
    (n : ℕ) (of_user : Bool) (m m₁ : Pages) (v p : ℕ) (r : Run Pages)
    → addr_v2p m v ≡ p
    → (p % 4096 == 0) && in_pool of_user m p ≡ true
    → pfree m p ≡ done m₁
    → (v + 4096) % 2 ^ 32 ≡ v + 4096
    → unmap_pages n of_user (page_table_pte_remove m₁ v) (v + 4096) ≡ r
    → unmap_pages (suc n) of_user m v ≡ r
unfolding unmap_pages
unmap_pages-round n of_user m m₁ v p r here fits freed wrap rest = rw (here, fits, freed, wrap) rest

-- The loop gives back all pages of its range.
pub unmap_pages_lem :
    (n : ℕ) (pf : PoolFlags) (m : Pages) (v : ℕ) (phys : ℕ → ℕ)
    → IsLayout m
    → Owns pf m v n phys
    → v % 4096 ≡ 0
    → v + n * 4096 ≤ tables_start
    → (m' : Pages) × (unmap_pages n (is_user pf) m v ≡ done m')
      × Unmaps pf m v n phys m'
      × SameVaddr m m'
unfolding unmap_pages m₂
unmap_pages_lem zero pf m v phys ok owns aligned low =
    (m, refl, Unmaps-nothing pf m v phys ok, (refl, refl))
unmap_pages_lem (suc n) pf m v phys ok owns aligned low =
    let f = owns.used 0 (omega arith) in
    let (m₁, freed, frees) = pfree_lem pf m (phys 0) ok f in
    let here : addr_v2p m v ≡ phys 0 =
      addr_v2p_lem m v (phys 0) (ap (translate m) (omega arith) ∙ owns.mapped 0 (omega arith)) in
    let (m', loop, rest, same) =
      unmap_pages_lem n pf (page_table_pte_remove m₁ v) (v + 4096) (λ k. phys (suc k))
        (layout-removed m₁ v frees.layout) (Owns-tail pf m m₁ v n phys ok owns aligned low frees)
        (omega arith) (omega arith) in
    (
      m',
      unmap_pages-round n (is_user pf) m m₁ v (phys 0) (done m') here
          (in_pool-IsFrame pf m (phys 0) ok f) freed (omega arith) loop,
      Unmaps-cons pf m m₁ v n phys ok owns aligned low frees m' rest,
      SameVaddr-cons pf m m₁ v n phys ok owns aligned low frees m' rest same,
    )
