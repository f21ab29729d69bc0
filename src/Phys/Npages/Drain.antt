-- ===== src/Phys/Npages/Drain.antt =====
-- One round of the while loops of `vm_phys_alloc_npages` in vm_phys.c.
use native.Mathlib.Decide.{ℕ_discrete}
use native.Mathlib.Nat.{one-le-pow}
use coding_projects.Prelude.{
  ℕ, zero, suc, ◌+◌, ◌-◌, ◌^◌, ◌≤◌, ◌<◌, min, List, [], ◌++◌, ltb, ◌==◌, if◌then◌else◌, length,
  length-append, ◌≡◌, refl, sym, ◌∙◌, arith, inl, inr, ◌↔◌, subst, Bool-cases, ==_iff, ==_refl,
  ==_of_ne,
}
use coding_projects.Phys.{Phys, tailq_remove, vm_freelist_rem, vm_phys_set_pool, set_pool_loop}
use coding_projects.Phys.Valid.{InBlock, Free, IsValid}
use coding_projects.Phys.Freelist.{update-update}
use coding_projects.Phys.Carve.{Heads}
use coding_projects.Phys.Range.Freed.{Freed, none_Freed}
use coding_projects.Phys.Npages.{pages, Filling, full, going, take_block}
use coding_projects.Phys.Npages.Took.{Took, taken_Took, returned_rest, length-pages}

-- Lists that were empty are so after the removal of a block.
pub rem_keeps_empty :
    (n : ℕ) (s : Phys) (fl m o k j : ℕ) → s.pl k j ≡ [] → (vm_freelist_rem n s fl m o).pl k j ≡ []
unfolding vm_freelist_rem tailq_remove
rem_keeps_empty n s fl m o k j e =
    update-update s.pl fl o k j (tailq_remove m (s.pl fl o)) ∙ elim (ℕ_discrete k fl) [
      | yes f ↦ elim (ℕ_discrete j o) [
        | yes g ↦
            let empty : s.pl fl o ≡ [] = sym (λ i. s.pl (f i) (g i)) ∙ e in
            rw (f, g, ==_refl fl, ==_refl o, empty) refl
        | no ne ↦ rw (==_of_ne j o ne, e) (if_same k fl [])
      ]
      | no ne ↦ rw (==_of_ne k fl ne) e
    ]
  where
    if_same : (a b : ℕ) (xs : List ℕ) → (if a == b then xs else xs) ≡ xs
    if_same a b xs = elim (Bool-cases (a == b)) [ inl e ↦ rw e refl | inr e ↦ rw e refl ]

set_pool_loop_pl : (n left : ℕ) (s : Phys) (to m : ℕ) → (set_pool_loop n left s to m).pl ≡ s.pl
unfolding set_pool_loop
set_pool_loop_pl n zero s to m = refl
set_pool_loop_pl n (suc left) s to m = set_pool_loop_pl n left _ to (m + 1)

pub set_pool_pl : (n : ℕ) (s : Phys) (to m o : ℕ) → (vm_phys_set_pool n s to m o).pl ≡ s.pl
unfolding vm_phys_set_pool
set_pool_pl n s to m o = set_pool_loop_pl n (2 ^ o) s to m

-- No list has got its first block.
abbrev pub Shrinks : Phys → Phys → Type 0
Shrinks s s' = (k j : ℕ) → s.pl k j ≡ [] → s'.pl k j ≡ []

module _ (n p npages : ℕ) (s0 : Phys) where
  -- The outcome of a loop; `E` is what holds of the lists if it goes on.
  abbrev pub Good : (Phys → Type 0) → Filling → Type 0
  Good E (full s ma) = Took n p s0 s ma × (length ma ≡ npages)
  Good E (going s ma) = Took n p s0 s ma × (length ma ≤ npages) × E s

  -- The outcome of one round on the lists `s2` from which the block is gone.
  abbrev pub Round : List ℕ → Phys → Filling → Type 0
  Round ma s2 (full s ma') = Took n p s0 s ma' × (length ma' ≡ npages)
  Round ma s2 (going s ma') =
      Took n p s0 s ma' × (length ma' ≤ npages) × (length ma < length ma') × (s ≡ s2)

  module _ (s : Phys) (m big to : ℕ) (ma : List ℕ) (t : Took n p s0 s ma)
      (h : Heads s (s.pool m) big m) (lt : big < n) (small : n ≤ 32) (has_pool : to < p)
      (so_far : length ma ≤ npages) (s2 : Phys) (valid : IsValid n p s2)
      (in_pool : (x : ℕ) → InBlock m big x → s2.pool x ≡ to)
      (free_2 : (x : ℕ) → Free n p s2 x ↔ Free n p s x × ¬ InBlock m big x) where
    abbrev need : ℕ
    need = min (npages - length ma) (2 ^ big)

    need_fits : need ≤ 2 ^ big
    need_fits = omega arith

    longer : length (ma ++ pages m need) ≡ length ma + need
    longer = omega (arith, length-append ma (pages m need), length-pages m need)

    took :
        (s3 : Phys)
        → Freed n p s2 s3 (m + need) (2 ^ big - need)
        → Took n p s0 s3 (ma ++ pages m need)
    took =
        taken_Took n p s0 s m big to ma t h lt small has_pool s2 valid in_pool free_2 need need_fits

    all-Took : 2 ^ big ≤ need → Took n p s0 s2 (ma ++ pages m need)
    all-Took all =
        let e : 0 ≡ 2 ^ big - need = omega (arith, all) in
        took s2 (subst (Freed n p s2 s2 (m + need)) e (none_Freed n p s2 (m + need) valid))

    pub take_block-Round : Round ma s2 (take_block n p npages s2 to m big ma)
    unfolding take_block
    take_block-Round = elim (Bool-cases (ltb need (2 ^ big))) [
      | inl less ↦
          let less' : need < 2 ^ big = ground arith in
          let back =
            returned_rest n p s0 s m big to ma t h lt small has_pool s2 valid in_pool free_2 need
              need_fits less' in
          rw less (took _ back, omega (arith, longer, less'))
      | inr whole ↦
          let all : 2 ^ big ≤ need = ground arith in
          elim (Bool-cases (length (ma ++ pages m need) == npages)) [
            | inl done ↦
                rw (whole, done)
                  (all-Took all, (==_iff (length (ma ++ pages m need)) npages).0 done)
            | inr more ↦
                rw (whole, more)
                  (
                    all-Took all,
                    omega (arith, longer),
                    omega (arith, longer, all, one-le-pow big 2 (omega arith)),
                    refl,
                  )
          ]
    ]
