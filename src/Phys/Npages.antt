-- ===== src/Phys/Npages.antt =====
-- `vm_phys_alloc_npages` of PageoutScheduler/vm_phys.c for one free list. The array `ma` is a list, and
-- `i` its length; the loops have a bound on their rounds as first argument.
pub mod Took
pub mod Drain
pub mod Own
pub mod Whole
use coding_projects.Prelude.{
  ℕ, zero, suc, ◌+◌, ◌-◌, ◌^◌, min, true, none, some, List, [], ◌∷◌, ◌++◌, ltb, ◌==◌, if◌then◌else◌,
  length,
}
use coding_projects.Phys.{Phys, tailq_first, vm_freelist_rem, vm_phys_set_pool}
use coding_projects.Phys.Range.{vm_phys_enq_range}

-- The pages from `m` on.
pub pages : ℕ → ℕ → List ℕ
pages m zero = []
pages m (suc need) = m ∷ pages (m + 1) need

-- The function has returned, or goes on with the next list.
pub data Filling : Type 0 where
  full : Phys → List ℕ → Filling
  going : Phys → List ℕ → Filling

-- What comes after a loop that may return from the function.
pub and_then : Filling → (Phys → List ℕ → Filling) → Filling
and_then (full s ma) next = full s ma
and_then (going s ma) next = next s ma

module _ (nfreeorder nfreepool npages : ℕ) where
  -- The body of the while loops behind the removal of the block: the lists, and whether to go on.
  pub take_block : Phys → ℕ → ℕ → ℕ → List ℕ → Filling
  take_block s pool m oind ma =
      let avail = 2 ^ oind in
      let need = min (npages - length ma) avail in
      let ma' = ma ++ pages m need in
      if ltb need avail
      then full (vm_phys_enq_range s (m + need) (avail - need) pool true) ma'
      else (if length ma' == npages then full s ma' else going s ma')

  -- The while loop over a list of the pool.
  pub drain_own : ℕ → Phys → ℕ → ℕ → List ℕ → Filling
  drain_own zero s pool oind ma = going s ma
  drain_own (suc left) s pool oind ma = elim (tailq_first (s.pl pool oind)) [
    | none ↦ going s ma
    | some m ↦
        and_then (take_block (vm_freelist_rem nfreeorder s pool m oind) pool m oind ma)
          (λ s' ma'. drain_own left s' pool oind ma')
  ]

  -- The while loop over a list of the pool `pind`.
  pub drain_alt : ℕ → Phys → ℕ → ℕ → ℕ → List ℕ → Filling
  drain_alt zero s pool oind pind ma = going s ma
  drain_alt (suc left) s pool oind pind ma = elim (tailq_first (s.pl pind oind)) [
    | none ↦ going s ma
    | some m ↦
        let moved =
          vm_phys_set_pool nfreeorder (vm_freelist_rem nfreeorder s pind m oind) pool m oind in
        and_then (take_block moved pool m oind ma) (λ s' ma'. drain_alt left s' pool oind pind ma')
  ]

  pub own_orders : ℕ → Phys → ℕ → ℕ → List ℕ → Filling
  own_orders zero s pool oind ma = going s ma
  own_orders (suc left) s pool oind ma =
      and_then (drain_own (suc npages) s pool oind ma)
        (λ s' ma'. own_orders left s' pool (oind + 1) ma')

  pub alt_pools : ℕ → Phys → ℕ → ℕ → ℕ → List ℕ → Filling
  alt_pools zero s pool oind pind ma = going s ma
  alt_pools (suc left) s pool oind pind ma =
      and_then (drain_alt (suc npages) s pool oind pind ma)
        (λ s' ma'. alt_pools left s' pool oind (pind + 1) ma')

  -- From the largest order down, with the orders left.
  pub alt_orders : ℕ → Phys → ℕ → List ℕ → Filling
  alt_orders zero s pool ma = going s ma
  alt_orders (suc oind) s pool ma =
      and_then (alt_pools nfreepool s pool oind 0 ma) (λ s' ma'. alt_orders oind s' pool ma')

  -- The number of pages, the pages, and the lists.
  pub returned : Filling → ℕ × List ℕ × Phys
  returned (full s ma) = (npages, ma, s)
  returned (going s ma) = (length ma, ma, s)

  pub vm_phys_alloc_npages : Phys → ℕ → ℕ × List ℕ × Phys
  vm_phys_alloc_npages s pool =
      returned
        (and_then (own_orders nfreeorder s pool 0 []) (λ s' ma. alt_orders nfreeorder s' pool ma))
