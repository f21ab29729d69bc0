-- ===== src/Phys/Range.antt =====
-- `vm_phys_enq_range` and `vm_phys_free_contig` of PageoutScheduler/vm_phys.c: runs of pages of any length,
-- put on the lists as blocks. Each loop has a bound on its rounds as first argument.
pub mod Lowest
pub mod Freed
pub mod Enq
pub mod Contig
use coding_projects.Prelude.{
  ℕ, zero, suc, ◌+◌, ◌-◌, ◌/◌, ◌%◌, ◌^◌, ◌*◌, min, Bool, ltb, ◌==◌, if◌then◌else◌,
}
use coding_projects.Phys.{Phys, Segment, phys_addr, vm_freelist_add, vm_phys_free_pages}

-- The number of the lowest bit that is set, from 1 on, in a word of so many bits; 0 when none is.
pub ffs_upto : ℕ → ℕ → ℕ
ffs_upto zero x = 0
ffs_upto (suc width) x =
    let rest = ffs_upto width (x / 2) in if x == 0 then 0 else (if x % 2 == 0 then suc rest else 1)

-- The number of the highest bit that is set.
pub fls_upto : ℕ → ℕ → ℕ
fls_upto zero x = 0
fls_upto (suc width) x = let rest = fls_upto width (x / 2) in if x == 0 then 0 else suc rest

-- `x - 1` in an unsigned int.
abbrev pub unsigned_pred : ℕ → ℕ
unsigned_pred x = if x == 0 then 2 ^ 32 - 1 else x - 1

pub enq_loop : ℕ → Phys → ℕ → ℕ → ℕ → Bool → Phys
enq_loop zero s m npages fl tail = s
enq_loop (suc left) s m npages fl tail =
    let order = ffs_upto 32 npages - 1 in
    let s1 = vm_freelist_add s fl m order tail in
    let n = 2 ^ order in
    let rest = enq_loop left s1 (m + n) (npages - n) fl tail in if npages - n == 0 then s1 else rest

pub vm_phys_enq_range : Phys → ℕ → ℕ → ℕ → Bool → Phys
vm_phys_enq_range s m npages fl tail = enq_loop npages s m npages fl tail

module _ (nfreeorder : ℕ) (seg : Segment) where
  -- The loop over the largest blocks that start at the page; the lists, the page and the pages left.
  pub aligned_loop : ℕ → Phys → ℕ → ℕ → Phys × ℕ × ℕ
  aligned_loop zero s m npages = (s, m, npages)
  aligned_loop (suc left) s m npages =
      let order = min (unsigned_pred (ffs_upto 64 (phys_addr m / 2 ^ 12))) (nfreeorder - 1) in
      let n = 2 ^ order in
      let rest =
        aligned_loop left (vm_phys_free_pages nfreeorder seg s m order) (m + n) (npages - n) in
      if ltb npages n then (s, m, npages) else rest

  -- The loop over the residual pages.
  pub residual_loop : ℕ → Phys → ℕ → ℕ → Phys
  residual_loop zero s m npages = s
  residual_loop (suc left) s m npages =
      let order = fls_upto 64 npages - 1 in
      let n = 2 ^ order in
      let rest =
        residual_loop left (vm_phys_free_pages nfreeorder seg s m order) (m + n) (npages - n) in
      if npages == 0 then s else rest

  pub vm_phys_free_contig : Phys → ℕ → ℕ → Phys
  vm_phys_free_contig s m npages =
      let r = aligned_loop npages s m npages in residual_loop r.2 r.0 r.1 r.2
