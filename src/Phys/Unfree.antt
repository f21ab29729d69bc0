-- ===== src/Phys/Unfree.antt =====
-- `vm_phys_unfree_page` of PageoutScheduler/vm_phys.c: taking one page out of the block it is free in.
pub mod Extract
pub mod Find
pub mod Whole
use coding_projects.Prelude.{
  ℕ, zero, suc, ◌+◌, ◌-◌, ◌*◌, ◌/◌, ◌^◌, bit_and, bit_xor, Bool, true, false, Option, none, some,
  ltb, leb, ◌==◌, if◌then◌else◌,
}
use coding_projects.Phys.{Phys, Segment, phys_addr, page_at, vm_freelist_add, vm_freelist_rem}

module _ (nfreeorder : ℕ) (seg : Segment) where
  -- The first loop, with the rounds left: the page `m_set` and the order, or nothing where the code
  -- returns FALSE.
  pub find_set : ℕ → Phys → ℕ → ℕ → ℕ → Option (ℕ × ℕ)
  find_set zero s m m_set order = some (m_set, order)
  find_set (suc left) s m m_set order =
      let pa = bit_and (phys_addr m) (2 ^ 64 - 2 ^ (12 + (order + 1))) in
      let next = find_set left s m (page_at nfreeorder seg pa) (order + 1) in
      if s.order m_set == nfreeorder
      then (if leb seg.start pa then next else none)
      else some (m_set, order)

  -- The second loop, for the order of `m_set`. `1 << (PAGE_SHIFT + order)` is an int, and the power of two
  -- up to order 18; the kernel's VM_NFREEORDER is at most 13.
  pub extract_loop : ℕ → Phys → ℕ → ℕ → ℕ → Phys
  extract_loop zero s m m_set fl = s
  extract_loop (suc order) s m m_set fl =
      let pa_half = bit_xor (phys_addr m_set) (2 ^ (12 + order)) in
      let half = page_at nfreeorder seg pa_half in
      let low = extract_loop order (vm_freelist_add s fl half order false) m m_set fl in
      let high = extract_loop order (vm_freelist_add s fl m_set order false) m half fl in
      if ltb (phys_addr m) pa_half then low else high

  -- The part of the function behind the first loop.
  pub extract_from : Phys → ℕ → Option (ℕ × ℕ) → Bool × Phys
  extract_from s m none = (false, s)
  extract_from s m (some (m_set, order)) =
      let fl = s.pool m_set in
      let removed = vm_freelist_rem nfreeorder s fl m_set (s.order m_set) in
      if ltb (s.order m_set) order
      then (false, s)
      else (if s.order m_set == nfreeorder
          then (false, s)
          else (true, extract_loop (s.order m_set) removed m m_set fl))

  pub vm_phys_unfree_page : Phys → ℕ → Bool × Phys
  vm_phys_unfree_page s m = extract_from s m (find_set (nfreeorder - 1) s m m 0)
