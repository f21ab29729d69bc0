-- ===== src/Phys.antt =====
-- The buddy lists of PageoutScheduler/vm_phys.c: free pages in power-of-two blocks, by pool and order,
-- for one domain and free list. A page is its physical page number, so `&m[n]` is `m + n`; the page
-- structures of a segment lie one behind the other. `pl` and `lcnt` are the queues
-- `fl[order]` of each pool. KASSERTs and the lock assertions are left out: where one matters, a theorem
-- has it as a hypothesis.
pub mod Valid
pub mod Freelist
pub mod Add
pub mod Remove
pub mod Pool
pub mod Split
pub mod Carve
pub mod Alloc
pub mod Buddy
pub mod Merge
pub mod Free
pub mod Range
pub mod Unfree
pub mod Npages
mod Tests
use coding_projects.Prelude.{
  ℕ, zero, suc, ◌+◌, ◌-◌, ◌*◌, ◌/◌, ◌^◌, min, bit_and, bit_xor, Bool, true, false, ◌||◌, ◌&&◌, not,
  Option, none, some, List, [], ◌∷◌, ◌++◌, ltb, leb, ◌==◌, if◌then◌else◌,
}

-- A table with one place changed.
pub update {ℓ} : {A : Type ℓ} → (ℕ → A) → ℕ → A → ℕ → A
update f k v x = if x == k then v else f x

-- The fields of `vm_page` and `vm_freelist`, and the two counters of added pages.
pub record Phys : Type 0 where
  pub order : ℕ → ℕ
  pub pool : ℕ → ℕ
  pub pl : ℕ → ℕ → List ℕ
  pub lcnt : ℕ → ℕ → ℕ
  pub freelist_odd : ℕ
  pub freelist_even : ℕ

-- `VM_PAGE_TO_PHYS`; a page has 4096 bytes.
abbrev pub phys_addr : ℕ → ℕ
phys_addr m = m * 2 ^ 12

-- TAILQ_REMOVE.
pub tailq_remove : ℕ → List ℕ → List ℕ
tailq_remove m [] = []
tailq_remove m (x ∷ xs) = if x == m then xs else x ∷ tailq_remove m xs

pub tailq_first : List ℕ → Option ℕ
tailq_first [] = none
tailq_first (x ∷ xs) = some x

-- `vm_freelist_add` on the lists `fl` of a pool.
pub vm_freelist_add : Phys → ℕ → ℕ → ℕ → Bool → Phys
vm_freelist_add s fl m order tail =
    let fin_page_num = bit_and (phys_addr m / 2 ^ 12) 1 in
    let odd = not (fin_page_num == 0) in
    let old = s.pl fl order in
    let at_tail = record s {
      pl = update s.pl fl (update (s.pl fl) order (old ++ (m ∷ [])));
      freelist_odd = s.freelist_odd + 1;
    } in
    let at_head = record s {
      pl = update s.pl fl (update (s.pl fl) order (m ∷ old));
      freelist_even = s.freelist_even + 1;
    } in
    let inserted = if odd || tail then (if odd then at_tail else at_head) else at_head in
    record inserted {
      order = update s.order m order;
      lcnt = update s.lcnt fl (update (s.lcnt fl) order (s.lcnt fl order + 1));
    }

module _ (nfreeorder : ℕ) where
  pub vm_freelist_rem : Phys → ℕ → ℕ → ℕ → Phys
  vm_freelist_rem s fl m order = record s {
    pl = update s.pl fl (update (s.pl fl) order (tailq_remove m (s.pl fl order)));
    lcnt = update s.lcnt fl (update (s.lcnt fl) order (s.lcnt fl order - 1));
    order = update s.order m nfreeorder;
  }

  -- The loop of `vm_phys_split_pages`, with `oind - order` as first argument.
  pub split_loop : ℕ → Phys → ℕ → ℕ → ℕ → Bool → Phys
  split_loop zero s m fl order tail = s
  split_loop (suc left) s m fl order tail =
      let oind = order + left in
      split_loop left (vm_freelist_add s fl (m + 2 ^ oind) oind tail) m fl order tail

  pub vm_phys_split_pages : Phys → ℕ → ℕ → ℕ → ℕ → Bool → Phys
  vm_phys_split_pages s m oind fl order tail = split_loop (oind - order) s m fl order tail

  -- The loop of `vm_phys_set_pool`, with the pages left.
  pub set_pool_loop : ℕ → Phys → ℕ → ℕ → Phys
  set_pool_loop zero s pool m = s
  set_pool_loop (suc left) s pool m =
      set_pool_loop left (record s { pool = update s.pool m pool }) pool (m + 1)

  pub vm_phys_set_pool : Phys → ℕ → ℕ → ℕ → Phys
  vm_phys_set_pool s pool m order = set_pool_loop (2 ^ order) s pool m

  module _ (nfreepool : ℕ) where
    -- The first loop of `vm_phys_alloc_freelist_pages`, at `oind`.
    pub search_own : ℕ → Phys → ℕ → ℕ → ℕ → Option (ℕ × Phys)
    search_own zero s pool order oind = none
    search_own (suc left) s pool order oind =
        let rest = search_own left s pool order (oind + 1) in
        elim (tailq_first (s.pl pool oind)) [
          | some m ↦
              some (m, vm_phys_split_pages (vm_freelist_rem s pool m oind) m oind pool order true)
          | none ↦ rest
        ]

    -- The loop over the pools, from `pind` on, for one order.
    pub search_pools : ℕ → Phys → ℕ → ℕ → ℕ → ℕ → Option (ℕ × Phys)
    search_pools zero s pool order oind pind = none
    search_pools (suc left) s pool order oind pind =
        let rest = search_pools left s pool order oind (pind + 1) in
        elim (tailq_first (s.pl pind oind)) [
          | some m ↦
              let moved = vm_phys_set_pool (vm_freelist_rem s pind m oind) pool m oind in
              some (m, vm_phys_split_pages moved m oind pool order true)
          | none ↦ rest
        ]

    -- The loop from the largest order down to `order`, with the orders left.
    pub search_orders : ℕ → Phys → ℕ → ℕ → Option (ℕ × Phys)
    search_orders zero s pool order = none
    search_orders (suc left) s pool order =
        let rest = search_orders left s pool order in
        elim (search_pools nfreepool s pool order (order + left) 0) [
          | some r ↦ some r
          | none ↦ rest
        ]

    -- The page and the lists, for a free list that is present.
    pub vm_phys_alloc_freelist_pages : Phys → ℕ → ℕ → Option (ℕ × Phys)
    vm_phys_alloc_freelist_pages s pool order =
        elim (search_own (nfreeorder - order) s pool order order) [
          | some r ↦ some r
          | none ↦ search_orders (nfreeorder - order) s pool order
        ]

-- A segment of physical memory, in bytes.
pub record Segment : Type 0 where
  pub start : ℕ
  pub end : ℕ

module _ (nfreeorder : ℕ) (seg : Segment) where
  -- `&seg->first_page[atop(pa - seg->start)]`.
  abbrev pub page_at : ℕ → ℕ
  page_at pa = seg.start / 2 ^ 12 + (pa - seg.start) / 2 ^ 12

  -- The loop of `vm_phys_free_pages`, with the rounds left; the result is the lists, the page and the
  -- order after it.
  pub coalesce : ℕ → Phys → ℕ → ℕ → ℕ → Phys × ℕ × ℕ
  coalesce zero s m pa order = (s, m, order)
  coalesce (suc left) s m pa order =
      let pa1 = bit_xor pa (2 ^ (12 + order)) in
      let m_buddy = page_at pa1 in
      let s1 = vm_freelist_rem nfreeorder s (s.pool m_buddy) m_buddy order in
      let s2 =
        if s1.pool m_buddy == s1.pool m
        then s1
        else vm_phys_set_pool nfreeorder s1 (s1.pool m) m_buddy order in
      let pa2 = bit_and pa1 (2 ^ 64 - 2 ^ (12 + (order + 1))) in
      let next = coalesce left s2 (page_at pa2) pa2 (order + 1) in
      if ltb pa1 seg.start || leb seg.end pa1
      then (s, m, order)
      else (if s.order m_buddy == order then next else (s, m, order))

  pub vm_phys_free_pages : Phys → ℕ → ℕ → Phys
  vm_phys_free_pages s m order =
      let merged = coalesce (nfreeorder - 1 - order) s m (phys_addr m) order in
      vm_freelist_add merged.0 (merged.0.pool merged.1) merged.1 merged.2 true
