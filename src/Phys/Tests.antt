-- ===== src/Phys/Tests.antt =====
-- Runs of the buddy lists on 3 orders and 2 pools, and of their theorems.
use coding_projects.Prelude.{
  ℕ, ◌*◌, ◌^◌, ◌≤◌, ◌<◌, false, [], ◌≡◌, refl, arith, ◌==◌, ◌↔◌, ◌⊎◌, inl, inr, Bool-cases, ==_iff,
  ap, sym, ◌∙◌,
}
use coding_projects.Phys.{
  Phys, Segment, update, coalesce, vm_freelist_add, vm_phys_alloc_freelist_pages,
  vm_phys_free_pages,
}
use coding_projects.Phys.Valid.{count, listed_times, InBlock, Free, IsValid, IsUsed}
use coding_projects.Phys.Freelist.{freelist_add-Adds}
use coding_projects.Phys.Add.{freelist_add_lem}
use coding_projects.Phys.Alloc.{Came, NoLarger, alloc_freelist_pages_lem}
use coding_projects.Phys.Merge.{Loose}
use coding_projects.Phys.Free.{free_pages_lem}
use coding_projects.Phys.Range.{vm_phys_free_contig}
use coding_projects.Phys.Range.Freed.{LooseRange, Freed}
use coding_projects.Phys.Range.Contig.{free_contig_lem}
use coding_projects.Phys.Unfree.{vm_phys_unfree_page}
use coding_projects.Phys.Unfree.Whole.{Answered, unfree_page_lem}
use coding_projects.Phys.Npages.{vm_phys_alloc_npages}
use coding_projects.Phys.Npages.Whole.{Returned, alloc_npages_lem}

abbrev none_listed : Phys
none_listed = record {
  order = λ m. 3;
  pool = λ m. 0;
  pl = λ fl o. [];
  lcnt = λ fl o. 0;
  freelist_odd = 0;
  freelist_even = 0;
}

none_listed-IsValid : IsValid 3 2 none_listed
unfolding count listed_times
none_listed-IsValid = record {
  lengths = λ fl o. refl;
  listed = λ fl o m lt. elim (Bool-cases (3 == o)) [
    | inl e ↦ absurd (omega (arith, (==_iff 3 o).0 e))
    | inr ne ↦ rw ne refl
  ];
  bounded = λ m. omega arith;
  inner = λ m x below. absurd (omega arith);
  aligned = λ m below. absurd (omega arith);
  uniform = λ m x below. absurd (omega arith);
  pools = λ m below. absurd (omega arith);
}

none_listed-IsUsed : (m o : ℕ) → IsUsed 3 2 none_listed m o
unfolding IsUsed
none_listed-IsUsed m o x inside f = omega (arith, f.below)

-- The pages 4 to 7 are one free block.
abbrev stocked : Phys
stocked = vm_freelist_add none_listed 0 4 2 false

stocked-IsValid : IsValid 3 2 stocked
stocked-IsValid =
    (freelist_add_lem 3 2 none_listed 0 4 2 false none_listed-IsValid (omega arith) (omega arith)
      (λ x inside. refl) (omega arith) (none_listed-IsUsed 4 2)).0

alloc_freelist_pages_lem_example :
    Came 3 2 stocked 0
      (NoLarger 3 2 stocked 0 0 stocked-IsValid (omega arith))
      (vm_phys_alloc_freelist_pages 3 2 stocked 0 0)
alloc_freelist_pages_lem_example =
    alloc_freelist_pages_lem 3 2 stocked 0 0 stocked-IsValid (omega arith) (omega arith)

-- The pages 4 and 5 are free, and 6 and 7 are freed.
abbrev half : Phys
half = vm_freelist_add none_listed 0 4 1 false

half_lem : IsValid 3 2 half × ((x : ℕ) → Free 3 2 half x ↔ Free 3 2 none_listed x ⊎ InBlock 4 1 x)
half_lem =
    freelist_add_lem 3 2 none_listed 0 4 1 false none_listed-IsValid (omega arith) (omega arith)
      (λ x inside. refl) (omega arith) (none_listed-IsUsed 4 1)

half-IsUsed : IsUsed 3 2 half 6 1
unfolding IsUsed
half-IsUsed x inside f = elim ((half_lem.1 x).0 f) [
  | inl f' ↦ omega (arith, f'.below)
  | inr low ↦ omega (arith, low, inside)
]

half_pool : (x : ℕ) → half.pool x ≡ 0
half_pool x = ap (λ f. f x) (freelist_add-Adds none_listed 0 4 1 false).same_pool

half-Loose : Loose 3 2 half 6 1
half-Loose = record {
  valid = half_lem.0;
  fits = omega arith;
  start = omega arith;
  used = half-IsUsed;
  same_pool = λ x inside. half_pool x ∙ sym (half_pool 6);
  has_pool = omega (arith, half_pool 6);
}

abbrev memory : Segment
memory = record { start = 4096; end = 65536 }

free_pages_lem_example :
    IsValid 3 2 (vm_phys_free_pages 3 memory half 6 1)
    × ((x : ℕ)
        → Free 3 2 (vm_phys_free_pages 3 memory half 6 1) x ↔ Free 3 2 half x ⊎ InBlock 6 1 x)
    × ((x : ℕ) → ¬ Free 3 2 half x → (vm_phys_free_pages 3 memory half 6 1).pool x ≡ half.pool x)
free_pages_lem_example =
    free_pages_lem 3 2 memory (omega arith) (omega arith) (omega arith) half 6 1 half-Loose
      (omega arith)

run-LooseRange : LooseRange 3 2 none_listed 5 7 0
run-LooseRange = record {
  valid = none_listed-IsValid;
  used = λ x inside f. omega (arith, f.below);
  same_pool = λ x inside. refl;
  has_pool = omega arith;
}

free_contig_lem_example : Freed 3 2 none_listed (vm_phys_free_contig 3 memory none_listed 5 7) 5 7
free_contig_lem_example =
    free_contig_lem 3 2 0 memory (omega arith) (omega arith) (omega arith) (omega arith) none_listed
      5 7 (omega arith) run-LooseRange (omega arith)

head_at : (h : ℕ) → stocked.order h < 3 → InBlock h (stocked.order h) 6 → memory.start ≤ h * 2 ^ 12
unfolding update vm_freelist_add
head_at h below inside = elim (Bool-cases (h == 4)) [
  | inl e ↦ omega (arith, (==_iff h 4).0 e)
  | inr ne ↦ absurd (omega (arith, rw ne at below))
]

unfree_page_lem_example :
    Answered 3 2 memory stocked 6 stocked-IsValid
      (omega arith)
      (omega arith)
      (omega arith)
      (omega arith)
      head_at
      (vm_phys_unfree_page 3 memory stocked 6)
unfree_page_lem_example =
    unfree_page_lem 3 2 memory stocked 6 stocked-IsValid (omega arith) (omega arith) (omega arith)
      (omega arith) head_at (omega arith)

alloc_npages_lem_example :
    Returned 3 2 3 stocked (omega arith) 1 (omega arith) (vm_phys_alloc_npages 3 2 3 stocked 1)
alloc_npages_lem_example =
    alloc_npages_lem 3 2 3 stocked (omega arith) 1 (omega arith) stocked-IsValid

-- The two blocks have become one.
merged_order : (vm_phys_free_pages 3 memory half 6 1).order 4 ≡ 2
unfolding vm_phys_free_pages vm_freelist_add update coalesce
merged_order = refl
