-- ===== src/Phys/Alloc.antt =====
-- `vm_phys_alloc_freelist_pages` of vm_phys.c: its searches, and the free pages after them.
use native.Mathlib.Decide.{ℕ_discrete, dec_lt}
use coding_projects.Prelude.{
  ℕ, zero, suc, ◌+◌, ◌-◌, ◌≤◌, ◌<◌, true, Option, none, some, List, [], ◌∷◌, ◌≡◌, refl, sym, ap,
  ◌∙◌, arith, inl, inr, subst, Option-cases, ==_refl,
}
use coding_projects.Phys.{
  Phys, tailq_first, vm_freelist_rem, vm_phys_set_pool, vm_phys_split_pages, search_own,
  search_pools, search_orders, vm_phys_alloc_freelist_pages,
}
use coding_projects.Phys.Valid.{count, listed_times, IsValid}
use coding_projects.Phys.Carve.{Allocated, first-Heads, carve_own, carve_moved}

-- A search has allocated a block, or else `E` holds.
abbrev pub Came : (n p : ℕ) → Phys → ℕ → Type 0 → Option (ℕ × Phys) → Type 0
Came n p s o E none = E
Came n p s o E (some (m, s')) = Allocated n p s o m s'

pub nil_of_first : (xs : List ℕ) → tailq_first xs ≡ none → xs ≡ []
unfolding tailq_first
nil_of_first [] e = refl
nil_of_first (x ∷ xs) e = cc

module _ (n p : ℕ) (s : Phys) (fl o : ℕ) (v : IsValid n p s) (has_pool : fl < p) where
  own_none :
      (left oind : ℕ)
      → tailq_first (s.pl fl oind) ≡ none
      → search_own n p (suc left) s fl o oind ≡ search_own n p left s fl o (oind + 1)
  unfolding search_own
  own_none left oind e = rw (e, search_own) refl

  own_some :
      (left oind m : ℕ)
      → tailq_first (s.pl fl oind) ≡ some m
      → search_own n p (suc left) s fl o oind
        ≡ some (m, vm_phys_split_pages n (vm_freelist_rem n s fl m oind) m oind fl o true)
  unfolding search_own
  own_some left oind m e = rw (e, search_own) refl

  own_wider :
      (oind : ℕ) (r : Option (ℕ × Phys))
      → s.pl fl oind ≡ []
      → Came n p s o ((k : ℕ) → oind + 1 ≤ k → k < n → s.pl fl k ≡ []) r
      → Came n p s o ((k : ℕ) → oind ≤ k → k < n → s.pl fl k ≡ []) r
  own_wider oind none empty rest = λ k l r. elim (ℕ_discrete k oind) [
    | yes e ↦ ap (s.pl fl) e ∙ empty
    | no ne ↦ rest k (omega arith) r
  ]
  own_wider oind (some (m, s')) empty rest = rest

  search_own-Came :
      (left oind : ℕ)
      → o ≤ oind
      → oind + left ≡ n
      → Came n p s o ((k : ℕ) → oind ≤ k → k < n → s.pl fl k ≡ []) (search_own n p left s fl o oind)
  unfolding search_own
  search_own-Came zero oind le e = λ k l r. absurd (omega arith)
  search_own-Came (suc left) oind le e = elim (Option-cases (tailq_first (s.pl fl oind))) [
    | inl nothing ↦
        subst (Came n p s o ((k : ℕ) → oind ≤ k → k < n → s.pl fl k ≡ []))
          (sym (own_none left oind nothing))
          (own_wider oind (search_own n p left s fl o (oind + 1))
            (nil_of_first (s.pl fl oind) nothing)
            (search_own-Came left (oind + 1) (omega arith) (omega arith)))
    | inr (m, here) ↦
        subst (Came n p s o ((k : ℕ) → oind ≤ k → k < n → s.pl fl k ≡ []))
          (sym (own_some left oind m here))
          (carve_own n p s fl m oind o v (first-Heads n p s fl oind m v (omega arith) here)
            (omega arith) le has_pool)
  ]

  abbrev moved_from : ℕ → ℕ → ℕ → Phys
  moved_from pind oind m = vm_phys_set_pool n (vm_freelist_rem n s pind m oind) fl m oind

  pools_none :
      (left oind pind : ℕ)
      → tailq_first (s.pl pind oind) ≡ none
      → search_pools n p (suc left) s fl o oind pind ≡ search_pools n p left s fl o oind (pind + 1)
  unfolding search_pools
  pools_none left oind pind e = rw (e, search_pools) refl

  pools_some :
      (left oind pind m : ℕ)
      → tailq_first (s.pl pind oind) ≡ some m
      → search_pools n p (suc left) s fl o oind pind
        ≡ some (m, vm_phys_split_pages n (moved_from pind oind m) m oind fl o true)
  unfolding search_pools
  pools_some left oind pind m e = rw (e, search_pools) refl

  -- The lists of one order are empty for the pools from `pind` on.
  abbrev EmptyFrom : ℕ → ℕ → Type 0
  EmptyFrom oind pind = (k : ℕ) → pind ≤ k → k < p → s.pl k oind ≡ []

  pools_wider :
      (oind pind : ℕ) (r : Option (ℕ × Phys))
      → s.pl pind oind ≡ []
      → Came n p s o (EmptyFrom oind (pind + 1)) r
      → Came n p s o (EmptyFrom oind pind) r
  pools_wider oind pind none empty rest = λ k l r. elim (ℕ_discrete k pind) [
    | yes e ↦ ap (λ (q : ℕ). s.pl q oind) e ∙ empty
    | no ne ↦ rest k (omega arith) r
  ]
  pools_wider oind pind (some (m, s')) empty rest = rest

  search_pools-Came :
      (left oind pind : ℕ)
      → o ≤ oind
      → oind < n
      → pind + left ≡ p
      → Came n p s o (EmptyFrom oind pind) (search_pools n p left s fl o oind pind)
  unfolding search_pools
  search_pools-Came zero oind pind le lt e = λ k l r. absurd (omega arith)
  search_pools-Came (suc left) oind pind le lt e =
      elim (Option-cases (tailq_first (s.pl pind oind))) [
        | inl nothing ↦
            subst (Came n p s o (EmptyFrom oind pind)) (sym (pools_none left oind pind nothing)) (
              pools_wider oind pind (search_pools n p left s fl o oind (pind + 1))
                (nil_of_first (s.pl pind oind) nothing)
                (search_pools-Came left oind (pind + 1) le lt (omega arith)))
        | inr (m, here) ↦
            subst (Came n p s o (EmptyFrom oind pind)) (sym (pools_some left oind pind m here)) (
              carve_moved n p s pind m oind o v (first-Heads n p s pind oind m v lt here) fl lt le
                has_pool)
      ]

  -- The lists of the orders from `o` to below `o + left` are empty for all pools.
  abbrev EmptyBelow : ℕ → Type 0
  EmptyBelow left = (k : ℕ) → o ≤ k → k < o + left → EmptyFrom k 0

  orders_step : ℕ → Option (ℕ × Phys) → Option (ℕ × Phys)
  orders_step left r = elim r [ some r ↦ some r | none ↦ search_orders n p left s fl o ]

  orders_step-Came :
      (left : ℕ) (r : Option (ℕ × Phys))
      → Came n p s o (EmptyFrom (o + left) 0) r
      → Came n p s o (EmptyBelow left) (search_orders n p left s fl o)
      → Came n p s o (EmptyBelow (suc left)) (orders_step left r)
  unfolding orders_step
  orders_step-Came left (some (m, s')) here rest = here
  orders_step-Came left none here rest = wider (search_orders n p left s fl o) rest
    where
      wider :
          (r : Option (ℕ × Phys))
          → Came n p s o (EmptyBelow left) r
          → Came n p s o (EmptyBelow (suc left)) r
      wider none rest = λ k l r. elim (ℕ_discrete k (o + left)) [
        | yes e ↦ λ q a b. ap (s.pl q) e ∙ here q a b
        | no ne ↦ rest k l (omega arith)
      ]
      wider (some (m, s')) rest = rest

  search_orders-Came :
      (left : ℕ) → o + left ≤ n → Came n p s o (EmptyBelow left) (search_orders n p left s fl o)
  unfolding search_orders orders_step
  search_orders-Came zero le = λ k l r. absurd (omega arith)
  search_orders-Came (suc left) le =
      orders_step-Came left (search_pools n p p s fl o (o + left) 0)
        (search_pools-Came p (o + left) 0 (omega arith) (omega arith) (omega arith))
        (search_orders-Came left (omega arith))

  own_then : Option (ℕ × Phys) → Option (ℕ × Phys)
  own_then r = elim r [ some r ↦ some r | none ↦ search_orders n p (n - o) s fl o ]

  -- There is no free block of `2 ^ o` pages or more.
  abbrev pub NoLarger : Type 0
  NoLarger = (h : ℕ) → s.order h < n → s.order h < o

  empty-NoLarger : EmptyBelow (n - o) → NoLarger
  unfolding listed_times count
  empty-NoLarger empty h below = elim (dec_lt (s.order h) o) [
    | yes small ↦ small
    | no large ↦
        let none_there : s.pl (s.pool h) (s.order h) ≡ [] =
          empty (s.order h) (omega arith) (omega arith) (s.pool h) (omega arith)
            (v.pools h below) in
        let once : count h (s.pl (s.pool h) (s.order h)) ≡ 1 =
          v.listed (s.pool h) (s.order h) h below
          ∙ rw (==_refl (s.order h), ==_refl (s.pool h)) refl in
        absurd (omega (arith, ap (count h) none_there))
  ]

  own_then-Came :
      (E : Type 0) (r : Option (ℕ × Phys))
      → Came n p s o E r
      → Came n p s o (EmptyBelow (n - o)) (search_orders n p (n - o) s fl o)
      → Came n p s o NoLarger (own_then r)
  unfolding own_then
  own_then-Came E (some (m, s')) here rest = here
  own_then-Came E none here rest = settle (search_orders n p (n - o) s fl o) rest
    where
      settle :
          (r : Option (ℕ × Phys)) → Came n p s o (EmptyBelow (n - o)) r → Came n p s o NoLarger r
      settle none empty = empty-NoLarger empty
      settle (some (m, s')) here = here

  -- On valid lists, for a pool and an order in range, `vm_phys_alloc_freelist_pages` gives an aligned
  -- block of `2 ^ o` pages that were all free, leaves valid lists with the free pages there were but
  -- the block's, and gives nothing only when no free block has that many pages.
  pub alloc_freelist_pages_lem :
      o < n → Came n p s o NoLarger (vm_phys_alloc_freelist_pages n p s fl o)
  unfolding vm_phys_alloc_freelist_pages own_then
  alloc_freelist_pages_lem lt =
      own_then-Came _ (search_own n p (n - o) s fl o o)
        (search_own-Came (n - o) o (omega arith) (omega arith))
        (search_orders-Came (n - o) (omega arith))
