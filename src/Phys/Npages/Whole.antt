-- ===== src/Phys/Npages/Whole.antt =====
-- The loops of `vm_phys_alloc_npages` in vm_phys.c over orders and pools, and the function as a whole.
use native.Mathlib.Decide.{ℕ_discrete}
use coding_projects.Prelude.{
  ℕ, zero, suc, ◌+◌, ◌≤◌, ◌<◌, List, [], length, ◌≡◌, refl, sym, ap, ◌∙◌, arith, inl, inr, subst,
  none, some, Option-cases, ==_refl,
}
use coding_projects.Phys.{Phys, tailq_first, vm_freelist_rem, vm_phys_set_pool}
use coding_projects.Phys.Valid.{count, listed_times, Free, IsValid}
use coding_projects.Phys.Alloc.{nil_of_first}
use coding_projects.Phys.Npages.{
  Filling, full, going, and_then, take_block, drain_alt, own_orders, alt_pools, alt_orders,
  returned, vm_phys_alloc_npages,
}
use coding_projects.Phys.Npages.Took.{Took}
use coding_projects.Phys.Npages.Drain.{Shrinks, Good}
use coding_projects.Phys.Npages.Own.{
  Drained, and_then-Good, wider, Round-Good, moved-Round, moved-Shrinks, drain_own-Good,
}

module _ (n p npages : ℕ) (s0 : Phys) (small : n ≤ 32) (to : ℕ) (has_pool : to < p) where
  abbrev Filled : (Phys → Type 0) → Filling → Type 0
  Filled = Good n p npages s0

  abbrev after_move : Phys → ℕ → ℕ → ℕ → Phys
  after_move s pind oind m = vm_phys_set_pool n (vm_freelist_rem n s pind m oind) to m oind

  alt_stop :
      (left : ℕ) (s : Phys) (oind pind : ℕ) (ma : List ℕ)
      → tailq_first (s.pl pind oind) ≡ none
      → drain_alt n p npages (suc left) s to oind pind ma ≡ going s ma
  unfolding drain_alt
  alt_stop left s oind pind ma e = rw (e, drain_alt) refl

  alt_on :
      (left : ℕ) (s : Phys) (oind pind m : ℕ) (ma : List ℕ)
      → tailq_first (s.pl pind oind) ≡ some m
      → drain_alt n p npages (suc left) s to oind pind ma
        ≡ and_then
            (take_block n p npages (after_move s pind oind m) to m oind ma)
            (λ s' ma'. drain_alt n p npages left s' to oind pind ma')
  unfolding drain_alt
  alt_on left s oind pind m ma e = rw (e, drain_alt) refl

  -- A list is empty, and none has got its first block.
  abbrev Emptied : ℕ → ℕ → Phys → Phys → Type 0
  Emptied k j s s' = (s'.pl k j ≡ []) × Shrinks s s'

  drain_alt-Good :
      (left : ℕ) (s : Phys) (oind pind : ℕ) (ma : List ℕ)
      → oind < n
      → Took n p s0 s ma
      → length ma ≤ npages
      → npages < length ma + left
      → Filled (Emptied pind oind s) (drain_alt n p npages left s to oind pind ma)
  unfolding drain_alt
  drain_alt-Good zero s oind pind ma lt t so_far enough = absurd (omega arith)
  drain_alt-Good (suc left) s oind pind ma lt t so_far enough =
      elim (Option-cases (tailq_first (s.pl pind oind))) [
        | inl e ↦
            subst (Filled (Emptied pind oind s)) (sym (alt_stop left s oind pind ma e))
              (t, so_far, (nil_of_first (s.pl pind oind) e, λ k j q. q))
        | inr (m, e) ↦
            let s2 = after_move s pind oind m in
            subst (Filled (Emptied pind oind s)) (sym (alt_on left s oind pind m ma e)) (
              Round-Good n p npages s0 small to has_pool (Emptied pind oind s) ma s2
                (λ s' ma'. drain_alt n p npages left s' to oind pind ma') _
                (moved-Round n p npages s0 small to has_pool s ma t so_far pind oind m lt e)
                (λ ma' t' so_far' longer.
                  wider n p npages s0 small to has_pool (Emptied pind oind s2) (Emptied pind oind s)
                    (drain_alt n p npages left s2 to oind pind ma')
                    (drain_alt-Good left s2 oind pind ma' lt t' so_far' (omega arith))
                    (λ s3 d. (
                      d.0,
                      λ k j q. d.1 k j (
                          moved-Shrinks n p npages s0 small to has_pool s ma t so_far pind oind m lt
                            e k j q),
                    ))))
      ]

  own_orders-Good :
      (left : ℕ) (s : Phys) (oind : ℕ) (ma : List ℕ)
      → oind + left ≡ n
      → Took n p s0 s ma
      → length ma ≤ npages
      → Filled (Shrinks s) (own_orders n p npages left s to oind ma)
  unfolding own_orders
  own_orders-Good zero s oind ma e t so_far = (t, so_far, λ k j q. q)
  own_orders-Good (suc left) s oind ma e t so_far =
      and_then-Good n p npages s0 small to has_pool
        (Drained n p npages s0 small to has_pool to oind s) (Shrinks s)
        (λ s' ma'. own_orders n p npages left s' to (oind + 1) ma') _
        (drain_own-Good n p npages s0 small to has_pool (suc npages) s oind ma (omega arith) t
          so_far (omega arith))
        (λ s' ma' t' so_far' d.
          wider n p npages s0 small to has_pool (Shrinks s') (Shrinks s)
            (own_orders n p npages left s' to (oind + 1) ma')
            (own_orders-Good left s' (oind + 1) ma' (omega arith) t' so_far')
            (λ s3 q k j r. q k j (d.1 k j r)))

  -- The lists of an order are empty for the pools from `pind` on.
  abbrev EmptyPools : ℕ → ℕ → Phys → Type 0
  EmptyPools oind pind s = (k : ℕ) → pind ≤ k → k < p → s.pl k oind ≡ []

  more_pools :
      (oind pind : ℕ) (s : Phys)
      → s.pl pind oind ≡ []
      → EmptyPools oind (pind + 1) s
      → EmptyPools oind pind s
  more_pools oind pind s here rest k l r = elim (ℕ_discrete k pind) [
    | yes e ↦ ap (λ (q : ℕ). s.pl q oind) e ∙ here
    | no ne ↦ rest k (omega arith) r
  ]

  alt_pools-Good :
      (left : ℕ) (s : Phys) (oind pind : ℕ) (ma : List ℕ)
      → oind < n
      → pind + left ≡ p
      → Took n p s0 s ma
      → length ma ≤ npages
      → Filled
          (λ s'. EmptyPools oind pind s' × Shrinks s s')
          (alt_pools n p npages left s to oind pind ma)
  unfolding alt_pools
  alt_pools-Good zero s oind pind ma lt e t so_far =
      (t, so_far, (λ k l r. absurd (omega arith), λ k j q. q))
  alt_pools-Good (suc left) s oind pind ma lt e t so_far =
      and_then-Good n p npages s0 small to has_pool (Emptied pind oind s)
        (λ s'. EmptyPools oind pind s' × Shrinks s s')
        (λ s' ma'. alt_pools n p npages left s' to oind (pind + 1) ma') _
        (drain_alt-Good (suc npages) s oind pind ma lt t so_far (omega arith))
        (λ s' ma' t' so_far' d.
          wider n p npages s0 small to has_pool
            (λ s''. EmptyPools oind (pind + 1) s'' × Shrinks s' s'')
            (λ s''. EmptyPools oind pind s'' × Shrinks s s'')
            (alt_pools n p npages left s' to oind (pind + 1) ma')
            (alt_pools-Good left s' oind (pind + 1) ma' lt (omega arith) t' so_far')
            (λ s3 q.
              (more_pools oind pind s3 (q.1 pind oind d.0) q.0, λ k j r. q.1 k j (d.1 k j r))))

  -- All lists of the orders below `left` are empty.
  abbrev EmptyOrders : ℕ → Phys → Type 0
  EmptyOrders left s = (j : ℕ) → j < left → EmptyPools j 0 s

  more_orders :
      (left : ℕ) (s s' : Phys)
      → EmptyPools left 0 s
      → Shrinks s s'
      → EmptyOrders left s'
      → EmptyOrders (suc left) s'
  more_orders left s s' here shrinks rest j l k a b = elim (ℕ_discrete j left) [
    | yes e ↦ ap (s'.pl k) e ∙ shrinks k left (here k a b)
    | no ne ↦ rest j (omega arith) k a b
  ]

  alt_orders-Good :
      (left : ℕ) (s : Phys) (ma : List ℕ)
      → left ≤ n
      → Took n p s0 s ma
      → length ma ≤ npages
      → Filled (λ s'. EmptyOrders left s' × Shrinks s s') (alt_orders n p npages left s to ma)
  unfolding alt_orders
  alt_orders-Good zero s ma le t so_far = (t, so_far, (λ j l. absurd (omega arith), λ k j q. q))
  alt_orders-Good (suc left) s ma le t so_far =
      and_then-Good n p npages s0 small to has_pool (λ s'. EmptyPools left 0 s' × Shrinks s s')
        (λ s'. EmptyOrders (suc left) s' × Shrinks s s')
        (λ s' ma'. alt_orders n p npages left s' to ma') _
        (alt_pools-Good p s left 0 ma (omega arith) (omega arith) t so_far)
        (λ s' ma' t' so_far' d.
          wider n p npages s0 small to has_pool (λ s''. EmptyOrders left s'' × Shrinks s' s'')
            (λ s''. EmptyOrders (suc left) s'' × Shrinks s s'')
            (alt_orders n p npages left s' to ma')
            (alt_orders-Good left s' ma' (omega arith) t' so_far')
            (λ s3 q. (more_orders left s' s3 d.0 q.1 q.0, λ k j r. q.1 k j (d.1 k j r))))

  -- What the function returns: the pages, and no page is free if there are fewer than asked for.
  pub record Returned (r : ℕ × List ℕ × Phys) : Type 0 where
    pub took : Took n p s0 r.2 r.1
    pub number : r.0 ≡ length r.1
    pub at_most : r.0 ≤ npages
    pub all_or_enough : r.0 < npages → (x : ℕ) → ¬ Free n p r.2 x

  none_free : (s : Phys) → IsValid n p s → EmptyOrders n s → (x : ℕ) → ¬ Free n p s x
  unfolding listed_times count
  none_free s v empty x f =
      let h = f.head in
      let gone : s.pl (s.pool h) (s.order h) ≡ [] =
        empty (s.order h) f.below (s.pool h) (omega arith) (v.pools h f.below) in
      let once : count h (s.pl (s.pool h) (s.order h)) ≡ 1 =
        v.listed (s.pool h) (s.order h) h f.below
        ∙ rw (==_refl (s.order h), ==_refl (s.pool h)) refl in
      omega (arith, ap (count h) gone, once)

  returned-Returned : (r : Filling) → Filled (EmptyOrders n) r → Returned (returned n p npages r)
  unfolding returned
  returned-Returned (full s ma) (t, all) = record {
    took = t;
    number = sym all;
    at_most = omega arith;
    all_or_enough = λ less. absurd (omega arith);
  }
  returned-Returned (going s ma) (t, so_far, empty) = record {
    took = t;
    number = refl;
    at_most = so_far;
    all_or_enough = λ less. none_free s t.valid empty;
  }

  nothing_taken : IsValid n p s0 → Took n p s0 s0 []
  unfolding count
  nothing_taken v = record {
    valid = v;
    free = λ x. (λ f. (f, refl), λ f. f.0);
    was_free = λ x more. absurd (omega arith);
    once = λ x. omega arith;
  }

  -- On valid lists, for a pool in range, `vm_phys_alloc_npages` leaves valid lists; the pages in the
  -- array are all different, were free and are free no more, and the others are as they were; their
  -- number is the result, which is at most the number asked for, and less only if no page is free any
  -- more.
  pub alloc_npages_lem : IsValid n p s0 → Returned (vm_phys_alloc_npages n p npages s0 to)
  unfolding vm_phys_alloc_npages
  alloc_npages_lem v = returned-Returned _ (
      and_then-Good n p npages s0 small to has_pool (Shrinks s0) (EmptyOrders n)
        (λ s' ma. alt_orders n p npages n s' to ma) (own_orders n p npages n s0 to 0 [])
        (own_orders-Good n s0 0 [] (omega arith) (nothing_taken v) (omega arith))
        (λ s' ma t so_far shrinks.
          wider n p npages s0 small to has_pool (λ s''. EmptyOrders n s'' × Shrinks s' s'')
            (EmptyOrders n) (alt_orders n p npages n s' to ma)
            (alt_orders-Good n s' ma (omega arith) t so_far) (λ s3 q. q.0)))
