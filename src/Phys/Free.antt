-- ===== src/Phys/Free.antt =====
-- `vm_phys_free_pages` of vm_phys.c: its loop, and the free pages after it.
use coding_projects.Prelude.{
  ℕ, zero, suc, ◌+◌, ◌-◌, ◌*◌, ◌%◌, ◌^◌, ◌≤◌, ◌<◌, bit_and, ltb, leb, ◌||◌, ◌≡◌, refl, sym, ap, ◌∙◌,
  arith, ◌==◌, inl, inr, ◌⊎◌, ◌↔◌, subst, Bool, true, false, Bool-cases, ==_iff,
}
use coding_projects.Phys.{Phys, vm_freelist_add, Segment, page_at, coalesce, vm_phys_free_pages}
use coding_projects.Phys.Valid.{InBlock, Free, IsValid}
use coding_projects.Phys.Freelist.{freelist_add-Adds}
use coding_projects.Phys.Add.{freelist_add_lem}
use coding_projects.Phys.Buddy.{Pair, buddy, merged, buddy_pair}
use coding_projects.Phys.Merge.{
  Loose, joined, joined-Loose, joined-Free, joined_pool, joined_was_free,
}

-- The page structures of the segment stand for whole pages.
pub page_at_address :
    (n : ℕ) (seg : Segment) (y : ℕ)
    → seg.start % 2 ^ 12 ≡ 0
    → seg.start ≤ y * 2 ^ 12
    → page_at n seg (y * 2 ^ 12) ≡ y
page_at_address n seg y whole below = omega arith

-- The block in hand after some rounds, next to the state before them.
record Coalesced (n p : ℕ) (s : Phys) (m o : ℕ) (r : Phys × ℕ × ℕ) : Type 0 where
  loose : Loose n p r.0 r.1 r.2
  free : (x : ℕ) → Free n p r.0 x ⊎ InBlock r.1 r.2 x ↔ Free n p s x ⊎ InBlock m o x
  kept : (x : ℕ) → ¬ Free n p s x → r.0.pool x ≡ s.pool x

module _ (n p : ℕ) (seg : Segment) (whole : seg.start % 2 ^ 12 ≡ 0) (last : seg.end ≤ 2 ^ 64)
    (orders : n ≤ 52) where
  stays : (s : Phys) (m o : ℕ) → Loose n p s m o → Coalesced n p s m o (s, m, o)
  stays s m o l = record { loose = l; free = λ x. (λ f. f, λ f. f); kept = λ x used. refl }

  abbrev outside : ℕ → Bool
  outside b = ltb (b * 2 ^ 12) seg.start || leb seg.end (b * 2 ^ 12)

  step_out :
      (left : ℕ) (s : Phys) (m o b both : ℕ)
      → Pair m o b both
      → outside b ≡ true
      → coalesce n seg (suc left) s m (m * 2 ^ 12) o ≡ (s, m, o)
  unfolding coalesce
  step_out left s m o b both pair out = rw (coalesce, pair.xor_is, out) refl

  step_other :
      (left : ℕ) (s : Phys) (m o b both : ℕ)
      → Pair m o b both
      → outside b ≡ false
      → page_at n seg (b * 2 ^ 12) ≡ b
      → (s.order b == o) ≡ false
      → coalesce n seg (suc left) s m (m * 2 ^ 12) o ≡ (s, m, o)
  unfolding coalesce
  step_other left s m o b both pair within at_b ne =
      rw (coalesce, pair.xor_is, within, at_b, ne) refl

  step_joined :
      (left : ℕ) (s : Phys) (m o b both : ℕ)
      → Pair m o b both
      → outside b ≡ false
      → page_at n seg (b * 2 ^ 12) ≡ b
      → (s.order b == o) ≡ true
      → bit_and (b * 2 ^ 12) (2 ^ 64 - 2 ^ (12 + (o + 1))) ≡ both * 2 ^ 12
      → page_at n seg (both * 2 ^ 12) ≡ both
      → coalesce n seg (suc left) s m (m * 2 ^ 12) o
        ≡ coalesce n seg left (joined n s m b o) both (both * 2 ^ 12) (o + 1)
  unfolding coalesce
  step_joined left s m o b both pair within at_b eq mask at_both =
      rw (coalesce, pair.xor_is, within, at_b, eq, mask, at_both) refl

  -- The buddy lies in the segment.
  within_segment : (b : ℕ) → outside b ≡ false → (seg.start ≤ b * 2 ^ 12) × (b * 2 ^ 12 < seg.end)
  within_segment b e = ground arith

  coalesce-Coalesced :
      (left : ℕ) (s : Phys) (m o : ℕ)
      → o + left ≡ n - 1
      → Loose n p s m o
      → seg.start ≤ m * 2 ^ 12
      → Coalesced n p s m o (coalesce n seg left s m (m * 2 ^ 12) o)
  unfolding coalesce
  coalesce-Coalesced zero s m o e l place = stays s m o l
  coalesce-Coalesced (suc left) s m o e l place =
      let b = buddy m o l.start in
      let both = merged m o l.start in
      let pair = buddy_pair m o l.start in
      elim (Bool-cases (outside b)) [
        | inl out ↦
            subst (Coalesced n p s m o) (sym (step_out left s m o b both pair out)) (stays s m o l)
        | inr within ↦
            let range = within_segment b within in
            let at_b = page_at_address n seg b whole range.0 in
            elim (Bool-cases (s.order b == o)) [
              | inl eq ↦
                  let start_both : seg.start ≤ both * 2 ^ 12 = elim pair.places [
                    | inl here ↦ omega (arith, here, place)
                    | inr there ↦ omega (arith, there, range)
                  ] in
                  let order_b = (==_iff (s.order b) o).0 eq in
                  let mask = pair.mask_is (omega (arith, e, orders)) (omega (arith, range, last)) in
                  let step =
                    step_joined left s m o b both pair within at_b eq mask
                      (page_at_address n seg both whole start_both) in
                  let rest =
                    coalesce-Coalesced left (joined n s m b o) both (o + 1) (omega (arith, e))
                      (joined-Loose n p s m o b both l pair order_b (omega (arith, e)))
                      start_both in
                  let same = joined-Free n p s m o b both l pair order_b in
                  subst (Coalesced n p s m o) (sym step) (record {
                    loose = rest.loose;
                    free = λ x.
                        (λ f. (same x).0 ((rest.free x).0 f), λ f. (rest.free x).1 ((same x).1 f));
                    kept = λ x used.
                        rest.kept x
                          (λ f. used (joined_was_free n p s m o b both l pair order_b x f))
                        ∙ joined_pool n p s m o b both l pair order_b x used;
                  })
              | inr ne ↦
                  subst (Coalesced n p s m o)
                    (sym (step_other left s m o b both pair within at_b ne)) (stays s m o l)
            ]
      ]

  added_pool : (s : Phys) (fl m o : ℕ) → (vm_freelist_add s fl m o true).pool ≡ s.pool
  added_pool s fl m o = (freelist_add-Adds s fl m o true).same_pool

  -- On valid lists, `vm_phys_free_pages` of an aligned block none of whose pages is free, of one pool,
  -- of fewer than `VM_NFREEORDER` orders, in a segment of whole pages with 64-bit addresses, leaves
  -- valid lists on which the pages of the block are free and the others are as they were, whichever
  -- buddies it merges the block with; pages that were not free keep their pool.
  pub free_pages_lem :
      (s : Phys) (m o : ℕ)
      → Loose n p s m o
      → seg.start ≤ m * 2 ^ 12
      → IsValid n p (vm_phys_free_pages n seg s m o)
        × ((x : ℕ) → Free n p (vm_phys_free_pages n seg s m o) x ↔ Free n p s x ⊎ InBlock m o x)
        × ((x : ℕ) → ¬ Free n p s x → (vm_phys_free_pages n seg s m o).pool x ≡ s.pool x)
  unfolding vm_phys_free_pages
  free_pages_lem s m o l place =
      let r = coalesce n seg (n - 1 - o) s m (m * 2 ^ 12) o in
      let c = coalesce-Coalesced (n - 1 - o) s m o (omega (arith, l.fits)) l place in
      let added =
        freelist_add_lem n p r.0 (r.0.pool r.1) r.1 r.2 true c.loose.valid c.loose.fits
          c.loose.has_pool c.loose.same_pool c.loose.start c.loose.used in
      (
        added.0,
        λ x. (λ f. (c.free x).0 ((added.1 x).0 f), λ f. (added.1 x).1 ((c.free x).1 f)),
        λ x used. ap (λ f. f x) (added_pool r.0 (r.0.pool r.1) r.1 r.2) ∙ c.kept x used,
      )
