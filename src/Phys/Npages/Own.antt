-- ===== src/Phys/Npages/Own.antt =====
-- One round of the while loops of `vm_phys_alloc_npages`, and the loop over a list of the pool.
use coding_projects.Prelude.{
  ℕ, zero, suc, ◌+◌, ◌≤◌, ◌<◌, List, [], length, ◌≡◌, refl, sym, ap, ◌∙◌, arith, inl, inr, ◌↔◌,
  subst, none, some, Option-cases,
}
use coding_projects.Phys.{Phys, tailq_first, vm_freelist_rem, vm_phys_set_pool}
use coding_projects.Phys.Valid.{InBlock, Free, IsValid, IsUsed}
use coding_projects.Phys.Remove.{freelist_rem_lem, rem_pool}
use coding_projects.Phys.Pool.{Repooled, set_pool_lem}
use coding_projects.Phys.Carve.{Heads, first-Heads}
use coding_projects.Phys.Alloc.{nil_of_first}
use coding_projects.Phys.Npages.{Filling, full, going, and_then, take_block, drain_own}
use coding_projects.Phys.Npages.Took.{Took}
use coding_projects.Phys.Npages.Drain.{
  Shrinks, Good, Round, take_block-Round, rem_keeps_empty, set_pool_pl,
}

module _ (n p npages : ℕ) (s0 : Phys) (small : n ≤ 32) (to : ℕ) (has_pool : to < p) where
  abbrev pub Fills : (Phys → Type 0) → Filling → Type 0
  Fills = Good n p npages s0

  pub and_then-Good :
      (E E' : Phys → Type 0) (next : Phys → List ℕ → Filling) (r : Filling)
      → Fills E r
      → ((s : Phys) (ma : List ℕ)
          → Took n p s0 s ma
          → length ma ≤ npages
          → E s
          → Fills E' (next s ma))
      → Fills E' (and_then r next)
  unfolding and_then
  and_then-Good E E' next (full s ma) g step = g
  and_then-Good E E' next (going s ma) g step = step s ma g.0 g.1 g.2

  pub wider :
      (E E' : Phys → Type 0) (r : Filling) → Fills E r → ((s : Phys) → E s → E' s) → Fills E' r
  wider E E' (full s ma) g more = g
  wider E E' (going s ma) g more = (g.0, g.1, more s g.2)

  pub Round-Good :
      (E : Phys → Type 0) (ma : List ℕ) (s2 : Phys) (next : Phys → List ℕ → Filling) (r : Filling)
      → Round n p npages s0 ma s2 r
      → ((ma' : List ℕ)
          → Took n p s0 s2 ma'
          → length ma' ≤ npages
          → length ma < length ma'
          → Fills E (next s2 ma'))
      → Fills E (and_then r next)
  unfolding and_then
  Round-Good E ma s2 next (full s ma') g step = g
  Round-Good E ma s2 next (going s ma') (t, so_far, longer, e) step =
      subst (λ (s : Phys). Fills E (next s ma')) (sym e)
        (step ma' (subst (λ (s : Phys). Took n p s0 s ma') e t) so_far longer)

  -- A list is empty, and none has got its first block.
  abbrev pub Drained : ℕ → ℕ → Phys → Phys → Type 0
  Drained k j s s' = (s'.pl k j ≡ []) × Shrinks s s'

  own_stop :
      (left : ℕ) (s : Phys) (oind : ℕ) (ma : List ℕ)
      → tailq_first (s.pl to oind) ≡ none
      → drain_own n p npages (suc left) s to oind ma ≡ going s ma
  unfolding drain_own
  own_stop left s oind ma e = rw (e, drain_own) refl

  own_on :
      (left : ℕ) (s : Phys) (oind m : ℕ) (ma : List ℕ)
      → tailq_first (s.pl to oind) ≡ some m
      → drain_own n p npages (suc left) s to oind ma
        ≡ and_then
            (take_block n p npages (vm_freelist_rem n s to m oind) to m oind ma)
            (λ s' ma'. drain_own n p npages left s' to oind ma')
  unfolding drain_own
  own_on left s oind m ma e = rw (e, drain_own) refl

  -- What is known of the lists from which the first block of a list has been removed.
  module _ (s : Phys) (ma : List ℕ) (t : Took n p s0 s ma) (so_far : length ma ≤ npages)
      (pind oind m : ℕ) (lt : oind < n) (first : tailq_first (s.pl pind oind) ≡ some m) where
    abbrev heads : Heads s pind oind m
    heads = first-Heads n p s pind oind m t.valid lt first

    heads_own : Heads s (s.pool m) oind m
    heads_own = record { order_is = heads.order_is; pool_is = refl }

    abbrev pub removed : Phys
    removed = vm_freelist_rem n s pind m oind

    removed_lem :
        IsValid n p removed × ((x : ℕ) → Free n p removed x ↔ Free n p s x × ¬ InBlock m oind x)
    removed_lem =
        subst
          (λ (k : ℕ).
            IsValid n p (vm_freelist_rem n s k m oind)
            × ((x : ℕ)
                → Free n p (vm_freelist_rem n s k m oind) x ↔ Free n p s x × ¬ InBlock m oind x))
          heads.pool_is
          (subst
            (λ (j : ℕ).
              IsValid n p (vm_freelist_rem n s (s.pool m) m j)
              × ((x : ℕ)
                  → Free n p (vm_freelist_rem n s (s.pool m) m j) x
                    ↔ Free n p s x × ¬ InBlock m j x))
            heads.order_is (freelist_rem_lem n p s m t.valid (omega (arith, heads.order_is))))

    removed_pool : (x : ℕ) → InBlock m oind x → removed.pool x ≡ pind
    removed_pool x inside =
        ap (λ f. f x) (rem_pool n s pind m oind)
        ∙ t.valid.uniform m x (omega (arith, heads.order_is))
            (subst (λ (k : ℕ). InBlock m k x) (sym heads.order_is) inside)
        ∙ heads.pool_is

    removed-Shrinks : Shrinks s removed
    removed-Shrinks k j e = rem_keeps_empty n s pind m oind k j e

    removed-Round :
        pind ≡ to → Round n p npages s0 ma removed (take_block n p npages removed to m oind ma)
    removed-Round same =
        take_block-Round n p npages s0 s m oind to ma t heads_own lt small has_pool so_far removed
          removed_lem.0 (λ x inside. removed_pool x inside ∙ same) removed_lem.1

    abbrev pub moved : Phys
    moved = vm_phys_set_pool n removed to m oind

    removed-IsUsed : IsUsed n p removed m oind
    unfolding IsUsed
    removed-IsUsed x inside f = ((removed_lem.1 x).0 f).1 inside

    moved_lem : Repooled n p removed moved × ((x : ℕ) → InBlock m oind x → moved.pool x ≡ to)
    moved_lem =
        let r = set_pool_lem n p removed to m oind removed_lem.0 removed-IsUsed in (r.0, r.1)

    pub moved-Shrinks : Shrinks s moved
    moved-Shrinks k j e = ap (λ f. f k j) (set_pool_pl n removed to m oind) ∙ removed-Shrinks k j e

    pub moved-Round : Round n p npages s0 ma moved (take_block n p npages moved to m oind ma)
    moved-Round =
        take_block-Round n p npages s0 s m oind to ma t heads_own lt small has_pool so_far moved
          moved_lem.0.valid moved_lem.1
          (λ x. (
            λ f. (removed_lem.1 x).0 ((moved_lem.0.free x).0 f),
            λ f. (moved_lem.0.free x).1 ((removed_lem.1 x).1 f),
          ))

  pub drain_own-Good :
      (left : ℕ) (s : Phys) (oind : ℕ) (ma : List ℕ)
      → oind < n
      → Took n p s0 s ma
      → length ma ≤ npages
      → npages < length ma + left
      → Fills (Drained to oind s) (drain_own n p npages left s to oind ma)
  unfolding drain_own
  drain_own-Good zero s oind ma lt t so_far enough = absurd (omega arith)
  drain_own-Good (suc left) s oind ma lt t so_far enough =
      elim (Option-cases (tailq_first (s.pl to oind))) [
        | inl e ↦
            subst (Fills (Drained to oind s)) (sym (own_stop left s oind ma e))
              (t, so_far, (nil_of_first (s.pl to oind) e, λ k j q. q))
        | inr (m, e) ↦
            let s2 = vm_freelist_rem n s to m oind in
            subst (Fills (Drained to oind s)) (sym (own_on left s oind m ma e)) (
              Round-Good (Drained to oind s) ma s2
                (λ s' ma'. drain_own n p npages left s' to oind ma') _
                (removed-Round s ma t so_far to oind m lt e refl)
                (λ ma' t' so_far' longer.
                  wider (Drained to oind s2) (Drained to oind s)
                    (drain_own n p npages left s2 to oind ma')
                    (drain_own-Good left s2 oind ma' lt t' so_far' (omega arith))
                    (λ s3 d. (
                      d.0,
                      λ k j q. d.1 k j (removed-Shrinks s ma t so_far to oind m lt e k j q),
                    ))))
      ]
