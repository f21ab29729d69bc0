-- ===== src/Phys/Carve.antt =====
-- A free block taken off its list and cut down: what the searches of the allocator do.
use native.Mathlib.Decide.{dec_lt}
use native.Mathlib.Nat.{pow-le-pow_right}
use coding_projects.Prelude.{
  ℕ, ◌+◌, ◌-◌, ◌%◌, ◌^◌, ◌≤◌, ◌<◌, true, some, List, [], ◌∷◌, ◌≡◌, refl, sym, ap, ◌∙◌, arith, inl,
  inr, ◌↔◌, subst,
}
use coding_projects.Phys.{Phys, tailq_first, vm_freelist_rem, vm_phys_set_pool, vm_phys_split_pages}
use coding_projects.Phys.Valid.{count, listed_times, InBlock, Free, IsValid, IsUsed}
use coding_projects.Phys.Remove.{freelist_rem_lem, rem_pool}
use coding_projects.Phys.Pool.{Repooled, set_pool_lem}
use coding_projects.Phys.Split.{aligned_down, split_pages_lem}

-- The block of `2 ^ o` pages from `m` on has been taken off the lists.
pub record Allocated (n p : ℕ) (s : Phys) (o m : ℕ) (s' : Phys) : Type 0 where
  pub valid : IsValid n p s'
  pub start : m % 2 ^ o ≡ 0
  pub was_free : (x : ℕ) → InBlock m o x → Free n p s x
  pub free : (x : ℕ) → Free n p s' x ↔ Free n p s x × ¬ InBlock m o x

-- The head of a list is a free block of that pool and order.
pub record Heads (s : Phys) (fl o m : ℕ) : Type 0 where
  pub order_is : s.order m ≡ o
  pub pool_is : s.pool m ≡ fl

counted_first : (xs : List ℕ) (m : ℕ) → tailq_first xs ≡ some m → 0 < count m xs
unfolding tailq_first count
counted_first [] m e = cc
counted_first (x ∷ xs) m e = ground arith

pub first-Heads :
    (n p : ℕ) (s : Phys) (fl o m : ℕ)
    → IsValid n p s
    → o < n
    → tailq_first (s.pl fl o) ≡ some m
    → Heads s fl o m
unfolding listed_times
first-Heads n p s fl o m v lt e =
    let times = v.listed fl o m lt in
    let more = counted_first (s.pl fl o) m e in
    record { order_is = ground arith; pool_is = ground arith }

module _ (n p : ℕ) (s : Phys) (fl m big o : ℕ) (v : IsValid n p s) (h : Heads s fl big m) where
  abbrev removed : Phys
  removed = vm_freelist_rem n s fl m big

  removed_lem :
      (big < n)
      → IsValid n p removed × ((x : ℕ) → Free n p removed x ↔ Free n p s x × ¬ InBlock m big x)
  removed_lem lt =
      let e = freelist_rem_lem n p s m v (rw h.order_is lt) in rw (h.order_is, h.pool_is) at e

  big_block : (x : ℕ) → big < n → InBlock m big x → Free n p s x
  big_block x lt inside = record {
    head = m;
    below = rw h.order_is lt;
    inside = rw h.order_is inside;
  }

  removed-IsUsed : (big < n) → IsUsed n p removed m big
  unfolding IsUsed
  removed-IsUsed lt x inside f = (((removed_lem lt).1 x).0 f).1 inside

  -- A free block taken off its list, moved to the pool `to`, and cut down.
  carve :
      (to : ℕ) (s2 : Phys)
      → big < n
      → o ≤ big
      → to < p
      → Repooled n p removed s2
      → ((x : ℕ) → InBlock m big x → s2.pool x ≡ to)
      → Allocated n p s o m (vm_phys_split_pages n s2 m big to o true)
  unfolding IsUsed
  carve to s2 lt le has_pool moved in_pool =
      let r = removed_lem lt in
      let start : m % 2 ^ big ≡ 0 = rw h.order_is at (v.aligned m (rw h.order_is lt)) in
      let size = pow-le-pow_right {n = 2} (omega arith) {i = o} {j = big} le in
      let cut =
        split_pages_lem n p to m o true s2 big moved.valid le lt has_pool in_pool start
          (λ x inside f. removed-IsUsed lt x inside ((moved.free x).0 f)) in
      let d : o + (big - o) ≡ big = omega arith in
      record {
        valid = cut.valid;
        start = aligned_down (big - o) m o (subst (λ (k : ℕ). m % 2 ^ k ≡ 0) (sym d) start);
        was_free = λ x inside. big_block x lt (omega arith);
        free = λ x. (
          λ f. elim ((cut.free x).0 f) [
            | inl old ↦
                let before = (r.1 x).0 ((moved.free x).0 old) in
                (before.0, λ inside. before.1 (omega arith))
            | inr (inside, outside) ↦ (big_block x lt inside, outside)
          ],
          λ (f, outside). elim (dec_lt x m) [
            | yes before ↦
                (cut.free x).1 (inl ((moved.free x).1 ((r.1 x).1 (f, λ inside. omega arith))))
            | no behind ↦ elim (dec_lt x (m + 2 ^ big)) [
              | yes inside ↦ (cut.free x).1 (inr (omega arith, outside))
              | no beyond ↦
                  (cut.free x).1 (inl ((moved.free x).1 ((r.1 x).1 (f, λ inside. omega arith))))
            ]
          ],
        );
      }

  pub carve_own :
      big < n
      → o ≤ big
      → fl < p
      → Allocated n p s o m (vm_phys_split_pages n removed m big fl o true)
  carve_own lt le has_pool =
      carve fl removed lt le has_pool
        (record { valid = (removed_lem lt).0; same_order = refl; free = λ x. (λ f. f, λ f. f) })
        (λ x inside.
          ap (λ f. f x) (rem_pool n s fl m big)
          ∙ v.uniform m x (rw h.order_is lt) (rw h.order_is inside)
          ∙ h.pool_is)

  pub carve_moved :
      (to : ℕ)
      → big < n
      → o ≤ big
      → to < p
      → Allocated n p s o m
          (vm_phys_split_pages n (vm_phys_set_pool n removed to m big) m big to o true)
  carve_moved to lt le has_pool =
      let moved = set_pool_lem n p removed to m big (removed_lem lt).0 (removed-IsUsed lt) in
      carve to (vm_phys_set_pool n removed to m big) lt le has_pool moved.0 moved.1
