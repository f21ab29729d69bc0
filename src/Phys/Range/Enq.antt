-- ===== src/Phys/Range/Enq.antt =====
-- `vm_phys_enq_range` of vm_phys.c: its loop, and the free pages after it.
use native.Mathlib.Decide.{dec_lt}
use native.Mathlib.Nat.{
  pow-le-pow_right, one-le-pow, div-add-mod', mod-eq_of_lt, add-mul-mod_self_right,
}
use coding_projects.Prelude.{
  ℕ, zero, suc, ◌+◌, ◌-◌, ◌*◌, ◌/◌, ◌%◌, ◌^◌, ◌≤◌, ◌<◌, ◌≡◌, ◌≢◌, refl, sym, ap, ◌∙◌, arith, inl,
  inr, Bool, subst, ◌==◌, if◌then◌else◌, Bool-cases, ==_iff,
}
use coding_projects.Phys.{Phys, vm_freelist_add}
use coding_projects.Phys.Split.{aligned_down}
use coding_projects.Phys.Range.{ffs_upto, enq_loop, vm_phys_enq_range}
use coding_projects.Phys.Range.Lowest.{ffs-Lowest}
use coding_projects.Phys.Range.Freed.{LooseRange, Freed, add_Freed, rest_LooseRange, rest_Freed}

-- A power of two divides a number that is not 0, so it is not larger.
pub power_fits : (x k : ℕ) → x ≢ 0 → x % 2 ^ k ≡ 0 → 2 ^ k ≤ x
power_fits x k ne h = elim (dec_lt x (2 ^ k)) [
  | yes small ↦ absurd (ne (sym (mod-eq_of_lt small) ∙ h))
  | no large ↦ omega arith
]

-- When a sum and its second part are multiples of a number, so is the first part.
first_part : (m c d : ℕ) → (m + c) % d ≡ 0 → c % d ≡ 0 → m % d ≡ 0
first_part m c d h k =
    let whole : c ≡ c / d * d = omega (arith, div-add-mod' c d, k) in
    sym (add-mul-mod_self_right m (c / d) d) ∙ ap (λ (t : ℕ). (m + t) % d) (sym whole) ∙ h

-- The order of the next block is small enough, and the block starts at a multiple of its length.
record Next (m c top k : ℕ) : Type 0 where
  room : 2 ^ k ≤ c
  low : k ≤ top
  start : m % 2 ^ k ≡ 0

power_order : (k top c : ℕ) → 2 ^ k ≤ c → c < 2 ^ suc top → k ≤ top
power_order k top c room small = elim (dec_lt top k) [
  | yes more ↦
      absurd
        (omega (arith, pow-le-pow_right {n = 2} (omega arith) {i = suc top} {j = k} (omega arith)))
  | no less ↦ omega arith
]

block-Next :
    (m c top k : ℕ)
    → c ≢ 0
    → (m + c) % 2 ^ top ≡ 0
    → c < 2 ^ suc top
    → c % 2 ^ k ≡ 0
    → Next m c top k
block-Next m c top k ne h small divides =
    let room = power_fits c k ne divides in
    let low = power_order k top c room small in
    let e : top ≡ k + (top - k) = omega arith in
    record {
      room = room;
      low = low;
      start =
          first_part m c (2 ^ k)
            (aligned_down (top - k) (m + c) k (subst (λ (i : ℕ). (m + c) % 2 ^ i ≡ 0) e h)) divides;
    }

module _ (n p fl : ℕ) (tail : Bool) where
  enq_step :
      (left : ℕ) (s : Phys) (m c k : ℕ)
      → ffs_upto 32 c ≡ suc k
      → enq_loop (suc left) s m c fl tail ≡ (
          if c - 2 ^ k == 0
          then vm_freelist_add s fl m k tail
          else enq_loop left (vm_freelist_add s fl m k tail) (m + 2 ^ k) (c - 2 ^ k) fl tail)
  unfolding enq_loop
  enq_step left s m c k e =
      let e' : ffs_upto 32 c - 1 ≡ k = omega (arith, e) in rw (enq_loop, e') refl

  enq_loop-Freed :
      (left : ℕ) (s : Phys) (m c top : ℕ)
      → c ≤ left
      → c ≢ 0
      → c < 2 ^ 32
      → (m + c) % 2 ^ top ≡ 0
      → c < 2 ^ suc top
      → top < n
      → LooseRange n p s m c fl
      → Freed n p s (enq_loop left s m c fl tail) m c
  enq_loop-Freed zero s m c top enough ne word h small fits l = absurd (omega arith)
  enq_loop-Freed (suc left) s m c top enough ne word h small fits l =
      let lowest = ffs-Lowest 32 c word ne in
      let k = lowest.order in
      let next = block-Next m c top k ne h small lowest.divides in
      let lt : k < n = omega (arith, next.low, fits) in
      let s1 = vm_freelist_add s fl m k tail in
      let d = add_Freed n p s m c fl k tail l lt next.room next.start in
      let positive = one-le-pow k 2 (omega arith) in
      subst (λ (r : Phys). Freed n p s r m c) (sym (enq_step left s m c k lowest.found))
        (elim (Bool-cases (c - 2 ^ k == 0)) [
          | inl last ↦
              let all : 2 ^ k ≡ c = omega (arith, (==_iff (c - 2 ^ k) 0).0 last, next.room) in
              rw last (subst (Freed n p s s1 m) all d)
          | inr more ↦
              let ne' : c - 2 ^ k ≢ 0 = λ e. ground (arith, (==_iff (c - 2 ^ k) 0).1 e) in
              let same : m + 2 ^ k + (c - 2 ^ k) ≡ m + c = omega (arith, next.room) in
              let rest =
                enq_loop-Freed left s1 (m + 2 ^ k) (c - 2 ^ k) top (omega (arith, positive)) ne'
                  (omega arith) (subst (λ (t : ℕ). t % 2 ^ top ≡ 0) (sym same) h) (omega arith) fits
                  (rest_LooseRange n p s m c fl k l lt next.room s1 d) in
              rw more (
                rest_Freed n p s m c fl k l lt next.room s1
                  (enq_loop left s1 (m + 2 ^ k) (c - 2 ^ k) fl tail) d rest)
        ])

  -- On valid lists, `vm_phys_enq_range` of a run of pages of one pool, none of them free, that ends at a
  -- multiple of the largest power of two in its length, of an order in range, leaves valid lists on which
  -- the pages of the run are free and all others are as they were.
  pub enq_range_lem :
      (s : Phys) (m c top : ℕ)
      → c ≢ 0
      → c < 2 ^ 32
      → (m + c) % 2 ^ top ≡ 0
      → c < 2 ^ suc top
      → top < n
      → LooseRange n p s m c fl
      → Freed n p s (vm_phys_enq_range s m c fl tail) m c
  unfolding vm_phys_enq_range
  enq_range_lem s m c top ne word h small fits l =
      enq_loop-Freed c s m c top (omega arith) ne word h small fits l
