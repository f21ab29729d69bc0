-- ===== src/Phys/Split.antt =====
-- `vm_phys_split_pages` of vm_phys.c: the free pages after it.
use native.Mathlib.Nat.{
  pow-suc, mul_assoc, mul-mod_right, div-add-mod, add-mod_right, one-le-pow, pow-le-pow_right,
}
use coding_projects.Prelude.{
  ℕ, zero, suc, ◌+◌, ◌-◌, ◌*◌, ◌/◌, ◌%◌, ◌^◌, ◌≤◌, ◌<◌, Bool, ◌≡◌, refl, sym, ap, ◌∙◌, arith, inl,
  inr, ◌↔◌, ◌⊎◌, subst,
}
use native.Mathlib.Decide.{dec_lt}
use coding_projects.Phys.{Phys, vm_freelist_add, split_loop, vm_phys_split_pages}
use coding_projects.Phys.Valid.{InBlock, Free, IsValid, IsUsed}
use coding_projects.Phys.Freelist.{freelist_add-Adds}
use coding_projects.Phys.Add.{freelist_add_lem}

pub aligned_half : (m k : ℕ) → m % 2 ^ suc k ≡ 0 → m % 2 ^ k ≡ 0
aligned_half m k h =
    let q = m / 2 ^ suc k in
    let whole : m ≡ 2 ^ k * (2 * q) =
      omega (arith, div-add-mod m (2 ^ suc k), h)
      ∙ ap (λ (t : ℕ). t * q) (pow-suc 2 k)
      ∙ mul_assoc (2 ^ k) 2 q in
    ap (λ (t : ℕ). t % 2 ^ k) whole ∙ mul-mod_right (2 ^ k) (2 * q)

pub aligned_down : (d m k : ℕ) → m % 2 ^ (k + d) ≡ 0 → m % 2 ^ k ≡ 0
aligned_down zero m k h = let e : k + 0 ≡ k = omega arith in subst (λ (i : ℕ). m % 2 ^ i ≡ 0) e h
aligned_down (suc d) m k h =
    let e : k + suc d ≡ suc (k + d) = omega arith in
    aligned_down d m k (aligned_half m (k + d) (subst (λ (i : ℕ). m % 2 ^ i ≡ 0) e h))

-- A block that is out of the lists, cut down to order `o`: what it had behind its first `2 ^ o` pages
-- is free.
pub record Cut (n p : ℕ) (s s' : Phys) (m big o : ℕ) : Type 0 where
  pub valid : IsValid n p s'
  pub free : (x : ℕ) → Free n p s' x ↔ Free n p s x ⊎ InBlock m big x × ¬ InBlock m o x
  pub same_pool : s'.pool ≡ s.pool

module _ (n p fl m o : ℕ) (tail : Bool) where
  split_loop-Cut :
      (left : ℕ) (s : Phys)
      → IsValid n p s
      → o + left < n
      → fl < p
      → ((x : ℕ) → InBlock m (o + left) x → s.pool x ≡ fl)
      → m % 2 ^ (o + left) ≡ 0
      → IsUsed n p s m (o + left)
      → Cut n p s (split_loop n left s m fl o tail) m (o + left) o
  unfolding split_loop IsUsed
  split_loop-Cut zero s v fits has_pool in_pool start used =
      let e : o + 0 ≡ o = omega arith in
      record {
        valid = v;
        free = λ x. (
          λ f. inl f,
          λ f. elim f [
            | inl old ↦ old
            | inr (inside, outside) ↦ absurd (outside (subst (λ (k : ℕ). InBlock m k x) e inside))
          ],
        );
        same_pool = refl;
      }
  split_loop-Cut (suc left) s v fits has_pool in_pool start used =
      let oind = o + left in
      let buddy = m + 2 ^ oind in
      let e : o + suc left ≡ suc oind = omega arith in
      let size : 2 ^ (o + suc left) ≡ 2 ^ oind * 2 = ap (λ (k : ℕ). 2 ^ k) e ∙ pow-suc 2 oind in
      let some_page = one-le-pow oind 2 (omega arith) in
      let start' = aligned_half m oind (subst (λ (k : ℕ). m % 2 ^ k ≡ 0) e start) in
      let added =
        freelist_add_lem n p s fl buddy oind tail v (omega arith) has_pool
          (λ x inside. in_pool x (omega arith)) (add-mod_right m (2 ^ oind) ∙ start')
          (λ x inside f. used x (omega arith) f) in
      let s1 = vm_freelist_add s fl buddy oind tail in
      let pool1 = (freelist_add-Adds s fl buddy oind tail).same_pool in
      let rest =
        split_loop-Cut left s1 added.0 (omega arith) has_pool
          (λ x inside. ap (λ f. f x) pool1 ∙ in_pool x (omega arith)) start'
          (λ x inside f. elim ((added.1 x).0 f) [
            | inl old ↦ used x (omega arith) old
            | inr new ↦ omega arith
          ]) in
      record {
        valid = rest.valid;
        free = λ x. (
          λ f. elim ((rest.free x).0 f) [
            | inl f1 ↦ elim ((added.1 x).0 f1) [
              | inl old ↦ inl old
              | inr new ↦ inr (
                omega arith,
                λ first. omega (
                  arith,
                  pow-le-pow_right {n = 2} (omega arith) {i = o} {j = oind} (omega arith),
                ),
              )
            ]
            | inr (inside, outside) ↦ inr (omega arith, outside)
          ],
          λ f. elim f [
            | inl old ↦ (rest.free x).1 (inl ((added.1 x).1 (inl old)))
            | inr (inside, outside) ↦ elim (dec_lt x buddy) [
              | yes first ↦ (rest.free x).1 (inr (omega arith, outside))
              | no second ↦ (rest.free x).1 (inl ((added.1 x).1 (inr (omega arith))))
            ]
          ],
        );
        same_pool = rest.same_pool ∙ pool1;
      }

  -- `vm_phys_split_pages` of an aligned block of order `big` that is not free, of one pool: the lists
  -- stay valid, and the pages behind the first `2 ^ o` become free.
  pub split_pages_lem :
      (s : Phys) (big : ℕ)
      → IsValid n p s
      → o ≤ big
      → big < n
      → fl < p
      → ((x : ℕ) → InBlock m big x → s.pool x ≡ fl)
      → m % 2 ^ big ≡ 0
      → IsUsed n p s m big
      → Cut n p s (vm_phys_split_pages n s m big fl o tail) m big o
  unfolding vm_phys_split_pages
  split_pages_lem s big v le fits has_pool in_pool start used =
      let e : o + (big - o) ≡ big = omega arith in
      subst (λ (k : ℕ). Cut n p s (split_loop n (big - o) s m fl o tail) m k o) e
        (split_loop-Cut (big - o) s v (omega arith) has_pool
          (λ x inside. in_pool x (subst (λ (k : ℕ). InBlock m k x) e inside))
          (subst (λ (k : ℕ). m % 2 ^ k ≡ 0) (sym e) start)
          (subst (λ (k : ℕ). IsUsed n p s m k) (sym e) used))
