-- ===== src/Phys/Pool.antt =====
-- `vm_phys_set_pool` on pages that are not free.
use native.Mathlib.Decide.{ℕ_discrete, dec_lt}
use native.Mathlib.Nat.{one-le-pow}
use coding_projects.Prelude.{
  ℕ, zero, suc, ◌+◌, ◌^◌, ◌≤◌, ◌<◌, ◌≡◌, ◌≢◌, refl, ap, ◌∙◌, arith, ==_of_ne, ◌↔◌, subst,
}
use coding_projects.Phys.{Phys, update, set_pool_loop, vm_phys_set_pool}
use coding_projects.Phys.Valid.{
  update_same, update_ne, listed_times, InBlock, Free, IsValid, IsUsed,
}

-- Lists that differ in the pools of pages that are not free.
pub record Repooled (n p : ℕ) (s s' : Phys) : Type 0 where
  pub valid : IsValid n p s'
  pub same_order : s'.order ≡ s.order
  pub free : (x : ℕ) → Free n p s' x ↔ Free n p s x

pub not_free_order : (n p : ℕ) (s : Phys) (x : ℕ) → IsValid n p s → ¬ Free n p s x → s.order x ≡ n
not_free_order n p s x v used = elim (dec_lt (s.order x) n) [
  | yes below ↦
      absurd (
        used (record { head = x; below = below; inside = omega (arith, one-le-pow (s.order x) 2) }))
  | no above ↦ omega (arith, v.bounded x)
]

repool_one :
    (n p : ℕ) (s : Phys) (fl m : ℕ)
    → IsValid n p s
    → ¬ Free n p s m
    → Repooled n p s (record s { pool = update s.pool m fl })
unfolding listed_times
repool_one n p s fl m v used =
    let off = not_free_order n p s m v used in
    record {
      valid = record {
        lengths = v.lengths;
        listed = λ fl' o' k lt. elim (ℕ_discrete k m) [
          | yes e ↦
              let ne : s.order k ≢ o' = λ q. omega (arith, ap s.order e) in
              v.listed fl' o' k lt ∙ rw (==_of_ne (s.order k) o' ne) refl
          | no ne ↦ v.listed fl' o' k lt ∙ rw (update_ne s.pool m k fl ne) refl
        ];
        bounded = v.bounded;
        inner = v.inner;
        aligned = v.aligned;
        uniform = λ h x b inside.
            let ne : x ≢ m = λ e. used (record {
              head = h;
              below = b;
              inside = subst (λ (k : ℕ). InBlock h (s.order h) k) e inside;
            }) in
            let ne' : h ≢ m = λ e. omega (arith, ap s.order e) in
            rw (update_ne s.pool m x fl ne, update_ne s.pool m h fl ne') (v.uniform h x b inside);
        pools = λ x b.
            let ne : x ≢ m = λ e. omega (arith, ap s.order e) in
            rw (update_ne s.pool m x fl ne) (v.pools x b);
      };
      same_order = refl;
      free = λ x. (
        λ f. record { head = f.head; below = f.below; inside = f.inside },
        λ f. record { head = f.head; below = f.below; inside = f.inside },
      );
    }

set_pool_loop-Repooled :
    (n p left : ℕ) (s : Phys) (fl m : ℕ)
    → IsValid n p s
    → ((x : ℕ) → m ≤ x → x < m + left → ¬ Free n p s x)
    → Repooled n p s (set_pool_loop n left s fl m)
      × ((x : ℕ) → m ≤ x → x < m + left → (set_pool_loop n left s fl m).pool x ≡ fl)
      × ((x : ℕ) → x < m → (set_pool_loop n left s fl m).pool x ≡ s.pool x)
      × ((x : ℕ) → m + left ≤ x → (set_pool_loop n left s fl m).pool x ≡ s.pool x)
unfolding set_pool_loop
set_pool_loop-Repooled n p zero s fl m v used = (
  record { valid = v; same_order = refl; free = λ x. (λ f. f, λ f. f) },
  λ x l r. absurd (omega arith),
  λ x l. refl,
  λ x l. refl,
)
set_pool_loop-Repooled n p (suc left) s fl m v used =
    let one = repool_one n p s fl m v (used m (omega arith) (omega arith)) in
    let s1 = record s { pool = update s.pool m fl } in
    let rest =
      set_pool_loop-Repooled n p left s1 fl (m + 1) one.valid
        (λ x l r f. used x (omega arith) (omega arith) ((one.free x).0 f)) in
    (
      record {
        valid = rest.0.valid;
        same_order = rest.0.same_order;
        free = λ x.
            (λ f. (one.free x).0 ((rest.0.free x).0 f), λ f. (rest.0.free x).1 ((one.free x).1 f));
      },
      λ x l r. elim (ℕ_discrete x m) [
        | yes e ↦ rw e (rest.2 m (omega arith) ∙ update_same s.pool m fl)
        | no ne ↦ rest.1 x (omega arith) (omega arith)
      ],
      λ x l. rest.2 x (omega arith) ∙ update_ne s.pool m x fl (λ e. omega arith),
      λ x l. rest.3 x (omega arith) ∙ update_ne s.pool m x fl (λ e. omega arith),
    )

-- `vm_phys_set_pool` of a block none of whose pages is free.
pub set_pool_lem :
    (n p : ℕ) (s : Phys) (fl m o : ℕ)
    → IsValid n p s
    → IsUsed n p s m o
    → Repooled n p s (vm_phys_set_pool n s fl m o)
      × ((x : ℕ) → InBlock m o x → (vm_phys_set_pool n s fl m o).pool x ≡ fl)
      × ((x : ℕ) → x < m → (vm_phys_set_pool n s fl m o).pool x ≡ s.pool x)
      × ((x : ℕ) → m + 2 ^ o ≤ x → (vm_phys_set_pool n s fl m o).pool x ≡ s.pool x)
unfolding vm_phys_set_pool IsUsed
set_pool_lem n p s fl m o v used =
    let r = set_pool_loop-Repooled n p (2 ^ o) s fl m v (λ x l b f. used x (l, b) f) in
    (r.0, λ x inside. r.1 x inside.0 inside.1, r.2, r.3)
