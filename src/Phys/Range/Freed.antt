-- ===== src/Phys/Range/Freed.antt =====
-- A run of used pages, and lists on which a run has become free: freeing a run block by block.
use native.Mathlib.Decide.{dec_lt}
use coding_projects.Prelude.{
  ℕ, ◌+◌, ◌-◌, ◌%◌, ◌^◌, ◌≤◌, ◌<◌, ◌≡◌, refl, sym, ap, ◌∙◌, arith, inl, inr, ◌⊎◌, ◌↔◌, Bool,
}
use native.Mathlib.Nat.{one-le-pow}
use coding_projects.Phys.{Phys, vm_freelist_add}
use coding_projects.Phys.Valid.{Free, IsValid, IsUsed}
use coding_projects.Phys.Freelist.{freelist_add-Adds}
use coding_projects.Phys.Add.{freelist_add_lem}
use coding_projects.Phys.Merge.{Loose}

abbrev pub InRange : ℕ → ℕ → ℕ → Type 0
InRange m c x = (m ≤ x) × (x < m + c)

-- A run of `c` pages of pool `fl`, none of them free.
pub record LooseRange (n p : ℕ) (s : Phys) (m c fl : ℕ) : Type 0 where
  pub valid : IsValid n p s
  pub used : (x : ℕ) → InRange m c x → ¬ Free n p s x
  pub same_pool : (x : ℕ) → InRange m c x → s.pool x ≡ fl
  pub has_pool : fl < p

-- The run of `c` pages from `m` on has become free.
pub record Freed (n p : ℕ) (s s' : Phys) (m c : ℕ) : Type 0 where
  pub valid : IsValid n p s'
  pub free : (x : ℕ) → Free n p s' x ↔ Free n p s x ⊎ InRange m c x
  pub kept : (x : ℕ) → ¬ Free n p s' x → s'.pool x ≡ s.pool x

pub none_Freed : (n p : ℕ) (s : Phys) (m : ℕ) → IsValid n p s → Freed n p s s m 0
none_Freed n p s m v = record {
  valid = v;
  free = λ x. (λ f. inl f, λ either. elim either [ inl f ↦ f | inr inside ↦ absurd (omega arith) ]);
  kept = λ x used. refl;
}

module _ (n p : ℕ) (s : Phys) (m c fl o : ℕ) (l : LooseRange n p s m c fl) (fits : o < n)
    (room : 2 ^ o ≤ c) where
  -- The first block of the run.
  pub first_Loose : m % 2 ^ o ≡ 0 → Loose n p s m o
  unfolding IsUsed
  first_Loose start =
      let head = l.same_pool m (omega (arith, one-le-pow o 2)) in
      record {
        valid = l.valid;
        fits = fits;
        start = start;
        used = λ x inside. l.used x (omega arith);
        same_pool = λ x inside. l.same_pool x (omega arith) ∙ sym head;
        has_pool = omega (arith, head, l.has_pool);
      }

  -- The rest of the run, when its first block is free.
  rest_used :
      (s' : Phys)
      → Freed n p s s' m (2 ^ o)
      → (x : ℕ) → InRange (m + 2 ^ o) (c - 2 ^ o) x
      → ¬ Free n p s' x
  rest_used s' d x inside f = elim ((d.free x).0 f) [
    | inl old ↦ l.used x (omega arith) old
    | inr block ↦ absurd (omega (arith, block, inside))
  ]

  pub rest_LooseRange :
      (s' : Phys) → Freed n p s s' m (2 ^ o) → LooseRange n p s' (m + 2 ^ o) (c - 2 ^ o) fl
  rest_LooseRange s' d = record {
    valid = d.valid;
    used = rest_used s' d;
    same_pool = λ x inside. d.kept x (rest_used s' d x inside) ∙ l.same_pool x (omega arith);
    has_pool = l.has_pool;
  }

  pub rest_Freed :
      (s' s'' : Phys)
      → Freed n p s s' m (2 ^ o)
      → Freed n p s' s'' (m + 2 ^ o) (c - 2 ^ o)
      → Freed n p s s'' m c
  rest_Freed s' s'' d e = record {
    valid = e.valid;
    free = λ x. (
      λ f. elim ((e.free x).0 f) [
        | inl f' ↦ elim ((d.free x).0 f') [
          | inl old ↦ inl old
          | inr block ↦ inr (omega (arith, block))
        ]
        | inr rest ↦ inr (omega (arith, rest))
      ],
      λ either. elim either [
        | inl old ↦ (e.free x).1 (inl ((d.free x).1 (inl old)))
        | inr inside ↦ elim (dec_lt x (m + 2 ^ o)) [
          | yes before ↦ (e.free x).1 (inl ((d.free x).1 (inr (omega (arith, before, inside)))))
          | no behind ↦ (e.free x).1 (inr (omega (arith, behind, inside)))
        ]
      ],
    );
    kept = λ x used. e.kept x used ∙ d.kept x (λ f. used ((e.free x).1 (inl f)));
  }

-- The first block of a run, put on the lists as it is.
pub add_Freed :
    (n p : ℕ) (s : Phys) (m c fl o : ℕ) (tail : Bool)
    → LooseRange n p s m c fl
    → o < n
    → 2 ^ o ≤ c
    → m % 2 ^ o ≡ 0
    → Freed n p s (vm_freelist_add s fl m o tail) m (2 ^ o)
unfolding IsUsed
add_Freed n p s m c fl o tail l fits room start =
    let r =
      freelist_add_lem n p s fl m o tail l.valid fits l.has_pool
        (λ x inside. l.same_pool x (omega arith)) start (λ x inside. l.used x (omega arith)) in
    record {
      valid = r.0;
      free = r.1;
      kept = λ x used. ap (λ f. f x) (freelist_add-Adds s fl m o tail).same_pool;
    }
