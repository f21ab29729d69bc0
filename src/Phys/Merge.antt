-- ===== src/Phys/Merge.antt =====
-- One round of the loop of `vm_phys_free_pages` in vm_phys.c.
use native.Mathlib.Decide.{dec_lt}
use native.Mathlib.Nat.{pow-suc, one-le-pow}
use coding_projects.Prelude.{
  ℕ, suc, ◌+◌, ◌*◌, ◌%◌, ◌^◌, ◌<◌, ◌≡◌, sym, ap, ◌∙◌, arith, ◌==◌, if◌then◌else◌, inl, inr, ◌⊎◌,
  ◌↔◌, subst, Bool-cases, ==_iff,
}
use coding_projects.Phys.{Phys, vm_freelist_rem, vm_phys_set_pool}
use coding_projects.Phys.Valid.{InBlock, Free, IsValid, IsUsed}
use coding_projects.Phys.Remove.{freelist_rem_lem, rem_pool}
use coding_projects.Phys.Pool.{set_pool_lem}
use coding_projects.Phys.Buddy.{Pair}

-- A block that may be put on the lists.
pub record Loose (n p : ℕ) (s : Phys) (m o : ℕ) : Type 0 where
  pub valid : IsValid n p s
  pub fits : o < n
  pub start : m % 2 ^ o ≡ 0
  pub used : IsUsed n p s m o
  pub same_pool : (x : ℕ) → InBlock m o x → s.pool x ≡ s.pool m
  pub has_pool : s.pool m < p

-- The lists after one round, with the buddy `b` of `m`.
abbrev pub joined : ℕ → Phys → ℕ → ℕ → ℕ → Phys
joined n s m b o =
    let s1 = vm_freelist_rem n s (s.pool b) b o in
    if s1.pool b == s1.pool m then s1 else vm_phys_set_pool n s1 (s1.pool m) b o

record Joined (n p : ℕ) (s s' : Phys) (m b o : ℕ) : Type 0 where
  valid : IsValid n p s'
  pools : (x : ℕ) → InBlock m o x ⊎ InBlock b o x → s'.pool x ≡ s.pool m
  free : (x : ℕ) → Free n p s' x ↔ Free n p s x × ¬ InBlock b o x
  kept : (x : ℕ) → ¬ InBlock b o x → s'.pool x ≡ s.pool x

module _ (n p : ℕ) (s : Phys) (m o b both : ℕ) (l : Loose n p s m o) (pair : Pair m o b both)
    (order_b : s.order b ≡ o) where
  abbrev s1 : Phys
  s1 = vm_freelist_rem n s (s.pool b) b o

  removed : IsValid n p s1 × ((x : ℕ) → Free n p s1 x ↔ Free n p s x × ¬ InBlock b o x)
  removed =
      subst
        (λ (k : ℕ).
          IsValid n p (vm_freelist_rem n s (s.pool b) b k)
          × ((x : ℕ)
              → Free n p (vm_freelist_rem n s (s.pool b) b k) x ↔ Free n p s x × ¬ InBlock b k x))
        order_b (freelist_rem_lem n p s b l.valid (omega (arith, l.fits, order_b)))

  pool_1 : (x : ℕ) → s1.pool x ≡ s.pool x
  pool_1 x = ap (λ f. f x) (rem_pool n s (s.pool b) b o)

  pool_b : (x : ℕ) → InBlock b o x → s.pool x ≡ s.pool b
  pool_b x inside =
      l.valid.uniform b x (omega (arith, l.fits, order_b))
        (subst (λ (k : ℕ). InBlock b k x) (sym order_b) inside)

  b-IsUsed : IsUsed n p s1 b o
  unfolding IsUsed
  b-IsUsed x inside f = ((removed.1 x).0 f).1 inside

  joined-Joined : Joined n p s (joined n s m b o) m b o
  joined-Joined = elim (Bool-cases (s1.pool b == s1.pool m)) [
    | inl e ↦
        let same : s.pool b ≡ s.pool m =
          sym (pool_1 b) ∙ (==_iff (s1.pool b) (s1.pool m)).0 e ∙ pool_1 m in
        rw e (record {
          valid = removed.0;
          pools = λ x either. elim either [
            | inl here ↦ pool_1 x ∙ l.same_pool x here
            | inr there ↦ pool_1 x ∙ pool_b x there ∙ same
          ];
          free = removed.1;
          kept = λ x far. pool_1 x;
        })
    | inr ne ↦
        let r = set_pool_lem n p s1 (s1.pool m) b o removed.0 b-IsUsed in
        rw ne (record {
          valid = r.0.valid;
          pools = λ x either. elim either [
            | inl here ↦ elim pair.places [
              | inl places ↦ r.2 x (omega (arith, places, here)) ∙ pool_1 x ∙ l.same_pool x here
              | inr places ↦ r.3 x (omega (arith, places, here)) ∙ pool_1 x ∙ l.same_pool x here
            ]
            | inr there ↦ r.1 x there ∙ pool_1 m
          ];
          free = λ x.
              (λ f. (removed.1 x).0 ((r.0.free x).0 f), λ f. (r.0.free x).1 ((removed.1 x).1 f));
          kept = λ x far. elim (dec_lt x b) [
            | yes below ↦ r.2 x below ∙ pool_1 x
            | no above ↦ elim (dec_lt x (b + 2 ^ o)) [
              | yes inside ↦ absurd (far (omega (arith, above, inside)))
              | no beyond ↦ r.3 x (omega (arith, beyond)) ∙ pool_1 x
            ]
          ];
        })
  ]

  next_order : o + 1 ≡ suc o
  next_order = omega arith

  doubled : 2 ^ (o + 1) ≡ 2 ^ o * 2
  doubled = ap (λ (k : ℕ). 2 ^ k) next_order ∙ pow-suc 2 o

  -- The block of both is the two blocks.
  both_halves : (x : ℕ) → InBlock both (o + 1) x ↔ InBlock m o x ⊎ InBlock b o x
  both_halves x = (
    λ (low, high). elim pair.places [
      | inl places ↦ elim (dec_lt x b) [
        | yes before ↦ inl (omega (arith, places, before, high))
        | no behind ↦ inr (omega (arith, places, doubled, behind, low, high))
      ]
      | inr places ↦ elim (dec_lt x m) [
        | yes before ↦ inr (omega (arith, places, before, high))
        | no behind ↦ inl (omega (arith, places, doubled, behind, low, high))
      ]
    ],
    λ either. elim either [
      | inl here ↦ elim pair.places [
        | inl places ↦ omega (arith, places, here, doubled)
        | inr places ↦ omega (arith, places, here, doubled)
      ]
      | inr there ↦ elim pair.places [
        | inl places ↦ omega (arith, places, there, doubled)
        | inr places ↦ omega (arith, places, there, doubled)
      ]
    ],
  )

  both-IsUsed : IsUsed n p (joined n s m b o) both (o + 1)
  unfolding IsUsed
  both-IsUsed x inside f =
      let was = (joined-Joined.free x).0 f in
      elim ((both_halves x).0 inside) [ inl here ↦ l.used x here was.0 | inr there ↦ was.1 there ]

  both_in : InBlock both (o + 1) both
  both_in = omega (arith, one-le-pow (o + 1) 2)

  pool_both : (x : ℕ) → InBlock both (o + 1) x → (joined n s m b o).pool x ≡ s.pool m
  pool_both x inside = joined-Joined.pools x ((both_halves x).0 inside)

  pub joined-Loose : o + 1 < n → Loose n p (joined n s m b o) both (o + 1)
  joined-Loose lt = record {
    valid = joined-Joined.valid;
    fits = lt;
    start = subst (λ (k : ℕ). both % 2 ^ k ≡ 0) (sym next_order) pair.start_both;
    used = both-IsUsed;
    same_pool = λ x inside. pool_both x inside ∙ sym (pool_both both both_in);
    has_pool = omega (arith, pool_both both both_in, l.has_pool);
  }

  free_b : (x : ℕ) → InBlock b o x → Free n p s x
  free_b x inside = record {
    head = b;
    below = omega (arith, l.fits, order_b);
    inside = subst (λ (k : ℕ). InBlock b k x) (sym order_b) inside;
  }

  -- Pages that are not free keep their pool.
  pub joined_pool : (x : ℕ) → ¬ Free n p s x → (joined n s m b o).pool x ≡ s.pool x
  joined_pool x used = joined-Joined.kept x (λ inside. used (free_b x inside))

  pub joined_was_free : (x : ℕ) → Free n p (joined n s m b o) x → Free n p s x
  joined_was_free x f = ((joined-Joined.free x).0 f).0

  -- The free pages and the block in hand are the same as before.
  pub joined-Free :
      (x : ℕ)
      → Free n p (joined n s m b o) x ⊎ InBlock both (o + 1) x ↔ Free n p s x ⊎ InBlock m o x
  joined-Free x = (
    λ after. elim after [
      | inl f ↦ inl ((joined-Joined.free x).0 f).0
      | inr inside ↦ elim ((both_halves x).0 inside) [
        | inl here ↦ inr here
        | inr there ↦ inl (free_b x there)
      ]
    ],
    λ before. elim before [
      | inl f ↦ elim (dec_lt x b) [
        | yes below ↦ inl ((joined-Joined.free x).1 (f, λ inside. omega (arith, below, inside)))
        | no above ↦ elim (dec_lt x (b + 2 ^ o)) [
          | yes inside ↦ inr ((both_halves x).1 (inr (omega (arith, above, inside))))
          | no beyond ↦ inl ((joined-Joined.free x).1 (f, λ inside. omega (arith, beyond, inside)))
        ]
      ]
      | inr here ↦ inr ((both_halves x).1 (inl here))
    ],
  )
