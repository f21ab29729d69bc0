-- ===== src/Phys/Remove.antt =====
-- `vm_freelist_rem` of vm_phys.c: the free pages after it.
use native.Mathlib.Decide.{ℕ_discrete, dec_lt}
use coding_projects.Prelude.{
  ℕ, ◌-◌, ◌<◌, ◌≡◌, ◌≢◌, refl, sym, ap, ◌∙◌, arith, ◌==◌, if◌then◌else◌, length, ==_refl, ==_of_ne,
  ◌↔◌, subst,
}
use coding_projects.Phys.{Phys, tailq_remove, vm_freelist_rem}
use coding_projects.Phys.Valid.{
  update_same, update_ne, count, count-remove_self, count-remove_ne, length-remove, listed_times,
  InBlock, Free, IsValid,
}
use coding_projects.Phys.Freelist.{update-update}

module _ (n p : ℕ) (s : Phys) (m : ℕ) (v : IsValid n p s) (below : s.order m < n) where
  abbrev fl : ℕ
  fl = s.pool m

  abbrev o : ℕ
  o = s.order m

  abbrev after : Phys
  after = vm_freelist_rem n s fl m o

  order_here : after.order m ≡ n
  unfolding vm_freelist_rem
  order_here = update_same s.order m n

  order_other : (x : ℕ) → x ≢ m → after.order x ≡ s.order x
  unfolding vm_freelist_rem
  order_other x ne = update_ne s.order m x n ne

  lcnt_at :
      (fl' o' : ℕ)
      → after.lcnt fl' o' ≡ (
          if fl' == fl then (if o' == o then s.lcnt fl o - 1 else s.lcnt fl' o') else s.lcnt fl' o')
  unfolding vm_freelist_rem
  lcnt_at fl' o' = update-update s.lcnt fl o fl' o' (s.lcnt fl o - 1)

  pl_at :
      (fl' o' : ℕ)
      → after.pl fl' o' ≡ (
          if fl' == fl
          then (if o' == o then tailq_remove m (s.pl fl o) else s.pl fl' o')
          else s.pl fl' o')
  unfolding vm_freelist_rem
  pl_at fl' o' = update-update s.pl fl o fl' o' (tailq_remove m (s.pl fl o))

  count_at :
      (fl' o' k : ℕ)
      → count k (after.pl fl' o')
        ≡ count k (s.pl fl' o')
          - (if fl' == fl then (if o' == o then (if m == k then 1 else 0) else 0) else 0)
  count_at fl' o' k = ap (count k) (pl_at fl' o') ∙ elim (ℕ_discrete fl' fl) [
    | yes e ↦
        rw (e, ==_refl fl)
          (elim (ℕ_discrete o' o) [
            | yes e' ↦
                rw (e', ==_refl o)
                  (elim (ℕ_discrete k m) [
                    | yes same ↦ rw (same, ==_refl m) (count-remove_self m (s.pl fl o))
                    | no other ↦
                        rw (==_of_ne m k (λ e. other (sym e)))
                          (omega (arith, count-remove_ne m k (s.pl fl o) other))
                  ])
            | no ne ↦ rw (==_of_ne o' o ne) (omega arith)
          ])
    | no ne ↦ rw (==_of_ne fl' fl ne) (omega arith)
  ]

  listed_once : count m (s.pl fl o) ≡ 1
  unfolding listed_times
  listed_once = v.listed fl o m below ∙ rw (==_refl o, ==_refl fl) refl

  listed_after : (fl' o' k : ℕ) → o' < n → count k (after.pl fl' o') ≡ listed_times after fl' o' k
  unfolding listed_times vm_freelist_rem
  listed_after fl' o' k lt = elim (ℕ_discrete k m) [
    | yes e ↦
        let gone : after.order m ≢ o' = λ q. omega (arith, order_here) in
        rw e (
          count_at fl' o' m
          ∙ rw (==_refl m, ==_of_ne (after.order m) o' gone) (ground (arith, v.listed fl' o' m lt)))
    | no ne ↦
        count_at fl' o' k
        ∙ rw (==_of_ne m k (λ e. ne (sym e)), order_other k ne)
            (ground (arith, v.listed fl' o' k lt))
  ]

  lengths_after : (fl' o' : ℕ) → after.lcnt fl' o' ≡ length (after.pl fl' o')
  lengths_after fl' o' =
      lcnt_at fl' o'
      ∙ sym (
          ap length (pl_at fl' o') ∙ elim (ℕ_discrete fl' fl) [
            | yes e ↦
                rw (e, ==_refl fl)
                  (elim (ℕ_discrete o' o) [
                    | yes e' ↦
                        rw (e', ==_refl o)
                          (omega (arith, length-remove m (s.pl fl o), listed_once, v.lengths fl o))
                    | no ne ↦ rw (==_of_ne o' o ne) (sym (v.lengths fl o'))
                  ])
            | no ne ↦ rw (==_of_ne fl' fl ne) (sym (v.lengths fl' o'))
          ])

  not_here : (x : ℕ) → after.order x < n → x ≢ m
  not_here x below' e =
      let d : after.order m < n = subst (λ (k : ℕ). after.order k < n) e below' in
      omega (arith, order_here)

  removed-IsValid : IsValid n p after
  unfolding vm_freelist_rem
  removed-IsValid = record {
    lengths = lengths_after;
    listed = listed_after;
    bounded = λ x. elim (ℕ_discrete x m) [
      | yes e ↦ rw (e, order_here) (omega arith)
      | no ne ↦ rw (order_other x ne) (v.bounded x)
    ];
    inner = λ h x b behind inside.
        let same = order_other h (not_here h b) in
        elim (ℕ_discrete x m) [
          | yes e ↦ rw (e, order_here) refl
          | no ne ↦ order_other x ne ∙ v.inner h x (rw same at b) behind (rw same at inside)
        ];
    aligned = λ x b.
        rw (order_other x (not_here x b)) (v.aligned x (rw (order_other x (not_here x b)) at b));
    uniform = λ h x b inside.
        let same = order_other h (not_here h b) in v.uniform h x (rw same at b) (rw same at inside);
    pools = λ x b. v.pools x (rw (order_other x (not_here x b)) at b);
  }

  -- Two blocks of the lists that share a page are the same.
  same_block : (h x : ℕ) → s.order h < n → InBlock h (s.order h) x → InBlock m o x → h ≡ m
  same_block h x b inside inside' = elim (dec_lt h m) [
    | yes before ↦ absurd (omega (arith, v.inner h m b before (omega arith)))
    | no behind ↦ elim (dec_lt m h) [
      | yes after_m ↦ absurd (omega (arith, v.inner m h below after_m (omega arith)))
      | no equal ↦ omega arith
    ]
  ]

  removed-Free : (x : ℕ) → Free n p after x ↔ Free n p s x × ¬ InBlock m o x
  removed-Free x = (
    λ f.
        let ne = not_here f.head f.below in
        let same = order_other f.head ne in
        let b : s.order f.head < n = rw same at f.below in
        let inside : InBlock f.head (s.order f.head) x = rw same at f.inside in
        (
          record { head = f.head; below = b; inside = inside },
          λ here. ne (same_block f.head x b inside here),
        ),
    λ (f, outside).
        let ne : f.head ≢ m =
          λ e. outside (subst (λ (h : ℕ). InBlock h (s.order h) x) e f.inside) in
        record {
          head = f.head;
          below = rw (order_other f.head ne) f.below;
          inside = rw (order_other f.head ne) f.inside;
        },
  )

-- `vm_freelist_rem` of a block that is on the lists: they stay valid, and the free pages are those
-- there were but the block's.
pub freelist_rem_lem :
    (n p : ℕ) (s : Phys) (m : ℕ)
    → IsValid n p s
    → s.order m < n
    → IsValid n p (vm_freelist_rem n s (s.pool m) m (s.order m))
      × ((x : ℕ)
          → Free n p (vm_freelist_rem n s (s.pool m) m (s.order m)) x
            ↔ Free n p s x × ¬ InBlock m (s.order m) x)
freelist_rem_lem n p s m v below = (removed-IsValid n p s m v below, removed-Free n p s m v below)

pub rem_pool :
    (n : ℕ) (s : Phys) (queue m order : ℕ) → (vm_freelist_rem n s queue m order).pool ≡ s.pool
unfolding vm_freelist_rem
rem_pool n s queue m order = refl
