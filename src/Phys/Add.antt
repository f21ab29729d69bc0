-- ===== src/Phys/Add.antt =====
-- `vm_freelist_add` of vm_phys.c: the free pages after it.
use native.Mathlib.Decide.{ℕ_discrete, dec_lt}
use native.Mathlib.Nat.{one-le-pow}
use coding_projects.Prelude.{
  ℕ, ◌+◌, ◌%◌, ◌^◌, ◌≤◌, ◌<◌, Bool, ◌≡◌, ◌≢◌, refl, sym, ap, ◌∙◌, arith, ◌==◌, if◌then◌else◌,
  length, ==_refl, ==_of_ne, inl, inr, ◌⊎◌, ◌↔◌, subst,
}
use coding_projects.Phys.{Phys, vm_freelist_add}
use coding_projects.Phys.Valid.{
  update_same, update_ne, count, listed_times, InBlock, Free, IsValid, IsUsed,
}
use coding_projects.Phys.Freelist.{Adds, freelist_add-Adds, update-update}

-- A block is used when the pages from its head on are, so its head has no order of a free block.
pub head_used : (n p m o : ℕ) (s : Phys) → IsUsed n p s m o → ¬ (s.order m < n)
unfolding IsUsed
head_used n p m o s used below =
    used m (omega (arith, one-le-pow o 2))
      (record { head = m; below = below; inside = omega (arith, one-le-pow (s.order m) 2) })

module _ (n p : ℕ) (s s' : Phys) (fl m o : ℕ) (a : Adds s s' fl m o) where
  order_here : s'.order m ≡ o
  order_here = ap (λ f. f m) a.orders ∙ update_same s.order m o

  order_other : (x : ℕ) → x ≢ m → s'.order x ≡ s.order x
  order_other x ne = ap (λ f. f x) a.orders ∙ update_ne s.order m x o ne

  lcnt_at :
      (fl' o' : ℕ)
      → s'.lcnt fl' o' ≡ (
          if fl' == fl then (if o' == o then s.lcnt fl o + 1 else s.lcnt fl' o') else s.lcnt fl' o')
  lcnt_at fl' o' = ap (λ f. f fl' o') a.lcnts ∙ update-update s.lcnt fl o fl' o' (s.lcnt fl o + 1)

  pl_at :
      (fl' o' : ℕ)
      → s'.pl fl' o'
        ≡ (if fl' == fl then (if o' == o then a.list else s.pl fl' o') else s.pl fl' o')
  pl_at fl' o' = ap (λ f. f fl' o') a.lists ∙ update-update s.pl fl o fl' o' a.list

  count_at :
      (fl' o' k : ℕ)
      → count k (s'.pl fl' o')
        ≡ count k (s.pl fl' o')
          + (if fl' == fl then (if o' == o then (if m == k then 1 else 0) else 0) else 0)
  count_at fl' o' k = ap (count k) (pl_at fl' o') ∙ elim (ℕ_discrete fl' fl) [
    | yes e ↦
        rw (e, ==_refl fl)
          (elim (ℕ_discrete o' o) [
            | yes e' ↦ rw (e', ==_refl o) (a.inserted.counted k)
            | no ne ↦ rw (==_of_ne o' o ne) (omega arith)
          ])
    | no ne ↦ rw (==_of_ne fl' fl ne) (omega arith)
  ]

  module _ (v : IsValid n p s) (fits : o < n) (in_pool : (x : ℕ) → InBlock m o x → s.pool x ≡ fl)
      (used : IsUsed n p s m o) where
    head_pool : s.pool m ≡ fl
    head_pool = in_pool m (omega (arith, one-le-pow o 2))

    times_here :
        (fl' o' : ℕ)
        → listed_times s' fl' o' m ≡ (if o == o' then (if fl == fl' then 1 else 0) else 0)
    unfolding listed_times
    times_here fl' o' =
        (λ i. if order_here i == o' then (if a.same_pool i m == fl' then 1 else 0) else 0)
        ∙ (λ i. if o == o' then (if head_pool i == fl' then 1 else 0) else 0)

    times_other : (fl' o' k : ℕ) → k ≢ m → listed_times s' fl' o' k ≡ listed_times s fl' o' k
    unfolding listed_times
    times_other fl' o' k ne =
        λ i. if order_other k ne i == o' then (if a.same_pool i k == fl' then 1 else 0) else 0

    none_before : (fl' o' : ℕ) → o' < n → count m (s.pl fl' o') ≡ 0
    unfolding listed_times
    none_before fl' o' lt =
        let ne : s.order m ≢ o' = λ e. head_used n p m o s used (omega arith) in
        v.listed fl' o' m lt ∙ rw (==_of_ne (s.order m) o' ne) refl

    listed_after : (fl' o' k : ℕ) → o' < n → count k (s'.pl fl' o') ≡ listed_times s' fl' o' k
    listed_after fl' o' k lt = elim (ℕ_discrete k m) [
      | yes e ↦ rw e (
          count_at fl' o' m
          ∙ rw (none_before fl' o' lt, times_here fl' o', ==_refl m) (ground arith))
      | no ne ↦
          count_at fl' o' k
          ∙ rw (==_of_ne m k (λ e. ne (sym e)), times_other fl' o' k ne)
              (ground (arith, v.listed fl' o' k lt))
    ]

    lengths_after : (fl' o' : ℕ) → s'.lcnt fl' o' ≡ length (s'.pl fl' o')
    lengths_after fl' o' =
        lcnt_at fl' o'
        ∙ sym (
            ap length (pl_at fl' o') ∙ elim (ℕ_discrete fl' fl) [
              | yes e ↦
                  rw (e, ==_refl fl)
                    (elim (ℕ_discrete o' o) [
                      | yes e' ↦
                          rw (e', ==_refl o) (omega (arith, a.inserted.longer, v.lengths fl o))
                      | no ne ↦ rw (==_of_ne o' o ne) (sym (v.lengths fl o'))
                    ])
              | no ne ↦ rw (==_of_ne fl' fl ne) (sym (v.lengths fl' o'))
            ])

    used_order : (x : ℕ) → InBlock m o x → s.order x ≡ n
    unfolding IsUsed
    used_order x inside = elim (dec_lt (s.order x) n) [
      | yes below ↦ absurd (
          used x inside
            (record { head = x; below = below; inside = omega (arith, one-le-pow (s.order x) 2) }))
      | no above ↦ omega (arith, v.bounded x)
    ]

    inner_after : (h x : ℕ) → s'.order h < n → h < x → x < h + 2 ^ s'.order h → s'.order x ≡ n
    unfolding IsUsed
    inner_after h x below behind inside = elim (ℕ_discrete h m) [
      | yes e ↦
          let size : x < m + 2 ^ o =
            subst (λ (k : ℕ). x < k) (λ i. e i + 2 ^ (ap s'.order e ∙ order_here) i) inside in
          order_other x (λ q. omega arith) ∙ used_order x (omega arith)
      | no ne ↦
          let same = order_other h ne in
          let below' : s.order h < n = rw same at below in
          let inside' : x < h + 2 ^ s.order h = rw same at inside in
          elim (ℕ_discrete x m) [
            | yes e ↦ absurd (
                used m (omega (arith, one-le-pow o 2))
                  (record { head = h; below = below'; inside = omega arith }))
            | no other ↦ order_other x other ∙ v.inner h x below' behind inside'
          ]
    ]

    module _ (start : m % 2 ^ o ≡ 0) (has_pool : fl < p) where
      Adds-IsValid : IsValid n p s'
      Adds-IsValid = record {
        lengths = lengths_after;
        listed = listed_after;
        bounded = λ x. elim (ℕ_discrete x m) [
          | yes e ↦ rw (e, order_here) (omega arith)
          | no ne ↦ rw (order_other x ne) (v.bounded x)
        ];
        inner = inner_after;
        aligned = λ x below. elim (ℕ_discrete x m) [
          | yes e ↦ rw (e, order_here) start
          | no ne ↦ rw (order_other x ne) (v.aligned x (rw (order_other x ne) at below))
        ];
        uniform = λ h x below inside. rw a.same_pool (elim (ℕ_discrete h m) [
          | yes e ↦
              let here : InBlock m o x = (
                subst (λ (k : ℕ). k ≤ x) e inside.0,
                subst (λ (k : ℕ). x < k) (λ i. e i + 2 ^ (ap s'.order e ∙ order_here) i) inside.1,
              ) in
              rw e (in_pool x here ∙ sym head_pool)
          | no ne ↦ v.uniform h x (rw (order_other h ne) at below) (rw (order_other h ne) at inside)
        ]);
        pools = λ x below. elim (ℕ_discrete x m) [
          | yes e ↦ rw (e, a.same_pool, head_pool) has_pool
          | no ne ↦ rw a.same_pool (v.pools x (rw (order_other x ne) at below))
        ];
      }

    Adds-Free : (x : ℕ) → Free n p s' x ↔ Free n p s x ⊎ InBlock m o x
    unfolding IsUsed
    Adds-Free x = (
      λ f. elim (ℕ_discrete f.head m) [
        | yes e ↦ inr (
          subst (λ (h : ℕ). h ≤ x) e f.inside.0,
          subst (λ (k : ℕ). x < k) (λ i. e i + 2 ^ (ap s'.order e ∙ order_here) i) f.inside.1,
        )
        | no ne ↦ inl (record {
          head = f.head;
          below = rw (order_other f.head ne) at f.below;
          inside = rw (order_other f.head ne) at f.inside;
        })
      ],
      λ f. elim f [
        | inl old ↦
            let ne : old.head ≢ m =
              λ e. head_used n p m o s used (subst (λ (h : ℕ). s.order h < n) e old.below) in
            record {
              head = old.head;
              below = rw (order_other old.head ne) old.below;
              inside = rw (order_other old.head ne) old.inside;
            }
        | inr new ↦ record { head = m; below = rw order_here fits; inside = rw order_here new }
      ],
    )

-- `vm_freelist_add` of an aligned block with an order in range, to the lists of its pages' pool,
-- none of them free: the lists stay valid, and the free pages are those there were and the block's.
pub freelist_add_lem :
    (n p : ℕ) (s : Phys) (fl m o : ℕ) (tail : Bool)
    → IsValid n p s
    → o < n
    → fl < p
    → ((x : ℕ) → InBlock m o x → s.pool x ≡ fl)
    → m % 2 ^ o ≡ 0
    → IsUsed n p s m o
    → IsValid n p (vm_freelist_add s fl m o tail)
      × ((x : ℕ) → Free n p (vm_freelist_add s fl m o tail) x ↔ Free n p s x ⊎ InBlock m o x)
freelist_add_lem n p s fl m o tail v fits has_pool in_pool start used =
    let a = freelist_add-Adds s fl m o tail in
    let s' = vm_freelist_add s fl m o tail in
    (
      Adds-IsValid n p s s' fl m o a v fits in_pool used start has_pool,
      Adds-Free n p s s' fl m o a v fits in_pool used,
    )
