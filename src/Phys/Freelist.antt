-- ===== src/Phys/Freelist.antt =====
-- `vm_freelist_add` in terms of the tables.
use native.Mathlib.Decide.{ℕ_discrete}
use coding_projects.Prelude.{
  ℕ, ◌+◌, ◌*◌, ◌/◌, ◌^◌, bit_and, Bool, true, false, List, [], ◌∷◌, ◌++◌, ◌≡◌, refl, arith, ◌==◌,
  if◌then◌else◌, length, length-append, ==_refl, ==_of_ne, Bool-cases, inl, inr,
}
use coding_projects.Phys.{Phys, update, vm_freelist_add}
use coding_projects.Phys.Valid.{count, count-append}

-- The list that `vm_freelist_add` leaves, whichever end the page goes to.
pub record Inserted (m : ℕ) (old new : List ℕ) : Type 0 where
  pub longer : length new ≡ length old + 1
  pub counted : (k : ℕ) → count k new ≡ count k old + (if m == k then 1 else 0)

at_head-Inserted : (m : ℕ) (old : List ℕ) → Inserted m old (m ∷ old)
unfolding count
at_head-Inserted m old = record { longer = omega arith; counted = λ k. omega arith }

at_tail-Inserted : (m : ℕ) (old : List ℕ) → Inserted m old (old ++ (m ∷ []))
unfolding count
at_tail-Inserted m old = record {
  longer = length-append old (m ∷ []);
  counted = λ k. omega (arith, count-append k old (m ∷ []));
}

-- The state after an insertion, in terms of the tables.
pub record Adds (s s' : Phys) (fl m o : ℕ) : Type 0 where
  pub list : List ℕ
  pub inserted : Inserted m (s.pl fl o) list
  pub lists : s'.pl ≡ update s.pl fl (update (s.pl fl) o list)
  pub orders : s'.order ≡ update s.order m o
  pub lcnts : s'.lcnt ≡ update s.lcnt fl (update (s.lcnt fl) o (s.lcnt fl o + 1))
  pub same_pool : s'.pool ≡ s.pool

head_added :
    (s : Phys) (fl m o : ℕ)
    → Adds s
        (record s {
          pl = update s.pl fl (update (s.pl fl) o (m ∷ s.pl fl o));
          freelist_even = s.freelist_even + 1;
          order = update s.order m o;
          lcnt = update s.lcnt fl (update (s.lcnt fl) o (s.lcnt fl o + 1));
        })
        fl
        m
        o
head_added s fl m o = record {
  list = m ∷ s.pl fl o;
  inserted = at_head-Inserted m (s.pl fl o);
  lists = refl;
  orders = refl;
  lcnts = refl;
  same_pool = refl;
}

tail_added :
    (s : Phys) (fl m o : ℕ)
    → Adds s
        (record s {
          pl = update s.pl fl (update (s.pl fl) o (s.pl fl o ++ (m ∷ [])));
          freelist_odd = s.freelist_odd + 1;
          order = update s.order m o;
          lcnt = update s.lcnt fl (update (s.lcnt fl) o (s.lcnt fl o + 1));
        })
        fl
        m
        o
tail_added s fl m o = record {
  list = s.pl fl o ++ (m ∷ []);
  inserted = at_tail-Inserted m (s.pl fl o);
  lists = refl;
  orders = refl;
  lcnts = refl;
  same_pool = refl;
}

pub freelist_add-Adds :
    (s : Phys) (fl m o : ℕ) (tail : Bool) → Adds s (vm_freelist_add s fl m o tail) fl m o
unfolding vm_freelist_add
freelist_add-Adds s fl m o true = elim (Bool-cases (bit_and (m * 2 ^ 12 / 2 ^ 12) 1 == 0)) [
  | inl even ↦ rw even (head_added s fl m o)
  | inr odd ↦ rw odd (tail_added s fl m o)
]
freelist_add-Adds s fl m o false = elim (Bool-cases (bit_and (m * 2 ^ 12 / 2 ^ 12) 1 == 0)) [
  | inl even ↦ rw even (head_added s fl m o)
  | inr odd ↦ rw odd (tail_added s fl m o)
]

-- The entry that two nested tables have.
pub update-update {ℓ} :
    {A : Type ℓ} (f : ℕ → ℕ → A) (fl o fl' o' : ℕ) (v : A)
    → update f fl (update (f fl) o v) fl' o'
      ≡ (if fl' == fl then (if o' == o then v else f fl' o') else f fl' o')
unfolding update
update-update f fl o fl' o' v = elim (ℕ_discrete fl' fl) [
  | yes e ↦
      rw (e, ==_refl fl)
        (elim (ℕ_discrete o' o) [
          | yes e' ↦ rw (e', ==_refl o) refl
          | no ne ↦ rw (==_of_ne o' o ne) refl
        ])
  | no ne ↦ rw (==_of_ne fl' fl ne) refl
]
