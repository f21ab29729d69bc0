-- ===== src/Phys/Npages/Took.antt =====
-- The pages in the array of `vm_phys_alloc_npages`, and one block taken for it.
use native.Mathlib.Decide.{dec_lt, ℕ_discrete}
use native.Mathlib.Nat.{pow-le-pow_right, pow-suc, add-mod_right}
use coding_projects.Prelude.{
  ℕ, zero, suc, ◌+◌, ◌-◌, ◌%◌, ◌^◌, ◌≤◌, ◌<◌, true, List, ◌++◌, length, ◌≡◌, ◌≢◌, refl, sym, ap,
  ◌∙◌, arith, inl, inr, ◌↔◌, subst, ==_refl, ==_of_ne,
}
use coding_projects.Phys.{Phys}
use coding_projects.Phys.Valid.{count, count-append, InBlock, Free, IsValid}
use coding_projects.Phys.Carve.{Heads}
use coding_projects.Phys.Range.{vm_phys_enq_range}
use coding_projects.Phys.Range.Freed.{InRange, LooseRange, Freed}
use coding_projects.Phys.Range.Enq.{enq_range_lem}
use coding_projects.Phys.Npages.{pages}

pub length-pages : (m c : ℕ) → length (pages m c) ≡ c
unfolding pages
length-pages m zero = refl
length-pages m (suc c) = omega (arith, length-pages (m + 1) c)

count-pages_out : (x m c : ℕ) → ¬ InRange m c x → count x (pages m c) ≡ 0
unfolding pages count
count-pages_out x m zero far = refl
count-pages_out x m (suc c) far =
    let ne : m ≢ x = λ e. far (omega arith) in
    rw (==_of_ne m x ne, count-pages_out x (m + 1) c (λ i. far (omega (arith, i)))) refl

count-pages_in : (x m c : ℕ) → InRange m c x → count x (pages m c) ≡ 1
unfolding pages count
count-pages_in x m zero inside = absurd (omega arith)
count-pages_in x m (suc c) inside = elim (ℕ_discrete m x) [
  | yes e ↦ rw (e, ==_refl x, count-pages_out x (x + 1) c (λ i. omega (arith, i))) refl
  | no ne ↦ rw (==_of_ne m x ne, count-pages_in x (m + 1) c (omega (arith, ne))) refl
]

in_range : (m c x : ℕ) → Dec (InRange m c x)
in_range m c x = elim (dec_lt x m) [
  | yes before ↦ no (λ i. omega (arith, before, i))
  | no from_m ↦ elim (dec_lt x (m + c)) [
    | yes inside ↦ yes (omega (arith, from_m, inside))
    | no beyond ↦ no (λ i. omega (arith, beyond, i))
  ]
]

-- The pages `ma` have been taken from the lists `s0`.
pub record Took (n p : ℕ) (s0 s : Phys) (ma : List ℕ) : Type 0 where
  pub valid : IsValid n p s
  pub free : (x : ℕ) → Free n p s x ↔ Free n p s0 x × (count x ma ≡ 0)
  pub was_free : (x : ℕ) → 0 < count x ma → Free n p s0 x
  pub once : (x : ℕ) → count x ma ≤ 1

module _ (n p : ℕ) (s0 s : Phys) (m big to : ℕ) (ma : List ℕ) (t : Took n p s0 s ma)
    (h : Heads s (s.pool m) big m) (lt : big < n) (small : n ≤ 32) (has_pool : to < p) (s2 : Phys)
    (valid : IsValid n p s2) (in_pool : (x : ℕ) → InBlock m big x → s2.pool x ≡ to)
    (free_2 : (x : ℕ) → Free n p s2 x ↔ Free n p s x × ¬ InBlock m big x) where
  block_free : (x : ℕ) → InBlock m big x → Free n p s x
  block_free x inside = record {
    head = m;
    below = omega (arith, h.order_is);
    inside = subst (λ (k : ℕ). InBlock m k x) (sym h.order_is) inside;
  }

  module _ (need : ℕ) (fits : need ≤ 2 ^ big) where
    abbrev rest : ℕ
    rest = 2 ^ big - need

    rest-LooseRange : LooseRange n p s2 (m + need) rest to
    rest-LooseRange = record {
      valid = valid;
      used = λ x inside f. ((free_2 x).0 f).1 (omega (arith, inside, fits));
      same_pool = λ x inside. in_pool x (omega (arith, inside, fits));
      has_pool = has_pool;
    }

    -- The pages of the block that are not needed go back to the lists.
    pub returned_rest :
        need < 2 ^ big → Freed n p s2 (vm_phys_enq_range s2 (m + need) rest to true) (m + need) rest
    returned_rest less =
        let ends : m + need + rest ≡ m + 2 ^ big = omega (arith, fits) in
        let start : m % 2 ^ big ≡ 0 =
          subst (λ (k : ℕ). m % 2 ^ k ≡ 0) h.order_is
            (t.valid.aligned m (omega (arith, h.order_is))) in
        let word : 2 ^ big < 2 ^ 32 =
          omega (arith, pow-le-pow_right {n = 2} (omega arith) {i = big} {j = 31} (omega arith)) in
        enq_range_lem n p to true s2 (m + need) rest big (λ e. omega arith) (omega arith)
          (ap (λ (k : ℕ). k % 2 ^ big) ends ∙ add-mod_right m (2 ^ big) ∙ start)
          (omega (arith, pow-suc 2 big)) lt rest-LooseRange

    counted : (x : ℕ) → count x (ma ++ pages m need) ≡ count x ma + count x (pages m need)
    counted x = count-append x ma (pages m need)

    needed_free : (x : ℕ) → InRange m need x → Free n p s x
    needed_free x inside = block_free x (omega (arith, inside, fits))

    needed_new : (x : ℕ) → InRange m need x → count x ma ≡ 0
    needed_new x inside = ((t.free x).0 (needed_free x inside)).1

    pub taken_Took :
        (s3 : Phys) → Freed n p s2 s3 (m + need) rest → Took n p s0 s3 (ma ++ pages m need)
    taken_Took s3 d = record {
      valid = d.valid;
      free = λ x. (
        λ f. elim ((d.free x).0 f) [
          | inl f2 ↦
              let (old, far) = (free_2 x).0 f2 in
              let (first, none_before) = (t.free x).0 old in
              (
                first,
                omega (
                  arith,
                  counted x,
                  none_before,
                  count-pages_out x m need (λ i. far (omega (arith, i, fits))),
                ),
              )
          | inr back ↦
              let (first, none_before) = (t.free x).0 (block_free x (omega (arith, back, fits))) in
              (
                first,
                omega (
                  arith,
                  counted x,
                  none_before,
                  count-pages_out x m need (λ i. omega (arith, i, back)),
                ),
              )
        ],
        λ (first, nowhere).
            let old = (t.free x).1 (first, omega (arith, counted x, nowhere)) in
            elim (dec_lt x m) [
              | yes before ↦ (d.free x).1 (inl ((free_2 x).1 (old, λ i. omega (arith, before, i))))
              | no from_m ↦ elim (dec_lt x (m + need)) [
                | yes needed ↦ absurd (
                    omega (
                      arith,
                      counted x,
                      nowhere,
                      count-pages_in x m need (omega (arith, from_m, needed)),
                    ))
                | no behind ↦ elim (dec_lt x (m + 2 ^ big)) [
                  | yes inside ↦ (d.free x).1 (inr (omega (arith, behind, inside, fits)))
                  | no beyond ↦
                      (d.free x).1 (inl ((free_2 x).1 (old, λ i. omega (arith, beyond, i))))
                ]
              ]
            ],
      );
      was_free = λ x more. elim (dec_lt 0 (count x ma)) [
        | yes before ↦ t.was_free x before
        | no not_before ↦ elim (in_range m need x) [
          | yes needed ↦ ((t.free x).0 (needed_free x needed)).0
          | no far ↦
              absurd (omega (arith, counted x, more, not_before, count-pages_out x m need far))
        ]
      ];
      once = λ x. elim (in_range m need x) [
        | yes needed ↦ omega (arith, counted x, needed_new x needed, count-pages_in x m need needed)
        | no far ↦ omega (arith, counted x, t.once x, count-pages_out x m need far)
      ];
    }
