-- ===== src/Phys/Unfree/Find.antt =====
-- The first loop of `vm_phys_unfree_page` in vm_phys.c.
use native.Mathlib.Decide.{dec_lt, ℕ_discrete}
use native.Mathlib.Nat.{
  one-le-pow, div-add-mod', div-eq_of_lt, add-mul-div_right, le-div_iff_mul-le, div-mul-le_self,
  lt-div-mul-add, mul-le-mul_right, mul-div-mul_right, div-one, mul-one,
}
use coding_projects.Prelude.{
  ℕ, zero, suc, ◌+◌, ◌-◌, ◌*◌, ◌/◌, ◌%◌, ◌^◌, ◌≤◌, ◌<◌, bit_and, ◌≡◌, ◌≢◌, refl, sym, ap, ◌∙◌,
  arith, inl, inr, subst, Bool-cases, leb, ◌==◌, ==_iff, Option, none, some, false, true,
}
use coding_projects.Phys.{Phys, Segment, page_at}
use coding_projects.Phys.Valid.{InBlock, Free, IsValid}
use coding_projects.Phys.Buddy.{address, two_pow_add, bit_and_high}
use coding_projects.Phys.Free.{page_at_address}
use coding_projects.Phys.Range.Contig.{divides_less}
use coding_projects.Phys.Unfree.{find_set}

-- The first page of the aligned block of order `o` around a page.
abbrev pub start_of : ℕ → ℕ → ℕ
start_of m o = m / 2 ^ o * 2 ^ o

pub start_of_in : (m o : ℕ) → InBlock (start_of m o) o m
start_of_in m o = (div-mul-le_self m (2 ^ o), lt-div-mul-add (one-le-pow o 2 (omega arith)))

multiple : (h k : ℕ) → h % 2 ^ k ≡ 0 → h ≡ h / 2 ^ k * 2 ^ k
multiple h k start = omega (arith, div-add-mod' h (2 ^ k), start)

-- An aligned block that holds a page is the aligned block around it.
pub block_start : (h k m : ℕ) → h % 2 ^ k ≡ 0 → InBlock h k m → h ≡ start_of m k
block_start h k m start inside =
    let d = 2 ^ k in
    let e = multiple h k start in
    let positive = one-le-pow k 2 (omega arith) in
    let rest : (m - h) / d ≡ 0 = div-eq_of_lt (omega arith) in
    let split : m ≡ (m - h) + h / d * d = omega (arith, e, inside) in
    let quotient : m / d ≡ h / d =
      ap (λ (t : ℕ). t / d) split
      ∙ add-mul-div_right (m - h) (h / d) positive
      ∙ omega (arith, rest) in
    e ∙ ap (λ (t : ℕ). t * d) (sym quotient)

-- A multiple of a power of two up to a page is not above the aligned block around the page.
pub multiple_below : (h k o m : ℕ) → h % 2 ^ k ≡ 0 → o ≤ k → h ≤ m → h ≤ start_of m o
multiple_below h k o m start le below =
    let e = multiple h o (divides_less h k o le start) in
    let positive = one-le-pow o 2 (omega arith) in
    let q : h / 2 ^ o ≤ m / 2 ^ o = (le-div_iff_mul-le positive).1 (omega (arith, e, below)) in
    omega (arith, e, mul-le-mul_right (2 ^ o) q)

-- The address that the loop computes by its mask.
masked_address :
    (m o : ℕ)
    → m * 2 ^ 12 < 2 ^ 64
    → 12 + o ≤ 64
    → bit_and (m * 2 ^ 12) (2 ^ 64 - 2 ^ (12 + o)) ≡ start_of m o * 2 ^ 12
masked_address m o small fits =
    bit_and_high (12 + o) 64 (m * 2 ^ 12) small fits
    ∙ ap (λ (t : ℕ). m * 2 ^ 12 / t * 2 ^ (12 + o)) (two_pow_add 12 o)
    ∙ ap (λ (t : ℕ). t * 2 ^ (12 + o)) (mul-div-mul_right m (2 ^ o) (omega arith))
    ∙ sym (address (m / 2 ^ o) o)

module _ (n p : ℕ) (seg : Segment) (s : Phys) (m : ℕ) (v : IsValid n p s)
    (whole : seg.start % 2 ^ 12 ≡ 0) (small : m * 2 ^ 12 < 2 ^ 64) (orders : n ≤ 52)
    (some_order : 1 ≤ n)
    (within : (h : ℕ) → s.order h < n → InBlock h (s.order h) m → seg.start ≤ h * 2 ^ 12) where
  -- No block of an order below `o` holds the page.
  abbrev pub NoneBelow : ℕ → Type 0
  NoneBelow o = (j : ℕ) → j < o → s.order (start_of m j) ≡ n

  -- Where the loop stops: at the block that holds the page, or where no block does.
  pub record Stops (m_set o : ℕ) : Type 0 where
    pub head : m_set ≡ start_of m o
    pub none_below : NoneBelow o
    pub last : s.order m_set ≡ n → o ≡ n - 1
    pub in_range : o < n
    pub place : seg.start ≤ m_set * 2 ^ 12

  abbrev pub Found : Option (ℕ × ℕ) → Type 0
  Found none = ¬ Free n p s m
  Found (some (m_set, o)) = Stops m_set o

  -- A block that holds the page has at least the order that the search has come to.
  pub order_reached : (o : ℕ) → NoneBelow o → (f : Free n p s m) → o ≤ s.order f.head
  order_reached o below f = elim (dec_lt (s.order f.head) o) [
    | yes less ↦
        let here = block_start f.head (s.order f.head) m (v.aligned f.head f.below) f.inside in
        absurd (omega (arith, f.below, ap s.order here, below (s.order f.head) less))
    | no more ↦ omega arith
  ]

  none_up_to : (o : ℕ) → NoneBelow o → s.order (start_of m o) ≡ n → NoneBelow (o + 1)
  none_up_to o below here j less = elim (ℕ_discrete j o) [
    | yes e ↦ rw e here
    | no ne ↦ below j (omega arith)
  ]

  -- The loop leaves the segment only if the page is not free.
  left_segment : (o : ℕ) → NoneBelow o → start_of m o * 2 ^ 12 < seg.start → ¬ Free n p s m
  left_segment o below out f =
      let reached = order_reached o below f in
      let low =
        multiple_below f.head (s.order f.head) o m (v.aligned f.head f.below) reached f.inside.0 in
      omega (arith, low, within f.head f.below f.inside, out)

  step_stop :
      (left m_set o : ℕ)
      → (s.order m_set == n) ≡ false
      → find_set n seg (suc left) s m m_set o ≡ some (m_set, o)
  unfolding find_set
  step_stop left m_set o e = rw (find_set, e) refl

  step_out :
      (left m_set o both : ℕ)
      → (s.order m_set == n) ≡ true
      → bit_and (m * 2 ^ 12) (2 ^ 64 - 2 ^ (12 + (o + 1))) ≡ both * 2 ^ 12
      → leb seg.start (both * 2 ^ 12) ≡ false
      → find_set n seg (suc left) s m m_set o ≡ none
  unfolding find_set
  step_out left m_set o both e mask out = rw (find_set, e, mask, out) refl

  step_on :
      (left m_set o both : ℕ)
      → (s.order m_set == n) ≡ true
      → bit_and (m * 2 ^ 12) (2 ^ 64 - 2 ^ (12 + (o + 1))) ≡ both * 2 ^ 12
      → leb seg.start (both * 2 ^ 12) ≡ true
      → page_at n seg (both * 2 ^ 12) ≡ both
      → find_set n seg (suc left) s m m_set o ≡ find_set n seg left s m both (o + 1)
  unfolding find_set
  step_on left m_set o both e mask in_segment at_both =
      rw (find_set, e, mask, in_segment, at_both) refl

  find-Found :
      (left m_set o : ℕ)
      → o + left ≡ n - 1
      → m_set ≡ start_of m o
      → NoneBelow o
      → seg.start ≤ m_set * 2 ^ 12
      → Found (find_set n seg left s m m_set o)
  unfolding find_set
  find-Found zero m_set o e head below place = record {
    head = head;
    none_below = below;
    last = λ same. omega arith;
    in_range = omega arith;
    place = place;
  }
  find-Found (suc left) m_set o e head below place = elim (Bool-cases (s.order m_set == n)) [
    | inr stop ↦
        let differs : s.order m_set ≢ n =
          λ same. ground (arith, (==_iff (s.order m_set) n).1 same) in
        subst Found (sym (step_stop left m_set o stop)) (record {
          head = head;
          none_below = below;
          last = λ same. absurd (differs same);
          in_range = omega arith;
          place = place;
        })
    | inl same ↦
        let both = start_of m (o + 1) in
        let mask = masked_address m (o + 1) small (omega arith) in
        let here : s.order (start_of m o) ≡ n =
          ap s.order (sym head) ∙ (==_iff (s.order m_set) n).0 same in
        let wider = none_up_to o below here in
        elim (Bool-cases (leb seg.start (both * 2 ^ 12))) [
          | inr out ↦
              subst Found (sym (step_out left m_set o both same mask out))
                (left_segment (o + 1) wider (ground arith))
          | inl in_segment ↦
              let place' : seg.start ≤ both * 2 ^ 12 = ground arith in
              subst Found
                (sym (
                  step_on left m_set o both same mask in_segment
                    (page_at_address n seg both whole place')))
                (find-Found left both (o + 1) (omega arith) refl wider place')
        ]
  ]

  start_of_zero : m ≡ start_of m 0
  start_of_zero = sym (mul-one (m / 1) ∙ div-one m)

  pub unfree_find : seg.start ≤ m * 2 ^ 12 → Found (find_set n seg (n - 1) s m m 0)
  unfree_find place =
      find-Found (n - 1) m 0 (omega arith) start_of_zero (λ j less. absurd (omega arith)) place
