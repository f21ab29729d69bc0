-- ===== src/Phys/Unfree/Extract.antt =====
-- The second loop of `vm_phys_unfree_page` in vm_phys.c.
use native.Mathlib.Decide.{dec_lt}
use native.Mathlib.Nat.{pow-suc, mul_assoc, mul_comm, div-add-mod', add-mul, one-mul, add-mod_right}
use coding_projects.Prelude.{
  ℕ, zero, suc, ◌+◌, ◌*◌, ◌/◌, ◌%◌, ◌^◌, ◌≤◌, ◌<◌, bit_xor, ◌≡◌, ◌≢◌, refl, sym, ap, ◌∙◌, arith,
  inl, inr, ◌⊎◌, ◌↔◌, subst, Bool-cases, ltb, if◌then◌else◌, false,
}
use coding_projects.Phys.{Phys, Segment, vm_freelist_add}
use coding_projects.Phys.Valid.{InBlock, Free, IsValid, IsUsed}
use coding_projects.Phys.Freelist.{freelist_add-Adds}
use coding_projects.Phys.Add.{freelist_add_lem}
use coding_projects.Phys.Split.{aligned_half}
use coding_projects.Phys.Buddy.{flip, bit_xor-pow, address}
use coding_projects.Phys.Free.{page_at_address}
use coding_projects.Phys.Range.Freed.{LooseRange}
use coding_projects.Phys.Unfree.{extract_loop}

-- The pages of the block but `m` have become free.
pub record Extracted (n p : ℕ) (s s' : Phys) (m m_set o : ℕ) : Type 0 where
  pub valid : IsValid n p s'
  pub free : (x : ℕ) → Free n p s' x ↔ Free n p s x ⊎ InBlock m_set o x × (x ≢ m)

-- The upper half of an aligned block, as `vm_phys_unfree_page` computes it.
pub upper_half :
    (m o : ℕ) → m % 2 ^ suc o ≡ 0 → bit_xor (m * 2 ^ 12) (2 ^ (12 + o)) ≡ (m + 2 ^ o) * 2 ^ 12
unfolding flip
upper_half m o start =
    let q = m / 2 ^ suc o in
    let whole : m ≡ q * 2 * 2 ^ o =
      omega (arith, div-add-mod' m (2 ^ suc o), start)
      ∙ ap (λ (t : ℕ). q * t) (pow-suc 2 o ∙ mul_comm (2 ^ o) 2)
      ∙ sym (mul_assoc q 2 (2 ^ o)) in
    let odd : flip (q * 2) ≡ q * 2 + 1 = omega arith in
    let next : flip (q * 2) * 2 ^ o ≡ m + 2 ^ o =
      ap (λ (t : ℕ). t * 2 ^ o) odd
      ∙ add-mul (q * 2) 1 (2 ^ o)
      ∙ omega (arith, whole, one-mul (2 ^ o)) in
    ap (λ (t : ℕ). bit_xor (t * 2 ^ 12) (2 ^ (12 + o))) whole
    ∙ ap (λ (t : ℕ). bit_xor t (2 ^ (12 + o))) (address (q * 2) o)
    ∙ bit_xor-pow (12 + o) (q * 2)
    ∙ sym (address (flip (q * 2)) o)
    ∙ ap (λ (t : ℕ). t * 2 ^ 12) next

-- A block cut into the half that keeps the page and the half that is given back.
record Halves (m_set o m keep give : ℕ) : Type 0 where
  parts : (x : ℕ) → InBlock m_set (suc o) x ↔ InBlock keep o x ⊎ InBlock give o x
  apart : (x : ℕ) → InBlock keep o x → ¬ InBlock give o x
  start_keep : keep % 2 ^ o ≡ 0
  start_give : give % 2 ^ o ≡ 0
  inside : InBlock keep o m

module _ (m_set o m : ℕ) (start : m_set % 2 ^ suc o ≡ 0) (here : InBlock m_set (suc o) m) where
  start_low : m_set % 2 ^ o ≡ 0
  start_low = aligned_half m_set o start

  start_high : (m_set + 2 ^ o) % 2 ^ o ≡ 0
  start_high = add-mod_right m_set (2 ^ o) ∙ start_low

  two_halves : (x : ℕ) → InBlock m_set (suc o) x ↔ InBlock m_set o x ⊎ InBlock (m_set + 2 ^ o) o x
  two_halves x = (
    λ (low, high). elim (dec_lt x (m_set + 2 ^ o)) [
      | yes before ↦ inl (omega (arith, before, low))
      | no behind ↦ inr (omega (arith, behind, high, pow-suc 2 o))
    ],
    λ either. elim either [
      | inl l ↦ omega (arith, l, pow-suc 2 o)
      | inr r ↦ omega (arith, r, pow-suc 2 o)
    ],
  )

  low-Halves : m < m_set + 2 ^ o → Halves m_set o m m_set (m_set + 2 ^ o)
  low-Halves before = record {
    parts = two_halves;
    apart = λ x l r. omega (arith, l, r);
    start_keep = start_low;
    start_give = start_high;
    inside = omega (arith, here, before);
  }

  high-Halves : m_set + 2 ^ o ≤ m → Halves m_set o m (m_set + 2 ^ o) m_set
  high-Halves behind = record {
    parts = λ x. (
      λ i. elim ((two_halves x).0 i) [ inl l ↦ inr l | inr r ↦ inl r ],
      λ either. elim either [ inl r ↦ (two_halves x).1 (inr r) | inr l ↦ (two_halves x).1 (inl l) ],
    );
    apart = λ x l r. omega (arith, l, r);
    start_keep = start_high;
    start_give = start_low;
    inside = omega (arith, here, behind, pow-suc 2 o);
  }

module _ (n p : ℕ) (s : Phys) (m_set o m keep give fl : ℕ) (h : Halves m_set o m keep give)
    (l : LooseRange n p s m_set (2 ^ suc o) fl) (fits : suc o < n) where
  abbrev given : Phys
  given = vm_freelist_add s fl give o false

  give-IsUsed : IsUsed n p s give o
  unfolding IsUsed
  give-IsUsed x inside = l.used x ((h.parts x).1 (inr inside))

  given_lem : IsValid n p given × ((x : ℕ) → Free n p given x ↔ Free n p s x ⊎ InBlock give o x)
  given_lem =
      freelist_add_lem n p s fl give o false l.valid (omega (arith, fits)) l.has_pool
        (λ x inside. l.same_pool x ((h.parts x).1 (inr inside))) h.start_give give-IsUsed

  given-LooseRange : LooseRange n p given keep (2 ^ o) fl
  given-LooseRange = record {
    valid = given_lem.0;
    used = λ x inside f. elim ((given_lem.1 x).0 f) [
      | inl old ↦ l.used x ((h.parts x).1 (inl inside)) old
      | inr there ↦ h.apart x inside there
    ];
    same_pool = λ x inside.
        ap (λ f. f x) (freelist_add-Adds s fl give o false).same_pool
        ∙ l.same_pool x ((h.parts x).1 (inl inside));
    has_pool = l.has_pool;
  }

  given-Extracted :
      (s' : Phys) → Extracted n p given s' m keep o → Extracted n p s s' m m_set (suc o)
  given-Extracted s' e = record {
    valid = e.valid;
    free = λ x. (
      λ f. elim ((e.free x).0 f) [
        | inl f' ↦ elim ((given_lem.1 x).0 f') [
          | inl old ↦ inl old
          | inr there ↦ inr (
            (h.parts x).1 (inr there),
            λ same. h.apart m h.inside (subst (InBlock give o) same there),
          )
        ]
        | inr (inside, ne) ↦ inr ((h.parts x).1 (inl inside), ne)
      ],
      λ either. elim either [
        | inl old ↦ (e.free x).1 (inl ((given_lem.1 x).1 (inl old)))
        | inr (inside, ne) ↦ elim ((h.parts x).0 inside) [
          | inl kept ↦ (e.free x).1 (inr (kept, ne))
          | inr there ↦ (e.free x).1 (inl ((given_lem.1 x).1 (inr there)))
        ]
      ],
    );
  }

module _ (n p : ℕ) (seg : Segment) (whole : seg.start % 2 ^ 12 ≡ 0) where
  extract_step :
      (s : Phys) (m m_set fl o : ℕ)
      → m_set % 2 ^ suc o ≡ 0
      → seg.start ≤ m_set * 2 ^ 12
      → extract_loop n seg (suc o) s m m_set fl ≡ (
          if ltb (m * 2 ^ 12) ((m_set + 2 ^ o) * 2 ^ 12)
          then extract_loop n seg o (vm_freelist_add s fl (m_set + 2 ^ o) o false) m m_set fl
          else extract_loop n seg o (vm_freelist_add s fl m_set o false) m (m_set + 2 ^ o) fl)
  unfolding extract_loop
  extract_step s m m_set fl o start place =
      let at_half = page_at_address n seg (m_set + 2 ^ o) whole (omega arith) in
      rw (extract_loop, upper_half m_set o start, at_half) refl

  pub extract-Extracted :
      (o : ℕ) (s : Phys) (m m_set fl : ℕ)
      → o < n
      → m_set % 2 ^ o ≡ 0
      → seg.start ≤ m_set * 2 ^ 12
      → InBlock m_set o m
      → LooseRange n p s m_set (2 ^ o) fl
      → Extracted n p s (extract_loop n seg o s m m_set fl) m m_set o
  unfolding extract_loop
  extract-Extracted zero s m m_set fl fits start place here l = record {
    valid = l.valid;
    free = λ x. (
      λ f. inl f,
      λ either. elim either [ inl f ↦ f | inr (inside, ne) ↦ absurd (ne (omega arith)) ],
    );
  }
  extract-Extracted (suc o) s m m_set fl fits start place here l =
      let high = m_set + 2 ^ o in
      subst (λ (r : Phys). Extracted n p s r m m_set (suc o))
        (sym (extract_step s m m_set fl o start place))
        (elim (Bool-cases (ltb (m * 2 ^ 12) (high * 2 ^ 12))) [
          | inl before ↦
              let h = low-Halves m_set o m start here (ground arith) in
              rw before (
                given-Extracted n p s m_set o m m_set high fl h l fits _ (
                  extract-Extracted o (vm_freelist_add s fl high o false) m m_set fl (omega arith)
                    h.start_keep place h.inside
                    (given-LooseRange n p s m_set o m m_set high fl h l fits)))
          | inr behind ↦
              let h = high-Halves m_set o m start here (ground arith) in
              rw behind (
                given-Extracted n p s m_set o m high m_set fl h l fits _ (
                  extract-Extracted o (vm_freelist_add s fl m_set o false) m high fl (omega arith)
                    h.start_keep (omega arith) h.inside
                    (given-LooseRange n p s m_set o m high m_set fl h l fits)))
        ])
