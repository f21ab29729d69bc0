-- ===== src/Phys/Unfree/Whole.antt =====
-- `vm_phys_unfree_page` of vm_phys.c as a whole.
use native.Mathlib.Decide.{dec_lt, ℕ_discrete}
use native.Mathlib.Nat.{pow-le-pow_right}
use coding_projects.Prelude.{
  ℕ, ◌+◌, ◌-◌, ◌*◌, ◌%◌, ◌^◌, ◌≤◌, ◌<◌, ◌≡◌, ◌≢◌, refl, sym, ap, ◌∙◌, arith, inl, inr, ◌⊎◌, ◌↔◌,
  subst, Bool-cases, ltb, ◌==◌, ==_iff, Option, none, some, Bool, false, true,
}
use coding_projects.Phys.{Phys, Segment, vm_freelist_rem}
use coding_projects.Phys.Valid.{InBlock, Free, IsValid}
use coding_projects.Phys.Remove.{freelist_rem_lem, rem_pool}
use coding_projects.Phys.Range.Freed.{LooseRange}
use coding_projects.Phys.Unfree.{find_set, extract_loop, extract_from, vm_phys_unfree_page}
use coding_projects.Phys.Unfree.Extract.{extract-Extracted}
use coding_projects.Phys.Unfree.Find.{
  start_of, start_of_in, block_start, multiple_below, Stops, Found, order_reached, unfree_find,
}

module _ (n p : ℕ) (seg : Segment) (s : Phys) (m : ℕ) (v : IsValid n p s)
    (whole : seg.start % 2 ^ 12 ≡ 0) (small : m * 2 ^ 12 < 2 ^ 64) (orders : n ≤ 52)
    (some_order : 1 ≤ n)
    (within : (h : ℕ) → s.order h < n → InBlock h (s.order h) m → seg.start ≤ h * 2 ^ 12) where
  -- What the answer of `vm_phys_unfree_page` says.
  abbrev pub Answered : Bool × Phys → Type 0
  Answered (true, s') =
      Free n p s m × IsValid n p s' × ((x : ℕ) → Free n p s' x ↔ Free n p s x × (x ≢ m))
  Answered (false, s') = (s' ≡ s) × ¬ Free n p s m

  abbrev At : ℕ → ℕ → Type 0
  At = Stops n p seg s m v whole small orders some_order within

  -- A page whose search stopped at a head of a lower order, or of no block, is not free.
  stopped_used :
      (m_set o : ℕ) → At m_set o → s.order m_set < o ⊎ (s.order m_set ≡ n) → ¬ Free n p s m
  stopped_used m_set o a why f =
      let reached =
        order_reached n p seg s m v whole small orders some_order within o a.none_below f in
      let inside = start_of_in m o in
      elim (ℕ_discrete f.head m_set) [
        | yes e ↦ elim why [
          | inl low ↦ omega (arith, ap s.order e, low, reached)
          | inr gone ↦ omega (arith, ap s.order e, gone, f.below)
        ]
        | no ne ↦
            let low =
              multiple_below f.head (s.order f.head) o m (v.aligned f.head f.below) reached
                f.inside.0 in
            let gone : s.order m_set ≡ n =
              v.inner f.head m_set f.below (omega (arith, low, ne, a.head))
                (omega (arith, a.head, inside, f.inside)) in
            let same : s.order f.head ≡ o = omega (arith, a.last gone, f.below, reached) in
            elim why [
              | inl less ↦ omega (arith, less, gone, a.in_range)
              | inr e ↦ ne (
                  block_start f.head (s.order f.head) m (v.aligned f.head f.below) f.inside
                  ∙ ap (start_of m) same
                  ∙ sym a.head)
            ]
      ]

  module _ (m_set o : ℕ) (a : At m_set o) (below : s.order m_set < n)
      (enough : o ≤ s.order m_set) where
    abbrev k : ℕ
    k = s.order m_set

    -- The page lies in the block that was found.
    in_set : InBlock m_set k m
    in_set =
        let inside = start_of_in m o in
        let wide = pow-le-pow_right {n = 2} (omega arith) {i = o} {j = k} enough in
        omega (arith, a.head, inside, wide)

    was_free : Free n p s m
    was_free = record { head = m_set; below = below; inside = in_set }

    abbrev removed : Phys
    removed = vm_freelist_rem n s (s.pool m_set) m_set k

    removed_lem :
        IsValid n p removed × ((x : ℕ) → Free n p removed x ↔ Free n p s x × ¬ InBlock m_set k x)
    removed_lem = freelist_rem_lem n p s m_set v below

    removed-LooseRange : LooseRange n p removed m_set (2 ^ k) (s.pool m_set)
    removed-LooseRange = record {
      valid = removed_lem.0;
      used = λ x inside f. ((removed_lem.1 x).0 f).1 inside;
      same_pool = λ x inside.
          ap (λ f. f x) (rem_pool n s (s.pool m_set) m_set k) ∙ v.uniform m_set x below inside;
      has_pool = v.pools m_set below;
    }

    extracted-Answered : Answered (true, extract_loop n seg k removed m m_set (s.pool m_set))
    extracted-Answered =
        let e =
          extract-Extracted n p seg whole k removed m m_set (s.pool m_set) below
            (v.aligned m_set below) a.place in_set removed-LooseRange in
        (
          was_free,
          e.valid,
          λ x. (
            λ f. elim ((e.free x).0 f) [
              | inl old ↦
                  let before = (removed_lem.1 x).0 old in
                  (before.0, λ same. before.1 (subst (InBlock m_set k) (sym same) in_set))
              | inr (inside, ne) ↦ (record { head = m_set; below = below; inside = inside }, ne)
            ],
            λ (f, ne). elim (dec_lt x m_set) [
              | yes before ↦
                  (e.free x).1 (inl ((removed_lem.1 x).1 (f, λ i. omega (arith, before, i))))
              | no behind ↦ elim (dec_lt x (m_set + 2 ^ k)) [
                | yes inside ↦ (e.free x).1 (inr (omega (arith, behind, inside), ne))
                | no beyond ↦
                    (e.free x).1 (inl ((removed_lem.1 x).1 (f, λ i. omega (arith, beyond, i))))
              ]
            ],
          ),
        )

  answer :
      (r : Option (ℕ × ℕ))
      → Found n p seg s m v whole small orders some_order within r
      → Answered (extract_from n seg s m r)
  unfolding extract_from
  answer none used = (refl, used)
  answer (some (m_set, o)) a = elim (Bool-cases (ltb (s.order m_set) o)) [
    | inl low ↦ rw low (refl, stopped_used m_set o a (inl (ground arith)))
    | inr enough ↦ elim (Bool-cases (s.order m_set == n)) [
      | inl gone ↦
          rw (enough, gone) (refl, stopped_used m_set o a (inr ((==_iff (s.order m_set) n).0 gone)))
      | inr there ↦
          let ne : s.order m_set ≢ n = λ same. ground (arith, (==_iff (s.order m_set) n).1 same) in
          rw (enough, there)
            (extracted-Answered m_set o a (omega (arith, v.bounded m_set, ne)) (ground arith))
    ]
  ]

  -- On valid lists, for a page of a segment of whole pages, with a 64-bit address, and with the block
  -- that holds it (if any) inside the segment: `vm_phys_unfree_page` returns TRUE only if the page is
  -- free, and then leaves valid lists with the free pages there were but this one; it returns FALSE
  -- only if the page is not free, and then changes nothing.
  pub unfree_page_lem : seg.start ≤ m * 2 ^ 12 → Answered (vm_phys_unfree_page n seg s m)
  unfolding vm_phys_unfree_page
  unfree_page_lem place =
      answer (find_set n seg (n - 1) s m m 0)
        (unfree_find n p seg s m v whole small orders some_order within place)
