-- ===== src/Phys/Range/Contig.antt =====
-- `vm_phys_free_contig` of vm_phys.c: its two loops, and the free pages after them.
use native.Mathlib.Decide.{dec_lt, ℕ_discrete}
use native.Mathlib.Nat.{pow-suc, pow-le-pow_right, one-le-pow, zero-mod, add-mod_right}
use coding_projects.Prelude.{
  ℕ, zero, suc, ◌+◌, ◌-◌, ◌*◌, ◌/◌, ◌%◌, ◌^◌, ◌≤◌, ◌<◌, ◌≡◌, ◌≢◌, refl, sym, ◌∙◌, arith, inl, inr,
  subst, if◌then◌else◌, Bool-cases, ==_of_ne, min, ltb,
}
use coding_projects.Phys.{Phys, Segment, vm_phys_free_pages}
use coding_projects.Phys.Split.{aligned_down}
use coding_projects.Phys.Free.{free_pages_lem}
use coding_projects.Phys.Range.{
  ffs_upto, fls_upto, unsigned_pred, aligned_loop, residual_loop, vm_phys_free_contig,
}
use coding_projects.Phys.Range.Lowest.{ffs-Lowest, fls-Highest}
use coding_projects.Phys.Range.Freed.{
  LooseRange, Freed, none_Freed, first_Loose, rest_LooseRange, rest_Freed,
}

-- The order of the block that the first loop takes at `m`.
first_order : ℕ → ℕ → ℕ
first_order n m = min (unsigned_pred (ffs_upto 64 (m * 2 ^ 12 / 2 ^ 12))) (n - 1)

first_order-lt : (n m : ℕ) → 1 ≤ n → first_order n m < n
unfolding first_order
first_order-lt n m some_order = omega arith

pub divides_less : (m j k : ℕ) → k ≤ j → m % 2 ^ j ≡ 0 → m % 2 ^ k ≡ 0
divides_less m j k le h =
    let e : j ≡ k + (j - k) = omega arith in
    aligned_down (j - k) m k (subst (λ (i : ℕ). m % 2 ^ i ≡ 0) e h)

first_order-divides : (n m : ℕ) → m < 2 ^ 64 → m % 2 ^ first_order n m ≡ 0
unfolding first_order
first_order-divides n m word = elim (ℕ_discrete m 0) [
  | yes e ↦ rw e (zero-mod (2 ^ first_order n 0))
  | no ne ↦
      let l = ffs-Lowest 64 m word ne in
      let same : m * 2 ^ 12 / 2 ^ 12 ≡ m = omega arith in
      let found : unsigned_pred (ffs_upto 64 (m * 2 ^ 12 / 2 ^ 12)) ≡ l.order =
        rw (same, l.found) (ground arith) in
      divides_less m l.order (first_order n m) (omega (arith, found)) l.divides
]

power-lt : (k top : ℕ) → 2 ^ k < 2 ^ top → k < top
power-lt k top h = elim (dec_lt k top) [
  | yes less ↦ less
  | no more ↦
      absurd (omega (arith, pow-le-pow_right {n = 2} (omega arith) {i = top} {j = k} (omega arith)))
]

-- The block of the next round is freed as the first of the run.
module _ (n p fl : ℕ) (seg : Segment) (whole : seg.start % 2 ^ 12 ≡ 0) (last : seg.end ≤ 2 ^ 64)
    (orders : n ≤ 52) (some_order : 1 ≤ n) where
  free_Freed :
      (s : Phys) (m c k : ℕ)
      → LooseRange n p s m c fl
      → k < n
      → 2 ^ k ≤ c
      → m % 2 ^ k ≡ 0
      → seg.start ≤ m * 2 ^ 12
      → Freed n p s (vm_phys_free_pages n seg s m k) m (2 ^ k)
  free_Freed s m c k l fits room start place =
      let r =
        free_pages_lem n p seg whole last orders s m k
          (first_Loose n p s m c fl k l fits room start) place in
      record { valid = r.0; free = r.1; kept = λ x used. r.2 x (λ f. used ((r.1 x).1 (inl f))) }

  -- The run that the first loop leaves: it is shorter than the block that its first page could start.
  record Residual (s : Phys) (m c : ℕ) (r : Phys × ℕ × ℕ) : Type 0 where
    top : ℕ
    low : top < n
    start : r.1 % 2 ^ top ≡ 0
    short : r.2 < 2 ^ top
    loose : LooseRange n p r.0 r.1 r.2 fl
    place : seg.start ≤ r.1 * 2 ^ 12
    smaller : r.2 ≤ c
    finish : (s' : Phys) → Freed n p r.0 s' r.1 r.2 → Freed n p s s' m c

  aligned_step :
      (left : ℕ) (s : Phys) (m c : ℕ)
      → aligned_loop n seg (suc left) s m c ≡ (
          if ltb c (2 ^ first_order n m)
          then (s, m, c)
          else aligned_loop n seg left
              (vm_phys_free_pages n seg s m (first_order n m))
              (m + 2 ^ first_order n m)
              (c - 2 ^ first_order n m))
  unfolding aligned_loop first_order
  aligned_step left s m c = refl

  aligned-Residual :
      (left : ℕ) (s : Phys) (m c : ℕ)
      → c ≤ left
      → m + c < 2 ^ 64
      → LooseRange n p s m c fl
      → seg.start ≤ m * 2 ^ 12
      → Residual s m c (aligned_loop n seg left s m c)
  unfolding aligned_loop
  aligned-Residual zero s m c enough word l place = record {
    top = 0;
    low = omega arith;
    start = omega arith;
    short = omega arith;
    loose = l;
    place = place;
    smaller = omega arith;
    finish = λ s' d. d;
  }
  aligned-Residual (suc left) s m c enough word l place =
      let k = first_order n m in
      let low = first_order-lt n m some_order in
      let start = first_order-divides n m (omega arith) in
      let positive = one-le-pow k 2 (omega arith) in
      subst (Residual s m c) (sym (aligned_step left s m c)) (elim (Bool-cases (ltb c (2 ^ k))) [
        | inl out ↦ rw out (record {
          top = k;
          low = low;
          start = start;
          short = ground arith;
          loose = l;
          place = place;
          smaller = omega arith;
          finish = λ s' d. d;
        })
        | inr more ↦
            let room : 2 ^ k ≤ c = ground arith in
            let d = free_Freed s m c k l low room start place in
            let s1 = vm_phys_free_pages n seg s m k in
            let rest =
              aligned-Residual left s1 (m + 2 ^ k) (c - 2 ^ k) (omega (arith, positive))
                (omega arith) (rest_LooseRange n p s m c fl k l low room s1 d) (omega arith) in
            rw more (record {
              top = rest.top;
              low = rest.low;
              start = rest.start;
              short = rest.short;
              loose = rest.loose;
              place = rest.place;
              smaller = omega (arith, rest.smaller);
              finish = λ s' e. rest_Freed n p s m c fl k l low room s1 s' d (rest.finish s' e);
            })
      ])

  residual_step :
      (left : ℕ) (s : Phys) (m c k : ℕ)
      → fls_upto 64 c ≡ suc k
      → c ≢ 0
      → residual_loop n seg (suc left) s m c
        ≡ residual_loop n seg left (vm_phys_free_pages n seg s m k) (m + 2 ^ k) (c - 2 ^ k)
  unfolding residual_loop
  residual_step left s m c k e ne =
      let e' : fls_upto 64 c - 1 ≡ k = omega (arith, e) in
      rw (residual_loop, e', ==_of_ne c 0 ne) refl

  residual-Freed :
      (left : ℕ) (s : Phys) (m c top : ℕ)
      → c ≤ left
      → c < 2 ^ 64
      → LooseRange n p s m c fl
      → seg.start ≤ m * 2 ^ 12
      → top < n
      → m % 2 ^ top ≡ 0
      → c < 2 ^ top
      → Freed n p s (residual_loop n seg left s m c) m c
  unfolding residual_loop
  residual-Freed zero s m c top enough word l place low start short =
      let e : 0 ≡ c = omega arith in subst (Freed n p s s m) e (none_Freed n p s m l.valid)
  residual-Freed (suc left) s m c top enough word l place low start short = elim (ℕ_discrete c 0) [
    | yes e ↦
        subst (λ (c : ℕ). Freed n p s (residual_loop n seg (suc left) s m c) m c) (sym e)
          (none_Freed n p s m l.valid)
    | no ne ↦
        let h = fls-Highest 64 c word ne in
        let k = h.order in
        let under : k < top = power-lt k top (omega (arith, h.from_below)) in
        let start_k = divides_less m top k (omega arith) start in
        let fits : k < n = omega arith in
        let d = free_Freed s m c k l fits h.from_below start_k place in
        let s1 = vm_phys_free_pages n seg s m k in
        let rest =
          residual-Freed left s1 (m + 2 ^ k) (c - 2 ^ k) k
            (omega (arith, one-le-pow k 2 (omega arith))) (omega arith)
            (rest_LooseRange n p s m c fl k l fits h.from_below s1 d) (omega arith) fits
            (add-mod_right m (2 ^ k) ∙ start_k)
            (omega (arith, h.above, pow-suc 2 k, h.from_below)) in
        subst (λ (r : Phys). Freed n p s r m c) (sym (residual_step left s m c k h.found ne))
          (rest_Freed n p s m c fl k l fits h.from_below s1
            (residual_loop n seg left s1 (m + 2 ^ k) (c - 2 ^ k)) d rest)
  ]

  -- On valid lists, `vm_phys_free_contig` of a run of any number of pages of one pool, none of them free,
  -- in a segment of whole pages with 64-bit addresses, leaves valid lists on which the pages of the run
  -- are free and all others are as they were.
  pub free_contig_lem :
      (s : Phys) (m c : ℕ)
      → m + c < 2 ^ 64
      → LooseRange n p s m c fl
      → seg.start ≤ m * 2 ^ 12
      → Freed n p s (vm_phys_free_contig n seg s m c) m c
  unfolding vm_phys_free_contig
  free_contig_lem s m c word l place =
      let a = aligned-Residual c s m c (omega arith) word l place in
      let r = aligned_loop n seg c s m c in
      a.finish (residual_loop n seg r.2 r.0 r.1 r.2) (
        residual-Freed r.2 r.0 r.1 r.2 a.top (omega arith) (omega (arith, a.smaller)) a.loose
          a.place a.low a.start a.short)
