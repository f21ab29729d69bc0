-- ===== src/Phys/Range/Lowest.antt =====
-- The lowest and the highest bit that is set in a number.
use native.Mathlib.Nat.{pow-suc, mul_assoc, mul-mod_left, div-add-mod'}
use coding_projects.Prelude.{
  ℕ, zero, suc, ◌*◌, ◌/◌, ◌%◌, ◌^◌, ◌≤◌, ◌<◌, ◌≡◌, ◌≢◌, refl, sym, ap, ◌∙◌, arith, ◌==◌, ==_of_ne,
  Bool-cases, inl, inr, ==_iff,
}
use coding_projects.Phys.Range.{ffs_upto, fls_upto}

-- `r` is one more than the number of the lowest bit that is set in `x`, or of a lower one.
pub record Lowest (x r : ℕ) : Type 0 where
  pub order : ℕ
  pub found : r ≡ suc order
  pub divides : x % 2 ^ order ≡ 0

doubled_divides : (x k : ℕ) → x % 2 ≡ 0 → x / 2 % 2 ^ k ≡ 0 → x % 2 ^ suc k ≡ 0
doubled_divides x k even half =
    let q = x / 2 / 2 ^ k in
    let whole : x ≡ q * 2 ^ suc k =
      omega (arith, div-add-mod' (x / 2) (2 ^ k), half, even)
      ∙ mul_assoc q (2 ^ k) 2
      ∙ ap (λ (t : ℕ). q * t) (sym (pow-suc 2 k)) in
    ap (λ (t : ℕ). t % 2 ^ suc k) whole ∙ mul-mod_left q (2 ^ suc k)

pub ffs-Lowest : (width x : ℕ) → x < 2 ^ width → x ≢ 0 → Lowest x (ffs_upto width x)
unfolding ffs_upto
ffs-Lowest zero x small ne = absurd (omega arith)
ffs-Lowest (suc width) x small ne = elim (Bool-cases (x % 2 == 0)) [
  | inl even ↦
      let is_even = (==_iff (x % 2) 0).0 even in
      let l = ffs-Lowest width (x / 2) (omega (arith, pow-suc 2 width)) (λ e. omega arith) in
      rw (==_of_ne x 0 ne, even)
        (record {
          order = suc l.order;
          found = ap suc l.found;
          divides = doubled_divides x l.order is_even l.divides;
        })
  | inr odd ↦ rw (==_of_ne x 0 ne, odd) (record { order = 0; found = refl; divides = omega arith })
]

pub record Highest (x r : ℕ) : Type 0 where
  pub order : ℕ
  pub found : r ≡ suc order
  pub from_below : 2 ^ order ≤ x
  pub above : x < 2 ^ suc order

pub fls-Highest : (width x : ℕ) → x < 2 ^ width → x ≢ 0 → Highest x (fls_upto width x)
unfolding fls_upto
fls-Highest zero x small ne = absurd (omega arith)
fls-Highest (suc width) x small ne = elim (Bool-cases (x / 2 == 0)) [
  | inl last ↦
      let one : x / 2 ≡ 0 = (==_iff (x / 2) 0).0 last in
      rw (==_of_ne x 0 ne, one, fls_zero width)
        (record { order = 0; found = refl; from_below = omega arith; above = omega arith })
  | inr more ↦
      let ne' : x / 2 ≢ 0 = λ e. ground (arith, (==_iff (x / 2) 0).1 e) in
      let h = fls-Highest width (x / 2) (omega (arith, pow-suc 2 width)) ne' in
      rw (==_of_ne x 0 ne) (record {
        order = suc h.order;
        found = ap suc h.found;
        from_below = omega (arith, pow-suc 2 h.order, h.from_below);
        above = omega (arith, pow-suc 2 (suc h.order), h.above);
      })
]
  where
    fls_zero : (width : ℕ) → fls_upto width 0 ≡ 0
    fls_zero zero = refl
    fls_zero (suc width) = refl
