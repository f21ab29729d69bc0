-- ===== src/Phys/Valid.antt =====
-- The invariant of the free lists, and the set of free pages that they stand for.
use native.Mathlib.Nat.{zero-add}
use coding_projects.Prelude.{
  ℕ, ◌+◌, ◌-◌, ◌%◌, ◌^◌, ◌≤◌, ◌<◌, List, [], ◌∷◌, ◌++◌, ◌≡◌, ◌≢◌, refl, arith, ◌==◌, if◌then◌else◌,
  length, ==_refl, ==_of_ne, Bool-cases, inl, inr,
}
use coding_projects.Phys.{Phys, update, tailq_remove}

pub update_same {ℓ} : {A : Type ℓ} (f : ℕ → A) (k : ℕ) (v : A) → update f k v k ≡ v
unfolding update
update_same f k v = rw (==_refl k) refl

pub update_ne {ℓ} : {A : Type ℓ} (f : ℕ → A) (k x : ℕ) (v : A) → x ≢ k → update f k v x ≡ f x
unfolding update
update_ne f k x v ne = rw (==_of_ne x k ne) refl

-- How often a page stands in a list.
unfoldable pub count : ℕ → List ℕ → ℕ
count m [] = 0
count m (x ∷ xs) = (if x == m then 1 else 0) + count m xs

pub count-append : (m : ℕ) (xs ys : List ℕ) → count m (xs ++ ys) ≡ count m xs + count m ys
unfolding count
count-append m [] ys = omega arith
count-append m (x ∷ xs) ys = omega (arith, count-append m xs ys)

pub count-remove_self : (m : ℕ) (xs : List ℕ) → count m (tailq_remove m xs) ≡ count m xs - 1
unfolding count tailq_remove
count-remove_self m [] = refl
count-remove_self m (x ∷ xs) = ground (arith, count-remove_self m xs)

pub count-remove_ne : (m k : ℕ) (xs : List ℕ) → k ≢ m → count k (tailq_remove m xs) ≡ count k xs
unfolding count tailq_remove
count-remove_ne m k [] ne = refl
count-remove_ne m k (x ∷ xs) ne = ground (arith, count-remove_ne m k xs ne)

count-le-length : (m : ℕ) (xs : List ℕ) → count m xs ≤ length xs
unfolding count
count-le-length m [] = omega arith
count-le-length m (x ∷ xs) = ground (arith, count-le-length m xs)

pub length-remove :
    (m : ℕ) (xs : List ℕ) → 0 < count m xs → length (tailq_remove m xs) ≡ length xs - 1
unfolding count tailq_remove
length-remove m [] h = refl
length-remove m (x ∷ xs) h = elim (Bool-cases (x == m)) [
  | inl e ↦ rw e (omega arith)
  | inr ne ↦
      let more : 0 < count m xs = rw (ne, zero-add) at h in
      rw ne (omega (arith, length-remove m xs more, count-le-length m xs))
]

-- The number of times that a page should stand in the list of a pool and an order.
unfoldable pub listed_times : Phys → ℕ → ℕ → ℕ → ℕ
listed_times s fl o m = if s.order m == o then (if s.pool m == fl then 1 else 0) else 0

-- A block of `2 ^ o` pages from `m` on.
abbrev pub InBlock : ℕ → ℕ → ℕ → Type 0
InBlock m o p = (m ≤ p) × (p < m + 2 ^ o)

module _ (nfreeorder nfreepool : ℕ) where
  -- A page that lies in a block on the lists.
  pub record Free (s : Phys) (p : ℕ) : Type 0 where
    pub head : ℕ
    pub below : s.order head < nfreeorder
    pub inside : InBlock head (s.order head) p

  pub record IsValid (s : Phys) : Type 0 where
    pub lengths : (fl o : ℕ) → s.lcnt fl o ≡ length (s.pl fl o)
    pub listed : (fl o m : ℕ) → o < nfreeorder → count m (s.pl fl o) ≡ listed_times s fl o m
    pub bounded : (m : ℕ) → s.order m ≤ nfreeorder
    pub inner :
        (m p : ℕ) → s.order m < nfreeorder → m < p → p < m + 2 ^ s.order m → s.order p ≡ nfreeorder
    pub aligned : (m : ℕ) → s.order m < nfreeorder → m % 2 ^ s.order m ≡ 0
    pub uniform : (m x : ℕ) → s.order m < nfreeorder → InBlock m (s.order m) x → s.pool x ≡ s.pool m
    pub pools : (m : ℕ) → s.order m < nfreeorder → s.pool m < nfreepool

  -- None of the pages of a block is free.
  unfoldable pub IsUsed : Phys → ℕ → ℕ → Type 0
  IsUsed s m o = (p : ℕ) → InBlock m o p → ¬ Free s p
