-- ===== src/Shell/Exec/Table.antt =====
-- What opening, closing and copying descriptors does to a table, entry by entry.
use native.Mathlib.Decide.{ℕ_discrete}
use coding_projects.Prelude.{
  ℕ, zero, suc, ◌≤◌, ◌<◌, none, some, [], ◌∷◌, ◌≡◌, ◌≢◌, refl, sym, ap, ◌∙◌, arith, subst,
}
use coding_projects.Shell.Exec.{Source, Table, get, close, lowest, dup, move_to}

pub close_here : (k : ℕ) (t : Table) → get (close k t) k ≡ none
unfolding get close
close_here k [] = refl
close_here zero (e ∷ t) = refl
close_here (suc k) (e ∷ t) = close_here k t

pub close_other : (k j : ℕ) (t : Table) → j ≢ k → get (close k t) j ≡ get t j
unfolding get close
close_other k j [] ne = refl
close_other zero zero (e ∷ t) ne = absurd (ne refl)
close_other zero (suc j) (e ∷ t) ne = refl
close_other (suc k) zero (e ∷ t) ne = refl
close_other (suc k) (suc j) (e ∷ t) ne = close_other k j t (λ e. ne (ap suc e))

pub lowest_here : (t : Table) (s : Source) → get (lowest t s).1 (lowest t s).0 ≡ some s
unfolding get lowest
lowest_here [] s = refl
lowest_here (none ∷ t) s = refl
lowest_here (some x ∷ t) s = lowest_here t s

pub lowest_free : (t : Table) (s : Source) → get t (lowest t s).0 ≡ none
unfolding get lowest
lowest_free [] s = refl
lowest_free (none ∷ t) s = refl
lowest_free (some x ∷ t) s = lowest_free t s

pub lowest_other :
    (t : Table) (s : Source) (j : ℕ) → j ≢ (lowest t s).0 → get (lowest t s).1 j ≡ get t j
unfolding get lowest
lowest_other [] s zero ne = absurd (ne refl)
lowest_other [] s (suc j) ne = refl
lowest_other (none ∷ t) s zero ne = absurd (ne refl)
lowest_other (none ∷ t) s (suc j) ne = refl
lowest_other (some x ∷ t) s zero ne = refl
lowest_other (some x ∷ t) s (suc j) ne = lowest_other t s j (λ e. ne (ap suc e))

-- Nothing below the lowest free descriptor is free.
pub lowest_below : (t : Table) (s : Source) (k : ℕ) → get t k ≡ none → (lowest t s).0 ≤ k
unfolding get lowest
lowest_below [] s k e = omega arith
lowest_below (none ∷ t) s k e = omega arith
lowest_below (some x ∷ t) s zero e = cc
lowest_below (some x ∷ t) s (suc k) e = omega (arith, lowest_below t s k e)

-- The entry of one descriptor is new, and the others are as they were.
abbrev pub Puts : ℕ → Source → Table → Table → Type 0
Puts n s t t' = (get t' n ≡ some s) × ((k : ℕ) → k ≢ n → get t' k ≡ get t k)

-- All descriptors below `n` are open.
abbrev pub OpenBelow : ℕ → Table → Type 0
OpenBelow n t = (k : ℕ) → k < n → get t k ≢ none

lowest_closed : (n : ℕ) (t : Table) (s : Source) → OpenBelow n t → (lowest (close n t) s).0 ≡ n
lowest_closed n t s all =
    let k = (lowest (close n t) s).0 in
    let at_most = lowest_below (close n t) s n (close_here n t) in
    elim (ℕ_discrete k n) [
      | yes e ↦ e
      | no ne ↦
          absurd (all k (omega arith) (sym (close_other n k t ne) ∙ lowest_free (close n t) s))
    ]

dup_is : (fd : ℕ) (t : Table) (s : Source) → get t fd ≡ some s → dup fd t ≡ (lowest t s).1
unfolding dup
dup_is fd t s e = rw (e, dup) refl

-- `close(n); dup(fd)` makes `n` a copy of `fd`.
pub copied-Puts :
    (n fd : ℕ) (t : Table) (s : Source)
    → get t fd ≡ some s
    → fd ≢ n
    → OpenBelow n t
    → Puts n s t (dup fd (close n t))
copied-Puts n fd t s e ne all =
    let closed = close n t in
    let at = lowest_closed n t s all in
    let is = dup_is fd closed s (close_other n fd t ne ∙ e) in
    subst (Puts n s t) (sym is) (
      ap (get (lowest closed s).1) (sym at) ∙ lowest_here closed s,
      λ k other. lowest_other closed s k (λ q. other (q ∙ at)) ∙ close_other n k t other,
    )

-- A file that is opened and moved to `n`.
pub moved-Puts :
    (n : ℕ) (s : Source) (t : Table) → get t n ≢ none → OpenBelow n t → Puts n s t (move_to n s t)
unfolding move_to
moved-Puts n s t open_n all =
    let fd = (lowest t s).0 in
    let t1 = (lowest t s).1 in
    let ne : fd ≢ n = λ e. open_n (ap (get t) (sym e) ∙ lowest_free t s) in
    let all1 : OpenBelow n t1 = λ k less q.
      let other : k ≢ fd = λ e. all k less (ap (get t) e ∙ lowest_free t s) in
      all k less (sym (lowest_other t s k other) ∙ q) in
    let p = copied-Puts n fd t1 s (lowest_here t s) ne all1 in
    let t2 = dup fd (close n t1) in
    (
      close_other fd n t2 (λ e. ne (sym e)) ∙ p.0,
      λ k other. elim (ℕ_discrete k fd) [
        | yes e ↦ ap (get (close fd t2)) e ∙ close_here fd t2 ∙ sym (ap (get t) e ∙ lowest_free t s)
        | no far ↦ close_other fd k t2 far ∙ p.1 k other ∙ lowest_other t s k far
      ],
    )
