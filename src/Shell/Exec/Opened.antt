-- ===== src/Shell/Exec/Opened.antt =====
-- The pipes that `executePipes` opens and that `closePipes` closes.
use native.Mathlib.Decide.{ℕ_discrete}
use coding_projects.Prelude.{
  ℕ, zero, suc, ◌+◌, ◌*◌, ◌<◌, Bool, true, false, none, some, List, [], ◌∷◌, ◌≡◌, ◌≢◌, refl, sym,
  ap, ◌∙◌, arith, inl, inr, subst, if◌then◌else◌, ◌==◌, ==_refl, ==_of_ne, Bool-cases,
}
use coding_projects.Shell.Exec.{
  Source, pipe_read, pipe_write, Table, get, close, lowest, nth, close_pipes, open_pipes,
}
use coding_projects.Shell.Exec.Table.{
  close_here, close_other, lowest_here, lowest_free, lowest_other,
}

pub among : ℕ → List ℕ → Bool
among k [] = false
among k (fd ∷ fds) = if k == fd then true else among k fds

among_tail : (k fd : ℕ) (fds : List ℕ) → k ≢ fd → among k (fd ∷ fds) ≡ among k fds
unfolding among
among_tail k fd fds ne = rw (==_of_ne k fd ne) refl

among_head : (fd : ℕ) (fds : List ℕ) → among fd (fd ∷ fds) ≡ true
unfolding among
among_head fd fds = rw (==_refl fd) refl

stays_closed :
    (fds : List ℕ) (t : Table) (k : ℕ) → get t k ≡ none → get (close_pipes fds t) k ≡ none
unfolding close_pipes
stays_closed [] t k e = e
stays_closed (fd ∷ fds) t k e = stays_closed fds (close fd t) k (elim (ℕ_discrete k fd) [
  | yes same ↦ ap (get (close fd t)) same ∙ close_here fd t
  | no ne ↦ close_other fd k t ne ∙ e
])

pub close_among :
    (fds : List ℕ) (t : Table) (k : ℕ) → among k fds ≡ true → get (close_pipes fds t) k ≡ none
unfolding close_pipes among
close_among [] t k e = cc
close_among (fd ∷ fds) t k e = elim (ℕ_discrete k fd) [
  | yes same ↦ stays_closed fds (close fd t) k (ap (get (close fd t)) same ∙ close_here fd t)
  | no ne ↦ close_among fds (close fd t) k (sym (among_tail k fd fds ne) ∙ e)
]

pub close_not_among :
    (fds : List ℕ) (t : Table) (k : ℕ) → among k fds ≡ false → get (close_pipes fds t) k ≡ get t k
unfolding close_pipes among
close_not_among [] t k e = refl
close_not_among (fd ∷ fds) t k e = elim (ℕ_discrete k fd) [
  | yes same ↦
      absurd
        (true_not_false (sym (ap (λ (j : ℕ). among j (fd ∷ fds)) same ∙ among_head fd fds) ∙ e))
  | no ne ↦
      close_not_among fds (close fd t) k (sym (among_tail k fd fds ne) ∙ e) ∙ close_other fd k t ne
]
  where
    true_not_false : true ≢ false
    true_not_false e = cc

-- The two ends of a pipe.
pub record Ends (t t' : Table) (i r w : ℕ) : Type 0 where
  pub reads : get t' r ≡ some (pipe_read i)
  pub writes : get t' w ≡ some (pipe_write i)
  pub new_read : get t r ≡ none
  pub new_write : get t w ≡ none

pub record Opened (count i : ℕ) (t : Table) (o : List ℕ × Table) : Type 0 where
  pub ends : (j : ℕ) → j < count → Ends t o.1 (i + j) (nth o.0 (2 * j)) (nth o.0 (2 * j + 1))
  pub new : (k : ℕ) → among k o.0 ≡ true → get t k ≡ none
  pub others : (k : ℕ) → among k o.0 ≡ false → get o.1 k ≡ get t k

-- A descriptor that was open is none of the new ones.
pub open_not_among :
    (count i : ℕ) (t : Table) (o : List ℕ × Table)
    → Opened count i t o
    → (k : ℕ) → get t k ≢ none
    → among k o.0 ≡ false
open_not_among count i t o a k open_k = elim (Bool-cases (among k o.0)) [
  | inl e ↦ absurd (open_k (a.new k e))
  | inr e ↦ e
]

module _ (count i : ℕ) (t : Table) where
  abbrev r : ℕ × Table
  r = lowest t (pipe_read i)

  abbrev w : ℕ × Table
  w = lowest r.1 (pipe_write i)

  r_open : get r.1 r.0 ≡ some (pipe_read i)
  r_open = lowest_here t (pipe_read i)

  w_free : get r.1 w.0 ≡ none
  w_free = lowest_free r.1 (pipe_write i)

  apart : r.0 ≢ w.0
  apart e = some_not_none (pipe_read i) (sym r_open ∙ ap (get r.1) e ∙ w_free)
    where
      some_not_none : (s : Source) → some s ≢ none
      some_not_none s e = cc

  r_open_later : get w.1 r.0 ≡ some (pipe_read i)
  r_open_later = lowest_other r.1 (pipe_write i) r.0 apart ∙ r_open

  w_open : get w.1 w.0 ≡ some (pipe_write i)
  w_open = lowest_here r.1 (pipe_write i)

  w_new : get t w.0 ≡ none
  w_new = sym (lowest_other t (pipe_read i) w.0 (λ e. apart (sym e))) ∙ w_free

  later_other : (k : ℕ) → k ≢ r.0 → k ≢ w.0 → get w.1 k ≡ get t k
  later_other k ner new = lowest_other r.1 (pipe_write i) k new ∙ lowest_other t (pipe_read i) k ner

  -- What is free behind the first pipe was free before it.
  later_free : (k : ℕ) → get w.1 k ≡ none → get t k ≡ none
  later_free k e = elim (ℕ_discrete k r.0) [
    | yes same ↦ ap (get t) same ∙ lowest_free t (pipe_read i)
    | no ner ↦ elim (ℕ_discrete k w.0) [
      | yes same ↦ ap (get t) same ∙ w_new
      | no new ↦ sym (later_other k ner new) ∙ e
    ]
  ]

  module _ (more : List ℕ × Table) (a : Opened count (i + 1) w.1 more) where
    kept : (k : ℕ) (s : Source) → get w.1 k ≡ some s → get more.1 k ≡ some s
    kept k s e =
        a.others k (open_not_among count (i + 1) w.1 more a k (λ q. some_none s (sym e ∙ q))) ∙ e
      where
        some_none : (s : Source) → some s ≢ none
        some_none s e = cc

    first-Ends : Ends t more.1 i r.0 w.0
    first-Ends = record {
      reads = kept r.0 (pipe_read i) r_open_later;
      writes = kept w.0 (pipe_write i) w_open;
      new_read = lowest_free t (pipe_read i);
      new_write = w_new;
    }

    later-Ends :
        (j : ℕ)
        → j < count
        → Ends t more.1 (i + 1 + j) (nth more.0 (2 * j)) (nth more.0 (2 * j + 1))
    later-Ends j less =
        let e = a.ends j less in
        record {
          reads = e.reads;
          writes = e.writes;
          new_read = later_free (nth more.0 (2 * j)) e.new_read;
          new_write = later_free (nth more.0 (2 * j + 1)) e.new_write;
        }

    all-Ends :
        (j : ℕ)
        → j < suc count
        → Ends t more.1
            (i + j)
            (nth (r.0 ∷ w.0 ∷ more.0) (2 * j))
            (nth (r.0 ∷ w.0 ∷ more.0) (2 * j + 1))
    unfolding nth
    all-Ends zero less =
        let e : i ≡ i + 0 = omega arith in subst (λ (k : ℕ). Ends t more.1 k r.0 w.0) e first-Ends
    all-Ends (suc j) less =
        let even : suc (suc (2 * j)) ≡ 2 * suc j = omega arith in
        let odd : suc (suc (2 * j + 1)) ≡ 2 * suc j + 1 = omega arith in
        let place : i + 1 + j ≡ i + suc j = omega arith in
        subst
          (λ (k : ℕ).
            Ends t more.1 k (nth (r.0 ∷ w.0 ∷ more.0) (2 * suc j))
              (nth (r.0 ∷ w.0 ∷ more.0) (2 * suc j + 1)))
          place
          (subst
            (λ (k : ℕ).
              Ends t more.1 (i + 1 + j) (nth (r.0 ∷ w.0 ∷ more.0) k)
                (nth (r.0 ∷ w.0 ∷ more.0) (2 * suc j + 1)))
            even
            (subst
              (λ (k : ℕ).
                Ends t more.1 (i + 1 + j) (nth more.0 (2 * j)) (nth (r.0 ∷ w.0 ∷ more.0) k))
              odd (later-Ends j (omega arith))))

    all-Opened : Opened (suc count) i t (r.0 ∷ w.0 ∷ more.0, more.1)
    all-Opened = record {
      ends = all-Ends;
      new = λ k e. elim (ℕ_discrete k r.0) [
        | yes same ↦ ap (get t) same ∙ lowest_free t (pipe_read i)
        | no ner ↦ elim (ℕ_discrete k w.0) [
          | yes same ↦ ap (get t) same ∙ w_new
          | no new ↦ later_free k (
              a.new k (sym (among_tail k r.0 (w.0 ∷ more.0) ner ∙ among_tail k w.0 more.0 new) ∙ e))
        ]
      ];
      others = λ k e. elim (ℕ_discrete k r.0) [
        | yes same ↦ absurd (
            not_both (
              sym
                (ap (λ (j : ℕ). among j (r.0 ∷ w.0 ∷ more.0)) same ∙ among_head r.0 (w.0 ∷ more.0))
              ∙ e))
        | no ner ↦ elim (ℕ_discrete k w.0) [
          | yes same ↦ absurd (
              not_both (
                sym (
                  among_tail k r.0 (w.0 ∷ more.0) ner
                  ∙ ap (λ (j : ℕ). among j (w.0 ∷ more.0)) same
                  ∙ among_head w.0 more.0)
                ∙ e))
          | no new ↦
              a.others k
                (sym (among_tail k r.0 (w.0 ∷ more.0) ner ∙ among_tail k w.0 more.0 new) ∙ e)
              ∙ later_other k ner new
        ]
      ];
    }
      where
        not_both : true ≢ false
        not_both e = cc

pub open_pipes-Opened : (count i : ℕ) (t : Table) → Opened count i t (open_pipes count i t)
unfolding open_pipes among
open_pipes-Opened zero i t = record {
  ends = λ j less. absurd (omega arith);
  new = λ k e. cc;
  others = λ k e. refl;
}
open_pipes-Opened (suc count) i t =
    let after = (lowest (lowest t (pipe_read i)).1 (pipe_write i)).1 in
    all-Opened count i t (open_pipes count (i + 1) after) (open_pipes-Opened count (i + 1) after)
