-- ===== src/Shell/Exec/Pipes.antt =====
-- `executePipes` of SimpleShell/myshell.c: the descriptors of its children.
use coding_projects.Prelude.{
  ℕ, zero, suc, ◌+◌, ◌-◌, ◌*◌, ◌≤◌, ◌<◌, Bool, true, false, Option, none, some, List, [], ◌∷◌,
  length, map, length, map, ◌≡◌, ◌≢◌, refl, sym, ap, ◌∙◌, arith, inl, inr, subst, if◌then◌else◌,
  ◌==◌, ==_refl, ==_of_ne, Bool-cases,
}
use coding_projects.Shell.{Word, Job, pipe_count, argv_from}
use coding_projects.Shell.Exec.{
  Source, pipe_read, pipe_write, Table, get, close, dup, nth, close_pipes, open_pipes, Child, runs,
  returns, start, with_input, with_output, first_child, inner_child, last_child, other_children,
  execute_pipes,
}
use coding_projects.Shell.Exec.Table.{copied-Puts}
use coding_projects.Shell.Exec.Single.{
  IsReady, input_of, output_of, can_open, with_input-InputSet, with_output-OutputSet, Runs,
  below_two, still_ready, input-IsReady, output_same,
}
use coding_projects.Shell.Exec.Opened.{
  Opened, open_pipes-Opened, among, close_among, close_not_among, open_not_among,
}

-- What child number `k` reads from and writes to.
abbrev pub input_at : Table → Job → ℕ → Option Source
input_at t job zero = input_of t job.input
input_at t job (suc k) = some (pipe_read k)

abbrev pub output_at : Table → Job → ℕ → Option Source
output_at t job k =
    if k == pipe_count job then output_of t job.output job.append else some (pipe_write k)

pub command_at : List (List Word) → ℕ → List Word
command_at [] k = []
command_at (c ∷ cs) zero = c
command_at (c ∷ cs) (suc k) = command_at cs k

-- Entry `k` of `pipeCommands` is where command number `k` stands.
argv_at :
    (temp : List (Option Word)) (places : List ℕ) (commands : List (List Word)) (k : ℕ)
    → map (argv_from temp) places ≡ map some commands
    → k < length places
    → argv_from temp (nth places k) ≡ some (command_at commands k)
unfolding nth command_at
argv_at temp [] commands k e less = absurd (omega arith)
argv_at temp (p ∷ ps) [] k e less = cc
argv_at temp (p ∷ ps) (c ∷ cs) zero e less = cc
argv_at temp (p ∷ ps) (c ∷ cs) (suc k) e less = argv_at temp ps cs k (cc) (omega arith)

start_runs :
    (t : Table) (r : Option (List Word)) (ws : List Word) → r ≡ some ws → start t r ≡ runs t ws
unfolding start
start_runs t r ws e = rw e refl

pub child_at : List Child → ℕ → Child
child_at [] k = returns
child_at (c ∷ cs) zero = c
child_at (c ∷ cs) (suc k) = child_at cs k

module _ (opens : Word → Bool) (t : Table) (job : Job) (ready : IsReady t)
    (has_input : can_open opens job.input ≡ true) (has_output : can_open opens job.output ≡ true)
    (some_pipe : 1 ≤ pipe_count job) (commands : List (List Word))
    (commands_are : map (argv_from job.temp) job.pipe_commands ≡ map some commands) where
  abbrev words_at : ℕ → List Word
  words_at k = command_at commands k

  starts_command :
      (x : Table) (k : ℕ)
      → k ≤ pipe_count job
      → start x (argv_from job.temp (nth job.pipe_commands k)) ≡ runs x (words_at k)
  starts_command x k le =
      start_runs x (argv_from job.temp (nth job.pipe_commands k)) (words_at k)
        (argv_at job.temp job.pipe_commands commands k commands_are (omega arith))

  abbrev o : List ℕ × Table
  o = open_pipes (pipe_count job) 0 t

  opened : Opened (pipe_count job) 0 t o
  opened = open_pipes-Opened (pipe_count job) 0 t

  not_pipe : (k : ℕ) → k < 2 → among k o.0 ≡ false
  not_pipe k less = open_not_among (pipe_count job) 0 t o opened k (ready k less)

  same_low : (k : ℕ) → k < 2 → get o.1 k ≡ get t k
  same_low k less = opened.others k (not_pipe k less)

  o-IsReady : IsReady o.1
  o-IsReady k less e = ready k less (sym (same_low k less) ∙ e)

  -- A descriptor of a pipe is not standard input or output.
  end_high : (fd k : ℕ) → k < 2 → get t fd ≡ none → fd ≢ k
  end_high fd k less e same = ready k less (ap (get t) (sym same) ∙ e)

  -- What a child has after `closePipes`.
  closed-Runs :
      (x : Table) (input output : Option Source) (words : List Word)
      → get x 0 ≡ input
      → get x 1 ≡ output
      → ((k : ℕ) → k ≢ 0 → k ≢ 1 → get x k ≡ get o.1 k)
      → Runs t (runs (close_pipes o.0 x) words) input output words
  closed-Runs x input output words in_x out_x same = record {
    table = close_pipes o.0 x;
    is = refl;
    input_is = close_not_among o.0 x 0 (not_pipe 0 (omega arith)) ∙ in_x;
    output_is = close_not_among o.0 x 1 (not_pipe 1 (omega arith)) ∙ out_x;
    others = λ k ne0 ne1. elim (Bool-cases (among k o.0)) [
      | inl e ↦ close_among o.0 x k e ∙ sym (opened.new k e)
      | inr e ↦ close_not_among o.0 x k e ∙ same k ne0 ne1 ∙ opened.others k e
    ];
  }

  first_is :
      (t1 : Table)
      → with_input opens job.input o.1 ≡ some t1
      → first_child opens job o.0 o.1
        ≡ runs (close_pipes o.0 (dup (nth o.0 1) (close 1 t1))) (words_at 0)
  unfolding first_child
  first_is t1 e =
      rw (e, first_child)
        (starts_command (close_pipes o.0 (dup (nth o.0 1) (close 1 t1))) 0 (omega arith))

  first-Runs :
      Runs t
        (first_child opens job o.0 o.1)
        (input_of t job.input)
        (some (pipe_write 0))
        (words_at 0)
  first-Runs =
      let i = with_input-InputSet opens job.input o.1 o-IsReady has_input in
      let e = opened.ends 0 (omega arith) in
      let ready1 = input-IsReady o.1 job.input (with_input opens job.input o.1) i o-IsReady in
      let fd = nth o.0 1 in
      let p =
        copied-Puts 1 fd i.table (pipe_write 0)
          (i.others fd (end_high fd 0 (omega arith) e.new_write) ∙ e.writes)
          (end_high fd 1 (omega arith) e.new_write) (below_two i.table ready1 1 (omega arith)) in
      let x = dup fd (close 1 i.table) in
      subst (λ (c : Child). Runs t c (input_of t job.input) (some (pipe_write 0)) (words_at 0))
        (sym (first_is i.table i.found))
        (closed-Runs x (input_of t job.input) (some (pipe_write 0)) (words_at 0)
          (p.1 0 (λ e. omega arith) ∙ i.input ∙ input_same job.input) p.0
          (λ k ne0 ne1. p.1 k ne1 ∙ i.others k ne0))
    where
      input_same : (file : Option Word) → input_of o.1 file ≡ input_of t file
      input_same none = same_low 0 (omega arith)
      input_same (some file) = refl

  inner-Runs :
      (j : ℕ)
      → j + 1 < pipe_count job
      → Runs t
          (inner_child opens job o.0 o.1 j)
          (some (pipe_read j))
          (some (pipe_write (j + 1)))
          (words_at (j + 1))
  unfolding inner_child
  inner-Runs j less =
      let e = opened.ends j (omega arith) in
      let f = opened.ends (j + 1) less in
      let here : 0 + j ≡ j = omega arith in
      let next : 0 + (j + 1) ≡ j + 1 = omega arith in
      let place : 2 * (j + 1) + 1 ≡ 2 * j + 3 = omega arith in
      let fd = nth o.0 (2 * j) in
      let gd = nth o.0 (2 * j + 3) in
      let g_new : get t gd ≡ none = ap (λ (k : ℕ). get t (nth o.0 k)) (sym place) ∙ f.new_write in
      let p =
        copied-Puts 0 fd o.1 (pipe_read j) (e.reads ∙ ap (λ (k : ℕ). some (pipe_read k)) here)
          (end_high fd 0 (omega arith) e.new_read) (below_two o.1 o-IsReady 0 (omega arith)) in
      let from = dup fd (close 0 o.1) in
      let from_ready =
        still_ready o.1 from 0 o-IsReady (λ q. some_none (pipe_read j) (sym p.0 ∙ q)) p.1 in
      let q =
        copied-Puts 1 gd from (pipe_write (j + 1))
          (p.1 gd (end_high gd 0 (omega arith) g_new)
            ∙ ap (λ (k : ℕ). get o.1 (nth o.0 k)) (sym place)
            ∙ f.writes
            ∙ ap (λ (k : ℕ). some (pipe_write k)) next)
          (end_high gd 1 (omega arith) g_new) (below_two from from_ready 1 (omega arith)) in
      subst
        (λ (c : Child).
          Runs t c (some (pipe_read j)) (some (pipe_write (j + 1))) (words_at (j + 1)))
        (sym (starts_command (close_pipes o.0 (dup gd (close 1 from))) (j + 1) (omega arith)))
        (closed-Runs (dup gd (close 1 from)) (some (pipe_read j)) (some (pipe_write (j + 1)))
          (words_at (j + 1)) (q.1 0 (λ e. omega arith) ∙ p.0) q.0
          (λ k ne0 ne1. q.1 k ne1 ∙ p.1 k ne0))
    where
      some_none : (s : Source) → some s ≢ none
      some_none s e = cc

  last_is :
      (t1 : Table)
      → with_output opens job.output job.append o.1 ≡ some t1
      → last_child opens job o.0 o.1
        ≡ runs
            (close_pipes o.0 (dup (nth o.0 (2 * pipe_count job - 2)) (close 0 t1)))
            (words_at (pipe_count job))
  unfolding last_child
  last_is t1 e =
      rw (e, last_child)
        (starts_command (close_pipes o.0 (dup (nth o.0 (2 * pipe_count job - 2)) (close 0 t1)))
          (pipe_count job) (omega arith))

  last-Runs :
      (c : ℕ)
      → pipe_count job ≡ suc c
      → Runs t
          (last_child opens job o.0 o.1)
          (some (pipe_read c))
          (output_of t job.output job.append)
          (words_at (pipe_count job))
  last-Runs c count_is =
      let i = with_output-OutputSet opens job.output job.append o.1 o-IsReady has_output in
      let e = opened.ends c (omega arith) in
      let place : 2 * c ≡ 2 * pipe_count job - 2 = omega (arith, count_is) in
      let here : 0 + c ≡ c = omega arith in
      let fd = nth o.0 (2 * pipe_count job - 2) in
      let new : get t fd ≡ none = ap (λ (k : ℕ). get t (nth o.0 k)) (sym place) ∙ e.new_read in
      let p =
        copied-Puts 0 fd i.table (pipe_read c)
          (i.others fd (end_high fd 1 (omega arith) new)
            ∙ ap (λ (k : ℕ). get o.1 (nth o.0 k)) (sym place)
            ∙ e.reads
            ∙ ap (λ (k : ℕ). some (pipe_read k)) here)
          (end_high fd 0 (omega arith) new) (λ k less. absurd (omega arith)) in
      subst
        (λ (c' : Child).
          Runs t c' (some (pipe_read c)) (output_of t job.output job.append)
            (words_at (pipe_count job)))
        (sym (last_is i.table i.found))
        (closed-Runs (dup fd (close 0 i.table)) (some (pipe_read c))
          (output_of t job.output job.append) (words_at (pipe_count job)) p.0
          (p.1 1 (λ e. omega arith)
            ∙ i.output
            ∙ output_same t o.1 job.output job.append (same_low 1 (omega arith)))
          (λ k ne0 ne1. p.1 k ne0 ∙ i.others k ne1))

  -- Child `k` of the pipeline runs its command between its pipes.
  abbrev pub Wired : ℕ → Child → Type 0
  Wired k child = Runs t child (input_at t job k) (output_at t job k) (words_at k)

  first-Wired : Wired 0 (first_child opens job o.0 o.1)
  first-Wired =
      let ne : 0 ≢ pipe_count job = λ e. omega arith in
      rw (==_of_ne 0 (pipe_count job) ne) first-Runs

  inner-Wired : (j : ℕ) → j + 1 < pipe_count job → Wired (suc j) (inner_child opens job o.0 o.1 j)
  inner-Wired j less =
      let ne : suc j ≢ pipe_count job = λ e. omega arith in
      let next : j + 1 ≡ suc j = omega arith in
      rw (==_of_ne (suc j) (pipe_count job) ne) (
        subst
          (λ (k : ℕ).
            Runs t (inner_child opens job o.0 o.1 j) (some (pipe_read j)) (some (pipe_write k))
              (words_at k))
          next (inner-Runs j less))

  last-Wired : (j : ℕ) → pipe_count job ≡ suc j → Wired (suc j) (last_child opens job o.0 o.1)
  last-Wired j e =
      let same : (suc j == pipe_count job) ≡ true =
        ap (λ (k : ℕ). suc j == k) e ∙ ==_refl (suc j) in
      rw same (
        subst
          (λ (k : ℕ).
            Runs t (last_child opens job o.0 o.1) (some (pipe_read j))
              (output_of t job.output job.append) (words_at k))
          e (last-Runs j e))

  others-Wired :
      (left j k : ℕ)
      → j + left + 1 ≡ pipe_count job
      → k ≤ left
      → Wired (suc (j + k)) (child_at (other_children opens job o.0 o.1 left j) k)
  unfolding other_children child_at
  others-Wired zero j zero e le =
      let here : suc j ≡ suc (j + 0) = omega arith in
      subst (λ (i : ℕ). Wired i (last_child opens job o.0 o.1)) here (last-Wired j (omega arith))
  others-Wired zero j (suc k) e le = absurd (omega arith)
  others-Wired (suc left) j zero e le =
      let here : suc j ≡ suc (j + 0) = omega arith in
      subst (λ (i : ℕ). Wired i (inner_child opens job o.0 o.1 j)) here
        (inner-Wired j (omega arith))
  others-Wired (suc left) j (suc k) e le =
      let here : suc (j + 1 + k) ≡ suc (j + suc k) = omega arith in
      subst (λ (i : ℕ). Wired i (child_at (other_children opens job o.0 o.1 left (j + 1)) k)) here
        (others-Wired left (j + 1) k (omega arith) (omega arith))

  -- With standard input and output open and files that can be opened, for a job with pipes whose entries
  -- of `pipeCommands` are where these commands stand in `temp`: child number `k` of `executePipes` runs
  -- command number `k`, reads from the pipe before it (the first from
  -- the input file, or where the shell reads), writes to the pipe behind it (the last to the output
  -- file, or where the shell writes), and has every other descriptor as in the shell, so none of a pipe;
  -- and the shell has its descriptors as before.
  pub execute_pipes_lem :
      ((k : ℕ) → k ≤ pipe_count job → Wired k (child_at (execute_pipes opens t job).0 k))
      × ((k : ℕ) → get (execute_pipes opens t job).1 k ≡ get t k)
  unfolding execute_pipes child_at
  execute_pipes_lem = (
    wired,
    λ k. elim (Bool-cases (among k o.0)) [
      | inl e ↦ close_among o.0 o.1 k e ∙ sym (opened.new k e)
      | inr e ↦ close_not_among o.0 o.1 k e ∙ opened.others k e
    ],
  )
    where
      wired :
          (k : ℕ)
          → k ≤ pipe_count job
          → Wired k (
              child_at
                (first_child opens job o.0 o.1
                  ∷ other_children opens job o.0 o.1 (pipe_count job - 1) 0)
                k)
      wired zero le = first-Wired
      wired (suc k) le =
          let here : suc (0 + k) ≡ suc k = omega arith in
          subst
            (λ (i : ℕ).
              Wired i (child_at (other_children opens job o.0 o.1 (pipe_count job - 1) 0) k))
            here (others-Wired (pipe_count job - 1) 0 k (omega arith) (omega arith))
