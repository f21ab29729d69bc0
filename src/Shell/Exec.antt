-- ===== src/Shell/Exec.antt =====
-- `execute` and `executePipes` of SimpleShell/myshell.c: the descriptors and the words that each child
-- runs with. A table of descriptors has an entry for each number; a new one is the lowest that is free.
pub mod Table
pub mod Single
pub mod Opened
pub mod Pipes
use coding_projects.Prelude.{
  ℕ, zero, suc, ◌+◌, ◌-◌, ◌*◌, Bool, true, false, Option, none, some, List, [], ◌∷◌, if◌then◌else◌,
  length,
}
use coding_projects.Shell.{Word, Job, pipe_count, words_of, argv_from}

-- What a descriptor reads from or writes to.
pub data Source : Type 0 where
  inherited : ℕ → Source
  read_file : Word → Source
  overwrite_file : Word → Source
  append_file : Word → Source
  pipe_read : ℕ → Source
  pipe_write : ℕ → Source

abbrev pub Table : Type 0
Table = List (Option Source)

unfoldable pub get : Table → ℕ → Option Source
get [] k = none
get (e ∷ t) zero = e
get (e ∷ t) (suc k) = get t k

pub close : ℕ → Table → Table
close k [] = []
close zero (e ∷ t) = none ∷ t
close (suc k) (e ∷ t) = e ∷ close k t

-- The lowest descriptor that is free, and the table with it.
pub lowest : Table → Source → ℕ × Table
lowest [] s = (0, some s ∷ [])
lowest (none ∷ t) s = (0, some s ∷ t)
lowest (some x ∷ t) s = let r = lowest t s in (suc r.0, some x ∷ r.1)

pub dup : ℕ → Table → Table
dup fd t = elim (get t fd) [ none ↦ t | some s ↦ (lowest t s).1 ]

-- `close(n); dup(fd); close(fd)`, for a file that has just been opened.
pub move_to : ℕ → Source → Table → Table
move_to n s t = let opened = lowest t s in close opened.0 (dup opened.0 (close n opened.1))

-- A child runs a command, returns from the function, or calls `execvp` with an entry of `temp` that
-- has never been set.
pub data Child : Type 0 where
  runs : Table → List Word → Child
  returns : Child
  undefined : Child

-- `execvp(temp[k], &temp[k])`.
pub start : Table → Option (List Word) → Child
start t none = undefined
start t (some ws) = runs t ws

abbrev pub writes : Bool → Word → Source
writes append file = if append then append_file file else overwrite_file file

pub nth : List ℕ → ℕ → ℕ
nth [] k = 0
nth (x ∷ xs) zero = x
nth (x ∷ xs) (suc k) = nth xs k

-- `closePipes`.
pub close_pipes : List ℕ → Table → Table
close_pipes [] t = t
close_pipes (fd ∷ fds) t = close_pipes fds (close fd t)

-- The calls of `pipe`, from pipe number `i` on.
pub open_pipes : ℕ → ℕ → Table → List ℕ × Table
open_pipes zero i t = ([], t)
open_pipes (suc count) i t =
    let r = lowest t (pipe_read i) in
    let w = lowest r.1 (pipe_write i) in
    let more = open_pipes count (i + 1) w.1 in (r.0 ∷ w.0 ∷ more.0, more.1)

-- The parameter says which files `open` opens.
module _ (opens : Word → Bool) where
  pub with_input : Option Word → Table → Option Table
  with_input none t = some t
  with_input (some file) t = if opens file then some (move_to 0 (read_file file) t) else none

  pub with_output : Option Word → Bool → Table → Option Table
  with_output none append t = some t
  with_output (some file) append t =
      if opens file then some (move_to 1 (writes append file) t) else none

  -- The child of `execute`.
  pub execute : Table → Job → Child
  execute t job = elim (with_input job.input t) [
    | none ↦ returns
    | some t1 ↦ elim (with_output job.output job.append t1) [
      | none ↦ returns
      | some t2 ↦ runs t2 (words_of job.temp)
    ]
  ]

  module _ (job : Job) (pipes : List ℕ) (t : Table) where
    pub first_child : Child
    first_child = elim (with_input job.input t) [
      | none ↦ returns
      | some t1 ↦
          start (close_pipes pipes (dup (nth pipes 1) (close 1 t1)))
            (argv_from job.temp (nth job.pipe_commands 0))
    ]

    -- The child in the middle that the loop forks with `i` twice this number.
    pub inner_child : ℕ → Child
    inner_child j =
        let from = dup (nth pipes (2 * j)) (close 0 t) in
        let to = dup (nth pipes (2 * j + 3)) (close 1 from) in
        start (close_pipes pipes to) (argv_from job.temp (nth job.pipe_commands (j + 1)))

    pub last_child : Child
    last_child = elim (with_output job.output job.append t) [
      | none ↦ returns
      | some t1 ↦
          start (close_pipes pipes (dup (nth pipes (2 * pipe_count job - 2)) (close 0 t1)))
            (argv_from job.temp (nth job.pipe_commands (pipe_count job)))
    ]

    -- The children behind the first, from number `j` of the loop on, with the rounds left.
    pub other_children : ℕ → ℕ → List Child
    other_children zero j = last_child ∷ []
    other_children (suc left) j = inner_child j ∷ other_children left (j + 1)

  -- The children, and the shell's own descriptors afterwards.
  pub execute_pipes : Table → Job → List Child × Table
  execute_pipes t job =
      let opened = open_pipes (pipe_count job) 0 t in
      (
        first_child job opened.0 opened.1
            ∷ other_children job opened.0 opened.1 (pipe_count job - 1) 0,
        close_pipes opened.0 opened.1,
      )
