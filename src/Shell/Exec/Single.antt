-- ===== src/Shell/Exec/Single.antt =====
-- `execute` of SimpleShell/myshell.c: the descriptors of its child.
use native.Mathlib.Decide.{ℕ_discrete}
use coding_projects.Prelude.{
  ℕ, ◌<◌, Bool, true, false, Option, none, some, List, ◌≡◌, ◌≢◌, refl, sym, ap, ◌∙◌, arith, inl,
  inr, ◌⊎◌, Bool-cases,
}
use coding_projects.Shell.{Word, Job, words_of}
use coding_projects.Shell.Exec.{
  Source, read_file, writes, Table, get, move_to, Child, runs, returns, with_input, with_output,
  execute,
}
use coding_projects.Shell.Exec.Table.{OpenBelow, moved-Puts}

-- Standard input and output are open.
abbrev pub IsReady : Table → Type 0
IsReady t = OpenBelow 2 t

-- What a command reads from and writes to by its redirections.
abbrev pub input_of : Table → Option Word → Option Source
input_of t none = get t 0
input_of t (some file) = some (read_file file)

abbrev pub output_of : Table → Option Word → Bool → Option Source
output_of t none append = get t 1
output_of t (some file) append = some (writes append file)

-- All files that are named can be opened.
abbrev pub can_open : (Word → Bool) → Option Word → Bool
can_open opens none = true
can_open opens (some file) = opens file

abbrev pub below_two : (t : Table) → IsReady t → (n : ℕ) → n < 2 → OpenBelow n t
below_two t ready n less k k_less = ready k (omega arith)

pub record InputSet (t : Table) (file : Option Word) (r : Option Table) : Type 0 where
  pub table : Table
  pub found : r ≡ some table
  pub input : get table 0 ≡ input_of t file
  pub others : (k : ℕ) → k ≢ 0 → get table k ≡ get t k

pub with_input-InputSet :
    (opens : Word → Bool) (file : Option Word) (t : Table)
    → IsReady t
    → can_open opens file ≡ true
    → InputSet t file (with_input opens file t)
unfolding with_input
with_input-InputSet opens none t ready e = record {
  table = t;
  found = refl;
  input = refl;
  others = λ k ne. refl;
}
with_input-InputSet opens (some file) t ready e =
    let p =
      moved-Puts 0 (read_file file) t (ready 0 (omega arith)) (below_two t ready 0 (omega arith)) in
    record { table = move_to 0 (read_file file) t; found = rw e refl; input = p.0; others = p.1 }

pub record OutputSet (t : Table) (file : Option Word) (append : Bool) (r : Option Table)
    : Type 0 where
  pub table : Table
  pub found : r ≡ some table
  pub output : get table 1 ≡ output_of t file append
  pub others : (k : ℕ) → k ≢ 1 → get table k ≡ get t k

pub with_output-OutputSet :
    (opens : Word → Bool) (file : Option Word) (append : Bool) (t : Table)
    → IsReady t
    → can_open opens file ≡ true
    → OutputSet t file append (with_output opens file append t)
unfolding with_output
with_output-OutputSet opens none append t ready e = record {
  table = t;
  found = refl;
  output = refl;
  others = λ k ne. refl;
}
with_output-OutputSet opens (some file) append t ready e =
    let p =
      moved-Puts 1 (writes append file) t (ready 1 (omega arith))
        (below_two t ready 1 (omega arith)) in
    record {
      table = move_to 1 (writes append file) t;
      found = rw e refl;
      output = p.0;
      others = p.1;
    }

-- The child runs the words with this input and output, and has no descriptor open that the shell has not.
pub record Runs (t : Table) (child : Child) (input output : Option Source) (words : List Word)
    : Type 0 where
  pub table : Table
  pub is : child ≡ runs table words
  pub input_is : get table 0 ≡ input
  pub output_is : get table 1 ≡ output
  pub others : (k : ℕ) → k ≢ 0 → k ≢ 1 → get table k ≡ get t k

-- The child runs, or one of its files cannot be opened and it returns to the code of the shell.
pub Executed : (Word → Bool) → Table → Job → Child → Type 0
Executed opens t job child =
    ((can_open opens job.input ≡ true)
      × (can_open opens job.output ≡ true)
      × Runs t child (input_of t job.input) (output_of t job.output job.append) (words_of job.temp))
    ⊎ (((can_open opens job.input ≡ false) ⊎ (can_open opens job.output ≡ false))
        × (child ≡ returns))

pub still_ready :
    (t t' : Table) (n : ℕ)
    → IsReady t
    → get t' n ≢ none
    → ((k : ℕ) → k ≢ n → get t' k ≡ get t k)
    → IsReady t'
still_ready t t' n ready here others k less e = elim (ℕ_discrete k n) [
  | yes same ↦ here (ap (get t') (sym same) ∙ e)
  | no ne ↦ ready k less (sym (others k ne) ∙ e)
]

input_open : (t : Table) (file : Option Word) → IsReady t → input_of t file ≢ none
input_open t none ready e = ready 0 (omega arith) e
input_open t (some file) ready e = cc

pub input-IsReady :
    (t : Table) (file : Option Word) (r : Option Table) (i : InputSet t file r)
    → IsReady t
    → IsReady i.table
input-IsReady t file r i ready =
    still_ready t i.table 0 ready (λ e. input_open t file ready (sym i.input ∙ e)) i.others

pub output_same :
    (t t' : Table) (file : Option Word) (append : Bool)
    → get t' 1 ≡ get t 1
    → output_of t' file append ≡ output_of t file append
output_same t t' none append e = e
output_same t t' (some file) append e = refl

input_fails :
    (opens : Word → Bool) (file : Option Word) (t : Table)
    → can_open opens file ≡ false
    → with_input opens file t ≡ none
unfolding with_input
input_fails opens none t e = cc
input_fails opens (some file) t e = rw e refl

output_fails :
    (opens : Word → Bool) (file : Option Word) (append : Bool) (t : Table)
    → can_open opens file ≡ false
    → with_output opens file append t ≡ none
unfolding with_output
output_fails opens none append t e = cc
output_fails opens (some file) append t e = rw e refl

execute_no_output :
    (opens : Word → Bool) (t t1 : Table) (job : Job)
    → with_input opens job.input t ≡ some t1
    → with_output opens job.output job.append t1 ≡ none
    → execute opens t job ≡ returns
unfolding execute
execute_no_output opens t t1 job e f = rw (e, execute) (rw f refl)

execute_runs :
    (opens : Word → Bool) (t t1 t2 : Table) (job : Job)
    → with_input opens job.input t ≡ some t1
    → with_output opens job.output job.append t1 ≡ some t2
    → execute opens t job ≡ runs t2 (words_of job.temp)
unfolding execute
execute_runs opens t t1 t2 job e f = rw (e, execute) (rw f refl)

-- With standard input and output open, the child of `execute` runs the words of the command, with
-- the input file as descriptor 0 and the output file, to overwrite or to append to, as descriptor 1,
-- or else what the shell has there, and every other descriptor as in the shell; if a file cannot be
-- opened, the child runs no command and returns from the function.
pub execute_lem :
    (opens : Word → Bool) (t : Table) (job : Job)
    → IsReady t
    → Executed opens t job (execute opens t job)
unfolding Executed execute
execute_lem opens t job ready = elim (Bool-cases (can_open opens job.input)) [
  | inr no_input ↦ inr (inl no_input, rw (input_fails opens job.input t no_input, execute) refl)
  | inl has_input ↦
      let i = with_input-InputSet opens job.input t ready has_input in
      elim (Bool-cases (can_open opens job.output)) [
        | inr no_output ↦ inr (
          inr no_output,
          execute_no_output opens t i.table job i.found
              (output_fails opens job.output job.append i.table no_output),
        )
        | inl has_output ↦
            let o =
              with_output-OutputSet opens job.output job.append i.table
                (input-IsReady t job.input (with_input opens job.input t) i ready) has_output in
            inl (
              has_input,
              has_output,
              record {
                table = o.table;
                is = execute_runs opens t i.table o.table job i.found o.found;
                input_is = o.others 0 (λ e. omega arith) ∙ i.input;
                output_is =
                    o.output
                    ∙ output_same t i.table job.output job.append (i.others 1 (λ e. omega arith));
                others = λ k ne0 ne1. o.others k ne1 ∙ i.others k ne0;
              },
            )
      ]
]
