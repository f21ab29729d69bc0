-- ===== src/Shell/Tests.antt =====
-- Runs of the shell's parts and of their theorems.
use coding_projects.Prelude.{
  ℕ, zero, suc, ◌≤◌, List, Bool, true, false, none, some, [], ◌∷◌, ◌++◌, length, map, ◌≡◌, refl,
  arith,
}
use coding_projects.Shell.{
  Word, Job, strcmp, classify, handler, run_line, returned, crashed, pipe_count, words_of,
  argv_from,
}
use coding_projects.Shell.Scan.{all_plain, is_plain}
use coding_projects.Shell.Parse.{rest_of, all_commands}
use coding_projects.Shell.Line.{Read, redirections, run_line_lem, semicolon_crashes, handler_ends}
use coding_projects.Shell.Exec.{inherited, Table, get, execute, execute_pipes}
use coding_projects.Shell.Exec.Single.{IsReady, Executed, execute_lem}
use coding_projects.Shell.Exec.Pipes.{Wired, child_at, execute_pipes_lem}

abbrev ls : Word
ls = 108 ∷ 115 ∷ []

abbrev wc : Word
wc = 119 ∷ 99 ∷ []

abbrev out : Word
out = 111 ∷ 117 ∷ 116 ∷ []

run_line_lem_example :
    Read
      (run_line
        (ls ∷ (rest_of (out ∷ []) ((wc ∷ []) ∷ []) ++ redirections none (some (true, out)) false)))
      returned
      ((ls ∷ out ∷ []) ∷ (wc ∷ []) ∷ [])
      none
      (some (true, out))
      false
unfolding strcmp all_plain all_commands is_plain classify rest_of
run_line_lem_example =
    run_line_lem ls (out ∷ []) ((wc ∷ []) ∷ []) none (some (true, out)) false refl refl refl
      (omega arith)

semicolon_crashes_example :
    Read
      (run_line (ls ∷ (rest_of [] ((wc ∷ []) ∷ []) ++ ((59 ∷ []) ∷ []))))
      crashed
      ((ls ∷ []) ∷ (wc ∷ []) ∷ [])
      none
      none
      false
unfolding strcmp all_plain all_commands is_plain classify rest_of
semicolon_crashes_example = semicolon_crashes ls [] ((wc ∷ []) ∷ []) refl refl refl (omega arith)

handler_ends_example :
    handler 9 (ls ∷ (59 ∷ []) ∷ wc ∷ []) 0
    ≡ handler (suc (length (ls ∷ (59 ∷ []) ∷ wc ∷ []))) (ls ∷ (59 ∷ []) ∷ wc ∷ []) 0
handler_ends_example = handler_ends 9 (ls ∷ (59 ∷ []) ∷ wc ∷ []) 0 (omega arith)

abbrev terminal : Table
terminal = some (inherited 0) ∷ some (inherited 1) ∷ some (inherited 2) ∷ []

terminal-IsReady : IsReady terminal
unfolding get
terminal-IsReady zero less e = cc
terminal-IsReady (suc zero) less e = cc
terminal-IsReady (suc (suc k)) less e = omega arith

abbrev one_pipe : Job
one_pipe = record {
  temp = some ls ∷ none ∷ some wc ∷ [];
  input = some out;
  output = some wc;
  append = false;
  pipe_commands = 0 ∷ 2 ∷ [];
  waitflag = true;
}

execute_lem_example :
    Executed
      (λ file. strcmp file out)
      terminal
      one_pipe
      (execute (λ file. strcmp file out) terminal one_pipe)
execute_lem_example = execute_lem (λ file. strcmp file out) terminal one_pipe terminal-IsReady

abbrev all_open : Word → Bool
all_open file = true

abbrev two_commands : List (List Word)
two_commands = (ls ∷ []) ∷ (wc ∷ []) ∷ []

two_commands_are : map (argv_from one_pipe.temp) one_pipe.pipe_commands ≡ map some two_commands
unfolding argv_from words_of
two_commands_are = refl

execute_pipes_lem_example :
    ((k : ℕ)
      → k ≤ pipe_count one_pipe
      → Wired all_open terminal one_pipe terminal-IsReady refl refl
          (omega arith)
          two_commands
          two_commands_are
          k
          (child_at (execute_pipes all_open terminal one_pipe).0 k))
    × ((k : ℕ) → get (execute_pipes all_open terminal one_pipe).1 k ≡ get terminal k)
execute_pipes_lem_example =
    execute_pipes_lem all_open terminal one_pipe terminal-IsReady refl refl (omega arith)
      two_commands two_commands_are
