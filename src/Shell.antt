-- ===== src/Shell.antt =====
-- SimpleShell/myshell.c: how the words of a line become commands, and which descriptors the children run
-- with. A word is the list of its characters; the array `temp` is the list of its entries below
-- `counter`, where `none` is NULL, and `pipeCommands` that of its entries up to `pipeCount`. Both arrays
-- have SIZE entries, and a write behind them ends the model's run.
pub mod Scan
pub mod Parse
pub mod Line
pub mod Exec
mod Tests
use coding_projects.Prelude.{
  ℕ, zero, suc, ◌+◌, ◌-◌, ◌*◌, Bool, true, false, ◌||◌, ◌&&◌, Option, none, some, List, [], ◌∷◌,
  ◌++◌, ltb, ◌==◌, if◌then◌else◌, length,
}

abbrev pub Word : Type 0
Word = List ℕ

-- `strcmp(a, b) == 0`.
pub strcmp : Word → Word → Bool
strcmp [] [] = true
strcmp [] (y ∷ ys) = false
strcmp (x ∷ xs) [] = false
strcmp (x ∷ xs) (y ∷ ys) = if x == y then strcmp xs ys else false

-- `handler`'s local variables.
pub record Job : Type 0 where
  pub temp : List (Option Word)
  pub input : Option Word
  pub output : Option Word
  pub append : Bool
  pub pipe_commands : List ℕ
  pub waitflag : Bool

-- SIZE.
abbrev pub size : ℕ
size = 100

abbrev pub pipe_count : Job → ℕ
pipe_count job = length job.pipe_commands - 1

abbrev pub no_words : Job
no_words = record {
  temp = [];
  input = none;
  output = none;
  append = false;
  pipe_commands = 0 ∷ [];
  waitflag = true;
}

-- The cases of the loop of `handler`, in the order of its tests.
pub data Special : Type 0 where
  from_file : Special
  to_file : Special
  to_end : Special
  bar : Special
  semicolon : Special
  ampersand : Special
  bracket : Special
  plain : Special

pub classify : Word → Special
classify w =
    if strcmp w (60 ∷ [])
    then from_file
    else (if strcmp w (62 ∷ [])
        then to_file
        else (if strcmp w (62 ∷ 62 ∷ [])
            then to_end
            else (if strcmp w (124 ∷ [])
                then bar
                else (if strcmp w (59 ∷ [])
                    then semicolon
                    else (if strcmp w (38 ∷ [])
                        then ampersand
                        else (if strcmp w (40 ∷ []) || strcmp w (41 ∷ [])
                            then bracket
                            else plain))))))

-- `temp[counter]` and, with `counter` one higher, `temp[counter] = NULL` are written inside the array.
pub has_room : Job → Bool
has_room job = ltb (length job.temp + 1) size

-- The cases that look at one word, number `i`; nothing comes of a write behind an array.
pub take_word : Special → Word → ℕ → Job → Option Job
take_word bar w i job =
    if has_room job && ltb (length job.pipe_commands) size
    then some (record job {
      temp = job.temp ++ (none ∷ []);
      pipe_commands = job.pipe_commands ++ ((i + 1) ∷ []);
    })
    else none
take_word ampersand w i job = some (record job { waitflag = false })
take_word plain w i job =
    if has_room job then some (record job { temp = job.temp ++ (some w ∷ []) }) else none
take_word other w i job = some job

-- The cases of a redirection; behind the last word is NULL.
pub redirect : Special → Option Word → Job → Job
redirect from_file file job = record job { input = file }
redirect to_file file job = record job { output = file }
redirect to_end none job = record job { output = none }
redirect to_end (some file) job = record job { output = some file; append = true }
redirect other file job = job

pub is_redirection : Special → Bool
is_redirection from_file = true
is_redirection to_file = true
is_redirection to_end = true
is_redirection other = false

pub is_semicolon : Special → Bool
is_semicolon semicolon = true
is_semicolon other = false

-- The loop of `handler` over the words from number `i` on: the variables, and the words behind a
-- semicolon with the number of the first; nothing if it writes behind an array.
pub scan : List Word → ℕ → Job → Option (Job × Option (List Word × ℕ))
scan [] i job = some (job, none)
scan (w ∷ []) i job =
    if is_semicolon (classify w)
    then some (job, some ([], i + 1))
    else (if is_redirection (classify w)
        then some (redirect (classify w) none job, none)
        else elim (take_word (classify w) w i job) [ none ↦ none | some next ↦ some (next, none) ])
scan (w ∷ v ∷ rest) i job =
    let behind = scan rest (i + 2) (redirect (classify w) (some v) job) in
    let next : Option (Job × Option (List Word × ℕ)) = elim (take_word (classify w) w i job) [
      | none ↦ none
      | some taken ↦ scan (v ∷ rest) (i + 1) taken
    ] in
    if is_semicolon (classify w)
    then some (job, some (v ∷ rest, i + 1))
    else (if is_redirection (classify w) then behind else next)

-- How `handler` ends: it returns, it leaves the shell, it compares a null pointer, or it writes behind
-- an array.
pub data Ended : Type 0 where
  returned : Ended
  exited : Ended
  crashed : Ended
  overflowed : Ended

-- `handler` on the words from number `start` on: the jobs that it executes, one after the other.
pub handler : ℕ → List Word → ℕ → List Job × Ended
handler zero ws start = ([], returned)
handler (suc left) [] start = ([], crashed)
handler (suc left) (w ∷ ws) start =
    if strcmp w (101 ∷ 120 ∷ 105 ∷ 116 ∷ [])
    then ([], exited)
    else elim (scan (w ∷ ws) start no_words) [
      | none ↦ ([], overflowed)
      | some (job, none) ↦ (job ∷ [], returned)
      | some (job, some (rest, next)) ↦ let more = handler left rest next in (job ∷ more.0, more.1)
    ]

-- The words from the head of an array up to the next NULL, as `execvp` reads them.
pub words_of : List (Option Word) → List Word
words_of [] = []
words_of (none ∷ es) = []
words_of (some w ∷ es) = w ∷ words_of es

-- The words from an entry on; nothing for an entry behind the last NULL, which has never been set.
pub argv_from : List (Option Word) → ℕ → Option (List Word)
argv_from es zero = some (words_of es)
argv_from [] (suc k) = none
argv_from (e ∷ es) (suc k) = argv_from es k

-- What `main` does with a line.
pub run_line : List Word → List Job × Ended
run_line [] = ([], returned)
run_line (w ∷ ws) = handler (suc (length (w ∷ ws))) (w ∷ ws) 0
