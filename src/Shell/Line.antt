-- ===== src/Shell/Line.antt =====
-- `handler` on a whole line: a pipeline with redirections, and a sequence of lines.
use coding_projects.Prelude.{
  ℕ, zero, suc, ◌+◌, ◌<◌, Bool, true, false, not, Option, none, some, List, [], ◌∷◌, ◌++◌, length,
  map, ◌≡◌, refl, sym, ap, ◌∙◌, arith, inl, inr, subst, Bool-cases,
}
use coding_projects.Shell.{
  Word, Job, size, no_words, classify, strcmp, take_word, redirect, is_redirection, is_semicolon,
  scan, handler, run_line, Ended, returned, crashed, overflowed, argv_from,
}
use coding_projects.Shell.Scan.{scan_semicolon, all_plain, Shorter, scan-Shorter}
use coding_projects.Shell.Parse.{
  rest_of, all_commands, entries, starts, scan_pipeline, argv_pipeline,
}

-- The words of the redirections of a line: an input file, an output file and whether to append to it,
-- and whether not to wait.
pub in_words : Option Word → List Word
in_words none = []
in_words (some file) = (60 ∷ []) ∷ file ∷ []

pub out_words : Option (Bool × Word) → List Word
out_words none = []
out_words (some (true, file)) = (62 ∷ 62 ∷ []) ∷ file ∷ []
out_words (some (false, file)) = (62 ∷ []) ∷ file ∷ []

pub back_words : Bool → List Word
back_words false = []
back_words true = (38 ∷ []) ∷ []

pub redirections : Option Word → Option (Bool × Word) → Bool → List Word
redirections input output background = in_words input ++ (out_words output ++ back_words background)

abbrev pub file_of : Option (Bool × Word) → Option Word
file_of none = none
file_of (some (append, file)) = some file

abbrev pub appends : Option (Bool × Word) → Bool
appends none = false
appends (some (append, file)) = append

abbrev read_job : List (Option Word) → List ℕ → Option Word → Option (Bool × Word) → Bool → Job
read_job temp places input output background = record {
  temp = temp;
  input = input;
  output = file_of output;
  append = appends output;
  pipe_commands = places;
  waitflag = not background;
}

abbrev plain_job : List (Option Word) → List ℕ → Job
plain_job temp places = read_job temp places none none false

scan-redirections :
    (temp : List (Option Word)) (places : List ℕ) (i : ℕ) (input : Option Word)
    (output : Option (Bool × Word)) (background : Bool)
    → scan (redirections input output background) i (plain_job temp places)
      ≡ some (read_job temp places input output background, none)
unfolding scan redirections in_words out_words back_words classify strcmp is_semicolon
    is_redirection take_word redirect
scan-redirections temp places i none none false = refl
scan-redirections temp places i none none true = refl
scan-redirections temp places i none (some (true, file)) false = refl
scan-redirections temp places i none (some (true, file)) true = refl
scan-redirections temp places i none (some (false, file)) false = refl
scan-redirections temp places i none (some (false, file)) true = refl
scan-redirections temp places i (some file') none false = refl
scan-redirections temp places i (some file') none true = refl
scan-redirections temp places i (some file') (some (true, file)) false = refl
scan-redirections temp places i (some file') (some (true, file)) true = refl
scan-redirections temp places i (some file') (some (false, file)) false = refl
scan-redirections temp places i (some file') (some (false, file)) true = refl

abbrev exit_word : Word
exit_word = 101 ∷ 120 ∷ 105 ∷ 116 ∷ []

handler_last :
    (left : ℕ) (w : Word) (ws : List Word) (start : ℕ) (job : Job)
    → strcmp w exit_word ≡ false
    → scan (w ∷ ws) start no_words ≡ some (job, none)
    → handler (suc left) (w ∷ ws) start ≡ (job ∷ [], returned)
unfolding handler
handler_last left w ws start job e s = rw (e, s) refl

handler_more :
    (left : ℕ) (w : Word) (ws : List Word) (start : ℕ) (job : Job) (rest : List Word) (next : ℕ)
    → strcmp w exit_word ≡ false
    → scan (w ∷ ws) start no_words ≡ some (job, some (rest, next))
    → handler (suc left) (w ∷ ws) start
      ≡ (job ∷ (handler left rest next).0, (handler left rest next).1)
unfolding handler
handler_more left w ws start job rest next e s = rw (e, s, handler) refl

handler_overflow :
    (left : ℕ) (w : Word) (ws : List Word) (start : ℕ)
    → strcmp w exit_word ≡ false
    → scan (w ∷ ws) start no_words ≡ none
    → handler (suc left) (w ∷ ws) start ≡ ([], overflowed)
unfolding handler
handler_overflow left w ws start e s = rw (e, s) refl

-- The words of a line and the list that `scan_pipeline` reads are the same.
first_word :
    (w : Word) (ws : List Word) (cs : List (List Word)) (tail : List Word) (start : ℕ)
    → scan (w ∷ (rest_of ws cs ++ tail)) start no_words
      ≡ scan (rest_of (w ∷ ws) cs ++ tail) start no_words
unfolding rest_of
first_word w ws [] tail start = refl
first_word w ws (c ∷ cs) tail start = refl

-- One job that is executed, and how `handler` ends behind it: the entries of `pipeCommands` are where the
-- commands stand in `temp`.
pub record Read (r : List Job × Ended) (ended : Ended) (commands : List (List Word))
    (input : Option Word) (output : Option (Bool × Word)) (background : Bool) : Type 0 where
  pub job : Job
  pub runs : r ≡ (job ∷ [], ended)
  pub commands_are : map (argv_from job.temp) job.pipe_commands ≡ map some commands
  pub input_is : job.input ≡ input
  pub output_is : job.output ≡ file_of output
  pub append_is : job.append ≡ appends output
  pub waits : job.waitflag ≡ not background

read_job-Read :
    (r : List Job × Ended) (ended : Ended) (ws : List Word) (cs : List (List Word))
    (input : Option Word) (output : Option (Bool × Word)) (background : Bool)
    → r ≡ (read_job (entries ws cs) (0 ∷ starts 0 ws cs) input output background ∷ [], ended)
    → Read r ended (ws ∷ cs) input output background
read_job-Read r ended ws cs input output background e = record {
  job = read_job (entries ws cs) (0 ∷ starts 0 ws cs) input output background;
  runs = e;
  commands_are = argv_pipeline [] 0 ws cs refl;
  input_is = refl;
  output_is = refl;
  append_is = refl;
  waits = refl;
}

-- A line of a pipeline whose words are none of the shell's signs, the first not "exit", of fewer than SIZE
-- words with the pipes, and behind it at will an input file, an output file to overwrite or append to, and
-- a `&`, is one job: the entries of `pipeCommands` are where the commands stand in `temp`, each ended by
-- NULL, and the files and flags are those of the line.
pub run_line_lem :
    (w : Word) (ws : List Word) (cs : List (List Word))
    → (input : Option Word) (output : Option (Bool × Word)) (background : Bool)
    → strcmp w exit_word ≡ false
    → all_plain (w ∷ ws) ≡ true
    → all_commands cs ≡ true
    → length (rest_of (w ∷ ws) cs) < size
    → Read
        (run_line (w ∷ (rest_of ws cs ++ redirections input output background)))
        returned
        ((w ∷ ws) ∷ cs)
        input
        output
        background
unfolding run_line
run_line_lem w ws cs input output background e p q room =
    let temp = entries (w ∷ ws) cs in
    let places = 0 ∷ starts 0 (w ∷ ws) cs in
    let tail = redirections input output background in
    let n = 0 + length (rest_of (w ∷ ws) cs) in
    read_job-Read _ returned (w ∷ ws) cs input output background (
      handler_last (length (w ∷ (rest_of ws cs ++ tail))) w (rest_of ws cs ++ tail) 0
        (read_job temp places input output background) e
        (first_word w ws cs tail 0
          ∙ scan_pipeline (w ∷ ws) cs tail 0 no_words p q (omega arith) (omega (arith, room))
          ∙ scan-redirections temp places n input output background))

scan_end :
    (ws : List Word) (cs : List (List Word)) (rest : List Word) (i : ℕ)
    → all_plain ws ≡ true
    → all_commands cs ≡ true
    → length (rest_of ws cs) < size
    → scan (rest_of ws cs ++ ((59 ∷ []) ∷ rest)) i no_words
      ≡ some (
        plain_job (entries ws cs) (0 ∷ starts i ws cs),
        some (rest, i + length (rest_of ws cs) + 1),
      )
unfolding classify strcmp is_semicolon
scan_end ws cs rest i p q room =
    scan_pipeline ws cs ((59 ∷ []) ∷ rest) i no_words p q (omega arith) (omega (arith, room))
    ∙ scan_semicolon (59 ∷ []) rest (i + length (rest_of ws cs))
        (plain_job (entries ws cs) (0 ∷ starts i ws cs)) refl

-- A line that ends with a semicolon behind a pipeline of words that are none of the shell's signs, the
-- first not "exit", of fewer than SIZE words with the pipes: `handler` executes the job of the pipeline,
-- without files and with a wait, and then compares a null pointer.
pub semicolon_crashes :
    (w : Word) (ws : List Word) (cs : List (List Word))
    → strcmp w exit_word ≡ false
    → all_plain (w ∷ ws) ≡ true
    → all_commands cs ≡ true
    → length (rest_of (w ∷ ws) cs) < size
    → Read
        (run_line (w ∷ (rest_of ws cs ++ ((59 ∷ []) ∷ []))))
        crashed
        ((w ∷ ws) ∷ cs)
        none
        none
        false
unfolding run_line handler
semicolon_crashes w ws cs e p q room =
    let line = rest_of ws cs ++ ((59 ∷ []) ∷ []) in
    let fuel : length (w ∷ line) ≡ suc (length line) = omega arith in
    let job = plain_job (entries (w ∷ ws) cs) (0 ∷ starts 0 (w ∷ ws) cs) in
    let next = 0 + length (rest_of (w ∷ ws) cs) + 1 in
    read_job-Read _ crashed (w ∷ ws) cs none none false (
      handler_more (length (w ∷ line)) w line 0 job [] next e
        (first_word w ws cs ((59 ∷ []) ∷ []) 0 ∙ scan_end (w ∷ ws) cs [] 0 p q room)
      ∙ ap (λ (n : ℕ). (job ∷ (handler n [] next).0, (handler n [] next).1)) fuel)

handler_step :
    (left k : ℕ) (w : Word) (ws : List Word) (start : ℕ) (r : Option (Job × Option (List Word × ℕ)))
    → scan (w ∷ ws) start no_words ≡ r
    → strcmp w exit_word ≡ false
    → ((rest : List Word) (next : ℕ)
        → length rest < length (w ∷ ws)
        → handler left rest next ≡ handler k rest next)
    → handler (suc left) (w ∷ ws) start ≡ handler (suc k) (w ∷ ws) start
handler_step left k w ws start none s e same =
    handler_overflow left w ws start e s ∙ sym (handler_overflow k w ws start e s)
handler_step left k w ws start (some (job, none)) s e same =
    handler_last left w ws start job e s ∙ sym (handler_last k w ws start job e s)
handler_step left k w ws start (some (job, some (rest, next))) s e same =
    let shorter = subst (Shorter (length (w ∷ ws))) s (scan-Shorter (w ∷ ws) start no_words) in
    handler_more left w ws start job rest next e s
    ∙ ap (λ (r : List Job × Ended). (job ∷ r.0, r.1)) (same rest next shorter)
    ∙ sym (handler_more k w ws start job rest next e s)

handler_same :
    (left k : ℕ) (ws : List Word) (start : ℕ)
    → length ws < left
    → length ws < k
    → handler left ws start ≡ handler k ws start
unfolding handler
handler_same zero k ws start a b = absurd (omega arith)
handler_same (suc left) zero ws start a b = absurd (omega arith)
handler_same (suc left) (suc k) [] start a b = refl
handler_same (suc left) (suc k) (w ∷ ws) start a b = elim (Bool-cases (strcmp w exit_word)) [
  | inl e ↦ rw e refl
  | inr e ↦
      handler_step left k w ws start (scan (w ∷ ws) start no_words) refl e (λ rest next shorter.
        handler_same left k rest next (omega (arith, shorter, a)) (omega (arith, shorter, b)))
]

-- `handler` ends within one call for each word and one more: with any more room it executes the same
-- jobs and ends the same way as with that.
pub handler_ends :
    (left : ℕ) (ws : List Word) (start : ℕ)
    → length ws < left
    → handler left ws start ≡ handler (suc (length ws)) ws start
handler_ends left ws start enough =
    handler_same left (suc (length ws)) ws start enough (omega arith)
