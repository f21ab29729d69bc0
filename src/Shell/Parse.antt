-- ===== src/Shell/Parse.antt =====
-- What `handler` makes of a line: the commands of a pipeline, its redirections, and semicolons.
use native.Mathlib.Decide.{dec_lt}
use coding_projects.Prelude.{
  ℕ, suc, ◌+◌, ◌≤◌, ◌<◌, ltb, Bool, true, false, ◌&&◌, Option, none, some, List, [], ◌∷◌, ◌++◌,
  length, map, append-nil, append_assoc, length-append, length-map, ◌≡◌, refl, sym, ap, ◌∙◌, arith,
}
use coding_projects.Shell.{
  Word, Job, size, has_room, classify, strcmp, take_word, is_redirection, is_semicolon, scan,
  words_of, argv_from,
}
use coding_projects.Shell.Scan.{
  scan_word, scan_overflow, all_plain, scan_plain, scan_plain_overflow, both_true,
}

-- The words of a pipeline behind its first word: the first command goes on with `ws`.
unfoldable pub rest_of : List Word → List (List Word) → List Word
rest_of ws [] = ws
rest_of ws (c ∷ cs) = ws ++ ((124 ∷ []) ∷ rest_of c cs)

unfoldable pub all_commands : List (List Word) → Bool
all_commands [] = true
all_commands (c ∷ cs) = all_plain c && all_commands cs

-- The array `temp` for a pipeline, and the entries of `pipeCommands` behind the first.
pub entries : List Word → List (List Word) → List (Option Word)
entries ws [] = map some ws
entries ws (c ∷ cs) = map some ws ++ (none ∷ entries c cs)

pub starts : ℕ → List Word → List (List Word) → List ℕ
starts i ws [] = []
starts i ws (c ∷ cs) = (i + length ws + 1) ∷ starts (i + length ws + 1) c cs

-- The variables behind a pipe.
abbrev with_bar : Job → ℕ → Job
with_bar job i = record job {
  temp = job.temp ++ (none ∷ []);
  pipe_commands = job.pipe_commands ++ ((i + 1) ∷ []);
}

scan_bar :
    (ws : List Word) (i : ℕ) (job : Job)
    → length job.temp + 1 < size
    → length job.pipe_commands < size
    → scan ((124 ∷ []) ∷ ws) i job ≡ scan ws (i + 1) (with_bar job i)
unfolding classify strcmp is_semicolon is_redirection take_word has_room
scan_bar ws i job room more =
    let fits : ltb (length job.temp + 1) size ≡ true = ground arith in
    let fits' : ltb (length job.pipe_commands) size ≡ true = ground arith in
    scan_word (124 ∷ []) ws i job (with_bar job i) refl refl (rw (fits, fits') refl)

bar_overflow :
    (ws : List Word) (i : ℕ) (job : Job)
    → size ≤ length job.temp + 1
    → scan ((124 ∷ []) ∷ ws) i job ≡ none
unfolding classify strcmp is_semicolon is_redirection take_word has_room
bar_overflow ws i job full =
    let behind : ltb (length job.temp + 1) size ≡ false = ground arith in
    scan_overflow (124 ∷ []) ws i job refl refl (rw behind refl)

-- The variables in the middle of a pipeline, from whose first word on `counter` is this.
abbrev pub IsBetween : Job → Type 0
IsBetween job = length job.pipe_commands ≤ length job.temp + 1

-- The variables behind one command of a pipeline and the pipe that follows it.
module _ (ws : List Word) (i : ℕ) (job : Job) where
  abbrev behind_words : Job
  behind_words = record job { temp = job.temp ++ map some ws }

  abbrev behind_bar : Job
  behind_bar = with_bar behind_words (i + length ws)

  length-behind_words : length behind_words.temp ≡ length job.temp + length ws
  length-behind_words =
      omega (arith, length-append job.temp (map some ws), length-map ws (λ (w : Word). some w))

  length-behind_bar : length behind_bar.temp ≡ length job.temp + length ws + 1
  length-behind_bar =
      omega (arith, length-append behind_words.temp (none ∷ []), length-behind_words)

  behind-IsBetween : IsBetween job → IsBetween behind_bar
  behind-IsBetween between =
      omega (arith, length-behind_bar, length-append job.pipe_commands ((i + length ws + 1) ∷ []))

  one_command :
      (rest : List Word)
      → all_plain ws ≡ true
      → IsBetween job
      → length job.temp + length ws + 1 < size
      → scan (ws ++ ((124 ∷ []) ∷ rest)) i job ≡ scan rest (i + length ws + 1) behind_bar
  one_command rest p between room =
      scan_plain ws ((124 ∷ []) ∷ rest) i job p (omega arith)
      ∙ scan_bar rest (i + length ws) behind_words (omega (arith, length-behind_words))
          (omega arith)

length-rest_of :
    (ws c : List Word) (cs : List (List Word))
    → length (rest_of ws (c ∷ cs)) ≡ length ws + 1 + length (rest_of c cs)
unfolding rest_of
length-rest_of ws c cs = omega (arith, length-append ws ((124 ∷ []) ∷ rest_of c cs))

pub scan_pipeline :
    (ws : List Word) (cs : List (List Word)) (rest : List Word) (i : ℕ) (job : Job)
    → all_plain ws ≡ true
    → all_commands cs ≡ true
    → IsBetween job
    → length job.temp + length (rest_of ws cs) < size
    → scan (rest_of ws cs ++ rest) i job
      ≡ scan rest (i + length (rest_of ws cs)) (record job {
        temp = job.temp ++ entries ws cs;
        pipe_commands = job.pipe_commands ++ starts i ws cs;
      })
unfolding rest_of entries starts all_commands
scan_pipeline ws [] rest i job p q between room = scan_plain ws rest i job p room ∙ (λ k.
    scan rest (i + length ws) (record job {
      temp = job.temp ++ map some ws;
      pipe_commands = sym (append-nil job.pipe_commands) k;
    }))
scan_pipeline ws (c ∷ cs) rest i job p q between room =
    let (plain_c, plain_cs) = both_true (all_plain c) (all_commands cs) q in
    let long = length-rest_of ws c cs in
    let place : i + length ws + 1 + length (rest_of c cs) ≡ i + length (rest_of ws (c ∷ cs)) =
      omega (arith, long) in
    let texts : (behind_bar ws i job).temp ++ entries c cs
        ≡ job.temp ++ (map some ws ++ (none ∷ entries c cs)) =
      append_assoc (behind_words ws i job).temp (none ∷ []) (entries c cs)
      ∙ append_assoc job.temp (map some ws) (none ∷ entries c cs) in
    let places =
      append_assoc job.pipe_commands ((i + length ws + 1) ∷ []) (starts (i + length ws + 1) c cs) in
    ap (λ (l : List Word). scan l i job) (append_assoc ws ((124 ∷ []) ∷ rest_of c cs) rest)
    ∙ one_command ws i job (rest_of c cs ++ rest) p between (omega (arith, long, room))
    ∙ scan_pipeline c cs rest (i + length ws + 1) (behind_bar ws i job) plain_c plain_cs
        (behind-IsBetween ws i job between) (omega (arith, length-behind_bar ws i job, long, room))
    ∙ (λ k. scan rest (place k) (record job { temp = texts k; pipe_commands = places k }))

pub scan_pipeline_overflow :
    (ws : List Word) (cs : List (List Word)) (rest : List Word) (i : ℕ) (job : Job)
    → all_plain ws ≡ true
    → all_commands cs ≡ true
    → IsBetween job
    → length job.temp < size
    → size ≤ length job.temp + length (rest_of ws cs)
    → scan (rest_of ws cs ++ rest) i job ≡ none
unfolding rest_of all_commands
scan_pipeline_overflow ws [] rest i job p q between inside full =
    scan_plain_overflow ws rest i job p inside full
scan_pipeline_overflow ws (c ∷ cs) rest i job p q between inside full =
    let (plain_c, plain_cs) = both_true (all_plain c) (all_commands cs) q in
    let long = length-rest_of ws c cs in
    let whole = append_assoc ws ((124 ∷ []) ∷ rest_of c cs) rest in
    ap (λ (l : List Word). scan l i job) whole
    ∙ elim (dec_lt (length job.temp + length ws + 1) size) [
      | yes room ↦
          one_command ws i job (rest_of c cs ++ rest) p between room
          ∙ scan_pipeline_overflow c cs rest (i + length ws + 1) (behind_bar ws i job) plain_c
              plain_cs (behind-IsBetween ws i job between)
              (omega (arith, length-behind_bar ws i job, room))
              (omega (arith, length-behind_bar ws i job, long, full))
      | no tight ↦ elim (dec_lt (length job.temp + length ws) size) [
        | yes last ↦
            scan_plain ws ((124 ∷ []) ∷ (rest_of c cs ++ rest)) i job p last
            ∙ bar_overflow (rest_of c cs ++ rest) (i + length ws) (behind_words ws i job)
                (omega (arith, length-behind_words ws i job, tight))
        | no past ↦
            scan_plain_overflow ws ((124 ∷ []) ∷ (rest_of c cs ++ rest)) i job p inside
              (omega arith)
      ]
    ]

argv_words : (ws : List Word) → words_of (map some ws) ≡ ws
unfolding words_of
argv_words [] = refl
argv_words (w ∷ ws) = ap (λ (t : List Word). w ∷ t) (argv_words ws)

argv_words_null :
    (ws : List Word) (es : List (Option Word)) → words_of (map some ws ++ (none ∷ es)) ≡ ws
unfolding words_of
argv_words_null [] es = refl
argv_words_null (w ∷ ws) es = ap (λ (t : List Word). w ∷ t) (argv_words_null ws es)

argv_behind :
    (pre es : List (Option Word)) → argv_from (pre ++ es) (length pre) ≡ some (words_of es)
unfolding argv_from
argv_behind [] [] = refl
argv_behind [] (e ∷ es) = refl
argv_behind (e ∷ pre) es =
    let n : length (e ∷ pre) ≡ suc (length pre) = omega arith in
    ap (argv_from (e ∷ (pre ++ es))) n ∙ argv_behind pre es

-- The entries of `pipeCommands` are where the commands start in `temp`.
pub argv_pipeline :
    (pre : List (Option Word)) (n : ℕ) (ws : List Word) (cs : List (List Word))
    → n ≡ length pre
    → map (argv_from (pre ++ entries ws cs)) (n ∷ starts n ws cs) ≡ map some (ws ∷ cs)
unfolding entries starts
argv_pipeline pre n ws [] e =
    ap (λ (t : Option (List Word)). t ∷ [])
      (ap (argv_from (pre ++ map some ws)) e
        ∙ argv_behind pre (map some ws)
        ∙ ap (λ (t : List Word). some t) (argv_words ws))
argv_pipeline pre n ws (c ∷ cs) e =
    let pre' = pre ++ (map some ws ++ (none ∷ [])) in
    let more : pre' ++ entries c cs ≡ pre ++ (map some ws ++ (none ∷ entries c cs)) =
      append_assoc pre (map some ws ++ (none ∷ [])) (entries c cs)
      ∙ ap (λ (t : List (Option Word)). pre ++ t)
          (append_assoc (map some ws) (none ∷ []) (entries c cs)) in
    let long : n + length ws + 1 ≡ length pre' = omega (
      arith,
      length-append pre (map some ws ++ (none ∷ [])),
      length-append (map some ws) (none ∷ []),
      length-map ws (λ (w : Word). some w),
      e,
    ) in
    let here =
      ap (argv_from (pre ++ (map some ws ++ (none ∷ entries c cs)))) e
      ∙ argv_behind pre (map some ws ++ (none ∷ entries c cs))
      ∙ ap (λ (t : List Word). some t) (argv_words_null ws (entries c cs)) in
    let others =
      ap
        (λ (t : List (Option Word)).
          map (argv_from t) ((n + length ws + 1) ∷ starts (n + length ws + 1) c cs))
        (sym more)
      ∙ argv_pipeline pre' (n + length ws + 1) c cs long in
    (λ k. here k ∷ others k)
