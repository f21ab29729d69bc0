-- ===== src/Shell/Scan.antt =====
-- The loop of `handler`, word by word.
use coding_projects.Prelude.{
  ℕ, ◌+◌, ◌≤◌, ◌<◌, Bool, true, false, ◌&&◌, ltb, Option, none, some, List, [], ◌∷◌, ◌++◌, length,
  map, append-nil, append_assoc, length-append, ◌≡◌, refl, sym, ◌∙◌, arith, inl, inr, Bool-cases,
  Option-cases,
}
use coding_projects.Shell.{
  Word, Job, Special, plain, size, has_room, classify, take_word, redirect, is_redirection,
  is_semicolon, scan,
}

pub scan_word :
    (w : Word) (ws : List Word) (i : ℕ) (job next : Job)
    → is_semicolon (classify w) ≡ false
    → is_redirection (classify w) ≡ false
    → take_word (classify w) w i job ≡ some next
    → scan (w ∷ ws) i job ≡ scan ws (i + 1) next
unfolding scan
scan_word w [] i job next s r e = rw (s, r, e) refl
scan_word w (v ∷ rest) i job next s r e = rw (s, r, e, scan) refl

pub scan_overflow :
    (w : Word) (ws : List Word) (i : ℕ) (job : Job)
    → is_semicolon (classify w) ≡ false
    → is_redirection (classify w) ≡ false
    → take_word (classify w) w i job ≡ none
    → scan (w ∷ ws) i job ≡ none
unfolding scan
scan_overflow w [] i job s r e = rw (s, r, e) refl
scan_overflow w (v ∷ rest) i job s r e = rw (s, r, e, scan) refl

pub scan_redirection :
    (w file : Word) (ws : List Word) (i : ℕ) (job : Job)
    → is_semicolon (classify w) ≡ false
    → is_redirection (classify w) ≡ true
    → scan (w ∷ file ∷ ws) i job ≡ scan ws (i + 2) (redirect (classify w) (some file) job)
unfolding scan
scan_redirection w file ws i job s r = rw (s, r, scan) refl

pub scan_semicolon :
    (w : Word) (ws : List Word) (i : ℕ) (job : Job)
    → is_semicolon (classify w) ≡ true
    → scan (w ∷ ws) i job ≡ some (job, some (ws, i + 1))
unfolding scan
scan_semicolon w [] i job s = rw s refl
scan_semicolon w (v ∷ rest) i job s = rw s refl

-- A scan stops behind what it has read.
abbrev pub Shorter : ℕ → Option (Job × Option (List Word × ℕ)) → Type 0
Shorter n none = 0 ≤ n
Shorter n (some (job, none)) = 0 ≤ n
Shorter n (some (job, some (rest, i))) = length rest < n

Shorter-more :
    (n k : ℕ) (r : Option (Job × Option (List Word × ℕ))) → n ≤ k → Shorter n r → Shorter k r
Shorter-more n k none le h = omega arith
Shorter-more n k (some (job, none)) le h = omega arith
Shorter-more n k (some (job, some (rest, i))) le h = omega arith

pub scan-Shorter : (ws : List Word) (i : ℕ) (job : Job) → Shorter (length ws) (scan ws i job)
unfolding scan
scan-Shorter [] i job = omega arith
scan-Shorter (w ∷ []) i job = elim (Bool-cases (is_semicolon (classify w))) [
  | inl s ↦ rw s (omega arith)
  | inr s ↦ elim (Bool-cases (is_redirection (classify w))) [
    | inl r ↦ rw (s, r) (omega arith)
    | inr r ↦ elim (Option-cases (take_word (classify w) w i job)) [
      | inl e ↦ rw (s, r, e) (omega arith)
      | inr (next, e) ↦ rw (s, r, e) (omega arith)
    ]
  ]
]
scan-Shorter (w ∷ v ∷ rest) i job = elim (Bool-cases (is_semicolon (classify w))) [
  | inl s ↦ rw s (omega arith)
  | inr s ↦ elim (Bool-cases (is_redirection (classify w))) [
    | inl r ↦ rw (scan_redirection w v rest i job s r) (
        Shorter-more (length rest) (length (w ∷ v ∷ rest))
          (scan rest (i + 2) (redirect (classify w) (some v) job)) (omega arith)
          (scan-Shorter rest (i + 2) (redirect (classify w) (some v) job)))
    | inr r ↦ elim (Option-cases (take_word (classify w) w i job)) [
      | inl e ↦ rw (scan_overflow w (v ∷ rest) i job s r e) (omega arith)
      | inr (next, e) ↦ rw (scan_word w (v ∷ rest) i job next s r e) (
          Shorter-more (length (v ∷ rest)) (length (w ∷ v ∷ rest)) (scan (v ∷ rest) (i + 1) next)
            (omega arith) (scan-Shorter (v ∷ rest) (i + 1) next))
    ]
  ]
]

-- A word that is none of the shell's signs.
unfoldable pub is_plain : Special → Bool
is_plain plain = true
is_plain other = false

unfoldable pub all_plain : List Word → Bool
all_plain [] = true
all_plain (w ∷ ws) = is_plain (classify w) && all_plain ws

plain_is : (c : Special) → is_plain c ≡ true → c ≡ plain
unfolding is_plain
plain_is plain e = refl
plain_is other e = cc

pub both_true : (a b : Bool) → (a && b) ≡ true → (a ≡ true) × (b ≡ true)
both_true true b e = (refl, e)
both_true false b e = cc

abbrev with_word : Job → Word → Job
with_word job w = record job { temp = job.temp ++ (some w ∷ []) }

plain_step :
    (w : Word) (ws : List Word) (i : ℕ) (job : Job)
    → classify w ≡ plain
    → length job.temp + 1 < size
    → scan (w ∷ ws) i job ≡ scan ws (i + 1) (with_word job w)
unfolding take_word is_semicolon is_redirection has_room
plain_step w ws i job c room =
    let fits : ltb (length job.temp + 1) size ≡ true = ground arith in
    scan_word w ws i job (with_word job w) (rw c refl) (rw c refl) (rw (c, take_word, fits) refl)

plain_overflow :
    (w : Word) (ws : List Word) (i : ℕ) (job : Job)
    → classify w ≡ plain
    → size ≤ length job.temp + 1
    → scan (w ∷ ws) i job ≡ none
unfolding take_word is_semicolon is_redirection has_room
plain_overflow w ws i job c full =
    let behind : ltb (length job.temp + 1) size ≡ false = ground arith in
    scan_overflow w ws i job (rw c refl) (rw c refl) (rw (c, take_word, behind) refl)

one_longer : (job : Job) (w : Word) → length (with_word job w).temp ≡ length job.temp + 1
one_longer job w = length-append job.temp (some w ∷ [])

pub scan_plain :
    (ws rest : List Word) (i : ℕ) (job : Job)
    → all_plain ws ≡ true
    → length job.temp + length ws < size
    → scan (ws ++ rest) i job
      ≡ scan rest (i + length ws) (record job { temp = job.temp ++ map some ws })
unfolding all_plain
scan_plain [] rest i job e room =
    let same : i ≡ i + 0 = omega arith in
    λ k. scan rest (same k) (record job { temp = sym (append-nil job.temp) k })
scan_plain (w ∷ ws) rest i job e room =
    let (first, others) = both_true (is_plain (classify w)) (all_plain ws) e in
    let place : i + 1 + length ws ≡ i + length (w ∷ ws) = omega arith in
    let entries = append_assoc job.temp (some w ∷ []) (map some ws) in
    plain_step w (ws ++ rest) i job (plain_is (classify w) first) (omega arith)
    ∙ scan_plain ws rest (i + 1) (with_word job w) others (omega (arith, one_longer job w))
    ∙ (λ k. scan rest (place k) (record job { temp = entries k }))

pub scan_plain_overflow :
    (ws rest : List Word) (i : ℕ) (job : Job)
    → all_plain ws ≡ true
    → length job.temp < size
    → size ≤ length job.temp + length ws
    → scan (ws ++ rest) i job ≡ none
unfolding all_plain
scan_plain_overflow [] rest i job e inside full = absurd (omega arith)
scan_plain_overflow (w ∷ ws) rest i job e inside full =
    let (first, others) = both_true (is_plain (classify w)) (all_plain ws) e in
    let c = plain_is (classify w) first in
    elim (Bool-cases (ltb (length job.temp + 1) size)) [
      | inr behind ↦ plain_overflow w (ws ++ rest) i job c (ground arith)
      | inl fits ↦
          plain_step w (ws ++ rest) i job c (ground arith)
          ∙ scan_plain_overflow ws rest (i + 1) (with_word job w) others
              (ground (arith, one_longer job w)) (omega (arith, one_longer job w))
    ]
