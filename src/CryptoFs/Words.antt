-- ===== src/CryptoFs/Words.antt =====
-- One word and one block of the caller's buffer, combined in place.
use coding_projects.Prelude.{
  ℕ, ◌+◌, ◌*◌, ◌≤◌, ◌<◌, true, false, none, some, List, ◌++◌, ◌≡◌, inl, inr, refl, sym, arith, ap,
  ◌∙◌, leb, length, take, drop, append_assoc, length-append, length-take, length-drop, Option-cases,
  take-append, take-append_exact, drop-append, drop-append_self,
}
use coding_projects.Speck.{Block}
use coding_projects.Ctr.{word_bytes, xor_bytes}
use coding_projects.Ctr.Pieces.{length-xor_bytes}
use coding_projects.CryptoFs.{xor_word, xor_block}

le→leb : (a b : ℕ) → a ≤ b → leb a b ≡ true
le→leb a b h = ground arith

lt→leb : (a b : ℕ) → b < a → leb a b ≡ false
lt→leb a b h = ground arith

drop_further : (k : ℕ) (xs ys : List ℕ) → length xs ≡ k → drop k (xs ++ ys) ≡ ys
drop_further k xs ys e = ap (λ (n : ℕ). drop n (xs ++ ys)) (sym e) ∙ drop-append_self xs ys

absent : {m : List ℕ} {P : Type 0} → none ≡ some m → P
absent h = cc

-- The word between `front` and `back` is combined in place.
xor_word_lem :
    (front p back : List ℕ) (value : ℕ)
    → length p ≡ 8
    → xor_word (front ++ (p ++ back)) (length front) value
      ≡ some (front ++ (xor_bytes p (word_bytes 8 value) ++ back))
unfolding xor_word
xor_word_lem front p back value p_len =
    rw
      (
        le→leb (length front + 8) (length (front ++ (p ++ back)))
            (omega (arith, length-append front (p ++ back), length-append p back)),
        take-append front (p ++ back),
        drop-append_self front (p ++ back),
        take-append_exact 8 p back p_len,
        drop-append front (p ++ back) 8,
        drop_further 8 p back p_len,
      )
      refl

xor_word_fault :
    (memory : List ℕ) (at value : ℕ) → length memory < at + 8 → xor_word memory at value ≡ none
unfolding xor_word
xor_word_fault memory at value h = rw (lt→leb (at + 8) (length memory) h) refl

pub xor_block_lem :
    (front p q back : List ℕ) (counter : ℕ) (value : Block)
    → length front ≡ 8 * counter
    → length p ≡ 8
    → length q ≡ 8
    → xor_block (front ++ (p ++ (q ++ back))) counter value
      ≡ some (
          front
          ++ (xor_bytes p (word_bytes 8 value.lo) ++ (xor_bytes q (word_bytes 8 value.hi) ++ back)))
unfolding xor_block
xor_block_lem front p q back counter value at p_len q_len =
    let P = xor_bytes p (word_bytes 8 value.lo) in
    let middle : 8 * (1 + counter) ≡ length (front ++ P) =
      omega (arith, length-append front P, length-xor_bytes p (word_bytes 8 value.lo)) in
    let first : xor_word (front ++ (p ++ (q ++ back))) (8 * counter) value.lo
        ≡ some ((front ++ P) ++ (q ++ back)) =
      ap (λ (n : ℕ). xor_word (front ++ (p ++ (q ++ back))) n value.lo) (sym at)
      ∙ xor_word_lem front p (q ++ back) value.lo p_len
      ∙ ap some (sym (append_assoc front P (q ++ back))) in
    rw (first, xor_block, middle)
      (xor_word_lem (front ++ P) q back value.hi q_len ∙ ap some (append_assoc front P _))

-- A word combined in place leaves the memory's size.
length-xor_word :
    (memory : List ℕ) (at value : ℕ) {m : List ℕ}
    → xor_word memory at value ≡ some m
    → length m ≡ length memory
unfolding xor_word
length-xor_word memory at value h = ground (
  arith,
  length-append (take at memory)
      (xor_bytes (take 8 (drop at memory)) (word_bytes 8 value) ++ drop (at + 8) memory),
  length-append (xor_bytes (take 8 (drop at memory)) (word_bytes 8 value)) (drop (at + 8) memory),
  length-xor_bytes (take 8 (drop at memory)) (word_bytes 8 value),
  length-take at memory,
  length-take 8 (drop at memory),
  length-drop at memory,
  length-drop (at + 8) memory,
)

pub length-xor_block :
    (memory : List ℕ) (counter : ℕ) (value : Block) {m : List ℕ}
    → xor_block memory counter value ≡ some m
    → length m ≡ length memory
unfolding xor_block
length-xor_block memory counter value h =
    elim (Option-cases (xor_word memory (8 * counter) value.lo)) [
      | inl e ↦ absent (rw (e, xor_block) at h)
      | inr (k, e) ↦
          length-xor_word k (8 * (1 + counter)) value.hi (rw (e, xor_block) at h)
          ∙ length-xor_word memory (8 * counter) value.lo e
    ]

pub xor_block_fault :
    (memory : List ℕ) (counter : ℕ) (value : Block)
    → length memory < 8 * counter + 16
    → xor_block memory counter value ≡ none
unfolding xor_block
xor_block_fault memory counter value h =
    elim (Option-cases (xor_word memory (8 * counter) value.lo)) [
      | inl e ↦ rw (e, xor_block) refl
      | inr (m, e) ↦
          rw (e, xor_block)
            (xor_word_fault m (8 * (1 + counter)) value.hi
              (omega (arith, length-xor_word memory (8 * counter) value.lo e)))
    ]
