-- ===== src/Lzw/Output/Words.antt =====
-- Words written by `buffer_word` and `flush_word`.
use coding_projects.Prelude.{
  ℕ, zero, suc, ◌+◌, ◌/◌, ◌<◌, List, [], ◌∷◌, ◌++◌, ◌≡◌, refl, sym, ap, ◌∙◌, arith, ◌==◌, ==_iff,
  length, set, length-set, take, append_assoc, append-nil, Bool-cases, inl, inr,
}
use coding_projects.Lzw.Output.{
  Output, HoldsBytes, contents, write_full, buffer_byte, buffer_word, flush_word,
}

take-set :
    (n : ℕ) (xs : List ℕ) (b : ℕ)
    → n < length xs
    → take (n + 1) (set xs n b) ≡ take n xs ++ (b ∷ [])
take-set n [] b h = absurd (omega arith)
take-set zero (x ∷ xs) b h = refl
take-set (suc n) (x ∷ xs) b h =
    let e : suc n + 1 ≡ suc (n + 1) = omega arith in
    ap (λ (k : ℕ). take k (set (x ∷ xs) (suc n) b)) e
    ∙ ap (λ t. x ∷ t) (take-set n xs b (omega arith))

-- What a step that appends bytes leaves.
record Appended (s s' : Output) (bytes : List ℕ) : Type 0 where
  valid : HoldsBytes s'
  holds : contents s' ≡ contents s ++ bytes

write_full-HoldsBytes :
    (s : Output)
    → HoldsBytes s
    → HoldsBytes (write_full s)
      × (contents (write_full s) ≡ contents s)
      × ((write_full s).out_index < 32768)
unfolding write_full
write_full-HoldsBytes s v = elim (Bool-cases (s.out_index == 32768)) [
  | inl e ↦
      let at : s.out_index ≡ 32768 = (==_iff s.out_index 32768).0 e in
      let bytes : 4096 ≡ s.out_index / 8 = omega arith in
      rw e (
        record { whole = refl; fits = omega arith; size = v.size },
        append-nil _ ∙ ap (λ (n : ℕ). s.outfile ++ take n s.out_buffer) bytes,
        omega arith,
      )
  | inr ne ↦ rw ne (v, refl, ground (arith, v.fits))
]

buffer_byte-Appended :
    (s : Output) (byte : ℕ) → HoldsBytes s → Appended s (buffer_byte s byte) (byte ∷ [])
unfolding buffer_byte
buffer_byte-Appended s byte v =
    let w = write_full-HoldsBytes s v in
    let s1 = write_full s in
    let n = s1.out_index / 8 in
    let next : (s1.out_index + 8) / 8 ≡ n + 1 = omega arith in
    record {
      valid = record {
        whole = omega (arith, w.0.whole);
        fits = omega (arith, w.0.whole, w.2);
        size = length-set s1.out_buffer n byte ∙ w.0.size;
      };
      holds =
          ap (λ (k : ℕ). s1.outfile ++ take k (set s1.out_buffer n byte)) next
          ∙ ap (λ t. s1.outfile ++ t) (take-set n s1.out_buffer byte (omega (arith, w.0.size, w.2)))
          ∙ sym (append_assoc s1.outfile (take n s1.out_buffer) (byte ∷ []))
          ∙ ap (λ t. t ++ (byte ∷ [])) w.1;
    }

buffer_word-Appended :
    (s : Output) (word : List ℕ) → HoldsBytes s → Appended s (buffer_word s word) word
unfolding buffer_word
buffer_word-Appended s [] v = record { valid = v; holds = sym (append-nil (contents s)) }
buffer_word-Appended s (byte ∷ word) v =
    let one = buffer_byte-Appended s byte v in
    let rest = buffer_word-Appended (buffer_byte s byte) word one.valid in
    record {
      valid = rest.valid;
      holds =
          rest.holds ∙ ap (λ t. t ++ word) one.holds ∙ append_assoc (contents s) (byte ∷ []) word;
    }

flush_word-contents : (s : Output) → (flush_word s).outfile ≡ contents s
unfolding flush_word
flush_word-contents s = elim (Bool-cases (s.out_index == 0)) [
  | inl e ↦
      let none_left : 0 ≡ s.out_index / 8 = omega (arith, (==_iff s.out_index 0).0 e) in
      rw e (sym (append-nil s.outfile) ∙ ap (λ (n : ℕ). s.outfile ++ take n s.out_buffer) none_left)
  | inr ne ↦ rw ne refl
]

-- `buffer_word` of each word in turn.
pub buffer_words : Output → List (List ℕ) → Output
buffer_words s [] = s
buffer_words s (word ∷ words) = buffer_words (buffer_word s word) words

pub concat : List (List ℕ) → List ℕ
concat [] = []
concat (word ∷ words) = word ++ concat words

buffer_words-Appended :
    (s : Output) (words : List (List ℕ))
    → HoldsBytes s
    → Appended s (buffer_words s words) (concat words)
unfolding buffer_words concat
buffer_words-Appended s [] v = record { valid = v; holds = sym (append-nil (contents s)) }
buffer_words-Appended s (word ∷ words) v =
    let one = buffer_word-Appended s word v in
    let rest = buffer_words-Appended (buffer_word s word) words one.valid in
    record {
      valid = rest.valid;
      holds =
          rest.holds
          ∙ ap (λ t. t ++ concat words) one.holds
          ∙ append_assoc (contents s) word (concat words);
    }

-- When the buffer of 4096 bytes holds whole bytes, any number of calls of `buffer_word`, of any
-- length, followed by `flush_word`, leave in the file what it had, the bytes that were in the buffer,
-- and the words one behind the other.
pub words_written :
    (s : Output) (words : List (List ℕ))
    → HoldsBytes s
    → (flush_word (buffer_words s words)).outfile ≡ contents s ++ concat words
words_written s words v =
    flush_word-contents (buffer_words s words) ∙ (buffer_words-Appended s words v).holds
