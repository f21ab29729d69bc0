-- ===== src/Protect/Step.antt =====
-- One round of the loop, at an offset where the file is split into what is done and what is left.
use coding_projects.Prelude.{
  ℕ, ◌+◌, ◌-◌, ◌/◌, ◌%◌, ◌^◌, ◌≤◌, ◌<◌, none, some, List, [], ◌++◌, ◌≡◌, refl, sym, arith, ap, ◌∙◌,
  length, take, drop, replicate, append_assoc, length-append, ltb, lt→ltb, length-drop, Bool-cases,
  inl, inr, ltb→lt,
}
use coding_projects.Speck.{Block, speck_expand_key_and_encrypt}
use coding_projects.Ctr.{word_bytes, xor_bytes}
use coding_projects.Ctr.Stream.{stream_block, crypt, length-crypt, crypt-append}
use coding_projects.Ctr.Pieces.{crypt_piece, take-xor_bytes, stream_word_lo, stream_word_hi}
use coding_projects.Protect.{Run, write_bytes, store, fill, write_data, advance, round}
use coding_projects.Prelude.{
  take-append, take-append_exact, take_all, drop_all, drop-append_self, eq_nil_of_length,
}
use coding_projects.Protect.File.{read_bytes-append, read_bytes-append_further, write_bytes-append}

-- The state when `done` has been converted and `rest` is left.
abbrev pub at : List ℕ → List ℕ → List ℕ → List ℕ → Run
at done rest memory0 memory1 = record {
  bytes = done ++ rest;
  offset = length done;
  data0 = memory0;
  data1 = memory1;
  total = length done;
}

pub length-store :
    (xs buffer : List ℕ) → length xs ≤ length buffer → length (store xs buffer) ≡ length buffer
unfolding store
length-store xs buffer h =
    omega (arith, length-append xs (drop (length xs) buffer), length-drop (length xs) buffer)

pub take-store : (xs buffer : List ℕ) → take (length xs) (store xs buffer) ≡ xs
unfolding store
take-store xs buffer = take-append xs (drop (length xs) buffer)

-- A stored piece, combined with the key stream and cut to its length.
take_combined :
    (xs buffer ks : List ℕ) → take (length xs) (xor_bytes (store xs buffer) ks) ≡ xor_bytes xs ks
take_combined xs buffer ks =
    rw (take-xor_bytes (length xs) (store xs buffer) ks, take-store xs buffer) refl

-- A file is equal to another state of the run field by field.
Run_path :
    (s t : Run)
    → s.bytes ≡ t.bytes
    → s.offset ≡ t.offset
    → s.data0 ≡ t.data0
    → s.data1 ≡ t.data1
    → s.total ≡ t.total
    → s ≡ t
Run_path s t b o d e n =
    λ i. record { bytes = b i; offset = o i; data0 = d i; data1 = e i; total = n i }

-- `count` and the second word: fewer than 8 bytes were stored, or 8 and then those of `q`.
fill_short : (s : Run) (count : ℕ) → count < 8 → fill s count ≡ (count, replicate 8 0)
unfolding fill
fill_short s count h = ground arith

fill_full :
    (done p q r memory0 memory1 : List ℕ)
    → length p ≡ 8
    → take 8 (q ++ r) ≡ q
    → fill (at done (p ++ (q ++ r)) memory0 memory1) 8 ≡ (8 + length q, store q memory1)
unfolding fill
fill_full done p q r memory0 memory1 p_len q_all =
    let rest_after : drop 8 (p ++ (q ++ r)) ≡ q ++ r = rw (← p_len) (drop-append_self p (q ++ r)) in
    rw (read_bytes-append_further done (p ++ (q ++ r)) 8 8, rest_after, q_all) refl

write_short :
    (done rest new0 new1 : List ℕ)
    → length rest < 8
    → write_data (done ++ rest) (length done) (length rest) new0 new1
      ≡ write_bytes (done ++ rest) (length done) (take (length rest) new0)
unfolding write_data
write_short done rest new0 new1 h = rw (lt→ltb (length rest) 9 (omega arith)) refl

-- The first piece put in place, then the second.
write_first :
    (done p tail P : List ℕ)
    → length p ≡ 8
    → length P ≡ 8
    → write_bytes (done ++ (p ++ tail)) (length done) P ≡ done ++ (P ++ tail)
write_first done p tail P p_len P_len =
    let skip : drop (length P) (p ++ tail) ≡ tail =
      ap (λ (n : ℕ). drop n (p ++ tail)) (P_len ∙ sym p_len) ∙ drop-append_self p tail in
    write_bytes-append done (p ++ tail) P ∙ ap (λ t. done ++ (P ++ t)) skip

write_second :
    (done P q r Q : List ℕ)
    → length P ≡ 8
    → length Q ≡ length q
    → write_bytes (done ++ (P ++ (q ++ r))) (length done + 8) Q ≡ done ++ (P ++ (Q ++ r))
write_second done P q r Q P_len Q_len =
    let offset : length done + 8 ≡ length (done ++ P) = omega (arith, length-append done P) in
    let skip : drop (length Q) (q ++ r) ≡ r = rw Q_len (drop-append_self q r) in
    rw (offset, ← append_assoc done P (q ++ r))
      (write_bytes-append (done ++ P) (q ++ r) Q
        ∙ ap (λ t. (done ++ P) ++ (Q ++ t)) skip
        ∙ append_assoc done P (Q ++ r))

-- Both forms of the write put the converted pieces in place.
write_full :
    (done p q r new0 new1 P Q : List ℕ)
    → length p ≡ 8
    → take 8 new0 ≡ P
    → length P ≡ 8
    → take (length q) new1 ≡ Q
    → length Q ≡ length q
    → write_data (done ++ (p ++ (q ++ r))) (length done) (8 + length q) new0 new1
      ≡ done ++ (P ++ (Q ++ r))
unfolding write_data
write_full done p q r new0 new1 P Q p_len P_is P_len Q_is Q_len =
    elim (Bool-cases (ltb (8 + length q) 9)) [
      | inl small ↦
          let none_left : length q ≡ 0 = ground (arith, ltb→lt (8 + length q) 9) in
          let count : 8 + length q ≡ 8 = omega arith in
          let same : q ≡ Q =
            eq_nil_of_length q none_left ∙ sym (eq_nil_of_length Q (Q_len ∙ none_left)) in
          rw (small, count, P_is, ← same) (write_first done p (q ++ r) P p_len P_len)
      | inr large ↦
          let count : 8 + length q - 8 ≡ length q = omega arith in
          rw (large, count, P_is, Q_is, write_first done p (q ++ r) P p_len P_len)
            (write_second done P q r Q P_len Q_len)
    ]

module _ (inode : ℕ) (key : Block) where
  pub round_end :
      (done memory0 memory1 : List ℕ) → round inode key (at done [] memory0 memory1) ≡ none
  unfolding round
  round_end done memory0 memory1 = rw (read_bytes-append done [] 8) refl

  abbrev pub words : ℕ → Block
  words i = speck_expand_key_and_encrypt (record { lo = inode; hi = i / 16 }) key

  abbrev pub first_word : List ℕ → List ℕ → List ℕ → List ℕ
  first_word done chunk memory0 =
      xor_bytes (store chunk memory0) (word_bytes 8 (words (length done)).lo)

  abbrev pub second_word : List ℕ → List ℕ → List ℕ
  second_word done stored = xor_bytes stored (word_bytes 8 (words (length done)).hi)

  -- The pieces of a block, converted.
  piece_lo :
      (done chunk memory0 : List ℕ)
      → length done % 16 ≡ 0
      → length chunk ≤ 8
      → take (length chunk) (first_word done chunk memory0) ≡ crypt inode key (length done) chunk
  unfolding stream_block
  piece_lo done chunk memory0 aligned h =
      take_combined chunk memory0 (word_bytes 8 (words (length done)).lo)
      ∙ ap (λ (w : ℕ). xor_bytes chunk (word_bytes 8 w))
          (sym (stream_word_lo inode key (length done) aligned))
      ∙ sym (crypt_piece inode key (length done) chunk (omega arith) h)

  piece_hi :
      (done q memory1 : List ℕ)
      → length done % 16 ≡ 0
      → length q ≤ 8
      → take (length q) (second_word done (store q memory1)) ≡ crypt inode key (length done + 8) q
  unfolding stream_block
  piece_hi done q memory1 aligned h =
      take_combined q memory1 (word_bytes 8 (words (length done)).hi)
      ∙ ap (λ (w : ℕ). xor_bytes q (word_bytes 8 w))
          (sym (stream_word_hi inode key (length done) aligned))
      ∙ sym (crypt_piece inode key (length done + 8) q (omega arith) h)

  -- Fewer than 8 bytes are left.
  pub round_short :
      (done rest memory0 memory1 : List ℕ)
      → length done % 16 ≡ 0
      → 0 < length rest
      → length rest < 8
      → length done + length rest < 2 ^ 64
      → round inode key (at done rest memory0 memory1)
        ≡ some (
            at
              (done ++ crypt inode key (length done) rest)
              []
              (first_word done rest memory0)
              (second_word done (replicate 8 0)))
  unfolding round advance
  round_short done rest memory0 memory1 aligned some_left short fits =
      rw
        (
          read_bytes-append done rest 8,
          take_all 8 rest (omega arith),
          lt→ltb 0 (length rest) some_left,
          fill_short (at done rest memory0 memory1) (length rest) short,
        )
        (ap some (Run_path _ _ written offset refl refl (omega (arith, offset))))
    where
      converted : List ℕ
      converted = crypt inode key (length done) rest

      nothing_left : drop (length converted) rest ≡ []
      nothing_left =
          drop_all (length converted) rest
            (omega (arith, length-crypt inode key (length done) rest))

      written :
          write_data
            (done ++ rest)
            (length done)
            (length rest)
            (first_word done rest memory0)
            (second_word done (replicate 8 0))
          ≡ (done ++ converted) ++ []
      written =
          write_short done rest (first_word done rest memory0) (second_word done (replicate 8 0))
            short
          ∙ ap (write_bytes (done ++ rest) (length done))
              (piece_lo done rest memory0 aligned (omega arith))
          ∙ write_bytes-append done rest converted
          ∙ ap (λ t. done ++ (converted ++ t)) nothing_left
          ∙ sym (append_assoc done converted [])

      offset : length done + length rest ≡ length (done ++ converted)
      offset =
          omega (arith, length-append done converted, length-crypt inode key (length done) rest)

  -- At least 8 bytes are left: `p`, then what the second `read` finds, `q`, then `r`.
  pub round_full :
      (done p q r memory0 memory1 : List ℕ)
      → length done % 16 ≡ 0
      → length p ≡ 8
      → length q ≤ 8
      → take 8 (q ++ r) ≡ q
      → length done + 8 + length q < 2 ^ 64
      → round inode key (at done (p ++ (q ++ r)) memory0 memory1)
        ≡ some (
            at
              (done ++ crypt inode key (length done) (p ++ q))
              r
              (first_word done p memory0)
              (second_word done (store q memory1)))
  unfolding round advance
  round_full done p q r memory0 memory1 aligned p_len q_len q_all fits =
      rw
        (
          read_bytes-append done (p ++ (q ++ r)) 8,
          take-append_exact 8 p (q ++ r) p_len,
          p_len,
          fill_full done p q r memory0 memory1 p_len q_all,
        )
        (ap some (Run_path _ _ written offset refl refl (omega (arith, offset))))
    where
      first : List ℕ
      first = crypt inode key (length done) p

      second : List ℕ
      second = crypt inode key (length done + 8) q

      joined : crypt inode key (length done) (p ++ q) ≡ first ++ second
      joined =
          crypt-append inode key (length done) p q
          ∙ ap (λ (n : ℕ). first ++ crypt inode key (length done + n) q) p_len

      written :
          write_data
            (done ++ (p ++ (q ++ r)))
            (length done)
            (8 + length q)
            (first_word done p memory0)
            (second_word done (store q memory1))
          ≡ (done ++ crypt inode key (length done) (p ++ q)) ++ r
      written =
          write_full done p q r (first_word done p memory0) (second_word done (store q memory1))
            first second p_len
            (ap (λ (n : ℕ). take n (first_word done p memory0)) (sym p_len)
              ∙ piece_lo done p memory0 aligned (omega arith))
            (length-crypt inode key (length done) p ∙ p_len) (piece_hi done q memory1 aligned q_len)
            (length-crypt inode key (length done + 8) q)
          ∙ ap (λ t. done ++ t) (sym (append_assoc first second r))
          ∙ ap (λ t. done ++ (t ++ r)) (sym joined)
          ∙ sym (append_assoc done (crypt inode key (length done) (p ++ q)) r)

      offset :
          length done + (8 + length q) ≡ length (done ++ crypt inode key (length done) (p ++ q))
      offset = omega (
        arith,
        length-append done (crypt inode key (length done) (p ++ q)),
        length-crypt inode key (length done) (p ++ q),
        length-append p q,
      )
