-- ===== src/CryptoFs/Loop.antt =====
-- The loop over the buffer: it converts whole blocks of 16 bytes, from the block of the offset on.
use coding_projects.Prelude.{
  ℕ, zero, suc, ◌+◌, ◌-◌, ◌*◌, ◌/◌, ◌^◌, ◌≤◌, ◌<◌, List, ◌++◌, ◌≡◌, refl, sym, subst, arith, ap,
  ◌∙◌, length, take, drop, append_assoc, length-append, length-take, length-drop, take-append-drop,
  lt→ltb, take-append_further, drop-append,
}
use coding_projects.Speck.{Block, word, speck_expand_key_and_encrypt}
use coding_projects.Ctr.{word_bytes, xor_bytes}
use coding_projects.Ctr.Stream.{stream_block, crypt, length-crypt, crypt-append}
use coding_projects.Ctr.Pieces.{stream_word_lo, stream_word_hi, crypt_piece}
use coding_projects.CryptoFs.{done, fault, key, crypt_loop}
use coding_projects.CryptoFs.Words.{xor_block_lem, xor_block_fault}

-- The bytes that the loop converts: the leftover count, up to whole blocks.
abbrev pub whole_blocks : ℕ → ℕ
whole_blocks size = (size + 15) / 16 * 16

module _ (inode : ℕ) where
  unfoldable pub value_of : ℕ → Block
  value_of ctr = speck_expand_key_and_encrypt (record { lo = inode; hi = ctr }) key

  -- One block of the key stream, on the two halves of 16 bytes.
  crypt_block :
      (ctr : ℕ) (p q : List ℕ)
      → length p ≡ 8
      → length q ≡ 8
      → crypt inode key (16 * ctr) (p ++ q)
        ≡ xor_bytes p (word_bytes 8 (value_of ctr).lo)
          ++ xor_bytes q (word_bytes 8 (value_of ctr).hi)
  unfolding value_of stream_block
  crypt_block ctr p q p_len q_len =
      let counter : 16 * ctr / 16 ≡ ctr = omega arith in
      let lo = stream_word_lo inode key (16 * ctr) (omega arith) in
      let hi = stream_word_hi inode key (16 * ctr) (omega arith) in
      crypt-append inode key (16 * ctr) p q
      ∙ rw
          (
            p_len,
            crypt_piece inode key (16 * ctr) p (omega arith) (omega arith),
            crypt_piece inode key (16 * ctr + 8) q (omega arith) (omega arith),
            lo,
            hi,
            counter,
          )
          refl

  -- A round on a full block.
  loop_round :
      (fuel leftover counter ctr : ℕ) (front p q back : List ℕ)
      → 0 < leftover
      → length front ≡ 8 * counter
      → length p ≡ 8
      → length q ≡ 8
      → crypt_loop inode (suc fuel) leftover counter ctr (front ++ (p ++ (q ++ back)))
        ≡ crypt_loop inode fuel
            (leftover - 16)
            (counter + 2)
            (word (ctr + 1))
            (front ++ (crypt inode key (16 * ctr) (p ++ q) ++ back))
  unfolding crypt_loop value_of
  loop_round fuel leftover counter ctr front p q back h at p_len q_len =
      rw
        (
          lt→ltb 0 leftover h,
          xor_block_lem front p q back counter (value_of ctr) at p_len q_len,
          crypt_block ctr p q p_len q_len,
        )
        (ap (λ t. crypt_loop inode fuel (leftover - 16) (counter + 2) (word (ctr + 1)) (front ++ t))
          (sym (append_assoc (xor_bytes p (word_bytes 8 (value_of ctr).lo)) _ back)))

  -- A round whose block does not fit.
  loop_fault :
      (fuel leftover counter ctr : ℕ) (memory : List ℕ)
      → 0 < leftover
      → length memory < 8 * counter + 16
      → crypt_loop inode (suc fuel) leftover counter ctr memory ≡ fault
  unfolding crypt_loop value_of
  loop_fault fuel leftover counter ctr memory h small =
      rw (lt→ltb 0 leftover h, xor_block_fault memory counter (value_of ctr) small) refl

  loop_end :
      (fuel counter ctr : ℕ) (memory : List ℕ)
      → crypt_loop inode (suc fuel) 0 counter ctr memory ≡ done memory
  unfolding crypt_loop
  loop_end fuel counter ctr memory = refl

  -- A round, then the rest of the loop on what lies behind the block.
  after_block :
      (fuel leftover counter ctr n : ℕ) (front p q back : List ℕ)
      → 0 < leftover
      → length front ≡ 8 * counter
      → length p ≡ 8
      → length q ≡ 8
      → ctr + 1 < 2 ^ 64
      → crypt_loop inode fuel
          (leftover - 16)
          (counter + 2)
          (ctr + 1)
          ((front ++ crypt inode key (16 * ctr) (p ++ q)) ++ back)
        ≡ done (
            (front ++ crypt inode key (16 * ctr) (p ++ q))
            ++ (crypt inode key (16 * (ctr + 1)) (take n back) ++ drop n back))
      → crypt_loop inode (suc fuel) leftover counter ctr (front ++ ((p ++ q) ++ back))
        ≡ done (
            front
            ++ (crypt inode key (16 * ctr) (take (16 + n) ((p ++ q) ++ back))
                ++ drop (16 + n) ((p ++ q) ++ back)))
  after_block fuel leftover counter ctr n front p q back h at p_len q_len small rest =
      let C = crypt inode key (16 * ctr) (p ++ q) in
      let both : length (p ++ q) ≡ 16 = omega (arith, length-append p q) in
      let next : word (ctr + 1) ≡ ctr + 1 = omega arith in
      let offset : 16 * ctr + length (p ++ q) ≡ 16 * (ctr + 1) = omega arith in
      let taken : take (16 + n) ((p ++ q) ++ back) ≡ (p ++ q) ++ take n back =
        ap (λ (k : ℕ). take (k + n) ((p ++ q) ++ back)) (sym both)
        ∙ take-append_further n (p ++ q) back in
      let dropped : drop (16 + n) ((p ++ q) ++ back) ≡ drop n back =
        ap (λ (k : ℕ). drop (k + n) ((p ++ q) ++ back)) (sym both) ∙ drop-append (p ++ q) back n in
      let converted : crypt inode key (16 * ctr) ((p ++ q) ++ take n back)
          ≡ C ++ crypt inode key (16 * (ctr + 1)) (take n back) =
        crypt-append inode key (16 * ctr) (p ++ q) (take n back)
        ∙ ap (λ (k : ℕ). C ++ crypt inode key k (take n back)) offset in
      ap (λ t. crypt_loop inode (suc fuel) leftover counter ctr (front ++ t))
        (append_assoc p q back)
      ∙ loop_round fuel leftover counter ctr front p q back h at p_len q_len
      ∙ ap (λ (k : ℕ). crypt_loop inode fuel (leftover - 16) (counter + 2) k (front ++ (C ++ back)))
          next
      ∙ ap (λ t. crypt_loop inode fuel (leftover - 16) (counter + 2) (ctr + 1) t)
          (sym (append_assoc front C back))
      ∙ rest
      ∙ rw (taken, dropped, converted)
          (ap done
            (append_assoc front C _ ∙ ap (λ t. front ++ t) (sym (append_assoc C _ (drop n back)))))

  abbrev Converts : ℕ → ℕ → ℕ → ℕ → ℕ → List ℕ → List ℕ → Type 0
  Converts n fuel leftover counter ctr front todo =
      crypt_loop inode fuel leftover counter ctr (front ++ todo)
      ≡ done (front ++ (crypt inode key (16 * ctr) (take n todo) ++ drop n todo))

  -- Two full words in front of the rest.
  split_block :
      (todo : List ℕ) → todo ≡ (take 8 todo ++ take 8 (drop 8 todo)) ++ drop 8 (drop 8 todo)
  split_block todo =
      sym (take-append-drop 8 todo)
      ∙ ap (λ t. take 8 todo ++ t) (sym (take-append-drop 8 (drop 8 todo)))
      ∙ sym (append_assoc (take 8 todo) (take 8 (drop 8 todo)) (drop 8 (drop 8 todo)))

  pub loop_lem :
      (fuel leftover counter ctr : ℕ) (front todo : List ℕ)
      → leftover < fuel
      → length front ≡ 8 * counter
      → whole_blocks leftover ≤ length todo
      → ctr + leftover < 2 ^ 64
      → Converts (whole_blocks leftover) fuel leftover counter ctr front todo
  unfolding crypt
  loop_lem zero leftover counter ctr front todo enough at room small = absurd (omega arith)
  loop_lem (suc fuel) zero counter ctr front todo enough at room small =
      loop_end fuel counter ctr (front ++ todo)
  loop_lem (suc fuel) (suc leftover) counter ctr front todo enough at room small =
      let p = take 8 todo in
      let q = take 8 (drop 8 todo) in
      let back = drop 8 (drop 8 todo) in
      let left = suc leftover - 16 in
      let blocks : whole_blocks (suc leftover) ≡ 16 + whole_blocks left = omega arith in
      let p_len : length p ≡ 8 = omega (arith, length-take 8 todo) in
      let q_len : length q ≡ 8 = omega (arith, length-take 8 (drop 8 todo), length-drop 8 todo) in
      let back_len : length back ≡ length todo - 16 =
        omega (arith, length-drop 8 (drop 8 todo), length-drop 8 todo) in
      let front' = front ++ crypt inode key (16 * ctr) (p ++ q) in
      let front_len : length front' ≡ 8 * (counter + 2) = omega (
        arith,
        length-append front (crypt inode key (16 * ctr) (p ++ q)),
        length-crypt inode key (16 * ctr) (p ++ q),
        length-append p q,
      ) in
      rw blocks (
        subst (Converts (16 + whole_blocks left) (suc fuel) (suc leftover) counter ctr front)
          (sym (split_block todo))
          (after_block fuel (suc leftover) counter ctr (whole_blocks left) front p q back
            (omega arith) at p_len q_len (omega arith)
            (loop_lem fuel left (counter + 2) (ctr + 1) front' back (omega arith) front_len
              (omega arith) (omega arith))))
