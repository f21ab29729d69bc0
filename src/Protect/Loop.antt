-- ===== src/Protect/Loop.antt =====
-- The whole loop: enough fuel makes it end, with every byte from the offset on converted.
use coding_projects.Prelude.{
  ℕ, zero, suc, ◌+◌, ◌-◌, ◌%◌, ◌^◌, ◌≤◌, ◌<◌, some, List, [], ◌++◌, ◌≡◌, ◌⊎◌, refl, sym, subst,
  arith, ap, ◌∙◌, length, take, drop, replicate, append_assoc, append-nil, length-append, ltb,
  ltb→lt, length-drop, length-take, take-append-drop, Bool-cases, inl, inr,
}
use coding_projects.Speck.{Block}
use coding_projects.Ctr.Stream.{crypt, length-crypt, crypt-append}
use coding_projects.Protect.{Run, store, round, crypt_loop}
use coding_projects.Protect.Step.{at, first_word, second_word, round_end, round_short, round_full}
use coding_projects.Prelude.{drop_all, eq_nil_of_length}

module _ (inode : ℕ) (key : Block) where
  -- The loop returns, and its file holds `bytes`.
  pub record Leaves (fuel : ℕ) (s : Run) (bytes : List ℕ) : Type 0 where
    pub final : Run
    pub returns : crypt_loop inode key fuel s ≡ some final
    pub holds : final.bytes ≡ bytes

  loop_next :
      (fuel : ℕ) (s : Run) {s' : Run} {bytes : List ℕ}
      → round inode key s ≡ some s'
      → Leaves fuel s' bytes
      → Leaves (suc fuel) s bytes
  unfolding crypt_loop
  loop_next fuel s e l = record {
    final = l.final;
    returns = rw (e, crypt_loop) l.returns;
    holds = l.holds;
  }

  -- A list of at least 8 bytes is 8 bytes, at most 8 more, and the rest.
  split_twice :
      (rest : List ℕ) → rest ≡ take 8 rest ++ (take 8 (drop 8 rest) ++ drop 8 (drop 8 rest))
  split_twice rest =
      sym (take-append-drop 8 rest)
      ∙ ap (λ t. take 8 rest ++ t) (sym (take-append-drop 8 (drop 8 rest)))

  take_piece : (rest : List ℕ) → take 8 (take 8 rest ++ drop 8 rest) ≡ take 8 rest
  take_piece rest = ap (take 8) (take-append-drop 8 rest)

  joined :
      (done p q r : List ℕ)
      → (done ++ crypt inode key (length done) (p ++ q))
          ++ crypt inode key (length (done ++ crypt inode key (length done) (p ++ q))) r
        ≡ done ++ crypt inode key (length done) (p ++ (q ++ r))
  joined done p q r =
      let offset : length (done ++ crypt inode key (length done) (p ++ q))
          ≡ length done + length (p ++ q) =
        omega (
          arith,
          length-append done (crypt inode key (length done) (p ++ q)),
          length-crypt inode key (length done) (p ++ q),
        ) in
      append_assoc done (crypt inode key (length done) (p ++ q)) _
      ∙ ap (λ (n : ℕ). done ++ (crypt inode key (length done) (p ++ q) ++ crypt inode key n r))
          offset
      ∙ ap (λ t. done ++ t) (sym (crypt-append inode key (length done) (p ++ q) r))
      ∙ ap (λ t. done ++ crypt inode key (length done) t) (append_assoc p q r)

  -- With nothing left the loop stops at its first `read`.
  loop_done :
      (fuel : ℕ) (done rest memory0 memory1 : List ℕ)
      → rest ≡ []
      → Leaves
          (suc fuel)
          (at done rest memory0 memory1)
          (done ++ crypt inode key (length done) rest)
  unfolding crypt_loop crypt
  loop_done fuel done rest memory0 memory1 nothing = rw nothing (record {
    final = at done [] memory0 memory1;
    returns = rw (round_end inode key done memory0 memory1, crypt_loop) refl;
    holds = refl;
  })

  Leaves-eq :
      {fuel : ℕ} {s : Run} {bytes bytes' : List ℕ}
      → bytes ≡ bytes'
      → Leaves fuel s bytes
      → Leaves fuel s bytes'
  Leaves-eq e l = record { final = l.final; returns = l.returns; holds = l.holds ∙ e }

  no_tail : (xs : List ℕ) (i : ℕ) → xs ++ crypt inode key i [] ≡ xs
  unfolding crypt
  no_tail xs i = append-nil xs

  -- What the loop does after a round that reads fewer than 8 bytes.
  after_short :
      (fuel : ℕ) (done rest memory0 memory1 : List ℕ)
      → length done % 16 ≡ 0
      → 0 < length rest
      → length rest < 8
      → length done + length rest < 2 ^ 64
      → Leaves fuel
          (at
            (done ++ crypt inode key (length done) rest)
            []
            (first_word inode key done rest memory0)
            (second_word inode key done (replicate 8 0)))
          ((done ++ crypt inode key (length done) rest)
            ++ crypt inode key (length (done ++ crypt inode key (length done) rest)) [])
      → Leaves
          (suc fuel)
          (at done rest memory0 memory1)
          (done ++ crypt inode key (length done) rest)
  after_short fuel done rest memory0 memory1 aligned some_left short fits l =
      Leaves-eq (no_tail _ _) (
        loop_next fuel _
          (round_short inode key done rest memory0 memory1 aligned some_left short fits) l)

  -- What it does after a round that reads 8 bytes and then those of `q`.
  after_full :
      (fuel : ℕ) (done p q r memory0 memory1 : List ℕ)
      → length done % 16 ≡ 0
      → length p ≡ 8
      → length q ≤ 8
      → take 8 (q ++ r) ≡ q
      → length done + 8 + length q < 2 ^ 64
      → Leaves fuel
          (at
            (done ++ crypt inode key (length done) (p ++ q))
            r
            (first_word inode key done p memory0)
            (second_word inode key done (store q memory1)))
          ((done ++ crypt inode key (length done) (p ++ q))
            ++ crypt inode key (length (done ++ crypt inode key (length done) (p ++ q))) r)
      → Leaves
          (suc fuel)
          (at done (p ++ (q ++ r)) memory0 memory1)
          (done ++ crypt inode key (length done) (p ++ (q ++ r)))
  after_full fuel done p q r memory0 memory1 aligned p_len q_len q_all fits l =
      Leaves-eq (joined done p q r) (
        loop_next fuel _
          (round_full inode key done p q r memory0 memory1 aligned p_len q_len q_all fits) l)

  length-converted :
      (done xs : List ℕ)
      → length (done ++ crypt inode key (length done) xs) ≡ length done + length xs
  length-converted done xs = omega (
    arith,
    length-append done (crypt inode key (length done) xs),
    length-crypt inode key (length done) xs,
  )

  -- After a full round the offset is a multiple of 16, or nothing is left.
  still_aligned :
      (done rest : List ℕ)
      → length done % 16 ≡ 0
      → 8 ≤ length rest
      → (length (done ++ crypt inode key (length done) (take 8 rest ++ take 8 (drop 8 rest))) % 16
          ≡ 0)
        ⊎ (drop 8 (drop 8 rest) ≡ [])
  still_aligned done rest aligned long = elim (Bool-cases (ltb (length rest) 16)) [
    | inl less ↦ inr (drop_all 8 (drop 8 rest) (ground (arith, length-drop 8 rest)))
    | inr more ↦ inl (
        ground (
          arith,
          length-converted done (take 8 rest ++ take 8 (drop 8 rest)),
          length-append (take 8 rest) (take 8 (drop 8 rest)),
          length-take 8 rest,
          length-take 8 (drop 8 rest),
          length-drop 8 rest,
        ))
  ]

  -- The loop at any offset that is a multiple of 16, or at the end of the file.
  pub loop-Leaves :
      (fuel : ℕ) (done rest memory0 memory1 : List ℕ)
      → length rest < fuel
      → (length done % 16 ≡ 0) ⊎ (rest ≡ [])
      → length done + length rest < 2 ^ 64
      → Leaves fuel (at done rest memory0 memory1) (done ++ crypt inode key (length done) rest)
  loop-Leaves zero done rest memory0 memory1 enough aligned fits = absurd (omega arith)
  loop-Leaves (suc fuel) done rest memory0 memory1 enough (inr nothing) fits =
      loop_done fuel done rest memory0 memory1 nothing
  loop-Leaves (suc fuel) done rest memory0 memory1 enough (inl aligned) fits =
      elim (Bool-cases (ltb 0 (length rest))) [
        | inr none_left ↦
            loop_done fuel done rest memory0 memory1 (eq_nil_of_length rest (ground arith))
        | inl some_left ↦ elim (Bool-cases (ltb (length rest) 8)) [
          | inl short ↦
              after_short fuel done rest memory0 memory1 aligned (ltb→lt 0 _ some_left)
                (ltb→lt _ 8 short) fits
                (loop-Leaves fuel (done ++ crypt inode key (length done) rest) []
                  (first_word inode key done rest memory0)
                  (second_word inode key done (replicate 8 0)) (ground arith) (inr refl)
                  (omega (arith, length-converted done rest)))
          | inr long ↦
              let p = take 8 rest in
              let q = take 8 (drop 8 rest) in
              let r = drop 8 (drop 8 rest) in
              let eight : 8 ≤ length rest = ground arith in
              let p_len : length p ≡ 8 = omega (arith, length-take 8 rest) in
              let q_len : length q ≤ 8 = omega (arith, length-take 8 (drop 8 rest)) in
              let r_len : length q + length r ≡ length rest - 8 = omega (
                arith,
                length-take 8 (drop 8 rest),
                length-drop 8 (drop 8 rest),
                length-drop 8 rest,
              ) in
              subst
                (λ t.
                  Leaves (suc fuel) (at done t memory0 memory1)
                    (done ++ crypt inode key (length done) t))
                (sym (split_twice rest))
                (after_full fuel done p q r memory0 memory1 aligned p_len q_len
                  (take_piece (drop 8 rest)) (omega arith)
                  (loop-Leaves fuel (done ++ crypt inode key (length done) (p ++ q)) r
                    (first_word inode key done p memory0)
                    (second_word inode key done (store q memory1)) (omega arith)
                    (still_aligned done rest aligned eight)
                    (omega (arith, length-converted done (p ++ q), length-append p q))))
        ]
      ]
