-- ===== src/CryptoFs/Buffer.antt =====
-- The buffer of one request: converted as a whole, or an access behind its end.
use coding_projects.Prelude.{
  ℕ, zero, suc, ◌+◌, ◌-◌, ◌*◌, ◌/◌, ◌^◌, ◌≤◌, ◌<◌, List, [], ◌++◌, ◌≡◌, inl, inr, refl, arith, ltb,
  length, take, drop, lt→ltb, ltb→lt, Bool-cases, Option-cases,
}
use coding_projects.Speck.{word}
use coding_projects.Ctr.Stream.{crypt}
use coding_projects.CryptoFs.{done, fault, xor_block, key, as_int, crypt_loop, crypt_buffer}
use coding_projects.CryptoFs.Words.{length-xor_block, xor_block_fault}
use coding_projects.CryptoFs.Loop.{value_of, whole_blocks, loop_lem}

module _ (inode : ℕ) where
  -- Memory that ends before the last block makes the loop access what lies behind it.
  pub loop_overflow :
      (fuel leftover counter ctr : ℕ) (memory : List ℕ)
      → leftover < fuel
      → 0 < leftover
      → length memory < 8 * counter + whole_blocks leftover
      → crypt_loop inode fuel leftover counter ctr memory ≡ fault
  unfolding crypt_loop value_of
  loop_overflow zero leftover counter ctr memory enough more small = absurd (omega arith)
  loop_overflow (suc fuel) leftover counter ctr memory enough more small =
      elim (Option-cases (xor_block memory counter (value_of inode ctr))) [
        | inl e ↦ rw (lt→ltb 0 leftover more, e) refl
        | inr (m, e) ↦ elim (Bool-cases (ltb 16 leftover)) [
          | inl again ↦
              rw (lt→ltb 0 leftover more, e)
                (loop_overflow fuel (leftover - 16) (counter + 2) (word (ctr + 1)) m (omega arith)
                  (omega (arith, ltb→lt 16 leftover again))
                  (omega (
                    arith,
                    length-xor_block memory counter (value_of inode ctr) e,
                    ltb→lt 16 leftover again,
                  )))
          | inr last ↦ cc (xor_block_fault memory counter (value_of inode ctr) (ground arith), e)
        ]
      ]

  as_int_small : (n : ℕ) → n < 2 ^ 31 → as_int n ≡ n
  unfolding as_int
  as_int_small n h = ground arith

  -- The buffer of a request, when its whole blocks lie inside the memory.
  pub crypt_buffer_lem :
      (size offset : ℕ) (memory : List ℕ)
      → size < 2 ^ 31
      → offset + size < 2 ^ 64
      → whole_blocks size ≤ length memory
      → crypt_buffer inode size offset memory
        ≡ done (
            crypt inode key (16 * (offset / 16)) (take (whole_blocks size) memory)
            ++ drop (whole_blocks size) memory)
  unfolding crypt_buffer
  crypt_buffer_lem size offset memory small end room =
      let counter : word (offset / 16) ≡ offset / 16 = omega arith in
      rw (as_int_small size small, counter)
        (loop_lem inode (size + 1) size 0 (offset / 16) [] memory (omega arith) refl room
          (omega arith))

  -- For a request of 1 to 2^31 - 1 bytes whose last block of 16 bytes does not fit the memory, the
  -- loop accesses what lies behind it.
  pub crypt_buffer_overflow :
      (size offset : ℕ) (memory : List ℕ)
      → 0 < size
      → size < 2 ^ 31
      → length memory < whole_blocks size
      → crypt_buffer inode size offset memory ≡ fault
  unfolding crypt_buffer
  crypt_buffer_overflow size offset memory more small short =
      rw (as_int_small size small) (
        loop_overflow (size + 1) size 0 (word (offset / 16)) memory (omega arith) more
          (omega arith))
