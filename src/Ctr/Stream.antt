-- ===== src/Ctr/Stream.antt =====
-- What counter mode means, byte by byte: byte `i` of a file is combined with byte `i % 16` of the
-- cipher's output for the counter `i / 16`.
use coding_projects.Prelude.{
  ℕ, suc, ◌+◌, ◌/◌, ◌%◌, ◌^◌, bit_xor, List, [], ◌∷◌, ◌++◌, ◌≡◌, refl, arith, ap, ap₂, ltb,
  if◌then◌else◌, length,
}
use coding_projects.Bits.{bit_xor_undo}
use coding_projects.Speck.{Block, speck_expand_key_and_encrypt}

module _ (inode : ℕ) (key : Block) where
  -- The output block for one counter value.
  unfoldable pub stream_block : ℕ → Block
  stream_block counter = speck_expand_key_and_encrypt (record { lo = inode; hi = counter }) key

  unfoldable pub stream_byte : ℕ → ℕ
  unfolding stream_block
  stream_byte i =
      let v = stream_block (i / 16) in (if ltb (i % 16) 8 then v.lo else v.hi) / 256 ^ (i % 8) % 256

  -- The bytes `xs` that lie at file offset `i`, encrypted or decrypted.
  unfoldable pub crypt : ℕ → List ℕ → List ℕ
  crypt i [] = []
  crypt i (x ∷ xs) = bit_xor x (stream_byte i) ∷ crypt (i + 1) xs

  pub crypt-crypt : (i : ℕ) (xs : List ℕ) → crypt i (crypt i xs) ≡ xs
  unfolding crypt
  crypt-crypt i [] = refl
  crypt-crypt i (x ∷ xs) = ap₂ ◌∷◌ (bit_xor_undo x (stream_byte i)) (crypt-crypt (i + 1) xs)

  pub length-crypt : (i : ℕ) (xs : List ℕ) → length (crypt i xs) ≡ length xs
  unfolding crypt
  length-crypt i [] = refl
  length-crypt i (x ∷ xs) = ap suc (length-crypt (i + 1) xs)

  pub crypt-append :
      (i : ℕ) (xs ys : List ℕ) → crypt i (xs ++ ys) ≡ crypt i xs ++ crypt (i + length xs) ys
  unfolding crypt
  crypt-append i [] ys = let e : i ≡ i + 0 = omega arith in ap (λ (n : ℕ). crypt n ys) e
  crypt-append i (x ∷ xs) ys =
      let e : i + 1 + length xs ≡ i + suc (length xs) = omega arith in
      rw (crypt-append (i + 1) xs ys, e) refl
