-- ===== src/Ctr/Pieces.antt =====
-- A piece of a file that starts at a multiple of 8 and is at most 8 bytes long meets one word of
-- the key stream.
use native.Mathlib.Nat.{pow-suc, div-div-eq-div-mul, mul_comm, div-one}
use coding_projects.Prelude.{
  ℕ, zero, suc, ◌+◌, ◌/◌, ◌%◌, ◌^◌, ◌≤◌, ◌<◌, bit_xor, List, [], ◌∷◌, ◌≡◌, refl, sym, arith, ap,
  ap₂, ltb, if◌then◌else◌, length, get_or, ◌∙◌, take,
}
use coding_projects.Speck.{Block}
use coding_projects.Ctr.{word_bytes, xor_bytes}
use coding_projects.Ctr.Stream.{stream_block, stream_byte, crypt}

pub length-word_bytes : (n w : ℕ) → length (word_bytes n w) ≡ n
unfolding word_bytes
length-word_bytes zero w = refl
length-word_bytes (suc n) w = ap suc (length-word_bytes n (w / 256))

get_or-word_bytes : (n w j : ℕ) → j < n → get_or (word_bytes n w) j 0 ≡ w / 256 ^ j % 256
unfolding word_bytes
get_or-word_bytes zero w j h = absurd (omega arith)
get_or-word_bytes (suc n) w zero h = rw div-one
get_or-word_bytes (suc n) w (suc j) h = rw (
  get_or-word_bytes n (w / 256) j (omega arith),
  div-div-eq-div-mul,
  pow-suc,
  mul_comm (256 ^ j) 256,
)

pub length-xor_bytes : (xs ks : List ℕ) → length (xor_bytes xs ks) ≡ length xs
unfolding xor_bytes
length-xor_bytes [] ks = refl
length-xor_bytes (x ∷ xs) [] = refl
length-xor_bytes (x ∷ xs) (k ∷ ks) = ap suc (length-xor_bytes xs ks)

pub take-xor_bytes : (n : ℕ) (xs ks : List ℕ) → take n (xor_bytes xs ks) ≡ xor_bytes (take n xs) ks
unfolding xor_bytes
take-xor_bytes zero xs ks = refl
take-xor_bytes (suc n) [] ks = refl
take-xor_bytes (suc n) (x ∷ xs) [] = refl
take-xor_bytes (suc n) (x ∷ xs) (k ∷ ks) = ap (λ t. bit_xor x k ∷ t) (take-xor_bytes n xs ks)

module _ (inode : ℕ) (key : Block) where
  crypt-xor_bytes :
      (i : ℕ) (xs ks : List ℕ)
      → length xs ≤ length ks
      → ((j : ℕ) → j < length xs → stream_byte inode key (i + j) ≡ get_or ks j 0)
      → crypt inode key i xs ≡ xor_bytes xs ks
  unfolding crypt xor_bytes
  crypt-xor_bytes i [] ks h same = refl
  crypt-xor_bytes i (x ∷ xs) [] h same = absurd (omega arith)
  crypt-xor_bytes i (x ∷ xs) (k ∷ ks) h same =
      let e : i + 0 ≡ i = omega arith in
      let first : stream_byte inode key i ≡ k = rw e at (same 0 (omega arith)) in
      ap₂ ◌∷◌ (ap (bit_xor x) first) (
        crypt-xor_bytes (i + 1) xs ks (omega arith)
          (λ j l. ap (stream_byte inode key) (omega arith) ∙ same (suc j) (omega arith)))

  -- The word of the key stream at offset `i`.
  pub stream_word : ℕ → ℕ
  stream_word i = let v = stream_block inode key (i / 16) in if ltb (i % 16) 8 then v.lo else v.hi

  stream_byte-word :
      (i j : ℕ) → i % 8 ≡ 0 → j < 8 → stream_byte inode key (i + j) ≡ stream_word i / 256 ^ j % 256
  unfolding stream_byte stream_word
  stream_byte-word i j h l =
      let block : (i + j) / 16 ≡ i / 16 = omega arith in
      let digit : (i + j) % 8 ≡ j = omega arith in
      let side : ltb ((i + j) % 16) 8 ≡ ltb (i % 16) 8 = ground arith in rw (block, digit, side)

  pub crypt_piece :
      (i : ℕ) (xs : List ℕ)
      → i % 8 ≡ 0
      → length xs ≤ 8
      → crypt inode key i xs ≡ xor_bytes xs (word_bytes 8 (stream_word i))
  crypt_piece i xs h l =
      crypt-xor_bytes i xs (word_bytes 8 (stream_word i)) (rw length-word_bytes l) (λ j below.
        stream_byte-word i j h (omega arith)
        ∙ sym (get_or-word_bytes 8 (stream_word i) j (omega arith)))

  -- At a multiple of 16 the two words of the block are `value[0]` and `value[1]`.
  pub stream_word_lo : (i : ℕ) → i % 16 ≡ 0 → stream_word i ≡ (stream_block inode key (i / 16)).lo
  unfolding stream_word
  stream_word_lo i h = rw h refl

  pub stream_word_hi :
      (i : ℕ) → i % 16 ≡ 0 → stream_word (i + 8) ≡ (stream_block inode key (i / 16)).hi
  unfolding stream_word
  stream_word_hi i h =
      let block : (i + 8) / 16 ≡ i / 16 = omega arith in
      let digit : (i + 8) % 16 ≡ 8 = omega arith in rw (block, digit) refl
