-- ===== src/Speck.antt =====
-- The SPECK 128/128 block cipher of LZW/speck.c. EncryptedDataStorage/protectfile.c (l. 25-43) and
-- EncryptedDataStorage/cryptoFS.c hold the same macros and the same function under the name
-- Speck128ExpandKeyAndEncrypt, and the modules about them use this one.
pub mod Round
pub mod Injective
mod Tests
use coding_projects.Prelude.{ℕ, zero, suc, ◌+◌, ◌-◌, ◌*◌, ◌/◌, ◌%◌, ◌^◌, bit_or, bit_xor}

-- `uint64_t`.
abbrev pub word : ℕ → ℕ
word x = x % 2 ^ 64

-- Left circular shift; `X << K` drops what leaves the word.
pub lcs : ℕ → ℕ → ℕ
lcs x k = bit_or (word (x * 2 ^ k)) (x / 2 ^ (64 - k))

-- Right circular shift.
pub rcs : ℕ → ℕ → ℕ
rcs x k = bit_or (x / 2 ^ k) (word (x * 2 ^ (64 - k)))

-- The pair of words that the macro `R` updates.
pub record Pair : Type 0 where
  pub x : ℕ
  pub y : ℕ

-- The macro `R`: its five assignments in order.
pub round : ℕ → ℕ → ℕ → Pair
round x y k =
    let x1 = rcs x 8 in
    let x2 = word (x1 + y) in
    let x3 = bit_xor x2 k in let y1 = lcs y 3 in let y2 = bit_xor y1 x3 in record { x = x3; y = y2 }

-- The locals of the loop: `ct[1]`, `ct[0]` and the key schedule's `B`, `A`.
pub record Rounds : Type 0 where
  pub ct1 : ℕ
  pub ct0 : ℕ
  pub b : ℕ
  pub a : ℕ

-- `R(ct[1], ct[0], A); R(B, A, i)`.
pub loop_body : ℕ → Rounds → Rounds
loop_body i s =
    let c = round s.ct1 s.ct0 s.a in
    let k = round s.b s.a i in record { ct1 = c.x; ct0 = c.y; b = k.x; a = k.y }

-- The loop at round `i`, with the rounds left as first argument.
pub rounds : ℕ → ℕ → Rounds → Rounds
rounds zero i s = s
rounds (suc left) i s = rounds left (i + 1) (loop_body i s)

-- A 16-byte block: `ll[0]` and `ll[1]` of the callers' arrays.
pub record Block : Type 0 where
  pub lo : ℕ
  pub hi : ℕ

abbrev block : ℕ → ℕ → Block
block lo hi = record { lo = lo; hi = hi }

unfoldable pub speck_expand_key_and_encrypt : Block → Block → Block
unfolding rounds loop_body round lcs rcs
speck_expand_key_and_encrypt pt key =
    let s = rounds 32 0 (record { ct1 = pt.hi; ct0 = pt.lo; b = key.hi; a = key.lo }) in
    record { lo = s.ct0; hi = s.ct1 }
