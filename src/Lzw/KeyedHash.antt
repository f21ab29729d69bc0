-- ===== src/Lzw/KeyedHash.antt =====
-- `keyed_hash` of LZW/speck.c, and `code_num_to_key` and `hash` of LZW/hash.c. The union `in` is 16
-- bytes of memory, lowest byte first in its words.
use Prim.Native.Nat.{bit_xor-bitwise}
use coding_projects.Prelude.{
  ℕ, zero, suc, ◌+◌, ◌*◌, ◌/◌, ◌%◌, ◌^◌, bit_xor, List, [], ◌∷◌, ◌≡◌, ◌==◌, if◌then◌else◌, length,
  set, take, drop, replicate,
}
use coding_projects.Speck.{Block, speck_expand_key_and_encrypt}

-- A word of memory, lowest byte first.
pub bytes_word : List ℕ → ℕ
bytes_word [] = 0
bytes_word (b ∷ bs) = b + 256 * bytes_word bs

-- The locals of the loop.
pub record Hashing : Type 0 where
  pub accum : ℕ
  pub buffer : List ℕ
  pub count : ℕ

-- `in.ll[0] = 0x0; in.ll[1] = 0x0;`
abbrev pub cleared : List ℕ
cleared = replicate 16 0

-- `speck_expand_key_and_encrypt(in.ll, out, key); accum ^= out[0] ^ out[1];`
pub absorb : Block → ℕ → List ℕ → ℕ
absorb key accum buffer =
    let pt : Block = record { lo = bytes_word (take 8 buffer); hi = bytes_word (drop 8 buffer) } in
    let out = speck_expand_key_and_encrypt pt key in bit_xor accum (bit_xor out.lo out.hi)

-- The body of the loop for the byte `s[i]`.
pub load : Block → Hashing → ℕ → Hashing
load key h byte =
    let loaded = set h.buffer h.count byte in
    let count = h.count + 1 in
    if count % 16 == 0
    then record { accum = absorb key h.accum loaded; buffer = cleared; count = 0 }
    else record { accum = h.accum; buffer = loaded; count = count }

pub load_all : Block → Hashing → List ℕ → Hashing
load_all key h [] = h
load_all key h (byte ∷ s) = load_all key (load key h byte) s

pub keyed_hash : List ℕ → Block → ℕ
keyed_hash s key =
    let h = load_all key (record { accum = 0; buffer = cleared; count = 0 }) s in
    if length s % 16 == 0 then h.accum else absorb key h.accum h.buffer

-- The 8 bytes of a code number, highest first: `temp[i]` for `i` from 0 on.
pub key_bytes : ℕ → ℕ → List ℕ
key_bytes zero code_num = []
key_bytes (suc left) code_num = (code_num / 2 ^ (left * 8) % 256) ∷ key_bytes left code_num

pub code_num_to_key : ℕ → List ℕ
code_num_to_key code_num = key_bytes 8 code_num

-- `hash` of a table whose salt is given.
pub hash : Block → ℕ → ℕ
hash salt key = keyed_hash (code_num_to_key key) salt

zero-bit_xor : (b : ℕ) → bit_xor 0 b ≡ b
zero-bit_xor b = bit_xor-bitwise 0 b

-- The hash of a code number is one block: the number's bytes, highest first, padded with zeros; the
-- two words of its ciphertext are combined by exclusive or.
pub hash_lem :
    (salt : Block) (key : ℕ)
    → let out =
        speck_expand_key_and_encrypt
          (record { lo = bytes_word (code_num_to_key key); hi = 0 })
          salt in
      hash salt key ≡ bit_xor out.lo out.hi
unfolding hash keyed_hash load_all load absorb code_num_to_key key_bytes bytes_word
hash_lem salt key = zero-bit_xor _
