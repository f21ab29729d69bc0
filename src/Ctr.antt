-- ===== src/Ctr.antt =====
-- Counter mode, as both programs of EncryptedDataStorage use the cipher: the words of a block are
-- memory, 8 bytes each with the lowest first (amd64), and `data[k] ^= value[k]` acts on each byte.
pub mod Stream
pub mod Pieces
use coding_projects.Prelude.{ℕ, zero, suc, ◌*◌, ◌/◌, ◌%◌, ◌^◌, bit_xor, List, [], ◌∷◌, ◌≡◌}

-- The `n` lowest bytes of a word as they lie in memory.
unfoldable pub word_bytes : ℕ → ℕ → List ℕ
word_bytes zero w = []
word_bytes (suc n) w = (w % 256) ∷ word_bytes n (w / 256)

-- `data[k] ^= value`, byte by byte.
unfoldable pub xor_bytes : List ℕ → List ℕ → List ℕ
xor_bytes [] ks = []
xor_bytes (x ∷ xs) [] = x ∷ xs
xor_bytes (x ∷ xs) (k ∷ ks) = bit_xor x k ∷ xor_bytes xs ks
