-- ===== src/CryptoFs.antt =====
-- `xmp_read` and `xmp_write` of EncryptedDataStorage/cryptoFS.c, the two FUSE operations that the
-- program adds encryption to. A file is its mode and its bytes; `pread` and `pwrite` move as many
-- bytes as there are. Whether `open`, `pread` and `pwrite` fail, and with which `errno`, is an input;
-- `stat` succeeds. The caller's buffer is memory of a fixed size, and an access behind its end is a
-- fault.
pub mod Words
pub mod Loop
pub mod Buffer
pub mod Ops
mod Tests
use coding_projects.Prelude.{
  ℕ, zero, suc, ◌+◌, ◌-◌, ◌*◌, ◌/◌, ◌%◌, ◌^◌, bit_and, Bool, true, false, not, Option, none, some,
  List, [], ◌∷◌, ◌++◌, ltb, leb, ◌==◌, if◌then◌else◌, length, take, drop, replicate,
}
use coding_projects.Speck.{word, Block, speck_expand_key_and_encrypt}
use coding_projects.Ctr.{word_bytes, xor_bytes}

-- What the loop over the buffer comes to.
pub data Outcome : Type 0 where
  done : List ℕ → Outcome
  fault out_of_fuel : Outcome

-- `data[k] ^= value` on the 8 bytes at `at`.
pub xor_word : List ℕ → ℕ → ℕ → Option (List ℕ)
xor_word memory at value =
    if leb (at + 8) (length memory)
    then some (
        take at memory
        ++ (xor_bytes (take 8 (drop at memory)) (word_bytes 8 value) ++ drop (at + 8) memory))
    else none

-- `data[0 + counter] ^= value[0]; data[1 + counter] ^= value[1]`.
pub xor_block : List ℕ → ℕ → Block → Option (List ℕ)
xor_block memory counter value = elim (xor_word memory (8 * counter) value.lo) [
  | none ↦ none
  | some m ↦ xor_word m (8 * (1 + counter)) value.hi
]

-- `key`, from the text "d34db00f" in base 16.
abbrev pub key : Block
key = record { lo = 0; hi = 0xd34db00f }

-- A `size_t` assigned to the `int leftover`; a negative result enters no round, like 0.
pub as_int : ℕ → ℕ
as_int n = let low = n % 2 ^ 32 in if ltb low (2 ^ 31) then low else 0

module _ (inode : ℕ) where
  -- `while(leftover > 0)`. `counter` counts words of 8 bytes, `ctr` is `ctr_inode[1]`.
  pub crypt_loop : ℕ → ℕ → ℕ → ℕ → List ℕ → Outcome
  crypt_loop zero leftover counter ctr memory = out_of_fuel
  crypt_loop (suc fuel) leftover counter ctr memory =
      let value = speck_expand_key_and_encrypt (record { lo = inode; hi = ctr }) key in
      let next : Outcome = elim (xor_block memory counter value) [
        | none ↦ fault
        | some m ↦ crypt_loop fuel (leftover - 16) (counter + 2) (word (ctr + 1)) m
      ] in
      if ltb 0 leftover then next else done memory

  -- The loop with its first values, and a round for each 16 bytes.
  pub crypt_buffer : ℕ → ℕ → List ℕ → Outcome
  crypt_buffer size offset memory =
      crypt_loop (as_int size + 1) (as_int size) 0 (word (offset / 16)) memory

-- The file that `path` names, and what the system calls on it come to.
pub record FileNode : Type 0 where
  pub inode : ℕ
  pub mode : ℕ
  pub bytes : List ℕ
  pub open_errno : Option ℕ
  pub io_errno : Option ℕ

-- The value returned: `-errno`, or a count of bytes.
pub data Reply : Type 0 where
  failed : ℕ → Reply
  count : ℕ → Reply
  crashed unfinished : Reply

abbrev pub sticky : ℕ
sticky = 0o1000

pub is_sticky : ℕ → Bool
is_sticky mode = not (bit_and mode sticky == 0)

-- The last step of `xmp_read`: the reply and the caller's buffer.
deliver : ℕ → List ℕ → Outcome → Reply × List ℕ
deliver res memory (done m) = (count res, m)
deliver res memory fault = (crashed, memory)
deliver res memory out_of_fuel = (unfinished, memory)

-- `open`, then `pread` or `pwrite`: the first that fails ends the operation with its `errno`.
unfoldable pub attempt : {A : Type 0} → Option ℕ → Option ℕ → (ℕ → A) → A → A
attempt (some e) io fails succeeds = fails e
attempt none (some e) fails succeeds = fails e
attempt none none fails succeeds = succeeds

pub xmp_read : FileNode → List ℕ → ℕ → ℕ → Reply × List ℕ
xmp_read file buf size offset =
    let chunk = take size (drop offset file.bytes) in
    let res = length chunk in
    let filled = chunk ++ drop res buf in
    attempt file.open_errno file.io_errno (λ e. (failed e, buf))
      (if is_sticky file.mode
        then deliver res filled (crypt_buffer file.inode res offset filled)
        else (count res, filled))

-- `pwrite`: the bytes from `offset` on are replaced, and a gap behind the end is filled with zeros. A
-- request of no bytes changes nothing.
pub pwrite : List ℕ → ℕ → List ℕ → List ℕ
pwrite bytes offset [] = bytes
pwrite bytes offset (x ∷ xs) =
    (take offset bytes ++ replicate (offset - length bytes) 0)
    ++ ((x ∷ xs) ++ drop (offset + length (x ∷ xs)) bytes)

-- `open` and `pwrite`, with the buffer as the loop has left it.
put : FileNode → List ℕ → ℕ → ℕ → Reply × FileNode × List ℕ
put file buf size offset =
    attempt file.open_errno file.io_errno (λ e. (failed e, file, buf))
      (count size, record file { bytes = pwrite file.bytes offset (take size buf) }, buf)

store_result : FileNode → List ℕ → ℕ → ℕ → Outcome → Reply × FileNode × List ℕ
store_result file buf size offset (done m) = put file m size offset
store_result file buf size offset fault = (crashed, file, buf)
store_result file buf size offset out_of_fuel = (unfinished, file, buf)

-- The reply, the file, and the caller's buffer, which is encrypted in place.
pub xmp_write : FileNode → List ℕ → ℕ → ℕ → Reply × FileNode × List ℕ
xmp_write file buf size offset =
    if is_sticky file.mode
    then store_result file buf size offset (crypt_buffer file.inode size offset buf)
    else put file buf size offset
