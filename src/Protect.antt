-- ===== src/Protect.antt =====
-- EncryptedDataStorage/protectfile.c: encrypts or decrypts one file in place, with the sticky bit as
-- the mark of an encrypted file. The debug prints are left out. The regular file behind `fd` is its
-- bytes and an offset: `read` gives the bytes that are left, at most as many as asked for, `lseek`
-- moves the offset, and `write` replaces bytes; no read or write fails or is cut short. Whether
-- `chmod` and `open` succeed is an input of the run, and so are the memory that `malloc` returns
-- for `data` and libc's `strtoll`. `stat` succeeds.
pub mod File
pub mod Step
pub mod Loop
pub mod Main
mod Tests
use coding_projects.Prelude.{
  ℕ, zero, suc, ◌+◌, ◌-◌, ◌*◌, ◌/◌, ◌%◌, ◌^◌, bit_and, Bool, true, false, not, ◌&&◌, Option, none,
  some, List, [], ◌∷◌, ◌++◌, ltb, leb, ◌==◌, if◌then◌else◌, length, get_or, take, drop, replicate,
}
use coding_projects.Speck.{word, Block, speck_expand_key_and_encrypt}
use coding_projects.Ctr.{word_bytes, xor_bytes}

-- The loop's state: the file and its offset, the two words of `data` as memory, and `total`.
pub record Run : Type 0 where
  pub bytes : List ℕ
  pub offset : ℕ
  pub data0 : List ℕ
  pub data1 : List ℕ
  pub total : ℕ

-- `read(fd, …, n)`: the bytes that it stores.
pub read_bytes : List ℕ → ℕ → ℕ → List ℕ
read_bytes bytes offset n = take n (drop offset bytes)

-- `write(fd, …)` of the bytes `xs`.
pub write_bytes : List ℕ → ℕ → List ℕ → List ℕ
write_bytes bytes offset xs = take offset bytes ++ (xs ++ drop (offset + length xs) bytes)

-- Bytes stored at the start of a buffer; what lies behind them stays.
pub store : List ℕ → List ℕ → List ℕ
store xs buffer = xs ++ drop (length xs) buffer

-- The second `read` of a round: 8 more bytes, or the second word cleared.
pub fill : Run → ℕ → ℕ × List ℕ
fill s count =
    if count == 8
    then (let more = read_bytes s.bytes (s.offset + count) 8 in
        (count + length more, store more s.data1))
    else (count, replicate 8 0)

-- The two forms of the write, at the offset `lseek` has gone back to.
pub write_data : List ℕ → ℕ → ℕ → List ℕ → List ℕ → List ℕ
write_data bytes offset count data0 data1 =
    if ltb count 9
    then write_bytes bytes offset (take count data0)
    else write_bytes (write_bytes bytes offset (take 8 data0)) (offset + 8) (take (count - 8) data1)

module _ (inode : ℕ) (key : Block) where
  -- A round whose first `read` stored the bytes `chunk`, at least one.
  pub advance : Run → List ℕ → Run
  advance s chunk =
      let filled = fill s (length chunk) in
      let value = speck_expand_key_and_encrypt (record { lo = inode; hi = s.total / 16 }) key in
      let new0 = xor_bytes (store chunk s.data0) (word_bytes 8 value.lo) in
      let new1 = xor_bytes filled.1 (word_bytes 8 value.hi) in
      record {
        bytes = write_data s.bytes s.offset filled.0 new0 new1;
        offset = s.offset + filled.0;
        data0 = new0;
        data1 = new1;
        total = word (s.total + filled.0);
      }

  -- One round of the loop; `none` when the first `read` returns 0.
  pub round : Run → Option Run
  round s =
      let chunk = read_bytes s.bytes s.offset 8 in
      if ltb 0 (length chunk) then some (advance s chunk) else none

  -- `while((count = read(fd, &data[0], 8)) > 0)`; `none` means that the fuel ran out.
  pub crypt_loop : ℕ → Run → Option Run
  crypt_loop zero s = none
  crypt_loop (suc fuel) s = elim (round s) [ none ↦ some s | some s' ↦ crypt_loop fuel s' ]

-- How `main` ends.
pub data Exit : Type 0 where
  return_minus_one return_zero exit_one reads_behind_option : Exit

-- The file as the program finds it and leaves it: `st_mode` and its bytes.
pub record FileState : Type 0 where
  pub mode : ℕ
  pub bytes : List ℕ

-- What the system does in one run: whether the first `chmod`, the `open` and the second `chmod`
-- succeed, and the 16 bytes that `malloc` gives for `data`.
pub record System : Type 0 where
  pub chmod_off : Bool
  pub open_file : Bool
  pub chmod_on : Bool
  pub memory0 : List ℕ
  pub memory1 : List ℕ

abbrev pub sticky : ℕ
sticky = 0o1000

-- `chmod`: the 12 permission bits are replaced, the file's type stays.
pub chmod : ℕ → ℕ → ℕ
chmod mode permissions = mode / 4096 * 4096 + permissions

pub is_sticky : ℕ → Bool
is_sticky mode = not (bit_and mode sticky == 0)

-- `main` for the file of i-number `inode`; `none` means that the loop's fuel ran out.
module _ (strtoll : List ℕ → ℕ) (inode : ℕ) where
  -- From the first `chmod` on.
  pub convert : System → ℕ → List ℕ → FileState → Option (Exit × FileState)
  convert sys option inputkey file =
      if not sys.chmod_off
      then some (exit_one, file)
      else let opened = record file { mode = chmod file.mode 0o644 } in
        if not sys.open_file
        then some (return_minus_one, opened)
        else elim (crypt_loop inode (record { lo = 0; hi = strtoll inputkey })
            (length file.bytes + 1)
            (record {
              bytes = file.bytes;
              offset = 0;
              data0 = sys.memory0;
              data1 = sys.memory1;
              total = 0;
            })) [
              | none ↦ none
              | some s ↦
                  let closed = record opened { bytes = s.bytes } in
                  if option == b'e'
                  then (if sys.chmod_on
                      then some (return_zero, record closed { mode = chmod closed.mode 0o1644 })
                      else some (exit_one, closed))
                  else some (return_zero, closed)
            ]

  -- `main`, with the words of the command line behind the program's name, each without the 0 that ends
  -- it. Of an empty option, `option[1]` lies behind the string.
  pub main : System → List (List ℕ) → FileState → Option (Exit × FileState)
  main sys ([] ∷ inputkey ∷ name ∷ more) file = some (reads_behind_option, file)
  main sys ((dash ∷ letters) ∷ inputkey ∷ name ∷ more) file =
      let flag = get_or letters 0 0 in
      if not (flag == b'e') && not (flag == b'd')
      then some (return_minus_one, file)
      else if is_sticky file.mode
      then (if flag == b'e' then some (return_zero, file) else convert sys flag inputkey file)
      else (if flag == b'd' then some (return_zero, file) else convert sys flag inputkey file)
  main sys args file = some (return_minus_one, file)
