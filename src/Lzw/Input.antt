-- ===== src/Lzw/Input.antt =====
-- The input buffer of LZW/io.c: `next_code`. `read` gives the bytes that are left, at most 4096. The
-- debug prints and the sum that they show are left out.
pub mod Codes
pub mod RoundTrip
use coding_projects.Prelude.{
  ℕ, zero, suc, ◌+◌, ◌-◌, ◌*◌, ◌/◌, ◌%◌, ◌^◌, bit_and, Option, none, some, List, ◌++◌, ◌==◌,
  if◌then◌else◌, length, get_or, take, drop,
}
use coding_projects.Lzw.BitVector.{BitVector, bv_create, bv_set_bit}

-- `in_buffer`, `in_index`, which counts bits, `total`, and the file with the offset in it.
pub record Input : Type 0 where
  pub in_buffer : List ℕ
  pub in_index : ℕ
  pub total : ℕ
  pub infile : List ℕ
  pub offset : ℕ

pub buffer_get_bit : List ℕ → ℕ → ℕ
buffer_get_bit b index =
    let bit = 2 ^ (7 - index % 8) in if bit_and (get_or b (index / 8) 0) bit == 0 then 0 else 1

-- The `read` of the next 4096 bytes.
pub refill : Input → Input
refill s =
    let chunk = take 4096 (drop s.offset s.infile) in
    record s {
      in_buffer = chunk ++ drop (length chunk) s.in_buffer;
      in_index = 0;
      total = length chunk;
      offset = s.offset + length chunk;
    }

-- `if(buffer_get_bit(in_buffer, in_index)) { bv_set_bit(temp, i); }`
pub take_bit : Input → BitVector → ℕ → BitVector
take_bit s temp i = if buffer_get_bit s.in_buffer s.in_index == 0 then temp else bv_set_bit temp i

-- The loop of `next_code` below bit `i`.
pub read_bits : ℕ → BitVector → Input → Option BitVector × Input
read_bits zero temp s = (some temp, s)
read_bits (suc i) temp s =
    let again = refill s in
    let next = read_bits i (take_bit s temp i) (record s { in_index = s.in_index + 1 }) in
    let next_again =
      read_bits i (take_bit again temp i) (record again { in_index = again.in_index + 1 }) in
    if s.in_index == s.total * 8
    then (if again.total == 0 then (none, again) else next_again)
    else next

-- `none` is the null pointer.
pub next_code : Input → ℕ → Option BitVector × Input
next_code s bit_len = read_bits bit_len (bv_create (bit_len % 256)) s
