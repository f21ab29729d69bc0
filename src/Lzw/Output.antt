-- ===== src/Lzw/Output.antt =====
-- The output buffer of LZW/io.c. `write` writes all the bytes that it is given. The debug prints are
-- left out. `out_buffer` has 4096 bytes: where `flush_code` reads the byte behind the last of them, the
-- model writes none.
pub mod Words
pub mod Codes
use coding_projects.Prelude.{
  ℕ, zero, suc, ◌+◌, ◌-◌, ◌*◌, ◌/◌, ◌%◌, ◌^◌, ◌≤◌, ◌<◌, bit_or, List, [], ◌∷◌, ◌++◌, ◌≡◌, refl, sym,
  ap, ◌∙◌, arith, ◌==◌, ==_iff, if◌then◌else◌, length, get_or, set, length-set, take, drop,
  append_assoc, append-nil, Bool-cases, inl, inr,
}
use coding_projects.Lzw.BitVector.{BitVector, bv_get_bit}

-- `out_buffer`, `out_index`, which counts bits, and the bytes written to `outfile`.
pub record Output : Type 0 where
  pub out_buffer : List ℕ
  pub out_index : ℕ
  pub outfile : List ℕ

-- `if(out_index == 4096 * 8) { write(outfile, out_buffer, 4096); out_index = 0; }`
pub write_full : Output → Output
write_full s =
    if s.out_index == 4096 * 8
    then record s { out_index = 0; outfile = s.outfile ++ take 4096 s.out_buffer }
    else s

-- `if(out_index % 8 == 0) { out_buffer[out_index/8] = 0; }`
pub new_byte : Output → Output
new_byte s =
    if s.out_index % 8 == 0
    then record s { out_buffer = set s.out_buffer (s.out_index / 8) 0 }
    else s

-- A bit of a code.
pub buffer_bit : Output → ℕ → Output
buffer_bit s bit =
    let s1 = new_byte (write_full s) in
    let old = get_or s1.out_buffer (s1.out_index / 8) 0 in
    let marked = set s1.out_buffer (s1.out_index / 8) (bit_or old (2 ^ (7 - s1.out_index % 8))) in
    record {
      out_buffer = if bit == 0 then s1.out_buffer else marked;
      out_index = s1.out_index + 1;
      outfile = s1.outfile;
    }

-- The loop of `buffer_code` below bit `i`.
pub buffer_bits : ℕ → BitVector → Output → Output
buffer_bits zero code s = s
buffer_bits (suc i) code s = buffer_bits i code (buffer_bit s (bv_get_bit code i))

pub buffer_code : Output → BitVector → Output
buffer_code s code = buffer_bits code.bit_length code s

pub flush_code : Output → Output
flush_code s =
    let whole = take (s.out_index / 8) s.out_buffer in
    let last = take 1 (drop (s.out_index / 8 + 1) s.out_buffer) in
    if s.out_index == 0 then s else record s {
      out_index = 0;
      outfile = if s.out_index % 8 == 0 then s.outfile ++ whole else (s.outfile ++ whole) ++ last;
    }

-- The body of `buffer_word`'s loop.
pub buffer_byte : Output → ℕ → Output
buffer_byte s byte =
    let s1 = write_full s in
    record s1 {
      out_buffer = set s1.out_buffer (s1.out_index / 8) byte;
      out_index = s1.out_index + 8;
    }

pub buffer_word : Output → List ℕ → Output
buffer_word s [] = s
buffer_word s (byte ∷ word) = buffer_word (buffer_byte s byte) word

pub flush_word : Output → Output
flush_word s =
    let whole = take (s.out_index / 8) s.out_buffer in
    record s { out_index = 0; outfile = if s.out_index == 0 then s.outfile else s.outfile ++ whole }

-- Whole bytes in a buffer of 4096.
pub record HoldsBytes (s : Output) : Type 0 where
  pub whole : s.out_index % 8 ≡ 0
  pub fits : s.out_index ≤ 32768
  pub size : length s.out_buffer ≡ 4096

-- The bytes given to the output so far: those in the file and those in the buffer.
abbrev pub contents : Output → List ℕ
contents s = s.outfile ++ take (s.out_index / 8) s.out_buffer
