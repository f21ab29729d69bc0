-- ===== src/Lzw/Tests/Input.antt =====
-- Runs of the input buffer's theorems.
use coding_projects.Prelude.{◌+◌, some, [], ◌∷◌, ◌≡◌, refl, arith}
use coding_projects.Lzw.BitVector.{BitVector, code_num_to_bv, bv_to_code_num}
use coding_projects.Lzw.Output.{buffer_code}
use coding_projects.Lzw.Input.{Input, next_code}
use coding_projects.Lzw.Input.RoundTrip.{code_through_buffer}
use coding_projects.Lzw.Tests.Output.{partial, partial-IsReady}

abbrev three_bytes : Input
three_bytes = record {
  in_buffer = 200 ∷ 17 ∷ 3 ∷ [];
  in_index = 5;
  total = 3;
  infile = 200 ∷ 17 ∷ 3 ∷ [];
  offset = 3;
}

abbrev written : Input
written = record {
  in_buffer = (buffer_code partial (code_num_to_bv 300 9)).out_buffer;
  in_index = 11;
  total = 4096;
  infile = [];
  offset = 0;
}

code_through_buffer_example :
    (code : BitVector) × (next_code written 9 ≡ (some code, record written { in_index = 11 + 9 }))
    × (bv_to_code_num code ≡ 300)
code_through_buffer_example =
    code_through_buffer partial written 300 9 partial-IsReady (omega arith) (omega arith)
      (omega arith) refl refl (omega arith)
