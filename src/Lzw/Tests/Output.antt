-- ===== src/Lzw/Tests/Output.antt =====
-- Runs of the output buffer's theorems.
use coding_projects.Prelude.{
  ℕ, ◌+◌, ◌-◌, ◌/◌, ◌%◌, ◌<◌, List, [], ◌∷◌, ◌++◌, ◌≡◌, ◌∙◌, refl, ap, arith, set, replicate,
  length-replicate, get_or-replicate,
}
use coding_projects.Bits.{test_bit, test_bit_zero}
use coding_projects.Lzw.BitVector.{BitVector, bv_get_bit}
use coding_projects.Lzw.Output.{Output, HoldsBytes, contents, buffer_code, flush_code, flush_word}
use coding_projects.Lzw.Output.Words.{buffer_words, concat, words_written}
use coding_projects.Lzw.Output.Codes.{out_bit, IsReady, buffer_code_lem, flush_code_loses_last}

abbrev pub zeros : List ℕ
zeros = replicate 4096 0

abbrev pub partial : Output
partial = record { out_buffer = zeros; out_index = 11; outfile = [] }

abbrev full : Output
full = record { out_buffer = zeros; out_index = 32768; outfile = 7 ∷ [] }

abbrev nine_bits : BitVector
nine_bits = record { vector = 44 ∷ 1 ∷ []; bit_length = 9 }

full-HoldsBytes : HoldsBytes full
full-HoldsBytes = record {
  whole = refl;
  fits = omega arith;
  size = length-replicate {A = ℕ} 4096 0;
}

words_written_example :
    (flush_word (buffer_words full ((1 ∷ 2 ∷ []) ∷ [] ∷ (3 ∷ []) ∷ []))).outfile
    ≡ contents full ++ concat ((1 ∷ 2 ∷ []) ∷ [] ∷ (3 ∷ []) ∷ [])
words_written_example = words_written full ((1 ∷ 2 ∷ []) ∷ [] ∷ (3 ∷ []) ∷ []) full-HoldsBytes

pub partial-IsReady : IsReady partial
partial-IsReady = record {
  clear = λ ne q l same.
      unfold out_bit in
      ap (λ (b : ℕ). test_bit b (7 - q % 8)) (get_or-replicate {A = ℕ} 4096 (q / 8) 0)
      ∙ test_bit_zero (7 - q % 8);
  size = length-replicate {A = ℕ} 4096 0;
}

buffer_code_lem_example :
    let s' = buffer_code partial nine_bits in
    (s'.out_index ≡ 11 + 9)
    × ((k : ℕ) → k < 9 → out_bit s' (11 + k) ≡ bv_get_bit nine_bits (9 - 1 - k))
    × ((q : ℕ) → q < 11 → out_bit s' q ≡ out_bit partial q)
    × (s'.outfile ≡ [])
    × IsReady s'
buffer_code_lem_example = buffer_code_lem partial nine_bits partial-IsReady (omega arith)

flush_code_loses_last_example :
    (flush_code (record partial { out_buffer = set zeros 1 255 })).outfile
    ≡ (flush_code partial).outfile
flush_code_loses_last_example = flush_code_loses_last partial 255 (λ e. omega arith)
