-- ===== src/Speck/Tests.antt =====
-- The published test vector of SPECK 128/128, and runs of the cipher's theorems.
use coding_projects.Prelude.{◌≡◌, refl, arith}
use coding_projects.Speck.{Block, block, speck_expand_key_and_encrypt}
use coding_projects.Speck.Injective.{IsBlock, encrypt-injective}

abbrev vector_text : Block
vector_text = block 0x7469206564616d20 0x6c61766975716520

abbrev vector_key : Block
vector_key = block 0x0706050403020100 0x0f0e0d0c0b0a0908

test_vector :
    speck_expand_key_and_encrypt vector_text vector_key
    ≡ block 0x7860fedf5c570d18 0xa65d985179783265
unfolding speck_expand_key_and_encrypt
test_vector = refl

text-IsBlock : IsBlock vector_text
text-IsBlock = (omega arith, omega arith)

key-IsBlock : IsBlock vector_key
key-IsBlock = (omega arith, omega arith)

encrypt-injective_example : vector_text ≡ vector_text
encrypt-injective_example =
    encrypt-injective vector_text vector_text vector_key text-IsBlock text-IsBlock key-IsBlock refl
