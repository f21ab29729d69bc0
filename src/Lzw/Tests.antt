-- ===== src/Lzw/Tests.antt =====
-- Runs of the LZW coder's parts and of their theorems.
mod Output
mod Input
use coding_projects.Prelude.{
  List, replicate, bit_xor, ℕ, [], ◌∷◌, ◌+◌, ◌^◌, ◌≤◌, ◌<◌, ◌%◌, some, ◌≡◌, arith, ◌==◌,
  if◌then◌else◌,
}
use coding_projects.Speck.{speck_expand_key_and_encrypt}
use coding_projects.Lzw.KeyedHash.{bytes_word, code_num_to_key, hash, hash_lem}
use coding_projects.Lzw.LinkedList.{
  ListNode, ll_node_create, ll_lookup, ll_add, find, added, lookup_lem, add_lem,
}
use coding_projects.Lzw.HashTable.{HashTable, magic, ht_lookup, ht_add, IsSized, entry}
use coding_projects.Lzw.HashTable.Lookup.{ht_lookup_lem, ht_add_lem}
use coding_projects.Lzw.Util.{log2_64, power, log2_64_lem, power_lem}
use coding_projects.Lzw.BitVector.{
  BitVector, bv_set_bit, bv_clr_bit, bv_get_bit, code_num_to_bv, bv_to_code_num, get_bit-set_bit,
}
use coding_projects.Lzw.BitVector.CodeNum.{code_num_round_trip}

log2_64_lem_example : (r : ℕ) × (log2_64 1000 ≡ some r) × (2 ^ r ≤ 1000) × (1000 < 2 ^ (r + 1))
log2_64_lem_example = log2_64_lem 1000 (omega arith) (omega arith)

power_lem_example : power 3 50 ≡ some (3 ^ 50 % 2 ^ 64)
power_lem_example = power_lem 3 50 (omega arith)

abbrev two_bytes : BitVector
two_bytes = record { vector = 5 ∷ 2 ∷ []; bit_length = 12 }

code_num_round_trip_example : bv_to_code_num (code_num_to_bv 300 9) ≡ 300
code_num_round_trip_example = code_num_round_trip 300 9 (omega arith) (omega arith)

abbrev nodes : List ListNode
nodes = record { code_num = 7; word = 1 ∷ [] } ∷ record { code_num = 9; word = 2 ∷ 3 ∷ [] } ∷ []

abbrev table : HashTable
table = record {
  salt = record { lo = magic; hi = magic };
  table_length = 2;
  head = nodes ∷ [] ∷ [];
}

table-IsSized : IsSized table
table-IsSized = (omega arith, omega arith)

ht_lookup_lem_example :
    ((ht_lookup table 9).0 ≡ entry table 9)
    × ((d : ℕ) → entry (ht_lookup table 9).1 d ≡ entry table d)
    × IsSized (ht_lookup table 9).1
ht_lookup_lem_example = ht_lookup_lem table 9 table-IsSized

ht_add_lem_example :
    ((d : ℕ)
      → entry (ht_add table 300 (4 ∷ []) 1) d
        ≡ added (entry table) 300 (ll_node_create 300 (4 ∷ []) 1) d)
    × IsSized (ht_add table 300 (4 ∷ []) 1)
ht_add_lem_example = ht_add_lem table 300 (4 ∷ []) 1 table-IsSized
