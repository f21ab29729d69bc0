-- ===== src/Lzw/HashTable.antt =====
-- LZW/hash.c: the table of the decoder's entries, one list for each hash value. A table of length 0
-- ends the program at `% ht->length`, which the model does not show: the theorems are about tables
-- with a length.
pub mod Lookup
use coding_projects.Prelude.{
  ℕ, zero, suc, ◌+◌, ◌-◌, ◌%◌, ◌^◌, ◌≤◌, ◌<◌, Option, none, some, List, [], ◌∷◌, ◌≡◌, ◌≢◌, refl,
  sym, ap, ◌∙◌, arith, ◌==◌, ==_iff, ==_refl, ==_of_ne, if◌then◌else◌, length, get_or, set,
  length-set, get_or-set_self, get_or-set_ne, Bool-cases, inl, inr, ◌⊎◌, take, get_or_outside,
}
use native.Mathlib.Decide.{ℕ_discrete}
use native.Mathlib.Nat.{mod-lt}
use coding_projects.Speck.{Block}
use coding_projects.Lzw.KeyedHash.{hash}
use coding_projects.Lzw.LinkedList.{
  ListNode, ll_node_create, ll_lookup, ll_add, find, or_else, lookup_lem, added, add_lem,
}

pub record HashTable : Type 0 where
  pub salt : Block
  pub table_length : ℕ
  pub head : List (List ListNode)

-- `MAGIC` of LZW/io.h.
abbrev pub magic : ℕ
magic = 0xdeadcafe

-- `hash(ht, code_num) % ht->length`.
pub slot : HashTable → ℕ → ℕ
slot ht code_num = hash ht.salt code_num % ht.table_length

-- The list of a code number.
pub chain : HashTable → ℕ → List ListNode
chain ht code_num = get_or ht.head (slot ht code_num) []

pub set_chain : HashTable → ℕ → List ListNode → HashTable
set_chain ht code_num n = record ht { head = set ht.head (slot ht code_num) n }

-- The entry and the table, whose list may have been put in another order.
pub ht_lookup : HashTable → ℕ → Option ListNode × HashTable
ht_lookup ht code_num =
    let found = ll_lookup (chain ht code_num) code_num in (found.0, set_chain ht code_num found.1)

pub ht_add : HashTable → ℕ → List ℕ → ℕ → HashTable
ht_add ht code_num word len = set_chain ht code_num (ll_add (chain ht code_num) code_num word len)

-- There is a slot for every hash value.
abbrev pub IsSized : HashTable → Type 0
IsSized ht = (0 < ht.table_length) × (ht.table_length ≤ length ht.head)

-- The entry of a code number.
pub entry : HashTable → ℕ → Option ListNode
entry ht d = find (chain ht d) d
