-- ===== src/Lzw/HashTable/Lookup.antt =====
-- The hash table as a map from code numbers to entries.
use coding_projects.Prelude.{
  ℕ, List, [], ◌≡◌, refl, sym, ap, ◌∙◌, arith, ◌==◌, ==_iff, ==_of_ne, if◌then◌else◌, get_or, set,
  length-set, get_or-set_self, get_or-set_ne, Bool-cases, inl, inr, true,
}
use native.Mathlib.Decide.{ℕ_discrete}
use native.Mathlib.Nat.{mod-lt}
use coding_projects.Lzw.KeyedHash.{hash}
use coding_projects.Lzw.LinkedList.{
  ListNode, ll_node_create, ll_lookup, ll_add, find, lookup_lem, added, add_lem,
}
use coding_projects.Lzw.HashTable.{
  HashTable, slot, chain, set_chain, ht_lookup, ht_add, IsSized, entry,
}

-- A search in the table after one list has been replaced.
entry-set_chain :
    (ht : HashTable) (c d : ℕ) (n : List ListNode)
    → IsSized ht
    → entry (set_chain ht c n) d ≡ (if slot ht c == slot ht d then find n d else entry ht d)
unfolding entry chain set_chain slot
entry-set_chain ht c d n sized =
    let inside = mod-lt (hash ht.salt c) sized.0 in
    elim (ℕ_discrete (slot ht c) (slot ht d)) [
      | yes e ↦
          let hit : (slot ht c == slot ht d) ≡ true = (==_iff (slot ht c) (slot ht d)).1 e in
          ap (λ (i : ℕ). find (get_or (set ht.head (slot ht c) n) i []) d) (sym e)
          ∙ ap (λ t. find t d) (get_or-set_self ht.head (slot ht c) n [] (omega (arith, sized.1)))
          ∙ sym (ap (λ b. if b then find n d else entry ht d) hit)
      | no ne ↦
          ap (λ t. find t d) (get_or-set_ne ht.head (slot ht c) (slot ht d) n [] ne)
          ∙ sym (ap (λ b. if b then find n d else entry ht d) (==_of_ne (slot ht c) (slot ht d) ne))
    ]

find_in_chain :
    (ht : HashTable) (c d : ℕ) → slot ht c ≡ slot ht d → find (chain ht c) d ≡ entry ht d
unfolding entry chain
find_in_chain ht c d e = ap (λ (i : ℕ). find (get_or ht.head i []) d) e

set_chain-IsSized :
    (ht : HashTable) (c : ℕ) (n : List ListNode) → IsSized ht → IsSized (set_chain ht c n)
unfolding set_chain
set_chain-IsSized ht c n sized = (sized.0, omega (arith, sized.1, length-set ht.head (slot ht c) n))

-- On a table with a length, `ht_lookup` gives the entry of the code number, or nothing when there is
-- none, and changes the result of no later lookup.
pub ht_lookup_lem :
    (ht : HashTable) (code_num : ℕ)
    → IsSized ht
    → ((ht_lookup ht code_num).0 ≡ entry ht code_num)
      × ((d : ℕ) → entry (ht_lookup ht code_num).1 d ≡ entry ht d)
      × IsSized (ht_lookup ht code_num).1
unfolding ht_lookup entry
ht_lookup_lem ht c sized =
    let l = lookup_lem (chain ht c) c in
    let n = (ll_lookup (chain ht c) c).1 in
    (
      l.0,
      λ d. entry-set_chain ht c d n sized ∙ elim (ℕ_discrete (slot ht c) (slot ht d)) [
        | yes e ↦ rw ((==_iff (slot ht c) (slot ht d)).1 e) (l.1 d ∙ find_in_chain ht c d e)
        | no ne ↦ rw (==_of_ne (slot ht c) (slot ht d) ne) refl
      ],
      set_chain-IsSized ht c n sized,
    )

-- On a table with a length, after `ht_add` a lookup of the code number gives the entry there was,
-- else the new one, and a lookup of any other gives what it gave before.
pub ht_add_lem :
    (ht : HashTable) (code_num : ℕ) (word : List ℕ) (len : ℕ)
    → IsSized ht
    → ((d : ℕ)
        → entry (ht_add ht code_num word len) d
          ≡ added (entry ht) code_num (ll_node_create code_num word len) d)
      × IsSized (ht_add ht code_num word len)
unfolding ht_add entry
ht_add_lem ht c word len sized =
    let n = ll_add (chain ht c) c word len in
    let node = ll_node_create c word len in
    (
      λ d. entry-set_chain ht c d n sized ∙ elim (ℕ_discrete (slot ht c) (slot ht d)) [
        | yes e ↦
            rw ((==_iff (slot ht c) (slot ht d)).1 e, add_lem (chain ht c) c word len d)
              (elim (Bool-cases (c == d)) [
                | inl same ↦ rw same refl
                | inr other ↦ rw other (find_in_chain ht c d e)
              ])
        | no ne ↦
            rw (==_of_ne (slot ht c) (slot ht d) ne, ==_of_ne c d (λ p. ne (ap (slot ht) p))) refl
      ],
      set_chain-IsSized ht c n sized,
    )
