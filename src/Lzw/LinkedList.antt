-- ===== src/Lzw/LinkedList.antt =====
-- LZW/ll.c: the lists of entries. The nodes that `next` links are a list from the head on.
use coding_projects.Prelude.{
  ℕ, Option, none, some, List, [], ◌∷◌, ◌++◌, ◌≡◌, refl, ap, ◌∙◌, ◌==◌, ==_iff, sym, if◌then◌else◌,
  Bool-cases, inl, inr, take, append_assoc, append-nil, Option-cases,
}

pub record ListNode : Type 0 where
  pub code_num : ℕ
  pub word : List ℕ

-- `memcpy` of `len` bytes of the word.
unfoldable pub ll_node_create : ℕ → List ℕ → ℕ → ListNode
ll_node_create code_num word len = record { code_num = code_num; word = take len word }

-- The loop of `ll_lookup`, with the nodes that `prev` has passed: the node, and the list with it in
-- front.
pub lookup_loop : List ListNode → List ListNode → ℕ → Option ListNode × List ListNode
lookup_loop passed [] code_num = (none, passed)
lookup_loop passed (curr ∷ rest) code_num =
    if curr.code_num == code_num
    then (some curr, curr ∷ (passed ++ rest))
    else lookup_loop (passed ++ (curr ∷ [])) rest code_num

pub ll_lookup : List ListNode → ℕ → Option ListNode × List ListNode
ll_lookup n code_num = lookup_loop [] n code_num

-- The list that `ll_add` returns: `*n` after a lookup that succeeds, else a new node before it.
head_after : Option ListNode → List ListNode → ListNode → List ListNode
head_after (some node) n new_head = n
head_after none n new_head = new_head ∷ n

pub ll_add : List ListNode → ℕ → List ℕ → ℕ → List ListNode
ll_add n code_num word len =
    let found = ll_lookup n code_num in
    head_after found.0 found.1 (ll_node_create code_num word len)

-- The first node of a code number, without a change to the list.
unfoldable pub find : List ListNode → ℕ → Option ListNode
find [] code_num = none
find (node ∷ rest) code_num = if node.code_num == code_num then some node else find rest code_num

-- A search through two lists in turn.
unfoldable pub or_else : Option ListNode → Option ListNode → Option ListNode
or_else none o = o
or_else (some node) o = some node

find-append : (xs ys : List ListNode) (c : ℕ) → find (xs ++ ys) c ≡ or_else (find xs c) (find ys c)
unfolding find or_else
find-append [] ys c = refl
find-append (x ∷ xs) ys c = elim (Bool-cases (x.code_num == c)) [
  | inl e ↦ rw e refl
  | inr e ↦ rw e (find-append xs ys c)
]

-- What `lookup_loop` comes to, when none of the nodes passed has the code number.
record Looked (passed rest : List ListNode) (c : ℕ) (out : Option ListNode × List ListNode)
    : Type 0 where
  result : out.0 ≡ find rest c
  same : (d : ℕ) → find out.1 d ≡ find (passed ++ rest) d

moved_in_front :
    (passed rest : List ListNode) (curr : ListNode) (d : ℕ)
    → find passed curr.code_num ≡ none
    → find (curr ∷ (passed ++ rest)) d ≡ find (passed ++ (curr ∷ rest)) d
unfolding find or_else
moved_in_front passed rest curr d fresh = sym (
    find-append passed (curr ∷ rest) d ∙ elim (Bool-cases (curr.code_num == d)) [
      | inl e ↦
          let at : find passed d ≡ none =
            ap (find passed) (sym ((==_iff curr.code_num d).0 e)) ∙ fresh in
          rw (at, e) refl
      | inr ne ↦ rw ne (sym (find-append passed rest d))
    ])

lookup_loop-Looked :
    (passed rest : List ListNode) (c : ℕ)
    → find passed c ≡ none
    → Looked passed rest c (lookup_loop passed rest c)
unfolding lookup_loop find or_else
lookup_loop-Looked passed [] c fresh = record {
  result = refl;
  same = λ d. ap (λ t. find t d) (sym (append-nil passed));
}
lookup_loop-Looked passed (curr ∷ rest) c fresh = elim (Bool-cases (curr.code_num == c)) [
  | inl e ↦
      let at : curr.code_num ≡ c = (==_iff curr.code_num c).0 e in
      rw e (record {
        result = rw e refl;
        same = λ d. moved_in_front passed rest curr d (ap (find passed) at ∙ fresh);
      })
  | inr ne ↦
      let still : find (passed ++ (curr ∷ [])) c ≡ none =
        find-append passed (curr ∷ []) c ∙ rw (fresh, ne) refl in
      let l = lookup_loop-Looked (passed ++ (curr ∷ [])) rest c still in
      rw ne (record {
        result = l.result ∙ rw ne refl;
        same = λ d. l.same d ∙ ap (λ t. find t d) (append_assoc passed (curr ∷ []) rest);
      })
]

-- `ll_lookup` gives the first node with the code number, or nothing when there is none, and moving
-- it to the front changes the result of no later search.
pub lookup_lem :
    (n : List ListNode) (code_num : ℕ)
    → ((ll_lookup n code_num).0 ≡ find n code_num)
      × ((d : ℕ) → find (ll_lookup n code_num).1 d ≡ find n d)
unfolding ll_lookup
lookup_lem n code_num =
    let l = lookup_loop-Looked [] n code_num (unfold find in refl) in (l.result, l.same)

-- The entry that a code number has, after one for `c` has been added unless there was one.
abbrev pub added : (ℕ → Option ListNode) → ℕ → ListNode → ℕ → Option ListNode
added before c node d = if c == d then or_else (before c) (some node) else before d

add_of_found :
    (n : List ListNode) (c : ℕ) (word : List ℕ) (len : ℕ) (node : ListNode)
    → find n c ≡ some node
    → ll_add n c word len ≡ (ll_lookup n c).1
unfolding ll_add head_after
add_of_found n c word len node there =
    ap (λ o. head_after o (ll_lookup n c).1 (ll_node_create c word len))
      ((lookup_lem n c).0 ∙ there)

add_of_missing :
    (n : List ListNode) (c : ℕ) (word : List ℕ) (len : ℕ)
    → find n c ≡ none
    → ll_add n c word len ≡ ll_node_create c word len ∷ (ll_lookup n c).1
unfolding ll_add head_after
add_of_missing n c word len nothing =
    ap (λ o. head_after o (ll_lookup n c).1 (ll_node_create c word len))
      ((lookup_lem n c).0 ∙ nothing)

-- After `ll_add`, a search for the code number gives the node there was, else the new one, and a
-- search for any other code number gives what it gave before.
pub add_lem :
    (n : List ListNode) (code_num : ℕ) (word : List ℕ) (len d : ℕ)
    → find (ll_add n code_num word len) d
      ≡ added (find n) code_num (ll_node_create code_num word len) d
unfolding or_else find ll_node_create
add_lem n c word len d =
    let l = lookup_lem n c in
    elim (Option-cases (find n c)) [
      | inl nothing ↦
          rw (add_of_missing n c word len nothing)
            (elim (Bool-cases (c == d)) [ inl e ↦ rw (nothing, e) refl | inr ne ↦ rw ne (l.1 d) ])
      | inr (node, there) ↦ rw (add_of_found n c word len node there) (
          l.1 d ∙ elim (Bool-cases (c == d)) [
            | inl e ↦
                let at : d ≡ c = sym ((==_iff c d).0 e) in rw (there, e) (ap (find n) at ∙ there)
            | inr ne ↦ rw ne refl
          ])
    ]
