-- ===== src/Speck/Injective.antt =====
-- The whole cipher: under one key, it is injective on blocks, and its words fit.
use coding_projects.Prelude.{ℕ, zero, suc, ◌+◌, ◌^◌, ◌<◌, ◌≡◌, refl, sym, arith, ap, ◌∙◌}
use coding_projects.Speck.{round, Rounds, loop_body, rounds, Block, speck_expand_key_and_encrypt}
use coding_projects.Speck.Round.{round-IsPair, round-injective}

pub record Fits (s : Rounds) : Type 0 where
  pub ct1_fits : s.ct1 < 2 ^ 64
  pub ct0_fits : s.ct0 < 2 ^ 64
  pub b_fits : s.b < 2 ^ 64
  pub a_fits : s.a < 2 ^ 64

loop_body-Fits : (i : ℕ) {s : Rounds} → i < 2 ^ 64 → Fits s → Fits (loop_body i s)
unfolding loop_body
loop_body-Fits i {s} h f =
    let c = round-IsPair s.ct1 s.ct0 s.a f.ct0_fits f.a_fits in
    let k = round-IsPair s.b s.a i f.a_fits h in
    record { ct1_fits = c.0; ct0_fits = c.1; b_fits = k.0; a_fits = k.1 }

rounds-Fits : (left i : ℕ) {s : Rounds} → i + left < 2 ^ 64 → Fits s → Fits (rounds left i s)
unfolding rounds
rounds-Fits zero i h f = f
rounds-Fits (suc left) i h f =
    rounds-Fits left (i + 1) (omega arith) (loop_body-Fits i (omega arith) f)

-- The key schedule does not depend on the text.
abbrev SameKey : Rounds → Rounds → Type 0
SameKey s t = (s.b ≡ t.b) × (s.a ≡ t.a)

abbrev SameText : Rounds → Rounds → Type 0
SameText s t = (s.ct1 ≡ t.ct1) × (s.ct0 ≡ t.ct0)

loop_body-SameKey : (i : ℕ) (s t : Rounds) → SameKey s t → SameKey (loop_body i s) (loop_body i t)
unfolding loop_body
loop_body-SameKey i s t k = rw (k.0, k.1) (refl, refl)

loop_body-SameText :
    (i : ℕ) (s t : Rounds)
    → Fits s
    → Fits t
    → SameKey s t
    → SameText (loop_body i s) (loop_body i t)
    → SameText s t
unfolding loop_body
loop_body-SameText i s t f g k e =
    let key : t.a ≡ s.a = sym k.1 in
    round-injective s.ct1 s.ct0 t.ct1 t.ct0 s.a f.ct1_fits f.ct0_fits g.ct1_fits g.ct0_fits
      (e.0 ∙ ap (λ (a : ℕ). (round t.ct1 t.ct0 a).x) key)
      (e.1 ∙ ap (λ (a : ℕ). (round t.ct1 t.ct0 a).y) key)

rounds-SameText :
    (left i : ℕ) (s t : Rounds)
    → i + left < 2 ^ 64
    → Fits s
    → Fits t
    → SameKey s t
    → SameText (rounds left i s) (rounds left i t)
    → SameText s t
unfolding rounds
rounds-SameText zero i s t h f g k e = e
rounds-SameText (suc left) i s t h f g k e =
    let small : i < 2 ^ 64 = omega arith in
    loop_body-SameText i s t f g k (
      rounds-SameText left (i + 1) (loop_body i s) (loop_body i t) (omega arith)
        (loop_body-Fits i small f) (loop_body-Fits i small g) (loop_body-SameKey i s t k) e)

abbrev pub IsBlock : Block → Type 0
IsBlock p = (p.lo < 2 ^ 64) × (p.hi < 2 ^ 64)

abbrev start : Block → Block → Rounds
start pt key = record { ct1 = pt.hi; ct0 = pt.lo; b = key.hi; a = key.lo }

start-Fits : (pt key : Block) → IsBlock pt → IsBlock key → Fits (start pt key)
start-Fits pt key h k = record { ct1_fits = h.1; ct0_fits = h.0; b_fits = k.1; a_fits = k.0 }

-- The ciphertext of a block of two 64-bit words, under a key of two 64-bit words, is a block of two
-- 64-bit words.
pub encrypt-IsBlock :
    (pt key : Block) → IsBlock pt → IsBlock key → IsBlock (speck_expand_key_and_encrypt pt key)
unfolding speck_expand_key_and_encrypt
encrypt-IsBlock pt key h k =
    let f = rounds-Fits 32 0 (omega arith) (start-Fits pt key h k) in (f.ct0_fits, f.ct1_fits)

-- Under one key of two 64-bit words, two blocks of 64-bit words that
-- `speck_expand_key_and_encrypt` takes to the same ciphertext are the same block.
pub encrypt-injective :
    (pt pt' key : Block)
    → IsBlock pt
    → IsBlock pt'
    → IsBlock key
    → speck_expand_key_and_encrypt pt key ≡ speck_expand_key_and_encrypt pt' key
    → pt ≡ pt'
unfolding speck_expand_key_and_encrypt
encrypt-injective pt pt' key h h' k e =
    let same =
      rounds-SameText 32 0 (start pt key) (start pt' key) (omega arith) (start-Fits pt key h k)
        (start-Fits pt' key h' k) (refl, refl)
        (ap (λ (p : Block). p.hi) e, ap (λ (p : Block). p.lo) e) in
    λ i. record { lo = same.1 i; hi = same.0 i }
