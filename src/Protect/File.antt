-- ===== src/Protect/File.antt =====
-- Reading and writing at an offset, on a file that is split there.
use coding_projects.Prelude.{
  ℕ, ◌+◌, List, ◌++◌, ◌≡◌, refl, arith, ap, ◌∙◌, length, take, drop, drop-append, take-append,
}
use coding_projects.Protect.{read_bytes, write_bytes}

pub read_bytes-append :
    (done rest : List ℕ) (n : ℕ) → read_bytes (done ++ rest) (length done) n ≡ take n rest
unfolding read_bytes
read_bytes-append done rest n =
    let e : length done ≡ length done + 0 = omega arith in
    ap (take n) (ap (λ (k : ℕ). drop k (done ++ rest)) e ∙ drop-append done rest 0)

pub read_bytes-append_further :
    (done rest : List ℕ) (k n : ℕ)
    → read_bytes (done ++ rest) (length done + k) n ≡ take n (drop k rest)
unfolding read_bytes
read_bytes-append_further done rest k n = ap (take n) (drop-append done rest k)

pub write_bytes-append :
    (done rest xs : List ℕ)
    → write_bytes (done ++ rest) (length done) xs ≡ done ++ (xs ++ drop (length xs) rest)
unfolding write_bytes
write_bytes-append done rest xs = rw (take-append done rest, drop-append done rest (length xs)) refl
