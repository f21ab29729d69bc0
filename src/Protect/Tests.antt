-- ===== src/Protect/Tests.antt =====
-- Runs of protectfile on a 20-byte file, and the theorems at that file.
use coding_projects.Prelude.{ℕ, true, false, some, List, [], ◌∷◌, ◌≡◌, refl, arith, replicate}
use coding_projects.Protect.{
  return_minus_one, return_zero, FileState, System, chmod, is_sticky, main,
}
use coding_projects.Protect.Main.{
  converted, main_encrypts, main_decrypts, decrypt_undoes_encrypt, failed_open_unmarks,
}

abbrev works : System
works = record {
  chmod_off = true;
  open_file = true;
  chmod_on = true;
  memory0 = replicate 8 0;
  memory1 = replicate 8 9;
}

abbrev closed : System
closed = record works { open_file = false }

abbrev key_word : List ℕ → ℕ
key_word text = 0xdeadd00d

abbrev plain : FileState
plain = record {
  mode = 0o100755;
  bytes =
      72 ∷ 101 ∷ 108 ∷ 108 ∷ 111 ∷ 32 ∷ 119 ∷ 111 ∷ 114 ∷ 108 ∷ 100 ∷ 1 ∷ 2 ∷ 3 ∷ 4 ∷ 5 ∷ 6 ∷ 7 ∷ 8
      ∷ 9 ∷ [];
}

abbrev marked : FileState
marked = record plain { mode = 0o101644 }

abbrev dash_e : List ℕ
dash_e = b'-' ∷ b'e' ∷ []

abbrev dash_d : List ℕ
dash_d = b'-' ∷ b'd' ∷ []

abbrev dash_x : List ℕ
dash_x = b'-' ∷ b'x' ∷ []

abbrev text : List ℕ
text = b'd' ∷ b'0' ∷ []

plain-sticky : is_sticky 0o100755 ≡ false
unfolding is_sticky
plain-sticky = refl

marked-sticky : is_sticky 0o101644 ≡ true
unfolding is_sticky
marked-sticky = refl

main_encrypts_example :
    main key_word 7 works (dash_e ∷ text ∷ text ∷ []) plain
    ≡ some (
      return_zero,
      record {
        mode = chmod (chmod 0o100755 0o644) 0o1644;
        bytes = converted key_word 7 text plain.bytes;
      },
    )
main_encrypts_example =
    main_encrypts key_word 7 works dash_e text text [] plain (refl, refl, refl) (omega arith) refl
      plain-sticky

main_decrypts_example :
    main key_word 7 works (dash_d ∷ text ∷ text ∷ []) marked
    ≡ some (
      return_zero,
      record { mode = chmod 0o101644 0o644; bytes = converted key_word 7 text marked.bytes },
    )
main_decrypts_example =
    main_decrypts key_word 7 works dash_d text text [] marked (refl, refl, refl) (omega arith) refl
      marked-sticky

decrypt_undoes_encrypt_example :
    (middle : FileState) × (end : FileState) × (main key_word 7 works
        (dash_e ∷ text ∷ text ∷ [])
        plain
      ≡ some (return_zero, middle))
    × (is_sticky middle.mode ≡ true)
    × (main key_word 7 works (dash_d ∷ text ∷ text ∷ []) middle ≡ some (return_zero, end))
    × (end.bytes ≡ plain.bytes)
    × (is_sticky end.mode ≡ false)
decrypt_undoes_encrypt_example =
    decrypt_undoes_encrypt key_word 7 works works dash_e dash_d text text text [] [] plain
      (refl, refl, refl) (refl, refl, refl) (omega arith) refl refl plain-sticky

failed_open_unmarks_example :
    (left : FileState) × (main key_word 7 closed (dash_d ∷ text ∷ text ∷ []) marked
      ≡ some (return_minus_one, left))
    × (left.bytes ≡ marked.bytes)
    × (is_sticky left.mode ≡ false)
failed_open_unmarks_example =
    failed_open_unmarks key_word 7 closed dash_d text text [] marked refl refl refl marked-sticky
