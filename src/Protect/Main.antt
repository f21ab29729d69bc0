-- ===== src/Protect/Main.antt =====
-- `main` as a whole: what each kind of run does to the file.
use coding_projects.Prelude.{
  ℕ, ◌+◌, ◌/◌, ◌%◌, ◌^◌, ◌<◌, bit_and, some, List, [], ◌∷◌, ◌≡◌, refl, arith, length, get_or,
  Bool-cases, inl, inr, true, false, ◌==◌, if◌then◌else◌,
}
use coding_projects.Bits.{bit_and-pow, test_bit-shift}
use coding_projects.Speck.{Block}
use coding_projects.Ctr.Stream.{crypt, crypt-crypt, length-crypt}
use coding_projects.Protect.{
  return_minus_one, return_zero, FileState, System, sticky, chmod, is_sticky, convert, main,
}
use coding_projects.Protect.Loop.{loop-Leaves}

is_sticky_by_bit : (mode : ℕ) → mode / 512 % 2 ≡ 1 → is_sticky mode ≡ true
unfolding is_sticky
is_sticky_by_bit mode h =
    let masked : bit_and mode sticky ≡ 512 =
      omega (arith, bit_and-pow 9 mode, test_bit-shift mode 9) in
    rw masked refl

not_sticky_by_bit : (mode : ℕ) → mode / 512 % 2 ≡ 0 → is_sticky mode ≡ false
unfolding is_sticky
not_sticky_by_bit mode h =
    let masked : bit_and mode sticky ≡ 0 =
      omega (arith, bit_and-pow 9 mode, test_bit-shift mode 9) in
    rw masked refl

pub chmod-sticky : (mode : ℕ) → is_sticky (chmod mode 0o1644) ≡ true
chmod-sticky mode = is_sticky_by_bit (chmod mode 0o1644) (unfold chmod in omega arith)

pub chmod_plain : (mode : ℕ) → is_sticky (chmod mode 0o644) ≡ false
chmod_plain mode = not_sticky_by_bit (chmod mode 0o644) (unfold chmod in omega arith)

-- A system on which every call succeeds.
abbrev pub Works : System → Type 0
Works sys = (sys.chmod_off ≡ true) × (sys.open_file ≡ true) × (sys.chmod_on ≡ true)

module _ (strtoll : List ℕ → ℕ) (inode : ℕ) where
  abbrev pub key_of : List ℕ → Block
  key_of inputkey = record { lo = 0; hi = strtoll inputkey }

  -- The bytes after the loop over the whole file.
  abbrev pub converted : List ℕ → List ℕ → List ℕ
  converted inputkey bytes = crypt inode (key_of inputkey) 0 bytes

  -- The mode that a complete run leaves.
  abbrev pub final_mode : ℕ → ℕ → ℕ
  final_mode option mode =
      if option == b'e' then chmod (chmod mode 0o644) 0o1644 else chmod mode 0o644

  convert_lem :
      (sys : System) (option : ℕ) (inputkey : List ℕ) (file : FileState)
      → Works sys
      → length file.bytes < 2 ^ 64
      → convert strtoll inode sys option inputkey file
        ≡ some (
          return_zero,
          record { mode = final_mode option file.mode; bytes = converted inputkey file.bytes },
        )
  unfolding convert
  convert_lem sys option inputkey file works small =
      let l =
        loop-Leaves inode (key_of inputkey) (length file.bytes + 1) [] file.bytes sys.memory0
          sys.memory1 (omega arith) (inl refl) (omega arith) in
      rw (works.0, works.1, l.returns, works.2, l.holds)
        (elim (Bool-cases (option == b'e')) [ inl e ↦ rw e refl | inr d ↦ rw d refl ])

  -- With every call of the system successful and a file below 2^64 bytes: the option -e on a file
  -- without the sticky bit combines each byte with the key stream of the file's i-number and the
  -- key, and leaves the mode 1644.
  pub main_encrypts :
      (sys : System) (option inputkey name : List ℕ) (more : List (List ℕ)) (file : FileState)
      → Works sys
      → length file.bytes < 2 ^ 64
      → get_or option 1 0 ≡ b'e'
      → is_sticky file.mode ≡ false
      → main strtoll inode sys (option ∷ inputkey ∷ name ∷ more) file
        ≡ some (
          return_zero,
          record {
            mode = chmod (chmod file.mode 0o644) 0o1644;
            bytes = converted inputkey file.bytes;
          },
        )
  unfolding main
  main_encrypts sys [] inputkey name more file works small flag plain = absurd (omega (arith, flag))
  main_encrypts sys (dash ∷ letters) inputkey name more file works small flag plain =
      rw (flag, plain) (convert_lem sys b'e' inputkey file works small)

  -- With every call of the system successful and a file below 2^64 bytes: the option -d on a file
  -- with the sticky bit combines each byte with the key stream of the file's i-number and the key,
  -- and leaves the mode 644.
  pub main_decrypts :
      (sys : System) (option inputkey name : List ℕ) (more : List (List ℕ)) (file : FileState)
      → Works sys
      → length file.bytes < 2 ^ 64
      → get_or option 1 0 ≡ b'd'
      → is_sticky file.mode ≡ true
      → main strtoll inode sys (option ∷ inputkey ∷ name ∷ more) file
        ≡ some (
          return_zero,
          record { mode = chmod file.mode 0o644; bytes = converted inputkey file.bytes },
        )
  unfolding main
  main_decrypts sys [] inputkey name more file works small flag marked =
      absurd (omega (arith, flag))
  main_decrypts sys (dash ∷ letters) inputkey name more file works small flag marked =
      rw (flag, marked) (convert_lem sys b'd' inputkey file works small)

  -- Encrypting a file and then decrypting what was left, by two runs on a system where every call
  -- succeeds and with the same key and i-number, gives the first file's bytes back, unmarked.
  pub decrypt_undoes_encrypt :
      (sys sys' : System) (encrypt decrypt inputkey name name' : List ℕ)
      (more more' : List (List ℕ)) (file : FileState)
      → Works sys
      → Works sys'
      → length file.bytes < 2 ^ 64
      → get_or encrypt 1 0 ≡ b'e'
      → get_or decrypt 1 0 ≡ b'd'
      → is_sticky file.mode ≡ false
      → (middle : FileState) × (end : FileState) × (main strtoll inode sys
            (encrypt ∷ inputkey ∷ name ∷ more)
            file
          ≡ some (return_zero, middle))
        × (is_sticky middle.mode ≡ true)
        × (main strtoll inode sys' (decrypt ∷ inputkey ∷ name' ∷ more') middle
            ≡ some (return_zero, end))
        × (end.bytes ≡ file.bytes)
        × (is_sticky end.mode ≡ false)
  decrypt_undoes_encrypt sys sys' encrypt decrypt inputkey name name' more more' file works works'
        small e d plain =
      (
        middle,
        record { mode = chmod middle.mode 0o644; bytes = converted inputkey middle.bytes },
        main_encrypts sys encrypt inputkey name more file works small e plain,
        marked,
        main_decrypts sys' decrypt inputkey name' more' middle works'
            (rw (length-crypt inode (key_of inputkey) 0 file.bytes) small) d marked,
        crypt-crypt inode (key_of inputkey) 0 file.bytes,
        chmod_plain middle.mode,
      )
    where
      middle : FileState
      middle = record {
        mode = chmod (chmod file.mode 0o644) 0o1644;
        bytes = converted inputkey file.bytes;
      }

      marked : is_sticky middle.mode ≡ true
      marked = chmod-sticky (chmod file.mode 0o644)

  -- A decryption whose `open` fails returns -1 with the bytes still encrypted but the mark gone.
  pub failed_open_unmarks :
      (sys : System) (option inputkey name : List ℕ) (more : List (List ℕ)) (file : FileState)
      → sys.chmod_off ≡ true
      → sys.open_file ≡ false
      → get_or option 1 0 ≡ b'd'
      → is_sticky file.mode ≡ true
      → (left : FileState) × (main strtoll inode sys (option ∷ inputkey ∷ name ∷ more) file
          ≡ some (return_minus_one, left))
        × (left.bytes ≡ file.bytes)
        × (is_sticky left.mode ≡ false)
  unfolding main convert
  failed_open_unmarks sys [] inputkey name more file off closed d marked = absurd (omega (arith, d))
  failed_open_unmarks sys (dash ∷ letters) inputkey name more file off closed d marked = (
    record file { mode = chmod file.mode 0o644 },
    rw (d, marked, off, closed) refl,
    refl,
    chmod_plain file.mode,
  )
