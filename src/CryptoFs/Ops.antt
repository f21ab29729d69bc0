-- ===== src/CryptoFs/Ops.antt =====
-- `xmp_read` and `xmp_write` on an encrypted file.
use coding_projects.Prelude.{
  ℕ, ◌+◌, ◌-◌, ◌*◌, ◌/◌, ◌^◌, ◌≤◌, ◌<◌, true, none, List, ◌++◌, ◌≡◌, refl, sym, arith, ap, ap₂, ◌∙◌,
  length, take, drop, min, [], ◌∷◌, replicate, append_assoc, length-append, length-take,
  length-drop, length-replicate, take-append-drop, take-append_further, take-append_exact,
  drop-append_self,
}
use coding_projects.Ctr.Stream.{crypt, crypt-crypt, length-crypt, crypt-append}
use coding_projects.CryptoFs.{
  key, FileNode, failed, count, crashed, is_sticky, deliver, xmp_read, pwrite, attempt, put,
  store_result, xmp_write,
}
use coding_projects.CryptoFs.Loop.{whole_blocks}
use coding_projects.CryptoFs.Buffer.{crypt_buffer_lem, crypt_buffer_overflow}

-- The first `n` bytes of a converted buffer depend on the first `n` bytes alone.
take_converted :
    (inode i n b : ℕ) (xs ys : List ℕ)
    → length xs ≡ n
    → n ≤ b
    → take n (crypt inode key i (take b (xs ++ ys)) ++ drop b (xs ++ ys)) ≡ crypt inode key i xs
take_converted inode i n b xs ys len le =
    let more : b ≡ length xs + (b - n) = omega arith in
    let cut : take b (xs ++ ys) ≡ xs ++ take (b - n) ys =
      ap (λ (k : ℕ). take k (xs ++ ys)) more ∙ take-append_further (b - n) xs ys in
    let tail = crypt inode key (i + length xs) (take (b - n) ys) in
    ap (λ t. take n (crypt inode key i t ++ drop b (xs ++ ys))) cut
    ∙ ap (λ t. take n (t ++ drop b (xs ++ ys))) (crypt-append inode key i xs (take (b - n) ys))
    ∙ ap (take n) (append_assoc (crypt inode key i xs) tail (drop b (xs ++ ys)))
    ∙ take-append_exact n (crypt inode key i xs) (tail ++ drop b (xs ++ ys))
        (length-crypt inode key i xs ∙ len)

-- The bytes that `pread` finds.
abbrev pub found : FileNode → ℕ → ℕ → List ℕ
found file size offset = take size (drop offset file.bytes)

-- The file can be opened, read and written.
abbrev pub IsOpen : FileNode → Type 0
IsOpen file = (file.open_errno ≡ none) × (file.io_errno ≡ none)

length-found : (file : FileNode) (size offset : ℕ) → length (found file size offset) ≤ size
length-found file size offset = omega (arith, length-take size (drop offset file.bytes))

-- `xmp_read` on a file with the sticky bit that can be read, for fewer than 2^31 bytes that end
-- below 2^64, into a buffer with room for whole blocks of 16 bytes: it returns the number of bytes
-- that the file has there, and the buffer starts with them, combined with the key stream from the
-- start of the block that `offset` lies in.
pub xmp_read_converts :
    (file : FileNode) (buf : List ℕ) (size offset : ℕ)
    → IsOpen file
    → is_sticky file.mode ≡ true
    → size < 2 ^ 31
    → offset + size < 2 ^ 64
    → whole_blocks size ≤ length buf
    → let res = length (found file size offset) in
      let out = xmp_read file buf size offset in
      (out.0 ≡ count res)
      × (take res out.1 ≡ crypt file.inode key (16 * (offset / 16)) (found file size offset))
unfolding xmp_read deliver attempt
xmp_read_converts file buf size offset can_open marked small fits room =
    let chunk = found file size offset in
    let res = length chunk in
    let bound = length-found file size offset in
    let filled = chunk ++ drop res buf in
    let filled_len : length filled ≡ length buf =
      omega (arith, length-append chunk (drop res buf), length-drop res buf) in
    let converted =
      crypt_buffer_lem file.inode res offset filled (omega arith) (omega arith) (omega arith) in
    rw (can_open.0, can_open.1, marked, converted)
      (
        refl,
        take_converted file.inode (16 * (offset / 16)) res (whole_blocks res) chunk (drop res buf)
            refl (omega arith),
      )

length-front :
    (offset : ℕ) (bytes : List ℕ)
    → length (take offset bytes ++ replicate (offset - length bytes) 0) ≡ offset
length-front offset bytes = omega (
  arith,
  length-append (take offset bytes) (replicate (offset - length bytes) 0),
  length-take offset bytes,
  length-replicate {A = ℕ} (offset - length bytes) 0,
)

take_none : (xs : List ℕ) (n : ℕ) → n ≡ 0 → take n xs ≡ []
take_none xs n e = ap (λ (k : ℕ). take k xs) e ∙ length-nil (take 0 xs) (length-take 0 xs)
  where
    length-nil : (ys : List ℕ) → length ys ≡ min 0 (length xs) → ys ≡ []
    length-nil [] e = refl
    length-nil (y ∷ ys) e = absurd (omega arith)

-- What is read back behind `pwrite`.
found-pwrite :
    (bytes xs : List ℕ) (offset size : ℕ)
    → length xs ≡ size
    → take size (drop offset (pwrite bytes offset xs)) ≡ xs
unfolding pwrite
found-pwrite bytes [] offset size len = take_none (drop offset bytes) size (sym len)
found-pwrite bytes (x ∷ xs) offset size len =
    let ys = x ∷ xs in
    let front = take offset bytes ++ replicate (offset - length bytes) 0 in
    let behind : drop offset (front ++ (ys ++ drop (offset + length ys) bytes))
        ≡ ys ++ drop (offset + length ys) bytes =
      ap (λ (k : ℕ). drop k (front ++ (ys ++ drop (offset + length ys) bytes)))
        (sym (length-front offset bytes))
      ∙ drop-append_self front (ys ++ drop (offset + length ys) bytes) in
    ap (take size) behind ∙ take-append_exact size ys (drop (offset + length ys) bytes) len

put_open :
    (file : FileNode) (m : List ℕ) (size offset : ℕ)
    → IsOpen file
    → put file m size offset
      ≡ (count size, record file { bytes = pwrite file.bytes offset (take size m) }, m)
unfolding put attempt
put_open file m size offset can_open =
    ap₂
      (λ o i.
        attempt o i (λ e. (failed e, file, m))
          (count size, record file { bytes = pwrite file.bytes offset (take size m) }, m))
      can_open.0 can_open.1

-- `xmp_write` on a file with the sticky bit that can be opened, of fewer than 2^31 bytes that end
-- below 2^64, from a buffer with room for whole blocks of 16 bytes: it returns `size`, and the file's
-- bytes from `offset` on are those of the buffer, combined with the key stream from the start of the
-- block that `offset` lies in. Nothing else of the file changes.
pub xmp_write_converts :
    (file : FileNode) (buf : List ℕ) (size offset : ℕ)
    → IsOpen file
    → is_sticky file.mode ≡ true
    → size < 2 ^ 31
    → offset + size < 2 ^ 64
    → whole_blocks size ≤ length buf
    → let out = xmp_write file buf size offset in
      (out.0 ≡ count size)
      × (out.1 ≡ record file {
        bytes =
            pwrite file.bytes offset (crypt file.inode key (16 * (offset / 16)) (take size buf));
      })
unfolding xmp_write store_result
xmp_write_converts file buf size offset can_open marked small fits room =
    let converted = crypt_buffer_lem file.inode size offset buf small fits room in
    let b = whole_blocks size in
    let whole : take size buf ++ drop size buf ≡ buf = take-append-drop size buf in
    let stored : take size (crypt file.inode key (16 * (offset / 16)) (take b buf) ++ drop b buf)
        ≡ crypt file.inode key (16 * (offset / 16)) (take size buf) =
      ap (λ t. take size (crypt file.inode key (16 * (offset / 16)) (take b t) ++ drop b t))
        (sym whole)
      ∙ take_converted file.inode (16 * (offset / 16)) size b (take size buf) (drop size buf)
          (omega (arith, length-take size buf)) (omega arith) in
    let m = crypt file.inode key (16 * (offset / 16)) (take b buf) ++ drop b buf in
    rw (marked, converted, put_open file m size offset can_open)
      (refl, ap (λ t. record file { bytes = pwrite file.bytes offset t }) stored)

-- What `xmp_write` has written, `xmp_read` at the same offset and size gives back: for a file with
-- the sticky bit that can be opened, fewer than 2^31 bytes that end below 2^64, and buffers with room
-- for whole blocks of 16 bytes.
pub read_back :
    (file : FileNode) (buf buf' : List ℕ) (size offset : ℕ)
    → IsOpen file
    → is_sticky file.mode ≡ true
    → size < 2 ^ 31
    → offset + size < 2 ^ 64
    → whole_blocks size ≤ length buf
    → whole_blocks size ≤ length buf'
    → let out = xmp_read (xmp_write file buf size offset).1 buf' size offset in
      (out.0 ≡ count size) × (take size out.1 ≡ take size buf)
read_back file buf buf' size offset can_open marked small fits room room' = rw (write.1) (
  read.0 ∙ ap count len,
  ap (λ (n : ℕ). take n (xmp_read written buf' size offset).1) (sym len)
      ∙ read.1
      ∙ ap (crypt file.inode key (16 * (offset / 16))) back
      ∙ crypt-crypt file.inode key (16 * (offset / 16)) (take size buf),
)
  where
    stored : List ℕ
    stored = crypt file.inode key (16 * (offset / 16)) (take size buf)

    write :
        ((xmp_write file buf size offset).0 ≡ count size)
        × ((xmp_write file buf size offset).1
            ≡ record file { bytes = pwrite file.bytes offset stored })
    write = xmp_write_converts file buf size offset can_open marked small fits room

    stored_len : length stored ≡ size
    stored_len = omega (
      arith,
      length-crypt file.inode key (16 * (offset / 16)) (take size buf),
      length-take size buf,
    )

    written : FileNode
    written = record file { bytes = pwrite file.bytes offset stored }

    back : found written size offset ≡ stored
    back = found-pwrite file.bytes stored offset size stored_len

    len : length (found written size offset) ≡ size
    len = ap length back ∙ stored_len

    read :
        ((xmp_read written buf' size offset).0 ≡ count (length (found written size offset)))
        × (take (length (found written size offset)) (xmp_read written buf' size offset).1
            ≡ crypt file.inode key (16 * (offset / 16)) (found written size offset))
    read = xmp_read_converts written buf' size offset can_open marked small fits room'

-- A request of 1 to 2^31 - 1 bytes on a file with the sticky bit, with a buffer that ends before the
-- request's last block of 16 bytes, accesses memory behind the buffer.
pub xmp_write_overflows :
    (file : FileNode) (buf : List ℕ) (size offset : ℕ)
    → is_sticky file.mode ≡ true
    → 0 < size
    → size < 2 ^ 31
    → length buf < whole_blocks size
    → (xmp_write file buf size offset).0 ≡ crashed
unfolding xmp_write store_result
xmp_write_overflows file buf size offset marked more small short =
    rw (marked, crypt_buffer_overflow file.inode size offset buf more small short) refl
