-- ===== src/CryptoFs/Tests.antt =====
-- The two operations on an encrypted file of 32 bytes, and the theorems at it.
use coding_projects.Prelude.{
  ℕ, ◌*◌, ◌/◌, true, none, List, ◌≡◌, refl, arith, length, take, replicate,
}
use coding_projects.Ctr.Stream.{crypt}
use coding_projects.CryptoFs.{FileNode, count, crashed, is_sticky, key, pwrite, xmp_read, xmp_write}
use coding_projects.CryptoFs.Ops.{
  found, xmp_read_converts, xmp_write_converts, read_back, xmp_write_overflows,
}

abbrev encrypted : FileNode
encrypted = record {
  inode = 12;
  mode = 0o101644;
  bytes = replicate 32 7;
  open_errno = none;
  io_errno = none;
}

abbrev buffer : List ℕ
buffer = replicate 16 3

encrypted-sticky : is_sticky 0o101644 ≡ true
unfolding is_sticky
encrypted-sticky = refl

xmp_read_converts_example :
    let res = length (found encrypted 10 16) in
    let out = xmp_read encrypted buffer 10 16 in
    (out.0 ≡ count res) × (take res out.1 ≡ crypt 12 key (16 * (16 / 16)) (found encrypted 10 16))
xmp_read_converts_example =
    xmp_read_converts encrypted buffer 10 16 (refl, refl) encrypted-sticky (omega arith)
      (omega arith) (omega arith)

xmp_write_converts_example :
    let out = xmp_write encrypted buffer 10 16 in
    (out.0 ≡ count 10)
    × (out.1 ≡ record encrypted {
      bytes = pwrite encrypted.bytes 16 (crypt 12 key (16 * (16 / 16)) (take 10 buffer));
    })
xmp_write_converts_example =
    xmp_write_converts encrypted buffer 10 16 (refl, refl) encrypted-sticky (omega arith)
      (omega arith) (omega arith)

read_back_example :
    let out = xmp_read (xmp_write encrypted buffer 10 16).1 buffer 10 16 in
    (out.0 ≡ count 10) × (take 10 out.1 ≡ take 10 buffer)
read_back_example =
    read_back encrypted buffer buffer 10 16 (refl, refl) encrypted-sticky (omega arith)
      (omega arith) (omega arith) (omega arith)

xmp_write_overflows_example : (xmp_write encrypted buffer 17 0).0 ≡ crashed
xmp_write_overflows_example =
    xmp_write_overflows encrypted buffer 17 0 encrypted-sticky (omega arith) (omega arith)
      (omega arith)
