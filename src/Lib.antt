-- ===== src/Lib.antt =====
-- A verification library for the C programs of this repository.
--
-- Parts. EncryptedDataStorage holds protectfile.c, which encrypts a file in place with SPECK in
-- counter mode and marks it by the sticky bit, and cryptoFS.c, a FUSE file system that decrypts
-- and encrypts such files as they are read and written. ThreadScheduler holds two variants of
-- FreeBSD's run queues, kern_switch_pq.c and kern_switch_FIFO.c. PageoutScheduler holds FreeBSD's
-- allocator of physical pages, vm_phys.c, with another order of the pages on its lists.
-- SimpleShell holds a shell with redirections, pipes and sequences of commands, myshell.c. LZW
-- holds a file compressor; its hash table is keyed by the same cipher.
--
-- Files.
--   Prelude   the shared names of the libraries, Boolean tests, lemmas on lists
--   Bits      the binary operations of C on words, by their bits
--   Speck     LZW/speck.c: the macros LCS, RCS, R and speck_expand_key_and_encrypt; the two programs
--             of EncryptedDataStorage hold copies of them
--   Ctr       words as bytes of memory, `data[k] ^= value[k]`, and Ctr/Stream, which says what
--             counter mode means
--   Protect   EncryptedDataStorage/protectfile.c: `main`. Run is the state of its loop, FileState
--             the file, System what the system calls of one run come to
--   CryptoFs  EncryptedDataStorage/cryptoFS.c: `xmp_read` and `xmp_write`, with the caller's buffer as
--             memory of a fixed size
--   Runq      ThreadScheduler/kern_switch_pq.c: the run queue and its operations. Runq/Fifo has
--             `runq_add` and `runq_add_pri` of ThreadScheduler/kern_switch_FIFO.c. Runq/Header is the
--             interface to sys/runq.h, which the repository does not have
--   Sched     ThreadScheduler/sched_ule_pri.c: the interactivity score and the history that it is made
--             of (`sched_interact_score`, `sched_interact_update`, `sched_interact_fork`)
--   Phys      PageoutScheduler/vm_phys.c: the lists of free blocks by pool and order. Phys has the
--             allocation and the freeing of one block (`vm_phys_alloc_freelist_pages`,
--             `vm_phys_free_pages`), Range runs of pages (`vm_phys_enq_range`,
--             `vm_phys_free_contig`), Unfree `vm_phys_unfree_page`, Npages `vm_phys_alloc_npages`.
--             Valid has the invariant of the lists and the set of free pages that they stand for
--   Shell     SimpleShell/myshell.c: `handler`, whose local variables are a Job; Shell/Exec has the
--             children of `execute` and `executePipes`, with their descriptors as a table
--   Lzw       LZW: Util (util.c), BitVector (bv.c), KeyedHash (keyed_hash of speck.c, and hash.c's
--             `hash`), LinkedList (ll.c), HashTable (hash.c), Output and Input (the buffers
--             of io.c)
--
-- Numbers are natural numbers, with the wrap-around of 64-bit and 32-bit integers written out.
-- Memory, files and queues are lists. The two encryption loops run on fuel: one more than the
-- bytes of the file in `main`, one more than the bytes of the request in `crypt_buffer`. Each
-- round takes at least one byte, so the fuel is enough, and the theorems on `main`, `xmp_read` and
-- `xmp_write` give the result itself. The loops of Phys have a bound on their rounds as first
-- argument: the orders left, or the pages left, since each round takes a page or an order; the
-- theorems give the result itself. `log2_64` runs on 64 rounds and `power` on 65, which is enough
-- for 64-bit numbers.
--
-- Taken as parameters: libc's `strtoll`, the i-number that `stat` reports, whether `open`,
-- `chmod`, `pread` and `pwrite` succeed, and the macros of sys/runq.h with what their comments
-- promise, for Phys the numbers of orders and pools, and the segment of a page, and for Shell
-- which files `open` opens. A new descriptor is the lowest that is free, as POSIX says of `open`,
-- `dup` and `pipe`.
--
-- These are results of their own, which end the run of the model: an access behind a buffer of
-- cryptoFS.c, the option of protectfile.c read behind its end, a write behind the arrays of SIZE entries
-- of `handler`, a null pointer that `handler` compares, and an entry of `temp` that was never set and
-- that a child gives to `execvp`.
--
-- Not modelled: the debug prints and the traces, the other operations of cryptoFS.c, which call
-- the system call of the same name, the parts of kern_switch_*.c that change the scheduler's lists
-- of threads under the machine's locks, LZW's trie, `ht_create`, which
-- leaves the heads of its lists as `malloc` gives them, `next_char`, the file header and the main
-- loops, SimpleShell's scanner, messages, waits and signals and the failures of `fork`, `pipe` and
-- `execvp`, the lists of vm_phys.c for more than one domain or free list, its tables of segments,
-- `vm_phys_alloc_contig`, KASSERTs and locks, the run queues of the sched_ule files, and the other
-- FreeBSD files that the repository holds with small changes.
pub mod Prelude
pub mod Bits
pub mod Speck
pub mod Ctr
pub mod Protect
pub mod CryptoFs
pub mod Runq
pub mod Sched
pub mod Phys
pub mod Shell
pub mod Lzw
