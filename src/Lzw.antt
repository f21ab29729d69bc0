-- ===== src/Lzw.antt =====
-- The LZW coder of LZW/: bit vectors, number utilities, and the tables of the decoder.
pub mod Util
pub mod BitVector
pub mod KeyedHash
pub mod LinkedList
pub mod HashTable
pub mod Output
pub mod Input
mod Tests
