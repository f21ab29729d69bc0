-- ===== src/Bits.antt =====
-- Laws of the binary operations at variables, for C's `&`, `|`, `^`, `<<` and `>>` on unsigned
-- words.
mod Step
mod Xor
mod Test
mod Fields
pub use Step.*
pub use Xor.*
unfoldable pub use Test.*
pub use Fields.*
