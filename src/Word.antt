-- ===== src/Word.antt =====
-- Machine words as native numbers: the masks and shifts that dlmalloc.c writes, as arithmetic.
-- `size_t` has 64 bits, `unsigned int` (bindex_t, binmap_t, flag_t) has 32.
mod Step
mod Masks
mod Maps
pub use Step.{bit_or_step, bit_and_step}
pub use Masks.*
unfoldable pub use Maps.{bit_at}
pub use Maps.*
