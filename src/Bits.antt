-- ===== src/Bits.antt =====
-- The bits of a machine word, and what `|`, `&`, `~` and `1 << k` do to them.
mod Digits
pub mod Word
pub use Digits.*
pub mod Nibbles
