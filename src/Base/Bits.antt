-- ===== src/Base/Bits.antt =====
-- Laws of `&`, `|` and `^` at variables: fields, masks, and the group laws of `^`.
mod Step
mod Fields
mod Xor
pub use Fields.*
pub use Xor.*
