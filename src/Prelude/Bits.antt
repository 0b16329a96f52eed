-- ===== src/Prelude/Bits.antt =====
-- The binary digits of a word, and what each operator does to them, at every width.
mod Step
mod Laws
mod Join
unfoldable pub use Laws.*
pub use Join.*
