-- ===== src/Common/Bits.antt =====
-- Laws of the native bit operations at variables.
mod Step
mod Digits
mod Masks
mod Slots
pub use Step.*
pub use Digits.*
pub use Masks.*
pub use Slots.*
