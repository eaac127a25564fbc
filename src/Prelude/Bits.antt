-- ===== src/Prelude/Bits.antt =====
-- Facts about the bitwise operations at variables: the digit step of each, `|` and `&` as
-- arithmetic, and the group laws of `^`.
mod Step
mod Fields
mod Xor
pub use Step.{bit_and_step, bit_or_step, bit_xor_step}
pub use Fields.{bit_or-eq-add, bit_or-lt, bit_or_byte, bit_and_bit, bit_and_byte}
pub use Xor.{bit_xor_zero, bit_xor_self, bit_xor_comm, bit_xor_assoc, bit_xor-lt, bit_xor_cancel}
pub use Xor.{bit_xor-injective, bit_xor_fields}
