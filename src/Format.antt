-- ===== src/Format.antt =====
-- What `std::format` writes for `{}` of an unsigned number, and for `{:02x}` of a `char`, which is
-- formatted as an `unsigned char` (P2909R4).
pub mod Decimal
use social_network.Prelude.{
  ℕ, zero, suc, ◌+◌, ◌/◌, ◌%◌, List, [], ◌∷◌, ◌++◌, true, false, ltb, if◌then◌else◌, Bytes, ◌-◌,
}

-- The last digit first; `fuel` bounds the number of digits.
unfoldable pub digits_onto : ℕ → ℕ → Bytes → Bytes
digits_onto zero n out = out
digits_onto (suc fuel) n out = elim (ltb n 10) [
  | true ↦ (b'0' + n) ∷ out
  | false ↦ digits_onto fuel (n / 10) ((b'0' + n % 10) ∷ out)
]

unfoldable pub decimal : ℕ → Bytes
unfolding digits_onto
decimal n = digits_onto (suc n) n []

unfoldable pub hex_digit : ℕ → ℕ
hex_digit v = if ltb v 10 then b'0' + v else b'a' + v - 10

-- Two digits for a byte.
unfoldable pub hex_byte : ℕ → Bytes
unfolding hex_digit
hex_byte c = hex_digit (c / 16) ∷ hex_digit (c % 16) ∷ []
