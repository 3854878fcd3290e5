-- ===== src/StringHelpers/Case.antt =====
-- The case functions of string.cpp.
use social_network.Prelude.{◌≡◌, refl, false, ◌&&◌, [], ◌∷◌, arith, leb, Bytes, All}
use social_network.StringHelpers.{to_lowercase, to_uppercase}

-- The text holds no capital letter.
abbrev pub IsLower : Bytes → Type 0
IsLower = All (λ c. (leb b'A' c && leb c b'Z') ≡ false)

pub to_lowercase-IsLower : (s : Bytes) → IsLower (to_lowercase s)
unfolding to_lowercase
to_lowercase-IsLower [] = tt
to_lowercase-IsLower (c ∷ s) = (ground arith, to_lowercase-IsLower s)

pub to_lowercase-eq_of_IsLower : (s : Bytes) → IsLower s → to_lowercase s ≡ s
unfolding to_lowercase
to_lowercase-eq_of_IsLower [] h = refl
to_lowercase-eq_of_IsLower (c ∷ s) h = ground (arith, to_lowercase-eq_of_IsLower s h.1, h.0)

pub to_lowercase-to_lowercase : (s : Bytes) → to_lowercase (to_lowercase s) ≡ to_lowercase s
to_lowercase-to_lowercase s = to_lowercase-eq_of_IsLower (to_lowercase s) (to_lowercase-IsLower s)

-- Lower case is the same for two texts that differ in case only.
pub to_lowercase-to_uppercase : (s : Bytes) → to_lowercase (to_uppercase s) ≡ to_lowercase s
unfolding to_lowercase to_uppercase
to_lowercase-to_uppercase [] = refl
to_lowercase-to_uppercase (c ∷ s) = ground (arith, to_lowercase-to_uppercase s)
