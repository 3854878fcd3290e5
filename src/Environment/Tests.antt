-- ===== src/Environment/Tests.antt =====
-- Runs of the environment, and its theorems at concrete answers.
use social_network.Prelude.{ℕ, ◌≡◌, refl, [], ◌∷◌, codes, leb, if◌then◌else◌}
use social_network.Environment.{Filled, filled, id_text}

-- A byte from 128 on is printed with eight digits, and the rest is cut off.
signed : id_text (2 ∷ 66 ∷ 172 ∷ 17 ∷ 0 ∷ 2 ∷ []) ≡ codes "02:42:ffffffac:11"
unfolding id_text
signed = refl

-- An interface list of 4800 bytes, that an old kernel cuts down to the buffer.
abbrev fill : ℕ → Filled
fill len = if leb 4800 len then filled 4800 else filled len
