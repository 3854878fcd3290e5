-- ===== src/Format/Decimal.antt =====
-- The decimal print of a number.
use social_network.Prelude.{
  ℕ, zero, suc, ◌+◌, ◌-◌, ◌*◌, ◌/◌, ◌%◌, ◌<◌, ◌≤◌, ◌≡◌, ◌≢◌, ap, ◌∙◌, inl, inr, [], ◌∷◌, arith, ltb,
  Bool-cases, Bytes, All,
}
use social_network.Format.{digits_onto, decimal}

abbrev pub IsDigit : ℕ → Type 0
IsDigit c = (48 ≤ c) × (c ≤ 57)

digits_onto-IsDigit :
    (fuel n : ℕ) (out : Bytes) → All IsDigit out → All IsDigit (digits_onto fuel n out)
unfolding digits_onto
digits_onto-IsDigit zero n out h = h
digits_onto-IsDigit (suc fuel) n out h = elim (Bool-cases (ltb n 10)) [
  | inl e ↦ rw (e, digits_onto) ((ground arith, ground arith), h)
  | inr e ↦
      rw (e, digits_onto) (digits_onto-IsDigit fuel (n / 10) _ ((omega arith, omega arith), h))
]

-- A print is digits only.
pub decimal-IsDigit : (n : ℕ) → All IsDigit (decimal n)
unfolding decimal
decimal-IsDigit n = digits_onto-IsDigit (suc n) n [] tt

digits_onto-ne-nil : (fuel n : ℕ) (out : Bytes) → n < fuel → digits_onto fuel n out ≢ []
unfolding digits_onto
digits_onto-ne-nil zero n out h = elim h [ ]
digits_onto-ne-nil (suc fuel) n out h = elim (Bool-cases (ltb n 10)) [
  | inl e ↦ rw (e, digits_onto) (λ k. cc)
  | inr e ↦ rw (e, digits_onto) (digits_onto-ne-nil fuel (n / 10) _ (ground arith))
]

pub decimal-ne-nil : (n : ℕ) → decimal n ≢ []
unfolding decimal
decimal-ne-nil n = digits_onto-ne-nil (suc n) n [] (omega arith)

-- A reader that takes a digit `c` from `acc` to `acc * 10 + (c - '0')` reads the number back.
pub read-digits_onto {ℓ} :
    {A : Type ℓ} (read : Bytes → ℕ → A)
    → ((c : ℕ) (s : Bytes) (acc : ℕ) → IsDigit c → read (c ∷ s) acc ≡ read s (acc * 10 + (c - 48)))
    → (fuel n : ℕ) (out : Bytes) → n < fuel
    → read (digits_onto fuel n out) 0 ≡ read out n
unfolding digits_onto
read-digits_onto read step zero n out h = elim h [ ]
read-digits_onto read step (suc fuel) n out h = elim (Bool-cases (ltb n 10)) [
  | inl e ↦
      let meet : 0 * 10 + (48 + n - 48) ≡ n = omega arith in
      rw (e, digits_onto) (step (48 + n) out 0 (omega arith, ground arith) ∙ ap (read out) meet)
  | inr e ↦
      let meet : n / 10 * 10 + (48 + n % 10 - 48) ≡ n = omega arith in
      rw (e, digits_onto)
        (read-digits_onto read step fuel (n / 10) ((48 + n % 10) ∷ out) (ground arith)
          ∙ step (48 + n % 10) out (n / 10) (omega arith, omega arith)
          ∙ ap (read out) meet)
]
