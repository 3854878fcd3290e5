-- ===== src/NumberParser/Unsigned.antt =====
-- The integer conversions on decimal prints.
use social_network.Prelude.{
  ℕ, suc, ◌+◌, ◌-◌, ◌*◌, ◌%◌, ◌^◌, ◌<◌, ◌≡◌, ◌≢◌, refl, sym, ap, ◌∙◌, Bool, true, false, [], ◌∷◌,
  Option, none, some, arith, ltb, leb, ◌==◌, if◌then◌else◌, Bytes, All, drop_while, ℤ, pos, neg_ℕ,
}
use social_network.StringHelpers.{is_space}
use social_network.Format.{decimal}
use social_network.Format.Decimal.{IsDigit, decimal-IsDigit, decimal-ne-nil, read-digits_onto}
use social_network.NumberParser.{
  Scanned, assign, to_uint32, digit_of, read_digits, scan_number, scan_prefix, scan_sign, scan,
  to_unsigned, to_signed, stoull, stoi_bits, try_parse_uint, try_parse_uint64, try_parse_int,
}

digit_of_ten : (c : ℕ) → IsDigit c → digit_of 10 c ≡ some (c - 48)
unfolding digit_of
digit_of_ten c (lo, hi) = ground arith

read_digits_step :
    (c : ℕ) (s : Bytes) (acc : ℕ)
    → IsDigit c
    → read_digits 10 (c ∷ s) acc ≡ read_digits 10 s (acc * 10 + (c - 48))
unfolding read_digits
read_digits_step c s acc h = rw (digit_of_ten c h, read_digits)

pub read_digits-decimal : (n : ℕ) → read_digits 10 (decimal n) 0 ≡ n
unfolding decimal
read_digits-decimal n =
    read-digits_onto (read_digits 10) read_digits_step (suc n) n [] (omega arith)
    ∙ unfold read_digits in refl

scan_number-digits :
    (negative : Bool) (s : Bytes)
    → s ≢ []
    → All IsDigit s
    → scan_number 10 negative s
      ≡ some (record { negative = negative; magnitude = read_digits 10 s 0 })
unfolding scan_number
scan_number-digits negative [] h k = absurd (h refl)
scan_number-digits negative (c ∷ s) h (d, ds) =
    rw (digit_of_ten c d, scan_number)
      (ap (λ m. some (record { negative = negative; magnitude = m }))
        (let e : 0 * 10 + (c - 48) ≡ c - 48 = omega arith in
          sym (read_digits_step c s 0 d ∙ ap (read_digits 10 s) e)))

-- There is no prefix in base 10.
pub scan_prefix_ten :
    (negative : Bool) (s : Bytes) → scan_prefix 10 negative s ≡ scan_number 10 negative s
unfolding scan_prefix
scan_prefix_ten negative [] = refl
scan_prefix_ten negative (z ∷ []) = refl
scan_prefix_ten negative (z ∷ x ∷ []) = refl
scan_prefix_ten negative (z ∷ x ∷ d ∷ s) = refl

scan-digits :
    (s : Bytes)
    → s ≢ []
    → All IsDigit s
    → scan 10 s ≡ some (record { negative = false; magnitude = read_digits 10 s 0 })
unfolding scan scan_sign drop_while
scan-digits [] h k = absurd (h refl)
scan-digits (c ∷ s) h (d, ds) =
    let no_space : is_space c ≡ false = ground (arith, d) in
    let no_minus : (c == b'-') ≡ false = ground (arith, d) in
    let no_plus : (c == b'+') ≡ false = ground (arith, d) in
    rw (no_space, no_minus, no_plus)
      (scan_prefix_ten false (c ∷ s) ∙ scan_number-digits false (c ∷ s) h (d, ds))

pub scan-decimal : (n : ℕ) → scan 10 (decimal n) ≡ some (record { negative = false; magnitude = n })
scan-decimal n =
    scan-digits (decimal n) (decimal-ne-nil n) (decimal-IsDigit n)
    ∙ ap (λ m. some (record { negative = false; magnitude = m })) (read_digits-decimal n)

pub scan-minus_decimal :
    (n : ℕ) → scan 10 (b'-' ∷ decimal n) ≡ some (record { negative = true; magnitude = n })
unfolding scan scan_sign drop_while
scan-minus_decimal n =
    scan_prefix_ten true (decimal n)
    ∙ scan_number-digits true (decimal n) (decimal-ne-nil n) (decimal-IsDigit n)
    ∙ ap (λ m. some (record { negative = true; magnitude = m })) (read_digits-decimal n)

unsigned_or_none : Option Scanned → Option ℕ
unsigned_or_none o = elim o [ none ↦ none | some r ↦ to_unsigned r ]

pub stoull_of_scan :
    (base : ℕ) (s : Bytes) (r : Scanned) → scan base s ≡ some r → stoull base s ≡ to_unsigned r
unfolding stoull unsigned_or_none
stoull_of_scan base s r e = ap unsigned_or_none e

signed_or_none : ℕ → Option Scanned → Option ℤ
signed_or_none bits o = elim o [ none ↦ none | some r ↦ to_signed bits r ]

pub stoi_bits_of_scan :
    (bits : ℕ) (s : Bytes) (r : Scanned) → scan 10 s ≡ some r → stoi_bits bits s ≡ to_signed bits r
unfolding stoi_bits signed_or_none
stoi_bits_of_scan bits s r e = ap (signed_or_none bits) e

unsigned_results :
    (s : Bytes) (value v : ℕ)
    → stoull 10 s ≡ some v
    → (try_parse_uint64 s value ≡ (v, true)) × (try_parse_uint s value ≡ (v % 2 ^ 32, true))
unfolding try_parse_uint64 try_parse_uint
unsigned_results s value v e = (ap (λ o. assign o value) e, ap (λ o. assign (to_uint32 o) value) e)

-- The decimal print of a 64-bit number is read back by `try_parse_uint64`; `try_parse_uint` accepts
-- it too, and cuts it down to 32 bits.
pub try_parse_uint-decimal :
    (n value : ℕ)
    → n < 2 ^ 64
    → (try_parse_uint64 (decimal n) value ≡ (n, true))
      × (try_parse_uint (decimal n) value ≡ (n % 2 ^ 32, true))
unfolding to_unsigned
try_parse_uint-decimal n value h =
    unsigned_results (decimal n) value n
      (stoull_of_scan 10 (decimal n) _ (scan-decimal n) ∙ ground arith)

-- A minus sign is accepted by the unsigned conversions: the number is taken modulo 2 ^ 64.
pub try_parse_uint-minus_decimal :
    (n value : ℕ)
    → n < 2 ^ 64
    → (try_parse_uint64 (b'-' ∷ decimal n) value ≡ ((2 ^ 64 - n) % 2 ^ 64, true))
      × (try_parse_uint (b'-' ∷ decimal n) value ≡ ((2 ^ 64 - n) % 2 ^ 64 % 2 ^ 32, true))
unfolding to_unsigned
try_parse_uint-minus_decimal n value h =
    unsigned_results (b'-' ∷ decimal n) value ((2 ^ 64 - n) % 2 ^ 64)
      (stoull_of_scan 10 (b'-' ∷ decimal n) _ (scan-minus_decimal n) ∙ ground arith)

-- `try_parse_int` reads back the decimal print of any `int`, with or without a minus sign; a print out
-- of range is refused on either side and the out-parameter keeps its value.
pub try_parse_int-decimal :
    (n : ℕ) (value : ℤ)
    → (try_parse_int (decimal n) value ≡ (if ltb n (2 ^ 31) then (pos n, true) else (value, false)))
      × (try_parse_int (b'-' ∷ decimal n) value
          ≡ (if leb n (2 ^ 31) then (neg_ℕ n, true) else (value, false)))
unfolding try_parse_int to_signed
try_parse_int-decimal n value = (
  ap (λ o. assign o value) (stoi_bits_of_scan 31 (decimal n) _ (scan-decimal n)) ∙ ground arith,
  ap (λ o. assign o value) (stoi_bits_of_scan 31 (b'-' ∷ decimal n) _ (scan-minus_decimal n))
      ∙ ground arith,
)
