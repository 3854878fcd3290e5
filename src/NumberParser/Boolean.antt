-- ===== src/NumberParser/Boolean.antt =====
-- `try_parse_bool` and the case of letters.
use social_network.Prelude.{
  ℕ, ◌+◌, ◌*◌, ◌≡◌, refl, sym, ap, ◌∙◌, Bool, true, false, [], ◌∷◌, Option, none, some, arith, ◌==◌,
  if◌then◌else◌, Bytes, drop_while, ℤ, pos,
}
use social_network.StringHelpers.{is_space, to_uppercase, to_uppercase_ch}
use social_network.StringHelpers.Case.{to_lowercase-to_uppercase}
use social_network.NumberParser.{
  Scanned, scan_prefix, digit_of, read_digits, scan_number, scan_sign, scan, to_signed,
  try_parse_int, is_nonzero, assign, bool_word, try_parse_bool,
}
use social_network.NumberParser.Unsigned.{scan_prefix_ten}

digit_of-upper : (c : ℕ) → digit_of 10 (to_uppercase_ch c) ≡ digit_of 10 c
unfolding digit_of to_uppercase_ch
digit_of-upper c = ground arith

read_digits-upper :
    (s : Bytes) (acc : ℕ) → read_digits 10 (to_uppercase s) acc ≡ read_digits 10 s acc
unfolding read_digits to_uppercase
read_digits-upper [] acc = refl
read_digits-upper (c ∷ s) acc = λ i. elim (digit_of-upper c i) as (λ o. ℕ) [
  | none ↦ acc
  | some v ↦ read_digits-upper s (acc * 10 + v) i
]

scan_number-upper :
    (negative : Bool) (s : Bytes)
    → scan_number 10 negative (to_uppercase s) ≡ scan_number 10 negative s
unfolding scan_number to_uppercase
scan_number-upper negative [] = refl
scan_number-upper negative (c ∷ s) = λ i. elim (digit_of-upper c i) as (λ o. Option Scanned) [
  | none ↦ none
  | some v ↦ some (record { negative = negative; magnitude = read_digits-upper s v i })
]

scan_prefix-upper :
    (negative : Bool) (s : Bytes)
    → scan_prefix 10 negative (to_uppercase s) ≡ scan_prefix 10 negative s
scan_prefix-upper negative s =
    scan_prefix_ten negative (to_uppercase s)
    ∙ scan_number-upper negative s
    ∙ sym (scan_prefix_ten negative s)

drop_while-upper :
    (s : Bytes) → drop_while is_space (to_uppercase s) ≡ to_uppercase (drop_while is_space s)
unfolding drop_while to_uppercase
drop_while-upper [] = refl
drop_while-upper (c ∷ s) = ground (arith, drop_while-upper s)

-- The first byte decides: only a letter changes, and no letter is a sign.
scan_sign-upper : (s : Bytes) → scan_sign 10 (to_uppercase s) ≡ scan_sign 10 s
unfolding scan_sign to_uppercase
scan_sign-upper [] = refl
scan_sign-upper (c ∷ s) =
    let minus : (to_uppercase_ch c == b'-') ≡ (c == b'-') = ground arith in
    let plus : (to_uppercase_ch c == b'+') ≡ (c == b'+') = ground arith in
    λ i.
      if minus i
      then scan_prefix-upper true s i
      else if plus i
      then scan_prefix-upper false s i
      else scan_prefix-upper false (c ∷ s) i

scan-upper : (s : Bytes) → scan 10 (to_uppercase s) ≡ scan 10 s
unfolding scan
scan-upper s = ap (scan_sign 10) (drop_while-upper s) ∙ scan_sign-upper (drop_while is_space s)

signed_or_none : ℕ → Option Scanned → Option ℤ
signed_or_none bits o = elim o [ none ↦ none | some r ↦ to_signed bits r ]

try_parse_int-upper :
    (s : Bytes) (value : ℤ) → try_parse_int (to_uppercase s) value ≡ try_parse_int s value
unfolding try_parse_int signed_or_none
try_parse_int-upper s value = ap (λ o. assign (signed_or_none 31 o) value) (scan-upper s)

after_int : ℤ × Bool → Bytes → Bool → Bool × Bool
after_int (n, parsed) low value = if parsed then (is_nonzero n, true) else bool_word low value

-- `try_parse_bool` does not see the case of letters: in upper case a text gives the same.
pub try_parse_bool-upper :
    (s : Bytes) (value : Bool) → try_parse_bool (to_uppercase s) value ≡ try_parse_bool s value
unfolding try_parse_bool after_int
try_parse_bool-upper s value =
    λ i. after_int (try_parse_int-upper s (pos 0) i) (to_lowercase-to_uppercase s i) value
