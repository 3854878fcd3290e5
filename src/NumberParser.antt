-- ===== src/NumberParser.antt =====
-- service/sources/helpers/number_parser.cpp over the standard conversions `stoi`, `stoll`, `stoul`
-- and `stoull` of an LP64 system, where `unsigned long` has 64 bits. A conversion that throws is
-- `none`; a `try_parse_*` takes the old value of its out-parameter and returns the new one.
pub mod Unsigned
pub mod Boolean
mod Tests
use social_network.Prelude.{
  ℕ, zero, suc, ◌+◌, ◌-◌, ◌*◌, ◌%◌, ◌^◌, Bool, true, false, not, ◌&&◌, ◌||◌, List, [], ◌∷◌, Option,
  none, some, ltb, leb, ◌==◌, if◌then◌else◌, Bytes, codes, drop_while, equal, ℤ, pos, negsuc, neg_ℕ,
}
use social_network.StringHelpers.{is_space, to_lowercase}

unfoldable pub digit_of : ℕ → ℕ → Option ℕ
digit_of base c =
    let v =
      if leb b'0' c && leb c b'9'
      then c - b'0'
      else if leb b'a' c && leb c b'z'
      then c - b'a' + 10
      else if leb b'A' c && leb c b'Z'
      then c - b'A' + 10
      else base in
    if ltb v base then some v else none

-- The longest run of digits behind the value read so far; what follows is left unread.
unfoldable pub read_digits : ℕ → Bytes → ℕ → ℕ
unfolding digit_of
read_digits base [] acc = acc
read_digits base (c ∷ s) acc = elim (digit_of base c) [
  | none ↦ acc
  | some v ↦ read_digits base s (acc * base + v)
]

-- A sign and a magnitude.
pub record Scanned : Type 0 where
  pub negative : Bool
  pub magnitude : ℕ

unfoldable pub scan_number : ℕ → Bool → Bytes → Option Scanned
unfolding read_digits
scan_number base negative [] = none
scan_number base negative (c ∷ s) = elim (digit_of base c) [
  | none ↦ none
  | some v ↦ some (record { negative = negative; magnitude = read_digits base s v })
]

-- `0x` counts in base 16 if a digit follows.
unfoldable pub scan_prefix : ℕ → Bool → Bytes → Option Scanned
unfolding scan_number
scan_prefix base negative (z ∷ x ∷ d ∷ s) =
    if base == 16 && z == b'0' && (x == b'x' || x == b'X')
    then elim (digit_of 16 d) [
      | none ↦ scan_number base negative (z ∷ x ∷ d ∷ s)
      | some v ↦ scan_number base negative (d ∷ s)
    ]
    else scan_number base negative (z ∷ x ∷ d ∷ s)
scan_prefix base negative s = scan_number base negative s

unfoldable pub scan_sign : ℕ → Bytes → Option Scanned
unfolding scan_prefix
scan_sign base [] = none
scan_sign base (c ∷ s) =
    if c == b'-'
    then scan_prefix base true s
    else if c == b'+'
    then scan_prefix base false s
    else scan_prefix base false (c ∷ s)

-- Spaces, a sign, digits: `none` is `std::invalid_argument`.
unfoldable pub scan : ℕ → Bytes → Option Scanned
unfolding scan_sign
scan base s = scan_sign base (drop_while is_space s)

-- `stoul` and `stoull`: a negated magnitude wraps around.
unfoldable pub to_unsigned : Scanned → Option ℕ
to_unsigned r =
    if ltb (2 ^ 64 - 1) r.magnitude
    then none
    else some (if r.negative then (2 ^ 64 - r.magnitude) % 2 ^ 64 else r.magnitude)

unfoldable pub stoull : ℕ → Bytes → Option ℕ
unfolding scan to_unsigned
stoull base s = elim (scan base s) [ none ↦ none | some r ↦ to_unsigned r ]

-- `stoi` with 31 bits of magnitude, `stoll` with 63.
unfoldable pub to_signed : ℕ → Scanned → Option ℤ
to_signed bits r =
    if r.negative
    then (if ltb (2 ^ bits) r.magnitude then none else some (neg_ℕ r.magnitude))
    else if ltb (2 ^ bits - 1) r.magnitude
    then none
    else some (pos r.magnitude)

unfoldable pub stoi_bits : ℕ → Bytes → Option ℤ
unfolding scan to_signed
stoi_bits bits s = elim (scan 10 s) [ none ↦ none | some r ↦ to_signed bits r ]

-- `try { value = …; } catch (...) { return false; } return true;`
abbrev pub assign {ℓ} : {A : Type ℓ} → Option A → A → A × Bool
assign none value = (value, false)
assign (some v) value = (v, true)

-- `if (try_parse_…(s, result)) return result; return nullopt;`
abbrev pub returned {ℓ} : {A : Type ℓ} → A × Bool → Option A
returned (v, true) = some v
returned (v, false) = none

-- `static_cast<uint32_t>`.
abbrev pub to_uint32 : Option ℕ → Option ℕ
to_uint32 none = none
to_uint32 (some v) = some (v % 2 ^ 32)

unfoldable pub try_parse_hex : Bytes → ℕ → ℕ × Bool
unfolding stoull
try_parse_hex s value = assign (to_uint32 (stoull 16 s)) value

unfoldable pub try_parse_hex64 : Bytes → ℕ → ℕ × Bool
unfolding stoull
try_parse_hex64 s value = assign (stoull 16 s) value

unfoldable pub try_parse_oct : Bytes → ℕ → ℕ × Bool
unfolding stoull
try_parse_oct s value = assign (to_uint32 (stoull 8 s)) value

unfoldable pub try_parse_oct64 : Bytes → ℕ → ℕ × Bool
unfolding stoull
try_parse_oct64 s value = assign (stoull 8 s) value

unfoldable pub try_parse_uint : Bytes → ℕ → ℕ × Bool
unfolding stoull
try_parse_uint s value = assign (to_uint32 (stoull 10 s)) value

unfoldable pub try_parse_uint64 : Bytes → ℕ → ℕ × Bool
unfolding stoull
try_parse_uint64 s value = assign (stoull 10 s) value

unfoldable pub try_parse_int : Bytes → ℤ → ℤ × Bool
unfolding stoi_bits
try_parse_int s value = assign (stoi_bits 31 s) value

unfoldable pub try_parse_int64 : Bytes → ℤ → ℤ × Bool
unfolding stoi_bits
try_parse_int64 s value = assign (stoi_bits 63 s) value

unfoldable pub parse_hex : Bytes → Option ℕ
unfolding try_parse_hex
parse_hex s = returned (try_parse_hex s 0)

unfoldable pub parse_hex64 : Bytes → Option ℕ
unfolding try_parse_hex64
parse_hex64 s = returned (try_parse_hex64 s 0)

unfoldable pub parse_oct : Bytes → Option ℕ
unfolding try_parse_oct
parse_oct s = returned (try_parse_oct s 0)

unfoldable pub parse_oct64 : Bytes → Option ℕ
unfolding try_parse_oct64
parse_oct64 s = returned (try_parse_oct64 s 0)

unfoldable pub parse_uint : Bytes → Option ℕ
unfolding try_parse_uint
parse_uint s = returned (try_parse_uint s 0)

unfoldable pub parse_uint64 : Bytes → Option ℕ
unfolding try_parse_uint64
parse_uint64 s = returned (try_parse_uint64 s 0)

unfoldable pub parse_int : Bytes → Option ℤ
unfolding try_parse_int
parse_int s = returned (try_parse_int s (pos 0))

unfoldable pub parse_int64 : Bytes → Option ℤ
unfolding try_parse_int64
parse_int64 s = returned (try_parse_int64 s (pos 0))

abbrev pub is_nonzero : ℤ → Bool
is_nonzero (pos n) = not (n == 0)
is_nonzero (negsuc n) = true

-- The words, on the text in lower case.
unfoldable pub bool_word : Bytes → Bool → Bool × Bool
unfolding equal
bool_word str value =
    if equal str (codes "true")
    then (true, true)
    else if equal str (codes "yes")
    then (true, true)
    else if equal str (codes "on")
    then (true, true)
    else if equal str (codes "false")
    then (false, true)
    else if equal str (codes "no")
    then (false, true)
    else if equal str (codes "off")
    then (false, true)
    else (value, false)

unfoldable pub try_parse_bool : Bytes → Bool → Bool × Bool
unfolding try_parse_int bool_word to_lowercase
try_parse_bool s value =
    let (n, parsed) = try_parse_int s (pos 0) in
    if parsed then (is_nonzero n, true) else bool_word (to_lowercase s) value

unfoldable pub parse_bool : Bytes → Option Bool
unfolding try_parse_bool
parse_bool s = returned (try_parse_bool s false)
