-- ===== src/IpAddress/Text.antt =====
-- The text form of ip_address.cpp. `inet_pton` is a parameter: whether it answers 1, and the bytes
-- that it writes; it may have written some where it answers 0 or -1.
pub mod Trimming
pub mod Parsing
use social_network.Prelude.{
  ℕ, zero, suc, ◌+◌, ◌-◌, ◌*◌, ◌/◌, ◌%◌, Bool, true, false, not, ◌&&◌, ◌||◌, List, [], ◌∷◌, ◌++◌,
  Option, none, some, ltb, leb, ◌==◌, if◌then◌else◌, Bytes, codes, length, get_or, take, drop,
  take_while, drop_while, is_empty,
}
use social_network.Format.{decimal, hex_digit}
use social_network.StringHelpers.{trim, find, find_from, replace_in_place}
use social_network.IpAddress.{IpAddress, Family, v4, v6, zeros, wildcard, of_family, is_v6}
use social_network.IpAddress.Classes.{is_ipv4_compatible, is_ipv4_mapped, is_loopback}

-- `std::count`.
abbrev pub count : ℕ → Bytes → ℕ
count c [] = 0
count c (d ∷ s) = if d == c then suc (count c s) else count c s

unfoldable pub is_v4_format : Bytes → Bool
is_v4_format addr = count b'.' addr == 3

abbrev pub double_colon : Bytes
double_colon = codes "::"

abbrev pub contains : Bytes → Bytes → Bool
contains what s = elim (find what s) [ none ↦ false | some pos ↦ true ]

unfoldable pub is_v6_format : Bytes → Bool
unfolding find
is_v6_format addr =
    let separators = count b':' addr in
    if separators == 7 then true else ltb separators 7 && contains double_colon addr

unfoldable pub try_family : Bytes → Option Family
unfolding is_v4_format is_v6_format
try_family addr =
    if is_v4_format addr && not (is_v6_format addr)
    then some v4
    else if not (is_v4_format addr) && is_v6_format addr
    then some v6
    else none

abbrev pub one_more : Option ℕ → Option ℕ
one_more none = none
one_more (some n) = some (suc n)

-- The rounds of the first loop of `trim_v6_string` from `pos`, on fuel; `none` is fuel that ran out,
-- and `len - 2` wraps around.
unfoldable pub count_double : ℕ → Bytes → Option ℕ → Option ℕ
unfolding find_from
count_double zero s pos = none
count_double (suc fuel) s none = some 0
count_double (suc fuel) s (some pos) =
    let rest = count_double fuel s (find_from s double_colon (pos + 2)) in
    if leb pos ((length s + 18446744073709551614) % 18446744073709551616)
    then one_more rest
    else some 0

-- `len >= 2 && v6_addr[len-1] == ':' && v6_addr[len-2] != ':'`.
abbrev pub ends_in_colon : Bytes → Bool
ends_in_colon s =
    leb 2 (length s) && get_or s (length s - 1) 0 == b':' && not (get_or s (length s - 2) 0 == b':')

-- `while (s.find(from) != npos) replace_in_place(s, from, to);`, on fuel; `none` is fuel that ran out.
unfoldable pub replace_while : ℕ → Bytes → Bytes → Bytes → Option Bytes
unfolding find replace_in_place
replace_while zero from to s = none
replace_while (suc fuel) from to s = elim (find from s) [
  | none ↦ some s
  | some pos ↦ elim (replace_in_place s from to 0) [
    | none ↦ none
    | some s' ↦ replace_while fuel from to s'
  ]
]

abbrev pub is_zero_digit : ℕ → Bool
is_zero_digit c = c == b'0'

-- The loops behind the first one.
unfoldable pub trim_zeros : Bytes → Option Bytes
unfolding replace_while
trim_zeros addr =
    elim (replace_while (suc (length addr)) (codes ":0") (codes ":")
      (drop_while is_zero_digit addr)) [
        | none ↦ none
        | some s ↦ replace_while (suc (length addr)) (codes ":::") double_colon s
      ]

unfoldable pub trim_v6_string : Bytes → Option Bytes
unfolding count_double trim_zeros find
trim_v6_string addr = elim (count_double (suc (length addr)) addr (find double_colon addr)) [
  | none ↦ none
  | some double_separators ↦
      if ltb 1 double_separators || ends_in_colon addr then some addr else trim_zeros addr
]

-- A C string ends at its first zero byte.
abbrev pub c_str : Bytes → Bytes
c_str s = take_while (λ c. not (c == 0)) s

-- The text before the `%` of a scope, and without the `[` before it.
unfoldable pub unscoped : Bytes → Bytes
unfolding find
unscoped s =
    let start = if get_or s 0 0 == b'[' then 1 else 0 in
    elim (find (b'%' ∷ []) s) [ none ↦ s | some pos ↦ take (pos - start) (drop start s) ]

-- The bytes go over the zeros of the object.
abbrev pub written : Family → Bool × Bytes → IpAddress × Bool
written family (parsed, raw) =
    (record { family = family; data_ = raw ++ drop (length raw) (zeros 16) }, parsed)

module _ (inet_pton : Family → Bytes → Bool × Bytes) where
  abbrev pub parse_v6 : Option Bytes → IpAddress × Bool
  parse_v6 none = (of_family v6, false)
  parse_v6 (some s) = written v6 (inet_pton v6 (c_str (unscoped s)))

  abbrev pub parse_trimmed : Family → Bytes → IpAddress × Bool
  parse_trimmed v4 addr_str = written v4 (inet_pton v4 (c_str addr_str))
  parse_trimmed v6 addr_str = parse_v6 (trim_v6_string addr_str)

  -- `try_parse` with a family, which sets the whole object before it reads.
  unfoldable pub try_parse_family : Bytes → Family → IpAddress × Bool
  unfolding trim of_family trim_v6_string unscoped
  try_parse_family addr family =
      if is_empty (trim addr) then (of_family family, true) else parse_trimmed family (trim addr)

  unfoldable pub try_parse : IpAddress → Bytes → IpAddress × Bool
  unfolding try_family try_parse_family
  try_parse this addr = elim (try_family addr) [
    | none ↦ (this, false)
    | some family ↦ try_parse_family addr family
  ]

  -- `none` is the `runtime_error` of the constructor.
  unfoldable pub from_text : Bytes → Option IpAddress
  unfolding try_parse wildcard
  from_text addr = let (ip, parsed) = try_parse wildcard addr in if parsed then some ip else none

-- `words[i]`, and `htons` of it: the number that the two bytes spell in network order.
abbrev pub words : Bytes → List ℕ
words [] = []
words (c ∷ []) = []
words (c ∷ d ∷ s) = (c + 256 * d) ∷ words s

abbrev pub htons : ℕ → ℕ
htons w = w % 256 * 256 + w / 256

-- `{:4x}`: at least four places, filled with spaces on the left.
abbrev pub pad_hex : Bool → List ℕ → Bytes
pad_hex blank [] = []
pad_hex blank (v ∷ []) = hex_digit v ∷ []
pad_hex blank (v ∷ w ∷ vs) =
    (if blank && v == 0 then b' ' else hex_digit v) ∷ pad_hex (blank && v == 0) (w ∷ vs)

unfoldable pub hex_4x : ℕ → Bytes
unfolding hex_digit
hex_4x n = pad_hex true (n / 4096 % 16 ∷ n / 256 % 16 ∷ n / 16 % 16 ∷ n % 16 ∷ [])

abbrev pub starts_zero : List ℕ → Bool
starts_zero [] = false
starts_zero (w ∷ ws) = w == 0

-- The loop over the words: `later` is `i > 0`, and `skipping` holds inside the run of zeros that the
-- two colons stand for.
unfoldable pub words_text : Bool → Bool → Bool → List ℕ → Bytes
unfolding hex_4x
words_text zero_sequence later skipping [] = []
words_text zero_sequence later skipping (w ∷ ws) =
    if skipping && w == 0
    then words_text zero_sequence true true ws
    else if not zero_sequence && w == 0 && starts_zero ws
    then double_colon ++ words_text true true true ws
    else (if later && not skipping then b':' ∷ [] else [])
      ++ hex_4x (htons w)
      ++ words_text zero_sequence true false ws

abbrev pub dotted : ℕ → ℕ → ℕ → ℕ → Bytes
dotted a b c d =
    decimal a ++ b'.' ∷ [] ++ decimal b ++ b'.' ∷ [] ++ decimal c ++ b'.' ∷ [] ++ decimal d

-- `behind` is the word that `is_loopback` reads behind the array.
unfoldable pub to_string : ℕ → IpAddress → Bytes
unfolding decimal is_ipv4_compatible is_ipv4_mapped is_loopback words_text
to_string behind ip =
    let byte = get_or ip.data_ in
    if not (is_v6 ip.family)
    then dotted (byte 0 0) (byte 1 0) (byte 2 0) (byte 3 0)
    else if (is_ipv4_compatible ip && not (is_loopback behind ip)) || is_ipv4_mapped ip
    then (if get_or (words ip.data_) 5 0 == 0 then double_colon else codes "::ffff:")
      ++ (if byte 12 0 == 0 then dotted (byte 12 0) (byte 13 0) (byte 14 0) (byte 15 0) else [])
    else words_text false false false (words ip.data_)
