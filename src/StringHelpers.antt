-- ===== src/StringHelpers.antt =====
-- service/sources/helpers/string.cpp. The C locale is assumed for `isspace`, `tolower` and
-- `toupper`: a byte from 128 on is no space and no letter. An `std::out_of_range` is `none`.
pub mod Trim
pub mod Replace
pub mod Case
mod Tests
use Prim.Native.Nat.{bit_and}
use social_network.Prelude.{
  ℕ, zero, suc, ◌+◌, ◌-◌, ◌%◌, Bool, true, false, not, ◌&&◌, ◌||◌, List, [], ◌∷◌, ◌++◌, map, Option,
  none, some, ltb, leb, ◌==◌, if◌then◌else◌, Bytes, length, get_or, set, take, drop, drop_while,
  equal, is_empty,
}

abbrev pub is_space : ℕ → Bool
is_space c = c == 32 || (leb 9 c && leb c 13)

-- `std::string(it, end)` behind the loop on `it`.
unfoldable pub trim_left : Bytes → Bytes
trim_left s = drop_while is_space s

-- `while (pos >= 0 && isspace(s[pos])) --pos;` from `pos = n - 1`: `pos + 1` at the end.
unfoldable pub last_kept : Bytes → ℕ → ℕ
last_kept s zero = zero
last_kept s (suc n) = if is_space (get_or s n 0) then last_kept s n else suc n

unfoldable pub trim_right : Bytes → Bytes
trim_right s = take (last_kept s (length s)) s

-- `while (first <= last && isspace(s[first])) ++first;` with `left = last + 1 - first`.
unfoldable pub first_kept : Bytes → ℕ → ℕ → ℕ
first_kept s first zero = first
first_kept s first (suc left) =
    if is_space (get_or s first 0) then first_kept s (suc first) left else first

-- `while (last >= first && isspace(s[last])) --last;` with `left = last + 1 - first`.
unfoldable pub end_kept : Bytes → ℕ → ℕ → ℕ
end_kept s first zero = first
end_kept s first (suc left) =
    if is_space (get_or s (first + left) 0) then end_kept s first left else first + suc left

unfoldable pub trim : Bytes → Bytes
trim s =
    let first = first_kept s 0 (length s) in
    let end = end_kept s first (length s - first) in take (end - first) (drop first s)

unfoldable pub trim_left_in_place : Bytes → Bytes
trim_left_in_place s = drop (first_kept s 0 (length s)) s

unfoldable pub trim_right_in_place : Bytes → Bytes
trim_right_in_place s = take (last_kept s (length s)) s

-- `last >= 0` is `0 < last + 1`; `resize` and then `erase`.
unfoldable pub trim_in_place : Bytes → Bytes
trim_in_place s =
    let first = first_kept s 0 (length s) in
    let end = end_kept s first (length s - first) in
    if ltb 0 end then drop first (take end s) else s

unfoldable pub starts_with : Bytes → Bytes → Bool
starts_with [] s = true
starts_with (p ∷ ps) [] = false
starts_with (p ∷ ps) (c ∷ s) = p == c && starts_with ps s

-- `s.find(from, start)`; `none` is `npos`. On the text behind `start`, and on the whole text.
unfoldable pub find : Bytes → Bytes → Option ℕ
find from [] = if starts_with from [] then some 0 else none
find from (c ∷ s) =
    if starts_with from (c ∷ s)
    then some 0
    else elim (find from s) [ none ↦ none | some n ↦ some (suc n) ]

unfoldable pub find_from : Bytes → Bytes → ℕ → Option ℕ
unfolding find
find_from s from start = elim (find from (drop start s)) [ none ↦ none | some n ↦ some (start + n) ]

-- The `do … while` of the first `replace_in_place`, on fuel; `none` is fuel that ran out.
unfoldable pub replace_loop : ℕ → Bytes → Bytes → Bytes → ℕ → Bytes → Option Bytes
unfolding find_from
replace_loop zero s from to start result = none
replace_loop (suc fuel) s from to start result = elim (find_from s from start) [
  | none ↦ some (result ++ drop start s)
  | some pos ↦
      replace_loop fuel s from to (pos + length from)
        (result ++ take (pos - start) (drop start s) ++ to)
]

-- Appending from a `start` behind the end throws.
unfoldable pub replace_in_place : Bytes → Bytes → Bytes → ℕ → Option Bytes
unfolding replace_loop equal
replace_in_place s from to start =
    if is_empty from
    then some s
    else if equal from to
    then some s
    else if ltb (length s) start
    then none
    else replace_loop (suc (length s)) s from to start (take start s)

unfoldable pub replace : Bytes → Bytes → Bytes → ℕ → Option Bytes
unfolding replace_in_place
replace s from to start = replace_in_place s from to start

-- `s.erase(pos, 1)`.
unfoldable pub erase_at : Bytes → ℕ → Bytes
erase_at s pos = take pos s ++ drop (suc pos) s

-- The `do … while` of the second `replace_in_place`: `if (to) s[pos] = to; else s.erase(pos, 1);`.
unfoldable pub replace_char_loop : ℕ → Bytes → ℕ → ℕ → ℕ → Option Bytes
unfolding find_from erase_at
replace_char_loop zero s from to start = none
replace_char_loop (suc fuel) s from to start = elim (find_from s (from ∷ []) start) [
  | none ↦ some s
  | some pos ↦
      replace_char_loop fuel (if not (to == 0) then set s pos to else erase_at s pos) from to start
]

unfoldable pub replace_char_in_place : Bytes → ℕ → ℕ → ℕ → Option Bytes
unfolding replace_char_loop
replace_char_in_place s from to start =
    if from == to then some s else replace_char_loop (suc (length s)) s from to start

unfoldable pub replace_char : Bytes → ℕ → ℕ → ℕ → Option Bytes
unfolding replace_char_in_place
replace_char s from to start = replace_char_in_place s from to start

unfoldable pub remove : Bytes → ℕ → ℕ → Option Bytes
unfolding replace_char_in_place
remove s ch start = replace_char_in_place s ch 0 start

unfoldable pub remove_in_place : Bytes → ℕ → ℕ → Option Bytes
unfolding replace_char_in_place
remove_in_place s ch start = replace_char_in_place s ch 0 start

-- One round of `translate`: the byte, its counterpart by position, or nothing.
unfoldable pub translate_byte : Bytes → Bytes → ℕ → Bytes
unfolding find
translate_byte from to c = elim (find (c ∷ []) from) [
  | none ↦ c ∷ []
  | some pos ↦ if ltb pos (length to) then get_or to pos 0 ∷ [] else []
]

unfoldable pub translate : Bytes → Bytes → Bytes → Bytes
unfolding translate_byte
translate [] from to = []
translate (c ∷ s) from to = translate_byte from to c ++ translate s from to

unfoldable pub translate_in_place : Bytes → Bytes → Bytes → Bytes
unfolding translate
translate_in_place s from to = translate s from to

-- `(uint32_t(ch) & 0xFFFFFF80) == 0` on the 32-bit pattern of the `int`.
unfoldable pub is_ascii_ch : ℕ → Bool
is_ascii_ch ch = bit_and ch 0xFFFF_FF80 == 0

unfoldable pub to_uppercase_ch : ℕ → ℕ
to_uppercase_ch c = if leb b'a' c && leb c b'z' then c - 32 else c

unfoldable pub to_lowercase_ch : ℕ → ℕ
to_lowercase_ch c = if leb b'A' c && leb c b'Z' then c + 32 else c

unfoldable pub to_uppercase : Bytes → Bytes
unfolding to_uppercase_ch
to_uppercase s = map to_uppercase_ch s

unfoldable pub to_lowercase : Bytes → Bytes
unfolding to_lowercase_ch
to_lowercase s = map to_lowercase_ch s

unfoldable pub to_uppercase_in_place : Bytes → Bytes
unfolding to_uppercase_ch
to_uppercase_in_place s = map to_uppercase_ch s

unfoldable pub to_lowercase_in_place : Bytes → Bytes
unfolding to_lowercase_ch
to_lowercase_in_place s = map to_lowercase_ch s
