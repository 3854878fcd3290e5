-- ===== src/Url/Codec.antt =====
-- `Url::encode` and `Url::decode`.
pub mod RoundTrip
use social_network.Prelude.{
  ℕ, zero, suc, ◌+◌, ◌-◌, ◌*◌, ◌%◌, Bool, true, false, ◌&&◌, ◌||◌, List, [], ◌∷◌, ◌++◌, Option,
  none, some, leb, ◌==◌, if◌then◌else◌, Bytes, has,
}
use social_network.Format.{hex_byte}
use social_network.Url.Model.{url_illegal}

abbrev pub is_unreserved : ℕ → Bool
is_unreserved c =
    (leb b'a' c && leb c b'z')
    || (leb b'A' c && leb c b'Z')
    || (leb b'0' c && leb c b'9')
    || (c == b'-' || c == b'_' || c == b'.' || c == b'~')

-- `char` is signed, so `c <= 0x20 || c >= 0x7F` holds of every byte from 128 on too.
abbrev pub is_coded : Bytes → ℕ → Bool
is_coded reserved c = (leb c 0x20 || leb 0x7F c) || has c url_illegal || has c reserved

-- What one round of `encode` appends.
unfoldable pub encode_byte : Bytes → ℕ → Bytes
unfolding has hex_byte
encode_byte reserved c =
    if is_unreserved c then c ∷ [] else if is_coded reserved c then b'%' ∷ hex_byte c else c ∷ []

unfoldable pub encode : Bytes → Bytes → Bytes → Bytes
unfolding encode_byte
encode [] reserved encoded = encoded
encode (c ∷ str) reserved encoded = encode str reserved (encoded ++ encode_byte reserved c)

unfoldable pub hex_value : ℕ → Option ℕ
hex_value c =
    if leb b'0' c && leb c b'9'
    then some (c - b'0')
    else if leb b'A' c && leb c b'F'
    then some (c - b'A' + 10)
    else if leb b'a' c && leb c b'f'
    then some (c - b'a' + 10)
    else none

-- `hi` and `lo` behind a `%`: `none` where the text ends or a digit is invalid.
unfoldable pub escaped : Bytes → Option ℕ
unfolding hex_value
escaped [] = none
escaped (hi ∷ []) = none
escaped (hi ∷ lo ∷ s) = elim (hex_value hi) [
  | none ↦ none
  | some c1 ↦ elim (hex_value lo) [ none ↦ none | some c2 ↦ some ((16 * c1 % 256 + c2) % 256) ]
]

-- The loop of `decode`; `skip` bytes ahead were read already, as the digits of an escape.
unfoldable pub decode_loop : Bool → Bool → Bytes → ℕ → Bytes → Option Bytes
unfolding escaped
decode_loop plus_as_space in_query result skip [] = some result
decode_loop plus_as_space in_query result (suc skip) (c ∷ s) =
    decode_loop plus_as_space in_query result skip s
decode_loop plus_as_space in_query result zero (c ∷ s) =
    let q = in_query || c == b'?' in
    elim (q && plus_as_space && c == b'+') [
      | true ↦ decode_loop plus_as_space q (result ++ b' ' ∷ []) 0 s
      | false ↦ elim (c == b'%') [
        | true ↦ elim (escaped s) [
          | none ↦ none
          | some d ↦ decode_loop plus_as_space q (result ++ d ∷ []) 2 s
        ]
        | false ↦ decode_loop plus_as_space q (result ++ c ∷ []) 0 s
      ]
    ]

-- An invalid text leaves `decoded` as it was.
unfoldable pub decode : Bytes → Bytes → Bool → Bytes
unfolding decode_loop
decode str decoded plus_as_space = elim (decode_loop plus_as_space false [] 0 str) [
  | none ↦ decoded
  | some result ↦ result
]
