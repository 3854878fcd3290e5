-- ===== src/Url/Codec/RoundTrip.antt =====
-- `Url::encode` and `Url::decode` against each other, and the bytes of an encoded text.
use social_network.Prelude.{
  ℕ, ◌+◌, ◌*◌, ◌/◌, ◌%◌, ◌<◌, ◌≡◌, refl, sym, ap, ◌∙◌, ◌⊎◌, inl, inr, Bool, true, false, ◌&&◌, ◌||◌,
  [], ◌∷◌, ◌++◌, append_assoc, append-nil, Option, none, some, arith, ◌==◌, Bool-cases, Bytes,
  IsBytes, has, All, All-append,
}
use social_network.Format.{hex_digit, hex_byte}
use social_network.Url.Codec.{
  is_unreserved, is_coded, encode_byte, encode, hex_value, escaped, decode_loop, decode,
}

-- `encode` without its accumulator.
unfoldable pub encoding : Bytes → Bytes → Bytes
encoding reserved [] = []
encoding reserved (c ∷ s) = encode_byte reserved c ++ encoding reserved s

pub encode-encoding : (s reserved out : Bytes) → encode s reserved out ≡ out ++ encoding reserved s
unfolding encode encoding
encode-encoding [] reserved out = sym (append-nil out)
encode-encoding (c ∷ s) reserved out =
    encode-encoding s reserved (out ++ encode_byte reserved c)
    ∙ append_assoc out (encode_byte reserved c) (encoding reserved s)

hex_value-hex_digit : (v : ℕ) → v < 16 → hex_value (hex_digit v) ≡ some v
unfolding hex_value hex_digit
hex_value-hex_digit v h = ground arith

both_digits : Option ℕ → Option ℕ → Option ℕ
both_digits a b = elim a [
  | none ↦ none
  | some c1 ↦ elim b [ none ↦ none | some c2 ↦ some ((16 * c1 % 256 + c2) % 256) ]
]

escaped-hex_byte : (c : ℕ) (s : Bytes) → c < 256 → escaped (hex_byte c ++ s) ≡ some c
unfolding escaped hex_byte both_digits
escaped-hex_byte c s h =
    let hi : hex_value (hex_digit (c / 16)) ≡ some (c / 16) =
      hex_value-hex_digit (c / 16) (omega arith) in
    let lo : hex_value (hex_digit (c % 16)) ≡ some (c % 16) =
      hex_value-hex_digit (c % 16) (omega arith) in
    let meet : (16 * (c / 16) % 256 + c % 16) % 256 ≡ c = omega arith in
    (λ i. both_digits (hi i) (lo i)) ∙ ap some meet

percent_illegal : (c : ℕ) (reserved : Bytes) → is_coded reserved c ≡ false → (c == b'%') ≡ false
unfolding has
percent_illegal c reserved h = ground arith

no_plus : (q b : Bool) → (q && false && b) ≡ false
no_plus true b = refl
no_plus false b = refl

decode_plain :
    (q : Bool) (out : Bytes) (c : ℕ) (s : Bytes)
    → (c == b'%') ≡ false
    → decode_loop false q out 0 (c ∷ s) ≡ decode_loop false (q || c == b'?') (out ++ c ∷ []) 0 s
unfolding decode_loop
decode_plain q out c s h = rw (no_plus (q || c == b'?') (c == b'+'), h, decode_loop)

after_escape : Bool → Bytes → Bytes → Option ℕ → Option Bytes
after_escape q out s o = elim o [ none ↦ none | some d ↦ decode_loop false q (out ++ d ∷ []) 2 s ]

decode_percent :
    (q : Bool) (out : Bytes) (h l : ℕ) (s : Bytes) (d : ℕ)
    → escaped (h ∷ l ∷ s) ≡ some d
    → decode_loop false q out 0 (b'%' ∷ h ∷ l ∷ s)
      ≡ decode_loop false (q || b'%' == b'?') (out ++ d ∷ []) 0 s
unfolding decode_loop after_escape
decode_percent q out h l s d e =
    rw (no_plus (q || false) false, decode_loop) (ap (after_escape (q || false) out (h ∷ l ∷ s)) e)

decode_loop-encode_byte :
    (q : Bool) (reserved out : Bytes) (c : ℕ) (rest : Bytes)
    → c < 256
    → (q' : Bool) × (decode_loop false q out 0 (encode_byte reserved c ++ rest)
        ≡ decode_loop false q' (out ++ c ∷ []) 0 rest)
unfolding encode_byte
decode_loop-encode_byte q reserved out c rest h = elim (Bool-cases (is_unreserved c)) [
  | inl e ↦ (q || c == b'?', rw e (decode_plain q out c rest (ground (arith, e))))
  | inr e ↦ elim (Bool-cases (is_coded reserved c)) [
    | inl f ↦ (
      q || b'%' == b'?',
      rw (e, f)
          (decode_percent q out (hex_digit (c / 16)) (hex_digit (c % 16)) rest c
            (escaped-hex_byte c rest h)),
    )
    | inr f ↦ (q || c == b'?', rw (e, f) (decode_plain q out c rest (percent_illegal c reserved f)))
  ]
]

decode_loop-encoding :
    (reserved s out : Bytes) (q : Bool)
    → IsBytes s
    → decode_loop false q out 0 (encoding reserved s) ≡ some (out ++ s)
unfolding encoding
decode_loop-encoding reserved [] out q h = unfold decode_loop in rw append-nil
decode_loop-encoding reserved (c ∷ s) out q h =
    let (q', step) = decode_loop-encode_byte q reserved out c (encoding reserved s) h.0 in
    step
    ∙ decode_loop-encoding reserved s (out ++ c ∷ []) q' h.1
    ∙ ap some (append_assoc out (c ∷ []) s)

after_decode : Bytes → Option Bytes → Bytes
after_decode old o = elim o [ none ↦ old | some result ↦ result ]

pub decode-encoding :
    (reserved s old : Bytes) → IsBytes s → decode (encoding reserved s) old false ≡ s
unfolding decode after_decode
decode-encoding reserved s old h =
    ap (after_decode old) (decode_loop-encoding reserved s [] false h)

-- Decoding gives back every text of bytes, whatever set was reserved when it was encoded.
pub decode-encode :
    (s reserved old : Bytes) → IsBytes s → decode (encode s reserved []) old false ≡ s
decode-encode s reserved old h =
    ap (λ t. decode t old false) (encode-encoding s reserved []) ∙ decode-encoding reserved s old h

-- A byte that an encoded text may hold: one that needs no escape, or a byte of an escape.
abbrev pub IsEncoded : Bytes → ℕ → Type 0
IsEncoded reserved c = (is_unreserved c ≡ true) ⊎ (is_coded reserved c ≡ false) ⊎ (c ≡ b'%')

hex_digit-unreserved : (v : ℕ) → v < 16 → is_unreserved (hex_digit v) ≡ true
unfolding hex_digit
hex_digit-unreserved v h = ground arith

encode_byte-IsEncoded :
    (reserved : Bytes) (c : ℕ) → c < 256 → All (IsEncoded reserved) (encode_byte reserved c)
unfolding encode_byte
encode_byte-IsEncoded reserved c h = elim (Bool-cases (is_unreserved c)) [
  | inl e ↦ rw e (inl e, tt)
  | inr e ↦ elim (Bool-cases (is_coded reserved c)) [
    | inl f ↦
        rw (e, f)
          (
            inr (inr refl),
            (
              inl (hex_digit-unreserved (c / 16) (omega arith)),
              (inl (hex_digit-unreserved (c % 16) (omega arith)), tt),
            ),
          )
    | inr f ↦ rw (e, f) (inr (inl f), tt)
  ]
]

pub encoding-IsEncoded :
    (reserved s : Bytes) → IsBytes s → All (IsEncoded reserved) (encoding reserved s)
unfolding encoding
encoding-IsEncoded reserved [] h = tt
encoding-IsEncoded reserved (c ∷ s) h =
    All-append (IsEncoded reserved) (encode_byte reserved c) (encoding reserved s)
      (encode_byte-IsEncoded reserved c h.0) (encoding-IsEncoded reserved s h.1)
