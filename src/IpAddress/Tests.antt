-- ===== src/IpAddress/Tests.antt =====
-- Runs of the address functions, and their theorems at concrete addresses.
use social_network.Prelude.{
  equal, Bool-cases, inl, inr, true, false, if◌then◌else◌, Bool, ◌≡◌, refl, false, not, [], ◌∷◌,
  ◌++◌, none, some, ltb, leb, ◌==◌, Bytes, codes, drop, arith, drop_while, ◌≤◌, ◌⊎◌, length,
}
use social_network.StringHelpers.{starts_with, find}
use social_network.IpAddress.Text.Trimming.{trim_v6_string-ends}
use social_network.IpAddress.{
  IpAddress, Family, v4, v6, zeros, from_in_addr, equals, differs, greater, greater_equal, less,
  less_equal, increment, address_length,
}
use social_network.IpAddress.Classes.{is_loopback, is_multicast}
use social_network.IpAddress.Text.{try_family, trim_v6_string, try_parse, to_string, hex_4x}
use social_network.IpAddress.Order.{IsAddress, rank, comparisons-rank}
use social_network.IpAddress.Arithmetic.{StepsUp, increment-StepsUp}
use social_network.IpAddress.Text.Parsing.{Writes, Outcome, try_parse-Outcome}

-- 127.0.0.1 as `inet_pton` writes it, and 10.0.0.255.
abbrev localhost : IpAddress
localhost = record { family = v4; data_ = 127 ∷ 0 ∷ 0 ∷ 1 ∷ zeros 12 }

abbrev ten : IpAddress
ten = record { family = v4; data_ = 10 ∷ 0 ∷ 0 ∷ 255 ∷ zeros 12 }

-- ::1
abbrev localhost6 : IpAddress
localhost6 = record { family = v6; data_ = zeros 15 ++ 1 ∷ [] }

localhost-IsAddress : IsAddress localhost
localhost-IsAddress = record { size = refl; bytes = ground arith }

ten-IsAddress : IsAddress ten
ten-IsAddress = record { size = refl; bytes = ground arith }

-- The words are read with the low byte first, so an address in network order is not recognised.
localhost_class :
    (is_loopback 0 localhost ≡ false)
    × (is_loopback 0 localhost6 ≡ false)
    × (is_multicast (record { family = v4; data_ = 224 ∷ 0 ∷ 0 ∷ 1 ∷ zeros 12 }) ≡ false)
unfolding is_loopback is_multicast
localhost_class = (refl, refl, refl)

-- An address made from an `in_addr` prints its bytes in the other order.
from_in_addr_text : to_string 0 (from_in_addr 0x0100007F) ≡ codes "1.0.0.127"
unfolding to_string from_in_addr
from_in_addr_text = refl

localhost_text : to_string 0 localhost ≡ codes "127.0.0.1"
unfolding to_string
localhost_text = refl

-- `{:4x}` fills with spaces.
padded : hex_4x 0xdb8 ≡ codes " db8"
unfolding hex_4x
padded = refl

documentation_text :
    to_string 0 (record { family = v6; data_ = 32 ∷ 1 ∷ 13 ∷ 184 ∷ zeros 11 ++ 1 ∷ [] })
    ≡ codes "2001: db8::   1"
unfolding to_string
documentation_text = refl

-- The only zero of a valid address, or its last one, is taken away with its digit.
trimmed :
    (trim_v6_string (codes "1:0:2:0:3:4:5:6") ≡ some (codes "1::2::3:4:5:6"))
    × (trim_v6_string (codes "1:2:3:4:5:6:7:0") ≡ some (codes "1:2:3:4:5:6:7:"))
    × (trim_v6_string (codes "2001:0db8::0001") ≡ some (codes "2001:db8::1"))
unfolding trim_v6_string starts_with drop_while
trimmed = (refl, refl, refl)

families :
    (try_family (codes "127.0.0.1") ≡ some v4)
    × (try_family (codes "::1") ≡ some v6)
    × (try_family (codes "::ffff:1.2.3.4") ≡ none)
unfolding try_family starts_with
families = (refl, refl, refl)

-- An `inet_pton` that knows one text of IPv4, and leaves three bytes of one that is none.
abbrev inet_pton : Family → Bytes → Bool × Bytes
unfolding equal
inet_pton v4 s =
    if equal s (codes "127.0.0.1") then (true, 127 ∷ 0 ∷ 0 ∷ 1 ∷ []) else (false, 1 ∷ 2 ∷ 3 ∷ [])
inet_pton v6 s = (false, [])

inet_pton-Writes : Writes inet_pton
unfolding inet_pton
inet_pton-Writes v4 s = elim (Bool-cases (equal s (codes "127.0.0.1"))) [
  | inl e ↦ rw e (omega arith, (omega arith, (omega arith, (omega arith, (omega arith, tt)))))
  | inr e ↦ rw e (omega arith, (omega arith, (omega arith, (omega arith, tt))))
]
inet_pton-Writes v6 s = (omega arith, tt)

try_parse-Outcome_example :
    Outcome ten (try_family (codes " 127.0.0.1")) (try_parse inet_pton ten (codes " 127.0.0.1"))
    × IsAddress (try_parse inet_pton ten (codes " 127.0.0.1")).0
try_parse-Outcome_example =
    try_parse-Outcome inet_pton inet_pton-Writes ten (codes " 127.0.0.1") ten-IsAddress

comparisons-rank_example :
    (equals localhost ten ≡ (rank localhost == rank ten))
    × (differs localhost ten ≡ not (rank localhost == rank ten))
    × (greater localhost ten ≡ ltb (rank ten) (rank localhost))
    × (greater_equal localhost ten ≡ leb (rank ten) (rank localhost))
    × (less localhost ten ≡ ltb (rank localhost) (rank ten))
    × (less_equal localhost ten ≡ leb (rank localhost) (rank ten))
comparisons-rank_example = comparisons-rank localhost ten localhost-IsAddress ten-IsAddress

increment-StepsUp_example :
    StepsUp ten (increment ten)
    × IsAddress (increment ten)
    × ((increment ten).family ≡ ten.family)
    × (drop (address_length ten) (increment ten).data_ ≡ drop (address_length ten) ten.data_)
increment-StepsUp_example = increment-StepsUp ten ten-IsAddress

trim_v6_string-ends_example :
    (r : Bytes) × (trim_v6_string (codes "2001:0db8::0001") ≡ some r)
    × (length r ≤ length (codes "2001:0db8::0001"))
    × ((r ≡ codes "2001:0db8::0001") ⊎ (find (codes ":::") r ≡ none))
trim_v6_string-ends_example = trim_v6_string-ends (codes "2001:0db8::0001")
