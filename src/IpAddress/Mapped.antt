-- ===== src/IpAddress/Mapped.antt =====
-- The conversions of ip_address.cpp between IPv4 addresses and IPv6 addresses that map them.
use social_network.Prelude.{
  ℕ, ◌/◌, ◌%◌, ◌<◌, ◌≡◌, ap, ◌∙◌, not, [], ◌∷◌, ◌++◌, Option, none, some, if◌then◌else◌, Bytes,
  length, take, IsBytes, arith,
}
use social_network.IpAddress.{
  IpAddress, v4, v6, is_v6, bytes_of32, word_of, word_at, from_raw32, zeros,
}
use social_network.IpAddress.Classes.{is_ipv4_mapped}
use social_network.IpAddress.Order.{IsAddress}

unfoldable pub get_v4_from_ipv4_mapped : IpAddress → Option IpAddress
unfolding is_ipv4_mapped from_raw32
get_v4_from_ipv4_mapped ip =
    if is_ipv4_mapped ip then from_raw32 (word_at ip.data_ 3 ∷ []) v4 else none

unfoldable pub get_ipv4_mapped_from_ipv4 : IpAddress → Option IpAddress
unfolding from_raw32
get_ipv4_mapped_from_ipv4 ip =
    if not (is_v6 ip.family) then from_raw32 (0 ∷ 0 ∷ 0xFFFF ∷ word_of ip.data_ ∷ []) v6 else none

abbrev pub mapped_back : Option IpAddress → Option IpAddress
mapped_back none = none
mapped_back (some ip) = get_v4_from_ipv4_mapped ip

first_four :
    (s : Bytes)
    → length s ≡ 16
    → IsBytes s
    → (word_of s < 4294967296) × (bytes_of32 (word_of s) ≡ take 4 s)
first_four [] e h = ground arith
first_four (a ∷ []) e h = ground arith
first_four (a ∷ b ∷ []) e h = ground arith
first_four (a ∷ b ∷ c ∷ []) e h = ground arith
first_four (a ∷ b ∷ c ∷ d ∷ s) e (ha, (hb, (hc, (hd, _)))) =
    let n = word_of (a ∷ b ∷ c ∷ d ∷ s) in
    let e0 : n % 256 ≡ a = omega arith in
    let e1 : n / 256 % 256 ≡ b = omega arith in
    let e2 : n / 65536 % 256 ≡ c = omega arith in
    let e3 : n / 16777216 % 256 ≡ d = omega arith in
    (omega arith, λ i. e0 i ∷ e1 i ∷ e2 i ∷ e3 i ∷ [])

same_word : (n : ℕ) → n < 4294967296 → word_of (bytes_of32 n) ≡ n
same_word n h = omega arith

-- An IPv4 address that is mapped to IPv6 and back is the same address, with zeros in the bytes that
-- do not belong to it.
pub mapped_back-get_ipv4_mapped_from_ipv4 :
    (s : Bytes)
    → IsAddress (record { family = v4; data_ = s })
    → mapped_back (get_ipv4_mapped_from_ipv4 (record { family = v4; data_ = s }))
      ≡ some (record { family = v4; data_ = take 4 s ++ zeros 12 })
unfolding get_v4_from_ipv4_mapped get_ipv4_mapped_from_ipv4 from_raw32 is_ipv4_mapped
mapped_back-get_ipv4_mapped_from_ipv4 s h =
    let (small, front) = first_four s h.size h.bytes in
    ap (λ d. some (record { family = v4; data_ = d ++ zeros 12 }))
      (ap bytes_of32 (same_word (word_of s) small) ∙ front)
