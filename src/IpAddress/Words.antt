-- ===== src/IpAddress/Words.antt =====
-- The `uint32_t`s of ip_address.cpp between what is stored and what is read.
use social_network.Prelude.{ℕ, ◌<◌, ◌≡◌, ap, ◌∙◌, ◌++◌, Bytes, drop, arith}
use social_network.IpAddress.{
  IpAddress, bytes_of32, word_of, ntohl, get_htonl_v4, set_ntohl_v4, from_in_addr, zeros,
}

word_of-bytes_of32 : (n : ℕ) (s : Bytes) → n < 4294967296 → word_of (bytes_of32 n ++ s) ≡ n
word_of-bytes_of32 n s h = omega arith

ntohl_bounded : (n : ℕ) → ntohl n < 4294967296
ntohl_bounded n = omega arith

ntohl-ntohl : (n : ℕ) → n < 4294967296 → ntohl (ntohl n) ≡ n
ntohl-ntohl n h = omega arith

-- An IPv4 address that was set from a number in network order, or made from an `in_addr`, gives that
-- number back.
pub get_htonl_v4-set_ntohl_v4 :
    (ip : IpAddress) (n : ℕ)
    → n < 4294967296
    → (get_htonl_v4 (set_ntohl_v4 ip n) ≡ n) × (get_htonl_v4 (from_in_addr n) ≡ n)
unfolding get_htonl_v4 set_ntohl_v4 from_in_addr
get_htonl_v4-set_ntohl_v4 ip n h =
    let stored = word_of-bytes_of32 (ntohl n) in
    (
      ap ntohl (stored (drop 4 ip.data_) (ntohl_bounded n)) ∙ ntohl-ntohl n h,
      ap ntohl (stored (zeros 12) (ntohl_bounded n)) ∙ ntohl-ntohl n h,
    )
