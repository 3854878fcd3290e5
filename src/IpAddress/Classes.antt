-- ===== src/IpAddress/Classes.antt =====
-- The classification of ip_address.cpp: tests of the words of `data_` against constants.
use Prim.Native.Nat.{bit_and}
use social_network.Prelude.{ℕ, Bool, true, false, not, ◌&&◌, ◌||◌, leb, ◌==◌, if◌then◌else◌}
use social_network.IpAddress.{IpAddress, Family, v4, v6, word_at}

-- `(value[i] & mask) == address`.
abbrev pub matches : IpAddress → ℕ → ℕ → ℕ → Bool
matches ip i mask address = bit_and (word_at ip.data_ i) mask == address

abbrev pub by_family : Family → Bool → Bool → Bool
by_family v4 is4 is6 = is4
by_family v6 is4 is6 = is6

abbrev pub all_words : IpAddress → ℕ → ℕ → ℕ → ℕ → Bool
all_words ip a b c d =
    word_at ip.data_ 0 == a
    && word_at ip.data_ 1 == b
    && word_at ip.data_ 2 == c
    && word_at ip.data_ 3 == d

unfoldable pub is_wildcard : IpAddress → Bool
is_wildcard ip = by_family ip.family (word_at ip.data_ 0 == 0) (all_words ip 0 0 0 0)

unfoldable pub is_broadcast : IpAddress → Bool
is_broadcast ip = by_family ip.family (word_at ip.data_ 0 == 0xFFFFFFFF) false

unfoldable pub is_multicast : IpAddress → Bool
is_multicast ip =
    by_family ip.family (matches ip 0 0xF0000000 0xE0000000) (matches ip 0 0xFF000000 0xFF000000)

unfoldable pub is_ipv4_compatible : IpAddress → Bool
is_ipv4_compatible ip =
    by_family ip.family true
      (matches ip 0 0xFFFFFFFF 0 && matches ip 1 0xFFFFFFFF 0 && matches ip 2 0xFFFFFFFF 0)

unfoldable pub is_ipv4_mapped : IpAddress → Bool
is_ipv4_mapped ip =
    by_family ip.family false
      (matches ip 0 0xFFFFFFFF 0 && matches ip 1 0xFFFFFFFF 0 && matches ip 2 0xFFFFFFFF 0xFFFF)

-- `value[4]` stands behind the array: `behind` is the word that is there.
unfoldable pub is_loopback : ℕ → IpAddress → Bool
unfolding is_ipv4_mapped
is_loopback behind ip =
    by_family ip.family (matches ip 0 0xFF000000 0x7F000000)
      (if is_ipv4_mapped ip then bit_and behind 0xFF000000 == 0x7F000000 else all_words ip 0 0 0 1)

unfoldable pub is_unicast : IpAddress → Bool
unfolding is_wildcard is_broadcast is_multicast
is_unicast ip = not (is_wildcard ip) && not (is_broadcast ip) && not (is_multicast ip)

unfoldable pub is_linklocal : IpAddress → Bool
is_linklocal ip =
    by_family ip.family (matches ip 0 0xFFFF0000 0xA9FE0000) (matches ip 0 0xFFC00000 0xFE800000)

unfoldable pub is_sitelocal : IpAddress → Bool
is_sitelocal ip =
    by_family ip.family
      (matches ip 0 0xFF000000 0x0A000000
        || matches ip 0 0xFFFF0000 0xC0A80000
        || (leb 0xAC100000 (word_at ip.data_ 0) && leb (word_at ip.data_ 0) 0xAC1FFFFF))
      (matches ip 0 0xFFC00000 0xFEC00000 || matches ip 0 0xFE000000 0xFC000000)

unfoldable pub is_reserved : IpAddress → Bool
is_reserved ip = by_family ip.family (matches ip 0 0xF0000000 0xF0000000) false

unfoldable pub is_documentation : IpAddress → Bool
is_documentation ip =
    by_family ip.family
      (matches ip 0 0xFFFFFF00 0xC6336400
        || matches ip 0 0xFFFFFF00 0xCB007100
        || matches ip 0 0xFFFFFF00 0xC0000200)
      (matches ip 0 0xFFFFFFFF 0x20010DB8)
