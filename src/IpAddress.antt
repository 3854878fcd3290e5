-- ===== src/IpAddress.antt =====
-- service/sources/helpers/ip_address.cpp, for a little-endian host. The 16 bytes of `data_` are a
-- list; a `uint32_t` read or written through a cast pointer is its four bytes, the low one first.
pub mod Classes
pub mod Text
pub mod Mapped
pub mod Order
pub mod Arithmetic
pub mod Words
mod Tests
use Prim.Native.Nat.{bit_and, bit_or, bit_xor, compare, Ordering}
use social_network.Prelude.{
  ℕ, zero, suc, ◌+◌, ◌-◌, ◌*◌, ◌/◌, ◌%◌, Bool, true, false, not, ◌&&◌, ◌||◌, List, [], ◌∷◌, ◌++◌,
  map, Option, none, some, ltb, leb, ◌==◌, if◌then◌else◌, Bytes, length, get_or, take, drop,
  reverse,
}

pub data Family : Type 0 where
  v4 v6 : Family

pub record IpAddress : Type 0 where
  pub family : Family
  pub data_ : Bytes

-- The values of the enumerators: `AF_INET` and `AF_INET6`.
abbrev pub af : Family → ℕ
af v4 = 2
af v6 = 10

abbrev pub same_family : Family → Family → Bool
same_family f g = af f == af g

abbrev pub size_of : Family → ℕ
size_of v4 = 4
size_of v6 = 16

abbrev pub zeros : ℕ → Bytes
zeros zero = []
zeros (suc n) = 0 ∷ zeros n

-- The bytes of a `uint16_t` and of a `uint32_t` in memory, and the `uint32_t` at index `i`.
abbrev pub bytes_of16 : ℕ → Bytes
bytes_of16 n = n % 256 ∷ n / 256 % 256 ∷ []

abbrev pub bytes_of32 : ℕ → Bytes
bytes_of32 n = n % 256 ∷ n / 256 % 256 ∷ n / 65536 % 256 ∷ n / 16777216 % 256 ∷ []

abbrev pub bytes_of_all : (ℕ → Bytes) → List ℕ → Bytes
bytes_of_all bytes_of [] = []
bytes_of_all bytes_of (n ∷ raw) = bytes_of n ++ bytes_of_all bytes_of raw

abbrev pub word_of : Bytes → ℕ
word_of s = get_or s 0 0 + 256 * get_or s 1 0 + 65536 * get_or s 2 0 + 16777216 * get_or s 3 0

abbrev pub word_at : Bytes → ℕ → ℕ
word_at s i = word_of (drop (4 * i) s)

abbrev pub ntohl : ℕ → ℕ
ntohl n = word_of (reverse (bytes_of32 n))

-- `*(reinterpret_cast<uint32_t*>(data_)) = n;`
abbrev pub store_word : ℕ → Bytes → Bytes
store_word n s = bytes_of32 n ++ drop 4 s

-- The default constructor and `clear`.
unfoldable pub wildcard : IpAddress
wildcard = record { family = v4; data_ = zeros 16 }

unfoldable pub of_family : Family → IpAddress
of_family family = record { family = family; data_ = zeros 16 }

-- `none` is the `runtime_error` of a wrong size; what is not written keeps the initializer's zeros.
unfoldable pub from_raw8 : Bytes → Family → Option IpAddress
from_raw8 raw family =
    if length raw == size_of family
    then some (record { family = family; data_ = raw ++ zeros (16 - size_of family) })
    else none

unfoldable pub from_raw16 : List ℕ → Family → Option IpAddress
from_raw16 raw family =
    if length raw == size_of family / 2
    then some (record {
      family = family;
      data_ = bytes_of_all bytes_of16 raw ++ zeros (16 - size_of family);
    })
    else none

unfoldable pub from_raw32 : List ℕ → Family → Option IpAddress
from_raw32 raw family =
    if length raw == size_of family / 4
    then some (record {
      family = family;
      data_ = bytes_of_all bytes_of32 raw ++ zeros (16 - size_of family);
    })
    else none

-- From an `in_addr`, whose member is `s_addr`, and from the 16 bytes of an `in6_addr`.
unfoldable pub from_in_addr : ℕ → IpAddress
from_in_addr s_addr = record { family = v4; data_ = store_word (ntohl s_addr) (zeros 16) }

unfoldable pub from_in6_addr : Bytes → IpAddress
from_in6_addr s6_addr = record { family = v6; data_ = s6_addr }

-- What a `sockaddr` holds, by its `sa_family`.
pub data Sockaddr : Type 0 where
  sockaddr_in : ℕ → Sockaddr
  sockaddr_in6 : Bytes → Sockaddr
  sockaddr_other : ℕ → Sockaddr

unfoldable pub from_sockaddr : Sockaddr → Option IpAddress
unfolding from_in_addr from_in6_addr
from_sockaddr (sockaddr_in s_addr) = some (from_in_addr s_addr)
from_sockaddr (sockaddr_in6 s6_addr) = some (from_in6_addr s6_addr)
from_sockaddr (sockaddr_other sa_family) = none

unfoldable pub swap : IpAddress → IpAddress → IpAddress × IpAddress
swap this ip = (
  record this { family = ip.family; data_ = ip.data_ },
  record ip { family = this.family; data_ = this.data_ },
)

unfoldable pub clear : IpAddress → IpAddress
clear this = record this { family = v4; data_ = zeros 16 }

abbrev pub is_v6 : Family → Bool
is_v6 v4 = false
is_v6 v6 = true

-- `length()`, and `data()`: the bytes that count.
unfoldable pub address_length : IpAddress → ℕ
address_length ip = if is_v6 ip.family then 16 else 4

unfoldable pub address_data : IpAddress → Bytes
unfolding address_length
address_data ip = take (address_length ip) ip.data_

unfoldable pub memcmp : Bytes → Bytes → Ordering
memcmp [] t = Ordering.eq
memcmp (c ∷ s) [] = Ordering.eq
memcmp (c ∷ s) (d ∷ t) = elim (compare c d) [
  | Ordering.lt ↦ Ordering.lt
  | Ordering.eq ↦ memcmp s t
  | Ordering.gt ↦ Ordering.gt
]

abbrev pub is_eq : Ordering → Bool
is_eq o = elim o [ Ordering.eq ↦ true | _ ↦ false ]

abbrev pub is_gt : Ordering → Bool
is_gt o = elim o [ Ordering.gt ↦ true | _ ↦ false ]

abbrev pub compare_data : IpAddress → IpAddress → Ordering
compare_data this rsh =
    memcmp (take (address_length this) this.data_) (take (address_length this) rsh.data_)

unfoldable pub equals : IpAddress → IpAddress → Bool
unfolding address_length memcmp
equals this rsh =
    if not (same_family this.family rsh.family) then false else is_eq (compare_data this rsh)

unfoldable pub differs : IpAddress → IpAddress → Bool
unfolding equals
differs this rsh = not (equals this rsh)

unfoldable pub greater : IpAddress → IpAddress → Bool
unfolding address_length memcmp
greater this rsh =
    if ltb (af rsh.family) (af this.family)
    then true
    else if ltb (af this.family) (af rsh.family)
    then false
    else is_gt (compare_data this rsh)

unfoldable pub greater_equal : IpAddress → IpAddress → Bool
unfolding equals greater
greater_equal this rsh = if equals this rsh then true else greater this rsh

unfoldable pub less : IpAddress → IpAddress → Bool
unfolding equals greater
less this rsh = if equals this rsh then false else not (greater this rsh)

unfoldable pub less_equal : IpAddress → IpAddress → Bool
unfolding equals less
less_equal this rsh = if equals this rsh then true else less this rsh

-- The loop of `&`, `|` and `^`.
unfoldable pub zip_bytes : (ℕ → ℕ → ℕ) → Bytes → Bytes → Bytes
zip_bytes op [] t = []
zip_bytes op (c ∷ s) [] = []
zip_bytes op (c ∷ s) (d ∷ t) = op c d ∷ zip_bytes op s t

abbrev pub combine : (ℕ → ℕ → ℕ) → IpAddress → IpAddress → Option IpAddress
combine op this rsh =
    if not (same_family this.family rsh.family)
    then none
    else from_raw8
        (zip_bytes op (take (address_length this) this.data_)
          (take (address_length this) rsh.data_))
        this.family

unfoldable pub bitwise_and : IpAddress → IpAddress → Option IpAddress
unfolding zip_bytes from_raw8 address_length
bitwise_and this rsh = combine bit_and this rsh

unfoldable pub bitwise_or : IpAddress → IpAddress → Option IpAddress
unfolding zip_bytes from_raw8 address_length
bitwise_or this rsh = combine bit_or this rsh

unfoldable pub bitwise_xor : IpAddress → IpAddress → Option IpAddress
unfolding zip_bytes from_raw8 address_length
bitwise_xor this rsh = combine bit_xor this rsh

-- `~` on a `uint8_t`.
abbrev pub flip : ℕ → ℕ
flip c = 255 - c

unfoldable pub complement : IpAddress → Option IpAddress
unfolding from_raw8 address_length
complement this = from_raw8 (map flip (take (address_length this) this.data_)) this.family

unfoldable pub to_binary_v4 : IpAddress → Option Bytes
to_binary_v4 ip = if not (is_v6 ip.family) then some (take 4 ip.data_) else none

unfoldable pub to_binary_v6 : IpAddress → Option Bytes
to_binary_v6 ip = if is_v6 ip.family then some (take 16 ip.data_) else none

unfoldable pub get_htonl_v4 : IpAddress → ℕ
get_htonl_v4 ip = if not (is_v6 ip.family) then ntohl (word_of ip.data_) else 0

unfoldable pub set_ntohl_v4 : IpAddress → ℕ → IpAddress
set_ntohl_v4 this addr = record this { family = v4; data_ = store_word (ntohl addr) this.data_ }

-- The loop of `increment` from the last byte to the first, with whether the byte behind overflowed;
-- `sum & 0x0100` tells that the sum of a byte and one is 256.
abbrev pub add_one : ℕ → Bytes × Bool → Bytes × Bool
add_one c (s, overflow) =
    if overflow
    then (if leb 0x100 (c + 1) then (0 ∷ s, true) else ((c + 1) ∷ s, false))
    else (c ∷ s, false)

unfoldable pub increment_loop : Bytes → Bytes × Bool
increment_loop [] = ([], true)
increment_loop (c ∷ s) = add_one c (increment_loop s)

unfoldable pub increment : IpAddress → IpAddress
unfolding increment_loop address_length
increment this =
    let n = address_length this in
    record this { data_ = (increment_loop (take n this.data_)).0 ++ drop n this.data_ }

unfoldable pub inverse : IpAddress → IpAddress
unfolding address_length
inverse this =
    let n = address_length this in
    record this { data_ = map flip (take n this.data_) ++ drop n this.data_ }

-- `mask` with two arguments, and with one.
unfoldable pub mask_set : IpAddress → IpAddress → IpAddress → IpAddress
mask_set this mask_ip set_ip =
    if is_v6 this.family
    then this
    else if not (same_family this.family mask_ip.family)
        || not (same_family this.family set_ip.family)
    then this
    else let mask_value = word_of mask_ip.data_ in
      let kept = bit_and (word_of this.data_) mask_value in
      let added = bit_and (word_of set_ip.data_) (4294967295 - mask_value) in
      record this { data_ = store_word (bit_or kept added) this.data_ }

unfoldable pub mask : IpAddress → IpAddress → IpAddress
unfolding mask_set wildcard
mask this mask_ip = mask_set this mask_ip wildcard
