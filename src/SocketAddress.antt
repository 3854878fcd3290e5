-- ===== src/SocketAddress.antt =====
-- service/sources/helpers/socket_address.cpp. A pointer is an `Option`, an exception is `none`. The
-- name lookup, the port numbers of services and `inet_pton` are parameters.
pub mod Split
pub mod Hosts
pub mod Compare
pub mod Order
pub mod Throwing
pub mod Raw
mod Tests
use social_network.Prelude.{
  ℕ, zero, suc, ◌+◌, ◌*◌, ◌/◌, ◌%◌, Bool, true, false, not, ◌&&◌, ◌||◌, List, [], ◌∷◌, ◌++◌, Option,
  none, some, ltb, ◌==◌, if◌then◌else◌, Bytes, length, equal, is_empty, take_while, drop_while,
  take,
}
use social_network.Format.{decimal}
use social_network.IpAddress.{
  IpAddress, Family, v4, v6, af, same_family, word_of, from_in_addr, from_in6_addr, wildcard,
  of_family,
}
use social_network.IpAddress.Text.{c_str, htons, try_parse, to_string as ip_to_string}

pub data AddressFamily : Type 0 where
  unix_local ipv4 ipv6 : AddressFamily

-- The members of a `sockaddr_in` and of a `sockaddr_in6`; the port is in network order.
pub record SockaddrIn : Type 0 where
  pub sin_port : ℕ
  pub sin_addr : ℕ

pub record SockaddrIn6 : Type 0 where
  pub sin6_port : ℕ
  pub sin6_addr : Bytes

pub record SocketAddress : Type 0 where
  pub family_ : AddressFamily
  pub ipv4_ : Option SockaddrIn
  pub ipv6_ : Option SockaddrIn6
  pub unix_ : Option Bytes

-- An object before a constructor's body.
abbrev pub initial : SocketAddress
initial = record { family_ = ipv4; ipv4_ = none; ipv6_ = none; unix_ = none }

unfoldable pub init_ip : SocketAddress → IpAddress → ℕ → SocketAddress
init_ip this host_ip port = elim host_ip.family [
  | v4 ↦ record this {
    family_ = ipv4;
    ipv4_ = some (record { sin_port = htons port; sin_addr = word_of host_ip.data_ });
  }
  | v6 ↦ record this {
    family_ = ipv6;
    ipv6_ = some (record { sin6_port = htons port; sin6_addr = take 16 host_ip.data_ });
  }
]

-- The copy has no bound: a path that does not fit into the 108 bytes of `sun_path` is written behind
-- it, and then nothing is known of the object.
unfoldable pub init_path : SocketAddress → Bytes → Option SocketAddress
init_path this path =
    if ltb (length path) 108
    then some (record this { family_ = unix_local; unix_ = some (c_str path) })
    else none

-- `std::stable_sort` by the address family.
unfoldable pub insert_by_af : IpAddress → List IpAddress → List IpAddress
insert_by_af ip [] = ip ∷ []
insert_by_af ip (first ∷ addresses) =
    let rest = insert_by_af ip addresses in
    if ltb (af first.family) (af ip.family) then first ∷ rest else ip ∷ first ∷ addresses

unfoldable pub stable_sort : List IpAddress → List IpAddress
unfolding insert_by_af
stable_sort [] = []
stable_sort (ip ∷ addresses) = insert_by_af ip (stable_sort addresses)

abbrev pub front : List IpAddress → Option IpAddress
front [] = none
front (ip ∷ addresses) = some ip

-- The loop over the addresses of a host: the first one of the family.
unfoldable pub find_family : Family → List IpAddress → Option IpAddress
find_family family [] = none
find_family family (ip ∷ addresses) =
    if same_family ip.family family then some ip else find_family family addresses

abbrev pub init_found : SocketAddress → ℕ → Option IpAddress → Option SocketAddress
init_found this port none = none
init_found this port (some ip) = some (init_ip this ip port)

abbrev pub and_then {ℓ κ} : {A : Type ℓ} {B : Type κ} → Option A → (A → Option B) → Option B
and_then none f = none
and_then (some a) f = f a

abbrev pub ip_family : AddressFamily → Option Family
ip_family unix_local = none
ip_family ipv4 = some v4
ip_family ipv6 = some v6

module _ (inet_pton : Family → Bytes → Bool × Bytes)
    (host_by_name : Bytes → Option (List IpAddress)) where
  -- `init` with a family and a text.
  unfoldable pub init_family : SocketAddress → AddressFamily → Bytes → ℕ → Option SocketAddress
  unfolding try_parse find_family init_ip
  init_family this family addr port = and_then (ip_family family) (λ wanted.
      let (ip, parsed) = try_parse inet_pton wildcard addr in
      if parsed
      then (if same_family wanted ip.family then some (init_ip this ip port) else none)
      else and_then (host_by_name addr) (λ found. init_found this port (find_family wanted found)))

  -- `init` with a text.
  unfoldable pub init_text : SocketAddress → Bytes → ℕ → Option SocketAddress
  unfolding try_parse stable_sort init_ip
  init_text this addr port =
      let (ip, parsed) = try_parse inet_pton wildcard addr in
      if parsed
      then some (init_ip this ip port)
      else and_then (host_by_name addr) (λ found. init_found this port (front (stable_sort found)))

abbrev pub in_brackets : ℕ → Bool
in_brackets c = not (c == b']')

abbrev pub before_colon : ℕ → Bool
before_colon c = not (c == b':')

abbrev pub port_text : Bytes → Bytes
port_text [] = []
port_text (c ∷ it) = if c == b':' then it else []

abbrev pub both_given : Bytes → Bytes → Option (Bytes × Bytes)
both_given host port = if is_empty host || is_empty port then none else some (host, port)

abbrev pub behind_bracket : Bytes → Bytes → Option (Bytes × Bytes)
behind_bracket host [] = none
behind_bracket host (c ∷ it) = both_given host (port_text it)

-- On an empty text the first byte is the zero byte behind its end.
unfoldable pub split_to_host_and_port : Bytes → Option (Bytes × Bytes)
split_to_host_and_port [] = none
split_to_host_and_port (c ∷ it) =
    if c == b'['
    then behind_bracket (take_while in_brackets it) (drop_while in_brackets it)
    else both_given (take_while before_colon (c ∷ it))
        (port_text (drop_while before_colon (c ∷ it)))

abbrev pub starts_path : Bytes → Bool
starts_path [] = false
starts_path (c ∷ addr) = c == b'/'

-- The constructors from a text, and from a family and a port number.
unfoldable pub from_address :
    (Family → Bytes → Bool × Bytes)
    → (Bytes → Option (List IpAddress))
    → (Bytes → Option ℕ)
    → Bytes
    → Option SocketAddress
unfolding init_path split_to_host_and_port init_text
from_address inet_pton host_by_name resolve_service_to_port addr =
    if starts_path addr
    then init_path initial addr
    else and_then (split_to_host_and_port addr) (λ parts.
      and_then (resolve_service_to_port parts.1)
        (λ port. init_text inet_pton host_by_name initial parts.0 port))

unfoldable pub from_family : AddressFamily → ℕ → Option SocketAddress
unfolding init_ip of_family
from_family family port =
    and_then (ip_family family) (λ wanted. some (init_ip initial (of_family wanted) port))

unfoldable pub host : SocketAddress → Option IpAddress
unfolding from_in_addr from_in6_addr wildcard
host this = elim this.family_ [
  | ipv4 ↦ elim this.ipv4_ [ none ↦ some wildcard | some sa ↦ some (from_in_addr sa.sin_addr) ]
  | ipv6 ↦ elim this.ipv6_ [ none ↦ some wildcard | some sa ↦ some (from_in6_addr sa.sin6_addr) ]
  | unix_local ↦ elim this.unix_ [ none ↦ some wildcard | some path ↦ none ]
]

unfoldable pub port : SocketAddress → Option ℕ
port this = elim this.family_ [
  | ipv4 ↦ elim this.ipv4_ [ none ↦ some 0 | some sa ↦ some (htons sa.sin_port) ]
  | ipv6 ↦ elim this.ipv6_ [ none ↦ some 0 | some sa ↦ some (htons sa.sin6_port) ]
  | unix_local ↦ elim this.unix_ [ none ↦ some 0 | some path ↦ none ]
]

unfoldable pub swap : SocketAddress → SocketAddress → SocketAddress × SocketAddress
swap this rsh = (
  record this { family_ = rsh.family_; ipv4_ = rsh.ipv4_; ipv6_ = rsh.ipv6_; unix_ = rsh.unix_ },
  record rsh { family_ = this.family_; ipv4_ = this.ipv4_; ipv6_ = this.ipv6_; unix_ = this.unix_ },
)

abbrev pub host_port :
    (Bytes → Bytes) → Option IpAddress → Option ℕ → (ℕ → IpAddress → Bytes) → ℕ → Bytes
host_port bracketed none p print behind = []
host_port bracketed (some ip) none print behind = []
host_port bracketed (some ip) (some p) print behind =
    bracketed (print behind ip) ++ b':' ∷ decimal p

-- `behind` is the word that printing an address reads behind its bytes.
unfoldable pub to_string : ℕ → SocketAddress → Bytes
unfolding host port ip_to_string
to_string behind this = elim this.family_ [
  | ipv4 ↦ elim this.ipv4_ [
    | none ↦ []
    | some sa ↦ host_port (λ s. s) (host this) (port this) ip_to_string behind
  ]
  | ipv6 ↦ elim this.ipv6_ [
    | none ↦ []
    | some sa ↦ host_port (λ s. b'[' ∷ (s ++ b']' ∷ [])) (host this) (port this) ip_to_string behind
  ]
  | unix_local ↦ elim this.unix_ [ none ↦ [] | some path ↦ path ]
]
