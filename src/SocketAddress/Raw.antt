-- ===== src/SocketAddress/Raw.antt =====
-- The constructor of socket_address.cpp from a `sockaddr`. Its copy of a local address reads all 110
-- bytes of a `sockaddr_un`, also when the length is less: the bytes are those that stand there.
use social_network.Prelude.{
  ℕ, Bool, true, false, ◌&&◌, Option, none, some, ltb, leb, ◌==◌, Bytes, take,
}
use social_network.IpAddress.Text.{c_str}
use social_network.SocketAddress.{
  unix_local, ipv4, ipv6, SockaddrIn, SockaddrIn6, SocketAddress, initial,
}

-- A `sockaddr` by its family, with the 108 bytes of `sun_path`.
pub data Sockaddr : Type 0 where
  inet : SockaddrIn → Sockaddr
  inet6 : SockaddrIn6 → Sockaddr
  unix : Bytes → Sockaddr
  other : ℕ → Sockaddr

abbrev pub if_valid : Bool → SocketAddress → Option SocketAddress
if_valid true this = some this
if_valid false this = none

unfoldable pub from_sockaddr : Option Sockaddr → ℕ → Option SocketAddress
from_sockaddr none len = none
from_sockaddr (some (inet a)) len =
    if_valid (len == 16) (record initial { family_ = ipv4; ipv4_ = some a })
from_sockaddr (some (inet6 a)) len =
    if_valid (len == 28) (record initial { family_ = ipv6; ipv6_ = some a })
from_sockaddr (some (unix sun_path)) len =
    if_valid (ltb 0 len && leb len 110)
      (record initial { family_ = unix_local; unix_ = some (c_str (take 108 sun_path)) })
from_sockaddr (some (other family)) len = none
