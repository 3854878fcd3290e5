-- ===== src/SocketAddress/Tests.antt =====
-- Runs of the socket addresses, and their theorems at concrete addresses.
use social_network.Prelude.{
  false, not, ltb, leb, ◌==◌, ◌≡◌, refl, true, [], ◌∷◌, ◌++◌, none, some, codes, arith, take_while,
  drop_while,
}
use social_network.Format.{decimal}
use social_network.IpAddress.{from_in_addr, from_in6_addr, IpAddress, v4, v6, zeros}
use social_network.IpAddress.Order.{IsAddress}
use social_network.SocketAddress.{
  SocketAddress, initial, init_ip, host, port, to_string, split_to_host_and_port, from_address,
}
use social_network.StringHelpers.{starts_with}
use social_network.SocketAddress.Compare.{equals, differs, greater, greater_equal, less, less_equal}
use social_network.SocketAddress.Order.{IsInet, key, comparisons-key}
use social_network.SocketAddress.Split.{joined, split_to_host_and_port-joined}
use social_network.SocketAddress.Hosts.{given_back, host-init_ip}

abbrev localhost : IpAddress
localhost = record { family = v4; data_ = 127 ∷ 0 ∷ 0 ∷ 1 ∷ zeros 12 }

abbrev localhost6 : IpAddress
localhost6 = record { family = v6; data_ = zeros 15 ++ 1 ∷ [] }

-- An IPv4 address prints its bytes in the other order.
printed : to_string 0 (init_ip initial localhost 80) ≡ codes "1.0.0.127:80"
unfolding to_string init_ip decimal
printed = refl

splits :
    (split_to_host_and_port (codes "[::1]:80") ≡ some (codes "::1", codes "80"))
    × (split_to_host_and_port (codes "localhost") ≡ none)
    × (split_to_host_and_port (codes "[::1") ≡ none)
unfolding split_to_host_and_port take_while drop_while
splits = (refl, refl, refl)

-- A name that no lookup knows.
unknown :
    from_address (λ f s. (false, [])) (λ name. some []) (λ service. some 80) (codes "example:http")
    ≡ none
unfolding from_address take_while drop_while starts_with
unknown = refl

localhost-IsAddress : IsAddress localhost
localhost-IsAddress = record { size = refl; bytes = ground arith }

host-init_ip_example :
    (host (init_ip initial localhost 80) ≡ some (given_back localhost))
    × (port (init_ip initial localhost 80) ≡ some 80)
host-init_ip_example = host-init_ip initial localhost 80 localhost-IsAddress (omega arith)

split_to_host_and_port-joined_example :
    split_to_host_and_port (joined true (codes "::1") (codes "80")) ≡ some (codes "::1", codes "80")
split_to_host_and_port-joined_example =
    split_to_host_and_port-joined true (codes "::1") (codes "80") (λ e. cc) (λ e. cc) (ground arith)

abbrev web : SocketAddress
web = init_ip initial localhost 80

abbrev web6 : SocketAddress
web6 = init_ip initial localhost6 8080

web-IsInet : IsInet web (record { family = v4; data_ = 1 ∷ 0 ∷ 0 ∷ 127 ∷ zeros 12 }) 80
unfolding init_ip host port from_in_addr
web-IsInet = record {
  family_is = refl;
  host_is = refl;
  port_is = refl;
  address_is = record { size = refl; bytes = ground arith };
  small = omega arith;
}

web6-IsInet : IsInet web6 localhost6 8080
unfolding init_ip host port from_in6_addr
web6-IsInet = record {
  family_is = refl;
  host_is = refl;
  port_is = refl;
  address_is = record { size = refl; bytes = ground arith };
  small = omega arith;
}

abbrev shown : IpAddress
shown = record { family = v4; data_ = 1 ∷ 0 ∷ 0 ∷ 127 ∷ zeros 12 }

comparisons-key_example :
    (equals 0 web web6 ≡ some (key shown 80 == key localhost6 8080))
    × (differs 0 web web6 ≡ some (not (key shown 80 == key localhost6 8080)))
    × (greater 0 web web6 ≡ some (ltb (key localhost6 8080) (key shown 80)))
    × (greater_equal 0 web web6 ≡ some (leb (key localhost6 8080) (key shown 80)))
    × (less 0 web web6 ≡ some (ltb (key shown 80) (key localhost6 8080)))
    × (less_equal 0 web web6 ≡ some (leb (key shown 80) (key localhost6 8080)))
comparisons-key_example = comparisons-key 0 web web6 shown localhost6 80 8080 web-IsInet web6-IsInet
