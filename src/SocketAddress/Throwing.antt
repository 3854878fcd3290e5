-- ===== src/SocketAddress/Throwing.antt =====
-- The constructor of socket_address.cpp from a text with the exceptions that leave it.
use social_network.Prelude.{
  Bool, lt→ltb, ℕ, zero, suc, ◌<◌, ◌≡◌, refl, ap, ◌&&◌, List, [], ◌∷◌, ◌++◌, Option, none, some,
  ◌==◌, if◌then◌else◌, Bytes, codes, length, take, is_empty, drop_while, Attempt, done,
  dns_exception, std_exception, value, or_throw, arith, inl, inr, Bool-cases,
}
use social_network.Prelude.Attempts.{◌>>=◌}
use social_network.IpAddress.{IpAddress, Family, wildcard}
use social_network.IpAddress.Text.{c_str, try_parse}
use social_network.SocketAddress.{
  SocketAddress, unix_local, initial, init_ip, init_path, stable_sort, front, init_text,
  in_brackets, starts_path, and_then, split_to_host_and_port, init_found, from_address,
}

-- The text of the exception that `split_to_host_and_port` throws.
unfoldable pub split_what : Bytes → Bytes
split_what [] = codes "missing host and/or port number"
split_what (c ∷ it) =
    if c == b'[' && is_empty (drop_while in_brackets it)
    then codes "malformed IPv6 address"
    else codes "missing host and/or port number"

abbrev pub no_address_found : Bytes → Bytes
no_address_found addr = codes "no address found for host '" ++ addr ++ codes "'"

-- `init` from the addresses that were found.
abbrev pub init_front : ℕ → Bytes → Option IpAddress → Attempt SocketAddress
init_front port addr none = std_exception (no_address_found addr)
init_front port addr (some ip) = done (init_ip initial ip port)

-- A path of a local socket: the bytes behind the 108 of `sun_path` are written behind the object,
-- of which the model keeps nothing.
unfoldable pub local_path : Bytes → SocketAddress
local_path path = record initial { family_ = unix_local; unix_ = some (c_str (take 108 path)) }

take-long : (n : ℕ) (s : Bytes) → length s < n → take n s ≡ s
take-long zero s h = ground arith
take-long (suc n) [] h = refl
take-long (suc n) (c ∷ s) h = ap (◌∷◌ c) (take-long n s (omega arith))

local_path-value :
    (path : Bytes) → length path < 108 → some (local_path path) ≡ init_path initial path
unfolding local_path init_path
local_path-value path h = rw (lt→ltb (length path) 108 h, take-long 108 path h) refl

module _ (inet_pton : Family → Bytes → Bool × Bytes)
    (host_by_name : Bytes → Attempt (List IpAddress)) where
  unfoldable pub init_throwing : Bytes → ℕ → Attempt SocketAddress
  unfolding try_parse stable_sort init_ip wildcard
  init_throwing addr port =
      let (ip, parsed) = try_parse inet_pton wildcard addr in
      if parsed
      then done (init_ip initial ip port)
      else host_by_name addr >>= λ found. init_front port addr (front (stable_sort found))

  unfoldable pub address_throwing : (Bytes → Attempt ℕ) → Bytes → Attempt SocketAddress
  unfolding local_path split_what split_to_host_and_port init_throwing
  address_throwing resolve_service_to_port addr =
      if starts_path addr
      then done (local_path addr)
      else or_throw (split_to_host_and_port addr) (split_what addr) >>= λ parts.
          resolve_service_to_port parts.1 >>= λ port. init_throwing parts.0 port

  front-value :
      (port : ℕ) (addr : Bytes) (ip : Option IpAddress)
      → value (init_front port addr ip) ≡ init_found initial port ip
  unfolding init_ip
  front-value port addr none = refl
  front-value port addr (some ip) = refl

  found-value :
      (port : ℕ) (addr : Bytes) (found : Attempt (List IpAddress))
      → value (found >>= λ ips. init_front port addr (front (stable_sort ips)))
        ≡ and_then (value found) (λ ips. init_found initial port (front (stable_sort ips)))
  found-value port addr (done ips) = front-value port addr (front (stable_sort ips))
  found-value port addr (dns_exception what) = refl
  found-value port addr (std_exception what) = refl

  init_throwing-value :
      (addr : Bytes) (port : ℕ)
      → value (init_throwing addr port)
        ≡ init_text inet_pton (λ name. value (host_by_name name)) initial addr port
  unfolding init_throwing init_text
  init_throwing-value addr port = elim (Bool-cases (try_parse inet_pton wildcard addr).1) [
    | inl e ↦ rw e refl
    | inr e ↦ rw e (found-value port addr (host_by_name addr))
  ]

  resolved-value :
      (host : Bytes) (port : Attempt ℕ)
      → value (port >>= λ n. init_throwing host n)
        ≡ and_then
            (value port)
            (λ n. init_text inet_pton (λ name. value (host_by_name name)) initial host n)
  resolved-value host (done n) = init_throwing-value host n
  resolved-value host (dns_exception what) = refl
  resolved-value host (std_exception what) = refl

  parts-value :
      (resolve_service_to_port : Bytes → Attempt ℕ) (addr : Bytes) (parts : Option (Bytes × Bytes))
      (what : Bytes)
      → value (
          or_throw parts what >>= λ p.
          resolve_service_to_port p.1 >>= λ port. init_throwing p.0 port)
        ≡ and_then parts (λ p.
          and_then
            (value (resolve_service_to_port p.1))
            (λ port. init_text inet_pton (λ name. value (host_by_name name)) initial p.0 port))
  parts-value resolve_service_to_port addr none what = refl
  parts-value resolve_service_to_port addr (some p) what =
      resolved-value p.0 (resolve_service_to_port p.1)

  -- Without the texts of the exceptions the constructor gives what `from_address` gives, if the path
  -- of a local socket has room.
  pub address_throwing-value :
      (resolve_service_to_port : Bytes → Attempt ℕ) (addr : Bytes)
      → length addr < 108
      → value (address_throwing resolve_service_to_port addr)
        ≡ from_address inet_pton
            (λ name. value (host_by_name name))
            (λ service. value (resolve_service_to_port service))
            addr
  unfolding address_throwing from_address
  address_throwing-value resolve_service_to_port addr h = elim (Bool-cases (starts_path addr)) [
    | inl e ↦ rw e (local_path-value addr h)
    | inr e ↦
        rw e
          (parts-value resolve_service_to_port addr (split_to_host_and_port addr) (split_what addr))
  ]
