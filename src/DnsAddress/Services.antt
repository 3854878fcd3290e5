-- ===== src/DnsAddress/Services.antt =====
-- `resolve_service_to_port` of dns_address.cpp.
use social_network.Prelude.{
  ℕ, ◌%◌, ◌^◌, ◌<◌, Bool, true, false, ◌≡◌, ap, ◌∙◌, Option, none, some, leb, Bytes, arith, Attempt,
  done, dns_exception, std_exception, Bool-cases, inl, inr,
}
use social_network.Format.{decimal}
use social_network.NumberParser.{try_parse_uint}
use social_network.NumberParser.Unsigned.{try_parse_uint-decimal}
use social_network.IpAddress.Text.{c_str}
use social_network.DnsAddress.{port_or_service, resolve_service_to_port}

-- A decimal print of a port number needs no look at the services, whatever they are.
pub resolve_service_to_port-decimal :
    (getservbyname : Bytes → Option ℕ) (n : ℕ)
    → n < 65536
    → resolve_service_to_port getservbyname (decimal n) ≡ done n
unfolding resolve_service_to_port
resolve_service_to_port-decimal getservbyname n h =
    let read = (try_parse_uint-decimal n 0 (omega arith)).1 in
    let small : n % 2 ^ 32 ≡ n = omega arith in
    let port = ap (λ v. (v, true)) small in
    ap (λ r. port_or_service r (getservbyname (c_str (decimal n))) (decimal n)) (read ∙ port)
    ∙ ground arith

-- A port number is below 65536, and the one exception is a `DnsException`.
abbrev pub IsPort : Attempt ℕ → Type 0
IsPort (done port) = port < 65536
IsPort (dns_exception what) = Unit {0}
IsPort (std_exception what) = ⊥

port_or_service-IsPort :
    (port : ℕ) (parsed : Bool) (servent : Option ℕ) (service : Bytes)
    → IsPort (port_or_service (port, parsed) servent service)
port_or_service-IsPort port true none service = elim (Bool-cases (leb port 65535)) [
  | inl e ↦ rw e (ground arith)
  | inr e ↦ rw e tt
]
port_or_service-IsPort port true (some s_port) service = elim (Bool-cases (leb port 65535)) [
  | inl e ↦ rw e (ground arith)
  | inr e ↦ rw e (omega arith)
]
port_or_service-IsPort port false none service = tt
port_or_service-IsPort port false (some s_port) service = omega arith

-- Whatever the text and the services are, the result is a port number below 65536 or a
-- `DnsException`, and no other exception leaves.
pub resolve_service_to_port-IsPort :
    (getservbyname : Bytes → Option ℕ) (service : Bytes)
    → IsPort (resolve_service_to_port getservbyname service)
unfolding resolve_service_to_port
resolve_service_to_port-IsPort getservbyname service =
    port_or_service-IsPort (try_parse_uint service 0).0 (try_parse_uint service 0).1
      (getservbyname (c_str service)) service
