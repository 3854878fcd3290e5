-- ===== src/SocketAddress/Compare.antt =====
-- The comparisons of socket_address.cpp; `none` is the `runtime_error` of an address without a host.
use Prim.Native.Nat.{compare, Ordering}
use social_network.Prelude.{
  ℕ, Bool, true, false, not, [], ◌∷◌, Option, some, ltb, ◌==◌, if◌then◌else◌, Bytes, equal,
}
use social_network.IpAddress.{equals as ip_equals, greater as ip_greater, less as ip_less}
use social_network.SocketAddress.{
  AddressFamily, unix_local, ipv4, ipv6, SocketAddress, and_then, host, port, to_string,
}

-- The values of the enumerators: `AF_UNIX`, `AF_INET` and `AF_INET6`.
abbrev pub family_value : AddressFamily → ℕ
family_value unix_local = 1
family_value ipv4 = 2
family_value ipv6 = 10

-- `operator >` of `std::string`.
unfoldable pub text_greater : Bytes → Bytes → Bool
text_greater [] t = false
text_greater (c ∷ s) [] = true
text_greater (c ∷ s) (d ∷ t) = elim (compare c d) [
  | Ordering.lt ↦ false
  | Ordering.eq ↦ text_greater s t
  | Ordering.gt ↦ true
]

module _ (behind : ℕ) (this rsh : SocketAddress) where
  unfoldable pub equals : Option Bool
  equals =
      if family_value this.family_ == 1
      then some (equal (to_string behind this) (to_string behind rsh))
      else and_then (host this) (λ h. and_then (host rsh) (λ h'.
        if not (ip_equals h h')
        then some false
        else and_then (port this) (λ p. and_then (port rsh) (λ p'. some (p == p')))))

  unfoldable pub differs : Option Bool
  differs = and_then equals (λ same. some (not same))

  unfoldable pub greater : Option Bool
  greater =
      if ltb (family_value rsh.family_) (family_value this.family_)
      then some true
      else if ltb (family_value this.family_) (family_value rsh.family_)
      then some false
      else if family_value this.family_ == 1
      then some (text_greater (to_string behind this) (to_string behind rsh))
      else and_then (host this) (λ h. and_then (host rsh) (λ h'.
        if ip_greater h h'
        then some true
        else if ip_less h h'
        then some false
        else and_then (port this) (λ p. and_then (port rsh) (λ p'. some (ltb p' p)))))

  unfoldable pub greater_equal : Option Bool
  greater_equal = and_then equals (λ same. if same then some true else greater)

  unfoldable pub less : Option Bool
  less =
      and_then equals
        (λ same. if same then some false else and_then greater (λ above. some (not above)))

  unfoldable pub less_equal : Option Bool
  less_equal = and_then equals (λ same. if same then some true else less)
