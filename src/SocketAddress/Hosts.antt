-- ===== src/SocketAddress/Hosts.antt =====
-- The address that a socket address is made from, and the one that it gives.
use social_network.Prelude.{
  ℕ, ◌/◌, ◌%◌, ◌<◌, ◌≡◌, refl, sym, ap, ◌∙◌, inl, inr, true, false, List, [], ◌∷◌, ◌++◌, Option,
  none, some, ltb, if◌then◌else◌, Bytes, length, take, reverse, IsBytes, arith, Bool-cases,
  Option-cases,
}
use social_network.IpAddress.{
  IpAddress, Family, v4, v6, zeros, af, same_family, bytes_of32, word_of, ntohl, from_in_addr,
  from_in6_addr,
}
use social_network.IpAddress.Text.{htons}
use social_network.IpAddress.Order.{IsAddress}
use social_network.SocketAddress.{
  SocketAddress, init_ip, host, port, insert_by_af, stable_sort, front, find_family,
}

htons-htons : (n : ℕ) → n < 65536 → htons (htons n) ≡ n
htons-htons n h = omega arith

reversed :
    (s : Bytes) → length s ≡ 16 → IsBytes s → bytes_of32 (ntohl (word_of s)) ≡ reverse (take 4 s)
reversed [] e h = ground arith
reversed (a ∷ []) e h = ground arith
reversed (a ∷ b ∷ []) e h = ground arith
reversed (a ∷ b ∷ c ∷ []) e h = ground arith
reversed (a ∷ b ∷ c ∷ d ∷ s) e (ha, (hb, (hc, (hd, _)))) =
    let n = ntohl (word_of (a ∷ b ∷ c ∷ d ∷ s)) in
    let e0 : n % 256 ≡ d = omega arith in
    let e1 : n / 256 % 256 ≡ c = omega arith in
    let e2 : n / 65536 % 256 ≡ b = omega arith in
    let e3 : n / 16777216 % 256 ≡ a = omega arith in λ i. e0 i ∷ e1 i ∷ e2 i ∷ e3 i ∷ []

-- The address that `host` gives.
abbrev pub given_back : IpAddress → IpAddress
given_back ip = elim ip.family [
  | v4 ↦ record { family = v4; data_ = reverse (take 4 ip.data_) ++ zeros 12 }
  | v6 ↦ record { family = v6; data_ = take 16 ip.data_ }
]

by_family :
    (this : SocketAddress) (family : Family) (s : Bytes) (n : ℕ)
    → IsAddress (record { family = family; data_ = s })
    → n < 65536
    → (host (init_ip this (record { family = family; data_ = s }) n)
        ≡ some (given_back (record { family = family; data_ = s })))
      × (port (init_ip this (record { family = family; data_ = s }) n) ≡ some n)
unfolding host port init_ip from_in_addr from_in6_addr
by_family this v4 s n h l = (
  ap (λ d. some (record { family = v4; data_ = d ++ zeros 12 })) (reversed s h.size h.bytes),
  ap some (htons-htons n l),
)
by_family this v6 s n h l = (refl, ap some (htons-htons n l))

-- A socket address gives back the port number that it was made with, and the IPv6 address; of an
-- IPv4 address it gives back the four bytes in the opposite order.
pub host-init_ip :
    (this : SocketAddress) (ip : IpAddress) (n : ℕ)
    → IsAddress ip
    → n < 65536
    → (host (init_ip this ip n) ≡ some (given_back ip)) × (port (init_ip this ip n) ≡ some n)
host-init_ip this ip n h l = by_family this ip.family ip.data_ n h l

abbrev pub preferred : Option IpAddress → List IpAddress → Option IpAddress
preferred none addresses = front addresses
preferred (some ip) addresses = some ip

-- The front of a list into which an address was sorted.
better : IpAddress → Option IpAddress → Option IpAddress
better ip none = some ip
better ip (some first) = if ltb (af first.family) (af ip.family) then some first else some ip

front-insert_by_af :
    (ip : IpAddress) (addresses : List IpAddress)
    → front (insert_by_af ip addresses) ≡ better ip (front addresses)
unfolding insert_by_af better
front-insert_by_af ip [] = refl
front-insert_by_af ip (first ∷ addresses) =
    elim (Bool-cases (ltb (af first.family) (af ip.family))) [
      | inl e ↦ rw e refl
      | inr e ↦ rw e refl
    ]

least_af : (f : Family) → ltb (af f) 2 ≡ false
least_af v4 = refl
least_af v6 = refl

other_af : (f : Family) → same_family f v4 ≡ false → ltb (af f) 10 ≡ false
other_af v4 e = ground arith
other_af v6 e = refl

better_v4 :
    (s : Bytes) (o : Option IpAddress)
    → better (record { family = v4; data_ = s }) o ≡ some (record { family = v4; data_ = s })
unfolding better
better_v4 s none = refl
better_v4 s (some first) =
    let least : ltb (af first.family) 2 ≡ false = least_af first.family in rw least refl

found_v4 :
    (addresses : List IpAddress) (ip : IpAddress)
    → find_family v4 addresses ≡ some ip
    → ltb (af ip.family) 10 ≡ true
unfolding find_family
found_v4 [] ip e = ground arith
found_v4 (first ∷ addresses) ip e = elim (Bool-cases (same_family first.family v4)) [
  | inl k ↦
      let found : find_family v4 (first ∷ addresses) ≡ some first = rw (find_family, k) refl in
      let same : first ≡ ip =
        ap (λ o. elim o [ none ↦ first | some other ↦ other ]) (sym found ∙ e) in
      let is4 : af first.family ≡ 2 = ground arith in rw (← same, is4) refl
  | inr k ↦
      let later : find_family v4 (first ∷ addresses) ≡ find_family v4 addresses =
        rw (find_family, k) refl in
      found_v4 addresses ip (sym later ∙ e)
]

none_v4 :
    (s : Bytes) (addresses : List IpAddress)
    → find_family v4 addresses ≡ none
    → better (record { family = v6; data_ = s }) (front addresses)
      ≡ some (record { family = v6; data_ = s })
unfolding find_family better
none_v4 s [] e = refl
none_v4 s (first ∷ addresses) e = elim (Bool-cases (same_family first.family v4)) [
  | inl k ↦
      let found : find_family v4 (first ∷ addresses) ≡ some first = rw (find_family, k) refl in
      let clash : some first ≡ none = sym found ∙ e in ground arith
  | inr k ↦
      let not_less : ltb (af first.family) 10 ≡ false = other_af first.family k in rw not_less refl
]

better-preferred :
    (family : Family) (s : Bytes) (addresses : List IpAddress)
    → better
        (record { family = family; data_ = s })
        (preferred (find_family v4 addresses) addresses)
      ≡ preferred
          (find_family v4 (record { family = family; data_ = s } ∷ addresses))
          (record { family = family; data_ = s } ∷ addresses)
unfolding better find_family
better-preferred v4 s addresses = better_v4 s (preferred (find_family v4 addresses) addresses)
better-preferred v6 s addresses = elim (Option-cases (find_family v4 addresses)) [
  | inl e ↦ rw e (none_v4 s addresses e)
  | inr (ip, e) ↦ let less = found_v4 addresses ip e in rw (e, less) refl
]

-- Of the addresses of a host, sorted by family, the first one is the first IPv4 address that was
-- found, and the first address of all if there is none of IPv4.
pub front-stable_sort :
    (addresses : List IpAddress)
    → front (stable_sort addresses) ≡ preferred (find_family v4 addresses) addresses
unfolding stable_sort
front-stable_sort [] = unfold find_family in refl
front-stable_sort (ip ∷ addresses) =
    front-insert_by_af ip (stable_sort addresses)
    ∙ ap (better ip) (front-stable_sort addresses)
    ∙ better-preferred ip.family ip.data_ addresses
