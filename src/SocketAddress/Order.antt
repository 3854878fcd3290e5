-- ===== src/SocketAddress/Order.antt =====
-- The comparisons of socket addresses of IPv4 and IPv6 against an order of numbers.
use social_network.Prelude.{
  ℕ, ◌+◌, ◌*◌, ◌<◌, ◌≡◌, refl, sym, ap, ◌∙◌, inl, inr, true, false, not, some, ltb, leb, ◌==◌,
  if◌then◌else◌, arith, Bool-cases,
}
use social_network.IpAddress.{IpAddress, Family, v4, v6, af, greater as ip_greater}
use social_network.IpAddress.Order.{IsAddress, rank, comparisons-rank}
use social_network.SocketAddress.{SocketAddress, host, port}
use social_network.SocketAddress.Compare.{
  family_value, equals, differs, greater, greater_equal, less, less_equal,
}

-- A socket address with a host and a port number.
pub record IsInet (sa : SocketAddress) (ip : IpAddress) (n : ℕ) : Type 0 where
  pub family_is : family_value sa.family_ ≡ af ip.family
  pub host_is : host sa ≡ some ip
  pub port_is : port sa ≡ some n
  pub address_is : IsAddress ip
  pub small : n < 65536

-- Its place among all of them: by the host, and then by the port number.
abbrev pub key : IpAddress → ℕ → ℕ
key ip n = rank ip * 65536 + n

not_unix : (f : Family) → (af f == 1) ≡ false
not_unix v4 = refl
not_unix v6 = refl

pair_eq :
    (r r' n n' : ℕ)
    → n < 65536
    → n' < 65536
    → (if not (r == r') then some false else some (n == n'))
      ≡ some (r * 65536 + n == r' * 65536 + n')
pair_eq r r' n n' l l' = elim (Bool-cases (r == r')) [
  | inl e ↦
      let same : (n == n') ≡ (r * 65536 + n == r' * 65536 + n') = ground arith in
      rw e (ap some same)
  | inr e ↦
      let apart : (r * 65536 + n == r' * 65536 + n') ≡ false = ground arith in rw (e, apart) refl
]

pair_gt :
    (r r' n n' : ℕ)
    → n < 65536
    → n' < 65536
    → (if ltb r' r then some true else if ltb r r' then some false else some (ltb n' n))
      ≡ some (ltb (r' * 65536 + n') (r * 65536 + n))
pair_gt r r' n n' l l' = elim (Bool-cases (ltb r' r)) [
  | inl e ↦
      let above : ltb (r' * 65536 + n') (r * 65536 + n) ≡ true = ground arith in rw (e, above) refl
  | inr e ↦ elim (Bool-cases (ltb r r')) [
    | inl f ↦
        let below : ltb (r' * 65536 + n') (r * 65536 + n) ≡ false = ground arith in
        rw (e, f, below) refl
    | inr f ↦
        let same : ltb n' n ≡ ltb (r' * 65536 + n') (r * 65536 + n) = ground arith in
        rw (e, f) (ap some same)
  ]
]

rank_above :
    (r r' n n' : ℕ) → n < 65536 → ltb r r' ≡ true → ltb (r * 65536 + n) (r' * 65536 + n') ≡ true
rank_above r r' n n' l e = ground arith

rank_below :
    (r r' n n' : ℕ) → n < 65536 → ltb r r' ≡ true → ltb (r' * 65536 + n') (r * 65536 + n) ≡ false
rank_below r r' n n' l e = ground arith

-- An address of the later family has the greater rank.
family_rank :
    (ip ip' : IpAddress)
    → IsAddress ip
    → IsAddress ip'
    → ltb (af ip'.family) (af ip.family) ≡ true
    → ltb (rank ip') (rank ip) ≡ true
unfolding ip_greater
family_rank ip ip' h h' e =
    let (_, _, above, _, _, _) = comparisons-rank ip ip' h h' in sym above ∙ rw (ip_greater, e) refl

at_least : (x y : ℕ) → (if x == y then some true else some (ltb y x)) ≡ some (leb y x)
at_least x y = ground arith

not_above : (x y : ℕ) → (if x == y then some false else some (not (ltb y x))) ≡ some (ltb x y)
not_above x y = ground arith

at_most :
    (x y : ℕ)
    → (if x == y then some true else if x == y then some false else some (not (ltb y x)))
      ≡ some (leb x y)
at_most x y = ground arith

module _ (behind : ℕ) (a b : SocketAddress) (ip ip' : IpAddress) (n n' : ℕ) (ha : IsInet a ip n)
    (hb : IsInet b ip' n') where
  equals-key : equals behind a b ≡ some (key ip n == key ip' n')
  unfolding equals
  equals-key =
      let same = (comparisons-rank ip ip' ha.address_is hb.address_is).0 in
      let small = ha.small in
      let small' = hb.small in
      rw
        (
          equals,
          ha.family_is,
          not_unix ip.family,
          ha.host_is,
          hb.host_is,
          same,
          ha.port_is,
          hb.port_is,
        )
        (pair_eq (rank ip) (rank ip') n n' small small')

  greater-key : greater behind a b ≡ some (ltb (key ip' n') (key ip n))
  unfolding greater
  greater-key =
      let (_, _, above, _, below, _) = comparisons-rank ip ip' ha.address_is hb.address_is in
      let pair = pair_gt (rank ip) (rank ip') n n' ha.small hb.small in
      elim (Bool-cases (ltb (af ip'.family) (af ip.family))) [
        | inl e ↦
            let r = family_rank ip ip' ha.address_is hb.address_is e in
            let first : ltb (key ip' n') (key ip n) ≡ true =
              rank_above (rank ip') (rank ip) n' n hb.small r in
            rw (greater, ha.family_is, hb.family_is, e) (ap some (sym first))
        | inr e ↦ elim (Bool-cases (ltb (af ip.family) (af ip'.family))) [
          | inl f ↦
              let r = family_rank ip' ip hb.address_is ha.address_is f in
              let last : ltb (key ip' n') (key ip n) ≡ false =
                rank_below (rank ip) (rank ip') n n' ha.small r in
              rw (greater, ha.family_is, hb.family_is, e, f) (ap some (sym last))
          | inr f ↦
              rw
                (
                  greater,
                  ha.family_is,
                  hb.family_is,
                  e,
                  f,
                  not_unix ip.family,
                  ha.host_is,
                  hb.host_is,
                  above,
                  below,
                  ha.port_is,
                  hb.port_is,
                )
                pair
        ]
      ]

  -- The six comparisons of socket addresses with a host and a port number are those of one total order,
  -- by the rank of the host and then by the port number, and none of them throws.
  pub comparisons-key :
      (equals behind a b ≡ some (key ip n == key ip' n'))
      × (differs behind a b ≡ some (not (key ip n == key ip' n')))
      × (greater behind a b ≡ some (ltb (key ip' n') (key ip n)))
      × (greater_equal behind a b ≡ some (leb (key ip' n') (key ip n)))
      × (less behind a b ≡ some (ltb (key ip n) (key ip' n')))
      × (less_equal behind a b ≡ some (leb (key ip n) (key ip' n')))
  unfolding differs greater_equal less less_equal
  comparisons-key =
      let x = key ip n in
      let y = key ip' n' in
      rw (equals-key, greater-key) (refl, refl, refl, at_least x y, not_above x y, at_most x y)
