-- ===== src/IpAddress/Text/Parsing.antt =====
-- `try_parse` of ip_address.cpp.
use social_network.Prelude.{
  ℕ, zero, suc, [], ◌∷◌, ◌++◌, ◌-◌, ◌+◌, ◌≤◌, ◌<◌, ◌≡◌, refl, ap, ◌∙◌, inl, inr, Bool, false,
  Option, none, some, Bytes, length, drop, is_empty, All-append, IsBytes, length-append, arith,
  Bool-cases, Option-cases,
}
use social_network.StringHelpers.{trim}
use social_network.IpAddress.{IpAddress, Family, v4, v6, size_of, zeros, of_family}
use social_network.IpAddress.Order.{IsAddress}
use social_network.IpAddress.Text.{
  unscoped, c_str, parse_trimmed, try_family, written, try_parse_family, try_parse,
}
use social_network.IpAddress.Text.Trimming.{trim_v6_string-ends}

-- What `inet_pton` writes, whatever it answers: bytes of an address of the family, or some of them.
abbrev pub Writes : (Family → Bytes → Bool × Bytes) → Type 0
Writes inet_pton =
    (f : Family) (s : Bytes) → (length (inet_pton f s).1 ≤ size_of f) × IsBytes (inet_pton f s).1

-- What `try_parse` with a family leaves: an address of the family, and zeros behind it.
abbrev pub IsClean : Family → IpAddress → Type 0
IsClean f ip = IsAddress ip × (ip.family ≡ f) × (drop (size_of f) ip.data_ ≡ zeros (16 - size_of f))

of_family-IsAddress : (f : Family) → IsAddress (of_family f)
unfolding of_family
of_family-IsAddress f = record { size = refl; bytes = ground arith }

drop-zeros : (n m : ℕ) → n ≤ m → (length (drop n (zeros m)) + n ≡ m) × IsBytes (drop n (zeros m))
drop-zeros zero zero h = (omega arith, tt)
drop-zeros (suc n) zero h = ground arith
drop-zeros zero (suc m) h =
    let (l, b) = drop-zeros zero m (omega arith) in (omega arith, (omega arith, b))
drop-zeros (suc n) (suc m) h = let (l, b) = drop-zeros n m (omega arith) in (omega arith, b)

size_of_bounded : (f : Family) → size_of f ≤ 16
size_of_bounded v4 = omega arith
size_of_bounded v6 = omega arith

zeros-behind :
    (raw : Bytes) (n m : ℕ)
    → length raw ≤ n
    → n ≤ m
    → drop n (raw ++ drop (length raw) (zeros m)) ≡ zeros (m - n)
zeros-behind [] zero m l h = ap zeros (omega arith)
zeros-behind [] (suc n) zero l h = ground arith
zeros-behind [] (suc n) (suc m) l h =
    zeros-behind [] n m (omega arith) (omega arith) ∙ ap zeros (omega arith)
zeros-behind (c ∷ raw) zero m l h = ground arith
zeros-behind (c ∷ raw) (suc n) zero l h = ground arith
zeros-behind (c ∷ raw) (suc n) (suc m) l h =
    zeros-behind raw n m (omega arith) (omega arith) ∙ ap zeros (omega arith)

of_family-IsClean : (f : Family) → IsClean f (of_family f)
unfolding of_family
of_family-IsClean v4 = (of_family-IsAddress v4, refl, refl)
of_family-IsClean v6 = (of_family-IsAddress v6, refl, refl)

written-IsClean :
    (f : Family) (r : Bool × Bytes)
    → (length r.1 ≤ size_of f) × IsBytes r.1
    → IsClean f (written f r).0
written-IsClean f (parsed, raw) (l, b) =
    let bounded = size_of_bounded f in
    let (l', b') = drop-zeros (length raw) 16 (omega arith) in
    let whole = length-append raw (drop (length raw) (zeros 16)) in
    (
      record {
        size = omega arith;
        bytes = All-append (λ c. c < 256) raw (drop (length raw) (zeros 16)) b b';
      },
      refl,
      zeros-behind raw (size_of f) 16 l bounded,
    )

module _ (inet_pton : Family → Bytes → Bool × Bytes) (w : Writes inet_pton) where
  parse_trimmed-IsClean : (f : Family) (s : Bytes) → IsClean f (parse_trimmed inet_pton f s).0
  parse_trimmed-IsClean v4 s = written-IsClean v4 (inet_pton v4 (c_str s)) (w v4 (c_str s))
  parse_trimmed-IsClean v6 s =
      let (r, e, _, _) = trim_v6_string-ends s in
      let text = c_str (unscoped r) in rw e (written-IsClean v6 (inet_pton v6 text) (w v6 text))

  try_parse_family-IsClean :
      (addr : Bytes) (f : Family) → IsClean f (try_parse_family inet_pton addr f).0
  unfolding try_parse_family
  try_parse_family-IsClean addr f = elim (Bool-cases (is_empty (trim addr))) [
    | inl e ↦ rw (try_parse_family, e) (of_family-IsClean f)
    | inr e ↦ rw (try_parse_family, e) (parse_trimmed-IsClean f (trim addr))
  ]

-- What `try_parse` may leave and return: nothing changes if the text looks like no address or like
-- both kinds, and otherwise the object holds an address of the family that the text looks like.
abbrev pub Outcome : IpAddress → Option Family → IpAddress × Bool → Type 0
Outcome this none r = r ≡ (this, false)
Outcome this (some f) r = IsClean f r.0

-- Whatever the text is, `try_parse` returns with a well-formed object: the one it had, and false, if
-- the text looks like no address or like both kinds; otherwise an object of the family that the text
-- looks like, with zeros behind the bytes of the address, also if the parse failed. It is assumed
-- that `inet_pton` writes bytes, and no more than an address of the family has.
pub try_parse-Outcome :
    (inet_pton : Family → Bytes → Bool × Bytes)
    → Writes inet_pton
    → (this : IpAddress) (addr : Bytes) → IsAddress this
    → Outcome this (try_family addr) (try_parse inet_pton this addr)
      × IsAddress (try_parse inet_pton this addr).0
unfolding try_parse
try_parse-Outcome inet_pton w this addr h = elim (Option-cases (try_family addr)) [
  | inl e ↦ rw (try_parse, e) (refl, h)
  | inr (f, e) ↦
      let clean = try_parse_family-IsClean inet_pton w addr f in rw (try_parse, e) (clean, clean.0)
]
