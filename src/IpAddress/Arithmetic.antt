-- ===== src/IpAddress/Arithmetic.antt =====
-- `increment` and `inverse` of ip_address.cpp against the numbers that the addresses spell.
use social_network.Prelude.{
  ℕ, zero, suc, ◌+◌, ◌-◌, ◌*◌, ◌≤◌, ◌<◌, ◌≡◌, refl, sym, ap, ◌∙◌, ◌⊎◌, inl, inr, Bool, true, false,
  [], ◌∷◌, ◌++◌, map, leb, if◌then◌else◌, Bytes, length, take, drop, All, IsBytes, length-append,
  All-append, arith, Bool-cases,
}
use mathlib.Core.Path.{subst, ap₂}
use Prim.Native.Nat.{compare, Ordering}
use social_network.IpAddress.{
  IpAddress, Family, v4, v6, is_v6, flip, add_one, increment_loop, increment, inverse, address_data,
  address_length, equals, greater, memcmp, is_gt, is_eq,
}
use social_network.IpAddress.Order.{number_from, number, IsAddress, length-take}

-- What the loop leaves, and the carry out of the first byte.
IsNext : Bytes → Bytes × Bool → Type 0
IsNext s (t, overflow) = (length t ≡ length s) × IsBytes t × elim overflow [
  | true ↦
      ((n : ℕ) → number_from n s + 1 ≡ number_from (n + 1) t)
      × All (λ c. c ≡ 255) s
      × All (λ c. c ≡ 0) t
  | false ↦ (n : ℕ) → number_from n t ≡ number_from n s + 1
]

add_one-IsNext :
    (c : ℕ) (s : Bytes) (r : Bytes × Bool) → c < 256 → IsNext s r → IsNext (c ∷ s) (add_one c r)
unfolding number_from IsNext
add_one-IsNext c s (t, false) hc (l, b, same) = (ap suc l, (hc, b), λ n. same (n * 256 + c))
add_one-IsNext c s (t, true) hc (l, b, (next, ones, zs)) = elim (Bool-cases (leb 0x100 (c + 1))) [
  | inl e ↦
      let full : c ≡ 255 = ground arith in
      let q : add_one c (t, true) ≡ (0 ∷ t, true) = rw e refl in
      subst (IsNext (c ∷ s)) (sym q) (
        ap suc l,
        (omega arith, b),
        (
          λ n.
              let carry : n * 256 + c + 1 ≡ (n + 1) * 256 + 0 = omega arith in
              next (n * 256 + c) ∙ ap (λ m. number_from m t) carry,
          (full, ones),
          (refl, zs),
        ),
      )
  | inr e ↦
      let room : c + 1 < 256 = ground arith in
      let q : add_one c (t, true) ≡ ((c + 1) ∷ t, false) = rw e refl in
      subst (IsNext (c ∷ s)) (sym q) (
        ap suc l,
        (room, b),
        λ n.
            let behind : n * 256 + (c + 1) ≡ n * 256 + c + 1 = omega arith in
            ap (λ m. number_from m t) behind ∙ sym (next (n * 256 + c)),
      )
]

increment_loop-IsNext : (s : Bytes) → IsBytes s → IsNext s (increment_loop s)
unfolding increment_loop number_from IsNext
increment_loop-IsNext [] h = (refl, tt, (λ n. refl, tt, tt))
increment_loop-IsNext (c ∷ s) (hc, hs) =
    add_one-IsNext c s (increment_loop s) hc (increment_loop-IsNext s hs)

exact_parts : (n : ℕ) (s u : Bytes) → length s ≡ n → (take n (s ++ u) ≡ s) × (drop n (s ++ u) ≡ u)
exact_parts zero [] u e = (refl, refl)
exact_parts zero (c ∷ s) u e = ground arith
exact_parts (suc n) [] u e = ground arith
exact_parts (suc n) (c ∷ s) u e =
    let (front, back) = exact_parts n s u (omega arith) in (ap (λ t. c ∷ t) front, back)

length-take-drop : (n : ℕ) (s : Bytes) → length (take n s) + length (drop n s) ≡ length s
length-take-drop zero s = omega arith
length-take-drop (suc n) [] = omega arith
length-take-drop (suc n) (c ∷ s) = omega (arith, length-take-drop n s)

take-IsBytes : (n : ℕ) (s : Bytes) → IsBytes s → IsBytes (take n s) × IsBytes (drop n s)
take-IsBytes zero s h = (tt, h)
take-IsBytes (suc n) [] h = (tt, tt)
take-IsBytes (suc n) (c ∷ s) h = let (front, back) = take-IsBytes n s h.1 in ((h.0, front), back)

-- Whether the number goes up by one or the address wraps around from its last value to zero.
abbrev pub StepsUp : IpAddress → IpAddress → Type 0
StepsUp ip ip' =
    (number ip' ≡ number ip + 1)
    ⊎ (All (λ c. c ≡ 255) (address_data ip) × All (λ c. c ≡ 0) (address_data ip'))

module _ (n : ℕ) (s : Bytes) (h : IsBytes s) (e : length s ≡ 16) (l : n ≤ 16) where
  -- The bytes that the loop of `increment` leaves, with those that it does not reach.
  replaced_IsAddress :
      (t : Bytes)
      → length t ≡ length (take n s)
      → IsBytes t
      → (length (t ++ drop n s) ≡ 16) × IsBytes (t ++ drop n s)
  replaced_IsAddress t k b =
      let parts = length-take-drop n s in
      let whole = length-append t (drop n s) in
      (omega arith, All-append (λ c. c < 256) t (drop n s) b (take-IsBytes n s h).1)

  length-front : length (take n s) ≡ n
  length-front = length-take n s (omega arith)

family_bounded : (f : Family) → (if is_v6 f then 16 else 4) ≤ 16
family_bounded v4 = omega arith
family_bounded v6 = omega arith

IsNext-kept : (s : Bytes) (r : Bytes × Bool) → IsNext s r → (length r.0 ≡ length s) × IsBytes r.0
unfolding IsNext
IsNext-kept s r h = (h.0, h.1)

address_length_bounded : (ip : IpAddress) → address_length ip ≤ 16
unfolding address_length
address_length_bounded ip = family_bounded ip.family

either :
    (s : Bytes) (r : Bytes × Bool)
    → IsNext s r
    → (number_from 0 r.0 ≡ number_from 0 s + 1) ⊎ (All (λ c. c ≡ 255) s × All (λ c. c ≡ 0) r.0)
unfolding IsNext
either s (t, false) (l, b, same) = inl (same 0)
either s (t, true) (l, b, (next, ones, zs)) = inr (ones, zs)

-- `increment` adds one to the number of the address, and wraps around from the last address of the
-- family to its first. The family is kept, and so are the bytes that do not belong to the address.
pub increment-StepsUp :
    (ip : IpAddress)
    → IsAddress ip
    → StepsUp ip (increment ip)
      × IsAddress (increment ip)
      × ((increment ip).family ≡ ip.family)
      × (drop (address_length ip) (increment ip).data_ ≡ drop (address_length ip) ip.data_)
unfolding increment number address_data
increment-StepsUp ip h =
    let n = address_length ip in
    let s = ip.data_ in
    let l = address_length_bounded ip in
    let front = length-front n s h.bytes h.size l in
    let step = increment_loop-IsNext (take n s) (take-IsBytes n s h.bytes).0 in
    let t = (increment_loop (take n s)).0 in
    let kept = IsNext-kept (take n s) (increment_loop (take n s)) step in
    let whole = replaced_IsAddress n s h.bytes h.size l t kept.0 kept.1 in
    let exact = exact_parts n t (drop n s) (kept.0 ∙ front) in
    (
      rw exact.0 (either (take n s) (increment_loop (take n s)) step),
      record { size = whole.0; bytes = whole.1 },
      refl,
      exact.1,
    )

map-flip :
    (s : Bytes)
    → IsBytes s
    → (length (map flip s) ≡ length s) × (map flip (map flip s) ≡ s) × IsBytes (map flip s)
map-flip [] h = (refl, refl, tt)
map-flip (c ∷ s) (hc, hs) =
    let (l, e, b) = map-flip s hs in
    let back : 255 - (255 - c) ≡ c = omega arith in
    (ap suc l, ap₂ (λ d t. d ∷ t) back e, (omega arith, b))

take-drop : (n : ℕ) (s : Bytes) → take n s ++ drop n s ≡ s
take-drop zero s = refl
take-drop (suc n) [] = refl
take-drop (suc n) (c ∷ s) = ap (λ t. c ∷ t) (take-drop n s)

either_way : Ordering → Ordering → Ordering
either_way o rest = elim o [
  | Ordering.lt ↦ Ordering.lt
  | Ordering.eq ↦ rest
  | Ordering.gt ↦ Ordering.gt
]

memcmp-flip :
    (s t : Bytes)
    → length s ≡ length t
    → IsBytes s
    → IsBytes t
    → memcmp (map flip s) (map flip t) ≡ memcmp t s
unfolding memcmp either_way
memcmp-flip [] [] e hs ht = refl
memcmp-flip [] (d ∷ t) e hs ht = ground arith
memcmp-flip (c ∷ s) [] e hs ht = ground arith
memcmp-flip (c ∷ s) (d ∷ t) e (hc, hs) (hd, ht) =
    let turned : compare (255 - c) (255 - d) ≡ compare d c = ground arith in
    λ i. either_way (turned i) (memcmp-flip s t (omega arith) hs ht i)

-- The bytes that `inverse` leaves.
inverted : (n : ℕ) (s : Bytes) → Bytes
inverted n s = map flip (take n s) ++ drop n s

module _ (n : ℕ) (l : n ≤ 16) where
  take-inverted :
      (ip : IpAddress) → IsAddress ip → take n (inverted n ip.data_) ≡ map flip (take n ip.data_)
  unfolding inverted
  take-inverted ip h =
      let front = length-front n ip.data_ h.bytes h.size l in
      let b = (take-IsBytes n ip.data_ h.bytes).0 in
      (exact_parts n (map flip (take n ip.data_)) (drop n ip.data_) ((map-flip _ b).0 ∙ front)).0

  inverted-inverted :
      (ip : IpAddress)
      → IsAddress ip
      → (inverted n (inverted n ip.data_) ≡ ip.data_)
        × (length (inverted n ip.data_) ≡ 16)
        × IsBytes (inverted n ip.data_)
  unfolding inverted
  inverted-inverted ip h =
      let s = ip.data_ in
      let front = length-front n s h.bytes h.size l in
      let (long, twice, flipped) = map-flip (take n s) (take-IsBytes n s h.bytes).0 in
      let parts = exact_parts n (map flip (take n s)) (drop n s) (long ∙ front) in
      let whole = replaced_IsAddress n s h.bytes h.size l (map flip (take n s)) long flipped in
      (rw (parts.0, parts.1, twice) (take-drop n s), whole.0, whole.1)

  memcmp-inverted :
      (a b : IpAddress)
      → IsAddress a
      → IsAddress b
      → memcmp (take n (inverted n a.data_)) (take n (inverted n b.data_))
        ≡ memcmp (take n b.data_) (take n a.data_)
  memcmp-inverted a b ha hb =
      let la = length-front n a.data_ ha.bytes ha.size l in
      let lb = length-front n b.data_ hb.bytes hb.size l in
      rw (take-inverted a ha, take-inverted b hb)
        (memcmp-flip _ _ (la ∙ sym lb) (take-IsBytes n a.data_ ha.bytes).0
          (take-IsBytes n b.data_ hb.bytes).0)

-- `inverse` undoes itself, and keeps the object well formed.
pub inverse-inverse :
    (ip : IpAddress) → IsAddress ip → (inverse (inverse ip) ≡ ip) × IsAddress (inverse ip)
unfolding inverse inverted
inverse-inverse ip h =
    let (twice, size, bytes) =
      inverted-inverted (address_length ip) (address_length_bounded ip) ip h in
    (ap (λ s. record ip { data_ = s }) twice, record { size = size; bytes = bytes })

abbrev at : Family → Bytes → IpAddress
at family data_ = record { family = family; data_ = data_ }

-- `inverse` turns the order of the addresses of a family around.
pub inverse-order :
    (family : Family) (s t : Bytes)
    → IsAddress (record { family = family; data_ = s })
    → IsAddress (record { family = family; data_ = t })
    → (greater
          (inverse (record { family = family; data_ = s }))
          (inverse (record { family = family; data_ = t }))
        ≡ greater (record { family = family; data_ = t }) (record { family = family; data_ = s }))
      × (equals
            (inverse (record { family = family; data_ = s }))
            (inverse (record { family = family; data_ = t }))
          ≡ equals (record { family = family; data_ = t }) (record { family = family; data_ = s }))
unfolding inverse inverted greater equals address_length
inverse-order v4 s t ha hb =
    let e = memcmp-inverted 4 (omega arith) (at v4 s) (at v4 t) ha hb in (ap is_gt e, ap is_eq e)
inverse-order v6 s t ha hb =
    let e = memcmp-inverted 16 (omega arith) (at v6 s) (at v6 t) ha hb in (ap is_gt e, ap is_eq e)
