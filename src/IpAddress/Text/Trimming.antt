-- ===== src/IpAddress/Text/Trimming.antt =====
-- `trim_v6_string` of ip_address.cpp and its loops.
use social_network.Prelude.{
  ℕ, zero, suc, ◌+◌, ◌-◌, ◌≤◌, ◌<◌, ◌≡◌, ◌≢◌, refl, sym, ap, ◌∙◌, ◌⊎◌, inl, inr, true, false, ◌||◌,
  [], ◌∷◌, Option, none, some, leb, ◌%◌, drop, ltb, Bytes, codes, length, drop_while, length-append,
  arith, Bool-cases, Option-cases,
}
use social_network.StringHelpers.{starts_with, find, find_from, replace_in_place}
use social_network.StringHelpers.Replace.{replace_all, replace_in_place-replace_all, length-drop}
use social_network.IpAddress.Text.{
  double_colon, count_double, ends_in_colon, trim_zeros, replace_while, is_zero_digit,
  trim_v6_string,
}

starts_with-length : (from s : Bytes) → starts_with from s ≡ true → length from ≤ length s
unfolding starts_with
starts_with-length [] s e = omega arith
starts_with-length (f ∷ from) [] e = ground arith
starts_with-length (f ∷ from) (c ∷ s) e = ground (arith, starts_with-length from s)

not_in_empty : (from : Bytes) (pos : ℕ) → 0 < length from → find from [] ≢ some pos
unfolding find starts_with
not_in_empty [] pos h e = ground arith
not_in_empty (f ∷ from) pos h e = ground arith

found_later :
    (from : Bytes) (c : ℕ) (s : Bytes) (pos : ℕ)
    → starts_with from (c ∷ s) ≡ false
    → find from (c ∷ s) ≡ some pos
    → (n : ℕ) × (find from s ≡ some n)
unfolding find
found_later from c s pos m e = elim (Option-cases (find from s)) [
  | inl k ↦ let e' : none ≡ some pos = sym (rw (m, k) refl) ∙ e in ground arith
  | inr (n, k) ↦ (n, k)
]

module _ (from to : Bytes) (shorter : length to < length from) where
  length-replace_all :
      (s : Bytes) (skip : ℕ)
      → skip ≤ length s
      → length (replace_all from to skip s) + skip ≤ length s
  unfolding replace_all
  length-replace_all [] zero h = omega arith
  length-replace_all [] (suc skip) h = ground arith
  length-replace_all (c ∷ s) (suc skip) h = omega (arith, length-replace_all s skip (omega arith))
  length-replace_all (c ∷ s) zero h = elim (Bool-cases (starts_with from (c ∷ s))) [
    | inl e ↦
        let long = starts_with-length from (c ∷ s) e in
        let rest = length-replace_all s (length from - 1) (omega arith) in
        let whole = length-append to (replace_all from to (length from - 1) s) in rw e (omega arith)
    | inr e ↦ rw e (omega (arith, length-replace_all s 0 (omega arith)))
  ]

  -- A round that finds `from` makes the text shorter.
  shorter-replace_all :
      (s : Bytes) (pos : ℕ) → find from s ≡ some pos → length (replace_all from to 0 s) < length s
  unfolding replace_all
  shorter-replace_all [] pos e = absurd (not_in_empty from pos (omega arith) e)
  shorter-replace_all (c ∷ s) pos e = elim (Bool-cases (starts_with from (c ∷ s))) [
    | inl m ↦
        let long = starts_with-length from (c ∷ s) m in
        let rest = length-replace_all s (length from - 1) (omega arith) in
        let whole = length-append to (replace_all from to (length from - 1) s) in rw m (omega arith)
    | inr m ↦
        let (n, e') = found_later from c s pos m e in
        rw m (omega (arith, shorter-replace_all s n e'))
  ]

-- The rounds of `while (s.find(from) != npos) replace_in_place(s, from, to);` come to an end, at a
-- text without `from`.
replace_while-ends :
    (from to s : Bytes) (fuel : ℕ)
    → length to < length from
    → length s < fuel
    → (r : Bytes) × (replace_while fuel from to s ≡ some r)
      × (find from r ≡ none)
      × (length r ≤ length s)
unfolding replace_while
replace_while-ends from to s zero l h = ground arith
replace_while-ends from to s (suc fuel) l h = elim (Option-cases (find from s)) [
  | inl e ↦ (s, rw (replace_while, e) refl, e, omega arith)
  | inr (pos, e) ↦
      let s' = replace_all from to 0 s in
      let less = shorter-replace_all from to l s pos e in
      let nonempty : from ≢ [] = λ k. let z : length from ≡ 0 = ap length k in ground arith in
      let differ : from ≢ to = λ k. let z : length from ≡ length to = ap length k in ground arith in
      let once : replace_in_place s from to 0 ≡ some s' =
        replace_in_place-replace_all s from to 0 nonempty differ (omega arith) in
      let (r, ends, gone, shorter) = replace_while-ends from to s' fuel l (omega arith) in
      (r, rw (replace_while, e, once) ends, gone, omega arith)
]

length-drop_while : (s : Bytes) → length (drop_while is_zero_digit s) ≤ length s
unfolding drop_while
length-drop_while [] = omega arith
length-drop_while (c ∷ s) = ground (arith, length-drop_while s)

find-length : (from s : Bytes) (pos : ℕ) → 0 < length from → find from s ≡ some pos → pos < length s
unfolding find
find-length from [] pos h e = absurd (not_in_empty from pos h e)
find-length from (c ∷ s) pos h e = elim (Bool-cases (starts_with from (c ∷ s))) [
  | inl m ↦ let g = rw (find, m) at e in ground arith
  | inr m ↦
      let (n, e') = found_later from c s pos m e in
      let n_less = find-length from s n h e' in let g = rw (find, m, e') at e in ground arith
]

-- A search finds nothing before its start, and nothing behind the text.
find_from-bounds :
    (s from : Bytes) (start pos : ℕ)
    → 0 < length from
    → find_from s from start ≡ some pos
    → (start ≤ pos) × (pos < length s)
unfolding find_from
find_from-bounds s from start pos h e = elim (Option-cases (find from (drop start s))) [
  | inl k ↦ let g = rw (find_from, k) at e in ground arith
  | inr (n, k) ↦
      let less = find-length from (drop start s) n h k in
      let whole = length-drop start s in let g = rw (find_from, k) at e in ground arith
]

-- The first loop comes to an end, since every round looks behind the match before it.
count_double-ends :
    (fuel : ℕ) (s : Bytes) (pos : Option ℕ)
    → ((n : ℕ) → pos ≡ some n → (n < length s) × (length s < fuel + n))
    → 0 < fuel
    → (rounds : ℕ) × (count_double fuel s pos ≡ some rounds)
unfolding count_double
count_double-ends zero s pos h positive = ground arith
count_double-ends (suc fuel) s none h positive = (0, refl)
count_double-ends (suc fuel) s (some pos) h positive =
    let (inside, enough) = h pos refl in
    let limit = (length s + 18446744073709551614) % 18446744073709551616 in
    elim (Bool-cases (leb pos limit)) [
      | inr e ↦ (0, rw (count_double, e) refl)
      | inl e ↦
          let next = find_from s double_colon (pos + 2) in
          let (rounds, ends) =
            count_double-ends fuel s next
              (λ n k.
                let (later, before) = find_from-bounds s double_colon (pos + 2) n (omega arith) k in
                (before, omega arith))
              (omega arith) in
          (suc rounds, rw (count_double, e, ends) refl)
    ]

trim_zeros-ends :
    (addr : Bytes)
    → (r : Bytes) × (trim_zeros addr ≡ some r)
      × (length r ≤ length addr)
      × (find (codes ":::") r ≡ none)
unfolding trim_zeros
trim_zeros-ends addr =
    let shorter = length-drop_while addr in
    let (s, first, _, l) =
      replace_while-ends (codes ":0") (codes ":") (drop_while is_zero_digit addr)
        (suc (length addr)) (omega arith) (omega arith) in
    let (r, second, gone, l') =
      replace_while-ends (codes ":::") double_colon s (suc (length addr)) (omega arith)
        (omega arith) in
    (r, rw (trim_zeros, first) second, omega arith, gone)

-- `trim_v6_string` ends on every text, each of its loops included, and what it returns is not longer:
-- the text as it is, or one in which no three colons follow each other.
pub trim_v6_string-ends :
    (addr : Bytes)
    → (r : Bytes) × (trim_v6_string addr ≡ some r)
      × (length r ≤ length addr)
      × ((r ≡ addr) ⊎ (find (codes ":::") r ≡ none))
unfolding trim_v6_string
trim_v6_string-ends addr =
    let (rounds, counted) =
      count_double-ends (suc (length addr)) addr (find double_colon addr)
        (λ n e. (find-length double_colon addr n (omega arith) e, omega arith)) (omega arith) in
    elim (Bool-cases (ltb 1 rounds || ends_in_colon addr)) [
      | inl e ↦ (addr, rw (trim_v6_string, counted, e) refl, omega arith, inl refl)
      | inr e ↦
          let (r, ends, shorter, gone) = trim_zeros-ends addr in
          (r, rw (trim_v6_string, counted, e) ends, shorter, inr gone)
    ]
