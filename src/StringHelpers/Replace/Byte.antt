-- ===== src/StringHelpers/Replace/Byte.antt =====
-- Replacing or removing one byte.
use social_network.Prelude.{
  ℕ, zero, suc, ◌+◌, ◌≤◌, ◌<◌, ◌≡◌, ◌≢◌, refl, sym, ap, ◌∙◌, inl, inr, false, not, [], ◌∷◌, ◌++◌,
  none, some, arith, Bool-cases, Option-cases, if◌then◌else◌, ◌==◌, Bytes, length, take, drop, set,
}
use social_network.StringHelpers.{
  starts_with, find, erase_at, replace_char_loop, replace_char_in_place,
}
use social_network.StringHelpers.Replace.Indices.{
  drop-drop, length-drop, take-drop_append, take-set, drop-set, take-append_take, drop-append_take,
}

-- Every `from` becomes `to`, or goes where `to` is the null byte.
unfoldable pub substitute : ℕ → ℕ → Bytes → Bytes
substitute from to [] = []
substitute from to (c ∷ s) =
    if c == from
    then (if to == 0 then substitute from to s else to ∷ substitute from to s)
    else c ∷ substitute from to s

count : ℕ → Bytes → ℕ
count from [] = 0
count from (c ∷ s) = (if c == from then 1 else 0) + count from s

count-le : (from : ℕ) (s : Bytes) → count from s ≤ length s
unfolding count
count-le from [] = omega arith
count-le from (c ∷ s) = ground (arith, count-le from s)

-- One round on the text behind `start`.
round : ℕ → Bytes → ℕ → Bytes
round to s pos = if not (to == 0) then set s pos to else erase_at s pos

find-nil : (from : ℕ) → find (from ∷ []) [] ≡ none
unfolding find starts_with
find-nil from = refl

substitute-none : (from to : ℕ) (s : Bytes) → find (from ∷ []) s ≡ none → substitute from to s ≡ s
unfolding substitute find starts_with
substitute-none from to [] h = refl
substitute-none from to (c ∷ s) h = ground (arith, substitute-none from to s)

-- A round leaves the result as it is to be, and takes one `from` away.
round-substitute :
    (from to : ℕ) (s : Bytes) (n : ℕ)
    → (from == to) ≡ false
    → find (from ∷ []) s ≡ some n
    → (substitute from to (round to s n) ≡ substitute from to s)
      × (count from (round to s n) < count from s)
      × (n < length s)
unfolding substitute find starts_with round erase_at count
round-substitute from to [] n d h = cc
round-substitute from to (c ∷ s) n d h = elim (Bool-cases (from == c)) [
  | inl e ↦ ground (arith, e)
  | inr e ↦ elim (Option-cases (find (from ∷ []) s)) [
    | inl m ↦ ground (arith, e, m)
    | inr (k, m) ↦ ground (arith, e, m, round-substitute from to s k d m)
  ]
]

-- A round at `start + n` is the round at `n` on the text behind `start`.
round-drop :
    (to : ℕ) (s : Bytes) (start n : ℕ)
    → start ≤ length s
    → (drop start (round to s (start + n)) ≡ round to (drop start s) n)
      × (take start (round to s (start + n)) ≡ take start s)
unfolding round erase_at
round-drop to s start n h = elim (Bool-cases (to == 0)) [
  | inl e ↦
      let shift : suc (start + n) ≡ start + suc n = omega arith in
      (
        rw (e, shift)
            (drop-append_take start n s (drop (start + suc n) s) h
              ∙ ap (◌++◌ (take n (drop start s))) (sym (drop-drop (suc n) start s))),
        rw (e, shift) (take-append_take start n s (drop (start + suc n) s) h),
      )
  | inr e ↦ (rw e (drop-set start n to s), rw e (take-set start n to s))
]

-- The loop starts each search at `start` again, and ends since each round takes a `from` away.
replace_char_loop-substitute :
    (fuel from to : ℕ) (s : Bytes) (start : ℕ)
    → (from == to) ≡ false
    → count from (drop start s) < fuel
    → replace_char_loop fuel s from to start
      ≡ some (take start s ++ substitute from to (drop start s))
unfolding replace_char_loop round
replace_char_loop-substitute zero from to s start d h = elim h [ ]
replace_char_loop-substitute (suc fuel) from to s start d h =
    elim (Option-cases (find (from ∷ []) (drop start s))) [
      | inl m ↦
          rw (m, replace_char_loop)
            (rw (substitute-none from to (drop start s) m, take-drop_append start s))
      | inr (n, m) ↦
          let (same, fewer, inside) = round-substitute from to (drop start s) n d m in
          let (behind, before) = round-drop to s start n (omega (arith, length-drop start s)) in
          rw (m, replace_char_loop)
            (replace_char_loop-substitute fuel from to (round to s (start + n)) start d
                (rw behind (omega arith))
              ∙ ap some (rw (behind, before, same)))
    ]

-- Replacing a byte by another ends, and changes every such byte from `start` on and no byte before
-- it; with the null byte for the new one, as `remove` does, it takes these bytes out.
pub replace_char_in_place-substitute :
    (s : Bytes) (from to start : ℕ)
    → from ≢ to
    → replace_char_in_place s from to start
      ≡ some (take start s ++ substitute from to (drop start s))
unfolding replace_char_in_place
replace_char_in_place-substitute s from to start h =
    let apart : (from == to) ≡ false = ground arith in
    rw apart (
      replace_char_loop-substitute (suc (length s)) from to s start apart
        (omega (arith, count-le from (drop start s), length-drop start s)))
