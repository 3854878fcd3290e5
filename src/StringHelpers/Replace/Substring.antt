-- ===== src/StringHelpers/Replace/Substring.antt =====
-- Replacing a text by a text.
use social_network.Prelude.{
  ℕ, zero, suc, ◌+◌, ◌-◌, ◌≤◌, ◌<◌, ◌≡◌, ◌≢◌, refl, ap, ◌∙◌, inl, inr, true, [], ◌∷◌, ◌++◌,
  append_assoc, none, some, arith, Bool-cases, Option-cases, if◌then◌else◌, ltb, ltb→lt, Bytes,
  length, take, drop, equal, equal_iff,
}
use social_network.StringHelpers.{starts_with, find, replace_loop, replace_in_place}
use social_network.StringHelpers.Replace.Indices.{drop-drop, length-drop, drop-suc}

-- Every match from the left is replaced, and the search goes on behind it: `skip` bytes of the
-- match at hand are still to be left out.
unfoldable pub replace_all : Bytes → Bytes → ℕ → Bytes → Bytes
replace_all from to skip [] = []
replace_all from to (suc skip) (c ∷ s) = replace_all from to skip s
replace_all from to zero (c ∷ s) =
    if starts_with from (c ∷ s)
    then to ++ replace_all from to (length from - 1) s
    else c ∷ replace_all from to 0 s

replace_all-drop :
    (from to : Bytes) (k : ℕ) (s : Bytes)
    → replace_all from to k s ≡ replace_all from to 0 (drop k s)
unfolding replace_all
replace_all-drop from to zero s = refl
replace_all-drop from to (suc k) [] = refl
replace_all-drop from to (suc k) (c ∷ s) = replace_all-drop from to k s

starts_with-length : (p s : Bytes) → starts_with p s ≡ true → length p ≤ length s
unfolding starts_with
starts_with-length [] s h = omega arith
starts_with-length (p ∷ ps) [] h = cc
starts_with-length (p ∷ ps) (c ∷ s) h = ground (arith, starts_with-length ps s)

replace_all-none :
    (f : ℕ) (fs to s : Bytes) → find (f ∷ fs) s ≡ none → replace_all (f ∷ fs) to 0 s ≡ s
unfolding replace_all find
replace_all-none f fs to [] h = refl
replace_all-none f fs to (c ∷ s) h = ground (arith, replace_all-none f fs to s)

replace_all-some :
    (f : ℕ) (fs to s : Bytes) (n : ℕ)
    → find (f ∷ fs) s ≡ some n
    → (replace_all (f ∷ fs) to 0 s
        ≡ take n s ++ (to ++ replace_all (f ∷ fs) to 0 (drop (n + suc (length fs)) s)))
      × (n + suc (length fs) ≤ length s)
unfolding replace_all find
replace_all-some f fs to [] n h = unfold starts_with in cc
replace_all-some f fs to (c ∷ s) n h = elim (Bool-cases (starts_with (f ∷ fs) (c ∷ s))) [
  | inl e ↦
      ground (
        arith,
        e,
        starts_with-length (f ∷ fs) (c ∷ s) e,
        replace_all-drop (f ∷ fs) to (length fs) s,
      )
  | inr e ↦ elim (Option-cases (find (f ∷ fs) s)) [
    | inl m ↦ ground (arith, e, m)
    | inr (k, m) ↦
        ground (arith, e, m, replace_all-some f fs to s k m, drop-suc k (suc (length fs)) c s)
  ]
]

-- The loop appends to `result` what replacing gives on the text behind `start`.
replace_loop-replace_all :
    (fuel : ℕ) (f : ℕ) (fs s to : Bytes) (start : ℕ) (result : Bytes)
    → start ≤ length s
    → length s < start + fuel
    → replace_loop fuel s (f ∷ fs) to start result
      ≡ some (result ++ replace_all (f ∷ fs) to 0 (drop start s))
unfolding replace_loop
replace_loop-replace_all zero f fs s to start result h k = absurd (omega arith)
replace_loop-replace_all (suc fuel) f fs s to start result h k =
    elim (Option-cases (find (f ∷ fs) (drop start s))) [
      | inl m ↦ rw (m, replace_loop) (rw (replace_all-none f fs to (drop start s) m))
      | inr (n, m) ↦
          let (split, fits) = replace_all-some f fs to (drop start s) n m in
          let room : start + n + suc (length fs) ≤ length s = omega (arith, length-drop start s) in
          let at : start + n - start ≡ n = omega arith in
          let past : start + n + suc (length fs) ≡ start + (n + suc (length fs)) = omega arith in
          rw (m, replace_loop)
            (replace_loop-replace_all fuel f fs s to (start + n + suc (length fs))
                (result ++ take (start + n - start) (drop start s) ++ to) room (omega arith)
              ∙ ap some (
                  rw (at, past, split, ← drop-drop (n + suc (length fs)) start s)
                    (append_assoc (result ++ take n (drop start s)) to _
                      ∙ append_assoc result (take n (drop start s)) _)))
    ]

-- Replacing a non-empty text by another from a `start` within the text ends, and gives the text with
-- every match behind `start` replaced, from the left and without overlaps.
pub replace_in_place-replace_all :
    (s from to : Bytes) (start : ℕ)
    → from ≢ []
    → from ≢ to
    → start ≤ length s
    → replace_in_place s from to start ≡ some (take start s ++ replace_all from to 0 (drop start s))
unfolding replace_in_place
replace_in_place-replace_all s [] to start h k l = absurd (h refl)
replace_in_place-replace_all s (f ∷ fs) to start h k l = elim (Bool-cases (equal (f ∷ fs) to)) [
  | inl e ↦ absurd (k ((equal_iff (f ∷ fs) to).0 e))
  | inr e ↦ elim (Bool-cases (ltb (length s) start)) [
    | inl b ↦ absurd (omega (arith, ltb→lt (length s) start b))
    | inr b ↦
        rw (e, b)
          (replace_loop-replace_all (suc (length s)) f fs s to start (take start s) l (omega arith))
  ]
]
