-- ===== src/StringHelpers/Trim.antt =====
-- The trimming functions of string.cpp against their meaning.
use social_network.Prelude.{
  lt→ltb, ℕ, zero, suc, ◌+◌, ◌-◌, ◌≤◌, ◌<◌, ◌≡◌, refl, sym, ap, ◌∙◌, ◌⊎◌, inl, inr, true, false, [],
  ◌∷◌, ◌++◌, append-nil, append_assoc, arith, Bool-cases, Bytes, length, get_or, take, drop,
  drop_while, take_while, take_while-append-drop_while, drop_while-Stops, take_while-All, Stops,
  All, All-append,
}
use social_network.StringHelpers.{
  trim_left_in_place, trim_right_in_place, trim_in_place, is_space, trim_left, last_kept,
  trim_right, first_kept, end_kept, trim,
}

abbrev pub AreSpaces : Bytes → Type 0
AreSpaces = All (λ c. is_space c ≡ true)

-- The text is empty or its last byte is no space.
abbrev pub EndsClean : Bytes → Type 0
EndsClean t = (t ≡ []) ⊎ ((b : Bytes) × (c : ℕ) × (t ≡ b ++ c ∷ []) × (is_space c ≡ false))

-- `t` is `s` without the spaces at its two ends.
pub record IsTrimmed (s t : Bytes) : Type 0 where
  pub before : Bytes
  pub after : Bytes
  pub splits : s ≡ before ++ (t ++ after)
  pub before_spaces : AreSpaces before
  pub after_spaces : AreSpaces after
  pub front : Stops is_space t
  pub back : EndsClean t

take-suc : (n : ℕ) (t : Bytes) → n < length t → take (suc n) t ≡ take n t ++ get_or t n 0 ∷ []
take-suc n [] h = elim h [ ]
take-suc zero (c ∷ t) h = refl
take-suc (suc n) (c ∷ t) h = ap (◌∷◌ c) (take-suc n t (omega arith))

take-all : (t : Bytes) → take (length t) t ≡ t
take-all [] = refl
take-all (c ∷ t) = ap (◌∷◌ c) (take-all t)

-- What the backward loop leaves out is spaces, and it stops at a byte that is none.
record Kept (t : Bytes) (n : ℕ) (k : ℕ) : Type 0 where
  rest : Bytes
  splits : take n t ≡ take k t ++ rest
  spaces : AreSpaces rest
  clean : EndsClean (take k t)

last_kept-Kept : (t : Bytes) (n : ℕ) → n ≤ length t → Kept t n (last_kept t n)
unfolding last_kept
last_kept-Kept t zero h = record { rest = []; splits = refl; spaces = tt; clean = inl refl }
last_kept-Kept t (suc n) h = elim (Bool-cases (is_space (get_or t n 0))) [
  | inl e ↦
      let k = last_kept-Kept t n (omega arith) in
      rw (e, last_kept)
        (record {
          rest = k.rest ++ get_or t n 0 ∷ [];
          splits =
              rw (take-suc n t h, k.splits)
                (append_assoc (take (last_kept t n) t) k.rest (get_or t n 0 ∷ []));
          spaces = All-append _ k.rest _ k.spaces (e, tt);
          clean = k.clean;
        })
  | inr e ↦
      rw (e, last_kept)
        (record {
          rest = [];
          splits = sym (append-nil _);
          spaces = tt;
          clean = inr (take n t, get_or t n 0, take-suc n t h, e);
        })
]

get_or-drop : (n i : ℕ) (t : Bytes) → get_or (drop n t) i 0 ≡ get_or t (n + i) 0
get_or-drop zero i t = let e : zero + i ≡ i = omega arith in rw e
get_or-drop (suc n) i [] = refl
get_or-drop (suc n) i (c ∷ t) =
    let e : suc n + i ≡ suc (n + i) = omega arith in rw e (get_or-drop n i t)

length-drop : (n : ℕ) (t : Bytes) → length (drop n t) ≡ length t - n
length-drop zero t = omega arith
length-drop (suc n) [] = omega arith
length-drop (suc n) (c ∷ t) = omega (arith, length-drop n t)

drop_step : (n : ℕ) (t : Bytes) → n < length t → drop n t ≡ get_or t n 0 ∷ drop (suc n) t
drop_step n [] h = elim h [ ]
drop_step zero (c ∷ t) h = refl
drop_step (suc n) (c ∷ t) h = drop_step n t (omega arith)

drop_past : (n : ℕ) (t : Bytes) → length t ≤ n → drop n t ≡ []
drop_past zero [] h = refl
drop_past zero (c ∷ t) h = elim h [ ]
drop_past (suc n) [] h = refl
drop_past (suc n) (c ∷ t) h = drop_past n t (omega arith)

-- The forward loop on indices is the loop on the text behind them.
drop-first_kept :
    (s : Bytes) (first left : ℕ)
    → first + left ≡ length s
    → drop (first_kept s first left) s ≡ drop_while is_space (drop first s)
unfolding first_kept drop_while
drop-first_kept s first zero h = rw (drop_past first s (omega arith))
drop-first_kept s first (suc left) h =
    rw (drop_step first s (omega arith)) (elim (Bool-cases (is_space (get_or s first 0))) [
      | inl e ↦ rw (e, first_kept) (drop-first_kept s (suc first) left (omega arith))
      | inr e ↦ rw (e, first_kept) (drop_step first s (omega arith))
    ])

end_kept-last_kept :
    (s : Bytes) (first left : ℕ) → end_kept s first left ≡ first + last_kept (drop first s) left
unfolding end_kept last_kept
end_kept-last_kept s first zero = omega arith
end_kept-last_kept s first (suc left) =
    ground (arith, get_or-drop first left s, end_kept-last_kept s first left)

drop-first_kept-trim_left : (s : Bytes) → drop (first_kept s 0 (length s)) s ≡ trim_left s
unfolding trim_left
drop-first_kept-trim_left s = drop-first_kept s 0 (length s) (omega arith)

-- `trim` is `trim_left` and then `trim_right`.
pub trim-trim_right-trim_left : (s : Bytes) → trim s ≡ trim_right (trim_left s)
unfolding trim trim_right
trim-trim_right-trim_left s =
    let f = first_kept s 0 (length s) in
    rw (← drop-first_kept-trim_left s, length-drop f s, end_kept-last_kept s f (length s - f))
      (let e : (k : ℕ) → f + k - f ≡ k = λ k. omega arith in rw e)

take-Stops : (k : ℕ) (t : Bytes) → Stops is_space t → Stops is_space (take k t)
take-Stops zero t h = tt
take-Stops (suc k) [] h = tt
take-Stops (suc k) (c ∷ t) h = h

-- `trim` drops the spaces at both ends and nothing else.
pub trim-IsTrimmed : (s : Bytes) → IsTrimmed s (trim s)
trim-IsTrimmed s = rw (trim-trim_right-trim_left s) (go (last_kept-Kept t (length t) (omega arith)))
  where
    t : Bytes
    t = trim_left s

    go : Kept t (length t) (last_kept t (length t)) → IsTrimmed s (trim_right t)
    go k =
        unfold trim_right trim_left in
        record {
          before = take_while is_space s;
          after = k.rest;
          splits =
              sym (take_while-append-drop_while is_space s)
              ∙ ap (◌++◌ (take_while is_space s)) (sym (take-all t) ∙ k.splits);
          before_spaces = take_while-All is_space s;
          after_spaces = k.spaces;
          front = take-Stops _ t (drop_while-Stops is_space s);
          back = k.clean;
        }

take-nil : (n : ℕ) → take n (let e : Bytes = [] in e) ≡ []
take-nil zero = refl
take-nil (suc n) = refl

drop-take : (f e : ℕ) (s : Bytes) → drop f (take e s) ≡ take (e - f) (drop f s)
drop-take zero e s = let h : e - 0 ≡ e = omega arith in rw h
drop-take (suc f) e [] = rw (take-nil e, take-nil (e - suc f))
drop-take (suc f) zero (c ∷ s) = let h : zero - suc f ≡ 0 = omega arith in rw h
drop-take (suc f) (suc e) (c ∷ s) =
    let h : suc e - suc f ≡ e - f = omega arith in rw h (drop-take f e s)

last_kept_pos : (c : ℕ) (s : Bytes) (n : ℕ) → is_space c ≡ false → 0 < last_kept (c ∷ s) (suc n)
unfolding last_kept
last_kept_pos c s zero h = rw (h, last_kept) (omega arith)
last_kept_pos c s (suc n) h = elim (Bool-cases (is_space (get_or (c ∷ s) (suc n) 0))) [
  | inl e ↦ rw (e, last_kept) (last_kept_pos c s n h)
  | inr e ↦ rw (e, last_kept) (omega arith)
]

le-first_kept : (s : Bytes) (first left : ℕ) → first ≤ first_kept s first left
unfolding first_kept
le-first_kept s first zero = omega arith
le-first_kept s first (suc left) = ground (arith, le-first_kept s (suc first) left)

-- With a byte in the text the end lies behind it, or behind the spaces before it.
end_pos :
    (c : ℕ) (s : Bytes)
    → let first = first_kept (c ∷ s) 0 (suc (length s)) in
      0 < end_kept (c ∷ s) first (suc (length s) - first)
unfolding first_kept
end_pos c s = elim (Bool-cases (is_space c)) [
  | inl e ↦
      let f = first_kept (c ∷ s) 1 (length s) in
      rw (e, first_kept)
        (omega (
          arith,
          le-first_kept (c ∷ s) 1 (length s),
          end_kept-last_kept (c ∷ s) f (suc (length s) - f),
        ))
  | inr e ↦
      rw (e, first_kept)
        (rw (end_kept-last_kept (c ∷ s) 0 (suc (length s) - 0)) (
          let h : suc (length s) - 0 ≡ suc (length s) = omega arith in
          rw h (omega (arith, last_kept_pos c s (length s) e))))
]

-- Trimming in place gives what the copying functions return; the guard of `trim_in_place` on `last`
-- leaves out no text that has spaces.
pub trim_in_place-trim :
    (s : Bytes)
    → (trim_in_place s ≡ trim s)
      × (trim_left_in_place s ≡ trim_left s)
      × (trim_right_in_place s ≡ trim_right s)
unfolding trim_in_place trim trim_left_in_place trim_right_in_place trim_right end_kept first_kept
trim_in_place-trim [] = (refl, drop-first_kept-trim_left [], refl)
trim_in_place-trim (c ∷ s) =
    let f = first_kept (c ∷ s) 0 (suc (length s)) in
    (
      rw (lt→ltb _ _ (end_pos c s)) (drop-take f (end_kept (c ∷ s) f (suc (length s) - f)) (c ∷ s)),
      drop-first_kept-trim_left (c ∷ s),
      refl,
    )
