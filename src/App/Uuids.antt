-- ===== src/App/Uuids.antt =====
-- `is_valid_uuid_` of app.cpp: the regular expression
-- `^[0-9a-fA-F]{8}-[0-9a-fA-F]{4}-[0-9a-fA-F]{4}-[0-9a-fA-F]{4}-[0-9a-fA-F]{12}$`.
use social_network.Prelude.{
  ℕ, zero, suc, ◌≡◌, refl, sym, ap, ◌∙◌, ◌↔◌, Bool, true, false, ◌&&◌, ◌||◌, [], ◌∷◌, ◌++◌, Option,
  none, some, leb, ◌==◌, if◌then◌else◌, Bytes, length, is_empty, All, arith, Bool-cases, inl, inr,
  Option-cases,
}

abbrev pub is_hex : ℕ → Bool
is_hex c = (leb b'0' c && leb c b'9') || (leb b'a' c && leb c b'f') || (leb b'A' c && leb c b'F')

-- `[0-9a-fA-F]{n}`, and `-`: the text behind the match.
unfoldable pub match_hex : ℕ → Bytes → Option Bytes
match_hex zero s = some s
match_hex (suc n) [] = none
match_hex (suc n) (c ∷ s) = elim (is_hex c) [ true ↦ match_hex n s | false ↦ none ]

unfoldable pub match_dash : Option Bytes → Option Bytes
match_dash none = none
match_dash (some []) = none
match_dash (some (c ∷ s)) = if c == b'-' then some s else none

abbrev pub then_hex : ℕ → Option Bytes → Option Bytes
unfolding match_hex
then_hex n none = none
then_hex n (some s) = match_hex n s

abbrev pub at_end : Option Bytes → Bool
at_end none = false
at_end (some s) = is_empty s

unfoldable pub is_valid_uuid : Bytes → Bool
unfolding match_hex match_dash then_hex
is_valid_uuid id = at_end (
    then_hex 12 (
      match_dash (
        then_hex 4
          (match_dash (then_hex 4 (match_dash (then_hex 4 (match_dash (match_hex 8 id)))))))))

-- A group of hexadecimal digits.
pub record IsGroup (n : ℕ) (s : Bytes) : Type 0 where
  pub size : length s ≡ n
  pub digits : All (λ c. is_hex c ≡ true) s

match_hex-some :
    (n : ℕ) (s rest : Bytes)
    → match_hex n s ≡ some rest
    → (group : Bytes) × IsGroup n group × (s ≡ group ++ rest)
unfolding match_hex
match_hex-some zero s rest e = ([], record { size = refl; digits = tt }, ground arith)
match_hex-some (suc n) [] rest e = ground arith
match_hex-some (suc n) (c ∷ s) rest e = elim (Bool-cases (is_hex c)) [
  | inl h ↦
      let (group, is_group, joined) = match_hex-some n s rest (rw (match_hex, h) at e) in
      (
        c ∷ group,
        record { size = ap suc is_group.size; digits = (h, is_group.digits) },
        ap (◌∷◌ c) joined,
      )
  | inr h ↦ ground arith
]

match_hex-group :
    (n : ℕ) (group rest : Bytes) → IsGroup n group → match_hex n (group ++ rest) ≡ some rest
unfolding match_hex
match_hex-group n group rest h = go n group h.size h.digits
  where
    go :
        (m : ℕ) (s : Bytes)
        → length s ≡ m
        → All (λ c. is_hex c ≡ true) s
        → match_hex m (s ++ rest) ≡ some rest
    go zero [] e k = refl
    go zero (c ∷ s) e k = ground arith
    go (suc m) [] e k = ground arith
    go (suc m) (c ∷ s) e (k, ks) = rw (match_hex, k) (go m s (ground arith) ks)

match_dash-some :
    (o : Option Bytes) (rest : Bytes) → match_dash o ≡ some rest → o ≡ some (b'-' ∷ rest)
unfolding match_dash
match_dash-some none rest e = ground arith
match_dash-some (some []) rest e = ground arith
match_dash-some (some (c ∷ s)) rest e = ground arith

-- The five groups of a UUID and the text that they make.
pub record IsUuid (id : Bytes) : Type 0 where
  pub first : Bytes
  pub second : Bytes
  pub third : Bytes
  pub fourth : Bytes
  pub fifth : Bytes
  pub first_is : IsGroup 8 first
  pub second_is : IsGroup 4 second
  pub third_is : IsGroup 4 third
  pub fourth_is : IsGroup 4 fourth
  pub fifth_is : IsGroup 12 fifth
  pub joined :
      id ≡ first ++ b'-' ∷ (second ++ b'-' ∷ (third ++ b'-' ∷ (fourth ++ b'-' ∷ (fifth ++ []))))

none-some : (s : Bytes) → (let o : Option Bytes = none in o) ≡ some s → ⊥
none-some s e = ground arith

-- A dash and a group, read backwards and forwards.
then_hex-some :
    (n : ℕ) (o : Option Bytes) (rest : Bytes)
    → then_hex n (match_dash o) ≡ some rest
    → (group : Bytes) × IsGroup n group × (o ≡ some (b'-' ∷ (group ++ rest)))
unfolding then_hex
then_hex-some n o rest e = elim (Option-cases (match_dash o)) [
  | inl h ↦ absurd (let k : none ≡ some rest = ap (then_hex n) (sym h) ∙ e in none-some rest k)
  | inr (s, h) ↦
      let (group, is_group, joined) = match_hex-some n s rest (ap (then_hex n) (sym h) ∙ e) in
      (group, is_group, match_dash-some o s h ∙ ap (λ t. some (b'-' ∷ t)) joined)
]

then_hex-group :
    (n : ℕ) (group rest : Bytes)
    → IsGroup n group
    → then_hex n (match_dash (some (b'-' ∷ (group ++ rest)))) ≡ some rest
unfolding match_dash then_hex
then_hex-group n group rest h = match_hex-group n group rest h

at_end-true : (o : Option Bytes) → at_end o ≡ true → o ≡ some []
at_end-true none e = ground arith
at_end-true (some []) e = refl
at_end-true (some (c ∷ s)) e = ground arith

is_valid_uuid-groups : (id : Bytes) → is_valid_uuid id ≡ true → IsUuid id
unfolding is_valid_uuid
is_valid_uuid-groups id e =
    let o1 = match_hex 8 id in
    let o2 = then_hex 4 (match_dash o1) in
    let o3 = then_hex 4 (match_dash o2) in
    let o4 = then_hex 4 (match_dash o3) in
    let (g5, h5, e5) = then_hex-some 12 o4 [] (at_end-true _ e) in
    let (g4, h4, e4) = then_hex-some 4 o3 (b'-' ∷ (g5 ++ [])) e5 in
    let (g3, h3, e3) = then_hex-some 4 o2 _ e4 in
    let (g2, h2, e2) = then_hex-some 4 o1 _ e3 in
    let (g1, h1, e1) = match_hex-some 8 id _ e2 in
    record {
      first = g1;
      second = g2;
      third = g3;
      fourth = g4;
      fifth = g5;
      first_is = h1;
      second_is = h2;
      third_is = h3;
      fourth_is = h4;
      fifth_is = h5;
      joined = e1;
    }

groups-is_valid_uuid : (id : Bytes) → IsUuid id → is_valid_uuid id ≡ true
unfolding is_valid_uuid
groups-is_valid_uuid id h =
    let t5 = h.fifth ++ [] in
    let t4 = h.fourth ++ b'-' ∷ t5 in
    let t3 = h.third ++ b'-' ∷ t4 in
    let t2 = h.second ++ b'-' ∷ t3 in
    let one = ap (match_hex 8) h.joined ∙ match_hex-group 8 h.first (b'-' ∷ t2) h.first_is in
    let two =
      ap (λ o. then_hex 4 (match_dash o)) one ∙ then_hex-group 4 h.second (b'-' ∷ t3) h.second_is in
    let three =
      ap (λ o. then_hex 4 (match_dash o)) two ∙ then_hex-group 4 h.third (b'-' ∷ t4) h.third_is in
    let four =
      ap (λ o. then_hex 4 (match_dash o)) three
      ∙ then_hex-group 4 h.fourth (b'-' ∷ t5) h.fourth_is in
    ap (λ o. at_end (then_hex 12 (match_dash o))) four
    ∙ ap at_end (then_hex-group 12 h.fifth [] h.fifth_is)

-- Exactly those texts are accepted that are five groups of 8, 4, 4, 4 and 12 hexadecimal digits with
-- a dash between them and nothing else.
pub is_valid_uuid_iff : (id : Bytes) → (is_valid_uuid id ≡ true) ↔ IsUuid id
is_valid_uuid_iff id = (is_valid_uuid-groups id, groups-is_valid_uuid id)
