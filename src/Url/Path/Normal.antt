-- ===== src/Url/Path/Normal.antt =====
-- `normalize` of url.cpp against a walk through the tree of directories.
use social_network.Prelude.{
  ℕ, zero, suc, ◌≡◌, refl, sym, ap, ◌∙◌, ◌⊎◌, inl, inr, Bool, true, false, not, List, [], ◌∷◌, ◌++◌,
  append_assoc, append-nil, if◌then◌else◌, Bytes, equal, equal_iff, is_empty, All, arith,
  Bool-cases,
}
use social_network.Url.Model.{Url, is_relative}
use social_network.Url.Path.{
  dot, dot_dot, get_path_segments, back, pop_back, normalize_segment, normalize_loop, build_path,
  normalize, starts_slash, ends_slash,
}

-- A place in the tree: how far above the start, and the names from there, the last one first.
pub record Place : Type 0 where
  pub ups : ℕ
  pub down : List Bytes

-- The move that one segment stands for; at the root `..` stays where it is.
abbrev pub move : Bool → Place → Bytes → Place
move rooted p s =
    if equal s dot_dot
    then elim p.down [
      | [] ↦ if rooted then p else record p { ups = suc p.ups }
      | name ∷ down ↦ record p { down = down }
    ]
    else if equal s dot
    then p
    else record p { down = s ∷ p.down }

unfoldable pub walk : Bool → Place → List Bytes → Place
walk rooted p [] = p
walk rooted p (s ∷ segments) = walk rooted (move rooted p s) segments

abbrev pub climb : ℕ → List Bytes
climb zero = []
climb (suc n) = dot_dot ∷ climb n

abbrev pub downwards : List Bytes → List Bytes
downwards [] = []
downwards (name ∷ down) = downwards down ++ name ∷ []

-- The segments that lead to a place.
abbrev pub segments_to : Place → List Bytes
segments_to p = climb p.ups ++ downwards p.down

abbrev pub AreNames : List Bytes → Type 0
AreNames = All (λ s. (equal s dot ≡ false) × (equal s dot_dot ≡ false))

-- A place that can be reached: the names are names, and nothing is above the root.
abbrev pub IsPlace : Bool → Place → Type 0
IsPlace rooted p = AreNames p.down × ((rooted ≡ false) ⊎ (p.ups ≡ 0))

back-append : (xs : List Bytes) (x : Bytes) → back (xs ++ x ∷ []) ≡ x
unfolding back
back-append [] x = refl
back-append (y ∷ []) x = refl
back-append (y ∷ z ∷ xs) x = back-append (z ∷ xs) x

pop_back-append : (xs : List Bytes) (x : Bytes) → pop_back (xs ++ x ∷ []) ≡ xs
unfolding pop_back
pop_back-append [] x = refl
pop_back-append (y ∷ []) x = refl
pop_back-append (y ∷ z ∷ xs) x = ap (λ t. y ∷ t) (pop_back-append (z ∷ xs) x)

is_empty-append : (xs : List Bytes) (x : Bytes) → is_empty (xs ++ x ∷ []) ≡ false
is_empty-append [] x = refl
is_empty-append (y ∷ xs) x = refl

climb-append : (n : ℕ) → climb n ++ dot_dot ∷ [] ≡ climb (suc n)
climb-append zero = refl
climb-append (suc n) = ap (λ t. dot_dot ∷ t) (climb-append n)

back-climb : (n : ℕ) → back (dot_dot ∷ climb n) ≡ dot_dot
unfolding back
back-climb zero = refl
back-climb (suc n) = back-climb n

-- One round of `normalize` on `..`.
up_a_name :
    (rooted : Bool) (xs : List Bytes) (x : Bytes)
    → equal x dot_dot ≡ false
    → normalize_segment rooted (xs ++ x ∷ []) dot_dot ≡ xs
unfolding normalize_segment
up_a_name rooted xs x e =
    rw (normalize_segment, is_empty-append xs x, back-append xs x, e, pop_back-append xs x) refl

up_and_out : (n : ℕ) → normalize_segment false (climb n) dot_dot ≡ climb (suc n)
unfolding normalize_segment
up_and_out zero = refl
up_and_out (suc n) = rw (back-climb n) (ap (λ t. dot_dot ∷ t) (climb-append n))

abbrev pub place : ℕ → List Bytes → Place
place n down = record { ups = n; down = down }

move_up :
    (rooted : Bool) (n : ℕ) (down : List Bytes)
    → IsPlace rooted (place n down)
    → (normalize_segment rooted (segments_to (place n down)) dot_dot
        ≡ segments_to (move rooted (place n down) dot_dot))
      × IsPlace rooted (move rooted (place n down) dot_dot)
unfolding normalize_segment
move_up rooted n (name ∷ down) ((h, hs), r) =
    let split : climb n ++ (downwards down ++ name ∷ []) ≡ climb n ++ downwards down ++ name ∷ [] =
      sym (append_assoc (climb n) (downwards down) (name ∷ [])) in
    (
      ap (λ xs. normalize_segment rooted xs dot_dot) split
          ∙ up_a_name rooted (climb n ++ downwards down) name h.1,
      (hs, r),
    )
move_up false n [] (h, r) = (
  ap (λ xs. normalize_segment false xs dot_dot) (append-nil (climb n))
      ∙ up_and_out n
      ∙ sym (append-nil (climb (suc n))),
  (tt, inl refl),
)
move_up true n [] (h, inl r) = ground arith
move_up true zero [] (h, inr r) = (refl, (tt, inr refl))
move_up true (suc n) [] (h, inr r) = ground arith

normalize_segment-move :
    (rooted : Bool) (p : Place) (s : Bytes)
    → IsPlace rooted p
    → (normalize_segment rooted (segments_to p) s ≡ segments_to (move rooted p s))
      × IsPlace rooted (move rooted p s)
unfolding normalize_segment
normalize_segment-move rooted p s h = elim (Bool-cases (equal s dot_dot)) [
  | inl e ↦ let k : s ≡ dot_dot = (equal_iff s dot_dot).0 e in rw k (move_up rooted p.ups p.down h)
  | inr e ↦ elim (Bool-cases (equal s dot)) [
    | inl e' ↦ rw (normalize_segment, e, e') (refl, h)
    | inr e' ↦
        rw (normalize_segment, e, e')
          (append_assoc (climb p.ups) (downwards p.down) (s ∷ []), (((e', e), h.0), h.1))
  ]
]

normalize_loop-walk :
    (rooted : Bool) (p : Place) (segments : List Bytes)
    → IsPlace rooted p
    → (normalize_loop rooted (segments_to p) segments ≡ segments_to (walk rooted p segments))
      × IsPlace rooted (walk rooted p segments)
unfolding normalize_loop walk
normalize_loop-walk rooted p [] h = (refl, h)
normalize_loop-walk rooted p (s ∷ segments) h =
    let (e, h') = normalize_segment-move rooted p s h in
    let (rest, last) = normalize_loop-walk rooted (move rooted p s) segments h' in
    (ap (λ xs. normalize_loop rooted xs segments) e ∙ rest, last)

abbrev pub start : Place
start = place 0 []

-- Where the path of a URL leads; without a scheme it may lead above the start.
abbrev pub destination : Url → Place
destination u = walk (not (is_relative u)) start (get_path_segments u [])

start-IsPlace : (rooted : Bool) → IsPlace rooted start
start-IsPlace rooted = (tt, inr refl)

-- `normalize` builds the segments that lead to the destination.
pub normalize-build_path :
    (u : Url)
    → is_empty u.path ≡ false
    → (normalize u
        ≡ build_path u (segments_to (destination u)) (starts_slash u.path) (ends_slash u.path))
      × IsPlace (not (is_relative u)) (destination u)
unfolding normalize
normalize-build_path u h =
    let rooted = not (is_relative u) in
    let (e, p) = normalize_loop-walk rooted start (get_path_segments u []) (start-IsPlace rooted) in
    (rw (normalize, h) (ap (λ xs. build_path u xs (starts_slash u.path) (ends_slash u.path)) e), p)
