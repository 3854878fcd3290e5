-- ===== src/Prelude/Lists.antt =====
-- Lists measured and indexed by native numbers, under the library's names, and prefixes cut by a
-- Boolean test, which the reading loops of the program are made of.
use Prim.Native.Nat.{ℕ, zero, suc, ◌+◌}
use mathlib.Core.Path.{◌≡◌, refl, ap}
use mathlib.Core.Bool.{Bool, true, false}
use mathlib.Core.List.{List, [], ◌∷◌, ◌++◌}
use mathlib.Core.Option.{Option, none, some}
use native.Mathlib.Omega.{arith}
use social_network.Prelude.Tests.{if◌then◌else◌}

module _ {ℓ} {A : Type ℓ} where
  abbrev pub length : List A → ℕ
  length [] = 0
  length (x ∷ xs) = suc (length xs)

  abbrev pub get_elem? : List A → ℕ → Option A
  get_elem? [] i = none
  get_elem? (x ∷ xs) zero = some x
  get_elem? (x ∷ xs) (suc i) = get_elem? xs i

  abbrev pub set : List A → ℕ → A → List A
  set [] i v = []
  set (x ∷ xs) zero v = v ∷ xs
  set (x ∷ xs) (suc i) v = x ∷ set xs i v

  abbrev pub take : ℕ → List A → List A
  take zero xs = []
  take (suc n) [] = []
  take (suc n) (x ∷ xs) = x ∷ take n xs

  abbrev pub drop : ℕ → List A → List A
  drop zero xs = xs
  drop (suc n) [] = []
  drop (suc n) (x ∷ xs) = drop n xs

  abbrev pub get_or : List A → ℕ → A → A
  get_or [] i d = d
  get_or (x ∷ xs) zero d = x
  get_or (x ∷ xs) (suc i) d = get_or xs i d

  abbrev pub is_empty : List A → Bool
  is_empty [] = true
  is_empty (x ∷ xs) = false

  -- `while (it != end && p(*it)) out += *it++;`: what is read, and what is left.
  unfoldable pub take_while : (A → Bool) → List A → List A
  take_while p [] = []
  take_while p (x ∷ xs) = if p x then x ∷ take_while p xs else []

  unfoldable pub drop_while : (A → Bool) → List A → List A
  drop_while p [] = []
  drop_while p (x ∷ xs) = if p x then drop_while p xs else x ∷ xs

module _ {ℓ κ} {A : Type ℓ} (P : A → Type κ) where
  abbrev pub All : List A → Type κ
  All [] = Unit
  All (x ∷ xs) = P x × All xs

  pub All-append : (xs ys : List A) → All xs → All ys → All (xs ++ ys)
  All-append [] ys hx hy = hy
  All-append (x ∷ xs) ys hx hy = (hx.0, All-append xs ys hx.1 hy)

  pub All-append_split : (xs ys : List A) → All (xs ++ ys) → All xs × All ys
  All-append_split [] ys h = (tt, h)
  All-append_split (x ∷ xs) ys h = let r = All-append_split xs ys h.1 in ((h.0, r.0), r.1)

pub All-mono {ℓ κ η} :
    {A : Type ℓ} {P : A → Type κ} {Q : A → Type η} (xs : List A)
    → ((x : A) → P x → Q x)
    → All P xs
    → All Q xs
All-mono [] f h = tt
All-mono (x ∷ xs) f h = (f x h.0, All-mono xs f h.1)

module _ {ℓ} {A : Type ℓ} where
  pub length-append : (xs ys : List A) → length (xs ++ ys) ≡ length xs + length ys
  length-append [] ys = omega arith
  length-append (x ∷ xs) ys = omega (arith, length-append xs ys)

  pub length-set : (xs : List A) (i : ℕ) (v : A) → length (set xs i v) ≡ length xs
  length-set [] i v = refl
  length-set (x ∷ xs) zero v = refl
  length-set (x ∷ xs) (suc i) v = ap suc (length-set xs i v)

  -- A run of bytes that pass the test, then the end or a byte that fails it.
  abbrev pub Stops : (A → Bool) → List A → Type 0
  Stops p [] = Unit {0}
  Stops p (x ∷ xs) = p x ≡ false

  pub take_while-append :
      (p : A → Bool) (xs rest : List A)
      → All (λ c. p c ≡ true) xs
      → Stops p rest
      → take_while p (xs ++ rest) ≡ xs
  unfolding take_while
  take_while-append p [] [] h s = refl
  take_while-append p [] (y ∷ ys) h s = ground arith
  take_while-append p (x ∷ xs) rest h s = ground (arith, take_while-append p xs rest h.1 s)

  pub drop_while-append :
      (p : A → Bool) (xs rest : List A)
      → All (λ c. p c ≡ true) xs
      → Stops p rest
      → drop_while p (xs ++ rest) ≡ rest
  unfolding drop_while
  drop_while-append p [] [] h s = refl
  drop_while-append p [] (y ∷ ys) h s = ground arith
  drop_while-append p (x ∷ xs) rest h s = ground (arith, drop_while-append p xs rest h.1 s)

  pub take_while-All : (p : A → Bool) (xs : List A) → All (λ c. p c ≡ true) (take_while p xs)
  unfolding take_while
  take_while-All p [] = tt
  take_while-All p (x ∷ xs) = ground (arith, take_while-All p xs)

  pub take_while-append-drop_while :
      (p : A → Bool) (xs : List A) → take_while p xs ++ drop_while p xs ≡ xs
  unfolding take_while drop_while
  take_while-append-drop_while p [] = refl
  take_while-append-drop_while p (x ∷ xs) = ground (arith, take_while-append-drop_while p xs)

  pub drop_while-Stops : (p : A → Bool) (xs : List A) → Stops p (drop_while p xs)
  unfolding drop_while
  drop_while-Stops p [] = tt
  drop_while-Stops p (x ∷ xs) = ground (arith, drop_while-Stops p xs)

  -- The loop goes on behind a run that passes the test.
  pub drop_while-append-All :
      (p : A → Bool) (xs rest : List A)
      → All (λ c. p c ≡ true) xs
      → drop_while p (xs ++ rest) ≡ drop_while p rest
  unfolding drop_while
  drop_while-append-All p [] rest h = refl
  drop_while-append-All p (x ∷ xs) rest h = ground (arith, drop_while-append-All p xs rest h.1)
