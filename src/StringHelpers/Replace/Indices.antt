-- ===== src/StringHelpers/Replace/Indices.antt =====
-- Cutting a text at indices, for the loops of string.cpp.
use Prim.Native.Nat.{min}
use social_network.Prelude.{
  ℕ, zero, suc, ◌+◌, ◌-◌, ◌≤◌, ◌≡◌, refl, ap, [], ◌∷◌, ◌++◌, arith, length, set, take, drop, Bytes,
}

pub drop-drop : (n m : ℕ) (s : Bytes) → drop n (drop m s) ≡ drop (m + n) s
drop-drop n zero s = let e : zero + n ≡ n = omega arith in rw e
drop-drop zero (suc m) [] = let e : suc m + zero ≡ suc m = omega arith in rw e
drop-drop (suc n) (suc m) [] = let e : suc m + suc n ≡ suc (m + suc n) = omega arith in rw e
drop-drop n (suc m) (c ∷ s) =
    let e : suc m + n ≡ suc (m + n) = omega arith in rw e (drop-drop n m s)

pub drop_zero : (s : Bytes) → drop 0 s ≡ s
drop_zero s = refl

pub take-drop_append : (n : ℕ) (s : Bytes) → take n s ++ drop n s ≡ s
take-drop_append zero s = refl
take-drop_append (suc n) [] = refl
take-drop_append (suc n) (c ∷ s) = ap (◌∷◌ c) (take-drop_append n s)

pub length-drop : (n : ℕ) (s : Bytes) → length (drop n s) ≡ length s - n
length-drop zero s = omega arith
length-drop (suc n) [] = omega arith
length-drop (suc n) (c ∷ s) = omega (arith, length-drop n s)

pub drop-set : (n m v : ℕ) (s : Bytes) → drop n (set s (n + m) v) ≡ set (drop n s) m v
drop-set zero m v s = let e : zero + m ≡ m = omega arith in rw e
drop-set (suc n) m v [] = refl
drop-set (suc n) m v (c ∷ s) =
    let e : suc n + m ≡ suc (n + m) = omega arith in rw e (drop-set n m v s)

pub take-set : (n m v : ℕ) (s : Bytes) → take n (set s (n + m) v) ≡ take n s
take-set zero m v s = refl
take-set (suc n) m v [] = refl
take-set (suc n) m v (c ∷ s) =
    let e : suc n + m ≡ suc (n + m) = omega arith in rw e (ap (◌∷◌ c) (take-set n m v s))

pub take-append_take :
    (n m : ℕ) (s r : Bytes) → n ≤ length s → take n (take (n + m) s ++ r) ≡ take n s
take-append_take zero m s r h = refl
take-append_take (suc n) m [] r h = elim h [ ]
take-append_take (suc n) m (c ∷ s) r h =
    let e : suc n + m ≡ suc (n + m) = omega arith in
    rw e (ap (◌∷◌ c) (take-append_take n m s r (omega arith)))

pub drop-append_take :
    (n m : ℕ) (s r : Bytes) → n ≤ length s → drop n (take (n + m) s ++ r) ≡ take m (drop n s) ++ r
drop-append_take zero m s r h = let e : zero + m ≡ m = omega arith in rw e
drop-append_take (suc n) m [] r h = elim h [ ]
drop-append_take (suc n) m (c ∷ s) r h =
    let e : suc n + m ≡ suc (n + m) = omega arith in rw e (drop-append_take n m s r (omega arith))

pub drop-suc : (n m c : ℕ) (s : Bytes) → drop (suc n + m) (c ∷ s) ≡ drop (n + m) s
drop-suc n m c s = let e : suc n + m ≡ suc (n + m) = omega arith in rw e

pub length-take : (n : ℕ) (s : Bytes) → length (take n s) ≡ min n (length s)
length-take zero s = omega arith
length-take (suc n) [] = omega arith
length-take (suc n) (c ∷ s) = omega (arith, length-take n s)
