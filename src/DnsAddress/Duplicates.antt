-- ===== src/DnsAddress/Duplicates.antt =====
-- `remove_duplicates` of dns_address.cpp, and the two orders that it is used with.
use social_network.Prelude.{
  Bool, true, false, not, ◌&&◌, ◌||◌, ◌≡◌, refl, sym, take, ==_self, List, [], ◌∷◌, Bytes, All,
  All-mono, Bool-cases, inl, inr, arith,
}
use mathlib.Core.Path.{subst}
use social_network.IpAddress.{af, is_eq, IpAddress, equals, less, memcmp, address_length}
use social_network.DnsAddress.{string_less, is_known, keep_unknown, remove_duplicates}

-- What one keeps of a list without changing the order.
pub data Sublist {ℓ} {A : Type ℓ} : List A → List A → Type ℓ where
  nothing : Sublist [] []
  kept : (x : A) {xs ys : List A} → Sublist xs ys → Sublist (x ∷ xs) (x ∷ ys)
  left_out : (x : A) {xs ys : List A} → Sublist xs ys → Sublist xs (x ∷ ys)

module _ {ℓ} {A : Type ℓ} (less : A → A → Bool) where
  abbrev pub same : A → A → Bool
  same a b = not (less a b) && not (less b a)

  abbrev pub Distinct : List A → Type ℓ
  Distinct [] = Unit {ℓ}
  Distinct (x ∷ xs) = All (λ u. same u x ≡ false) xs × Distinct xs

  after_known :
      (seen : List A) (v : A) (list : List A)
      → is_known less v seen ≡ true
      → keep_unknown less seen (v ∷ list) ≡ keep_unknown less seen list
  unfolding keep_unknown
  after_known seen v list e = rw e refl

  after_unknown :
      (seen : List A) (v : A) (list : List A)
      → is_known less v seen ≡ false
      → keep_unknown less seen (v ∷ list) ≡ v ∷ keep_unknown less (v ∷ seen) list
  unfolding keep_unknown
  after_unknown seen v list e = rw e refl

  keep_unknown-is_known :
      (seen list : List A) → All (λ u. is_known less u seen ≡ false) (keep_unknown less seen list)
  unfolding keep_unknown is_known
  keep_unknown-is_known seen [] = tt
  keep_unknown-is_known seen (v ∷ list) = elim (Bool-cases (is_known less v seen)) [
    | inl e ↦ rw e (keep_unknown-is_known seen list)
    | inr e ↦ rw e (
      e,
      All-mono (keep_unknown less (v ∷ seen) list) (λ u h. ground arith)
          (keep_unknown-is_known (v ∷ seen) list),
    )
  ]

  keep_unknown-Distinct : (seen list : List A) → Distinct (keep_unknown less seen list)
  unfolding keep_unknown is_known
  keep_unknown-Distinct seen [] = tt
  keep_unknown-Distinct seen (v ∷ list) = elim (Bool-cases (is_known less v seen)) [
    | inl e ↦ rw e (keep_unknown-Distinct seen list)
    | inr e ↦ rw e (
      All-mono (keep_unknown less (v ∷ seen) list) (λ u h. ground arith)
          (keep_unknown-is_known (v ∷ seen) list),
      keep_unknown-Distinct (v ∷ seen) list,
    )
  ]

  keep_unknown-Sublist : (seen list : List A) → Sublist (keep_unknown less seen list) list
  unfolding keep_unknown
  keep_unknown-Sublist seen [] = nothing
  keep_unknown-Sublist seen (v ∷ list) = elim (Bool-cases (is_known less v seen)) [
    | inl e ↦ rw e (left_out v (keep_unknown-Sublist seen list))
    | inr e ↦ rw e (kept v (keep_unknown-Sublist (v ∷ seen) list))
  ]

  keep_unknown-All :
      ((a : A) → less a a ≡ false)
      → (seen list : List A)
      → All
          (λ u. (is_known less u seen || is_known less u (keep_unknown less seen list)) ≡ true)
          list
  unfolding keep_unknown is_known
  keep_unknown-All irrefl seen [] = tt
  keep_unknown-All irrefl seen (v ∷ list) = elim (Bool-cases (is_known less v seen)) [
    | inl e ↦
        subst (λ k. All (λ u. (is_known less u seen || is_known less u k) ≡ true) (v ∷ list))
          (sym (after_known seen v list e)) (ground arith, keep_unknown-All irrefl seen list)
    | inr e ↦
        subst (λ k. All (λ u. (is_known less u seen || is_known less u k) ≡ true) (v ∷ list))
          (sym (after_unknown seen v list e))
          (
            (let self = irrefl v in ground arith),
            All-mono list (λ u h. ground arith) (keep_unknown-All irrefl (v ∷ seen) list),
          )
  ]

  -- What `remove_duplicates` leaves of a list, under a comparison that puts nothing before itself: no
  -- two elements are equivalent, every element of the list has an equivalent one among them, and
  -- their order is that of the list.
  pub remove_duplicates-Distinct :
      ((a : A) → less a a ≡ false)
      → (list : List A)
      → Distinct (remove_duplicates less list)
        × All (λ v. is_known less v (remove_duplicates less list) ≡ true) list
        × Sublist (remove_duplicates less list) list
  unfolding remove_duplicates is_known
  remove_duplicates-Distinct irrefl list =
      (keep_unknown-Distinct [] list, keep_unknown-All irrefl [] list, keep_unknown-Sublist [] list)

pub string_less_self : (s : Bytes) → string_less s s ≡ false
unfolding string_less
string_less_self [] = refl
string_less_self (c ∷ s) = rw (==_self c) (string_less_self s)

memcmp_self : (s : Bytes) → is_eq (memcmp s s) ≡ true
unfolding memcmp
memcmp_self [] = refl
memcmp_self (c ∷ s) = let rest = memcmp_self s in ground arith

pub less_self : (ip : IpAddress) → less ip ip ≡ false
unfolding less equals
less_self ip = rw (==_self (af ip.family), memcmp_self (take (address_length ip) ip.data_)) refl
