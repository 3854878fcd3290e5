-- ===== src/IpAddress/Order.antt =====
-- The comparisons of ip_address.cpp against the numbers that the addresses spell.
use Prim.Native.Nat.{compare, Ordering}
use social_network.Prelude.{
  ℕ, zero, suc, ◌+◌, ◌*◌, ◌≤◌, ◌<◌, ◌≡◌, refl, sym, ap, ◌∙◌, not, [], ◌∷◌, Bytes, ltb, leb, ◌==◌,
  length, take, IsBytes, arith, inl, inr, ◌⊎◌,
}
use social_network.IpAddress.{
  Family, v4, v6, IpAddress, address_length, address_data, memcmp, is_eq, is_gt, equals, differs,
  greater, greater_equal, less, less_equal,
}

-- The number that bytes spell in network order, behind what was read before.
unfoldable pub number_from : ℕ → Bytes → ℕ
number_from n [] = n
number_from n (c ∷ s) = number_from (n * 256 + c) s

-- An object of the class: 16 bytes.
pub record IsAddress (ip : IpAddress) : Type 0 where
  pub size : length ip.data_ ≡ 16
  pub bytes : IsBytes ip.data_

-- The number of an address, and its place among all addresses: those of IPv4 before those of IPv6.
unfoldable pub number : IpAddress → ℕ
unfolding number_from address_data
number ip = number_from 0 (address_data ip)

abbrev pub first_rank : Family → ℕ
first_rank v4 = 0
first_rank v6 = 4294967296

unfoldable pub rank : IpAddress → ℕ
unfolding number
rank ip = first_rank ip.family + number ip

compare_lt : (m n : ℕ) → m < n → compare m n ≡ Ordering.lt
compare_lt m n h = ground arith

compare_gt : (m n : ℕ) → n < m → compare m n ≡ Ordering.gt
compare_gt m n h = ground arith

compare_eq : (m n : ℕ) → m ≡ n → compare m n ≡ Ordering.eq
compare_eq m n h = ground arith

order : (m n : ℕ) → (m < n) ⊎ ((m ≡ n) ⊎ (n < m))
order m n = ground arith

number_from_lt :
    (m n : ℕ) (s t : Bytes)
    → length s ≡ length t
    → IsBytes s
    → IsBytes t
    → m < n
    → number_from m s < number_from n t
unfolding number_from
number_from_lt m n [] [] e hs ht l = l
number_from_lt m n [] (d ∷ t) e hs ht l = ground arith
number_from_lt m n (c ∷ s) [] e hs ht l = ground arith
number_from_lt m n (c ∷ s) (d ∷ t) e (hc, hs) (hd, ht) l =
    number_from_lt (m * 256 + c) (n * 256 + d) s t (omega arith) hs ht (omega arith)

memcmp-number_from :
    (n : ℕ) (s t : Bytes)
    → length s ≡ length t
    → IsBytes s
    → IsBytes t
    → memcmp s t ≡ compare (number_from n s) (number_from n t)
unfolding number_from memcmp
memcmp-number_from n [] [] e hs ht = ground arith
memcmp-number_from n [] (d ∷ t) e hs ht = ground arith
memcmp-number_from n (c ∷ s) [] e hs ht = ground arith
memcmp-number_from n (c ∷ s) (d ∷ t) e (hc, hs) (hd, ht) = elim (order c d) [
  | inl l ↦
      rw (memcmp, compare_lt c d l)
        (sym (
          compare_lt _ _
            (number_from_lt (n * 256 + c) (n * 256 + d) s t (omega arith) hs ht (omega arith))))
  | inr (inl q) ↦
      rw (memcmp, compare_eq c d q, q) (memcmp-number_from (n * 256 + d) s t (omega arith) hs ht)
  | inr (inr l) ↦
      rw (memcmp, compare_gt c d l)
        (sym (
          compare_gt _ _
            (number_from_lt (n * 256 + d) (n * 256 + c) t s (omega arith) ht hs (omega arith))))
]

number_from_bounded4 : (s : Bytes) → length s ≡ 4 → IsBytes s → number_from 0 s < 4294967296
unfolding number_from
number_from_bounded4 [] e h = ground arith
number_from_bounded4 (a ∷ []) e h = ground arith
number_from_bounded4 (a ∷ b ∷ []) e h = ground arith
number_from_bounded4 (a ∷ b ∷ c ∷ []) e h = ground arith
number_from_bounded4 (a ∷ b ∷ c ∷ d ∷ []) e (ha, (hb, (hc, (hd, _)))) = omega arith
number_from_bounded4 (a ∷ b ∷ c ∷ d ∷ f ∷ s) e h = ground arith

pub length-take : (n : ℕ) (s : Bytes) → n ≤ length s → length (take n s) ≡ n
length-take zero s h = refl
length-take (suc n) [] h = ground arith
length-take (suc n) (c ∷ s) h = ap suc (length-take n s (omega arith))

take-IsBytes : (n : ℕ) (s : Bytes) → IsBytes s → IsBytes (take n s)
take-IsBytes zero s h = tt
take-IsBytes (suc n) [] h = tt
take-IsBytes (suc n) (c ∷ s) h = (h.0, take-IsBytes n s h.1)

take-IsAddress :
    (n : ℕ) (ip : IpAddress)
    → n ≤ 16
    → IsAddress ip
    → (length (take n ip.data_) ≡ n) × IsBytes (take n ip.data_)
take-IsAddress n ip l h =
    let size = h.size in (length-take n ip.data_ (omega arith), take-IsBytes n ip.data_ h.bytes)

memcmp-numbers :
    (n : ℕ) (a b : IpAddress)
    → n ≤ 16
    → IsAddress a
    → IsAddress b
    → memcmp (take n a.data_) (take n b.data_)
      ≡ compare (number_from 0 (take n a.data_)) (number_from 0 (take n b.data_))
memcmp-numbers n a b l ha hb =
    let (la, sa) = take-IsAddress n a l ha in
    let (lb, sb) = take-IsAddress n b l hb in memcmp-number_from 0 _ _ (la ∙ sym lb) sa sb

is_eq-compare : (m n : ℕ) → is_eq (compare m n) ≡ (m == n)
is_eq-compare m n = ground arith

is_gt-compare : (m n : ℕ) → is_gt (compare m n) ≡ ltb n m
is_gt-compare m n = ground arith

-- Both operands have the same family: the order of the bytes that count.
same_rank :
    (n k : ℕ) (a b : IpAddress)
    → n ≤ 16
    → IsAddress a
    → IsAddress b
    → (is_eq (memcmp (take n a.data_) (take n b.data_))
        ≡ (k + number_from 0 (take n a.data_) == k + number_from 0 (take n b.data_)))
      × (is_gt (memcmp (take n a.data_) (take n b.data_))
          ≡ ltb (k + number_from 0 (take n b.data_)) (k + number_from 0 (take n a.data_)))
same_rank n k a b l ha hb =
    let x = number_from 0 (take n a.data_) in
    let y = number_from 0 (take n b.data_) in
    let shift_eq : (x == y) ≡ (k + x == k + y) = ground arith in
    let shift_gt : ltb y x ≡ ltb (k + y) (k + x) = ground arith in
    rw (memcmp-numbers n a b l ha hb) (is_eq-compare x y ∙ shift_eq, is_gt-compare x y ∙ shift_gt)

v4_below :
    (a b : IpAddress)
    → IsAddress a
    → number_from 0 (take 4 a.data_) < 4294967296 + number_from 0 (take 16 b.data_)
v4_below a b h =
    let (l, s) = take-IsAddress 4 a (omega arith) h in
    let below = number_from_bounded4 _ l s in omega arith

abbrev at : Family → Bytes → IpAddress
at family data_ = record { family = family; data_ = data_ }

equals-rank-at :
    (f g : Family) (s t : Bytes)
    → IsAddress (at f s)
    → IsAddress (at g t)
    → equals (at f s) (at g t) ≡ (rank (at f s) == rank (at g t))
unfolding equals rank number address_data address_length
equals-rank-at v4 v4 s t ha hb = (same_rank 4 0 _ _ (omega arith) ha hb).0
equals-rank-at v6 v6 s t ha hb = (same_rank 16 4294967296 _ _ (omega arith) ha hb).0
equals-rank-at v4 v6 s t ha hb = let below = v4_below _ (at v6 t) ha in ground arith
equals-rank-at v6 v4 s t ha hb = let below = v4_below _ (at v6 s) hb in ground arith

greater-rank-at :
    (f g : Family) (s t : Bytes)
    → IsAddress (at f s)
    → IsAddress (at g t)
    → greater (at f s) (at g t) ≡ ltb (rank (at g t)) (rank (at f s))
unfolding greater rank number address_data address_length
greater-rank-at v4 v4 s t ha hb = (same_rank 4 0 _ _ (omega arith) ha hb).1
greater-rank-at v6 v6 s t ha hb = (same_rank 16 4294967296 _ _ (omega arith) ha hb).1
greater-rank-at v4 v6 s t ha hb = let below = v4_below _ (at v6 t) ha in ground arith
greater-rank-at v6 v4 s t ha hb = let below = v4_below _ (at v6 s) hb in ground arith

-- The six comparisons are those of one total order: IPv4 addresses before IPv6 addresses, and
-- addresses of one family by the numbers that they spell in network order. Bytes of an IPv4 address
-- behind the fourth make no difference.
pub comparisons-rank :
    (a b : IpAddress)
    → IsAddress a
    → IsAddress b
    → (equals a b ≡ (rank a == rank b))
      × (differs a b ≡ not (rank a == rank b))
      × (greater a b ≡ ltb (rank b) (rank a))
      × (greater_equal a b ≡ leb (rank b) (rank a))
      × (less a b ≡ ltb (rank a) (rank b))
      × (less_equal a b ≡ leb (rank a) (rank b))
unfolding differs greater_equal less less_equal
comparisons-rank a b ha hb =
    let x = rank a in
    let y = rank b in
    rw
      (
        equals-rank-at a.family b.family a.data_ b.data_ ha hb,
        greater-rank-at a.family b.family a.data_ b.data_ ha hb,
      )
      (refl, refl, refl, ground arith, ground arith, ground arith)
