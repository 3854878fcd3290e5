-- ===== src/FilePath/Bits.antt =====
-- The bits of a file's mode, by their position in the number: `owner_read` is 8, `others_exec` 0.
use social_network.Prelude.{
  ℕ, zero, suc, ◌+◌, ◌*◌, ◌/◌, ◌%◌, ◌≡◌, Bool, ◌==◌, ◌||◌, ◌&&◌, not, arith,
}

unfoldable pub bit : ℕ → ℕ → Bool
bit zero n = n % 2 == 1
bit (suc k) n = bit k (n / 2)

-- `n | bit`.
unfoldable pub set_bit : ℕ → ℕ → ℕ
set_bit zero n = n / 2 * 2 + 1
set_bit (suc k) n = n % 2 + set_bit k (n / 2) * 2

-- `n & ~bit`.
unfoldable pub clear_bit : ℕ → ℕ → ℕ
clear_bit zero n = n / 2 * 2
clear_bit (suc k) n = n % 2 + clear_bit k (n / 2) * 2

low_bit : (n m : ℕ) → (n % 2 + m * 2) % 2 ≡ n % 2
low_bit n m = omega arith

high_bits : (n m : ℕ) → (n % 2 + m * 2) / 2 ≡ m
high_bits n m = omega arith

above_one : (n : ℕ) → (n / 2 * 2 + 1) / 2 ≡ n / 2
above_one n = omega arith

above_zero : (n : ℕ) → n / 2 * 2 / 2 ≡ n / 2
above_zero n = omega arith

pub bit-set_bit : (j k n : ℕ) → bit j (set_bit k n) ≡ (j == k || bit j n)
unfolding bit set_bit
bit-set_bit zero zero n = ground arith
bit-set_bit zero (suc k) n = let low = low_bit n (set_bit k (n / 2)) in ground arith
bit-set_bit (suc j) zero n = rw (above_one n) (ground arith)
bit-set_bit (suc j) (suc k) n =
    rw (high_bits n (set_bit k (n / 2)), bit-set_bit j k (n / 2)) (ground arith)

pub bit-clear_bit : (j k n : ℕ) → bit j (clear_bit k n) ≡ (not (j == k) && bit j n)
unfolding bit clear_bit
bit-clear_bit zero zero n = ground arith
bit-clear_bit zero (suc k) n = let low = low_bit n (clear_bit k (n / 2)) in ground arith
bit-clear_bit (suc j) zero n = rw (above_zero n) (ground arith)
bit-clear_bit (suc j) (suc k) n =
    rw (high_bits n (clear_bit k (n / 2)), bit-clear_bit j k (n / 2)) (ground arith)
