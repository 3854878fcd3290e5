-- ===== src/FilePath/Writing.antt =====
-- service/sources/helpers/filepath.cpp: what `set_executable` and `set_writeable` write, read with the
-- tests of `can_execute` and `can_write`.
use social_network.Prelude.{
  ℕ, ap, ◌≡◌, refl, ◌∙◌, Bool, true, false, not, ◌&&◌, ◌||◌, ◌==◌, if◌then◌else◌, Bool-cases, inl,
  inr, ◌<◌, Option, none, some, Bytes, codes, done, arith,
}
use social_network.FilePath.{FilePath, is_nil}
use social_network.FilePath.System.{Stat, Filesystem, ErrorCode, is_known}
use social_network.FilePath.Bits.{bit, set_bit, clear_bit, bit-set_bit, bit-clear_bit}
use social_network.FilePath.Permissions.{
  Caller, can_access, may_execute, writeable, executable, settle, change_permissions, set_writeable,
  can_write, of_stat,
}

abbrev pub with_mode : (ℕ → ℕ) → Stat → Stat
with_mode f st = record st { st_mode = f st.st_mode }

bit-set_bit_if :
    (b : Bool) (j k n : ℕ) → bit j (if b then set_bit k n else n) ≡ ((b && j == k) || bit j n)
bit-set_bit_if true j k n = bit-set_bit j k n
bit-set_bit_if false j k n = refl

executable-bit :
    (j n : ℕ)
    → bit j (executable true n)
      ≡ ((bit 2 n && j == 0) || ((bit 5 n && j == 3) || (j == 6 || bit j n)))
unfolding executable
executable-bit j n =
    rw
      (
        bit-set_bit_if (bit 2 n) j 0 (if bit 5 n then set_bit 3 (set_bit 6 n) else set_bit 6 n),
        bit-set_bit_if (bit 5 n) j 3 (set_bit 6 n),
        bit-set_bit j 6 n,
      )
      refl

executable-false-bit :
    (j n : ℕ)
    → bit j (executable false n) ≡ (not (j == 0) && (not (j == 3) && (not (j == 6) && bit j n)))
unfolding executable
executable-false-bit j n =
    rw
      (
        bit-clear_bit j 0 (clear_bit 3 (clear_bit 6 n)),
        bit-clear_bit j 3 (clear_bit 6 n),
        bit-clear_bit j 6 n,
      )
      refl

-- With the permissions that `set_executable(true)` stores a file may be executed by its owner, by
-- root, and by exactly those others who could execute it or may read it; with those of
-- `set_executable(false)` by nobody.
pub may_execute-executable :
    (who : Caller) (st : Stat) (flag : Bool)
    → may_execute who (with_mode (executable flag) st) ≡ (
        flag
        && ((st.st_uid == who.uid || who.uid == 0)
            || (may_execute who st || can_access who 8 5 2 st)))
unfolding can_access may_execute
may_execute-executable who st true =
    let owner = executable-bit 6 st.st_mode in
    let group = executable-bit 3 st.st_mode in
    let others = executable-bit 0 st.st_mode in ground arith
may_execute-executable who st false =
    let owner = executable-false-bit 6 st.st_mode in
    let group = executable-false-bit 3 st.st_mode in
    let others = executable-false-bit 0 st.st_mode in ground arith

-- What `chmod` is documented to do: the bits of the owner, the group and the others are then those
-- that were asked for, and the file has the owner and the group it had.
abbrev pub HasMode : ℕ → Stat → Option Stat → Type 0
HasMode m st none = ⊥
HasMode m st (some st') =
    (st'.st_uid ≡ st.st_uid)
    × (st'.st_gid ≡ st.st_gid)
    × ((k : ℕ) → k < 9 → bit k st'.st_mode ≡ bit k m)

abbrev pub SetsModes : {State : Type 0} → Filesystem State → Type 0
SetsModes {State} fs =
    (s s' : State) (path : Bytes) (m : ℕ) (st : Stat)
    → fs.permissions s path m ≡ (s', none)
    → fs.stat s path ≡ some st
    → HasMode m st (fs.stat s' path)

writeable-true-bit : (j n : ℕ) → bit j (writeable true n) ≡ (j == 7 || bit j n)
unfolding writeable
writeable-true-bit j n = bit-set_bit j 7 n

writeable-false-bit :
    (j n : ℕ)
    → bit j (writeable false n) ≡ (not (j == 1) && (not (j == 4) && (not (j == 7) && bit j n)))
unfolding writeable
writeable-false-bit j n =
    rw
      (
        bit-clear_bit j 1 (clear_bit 4 (clear_bit 7 n)),
        bit-clear_bit j 4 (clear_bit 7 n),
        bit-clear_bit j 7 n,
      )
      refl

writeable-bit : (flag : Bool) (n : ℕ) → bit 7 (writeable flag n) ≡ flag
writeable-bit true n = writeable-true-bit 7 n
writeable-bit false n = writeable-false-bit 7 n

can_access-writeable :
    (who : Caller) (n : ℕ) (flag : Bool) (st : Stat) (o : Option Stat)
    → HasMode (writeable flag n) st o
    → st.st_uid ≡ who.uid
    → of_stat (can_access who 7 4 1) o ≡ flag
unfolding can_access
can_access-writeable who n flag st none h own = absurd h
can_access-writeable who n flag st (some st') (u, g, bits) own =
    let owner = bits 7 (omega arith) ∙ writeable-bit flag n in ground arith

module _ {State : Type 0} (fs : Filesystem State) (file file' : FilePath) where
  settle-done :
      (s s' : State) (name : Bytes) (r : State × ErrorCode)
      → settle fs s file name r ≡ (s', done file')
      → r ≡ (s', none)
  unfolding settle
  settle-done s s' name (a, none) h = ap (λ p. (p.0, none)) h
  settle-done s s' name (a, some what) h = cc

  change_permissions-done :
      (s s' : State) (name : Bytes) (f : ℕ → ℕ)
      → change_permissions fs s file name f ≡ (s', done file')
      → (is_nil file.path_ ≡ false)
        × (fs.permissions s file.path_ (f (fs.status s file.path_).perms) ≡ (s', none))
  unfolding change_permissions
  change_permissions-done s s' name f h = elim (Bool-cases (is_nil file.path_)) [
    | inl e ↦ let g = rw e at h in cc
    | inr e ↦ elim (Bool-cases (is_known (fs.status s file.path_).type)) [
      | inl known ↦ (
        e,
        settle-done s s' name (fs.permissions s file.path_ (f (fs.status s file.path_).perms))
            (rw (e, known) at h),
      )
      | inr unknown ↦ let g = rw (e, unknown) at h in cc
    ]
  ]

  -- If the system stores the permissions that it is asked to store, then once `set_writeable(flag)` has
  -- returned, `can_write` of the owner of the file is `flag`.
  pub can_write-set_writeable :
      SetsModes fs
      → (s s' : State) (who : Caller) (st : Stat) (flag : Bool) → fs.stat s file.path_ ≡ some st
      → st.st_uid ≡ who.uid
      → set_writeable fs s file flag ≡ (s', done file')
      → can_write fs s' file who ≡ flag
  unfolding set_writeable can_write
  can_write-set_writeable sets s s' who st flag e own h =
      let name = codes "set_writeable" in
      let (given, changed) = change_permissions-done s s' name (writeable flag) h in
      let mode =
        sets s s' file.path_ (writeable flag (fs.status s file.path_).perms) st changed e in
      rw given (
        can_access-writeable who (fs.status s file.path_).perms flag st (fs.stat s' file.path_) mode
          own)
