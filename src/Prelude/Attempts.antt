-- ===== src/Prelude/Attempts.antt =====
-- What code that throws gives: a value, a `DnsException` or another `std::exception`, with its `what()`.
use mathlib.Core.Option.{Option, none, some}
use social_network.Prelude.Text.{Bytes}

pub data Attempt {ℓ} (A : Type ℓ) : Type ℓ where
  done : A → Attempt A
  dns_exception : Bytes → Attempt A
  std_exception : Bytes → Attempt A

infixl 5 ◌>>=◌
abbrev pub ◌>>=◌ {ℓ κ} : {A : Type ℓ} {B : Type κ} → Attempt A → (A → Attempt B) → Attempt B
done a >>= f = f a
dns_exception what >>= f = dns_exception what
std_exception what >>= f = std_exception what

-- The value alone.
abbrev pub value {ℓ} : {A : Type ℓ} → Attempt A → Option A
value (done a) = some a
value (dns_exception what) = none
value (std_exception what) = none

-- An option whose `none` stands for an exception with that text.
abbrev pub or_throw {ℓ} : {A : Type ℓ} → Option A → Bytes → Attempt A
or_throw none what = std_exception what
or_throw (some a) what = done a
