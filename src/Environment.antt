-- ===== src/Environment.antt =====
-- service/sources/helpers/environment.cpp. `getenv`, `uname`, `sysconf` and what `ioctl` says of the
-- interfaces are parameters; the values of a `char` are numbers below 256, of which those from 128
-- on are negative.
pub mod NodeId
mod Tests
use social_network.Prelude.{
  ℕ, zero, suc, ◌+◌, ◌-◌, ◌*◌, ◌/◌, ◌%◌, Bool, true, false, not, ◌&&◌, ◌||◌, List, [], ◌∷◌, ◌++◌,
  Option, none, some, ltb, leb, ◌==◌, if◌then◌else◌, Bytes, take, ℤ, pos, negsuc,
}
use social_network.Format.{hex_digit, hex_byte}
use social_network.IpAddress.Text.{c_str}

abbrev pub is_set : Option Bytes → Bool
is_set none = false
is_set (some val) = true

abbrev pub value_or : Option Bytes → Bytes → Bytes
value_or none def = def
value_or (some val) def = val

module _ (getenv : Bytes → Option Bytes) where
  unfoldable pub has : Bytes → Bool
  has name = is_set (getenv (c_str name))

  unfoldable pub get : Bytes → Option Bytes
  get name = getenv (c_str name)

  unfoldable pub get_or_default : Bytes → Bytes → Bytes
  unfolding get
  get_or_default name def = value_or (get name) def

-- A `struct utsname`.
pub record Utsname : Type 0 where
  pub sysname : Bytes
  pub nodename : Bytes
  pub release : Bytes
  pub machine : Bytes

unfoldable pub os_name : Utsname → Bytes
os_name uts = c_str uts.sysname

unfoldable pub os_version : Utsname → Bytes
os_version uts = c_str uts.release

unfoldable pub os_architecture : Utsname → Bytes
os_architecture uts = c_str uts.machine

unfoldable pub node_name : Utsname → Bytes
node_name uts = c_str uts.nodename

-- `sysconf(_SC_NPROCESSORS_ONLN)`, a `long`, and the cast to an `int`.
unfoldable pub processor_count : ℤ → ℤ
processor_count (pos n) =
    if n == 0
    then pos 1
    else let low = n % 4294967296 in
      if ltb low 2147483648 then pos low else negsuc (4294967295 - low)
processor_count (negsuc n) = pos 1

-- What `ioctl` says of one interface: `none` is an error of the call.
pub record Ifreq : Type 0 where
  pub is_loopback : Option Bool
  pub is_ether : Option Bool
  pub sa_data : Bytes

-- `%02x` of a `char`, which is an `int` then: a negative one has eight digits.
unfoldable pub hex_char : ℕ → Bytes
unfolding hex_byte
hex_char c = if ltb c 128 then hex_byte c else b'f' ∷ b'f' ∷ b'f' ∷ b'f' ∷ b'f' ∷ b'f' ∷ hex_byte c

unfoldable pub colon_separated : Bytes → Bytes
unfolding hex_char
colon_separated [] = []
colon_separated (c ∷ []) = hex_char c
colon_separated (c ∷ d ∷ s) = hex_char c ++ b':' ∷ colon_separated (d ∷ s)

-- `snprintf` into the 18 bytes of `id`, the last of which is the zero byte.
unfoldable pub id_text : Bytes → Bytes
unfolding colon_separated
id_text sa_data = take 17 (colon_separated (take 6 sa_data))

abbrev pub is_some_false : Option Bool → Bool
is_some_false none = false
is_some_false (some b) = not b

abbrev pub is_some_true : Option Bool → Bool
is_some_true none = false
is_some_true (some b) = b

-- The loop over the interfaces.
unfoldable pub find_id : List Ifreq → Option Bytes
unfolding id_text
find_id [] = none
find_id (ifr ∷ more) =
    if is_some_false ifr.is_loopback && is_some_true ifr.is_ether
    then some (id_text ifr.sa_data)
    else find_id more

-- The loop that looks for a buffer that is large enough: `fill len` is what `SIOCGIFCONF` answers
-- to a buffer of `len` bytes, a length or an error, `true` for `EINVAL`. `none` on the outside is a
-- loop that has not ended after `fuel` buffers, on the inside the error.
pub data Filled : Type 0 where
  filled : ℕ → Filled
  failed : Bool → Filled

unfoldable pub fill_loop : (ℕ → Filled) → ℕ → ℕ → ℕ → Option (Option ℕ)
fill_loop fill zero len last_len = none
fill_loop fill (suc fuel) len last_len = elim (fill len) [
  | failed einval ↦
      if not einval || not (last_len == 0)
      then some none
      else fill_loop fill fuel (len + 10 * 40) last_len
  | filled ifc_len ↦
      if ifc_len == last_len
      then some (some ifc_len)
      else fill_loop fill fuel (len + 10 * 40) ifc_len
]

-- `socket` may fail; the interfaces are those in the buffer.
unfoldable pub node_id : Bool → (ℕ → Filled) → (ℕ → List Ifreq) → ℕ → Option (Option Bytes)
unfolding fill_loop find_id
node_id has_socket fill interfaces fuel =
    if not has_socket then some none else elim (fill_loop fill fuel (100 * 40) 0) [
      | none ↦ none
      | some none ↦ some none
      | some (some ifc_len) ↦ some (find_id (interfaces ifc_len))
    ]
