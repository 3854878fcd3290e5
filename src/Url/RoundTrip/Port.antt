-- ===== src/Url/RoundTrip/Port.antt =====
-- The port number of a URL between the printer and the parser.
use social_network.Prelude.{
  ℕ, ◌≡◌, ◌≢◌, refl, sym, ap, ◌∙◌, inl, inr, ◌<◌, Bool, true, false, not, ◌&&◌, List, [], ◌∷◌,
  Option, none, some, ltb, ◌==◌, if◌then◌else◌, Bytes, equal, is_empty, All, Stops, arith,
  Bool-cases, ℤ, pos, ◌^◌,
}
use social_network.StringHelpers.{to_lowercase_in_place}
use social_network.NumberParser.{try_parse_int}
use social_network.NumberParser.Unsigned.{try_parse_int-decimal}
use social_network.Format.{decimal}
use social_network.Format.Decimal.{decimal-ne-nil}
use social_network.Url.Model.{
  Url, Result, ok, threw, bad_port, url_well_known_ports, find_port, get_port,
}
use social_network.Url.Parser.{in_host, valid_port, port_number, store_host, parse_port}
use social_network.Url.Printer.{colon_port, port_suffix}

abbrev IsPort : ℕ → Type 0
IsPort n = (0 < n) × (n < 65536)

find_port-IsPort :
    (scheme : Bytes) (ports : List (Bytes × ℕ)) (n : ℕ)
    → All (λ e. IsPort e.1) ports
    → find_port scheme ports ≡ some n
    → IsPort n
unfolding find_port
find_port-IsPort scheme [] n h e = ground arith
find_port-IsPort scheme ((name, port) ∷ ports) n (h, hs) e = elim (Bool-cases (equal name scheme)) [
  | inl k ↦
      let found : find_port scheme ((name, port) ∷ ports) ≡ some port = rw (find_port, k) refl in
      let same : port ≡ n = ap (λ o. elim o [ none ↦ port | some m ↦ m ]) (sym found ∙ e) in
      rw (← same) h
  | inr k ↦
      let later : find_port scheme ((name, port) ∷ ports) ≡ find_port scheme ports =
        rw (find_port, k) refl in
      find_port-IsPort scheme ports n hs (sym later ∙ e)
]

-- What stands behind the host, for a port number or none.
unfoldable pub suffix_of : ℕ → Bytes
suffix_of n = if n == 0 then [] else colon_port n

chosen_port : ℕ → Option ℕ → ℕ
chosen_port n known = if not (n == 0) then n else elim known [ none ↦ 0 | some port ↦ port ]

chosen_suffix : ℕ → Option ℕ → Bytes
chosen_suffix n known =
    if not (n == 0) then colon_port n else elim known [ none ↦ [] | some port ↦ colon_port port ]

chosen :
    (n : ℕ) (known : Option ℕ)
    → n < 65536
    → ((port : ℕ) → known ≡ some port → IsPort port)
    → (chosen_suffix n known ≡ suffix_of (chosen_port n known)) × (chosen_port n known < 65536)
unfolding chosen_port chosen_suffix suffix_of
chosen n none l h = elim (Bool-cases (n == 0)) [
  | inl e ↦ rw e (refl, omega arith)
  | inr e ↦ rw (e, e) (refl, l)
]
chosen n (some port) l h =
    let (above, below) = h port refl in
    let k : (port == 0) ≡ false = ground arith in
    elim (Bool-cases (n == 0)) [ inl e ↦ rw (e, k) (refl, below) | inr e ↦ rw (e, e) (refl, l) ]

well_known-IsPort : All (λ e. IsPort e.1) url_well_known_ports
well_known-IsPort = ground arith

-- What is printed behind the host is the port number that `get_port` gives, which is in range.
pub port_suffix-suffix_of :
    (u : Url) → u.port < 65536 → (port_suffix u ≡ suffix_of (get_port u)) × (get_port u < 65536)
unfolding port_suffix get_port chosen_port chosen_suffix
port_suffix-suffix_of u l =
    chosen u.port (find_port u.scheme url_well_known_ports) l
      (λ port e. find_port-IsPort u.scheme url_well_known_ports port well_known-IsPort e)

pub suffix_of-Stops : (n : ℕ) → Stops in_host (suffix_of n)
unfolding suffix_of
suffix_of-Stops n = elim (Bool-cases (n == 0)) [ inl e ↦ rw e tt | inr e ↦ rw e refl ]

store_host-lower :
    (v : Url) (c : ℕ) (host : Bytes)
    → to_lowercase_in_place (c ∷ host) ≡ c ∷ host
    → store_host v (c ∷ host) ≡ record v { host = c ∷ host }
unfolding store_host
store_host-lower v c host lower = elim (Bool-cases (not (c == b'%'))) [
  | inl e ↦ rw (store_host, e) (ap (λ h. record v { host = h }) lower)
  | inr e ↦ rw (store_host, e) refl
]

is_empty_of : (s : Bytes) → s ≢ [] → is_empty s ≡ false
is_empty_of [] h = absurd (h refl)
is_empty_of (c ∷ s) h = refl

-- The branches of `parse_port` behind the colon.
finish : Url → Bytes → Bool → ℤ × Bool → Result
finish v host no_port (nport, parsed) =
    if no_port
    then ok (store_host (record v { port = 0 }) host)
    else if parsed && valid_port nport
    then ok (store_host (record v { port = port_number nport }) host)
    else threw bad_port v

parse_port_number :
    (v : Url) (host : Bytes) (n : ℕ)
    → 0 < n
    → n < 65536
    → parse_port v host (colon_port n) ≡ ok (store_host (record v { port = n }) host)
unfolding parse_port finish
parse_port_number v host n h l =
    let full : is_empty (decimal n) ≡ false = is_empty_of (decimal n) (decimal-ne-nil n) in
    let small : ltb n (2 ^ 31) ≡ true = ground arith in
    let read : try_parse_int (decimal n) (pos 0) ≡ (pos n, true) =
      (try_parse_int-decimal n (pos 0)).0 ∙ rw small refl in
    let valid : valid_port (pos n) ≡ true = ground arith in
    (λ i. finish v host (full i) (read i)) ∙ rw (finish, valid) refl

-- The parser reads the host and the number behind it.
pub parse_port-suffix_of :
    (v : Url) (c : ℕ) (host : Bytes) (n : ℕ)
    → n < 65536
    → to_lowercase_in_place (c ∷ host) ≡ c ∷ host
    → parse_port v (c ∷ host) (suffix_of n) ≡ ok (record v { host = c ∷ host; port = n })
unfolding suffix_of parse_port
parse_port-suffix_of v c host n l lower = elim (Bool-cases (n == 0)) [
  | inl e ↦
      let zero_is : 0 ≡ n = ground arith in
      rw (suffix_of, e)
        (ap ok (store_host-lower (record v { port = 0 }) c host lower)
          ∙ ap (λ m. ok (record v { host = c ∷ host; port = m })) zero_is)
  | inr e ↦
      let above : 0 < n = ground arith in
      rw (suffix_of, e)
        (parse_port_number v (c ∷ host) n above l
          ∙ ap ok (store_host-lower (record v { port = n }) c host lower))
]
