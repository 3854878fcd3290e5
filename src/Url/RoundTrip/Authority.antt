-- ===== src/Url/RoundTrip/Authority.antt =====
-- The authority of a URL between the printer and the parser.
use social_network.Prelude.{
  ℕ, ◌≡◌, ◌≢◌, refl, sym, ap, ◌∙◌, inl, inr, ◌<◌, Bool, true, false, not, ◌&&◌, [], ◌∷◌, ◌++◌,
  append-nil, append_assoc, ◌==◌, if◌then◌else◌, Bytes, has, is_empty, drop_while, All, All-append,
  All-mono, Stops, take_while-append, drop_while-append, arith, Bool-cases,
}
use social_network.StringHelpers.{to_lowercase_in_place}
use social_network.Format.{decimal}
use social_network.Format.Decimal.{IsDigit, decimal-IsDigit}
use social_network.Url.Model.{Url, ok, ◌>>=◌, get_port}
use social_network.Url.Parser.{
  in_host, in_authority, authority_loop, parse_port, parse_host_and_port, set_user, parse_authority,
}
use social_network.Url.RoundTrip.Port.{
  suffix_of, suffix_of-Stops, port_suffix-suffix_of, parse_port-suffix_of,
}
use social_network.Url.Printer.{get_authority}

-- A byte of the user information, and of a host that is a name or an IPv4 address.
abbrev pub in_user : ℕ → Bool
in_user c = in_authority c && not (c == b'@')

abbrev pub in_plain_host : ℕ → Bool
in_plain_host c = in_user c && not (c == b':') && not (c == b'[')

authority_loop-append :
    (user part s rest : Bytes)
    → All (λ c. in_user c ≡ true) s
    → authority_loop user part (s ++ rest) ≡ authority_loop user (part ++ s) rest
unfolding authority_loop
authority_loop-append user part [] rest h =
    ap (λ t. authority_loop user t rest) (sym (append-nil part))
authority_loop-append user part (c ∷ s) rest (h, hs) =
    let e : (c == b'@') ≡ false = ground arith in
    rw (authority_loop, e)
      (authority_loop-append user (part ++ c ∷ []) s rest hs
        ∙ ap (λ t. authority_loop user t rest) (append_assoc part (c ∷ []) s))

-- What the round trip asks of the user information and the host.
pub record IsAuthority (u : Url) : Type 0 where
  pub user_is : All (λ c. in_user c ≡ true) u.user_info
  pub host_is : All (λ c. in_plain_host c ≡ true) u.host
  pub lower : to_lowercase_in_place u.host ≡ u.host
  pub port_is : u.port < 65536

has-colon : (host : Bytes) → All (λ c. in_plain_host c ≡ true) host → has b':' host ≡ false
unfolding has
has-colon [] h = refl
has-colon (c ∷ host) (h, hs) = ground (arith, has-colon host hs)

user_part : Bytes → Bytes
user_part user = if not (is_empty user) then user ++ b'@' ∷ [] else []

get_authority-parts :
    (u : Url)
    → IsAuthority u
    → get_authority u ≡ user_part u.user_info ++ (u.host ++ suffix_of (get_port u))
unfolding get_authority user_part
get_authority-parts u h =
    let colon : has b':' u.host ≡ false = has-colon u.host h.host_is in
    let suffix = (port_suffix-suffix_of u h.port_is).0 in
    rw (colon, suffix) (append_assoc (user_part u.user_info) u.host (suffix_of (get_port u)))

not_empty :
    (user host rest : Bytes) → host ≢ [] → is_empty (user_part user ++ (host ++ rest)) ≡ false
unfolding user_part
not_empty [] [] rest h = absurd (h refl)
not_empty [] (c ∷ host) rest h = refl
not_empty (c ∷ user) host rest h = refl

pub get_authority-full :
    (u : Url) → IsAuthority u → u.host ≢ [] → is_empty (get_authority u) ≡ false
get_authority-full u h ne =
    ap is_empty (get_authority-parts u h) ∙ not_empty u.user_info u.host (suffix_of (get_port u)) ne

in_authority-digit : (c : ℕ) → IsDigit c → (in_authority c ≡ true) × ((c == b'@') ≡ false)
in_authority-digit c h = (ground arith, ground arith)

suffix_of-inside : (n : ℕ) → All (λ c. in_user c ≡ true) (suffix_of n)
unfolding suffix_of
suffix_of-inside n = elim (Bool-cases (n == 0)) [
  | inl e ↦ rw (suffix_of, e) tt
  | inr e ↦ rw (suffix_of, e) (refl, All-mono (decimal n) (λ c h. ground arith) (decimal-IsDigit n))
]

in_plain_host-in_user : (c : ℕ) → in_plain_host c ≡ true → in_user c ≡ true
in_plain_host-in_user c h = ground arith

in_plain_host-in_host : (c : ℕ) → in_plain_host c ≡ true → in_host c ≡ true
in_plain_host-in_host c h = ground arith

in_user-in_authority : (c : ℕ) → in_user c ≡ true → in_authority c ≡ true
in_user-in_authority c h = ground arith

-- The text behind the user information.
host_part-inside :
    (u : Url) → IsAuthority u → All (λ c. in_user c ≡ true) (u.host ++ suffix_of (get_port u))
host_part-inside u h =
    All-append (λ c. in_user c ≡ true) u.host (suffix_of (get_port u))
      (All-mono u.host in_plain_host-in_user h.host_is) (suffix_of-inside (get_port u))

user_part-inside :
    (s : Bytes) → All (λ c. in_user c ≡ true) s → All (λ c. in_authority c ≡ true) (user_part s)
unfolding user_part
user_part-inside [] h = tt
user_part-inside (c ∷ s) h =
    All-append (λ c. in_authority c ≡ true) (c ∷ s) (b'@' ∷ [])
      (All-mono (c ∷ s) in_user-in_authority h) (refl, tt)

authority_loop-user_part :
    (user s : Bytes)
    → All (λ c. in_user c ≡ true) user
    → All (λ c. in_user c ≡ true) s
    → authority_loop [] [] (user_part user ++ s) ≡ (user, s)
unfolding user_part authority_loop
authority_loop-user_part [] s h k =
    ap (authority_loop [] []) (sym (append-nil s)) ∙ authority_loop-append [] [] s [] k
authority_loop-user_part (c ∷ user) s h k =
    ap (authority_loop [] []) (append_assoc (c ∷ user) (b'@' ∷ []) s)
    ∙ authority_loop-append [] [] (c ∷ user) (b'@' ∷ s) h
    ∙ ap (authority_loop (c ∷ user) []) (sym (append-nil s))
    ∙ authority_loop-append (c ∷ user) [] s [] k

first_of : (c : ℕ) → in_plain_host c ≡ true → (c == b'[') ≡ false
first_of c h = ground arith

parse_host_and_port-host :
    (v : Url) (host : Bytes) (n : ℕ)
    → host ≢ []
    → All (λ c. in_plain_host c ≡ true) host
    → to_lowercase_in_place host ≡ host
    → n < 65536
    → parse_host_and_port v (host ++ suffix_of n) ≡ ok (record v { host = host; port = n })
unfolding parse_host_and_port
parse_host_and_port-host v [] n h k lower l = absurd (h refl)
parse_host_and_port-host v (c ∷ host) n h k lower l =
    let bracket : (c == b'[') ≡ false = first_of c k.0 in
    let inside = All-mono (c ∷ host) in_plain_host-in_host k in
    let front = take_while-append in_host (c ∷ host) (suffix_of n) inside (suffix_of-Stops n) in
    let rest = drop_while-append in_host (c ∷ host) (suffix_of n) inside (suffix_of-Stops n) in
    rw (parse_host_and_port, bracket)
      ((λ i. parse_port v (front i) (rest i)) ∙ parse_port-suffix_of v c host n l lower)

-- The parser reads back the authority that is printed, up to a text at which an authority ends.
pub parse_authority-get_authority :
    (v u : Url) (rest : Bytes)
    → IsAuthority u
    → u.host ≢ []
    → Stops in_authority rest
    → (parse_authority v (get_authority u ++ rest)
        ≡ ok (record v { user_info = u.user_info; host = u.host; port = get_port u }))
      × (drop_while in_authority (get_authority u ++ rest) ≡ rest)
unfolding parse_authority
parse_authority-get_authority v u rest h ne s =
    let parts = get_authority-parts u h in
    let host_part = u.host ++ suffix_of (get_port u) in
    let inside : All (λ c. in_authority c ≡ true) (get_authority u) = rw parts (
      All-append (λ c. in_authority c ≡ true) (user_part u.user_info) host_part
        (user_part-inside u.user_info h.user_is)
        (All-mono host_part in_user-in_authority (host_part-inside u h))) in
    let front = take_while-append in_authority (get_authority u) rest inside s in
    let loop =
      ap (authority_loop [] []) (front ∙ parts)
      ∙ authority_loop-user_part u.user_info host_part h.user_is (host_part-inside u h) in
    let bounded = (port_suffix-suffix_of u h.port_is).1 in
    (
      ap (λ r. parse_host_and_port v r.1 >>= set_user r.0) loop
          ∙ ap (λ r. r >>= set_user u.user_info)
              (parse_host_and_port-host v u.host (get_port u) ne h.host_is h.lower bounded),
      drop_while-append in_authority (get_authority u) rest inside s,
    )
