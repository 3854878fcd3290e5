-- ===== src/Url/Parser/Outcome.antt =====
-- What the parser of url.cpp may leave in the object, whatever the text is.
use social_network.Prelude.{
  ◌<◌, ◌≡◌, refl, ◌∙◌, ◌⊎◌, inl, inr, Bool, true, ◌&&◌, [], ◌∷◌, ◌==◌, if◌then◌else◌, Bytes,
  is_empty, take_while, drop_while, ℤ, pos, negsuc, arith, Bool-cases,
}
use social_network.NumberParser.{try_parse_int}
use social_network.Url.Model.{Url, Result, ok, threw, ◌>>=◌, set_scheme}
use social_network.Url.Query.{skip}
use social_network.Url.Parser.{
  at_path, parse_path, parse_query, parse_fragment, then_query, then_fragment,
  parse_path_query_fragment, valid_port, port_number, store_host, parse_port, close_ipv6,
  parse_host_and_port, authority_loop, in_ipv6, in_host, in_authority, in_scheme, may_start_scheme,
  parse_authority, parse_hierarchy, parse_scheme, parse,
}

-- A port number is in range, and an exception leaves the object as it was.
abbrev pub Ended : Url → Result → Type 0
Ended u (ok v) = v.port < 65536
Ended u (threw e v) = v ≡ u

valid_port_bounded : (n : ℤ) → valid_port n ≡ true → port_number n < 65536
valid_port_bounded (pos n) e = ground arith
valid_port_bounded (negsuc n) e = ground arith

store_host_port : (u : Url) (host : Bytes) → (store_host u host).port ≡ u.port
unfolding store_host
store_host_port u [] = refl
store_host_port u (c ∷ host) = refl

both : (a b : Bool) → (a && b) ≡ true → b ≡ true
both a b e = ground arith

parse_port-Ended : (u : Url) (host it : Bytes) → Ended u (parse_port u host it)
unfolding parse_port
parse_port-Ended u host it = elim (Bool-cases (skip b':' it).0) [
  | inr e ↦ rw (parse_port, e) (rw (store_host_port (record u { port = 0 }) host) (omega arith))
  | inl e ↦ elim (Bool-cases (is_empty (skip b':' it).1)) [
    | inl k ↦
        rw (parse_port, e, k) (rw (store_host_port (record u { port = 0 }) host) (omega arith))
    | inr k ↦
        let nport = try_parse_int (skip b':' it).1 (pos 0) in
        elim (Bool-cases (nport.1 && valid_port nport.0)) [
          | inl m ↦
              let bounded = valid_port_bounded nport.0 (both nport.1 (valid_port nport.0) m) in
              rw (parse_port, e, k, m)
                (rw (store_host_port (record u { port = port_number nport.0 }) host) bounded)
          | inr m ↦ rw (parse_port, e, k, m) refl
        ]
  ]
]

close_ipv6-Ended : (u : Url) (host it : Bytes) → Ended u (close_ipv6 u host it)
unfolding close_ipv6
close_ipv6-Ended u host [] = refl
close_ipv6-Ended u host (c ∷ it) = parse_port-Ended u host it

parse_host_and_port-Ended :
    (u : Url) (it : Bytes) → u.port < 65536 → Ended u (parse_host_and_port u it)
unfolding parse_host_and_port
parse_host_and_port-Ended u [] h = h
parse_host_and_port-Ended u (c ∷ it) h = elim (Bool-cases (c == b'[')) [
  | inl e ↦
      rw (parse_host_and_port, e)
        (close_ipv6-Ended u (take_while in_ipv6 it) (drop_while in_ipv6 it))
  | inr e ↦
      rw (parse_host_and_port, e)
        (parse_port-Ended u (take_while in_host (c ∷ it)) (drop_while in_host (c ∷ it)))
]

-- A step behind the parser that keeps the port.
then-Ended :
    (u : Url) (r : Result) (f : Url → Url)
    → ((v : Url) → (f v).port ≡ v.port)
    → Ended u r
    → Ended u (r >>= λ v. ok (f v))
then-Ended u (ok v) f k h = rw (k v) h
then-Ended u (threw e v) f k h = h

parse_authority-Ended : (u : Url) (it : Bytes) → u.port < 65536 → Ended u (parse_authority u it)
unfolding parse_authority
parse_authority-Ended u it h =
    let (user_info, part) = authority_loop [] [] (take_while in_authority it) in
    then-Ended u (parse_host_and_port u part) (λ v. record v { user_info = user_info }) (λ v. refl)
      (parse_host_and_port-Ended u part h)

then_query_port : (u : Url) (it : Bytes) → (then_query (u, it)).0.port ≡ u.port
unfolding parse_query
then_query_port u it = elim (Bool-cases (skip b'?' it).0) [ inl e ↦ rw e refl | inr e ↦ rw e refl ]

then_fragment_port : (u : Url) (it : Bytes) → (then_fragment (u, it)).port ≡ u.port
unfolding parse_fragment
then_fragment_port u it = elim (Bool-cases (skip b'#' it).0) [
  | inl e ↦ rw e refl
  | inr e ↦ rw e refl
]

path_port :
    (u : Url) (it : Bytes) → (if at_path it then parse_path u it else (u, it)).0.port ≡ u.port
unfolding parse_path
path_port u it = elim (Bool-cases (at_path it)) [ inl e ↦ rw e refl | inr e ↦ rw e refl ]

parse_path_query_fragment_port :
    (u : Url) (it : Bytes) → (parse_path_query_fragment u it).port ≡ u.port
unfolding parse_path_query_fragment
parse_path_query_fragment_port u it =
    let (v, it1) = if at_path it then parse_path u it else (u, it) in
    let (w, it2) = then_query (v, it1) in
    then_fragment_port w it2 ∙ then_query_port v it1 ∙ path_port u it

parse_hierarchy-Ended : (u : Url) (it : Bytes) → u.port < 65536 → Ended u (parse_hierarchy u it)
unfolding parse_hierarchy
parse_hierarchy-Ended u it h =
    let (slash, it1) = skip b'/' it in
    let (two, it2) = skip b'/' it1 in
    elim (Bool-cases (slash && two)) [
      | inl e ↦
          rw (parse_hierarchy, e)
            (then-Ended u (parse_authority u it2)
              (λ v. parse_path_query_fragment v (drop_while in_authority it2))
              (λ v. parse_path_query_fragment_port v (drop_while in_authority it2))
              (parse_authority-Ended u it2 h))
      | inr e ↦ rw (parse_hierarchy, e, parse_path_query_fragment_port u it) h
    ]

-- What `parse` may leave: a port number in range, or, with an exception, the object as it was but
-- for the scheme, which may have been read.
abbrev pub Left : Url → Result → Type 0
Left u (ok v) = v.port < 65536
Left u (threw e v) = (v ≡ u) ⊎ ((scheme : Bytes) × (v ≡ set_scheme u scheme))

scheme_port : (u : Url) (scheme : Bytes) → u.port < 65536 → (set_scheme u scheme).port < 65536
unfolding set_scheme
scheme_port u scheme h = h

Ended-Left : (u : Url) (scheme : Bytes) (r : Result) → Ended (set_scheme u scheme) r → Left u r
Ended-Left u scheme (ok v) h = h
Ended-Left u scheme (threw e v) h = inr (scheme, h)

parse_scheme-Left :
    (u : Url) (url scheme it : Bytes) → u.port < 65536 → Left u (parse_scheme u url scheme it)
unfolding parse_scheme
parse_scheme-Left u url scheme it h = elim (Bool-cases (skip b':' it).0) [
  | inr e ↦ rw (parse_scheme, e) (rw (parse_path_query_fragment_port u url) h)
  | inl e ↦ elim (Bool-cases (is_empty (skip b':' it).1)) [
    | inl k ↦ rw (parse_scheme, e, k) (inl refl)
    | inr k ↦
        rw (parse_scheme, e, k)
          (Ended-Left u scheme (parse_hierarchy (set_scheme u scheme) (skip b':' it).1)
            (parse_hierarchy-Ended (set_scheme u scheme) (skip b':' it).1 (scheme_port u scheme h)))
  ]
]

-- Whatever the text is, the parser leaves a port number below 65536; where it throws it has changed
-- nothing of the object but the scheme.
pub parse-Left : (u : Url) (url : Bytes) → u.port < 65536 → Left u (parse u url)
unfolding parse
parse-Left u [] h = h
parse-Left u (c ∷ it) h = elim (Bool-cases (may_start_scheme c)) [
  | inl e ↦
      rw (parse, e)
        (parse_scheme-Left u (c ∷ it) (take_while in_scheme (c ∷ it))
          (drop_while in_scheme (c ∷ it)) h)
  | inr e ↦ rw (parse, e) (rw (parse_path_query_fragment_port u (c ∷ it)) h)
]
