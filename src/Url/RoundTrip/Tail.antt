-- ===== src/Url/RoundTrip/Tail.antt =====
-- The path, query and fragment of a URL between the printer and the parser.
use social_network.Prelude.{
  ℕ, ◌≡◌, refl, ap, ◌∙◌, inl, inr, true, false, not, [], ◌∷◌, ◌++◌, if◌then◌else◌, Bytes, has,
  is_empty, All, All-mono, IsBytes, Stops, take_while-append, drop_while-append, arith, Bool-cases,
}
use social_network.Url.Model.{Url, url_reserved_path}
use social_network.Url.Codec.{decode}
use social_network.Url.Codec.RoundTrip.{encoding, IsEncoded, encoding-IsEncoded, decode-encoding}
use social_network.Url.Query.{skip}
use social_network.Url.Parser.{
  in_path, in_query, at_path, parse_path, parse_query, parse_fragment, then_query, then_fragment,
  parse_path_query_fragment,
}
use social_network.Url.Printer.{query_fragment}

in_path-IsEncoded : (c : ℕ) → IsEncoded url_reserved_path c → in_path c ≡ true
unfolding has
in_path-IsEncoded c (inl h) = ground arith
in_path-IsEncoded c (inr (inl h)) = ground arith
in_path-IsEncoded c (inr (inr h)) = ground arith

query_fragment-Stops : (u : Url) → Stops in_path (query_fragment u)
query_fragment-Stops u = elim (Bool-cases (is_empty u.query)) [
  | inr e ↦ rw e refl
  | inl e ↦ elim (Bool-cases (is_empty u.fragment)) [
    | inr f ↦ rw (e, f) refl
    | inl f ↦ rw (e, f) tt
  ]
]

-- The part of `to_string` behind the authority, if the path is not empty.
abbrev pub tail : Url → Bytes
tail u = encoding url_reserved_path u.path ++ query_fragment u

query_part : Bytes → Bytes
query_part query = if not (is_empty query) then b'?' ∷ query else []

fragment_part : Bytes → Bytes
fragment_part fragment = if not (is_empty fragment) then b'#' ∷ fragment else []

then_fragment-fragment_part :
    (v : Url) (g : Bytes)
    → then_fragment (record v { fragment = [] }, fragment_part g) ≡ record v { fragment = g }
unfolding fragment_part parse_fragment skip
then_fragment-fragment_part v [] = refl
then_fragment-fragment_part v (c ∷ g) = refl

fragment_part-Stops : (g : Bytes) → Stops in_query (fragment_part g)
unfolding fragment_part
fragment_part-Stops [] = tt
fragment_part-Stops (c ∷ g) = refl

then_query-query_part :
    (v : Url) (q g : Bytes)
    → All (λ c. in_query c ≡ true) q
    → then_query (record v { query = [] }, query_part q ++ fragment_part g)
      ≡ (record v { query = q }, fragment_part g)
unfolding query_part skip parse_query
then_query-query_part v [] [] h = unfold fragment_part in refl
then_query-query_part v [] (c ∷ g) h = unfold fragment_part in refl
then_query-query_part v (c ∷ q) g h =
    let front = take_while-append in_query (c ∷ q) (fragment_part g) h (fragment_part-Stops g) in
    let rest = drop_while-append in_query (c ∷ q) (fragment_part g) h (fragment_part-Stops g) in
    λ i. (record v { query = front i }, rest i)

at_path-parse_path :
    (v u : Url)
    → IsBytes u.path
    → at_path (tail u) ≡ true
    → (if at_path (tail u)
        then parse_path (record v { path = [] }) (tail u)
        else (record v { path = [] }, tail u))
      ≡ (record v { path = u.path }, query_fragment u)
unfolding parse_path
at_path-parse_path v u b e =
    let inside =
      All-mono (encoding url_reserved_path u.path) in_path-IsEncoded
        (encoding-IsEncoded url_reserved_path u.path b) in
    let stops = query_fragment-Stops u in
    let front =
      take_while-append in_path (encoding url_reserved_path u.path) (query_fragment u) inside
        stops in
    let rest =
      drop_while-append in_path (encoding url_reserved_path u.path) (query_fragment u) inside
        stops in
    let read = decode-encoding url_reserved_path u.path [] b in
    rw e (λ i. (record v { path = (ap (λ t. decode t [] false) front ∙ read) i }, rest i))

-- The parser behind the authority reads back the path, the query and the fragment.
pub parse_path_query_fragment-tail :
    (v u : Url)
    → IsBytes u.path
    → at_path (tail u) ≡ true
    → All (λ c. in_query c ≡ true) u.query
    → parse_path_query_fragment (record v { path = []; query = []; fragment = [] }) (tail u)
      ≡ record v { path = u.path; query = u.query; fragment = u.fragment }
unfolding parse_path_query_fragment query_part fragment_part
parse_path_query_fragment-tail v u b e q =
    ap (λ r. then_fragment (then_query r))
      (at_path-parse_path (record v { query = []; fragment = [] }) u b e)
    ∙ ap then_fragment
        (then_query-query_part (record v { path = u.path; fragment = [] }) u.query u.fragment q)
    ∙ then_fragment-fragment_part (record v { path = u.path; query = u.query }) u.fragment
