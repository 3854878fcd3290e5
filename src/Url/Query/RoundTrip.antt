-- ===== src/Url/Query/RoundTrip.antt =====
-- The query of a URL between its setters and its getters.
use social_network.Prelude.{
  ℕ, zero, suc, ◌<◌, ◌≤◌, ◌≡◌, refl, sym, ap, ◌∙◌, Bool, true, false, not, List, [], ◌∷◌, ◌++◌,
  append_assoc, append-nil, map, some, arith, ◌==◌, if◌then◌else◌, Bytes, IsBytes, has, is_empty,
  length, length-append, take_while, drop_while, take_while-append, drop_while-append, Stops, All,
  All-mono,
}
use social_network.Url.Model.{
  Url, url_reserved_query, url_reserved_query_param, url_reserved_fragment,
}
use social_network.Url.Codec.{encode, decode}
use social_network.Url.Codec.RoundTrip.{
  encoding, encode-encoding, decode-encoding, decode-encode, IsEncoded, encoding-IsEncoded,
}
use social_network.Url.Query.{
  get_query, set_query, get_fragment, set_fragment, add_query_parameter, add_query_parameters,
  set_query_parameters, in_name, in_value, plus_to_space, skip, read_value, query_parameters_loop,
  get_query_parameters,
}

-- A byte that is no separator of parameters and no plus sign.
abbrev IsPlain : ℕ → Type 0
IsPlain c = ((c == b'=') ≡ false) × ((c == b'&') ≡ false) × ((c == b'+') ≡ false)

IsEncoded-IsPlain : (c : ℕ) → IsEncoded url_reserved_query_param c → IsPlain c
unfolding has
IsEncoded-IsPlain c h = ground arith

abbrev coded : Bytes → Bytes
coded = encoding url_reserved_query_param

coded-IsPlain : (s : Bytes) → IsBytes s → All IsPlain (coded s)
coded-IsPlain s h =
    All-mono (coded s) IsEncoded-IsPlain (encoding-IsEncoded url_reserved_query_param s h)

-- `name=value`.
item : Bytes × Bytes → Bytes
item (param, val) = coded param ++ b'=' ∷ coded val

-- The items behind the first one.
items : List (Bytes × Bytes) → Bytes
items [] = []
items (p ∷ ps) = b'&' ∷ (item p ++ items ps)

joined : List (Bytes × Bytes) → Bytes
joined [] = []
joined (p ∷ ps) = item p ++ items ps

abbrev separated : Bytes → Bytes
separated q = if is_empty q then [] else q ++ b'&' ∷ []

separated_sep : (q : Bytes) → (if not (is_empty q) then q ++ b'&' ∷ [] else q) ≡ separated q
separated_sep [] = refl
separated_sep (c ∷ q) = refl

encode-item :
    (out param val : Bytes)
    → encode val url_reserved_query_param (encode param url_reserved_query_param out ++ b'=' ∷ [])
      ≡ out ++ item (param, val)
unfolding item
encode-item out param val =
    encode-encoding val url_reserved_query_param _
    ∙ ap (λ t. (t ++ b'=' ∷ []) ++ coded val) (encode-encoding param url_reserved_query_param out)
    ∙ append_assoc (out ++ coded param) (b'=' ∷ []) (coded val)
    ∙ append_assoc out (coded param) (b'=' ∷ coded val)

add_query_parameter-item :
    (u : Url) (param val : Bytes)
    → add_query_parameter u param val ≡ record u { query = separated u.query ++ item (param, val) }
unfolding add_query_parameter
add_query_parameter-item u param val =
    ap (λ q. record u { query = q })
      (encode-item _ param val ∙ ap (λ q. q ++ item (param, val)) (separated_sep u.query))

item-ne-nil : (p : Bytes × Bytes) (q : Bytes) → is_empty (q ++ item p) ≡ false
unfolding item
item-ne-nil (param, val) (c ∷ q) = refl
item-ne-nil (param, val) [] = go (coded param)
  where
    go : (s : Bytes) → is_empty (s ++ b'=' ∷ coded val) ≡ false
    go [] = refl
    go (c ∷ s) = refl

add_query_parameters-items :
    (u : Url) (ps : List (Bytes × Bytes))
    → is_empty u.query ≡ false
    → (add_query_parameters u ps).query ≡ u.query ++ items ps
unfolding add_query_parameters items
add_query_parameters-items u [] h = sym (append-nil u.query)
add_query_parameters-items u ((param, val) ∷ ps) h =
    ap (λ v. (add_query_parameters v ps).query) (add_query_parameter-item u param val)
    ∙ add_query_parameters-items (record u { query = separated u.query ++ item (param, val) }) ps
        (item-ne-nil (param, val) (separated u.query))
    ∙ rw h (
        append_assoc (u.query ++ b'&' ∷ []) (item (param, val)) (items ps)
        ∙ append_assoc u.query (b'&' ∷ []) (item (param, val) ++ items ps))

set_query_parameters-joined :
    (u : Url) (ps : List (Bytes × Bytes)) → (set_query_parameters u ps).query ≡ joined ps
unfolding set_query_parameters add_query_parameters joined
set_query_parameters-joined u [] = refl
set_query_parameters-joined u ((param, val) ∷ ps) =
    ap (λ v. (add_query_parameters v ps).query)
      (add_query_parameter-item (record u { query = [] }) param val)
    ∙ add_query_parameters-items (record u { query = item (param, val) }) ps
        (item-ne-nil (param, val) [])

-- Plain text has no plus sign to change.
map-plus_to_space : (plus : Bool) (s : Bytes) → All IsPlain s → map (plus_to_space plus) s ≡ s
map-plus_to_space plus [] h = refl
map-plus_to_space plus (c ∷ s) h = ground (arith, map-plus_to_space plus s h.1, h.0)

read_name :
    (s rest : Bytes)
    → All IsPlain s
    → (take_while in_name (s ++ b'=' ∷ rest) ≡ s)
      × (drop_while in_name (s ++ b'=' ∷ rest) ≡ b'=' ∷ rest)
read_name s rest h =
    let passes : All (λ c. in_name c ≡ true) s = All-mono s (λ c k. rw (k.0, k.1)) h in
    (
      take_while-append in_name s (b'=' ∷ rest) passes refl,
      drop_while-append in_name s (b'=' ∷ rest) passes refl,
    )

read_value-plain :
    (plus : Bool) (s rest : Bytes)
    → All IsPlain s
    → Stops in_value rest
    → read_value plus (b'=' ∷ (s ++ rest)) ≡ (s, rest)
unfolding read_value
read_value-plain plus s rest h stop =
    let passes : All (λ c. in_value c ≡ true) s = All-mono s (λ c k. rw k.1) h in
    rw
      (take_while-append in_value s rest passes stop, drop_while-append in_value s rest passes stop)
      (ap (λ t. (t, rest)) (map-plus_to_space plus s h))

-- One round, from what its parts read.
round :
    (fuel : ℕ) (plus : Bool) (t d : Bytes) (name value rest : Bytes) (more : List (Bytes × Bytes))
    → is_empty t ≡ false
    → take_while in_name t ≡ name
    → drop_while in_name t ≡ d
    → read_value plus d ≡ (value, rest)
    → query_parameters_loop fuel plus (skip b'&' rest).1 ≡ some more
    → query_parameters_loop (suc fuel) plus t
      ≡ some ((decode (map (plus_to_space plus) name) [] false, decode value [] false) ∷ more)
unfolding query_parameters_loop
round fuel plus [] d name value rest more ne e f g h = cc
round fuel plus (c ∷ it) d name value rest more ne e f g h =
    rw (f, query_parameters_loop, g, h, e) (rw (f, g))

skip-items : (ps : List (Bytes × Bytes)) → (skip b'&' (items ps)).1 ≡ joined ps
unfolding skip items joined
skip-items [] = refl
skip-items (p ∷ ps) = refl

items-Stops : (ps : List (Bytes × Bytes)) → Stops in_value (items ps)
unfolding items
items-Stops [] = tt
items-Stops (p ∷ ps) = refl

abbrev pub AreBytes : List (Bytes × Bytes) → Type 0
AreBytes = All (λ p. IsBytes p.0 × IsBytes p.1)

is_empty_item : (s t : Bytes) (c : ℕ) → is_empty (s ++ c ∷ t) ≡ false
is_empty_item [] t c = refl
is_empty_item (d ∷ s) t c = refl

joined-cons :
    (param val : Bytes) (ps : List (Bytes × Bytes))
    → joined ((param, val) ∷ ps) ≡ coded param ++ b'=' ∷ (coded val ++ items ps)
unfolding joined item
joined-cons param val ps = append_assoc (coded param) (b'=' ∷ coded val) (items ps)

query_parameters_loop-joined :
    (fuel : ℕ) (plus : Bool) (ps : List (Bytes × Bytes))
    → length ps < fuel
    → AreBytes ps
    → query_parameters_loop fuel plus (joined ps) ≡ some ps
query_parameters_loop-joined zero plus ps h k = elim h [ ]
query_parameters_loop-joined (suc fuel) plus [] h k = unfold query_parameters_loop joined in refl
query_parameters_loop-joined (suc fuel) plus ((param, val) ∷ ps) h ((hp, hv), k) =
    let pp = coded-IsPlain param hp in
    let pv = coded-IsPlain val hv in
    let tail = coded val ++ items ps in
    let (taken, dropped) = read_name (coded param) tail pp in
    let later : query_parameters_loop fuel plus (skip b'&' (items ps)).1 ≡ some ps =
      rw (skip-items ps) (query_parameters_loop-joined fuel plus ps (omega arith) k) in
    let name : decode (map (plus_to_space plus) (coded param)) [] false ≡ param =
      ap (λ s. decode s [] false) (map-plus_to_space plus (coded param) pp)
      ∙ decode-encoding url_reserved_query_param param [] hp in
    let value : decode (coded val) [] false ≡ val =
      decode-encoding url_reserved_query_param val [] hv in
    ap (query_parameters_loop (suc fuel) plus) (joined-cons param val ps)
    ∙ round fuel plus (coded param ++ b'=' ∷ tail) (b'=' ∷ tail) (coded param) (coded val)
        (items ps) ps (is_empty_item (coded param) tail b'=') taken dropped
        (read_value-plain plus (coded val) (items ps) pv (items-Stops ps)) later
    ∙ (λ i. some ((name i, value i) ∷ ps))

length-joined : (ps : List (Bytes × Bytes)) → length ps ≤ length (items ps)
unfolding items
length-joined [] = omega arith
length-joined (p ∷ ps) = omega (arith, length-joined ps, length-append (item p) (items ps))

enough_fuel : (ps : List (Bytes × Bytes)) → length ps < suc (length (joined ps))
unfolding joined item
enough_fuel [] = omega arith
enough_fuel ((param, val) ∷ ps) = omega (
  arith,
  length-joined ps,
  length-append (coded param ++ b'=' ∷ coded val) (items ps),
  length-append (coded param) (b'=' ∷ coded val),
)

-- The parameters that `set_query_parameters` stores are the ones that `get_query_parameters` returns,
-- in order, for any names and values, the empty ones and those that hold separators included, and
-- whether or not a plus sign stands for a space; in particular the loop ends.
pub get_query_parameters-set_query_parameters :
    (u : Url) (ps : List (Bytes × Bytes)) (plus_is_space : Bool)
    → AreBytes ps
    → get_query_parameters (set_query_parameters u ps) plus_is_space ≡ some ps
unfolding get_query_parameters
get_query_parameters-set_query_parameters u ps plus_is_space h =
    rw (set_query_parameters-joined u ps)
      (query_parameters_loop-joined (suc (length (joined ps))) plus_is_space ps (enough_fuel ps) h)

-- A query or a fragment that was set is read back as it was given.
pub get_query-set_query :
    (u : Url) (s : Bytes)
    → IsBytes s
    → (get_query (set_query u s) ≡ s) × (get_fragment (set_fragment u s) ≡ s)
unfolding get_query set_query get_fragment set_fragment
get_query-set_query u s h =
    (decode-encode s url_reserved_query [] h, decode-encode s url_reserved_fragment [] h)
