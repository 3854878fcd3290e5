-- ===== src/SocketAddress/Split.antt =====
-- `split_to_host_and_port` of socket_address.cpp.
use social_network.Prelude.{
  ◌≡◌, ◌≢◌, refl, ◌∙◌, Bool, true, false, [], ◌∷◌, ◌++◌, some, ◌==◌, Bytes, is_empty,
  take_while-append, drop_while-append, All,
}
use social_network.SocketAddress.{
  in_brackets, before_colon, port_text, both_given, behind_bracket, split_to_host_and_port,
}

full : (s : Bytes) → s ≢ [] → is_empty s ≡ false
full [] h = absurd (h refl)
full (c ∷ s) h = refl

both_given-full :
    (host port : Bytes) → host ≢ [] → port ≢ [] → both_given host port ≡ some (host, port)
both_given-full host port h p = rw (both_given, full host h, full port p) refl

abbrev pub starts_bracket : Bytes → Bool
starts_bracket [] = false
starts_bracket (c ∷ s) = c == b'['

split_plain :
    (host port : Bytes)
    → host ≢ []
    → port ≢ []
    → All (λ c. before_colon c ≡ true) host
    → starts_bracket host ≡ false
    → split_to_host_and_port (host ++ b':' ∷ port) ≡ some (host, port)
unfolding split_to_host_and_port
split_plain [] port h p k b = absurd (h refl)
split_plain (c ∷ host) port h p k b =
    let front = take_while-append before_colon (c ∷ host) (b':' ∷ port) k refl in
    let rest = drop_while-append before_colon (c ∷ host) (b':' ∷ port) k refl in
    rw (split_to_host_and_port, b)
      ((λ i. both_given (front i) (port_text (rest i))) ∙ both_given-full (c ∷ host) port h p)

split_bracketed :
    (host port : Bytes)
    → host ≢ []
    → port ≢ []
    → All (λ c. in_brackets c ≡ true) host
    → split_to_host_and_port (b'[' ∷ (host ++ b']' ∷ b':' ∷ port)) ≡ some (host, port)
unfolding split_to_host_and_port
split_bracketed host port h p k =
    let front = take_while-append in_brackets host (b']' ∷ b':' ∷ port) k refl in
    let rest = drop_while-append in_brackets host (b']' ∷ b':' ∷ port) k refl in
    (λ i. behind_bracket (front i) (rest i)) ∙ both_given-full host port h p

-- The two ways to write a host and a port, and what a host may hold in each.
abbrev pub joined : Bool → Bytes → Bytes → Bytes
joined true host port = b'[' ∷ (host ++ b']' ∷ b':' ∷ port)
joined false host port = host ++ b':' ∷ port

abbrev pub IsHost : Bool → Bytes → Type 0
IsHost true host = All (λ c. in_brackets c ≡ true) host
IsHost false host = All (λ c. before_colon c ≡ true) host × (starts_bracket host ≡ false)

-- A host and a port are split where they were joined: behind the closing bracket if the host stands
-- in brackets and holds no closing one, and otherwise at the colon if the host has none and begins
-- with no bracket. Neither is empty.
pub split_to_host_and_port-joined :
    (bracketed : Bool) (host port : Bytes)
    → host ≢ []
    → port ≢ []
    → IsHost bracketed host
    → split_to_host_and_port (joined bracketed host port) ≡ some (host, port)
split_to_host_and_port-joined true host port h p k = split_bracketed host port h p k
split_to_host_and_port-joined false host port h p (k, b) = split_plain host port h p k b
