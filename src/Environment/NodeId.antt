-- ===== src/Environment/NodeId.antt =====
-- The name of the node in environment.cpp.
use social_network.Prelude.{
  ℕ, zero, suc, ◌+◌, ◌*◌, ◌≤◌, ◌<◌, ◌≡◌, refl, Bool, true, false, not, ◌||◌, ◌==◌, ◌∷◌, ◌++◌,
  Option, none, some, Bytes, arith, lt→ltb, ==_self, if◌then◌else◌,
}
use mathlib.Core.Path.{subst}
use social_network.Format.{hex_byte}
use social_network.Environment.{Filled, filled, failed, id_text, fill_loop}

-- The six bytes of an address that are all below 128 are printed in full, two digits each.
pub id_text-small :
    (a b c d e f : ℕ) (rest : Bytes)
    → a < 128
    → b < 128
    → c < 128
    → d < 128
    → e < 128
    → f < 128
    → id_text (a ∷ b ∷ c ∷ d ∷ e ∷ f ∷ rest)
      ≡ hex_byte a
        ++ b':' ∷ hex_byte b
        ++ b':' ∷ hex_byte c
        ++ b':' ∷ hex_byte d
        ++ b':' ∷ hex_byte e
        ++ b':' ∷ hex_byte f
unfolding id_text
id_text-small a b c d e f rest ha hb hc hd he hf =
    rw
      (
        lt→ltb a 128 ha,
        lt→ltb b 128 hb,
        lt→ltb c 128 hc,
        lt→ltb d 128 hd,
        lt→ltb e 128 he,
        lt→ltb f 128 hf,
      )
      refl

-- One buffer more.
abbrev again : (ℕ → Filled) → ℕ → ℕ → ℕ → Filled → Option (Option ℕ)
unfolding fill_loop
again fill fuel len last_len (failed einval) =
    if not einval || not (last_len == 0)
    then some none
    else fill_loop fill fuel (len + 400) last_len
again fill fuel len last_len (filled ifc_len) =
    if ifc_len == last_len then some (some ifc_len) else fill_loop fill fuel (len + 400) ifc_len

fill_loop-again :
    (fill : ℕ → Filled) (fuel len last_len : ℕ)
    → fill_loop fill (suc fuel) len last_len ≡ again fill fuel len last_len (fill len)
unfolding fill_loop again
fill_loop-again fill fuel len last_len = go (fill len)
  where
    go :
        (answer : Filled)
        → (elim answer [
          | failed einval ↦
              if not einval || not (last_len == 0)
              then some none
              else fill_loop fill fuel (len + 10 * 40) last_len
          | filled ifc_len ↦
              if ifc_len == last_len
              then some (some ifc_len)
              else fill_loop fill fuel (len + 10 * 40) ifc_len
        ])
          ≡ again fill fuel len last_len answer
    go (failed einval) = refl
    go (filled ifc_len) = refl

-- A loop that gives an answer, or that would on a further buffer.
abbrev pub Ends : Option (Option ℕ) → Type 0
Ends none = ⊥
Ends (some r) = Unit {0}

Ends-if :
    (b : Bool) (r : Option ℕ) (o : Option (Option ℕ)) → Ends o → Ends (if b then some r else o)
Ends-if true r o h = tt
Ends-if false r o h = h

again-Ends :
    (fill : ℕ → Filled) (fuel len last_len : ℕ) (answer : Filled)
    → ((l : ℕ) → Ends (fill_loop fill fuel (len + 400) l))
    → Ends (again fill fuel len last_len answer)
unfolding again
again-Ends fill fuel len last_len (failed einval) h =
    Ends-if (not einval || not (last_len == 0)) none _ (h last_len)
again-Ends fill fuel len last_len (filled ifc_len) h =
    Ends-if (ifc_len == last_len) (some ifc_len) _ (h ifc_len)

constant-Ends :
    (fill : ℕ → Filled) (fuel len last_len ifc_len : ℕ)
    → fill len ≡ filled ifc_len
    → fill (len + 400) ≡ filled ifc_len
    → Ends (fill_loop fill (suc (suc fuel)) len last_len)
constant-Ends fill fuel len last_len ifc_len e e' =
    rw (fill_loop-again fill (suc fuel) len last_len, e)
      (unfold again in
        Ends-if (ifc_len == last_len) (some ifc_len) _ (
          rw (fill_loop-again fill fuel (len + 400) ifc_len, e')
            (unfold again in rw (==_self ifc_len) tt)))

-- The search for a buffer that is large enough ends: if the answer is the same from the `n`-th buffer
-- on, there are at most `n + 2` of them, whatever was answered before.
pub fill_loop-Ends :
    (fill : ℕ → Filled) (n fuel len last_len ifc_len : ℕ)
    → ((k : ℕ) → n ≤ k → fill (len + k * 400) ≡ filled ifc_len)
    → n + 2 ≤ fuel
    → Ends (fill_loop fill fuel len last_len)
fill_loop-Ends fill n zero len last_len ifc_len h e = ground arith
fill_loop-Ends fill n (suc zero) len last_len ifc_len h e = ground arith
fill_loop-Ends fill zero (suc (suc fuel)) len last_len ifc_len h e =
    let here : len + 0 * 400 ≡ len = omega arith in
    let next : len + 1 * 400 ≡ len + 400 = omega arith in
    constant-Ends fill fuel len last_len ifc_len
      (subst (λ l. fill l ≡ filled ifc_len) here (h 0 (omega arith)))
      (subst (λ l. fill l ≡ filled ifc_len) next (h 1 (omega arith)))
fill_loop-Ends fill (suc n) (suc (suc fuel)) len last_len ifc_len h e =
    rw (fill_loop-again fill (suc fuel) len last_len) (
      again-Ends fill (suc fuel) len last_len (fill len) (λ l.
        fill_loop-Ends fill n (suc fuel) (len + 400) l ifc_len
          (λ k hk.
            let shift : len + suc k * 400 ≡ len + 400 + k * 400 = omega arith in
            subst (λ m. fill m ≡ filled ifc_len) shift (h (suc k) (omega arith)))
          (omega arith)))
