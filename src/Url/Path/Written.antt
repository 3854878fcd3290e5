-- ===== src/Url/Path/Written.antt =====
-- The text of a path as url.cpp builds it, and its segments read back.
use social_network.Prelude.{
  ◌≡◌, refl, sym, ap, ◌∙◌, Bool, true, false, not, ◌&&◌, List, [], ◌∷◌, ◌++◌, ◌==◌, append_assoc,
  append-nil, if◌then◌else◌, Bytes, codes, has, has-append, is_empty, All, All-append, arith,
  Bool-cases, inl, inr,
}
use social_network.Url.Model.{Url}
use social_network.Url.Path.{dot, push_segment, segments_loop, build_loop, build_path}

-- A segment has a byte, and no slash.
abbrev pub IsSegment : Bytes → Type 0
IsSegment s = (is_empty s ≡ false) × (has b'/' s ≡ false)

abbrev pub AreSegments : List Bytes → Type 0
AreSegments = All IsSegment

-- The segments, each with a slash before it.
abbrev pub slashed : List Bytes → Bytes
slashed [] = []
slashed (s ∷ segments) = b'/' ∷ (s ++ slashed segments)

-- What stands before the first segment: the slash, or a dot where the segment would look like a scheme.
abbrev pub lead : Bool → Bool → Bytes → Bytes
lead leading_slash no_scheme s =
    if leading_slash then b'/' ∷ [] else if no_scheme && has b':' s then codes "./" else []

-- A path: the lead, the segments with a slash between each two, and the slash at the end.
abbrev pub written_path : Bool → Bool → Bool → List Bytes → Bytes
written_path leading_slash trailing_slash no_scheme [] = if trailing_slash then b'/' ∷ [] else []
written_path leading_slash trailing_slash no_scheme (s ∷ segments) =
    lead leading_slash no_scheme s
    ++ (s ++ (slashed segments ++ (if trailing_slash then b'/' ∷ [] else [])))

build_loop-slashed :
    (u : Url) (leading_slash : Bool) (segments : List Bytes) (path : Bytes)
    → build_loop u leading_slash false segments path ≡ path ++ slashed segments
unfolding build_loop
build_loop-slashed u leading_slash [] path = sym (append-nil path)
build_loop-slashed u leading_slash (s ∷ segments) path =
    build_loop-slashed u leading_slash segments ((path ++ b'/' ∷ []) ++ s)
    ∙ append_assoc (path ++ b'/' ∷ []) s (slashed segments)
    ∙ append_assoc path (b'/' ∷ []) (s ++ slashed segments)

pub build_path-written_path :
    (u : Url) (segments : List Bytes) (leading_slash trailing_slash : Bool)
    → build_path u segments leading_slash trailing_slash
      ≡ record u { path = written_path leading_slash trailing_slash (is_empty u.scheme) segments }
unfolding build_path build_loop
build_path-written_path u [] leading_slash true = refl
build_path-written_path u [] leading_slash false = refl
build_path-written_path u (s ∷ segments) leading_slash true =
    let before = lead leading_slash (is_empty u.scheme) s in
    let end = b'/' ∷ [] in
    ap (λ path. record u { path = path })
      (ap (λ path. path ++ end)
          (build_loop-slashed u leading_slash segments (before ++ s)
            ∙ append_assoc before s (slashed segments))
        ∙ append_assoc before (s ++ slashed segments) end
        ∙ ap (λ path. before ++ path) (append_assoc s (slashed segments) end))
build_path-written_path u (s ∷ segments) leading_slash false =
    let before = lead leading_slash (is_empty u.scheme) s in
    ap (λ path. record u { path = path })
      (build_loop-slashed u leading_slash segments (before ++ s)
        ∙ append_assoc before s (slashed segments)
        ∙ ap (λ path. before ++ (s ++ path)) (sym (append-nil (slashed segments))))

-- Reading: a segment is read to its end, and the segments behind it.
segments_loop-append :
    (segments : List Bytes) (seg s rest : Bytes)
    → has b'/' s ≡ false
    → segments_loop segments seg (s ++ rest) ≡ segments_loop segments (seg ++ s) rest
unfolding segments_loop has
segments_loop-append segments seg [] rest h =
    ap (λ t. segments_loop segments t rest) (sym (append-nil seg))
segments_loop-append segments seg (c ∷ s) rest h =
    let other : (c == b'/') ≡ false = ground arith in
    rw (segments_loop, other)
      (segments_loop-append segments (seg ++ c ∷ []) s rest (ground arith)
        ∙ ap (λ t. segments_loop segments t rest) (append_assoc seg (c ∷ []) s))

AreSegments-push :
    (segments : List Bytes) (seg : Bytes)
    → AreSegments segments
    → has b'/' seg ≡ false
    → AreSegments (push_segment segments seg)
AreSegments-push segments [] h k = h
AreSegments-push segments (c ∷ seg) h k =
    All-append IsSegment segments ((c ∷ seg) ∷ []) h ((refl, k), tt)

pub segments_loop-AreSegments :
    (segments : List Bytes) (seg it : Bytes)
    → AreSegments segments
    → has b'/' seg ≡ false
    → AreSegments (segments_loop segments seg it)
unfolding segments_loop
segments_loop-AreSegments segments seg [] h k = AreSegments-push segments seg h k
segments_loop-AreSegments segments seg (c ∷ it) h k = elim (Bool-cases (c == b'/')) [
  | inl e ↦ rw e (
      segments_loop-AreSegments (push_segment segments seg) [] it
        (AreSegments-push segments seg h k) (unfold has in refl))
  | inr e ↦
      let whole : has b'/' (seg ++ c ∷ []) ≡ false =
        has-append b'/' seg (c ∷ []) ∙ (unfold has in ground arith) in
      rw e (segments_loop-AreSegments segments (seg ++ c ∷ []) it h whole)
]

push_segment-some :
    (segments : List Bytes) (seg : Bytes)
    → IsSegment seg
    → push_segment segments seg ≡ segments ++ seg ∷ []
push_segment-some segments seg h = rw (h.0) refl

segments_loop-slashed :
    (segments : List Bytes) (seg : Bytes) (more : List Bytes) (trailing_slash : Bool)
    → IsSegment seg
    → AreSegments more
    → segments_loop segments seg (slashed more ++ (if trailing_slash then b'/' ∷ [] else []))
      ≡ segments ++ seg ∷ more
unfolding segments_loop
segments_loop-slashed segments seg [] true h hs = push_segment-some segments seg h
segments_loop-slashed segments seg [] false h hs = push_segment-some segments seg h
segments_loop-slashed segments seg (s ∷ more) t h (hs, rest) =
    let end = if t then b'/' ∷ [] else [] in
    ap (λ before. segments_loop before [] ((s ++ slashed more) ++ end))
      (push_segment-some segments seg h)
    ∙ ap (segments_loop (segments ++ seg ∷ []) []) (append_assoc s (slashed more) end)
    ∙ segments_loop-append (segments ++ seg ∷ []) [] s (slashed more ++ end) hs.1
    ∙ segments_loop-slashed (segments ++ seg ∷ []) s more t hs rest
    ∙ append_assoc segments (seg ∷ []) (s ∷ more)

from_segment :
    (before : List Bytes) (s : Bytes) (segments : List Bytes) (trailing_slash : Bool)
    → IsSegment s
    → AreSegments segments
    → segments_loop before []
        (s ++ (slashed segments ++ (if trailing_slash then b'/' ∷ [] else [])))
      ≡ before ++ s ∷ segments
from_segment before s segments t h hs =
    segments_loop-append before [] s (slashed segments ++ (if t then b'/' ∷ [] else [])) h.1
    ∙ segments_loop-slashed before s segments t h hs

-- The segments of a path, and the dot before a first one that looks like a scheme.
abbrev pub with_dot : Bool → Bool → List Bytes → List Bytes
with_dot leading_slash no_scheme [] = []
with_dot leading_slash no_scheme (s ∷ segments) =
    if not leading_slash && (no_scheme && has b':' s) then dot ∷ s ∷ segments else s ∷ segments

pub segments_loop-written_path :
    (leading_slash trailing_slash no_scheme : Bool) (segments : List Bytes)
    → AreSegments segments
    → segments_loop [] [] (written_path leading_slash trailing_slash no_scheme segments)
      ≡ with_dot leading_slash no_scheme segments
unfolding segments_loop
segments_loop-written_path l true h [] a = refl
segments_loop-written_path l false h [] a = refl
segments_loop-written_path true t h (s ∷ segments) (a, more) = from_segment [] s segments t a more
segments_loop-written_path false t false (s ∷ segments) (a, more) =
    from_segment [] s segments t a more
segments_loop-written_path false t true (s ∷ segments) (a, more) = elim (Bool-cases (has b':' s)) [
  | inl e ↦ rw e (from_segment (dot ∷ []) s segments t a more)
  | inr e ↦ rw e (from_segment [] s segments t a more)
]
