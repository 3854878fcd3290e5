-- ===== src/ConnectionPool/Ownership.antt =====
-- Which connections are whose, over any interleaving of scoped connections.
use mathlib.Core.List.{Perm, perm_middle}
use mathlib.Core.List.Perm
use social_network.Prelude.{
  ℕ, ◌<◌, ◌≡◌, refl, ◌∙◌, inl, inr, ◌&&◌, List, [], ◌∷◌, ◌++◌, append_assoc, none, some, arith,
  ◌==◌, Bool-cases, length, All, All-append, All-append_split, All-mono,
}
use social_network.ConnectionPool.{
  NodeType, Node, ConnectionPool, TypeNumTagConnection, Service, nodes, get_connection, Step,
  acquires, throws, releases, Reach, here, next,
}
use social_network.ConnectionPool.Slots.{
  same_type, same_place, idle, held, owned, HandsOut, PutsBack, release_connection-PutsBack,
}
use social_network.ConnectionPool.Routing.{
  served, next_num, get_connection-Served, get_connection-none,
}

module _ {C : Type 0} where
  -- The node of a scoped connection is in the pool.
  abbrev pub AreValid : ConnectionPool C → List (TypeNumTagConnection C) → Type 0
  AreValid p = All (λ l. l.node_num < length (nodes l.node_type p))

  held-append :
      (t : NodeType) (i : ℕ) (xs ys : List (TypeNumTagConnection C))
      → held t i (xs ++ ys) ≡ held t i xs ++ held t i ys
  unfolding held
  held-append t i [] ys = refl
  held-append t i (l ∷ xs) ys = ground (arith, held-append t i xs ys)

  -- What a request gives, in terms of the node that it went to.
  pub get_connection-HandsOut :
      (preferred : NodeType) (p q : ConnectionPool C) (l : TypeNumTagConnection C)
      → get_connection preferred p ≡ (q, some l)
      → HandsOut (served preferred p) (next_num (served preferred p) p) p q l
  get_connection-HandsOut preferred p q l e = go (nodes (served preferred p) p) refl
    where
      go :
          (ns : List (Node C))
          → nodes (served preferred p) p ≡ ns
          → HandsOut (served preferred p) (next_num (served preferred p) p) p q l
      go [] h = cc (get_connection-none preferred p h)
      go (n ∷ ns) h = rw e at (get_connection-Served preferred p (λ k. cc)).1

  -- A request that throws leaves all queues as they are.
  pub get_connection_throws :
      (preferred : NodeType) (p q : ConnectionPool C)
      → get_connection preferred p ≡ (q, none)
      → ((t : NodeType) (i : ℕ) → idle t i q ≡ idle t i p)
        × ((t : NodeType) → length (nodes t q) ≡ length (nodes t p))
  get_connection_throws preferred p q e = go (nodes (served preferred p) p) refl
    where
      go :
          (ns : List (Node C))
          → nodes (served preferred p) p ≡ ns
          → ((t : NodeType) (i : ℕ) → idle t i q ≡ idle t i p)
            × ((t : NodeType) → length (nodes t q) ≡ length (nodes t p))
      go [] h =
          let same : q ≡ p = cc (get_connection-none preferred p h) in
          rw same (λ t i. refl, λ t. refl)
      go (n ∷ ns) h =
          let (_, queues, lengths) = rw e at (get_connection-Served preferred p (λ k. cc)).1 in
          (queues, lengths)

  HandsOut-owned :
      (t : NodeType) (num : ℕ) (p q : ConnectionPool C) (l : TypeNumTagConnection C)
      → HandsOut t num p q l
      → (ls : List (TypeNumTagConnection C)) (t' : NodeType) (i : ℕ)
      → Perm (idle t' i q ++ held t' i (l ∷ ls)) (idle t' i p ++ held t' i ls)
  unfolding held
  HandsOut-owned t num p q l h ls t' i = elim (Bool-cases (same_type t t' && num == i)) [
    | inl e ↦
        rw (h.node_type_is, h.node_num_is, e, h.others t' i)
          (rw (e, same_place t t' num i p e, h.front) (perm_middle (idle t num q) (held t' i ls)))
    | inr e ↦ rw (h.node_type_is, h.node_num_is, e, h.others t' i) (rw e (Perm.refl _))
  ]

  PutsBack-owned :
      (p q : ConnectionPool C) (l : TypeNumTagConnection C)
      → PutsBack p q l
      → (xs ys : List (TypeNumTagConnection C)) (t : NodeType) (i : ℕ)
      → Perm (idle t i q ++ held t i (xs ++ ys)) (idle t i p ++ held t i (xs ++ (l ∷ ys)))
  PutsBack-owned p q l h xs ys t i =
      elim (Bool-cases (same_type l.node_type t && l.node_num == i)) [
        | inl e ↦
            rw (h.queues t i, e, held-append t i xs ys, held-append t i xs (l ∷ ys))
              (unfold held in
                rw e (
                  rw (append_assoc (idle t i p) (l.conn ∷ []) (held t i xs ++ held t i ys)) (
                    Perm.append_left (idle t i p)
                      (Perm.symm (perm_middle (held t i xs) (held t i ys))))))
        | inr e ↦
            rw (h.queues t i, e, held-append t i xs ys, held-append t i xs (l ∷ ys))
              (unfold held in rw e (Perm.refl _))
      ]

  AreValid-mono :
      (p q : ConnectionPool C) (ls : List (TypeNumTagConnection C))
      → ((t : NodeType) → length (nodes t q) ≡ length (nodes t p))
      → AreValid p ls
      → AreValid q ls
  AreValid-mono p q ls h = All-mono ls (λ l k. rw (h l.node_type) k)

  valid_at :
      (p : ConnectionPool C) (xs : List (TypeNumTagConnection C)) (l : TypeNumTagConnection C)
      (ys ls : List (TypeNumTagConnection C))
      → ls ≡ xs ++ (l ∷ ys)
      → AreValid p ls
      → AreValid p (xs ++ ys) × (l.node_num < length (nodes l.node_type p))
  valid_at p xs l ys ls e h =
      let (before, after) = All-append_split _ xs (l ∷ ys) (rw e at h) in
      (All-append _ xs ys before after.1, after.0)

  -- A step of any worker.
  record Kept (s u : Service C) : Type 0 where
    valid : AreValid u.pool u.scoped
    lengths : (t : NodeType) → length (nodes t u.pool) ≡ length (nodes t s.pool)
    same : (t : NodeType) (i : ℕ) → Perm (owned t i u) (owned t i s)

  Step-Kept : {s u : Service C} → Step s u → AreValid s.pool s.scoped → Kept s u
  Step-Kept {s} (acquires {p = q} {l} preferred e) v =
      let h = get_connection-HandsOut preferred s.pool q l e in
      record {
        valid = (
          rw (h.node_num_is, h.node_type_is, h.lengths (served preferred s.pool)) h.in_range,
          AreValid-mono s.pool q s.scoped h.lengths v,
        );
        lengths = h.lengths;
        same = HandsOut-owned _ _ s.pool q l h s.scoped;
      }
  Step-Kept {s} (throws {p = q} preferred e) v =
      let h = get_connection_throws preferred s.pool q e in
      record {
        valid = AreValid-mono s.pool q s.scoped h.1 v;
        lengths = h.1;
        same = λ t i. rw (h.0 t i) (Perm.refl _);
      }
  Step-Kept {s} (releases before l after e) v =
      let (valid, here_valid) = valid_at s.pool before l after s.scoped e v in
      let h = release_connection-PutsBack s.pool l here_valid in
      record {
        valid = AreValid-mono s.pool _ _ h.lengths valid;
        lengths = h.lengths;
        same = λ t i. rw e (PutsBack-owned s.pool _ l h before after t i);
      }

  Reach-Kept : {s u : Service C} → Reach s u → AreValid s.pool s.scoped → Kept s u
  Reach-Kept {s} here v = record { valid = v; lengths = λ t. refl; same = λ t i. Perm.refl _ }
  Reach-Kept {s} (next {t} r st) v =
      let k = Reach-Kept r v in
      let k' = Step-Kept st k.valid in
      record {
        valid = k'.valid;
        lengths = λ t. k'.lengths t ∙ k.lengths t;
        same = λ t i. Perm.trans (k'.same t i) (k.same t i);
      }

  -- From a state in which what is held belongs to nodes of the pool, no interleaving of scoped
  -- connections, exceptions included, loses a connection, makes one up or moves one to another node:
  -- what is in the queue of a node or held from it is at all times a permutation of what it was at
  -- the start.
  pub Reach-owned :
      {s u : Service C}
      → Reach s u
      → AreValid s.pool s.scoped
      → (t : NodeType) (i : ℕ) → Perm (owned t i u) (owned t i s)
  Reach-owned r v = (Reach-Kept r v).same

  pub Reach-lengths :
      {s u : Service C}
      → Reach s u
      → AreValid s.pool s.scoped
      → (t : NodeType) → length (nodes t u.pool) ≡ length (nodes t s.pool)
  Reach-lengths r v = (Reach-Kept r v).lengths
