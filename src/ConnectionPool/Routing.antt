-- ===== src/ConnectionPool/Routing.antt =====
-- Which node a request of a connection goes to.
use social_network.Prelude.{
  ℕ, zero, suc, ◌+◌, ◌%◌, ◌≡◌, ◌≢◌, refl, sym, ap, ◌∙◌, inl, inr, false, not, ◌&&◌, List, [], ◌∷◌,
  Option, none, some, arith, Bool-cases, if◌then◌else◌, length, is_empty,
}
use social_network.ConnectionPool.{
  NodeType, master, replica, is_replica, Node, ConnectionPool, TypeNumTagConnection, nodes,
  hand_out, get_connection,
}
use social_network.ConnectionPool.Slots.{
  hand_out-counters, same_type, idle, HandsOut, HandOutOutcome, hand_out-Outcome,
}

module _ {C : Type 0} where
  -- Replicas serve whoever prefers them, if there are any; the masters serve all others.
  unfoldable pub served : NodeType → ConnectionPool C → NodeType
  unfolding is_replica
  served preferred p = if not (is_empty p.replicas) && is_replica preferred then replica else master

  abbrev pub counter : NodeType → ConnectionPool C → ℕ
  counter master p = p.last_used_master_num
  counter replica p = p.last_used_replica_num

  abbrev pub set_counter : NodeType → ℕ → ConnectionPool C → ConnectionPool C
  set_counter master n p = record p { last_used_master_num = n }
  set_counter replica n p = record p { last_used_replica_num = n }

  -- The node behind the one that was used last, round and round.
  abbrev pub next_num : NodeType → ConnectionPool C → ℕ
  next_num t p = (counter t p + 1) % length (nodes t p)

  pub nodes-set_counter :
      (t : NodeType) (n : ℕ) (p : ConnectionPool C) (t' : NodeType)
      → nodes t' (set_counter t n p) ≡ nodes t' p
  nodes-set_counter master n p master = refl
  nodes-set_counter master n p replica = refl
  nodes-set_counter replica n p master = refl
  nodes-set_counter replica n p replica = refl

  counter-set_counter :
      (t : NodeType) (n : ℕ) (p : ConnectionPool C) (t' : NodeType)
      → counter t' (set_counter t n p) ≡ (if same_type t t' then n else counter t' p)
  unfolding same_type
  counter-set_counter master n p master = refl
  counter-set_counter master n p replica = refl
  counter-set_counter replica n p master = refl
  counter-set_counter replica n p replica = refl

  get_connection-hand_out :
      (preferred : NodeType) (p : ConnectionPool C)
      → nodes (served preferred p) p ≢ []
      → get_connection preferred p
        ≡ hand_out
            (served preferred p)
            (next_num (served preferred p) p)
            (set_counter (served preferred p) (next_num (served preferred p) p) p)
  unfolding get_connection served
  get_connection-hand_out preferred p h =
      elim (Bool-cases (not (is_empty p.replicas) && is_replica preferred)) [
        | inl e ↦ rw e
        | inr e ↦ rw e (let f : is_empty p.masters ≡ false = go p.masters (rw e at h) in rw f)
      ]
    where
      go : (ns : List (Node C)) → ns ≢ [] → is_empty ns ≡ false
      go [] k = absurd (k refl)
      go (n ∷ ns) k = refl

  pub get_connection-none :
      (preferred : NodeType) (p : ConnectionPool C)
      → nodes (served preferred p) p ≡ []
      → get_connection preferred p ≡ (p, none)
  unfolding get_connection served
  get_connection-none preferred p h =
      elim (Bool-cases (not (is_empty p.replicas) && is_replica preferred)) [
        | inl e ↦ ground (arith, e)
        | inr e ↦ ground (arith, e)
      ]

  idle-set_counter :
      (t : NodeType) (n : ℕ) (p : ConnectionPool C) (t' : NodeType) (i : ℕ)
      → idle t' i (set_counter t n p) ≡ idle t' i p
  idle-set_counter t n p t' i = rw (nodes-set_counter t n p t')

  abbrev pub Served :
      NodeType → ℕ → ConnectionPool C → ConnectionPool C → Option (TypeNumTagConnection C) → Type 0
  Served t num p q none =
      (idle t num p ≡ [])
      × ((t' : NodeType) (i : ℕ) → idle t' i q ≡ idle t' i p)
      × ((t' : NodeType) → length (nodes t' q) ≡ length (nodes t' p))
  Served t num p q (some l) = HandsOut t num p q l

  abbrev pub MovesOn : NodeType → ConnectionPool C → ConnectionPool C → Type 0
  MovesOn t p q =
      (t' : NodeType) → counter t' q ≡ (if same_type t t' then next_num t p else counter t' p)

  Served-set_counter :
      (t : NodeType) (num : ℕ) (p q : ConnectionPool C) (r : Option (TypeNumTagConnection C))
      → HandOutOutcome t num (set_counter t num p) (q, r)
      → Served t num p q r
  Served-set_counter t num p q none (e, h) = (
    sym (idle-set_counter t num p t num) ∙ h,
    λ t' i. ap (idle t' i) e ∙ idle-set_counter t num p t' i,
    λ t'. ap (λ c. length (nodes t' c)) e ∙ ap length (nodes-set_counter t num p t'),
  )
  Served-set_counter t num p q (some l) h = record {
    node_type_is = h.node_type_is;
    node_num_is = h.node_num_is;
    in_range = rw (nodes-set_counter t num p t) at h.in_range;
    front = sym (idle-set_counter t num p t num) ∙ h.front;
    others = λ t' i. rw (idle-set_counter t num p t' i) at (h.others t' i);
    lengths = λ t'. h.lengths t' ∙ ap length (nodes-set_counter t num p t');
  }

  counter-hand_out :
      (t : NodeType) (num : ℕ) (p : ConnectionPool C) (t' : NodeType)
      → counter t' (hand_out t num p).0 ≡ counter t' p
  counter-hand_out t num p master = (hand_out-counters t num p).0
  counter-hand_out t num p replica = (hand_out-counters t num p).1

  -- With a node of the type that serves the request, `get_connection` moves the counter of that
  -- type on by one node, round and round, and no other counter, also where it throws. It hands out
  -- the front of the queue of exactly that node and leaves all other queues as they are; it throws
  -- only if that queue is empty, and then changes no queue.
  pub get_connection-Served :
      (preferred : NodeType) (p : ConnectionPool C)
      → nodes (served preferred p) p ≢ []
      → MovesOn (served preferred p) p (get_connection preferred p).0
        × Served
            (served preferred p)
            (next_num (served preferred p) p)
            p
            (get_connection preferred p).0
            (get_connection preferred p).1
  get_connection-Served preferred p h =
      let t = served preferred p in
      let num = next_num t p in
      let p' = set_counter t num p in
      rw (get_connection-hand_out preferred p h) (
        λ t'. counter-hand_out t num p' t' ∙ counter-set_counter t num p t',
        Served-set_counter t num p (hand_out t num p').0 (hand_out t num p').1
            (hand_out-Outcome t num p'),
      )

  -- Requests with one preference, whether or not they get a connection.
  unfoldable pub gets : ℕ → NodeType → ConnectionPool C → ConnectionPool C
  gets zero preferred p = p
  gets (suc k) preferred p = gets k preferred (get_connection preferred p).0

  is_empty-length : (xs ys : List (Node C)) → length xs ≡ length ys → is_empty xs ≡ is_empty ys
  is_empty-length [] [] h = refl
  is_empty-length [] (y ∷ ys) h = absurd (omega arith)
  is_empty-length (x ∷ xs) [] h = absurd (omega arith)
  is_empty-length (x ∷ xs) (y ∷ ys) h = refl

  Served-lengths :
      (t : NodeType) (num : ℕ) (p q : ConnectionPool C) (r : Option (TypeNumTagConnection C))
      → Served t num p q r
      → (t' : NodeType) → length (nodes t' q) ≡ length (nodes t' p)
  Served-lengths t num p q none h = h.2
  Served-lengths t num p q (some l) h = h.lengths

  pub get_connection-lengths :
      (preferred : NodeType) (p : ConnectionPool C) (t' : NodeType)
      → length (nodes t' (get_connection preferred p).0) ≡ length (nodes t' p)
  get_connection-lengths preferred p t' = go (nodes (served preferred p) p) refl
    where
      go :
          (ns : List (Node C))
          → nodes (served preferred p) p ≡ ns
          → length (nodes t' (get_connection preferred p).0) ≡ length (nodes t' p)
      go [] e = rw (get_connection-none preferred p e)
      go (n ∷ ns) e =
          Served-lengths _ _ p _ (get_connection preferred p).1
            (get_connection-Served preferred p (λ k. cc)).1 t'

  pub get_connection-served :
      (preferred preferred' : NodeType) (p : ConnectionPool C)
      → served preferred (get_connection preferred' p).0 ≡ served preferred p
  unfolding served
  get_connection-served preferred preferred' p = rw (
      is_empty-length (get_connection preferred' p).0.replicas p.replicas
        (get_connection-lengths preferred' p replica))
