-- ===== src/ConnectionPool/Slots.antt =====
-- The connections of one node: those in its queue, and those that scoped connections hold.
use social_network.Prelude.{
  ℕ, zero, suc, ◌<◌, ◌≡◌, refl, sym, ap, ◌∙◌, inl, inr, Bool, true, false, ◌&&◌, List, [], ◌∷◌,
  ◌++◌, Option, none, some, arith, ◌==◌, lt→ltb, Bool-cases, Option-cases, if◌then◌else◌, length,
  get_elem?, set, length-set,
}
use social_network.ConnectionPool.{
  NodeType, master, replica, Node, ConnectionPool, TypeNumTagConnection, Service, nodes, set_nodes,
  take_front, hand_out, push_back, release_connection,
}

unfoldable pub same_type : NodeType → NodeType → Bool
same_type master master = true
same_type master replica = false
same_type replica master = false
same_type replica replica = true

pub same_type_self : (t : NodeType) → same_type t t ≡ true
unfolding same_type
same_type_self master = refl
same_type_self replica = refl

get_elem?-set :
    {A : Type 0} (xs : List A) (i j : ℕ) (v : A)
    → i < length xs
    → get_elem? (set xs i v) j ≡ (if i == j then some v else get_elem? xs j)
get_elem?-set [] i j v h = elim h [ ]
get_elem?-set (x ∷ xs) zero zero v h = ground arith
get_elem?-set (x ∷ xs) zero (suc j) v h = ground arith
get_elem?-set (x ∷ xs) (suc i) zero v h = ground arith
get_elem?-set (x ∷ xs) (suc i) (suc j) v h = ground (arith, get_elem?-set xs i j v (omega arith))

pub get_elem?-some :
    {A : Type 0} (xs : List A) (i : ℕ) → i < length xs → (x : A) × (get_elem? xs i ≡ some x)
get_elem?-some [] i h = elim h [ ]
get_elem?-some (x ∷ xs) zero h = (x, refl)
get_elem?-some (x ∷ xs) (suc i) h = get_elem?-some xs i (omega arith)

pub get_elem?-lt :
    {A : Type 0} (xs : List A) (i : ℕ) {x : A} → get_elem? xs i ≡ some x → i < length xs
get_elem?-lt [] i h = cc
get_elem?-lt (x ∷ xs) zero h = omega arith
get_elem?-lt (x ∷ xs) (suc i) h = omega (arith, get_elem?-lt xs i h)

module _ {C : Type 0} where
  abbrev pub conns_of : Option (Node C) → List C
  conns_of none = []
  conns_of (some entry) = entry.conn_pool

  -- The queue of node `i` of type `t`.
  abbrev pub idle : NodeType → ℕ → ConnectionPool C → List C
  idle t i p = conns_of (get_elem? (nodes t p) i)

  -- What is out of that node.
  unfoldable pub held : NodeType → ℕ → List (TypeNumTagConnection C) → List C
  held t i [] = []
  held t i (l ∷ ls) =
      if same_type l.node_type t && l.node_num == i then l.conn ∷ held t i ls else held t i ls

  abbrev pub owned : NodeType → ℕ → Service C → List C
  owned t i s = idle t i s.pool ++ held t i s.scoped

  pub idle-set_nodes :
      (t : NodeType) (num : ℕ) (p : ConnectionPool C) (v : Node C) (t' : NodeType) (i : ℕ)
      → num < length (nodes t p)
      → idle t' i (set_nodes t (set (nodes t p) num v) p)
        ≡ (if same_type t t' && num == i then v.conn_pool else idle t' i p)
  unfolding same_type
  idle-set_nodes master num p v master i h = ground (arith, get_elem?-set p.masters num i v h)
  idle-set_nodes master num p v replica i h = refl
  idle-set_nodes replica num p v master i h = refl
  idle-set_nodes replica num p v replica i h = ground (arith, get_elem?-set p.replicas num i v h)

  pub length-set_nodes :
      (t : NodeType) (num : ℕ) (p : ConnectionPool C) (v : Node C) (t' : NodeType)
      → length (nodes t' (set_nodes t (set (nodes t p) num v) p)) ≡ length (nodes t' p)
  length-set_nodes master num p v master = length-set p.masters num v
  length-set_nodes master num p v replica = refl
  length-set_nodes replica num p v master = refl
  length-set_nodes replica num p v replica = length-set p.replicas num v

  -- What a connection that was handed out says of the pool before and after.
  pub record HandsOut (t : NodeType) (num : ℕ) (p q : ConnectionPool C) (l : TypeNumTagConnection C)
      : Type 0 where
    pub node_type_is : l.node_type ≡ t
    pub node_num_is : l.node_num ≡ num
    pub in_range : num < length (nodes t p)
    pub front : idle t num p ≡ l.conn ∷ idle t num q
    pub others :
        (t' : NodeType) (i : ℕ)
        → idle t' i q ≡ (if same_type t t' && num == i then idle t num q else idle t' i p)
    pub lengths : (t' : NodeType) → length (nodes t' q) ≡ length (nodes t' p)

  abbrev pub HandOutOutcome :
      NodeType → ℕ → ConnectionPool C → ConnectionPool C × Option (TypeNumTagConnection C) → Type 0
  HandOutOutcome t num p (q, none) = (q ≡ p) × (idle t num p ≡ [])
  HandOutOutcome t num p (q, some l) = HandsOut t num p q l

  idle_self :
      (t : NodeType) (num : ℕ) (p : ConnectionPool C) (v : Node C)
      → num < length (nodes t p)
      → idle t num (set_nodes t (set (nodes t p) num v) p) ≡ v.conn_pool
  idle_self t num p v h = idle-set_nodes t num p v t num h ∙ ground (arith, same_type_self t)

  set_nodes-counters :
      (t : NodeType) (ns : List (Node C)) (p : ConnectionPool C)
      → ((set_nodes t ns p).last_used_master_num ≡ p.last_used_master_num)
        × ((set_nodes t ns p).last_used_replica_num ≡ p.last_used_replica_num)
  set_nodes-counters master ns p = (refl, refl)
  set_nodes-counters replica ns p = (refl, refl)

  take_front-Outcome :
      (t : NodeType) (num : ℕ) (p : ConnectionPool C) (entry : Node C) (conns : List C)
      → get_elem? (nodes t p) num ≡ some entry
      → entry.conn_pool ≡ conns
      → HandOutOutcome t num p (take_front t num p entry conns)
  unfolding take_front
  take_front-Outcome t num p entry [] e c = (refl, ap conns_of e ∙ c)
  take_front-Outcome t num p entry (conn ∷ rest) e c =
      let v : Node C = record entry { conn_pool = rest } in
      let h : num < length (nodes t p) = get_elem?-lt (nodes t p) num e in
      let self = idle_self t num p v h in
      record {
        node_type_is = refl;
        node_num_is = refl;
        in_range = h;
        front = ap conns_of e ∙ c ∙ ap (◌∷◌ conn) (sym self);
        others = λ t' i. rw self (idle-set_nodes t num p v t' i h);
        lengths = λ t'. length-set_nodes t num p v t';
      }

  pub hand_out-Outcome :
      (t : NodeType) (num : ℕ) (p : ConnectionPool C) → HandOutOutcome t num p (hand_out t num p)
  unfolding hand_out
  hand_out-Outcome t num p = elim (Option-cases (get_elem? (nodes t p) num)) [
    | inl e ↦ rw (e, hand_out) (refl, ap conns_of e)
    | inr (entry, e) ↦ rw (e, hand_out) (take_front-Outcome t num p entry entry.conn_pool e refl)
  ]

  pub hand_out-counters :
      (t : NodeType) (num : ℕ) (p : ConnectionPool C)
      → ((hand_out t num p).0.last_used_master_num ≡ p.last_used_master_num)
        × ((hand_out t num p).0.last_used_replica_num ≡ p.last_used_replica_num)
  unfolding hand_out
  hand_out-counters t num p = elim (Option-cases (get_elem? (nodes t p) num)) [
    | inl e ↦ rw (e, hand_out) (refl, refl)
    | inr (entry, e) ↦ rw (e, hand_out) (go entry entry.conn_pool)
  ]
    where
      go :
          (entry : Node C) (conns : List C)
          → ((take_front t num p entry conns).0.last_used_master_num ≡ p.last_used_master_num)
            × ((take_front t num p entry conns).0.last_used_replica_num ≡ p.last_used_replica_num)
      go entry [] = (refl, refl)
      go entry (conn ∷ rest) =
          set_nodes-counters t (set (nodes t p) num (record entry { conn_pool = rest })) p

  -- A connection that comes back goes to the end of the queue of its node.
  pub record PutsBack (p q : ConnectionPool C) (l : TypeNumTagConnection C) : Type 0 where
    pub queues :
        (t : NodeType) (i : ℕ)
        → idle t i q ≡ (
            if same_type l.node_type t && l.node_num == i
            then idle t i p ++ l.conn ∷ []
            else idle t i p)
    pub lengths : (t : NodeType) → length (nodes t q) ≡ length (nodes t p)
    pub master_num : q.last_used_master_num ≡ p.last_used_master_num
    pub replica_num : q.last_used_replica_num ≡ p.last_used_replica_num

  pub same_place :
      (t t' : NodeType) (n i : ℕ) (p : ConnectionPool C)
      → (same_type t t' && n == i) ≡ true
      → idle t' i p ≡ idle t n p
  unfolding same_type
  same_place master master n i p h = let e : n ≡ i = ground arith in rw e
  same_place master replica n i p h = cc
  same_place replica master n i p h = cc
  same_place replica replica n i p h = let e : n ≡ i = ground arith in rw e

  pub release_connection-PutsBack :
      (p : ConnectionPool C) (l : TypeNumTagConnection C)
      → l.node_num < length (nodes l.node_type p)
      → PutsBack p (release_connection p l) l
  unfolding release_connection
  release_connection-PutsBack p l h =
      let (entry, e) = get_elem?-some (nodes l.node_type p) l.node_num h in
      let v : Node C = record entry { conn_pool = entry.conn_pool ++ l.conn ∷ [] } in
      let (mn, rn) = set_nodes-counters l.node_type (set (nodes l.node_type p) l.node_num v) p in
      rw (lt→ltb l.node_num _ h, e, push_back)
        (record {
          queues = λ t i.
              idle-set_nodes l.node_type l.node_num p v t i h
              ∙ elim (Bool-cases (same_type l.node_type t && l.node_num == i)) [
                | inl same ↦ rw same (
                    ap (λ cs. cs ++ l.conn ∷ [])
                      (sym (same_place l.node_type t l.node_num i p same ∙ ap conns_of e)))
                | inr other ↦ rw other
              ];
          lengths = λ t. length-set_nodes l.node_type l.node_num p v t;
          master_num = mn;
          replica_num = rn;
        })
