-- ===== src/ConnectionPool.antt =====
-- service/include/app_connection_pool.h. A connection is a value of a parameter type `C`, and
-- `connect n s` is what the n-th `make_shared<pqxx::connection>(s)` gives, `none` for an exception.
-- Every member runs under `pool_mtx_`, so a member is one step. The two round-robin counters are
-- function-level statics; the service makes one pool, and they stand here as its fields.
pub mod Slots
pub mod Routing
pub mod Building
pub mod Ownership
pub mod Supply
mod Tests
use social_network.Prelude.{
  ◌≡◌, ℕ, zero, suc, ◌+◌, ◌%◌, Bool, true, false, not, ◌&&◌, List, [], ◌∷◌, ◌++◌, Option, none,
  some, ltb, ◌==◌, if◌then◌else◌, Bytes, length, get_elem?, set, is_empty,
}

pub data NodeType : Type 0 where
  master replica : NodeType

unfoldable pub is_replica : NodeType → Bool
is_replica master = false
is_replica replica = true

-- `node_s`; the head of the list is the front of the queue.
pub record Node (C : Type 0) : Type 0 where
  pub node_tag : Bytes
  pub conn_str : Bytes
  pub conn_pool : List C

-- The two keys of the map are there from the constructor on.
pub record ConnectionPool (C : Type 0) : Type 0 where
  pub masters : List (Node C)
  pub replicas : List (Node C)
  pub last_used_master_num : ℕ
  pub last_used_replica_num : ℕ

-- `TypeNumTagConnection`.
pub record TypeNumTagConnection (C : Type 0) : Type 0 where
  pub node_type : NodeType
  pub node_num : ℕ
  pub node_tag : Bytes
  pub conn : C

infixl 5 ◌>>=◌
abbrev pub ◌>>=◌ {ℓ κ} : {A : Type ℓ} {B : Type κ} → Option A → (A → Option B) → Option B
none >>= f = none
some a >>= f = f a

module _ {C : Type 0} where
  -- `pool_[t]`.
  abbrev pub nodes : NodeType → ConnectionPool C → List (Node C)
  nodes master p = p.masters
  nodes replica p = p.replicas

  abbrev pub set_nodes : NodeType → List (Node C) → ConnectionPool C → ConnectionPool C
  set_nodes master ns p = record p { masters = ns }
  set_nodes replica ns p = record p { replicas = ns }

  -- The inner loop of the constructor: `left` connections to open, `n` opened before.
  unfoldable pub open_connections : (ℕ → Bytes → Option C) → Bytes → ℕ → ℕ → Option (List C × ℕ)
  open_connections connect conn_str zero n = some ([], n)
  open_connections connect conn_str (suc left) n = do
    conn ← connect n conn_str
    (rest, m) ← open_connections connect conn_str left (suc n)
    some (conn ∷ rest, m)

  -- The outer loops: one node for each pair of a connection string and a tag.
  unfoldable pub open_nodes :
      (ℕ → Bytes → Option C) → List (Bytes × Bytes) → ℕ → ℕ → Option (List (Node C) × ℕ)
  unfolding open_connections
  open_nodes connect [] pool_size n = some ([], n)
  open_nodes connect ((conn_str, tag) ∷ more) pool_size n = do
    (conns, m) ← open_connections connect conn_str pool_size n
    (rest, k) ← open_nodes connect more pool_size m
    some (record { node_tag = tag; conn_str = conn_str; conn_pool = conns } ∷ rest, k)

  -- The constructor.
  unfoldable pub make_pool :
      (ℕ → Bytes → Option C)
      → List (Bytes × Bytes)
      → List (Bytes × Bytes)
      → ℕ
      → Option (ConnectionPool C)
  unfolding open_nodes
  make_pool connect masters replicas pool_size = do
    (ms, n) ← open_nodes connect masters pool_size 0
    (rs, m) ← open_nodes connect replicas pool_size n
    some (record {
      masters = ms;
      replicas = rs;
      last_used_master_num = 0;
      last_used_replica_num = 0;
    })

  -- On the queue of the chosen node: `none` is `runtime_error("No connections available")`.
  unfoldable pub take_front :
      NodeType
      → ℕ
      → ConnectionPool C
      → Node C
      → List C
      → ConnectionPool C × Option (TypeNumTagConnection C)
  take_front t num p entry [] = (p, none)
  take_front t num p entry (conn ∷ rest) = (
    set_nodes t (set (nodes t p) num (record entry { conn_pool = rest })) p,
    some (record { node_type = t; node_num = num; node_tag = entry.node_tag; conn = conn }),
  )

  -- `auto& entry = pool_[t][num]` and what follows; `num` is in range behind the guards.
  unfoldable pub hand_out :
      NodeType → ℕ → ConnectionPool C → ConnectionPool C × Option (TypeNumTagConnection C)
  unfolding take_front
  hand_out t num p = elim (get_elem? (nodes t p) num) [
    | none ↦ (p, none)
    | some entry ↦ take_front t num p entry entry.conn_pool
  ]

  unfoldable pub get_connection :
      NodeType → ConnectionPool C → ConnectionPool C × Option (TypeNumTagConnection C)
  unfolding is_replica
  get_connection preferred p =
      let replica_num = (p.last_used_replica_num + 1) % length p.replicas in
      let master_num = (p.last_used_master_num + 1) % length p.masters in
      if not (is_empty p.replicas) && is_replica preferred
      then hand_out replica replica_num (record p { last_used_replica_num = replica_num })
      else if not (is_empty p.masters)
      then hand_out master master_num (record p { last_used_master_num = master_num })
      else (p, none)

  unfoldable pub push_back :
      ConnectionPool C → NodeType → ℕ → C → Option (Node C) → ConnectionPool C
  push_back p t num conn none = p
  push_back p t num conn (some entry) =
      set_nodes t (set (nodes t p) num (record entry { conn_pool = entry.conn_pool ++ conn ∷ [] }))
        p

  unfoldable pub release_connection : ConnectionPool C → TypeNumTagConnection C → ConnectionPool C
  unfolding push_back
  release_connection p tntc =
      if ltb tntc.node_num (length (nodes tntc.node_type p))
      then push_back p tntc.node_type tntc.node_num tntc.conn
          (get_elem? (nodes tntc.node_type p) tntc.node_num)
      else p

-- The pool and the `ScopedConnection`s that live: one step is one constructor (which may throw,
-- and then there is no object to destroy) or one destructor, in any interleaving of the workers.
pub record Service (C : Type 0) : Type 0 where
  pub pool : ConnectionPool C
  pub scoped : List (TypeNumTagConnection C)

pub data Step {C : Type 0} : Service C → Service C → Type 0 where
  acquires :
      {s : Service C} {p : ConnectionPool C} {l : TypeNumTagConnection C}
      → (preferred : NodeType) → get_connection preferred s.pool ≡ (p, some l)
      → Step s (record { pool = p; scoped = l ∷ s.scoped })
  throws :
      {s : Service C} {p : ConnectionPool C}
      → (preferred : NodeType) → get_connection preferred s.pool ≡ (p, none)
      → Step s (record { pool = p; scoped = s.scoped })
  releases :
      {s : Service C}
      → (before : List (TypeNumTagConnection C)) → (l : TypeNumTagConnection C)
      → (after : List (TypeNumTagConnection C)) → s.scoped ≡ before ++ (l ∷ after)
      → Step s (record { pool = release_connection s.pool l; scoped = before ++ after })

pub data Reach {C : Type 0} (s : Service C) : Service C → Type 0 where
  here : Reach s s
  next : {t u : Service C} → Reach s t → Step t u → Reach s u
