-- ===== src/ConnectionPool/Supply.antt =====
-- The size of the pool against the number of its users: `App::db_start` makes the pool with
-- `http_threads_count` connections for each node, the number of the workers that serve requests.
use native.Mathlib.Nat.{mod-lt}
use social_network.Prelude.{
  ℕ, ◌+◌, ◌<◌, ◌≤◌, ◌≡◌, ◌≢◌, refl, ap, List, [], ◌∷◌, Option, none, some, arith, Bytes, length,
  length-append, perm-length,
}
use social_network.ConnectionPool.{
  NodeType, Node, ConnectionPool, TypeNumTagConnection, Service, nodes, make_pool, get_connection,
  Reach,
}
use social_network.ConnectionPool.Slots.{idle, held}
use social_network.ConnectionPool.Building.{make_pool-idle}
use social_network.ConnectionPool.Ownership.{Reach-owned, Reach-lengths}
use social_network.ConnectionPool.Routing.{served, next_num, Served, get_connection-Served}

module _ {C : Type 0} where
  held-le :
      (t : NodeType) (i : ℕ) (ls : List (TypeNumTagConnection C)) → length (held t i ls) ≤ length ls
  unfolding held
  held-le t i [] = omega arith
  held-le t i (l ∷ ls) = ground (arith, held-le t i ls)

  Served-some :
      (t : NodeType) (num : ℕ) (p q : ConnectionPool C) (r : Option (TypeNumTagConnection C))
      → Served t num p q r
      → 0 < length (idle t num p)
      → (l : TypeNumTagConnection C) × (r ≡ some l)
  Served-some t num p q none h k = absurd (omega (arith, ap length h.0))
  Served-some t num p q (some l) h k = (l, refl)

  -- The service as `db_start` sets it up.
  abbrev pub started : ConnectionPool C → Service C
  started p = record { pool = p; scoped = [] }

  -- At all times the queue of a node holds `pool_size` connections less those that are held from it.
  pub Reach-supply :
      (connect : ℕ → Bytes → Option C) (masters replicas : List (Bytes × Bytes)) (pool_size : ℕ)
      (p : ConnectionPool C) {s : Service C}
      → make_pool connect masters replicas pool_size ≡ some p
      → Reach (started p) s
      → (t : NodeType) (i : ℕ) → i < length (nodes t s.pool)
      → length (idle t i s.pool) + length (held t i s.scoped) ≡ pool_size
  unfolding held
  Reach-supply connect masters replicas pool_size p {s} made r t i h =
      let same = perm-length (Reach-owned r tt t i) in
      let room : i < length (nodes t p) = rw (Reach-lengths r tt t) at h in
      omega (
        arith,
        same,
        make_pool-idle connect masters replicas pool_size p made t i room,
        length-append (idle t i s.pool) (held t i s.scoped),
        length-append (idle t i p) [],
      )

  -- While fewer scoped connections live than the pool has connections for each node, a request with a
  -- preference that some node serves gets a connection, after any history of the service that began
  -- with a pool as it was made.
  pub get_connection-never_refused :
      (connect : ℕ → Bytes → Option C) (masters replicas : List (Bytes × Bytes)) (pool_size : ℕ)
      (p : ConnectionPool C) {s : Service C}
      → make_pool connect masters replicas pool_size ≡ some p
      → Reach (started p) s
      → length s.scoped < pool_size
      → (preferred : NodeType) → nodes (served preferred s.pool) s.pool ≢ []
      → (l : TypeNumTagConnection C) × ((get_connection preferred s.pool).1 ≡ some l)
  get_connection-never_refused connect masters replicas pool_size p {s} made r fewer preferred ne =
      let t = served preferred s.pool in
      let num = next_num t s.pool in
      let room : num < length (nodes t s.pool) = next_in_range s.pool t ne in
      let full = Reach-supply connect masters replicas pool_size p made r t num room in
      Served-some t num s.pool (get_connection preferred s.pool).0
        (get_connection preferred s.pool).1 (get_connection-Served preferred s.pool ne).1
        (omega (arith, full, held-le t num s.scoped))
    where
      pos : (ns : List (Node C)) → ns ≢ [] → 0 < length ns
      pos [] h = absurd (h refl)
      pos (n ∷ ns) h = omega arith

      next_in_range :
          (q : ConnectionPool C) (t : NodeType) → nodes t q ≢ [] → next_num t q < length (nodes t q)
      next_in_range q t h = mod-lt _ (pos (nodes t q) h)
