-- ===== src/ConnectionPool/Tests.antt =====
-- A pool with one master and two replicas, its runs, and the theorems at it.
use mathlib.Core.List.{Perm}
use social_network.Prelude.{ℕ, ◌≡◌, refl, List, [], ◌∷◌, Option, some, none, arith, Bytes, codes}
use social_network.ConnectionPool.{
  master, replica, ConnectionPool, TypeNumTagConnection, Service, make_pool, hand_out,
  get_connection, release_connection, acquires, Reach, here, next,
}
use social_network.ConnectionPool.Slots.{owned}
use social_network.ConnectionPool.Building.{AreFilled, make_pool-AreFilled}
use social_network.ConnectionPool.Routing.{served, next_num, Served, MovesOn, get_connection-Served}
use social_network.ConnectionPool.Ownership.{Reach-owned}
use social_network.ConnectionPool.Supply.{started, get_connection-never_refused}

abbrev connect : ℕ → Bytes → Option ℕ
connect n s = some n

abbrev masters : List (Bytes × Bytes)
masters = (codes "host=m0", codes "m0") ∷ []

abbrev replicas : List (Bytes × Bytes)
replicas = (codes "host=r1", codes "r1") ∷ (codes "host=r2", codes "r2") ∷ []

abbrev pool : ConnectionPool ℕ
pool = record {
  masters =
      record { node_tag = codes "m0"; conn_str = codes "host=m0"; conn_pool = 0 ∷ 1 ∷ [] } ∷ [];
  replicas =
      record { node_tag = codes "r1"; conn_str = codes "host=r1"; conn_pool = 2 ∷ 3 ∷ [] }
      ∷ record { node_tag = codes "r2"; conn_str = codes "host=r2"; conn_pool = 4 ∷ 5 ∷ [] }
      ∷ [];
  last_used_master_num = 0;
  last_used_replica_num = 0;
}

make_pool_run : make_pool connect masters replicas 2 ≡ some pool
unfolding make_pool
make_pool_run = refl

make_pool_refused : make_pool {C = ℕ} (λ n s. none) masters replicas 2 ≡ none
unfolding make_pool
make_pool_refused = refl

abbrev lease : TypeNumTagConnection ℕ
lease = record { node_type = replica; node_num = 1; node_tag = codes "r2"; conn = 4 }

abbrev lent : ConnectionPool ℕ
lent = record pool {
  replicas =
      record { node_tag = codes "r1"; conn_str = codes "host=r1"; conn_pool = 2 ∷ 3 ∷ [] }
      ∷ record { node_tag = codes "r2"; conn_str = codes "host=r2"; conn_pool = 5 ∷ [] }
      ∷ [];
  last_used_replica_num = 1;
}

get_connection_run : get_connection replica pool ≡ (lent, some lease)
unfolding get_connection hand_out
get_connection_run = refl

release_connection_run :
    (release_connection lent lease).replicas
    ≡ record { node_tag = codes "r1"; conn_str = codes "host=r1"; conn_pool = 2 ∷ 3 ∷ [] }
      ∷ record { node_tag = codes "r2"; conn_str = codes "host=r2"; conn_pool = 5 ∷ 4 ∷ [] }
      ∷ []
unfolding release_connection
release_connection_run = refl

abbrev busy : Service ℕ
busy = record { pool = lent; scoped = lease ∷ [] }

busy-Reach : Reach (started pool) busy
busy-Reach = next here (acquires replica get_connection_run)

make_pool-AreFilled_example :
    AreFilled 2 masters pool.masters
    × AreFilled 2 replicas pool.replicas
    × (pool.last_used_master_num ≡ 0)
    × (pool.last_used_replica_num ≡ 0)
make_pool-AreFilled_example = make_pool-AreFilled connect masters replicas 2 pool make_pool_run

get_connection-Served_example :
    MovesOn (served replica pool) pool (get_connection replica pool).0
    × Served
        (served replica pool)
        (next_num (served replica pool) pool)
        pool
        (get_connection replica pool).0
        (get_connection replica pool).1
get_connection-Served_example = get_connection-Served replica pool (unfold served in cc)

Reach-owned_example : Perm (owned replica 1 busy) (owned replica 1 (started pool))
Reach-owned_example = Reach-owned busy-Reach tt replica 1

get_connection-never_refused_example :
    (l : TypeNumTagConnection ℕ) × ((get_connection master busy.pool).1 ≡ some l)
get_connection-never_refused_example =
    get_connection-never_refused connect masters replicas 2 pool {s = busy} make_pool_run busy-Reach
      (omega arith) master (unfold served in cc)
