-- ===== src/ConnectionPool/Building.antt =====
-- The constructor of the pool.
use social_network.Prelude.{
  ℕ, zero, suc, ◌<◌, ◌≡◌, refl, ap, inl, inr, List, [], ◌∷◌, Option, none, some, arith,
  Option-cases, Bytes, length, get_elem?,
}
use social_network.ConnectionPool.{
  NodeType, master, replica, Node, ConnectionPool, nodes, open_connections, open_nodes, make_pool,
  ◌>>=◌,
}
use social_network.ConnectionPool.Slots.{conns_of, idle}

module _ {C : Type 0} where
  abbrev Opened : ℕ → Option (List C × ℕ) → Type 0
  Opened left none = Unit
  Opened left (some (conns, n)) = length conns ≡ left

  open_connections-Opened :
      (connect : ℕ → Bytes → Option C) (conn_str : Bytes) (left n : ℕ)
      → Opened left (open_connections connect conn_str left n)
  unfolding open_connections
  open_connections-Opened connect conn_str zero n = refl
  open_connections-Opened connect conn_str (suc left) n = elim (Option-cases (connect n conn_str)) [
    | inl e ↦ rw e tt
    | inr (conn, e) ↦
        let rest = open_connections connect conn_str left (suc n) in
        rw e (
          (elim rest
              as (λ o. Opened left o → Opened (suc left) (o >>= λ r. some (conn ∷ r.0, r.1))) [
                | none ↦ λ h. tt
                | some r ↦ λ h. ap suc h
              ])
            (open_connections-Opened connect conn_str left (suc n)))
  ]

  -- Each node of the list holds `size` connections, and has the tag and the string it was made from.
  abbrev pub AreFilled : ℕ → List (Bytes × Bytes) → List (Node C) → Type 0
  AreFilled size [] [] = Unit {0}
  AreFilled size [] (v ∷ vs) = ⊥
  AreFilled size (c ∷ cs) [] = ⊥
  AreFilled size ((conn_str, tag) ∷ cs) (v ∷ vs) =
      (length v.conn_pool ≡ size)
      × (v.conn_str ≡ conn_str)
      × (v.node_tag ≡ tag)
      × AreFilled size cs vs

  abbrev OpenedNodes : ℕ → List (Bytes × Bytes) → Option (List (Node C) × ℕ) → Type 0
  OpenedNodes size cs none = Unit
  OpenedNodes size cs (some (vs, n)) = AreFilled size cs vs

  open_nodes-OpenedNodes :
      (connect : ℕ → Bytes → Option C) (cs : List (Bytes × Bytes)) (size n : ℕ)
      → OpenedNodes size cs (open_nodes connect cs size n)
  unfolding open_nodes
  open_nodes-OpenedNodes connect [] size n = tt
  open_nodes-OpenedNodes connect ((conn_str, tag) ∷ cs) size n =
      elim (Option-cases (open_connections connect conn_str size n)) [
        | inl e ↦ rw e tt
        | inr ((conns, m), e) ↦
            let full : length conns ≡ size =
              rw e at (open_connections-Opened connect conn_str size n) in
            rw e (
              (elim (open_nodes connect cs size m)
                  as (λ o.
                    OpenedNodes size cs o
                    → OpenedNodes size ((conn_str, tag) ∷ cs) (
                        o >>= λ r. some (
                          record { node_tag = tag; conn_str = conn_str; conn_pool = conns } ∷ r.0,
                          r.1,
                        ))) [ none ↦ λ h. tt | some r ↦ λ h. (full, refl, refl, h) ])
                (open_nodes-OpenedNodes connect cs size m))
      ]

  -- A pool that was made has one node for each pair given, in order, with its string and tag and
  -- with `pool_size` connections, and its counters stand at 0.
  pub make_pool-AreFilled :
      (connect : ℕ → Bytes → Option C) (masters replicas : List (Bytes × Bytes)) (pool_size : ℕ)
      (p : ConnectionPool C)
      → make_pool connect masters replicas pool_size ≡ some p
      → AreFilled pool_size masters p.masters
        × AreFilled pool_size replicas p.replicas
        × (p.last_used_master_num ≡ 0)
        × (p.last_used_replica_num ≡ 0)
  unfolding make_pool
  make_pool-AreFilled connect masters replicas pool_size p h =
      elim (Option-cases (open_nodes connect masters pool_size 0)) [
        | inl e ↦ ground (arith, e)
        | inr ((ms, n), e) ↦ elim (Option-cases (open_nodes connect replicas pool_size n)) [
          | inl f ↦ ground (arith, e, f)
          | inr ((rs, m), f) ↦
              let made : p ≡ record {
                masters = ms;
                replicas = rs;
                last_used_master_num = 0;
                last_used_replica_num = 0;
              } =
                ground (arith, e, f) in
              rw made (
                rw e at (open_nodes-OpenedNodes connect masters pool_size 0),
                rw f at (open_nodes-OpenedNodes connect replicas pool_size n),
                refl,
                refl,
              )
        ]
      ]

  AreFilled-conns :
      (size : ℕ) (cs : List (Bytes × Bytes)) (vs : List (Node C)) (i : ℕ)
      → AreFilled size cs vs
      → i < length vs
      → length (conns_of (get_elem? vs i)) ≡ size
  AreFilled-conns size [] [] i h k = elim k [ ]
  AreFilled-conns size [] (v ∷ vs) i h k = absurd h
  AreFilled-conns size (c ∷ cs) [] i h k = elim k [ ]
  AreFilled-conns size (c ∷ cs) (v ∷ vs) zero h k = h.0
  AreFilled-conns size (c ∷ cs) (v ∷ vs) (suc i) h k =
      AreFilled-conns size cs vs i h.3 (omega arith)

  pub make_pool-idle :
      (connect : ℕ → Bytes → Option C) (masters replicas : List (Bytes × Bytes)) (pool_size : ℕ)
      (p : ConnectionPool C)
      → make_pool connect masters replicas pool_size ≡ some p
      → (t : NodeType) (i : ℕ) → i < length (nodes t p)
      → length (idle t i p) ≡ pool_size
  make_pool-idle connect masters replicas pool_size p h master i k =
      AreFilled-conns pool_size masters p.masters i
        (make_pool-AreFilled connect masters replicas pool_size p h).0 k
  make_pool-idle connect masters replicas pool_size p h replica i k =
      AreFilled-conns pool_size replicas p.replicas i
        (make_pool-AreFilled connect masters replicas pool_size p h).1 k
