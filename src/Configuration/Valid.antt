-- ===== src/Configuration/Valid.antt =====
-- What holds of a configuration that `validate` has checked.
use social_network.Prelude.{
  Bool, ℕ, suc, ◌≤◌, ◌≡◌, refl, ap, ◌≢◌, true, List, [], ◌∷◌, Bytes, codes, length, is_empty, All,
  ℤ, pos, negsuc, Attempt, done, dns_exception, std_exception, if◌then◌else◌, Bool-cases, inl, inr,
  arith,
}
use social_network.IpAddress.{IpAddress, Family}
use social_network.Configuration.{
  Pgsql, Config, pgsql_url, pgsql_login, or_defaults, endpoint_result, in_range, validate_count,
  with_scheme, check_endpoint, validate_endpoint, validate_replicas, validate, min_threads_count,
  max_threads_count, min_queue_capacity, max_queue_capacity,
}

abbrev pub InRange : ℕ → ℕ → ℤ → Type 0
InRange min max (pos n) = (min ≤ n) × (n ≤ max)
InRange min max (negsuc n) = ⊥

pub record IsValid (c : Config) : Type 0 where
  pub threads : InRange min_threads_count max_threads_count c.http_threads_count
  pub capacity : InRange min_queue_capacity max_queue_capacity c.http_queue_capacity
  pub master_login : c.pgsql_master.login ≢ []
  pub replica_logins : All (λ p. p.login ≢ []) c.pgsql_replica

in_range-InRange : (min max : ℕ) (count : ℤ) → in_range min max count ≡ true → InRange min max count
unfolding in_range
in_range-InRange min max (pos n) e = ground arith
in_range-InRange min max (negsuc n) e = cc

validate_count-InRange :
    (key : Bytes) (min max default : ℕ) (count : ℤ)
    → min ≤ default
    → default ≤ max
    → InRange min max (validate_count key min max default count).0
unfolding validate_count
validate_count-InRange key min max default count h k = elim (Bool-cases (in_range min max count)) [
  | inl e ↦ rw (validate_count, e) (in_range-InRange min max count e)
  | inr e ↦ rw (validate_count, e) (h, k)
]

or_defaults-login : (p : Pgsql) → (or_defaults p).login ≢ []
unfolding or_defaults
or_defaults-login p = given p.login
  where
    given : (login : Bytes) → (if is_empty login then pgsql_login else login) ≢ []
    given [] = λ e. cc
    given (c ∷ login) = λ e. cc

endpoint_result-login : (p : Pgsql) (tried : Attempt Pgsql) → (endpoint_result p tried).0.login ≢ []
unfolding endpoint_result
endpoint_result-login p (done valid) = or_defaults-login valid
endpoint_result-login p (dns_exception text) = or_defaults-login p
endpoint_result-login p (std_exception text) = or_defaults-login (record p { url = pgsql_url })

module _ (inet_pton : Family → Bytes → Bool × Bytes)
    (host_by_name : Bytes → Attempt (List IpAddress))
    (resolve_service_to_port : Bytes → Attempt ℕ) where
  validate_endpoint-login :
      (p : Pgsql)
      → (validate_endpoint inet_pton host_by_name resolve_service_to_port p).0.login ≢ []
  unfolding validate_endpoint
  validate_endpoint-login p =
      endpoint_result-login (record p { url = with_scheme p.url })
        (check_endpoint inet_pton host_by_name resolve_service_to_port
          (record p { url = with_scheme p.url }))

  validate_replicas-logins :
      (replicas : List Pgsql)
      → All
          (λ p. p.login ≢ [])
          (validate_replicas inet_pton host_by_name resolve_service_to_port replicas).0
        × (length (validate_replicas inet_pton host_by_name resolve_service_to_port replicas).0
            ≡ length replicas)
  unfolding validate_replicas
  validate_replicas-logins [] = (tt, refl)
  validate_replicas-logins (replica ∷ more) =
      let rest = validate_replicas-logins more in
      ((validate_endpoint-login replica, rest.0), ap suc rest.1)

  -- Whatever is checked, the result has from 1 to 10 threads, room for 1 to 4096 requests, as many
  -- replicas as before, and a login for the master and for each replica.
  pub validate-IsValid :
      (behind : ℕ) (c : Config)
      → IsValid (validate inet_pton host_by_name resolve_service_to_port behind c).0
        × (length (validate inet_pton host_by_name resolve_service_to_port behind c).0.pgsql_replica
            ≡ length c.pgsql_replica)
  unfolding validate
  validate-IsValid behind c =
      let replicas = validate_replicas-logins c.pgsql_replica in
      (
        record {
          threads =
              validate_count-InRange (codes "http.threads_count") 1 10 1 c.http_threads_count
                (omega arith) (omega arith);
          capacity =
              validate_count-InRange (codes "http.queue_capacity") 1 4096 1024 c.http_queue_capacity
                (omega arith) (omega arith);
          master_login = validate_endpoint-login c.pgsql_master;
          replica_logins = replicas.0;
        },
        replicas.1,
      )
