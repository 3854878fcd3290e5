-- ===== src/ThreadPool/Accounting.antt =====
-- Where every submitted task is, over any interleaving of the clients and the workers of the pool.
use social_network.Prelude.{
  ℕ, zero, suc, ◌+◌, ◌%◌, ◌≤◌, ◌≡◌, refl, sym, ap, Bool, List, [], ◌∷◌, none, some, ltb, length,
  get_elem?, set, length-append, length-set, ◌∙◌, arith, ltb→lt, Bool-cases, Option-cases, inl, inr,
}
use social_network.ThreadPool.{
  PooledTask, TaskMeta, Func, Worker, waiting, exited, working, ThreadPool, uint64, idle_workers,
  new_pool, add_task, run, take_task, run_worker, stop, Step, adds, runs, stops, Reach, here, next,
}

module _ {R : Type 0} where
  abbrev pub busy : Worker R → ℕ
  busy waiting = 0
  busy exited = 0
  busy (working task meta) = 1

  unfoldable pub working_count : List (Worker R) → ℕ
  working_count [] = 0
  working_count (w ∷ ws) = busy w + working_count ws

  -- Every number that was given out belongs to a task that is completed, was refused, waits in the
  -- queue or is in the hands of a worker.
  pub record Accounted (p : ThreadPool R) : Type 0 where
    pub total :
        (p.tasks_completed_count + p.tasks_refused_count + length p.tasks + working_count p.threads)
          % 18446744073709551616
        ≡ p.tasks_last_id
    pub bounded : length p.tasks ≤ p.tasks_max_capacity
    pub threads_kept : length p.threads ≡ p.threads_max_count

  working_count-set :
      (ws : List (Worker R)) (i : ℕ) (v w : Worker R)
      → get_elem? ws i ≡ some v
      → working_count (set ws i w) + busy v ≡ working_count ws + busy w
  unfolding working_count
  working_count-set [] i v w e = ground arith
  working_count-set (x ∷ ws) zero v w e =
      let e' : x ≡ v = ap (λ o. elim o [ none ↦ x | some y ↦ y ]) e in rw e' (omega arith)
  working_count-set (x ∷ ws) (suc i) v w e = omega (arith, working_count-set ws i v w e)

  add_task-Accounted :
      (p : ThreadPool R) (cb : Bool) (func : Func R)
      → Accounted p
      → Accounted (add_task cb func p).0
  unfolding add_task
  add_task-Accounted p cb func h =
      let total = h.total in
      let bounded = h.bounded in
      elim (Bool-cases (ltb (length p.tasks) p.tasks_max_capacity)) [
        | inl e ↦
            let room = ltb→lt _ _ e in
            rw e (record {
              total = rw (length-append p.tasks) (omega arith);
              bounded = rw (length-append p.tasks) (omega arith);
              threads_kept = h.threads_kept;
            })
        | inr e ↦
            rw e (record { total = omega arith; bounded = bounded; threads_kept = h.threads_kept })
      ]

  take_task-total :
      (p : ThreadPool R) (ts : List (PooledTask R × TaskMeta))
      → p.tasks ≡ ts
      → let r = take_task p ts in
        (uint64 (r.0.tasks_completed_count + p.tasks_refused_count + length r.0.tasks + busy r.1)
          ≡ uint64 (p.tasks_completed_count + p.tasks_refused_count + length p.tasks + 0))
        × (length r.0.tasks ≤ length p.tasks)
        × (r.0.tasks_refused_count ≡ p.tasks_refused_count)
        × (r.0.tasks_last_id ≡ p.tasks_last_id)
        × (r.0.tasks_max_capacity ≡ p.tasks_max_capacity)
        × (r.0.threads_max_count ≡ p.threads_max_count)
        × (r.0.threads ≡ p.threads)
  unfolding take_task
  take_task-total p [] e = elim (Bool-cases p.threads_stop) [
    | inl s ↦ rw s (omega arith, omega arith, refl, refl, refl, refl, refl)
    | inr s ↦ rw s (omega arith, omega arith, refl, refl, refl, refl, refl)
  ]
  take_task-total p ((task, meta) ∷ rest) e =
      let n : length p.tasks ≡ suc (length rest) = ap length e in
      elim (Bool-cases p.threads_stop) [
        | inl s ↦ rw s (omega arith, omega arith, refl, refl, refl, refl, refl)
        | inr s ↦ rw s (omega arith, omega arith, refl, refl, refl, refl, refl)
      ]

  -- What one passage of a worker does to the tasks that are accounted for.
  run-total :
      (p : ThreadPool R) (w : Worker R)
      → let r = run p w in
        (uint64 (r.0.tasks_completed_count + p.tasks_refused_count + length r.0.tasks + busy r.1)
          ≡ uint64 (p.tasks_completed_count + p.tasks_refused_count + length p.tasks + busy w))
        × (length r.0.tasks ≤ length p.tasks)
        × (r.0.tasks_refused_count ≡ p.tasks_refused_count)
        × (r.0.tasks_last_id ≡ p.tasks_last_id)
        × (r.0.tasks_max_capacity ≡ p.tasks_max_capacity)
        × (r.0.threads_max_count ≡ p.threads_max_count)
        × (r.0.threads ≡ p.threads)
  unfolding run
  run-total p exited = (refl, omega arith, refl, refl, refl, refl, refl)
  run-total p (working task meta) = (omega arith, omega arith, refl, refl, refl, refl, refl)
  run-total p waiting = take_task-total p p.tasks refl

working_count-idle : (R : Type 0) (n : ℕ) → working_count {R = R} (idle_workers n) ≡ 0
unfolding working_count idle_workers
working_count-idle R zero = refl
working_count-idle R (suc n) = omega (arith, working_count-idle R n)

length-idle_workers : (R : Type 0) (n : ℕ) → length {A = Worker R} (idle_workers n) ≡ n
unfolding idle_workers
length-idle_workers R zero = refl
length-idle_workers R (suc n) = ap suc (length-idle_workers R n)

pub new_pool-Accounted : {R : Type 0} (n capacity : ℕ) → Accounted (new_pool {R = R} n capacity)
unfolding new_pool
new_pool-Accounted {R} n capacity = record {
  total = rw (working_count-idle R n) refl;
  bounded = omega arith;
  threads_kept = length-idle_workers R n;
}

module _ {R : Type 0} where
  run_worker-Accounted : (p : ThreadPool R) (i : ℕ) → Accounted p → Accounted (run_worker i p)
  unfolding run_worker
  run_worker-Accounted p i h = elim (Option-cases (get_elem? p.threads i)) [
    | inl e ↦ rw (run_worker, e) h
    | inr (w, e) ↦
        let (total, fewer, refused, last, capacity, threads_max, threads) = run-total p w in
        let v = (run p w).1 in
        let counts = working_count-set p.threads i w v e in
        let before = h.total in
        let bounded = h.bounded in
        rw (run_worker, e)
          (record {
            total = rw (refused, last, threads) (omega arith);
            bounded = omega arith;
            threads_kept = rw threads (length-set p.threads i v ∙ h.threads_kept ∙ sym threads_max);
          })
  ]

  Step-Accounted : {p q : ThreadPool R} → Step p q → Accounted p → Accounted q
  unfolding stop
  Step-Accounted (adds cb func) h = add_task-Accounted _ cb func h
  Step-Accounted (runs i) h = run_worker-Accounted _ i h
  Step-Accounted stops h = record {
    total = h.total;
    bounded = h.bounded;
    threads_kept = h.threads_kept;
  }

  pub Reach-Accounted : {p q : ThreadPool R} → Reach p q → Accounted p → Accounted q
  Reach-Accounted here h = h
  Reach-Accounted (next r s) h = Step-Accounted s (Reach-Accounted r h)
