-- ===== src/ThreadPool/Callbacks.antt =====
-- Where every callback is that was handed to the pool of thread_pool.h, over any interleaving of the
-- clients, the workers and the destructor.
use social_network.Prelude.{
  ℕ, zero, suc, ◌+◌, ◌≡◌, refl, ap, Bool, true, false, ◌&&◌, List, [], ◌∷◌, ◌++◌, none, some, ltb,
  ◌==◌, length, get_elem?, set, arith, Bool-cases, Option-cases, inl, inr,
}
use social_network.ThreadPool.{
  Any, nothing, PooledTask, TaskMeta, Func, Worker, waiting, exited, working, ThreadPool,
  idle_workers, new_task, new_pool, add_task, call, get_result, notify, run, take_task, run_worker,
  stop, Step, adds, runs, stops, Reach, here, next,
}

abbrev pub one : Bool → ℕ
one true = 1
one false = 0

module _ {R : Type 0} (k : ℕ) where
  -- How often the callback of task `k` was made, and how often it waits in the queue and in the
  -- hands of workers.
  abbrev pub called : List (ℕ × Any R) → ℕ
  called [] = 0
  called ((id, result) ∷ calls) = one (id == k) + called calls

  abbrev pub queued : List (PooledTask R × TaskMeta) → ℕ
  queued [] = 0
  queued ((task, meta) ∷ tasks) = one (meta.cb && meta.id == k) + queued tasks

  abbrev pub hold : Worker R → ℕ
  hold waiting = 0
  hold exited = 0
  hold (working task meta) = one (meta.cb && meta.id == k)

  abbrev pub held : List (Worker R) → ℕ
  held [] = 0
  held (w ∷ ws) = hold w + held ws

  abbrev pub everywhere : ThreadPool R → ℕ
  everywhere p = called p.calls + queued p.tasks + held p.threads

  -- How often a client handed over a callback with the task that got the number `k`.
  abbrev pub asks : {p q : ThreadPool R} → Step p q → ℕ
  asks (adds {p} cb func) = one (cb && p.tasks_last_id == k)
  asks (runs i) = 0
  asks stops = 0

  unfoldable pub handed : {p q : ThreadPool R} → Reach p q → ℕ
  handed here = 0
  handed (next r s) = handed r + asks s

  called-append :
      (calls : List (ℕ × Any R)) (id : ℕ) (result : Any R)
      → called (calls ++ (id, result) ∷ []) ≡ called calls + one (id == k)
  called-append [] id result = omega arith
  called-append ((i, r) ∷ calls) id result = omega (arith, called-append calls id result)

  called-notify :
      (cb : Bool) (id : ℕ) (result : Any R) (calls : List (ℕ × Any R))
      → called (notify cb id result calls) ≡ called calls + one (cb && id == k)
  called-notify true id result calls = called-append calls id result
  called-notify false id result calls = omega arith

  queued-append :
      (tasks : List (PooledTask R × TaskMeta)) (task : PooledTask R) (meta : TaskMeta)
      → queued (tasks ++ (task, meta) ∷ []) ≡ queued tasks + one (meta.cb && meta.id == k)
  queued-append [] task meta = omega arith
  queued-append ((t, m) ∷ tasks) task meta = omega (arith, queued-append tasks task meta)

  held-set :
      (ws : List (Worker R)) (i : ℕ) (v w : Worker R)
      → get_elem? ws i ≡ some v
      → held (set ws i w) + hold v ≡ held ws + hold w
  held-set [] i v w e = ground arith
  held-set (x ∷ ws) zero v w e =
      let e' : x ≡ v = ap (λ o. elim o [ none ↦ x | some y ↦ y ]) e in rw e' (omega arith)
  held-set (x ∷ ws) (suc i) v w e = omega (arith, held-set ws i v w e)

  everywhere-add_task :
      (cb : Bool) (func : Func R) (p : ThreadPool R)
      → everywhere (add_task cb func p).0 ≡ everywhere p + one (cb && p.tasks_last_id == k)
  unfolding add_task
  everywhere-add_task cb func p = elim (Bool-cases (ltb (length p.tasks) p.tasks_max_capacity)) [
    | inl e ↦
        let meta : TaskMeta = record { id = p.tasks_last_id; cb = cb } in
        rw e (omega (arith, queued-append p.tasks (new_task func) meta))
    | inr e ↦ rw e (omega (arith, called-notify cb p.tasks_last_id nothing p.calls))
  ]

  take_task-callbacks :
      (p : ThreadPool R) (tasks : List (PooledTask R × TaskMeta))
      → p.tasks ≡ tasks
      → let r = take_task p tasks in
        (called r.0.calls + queued r.0.tasks + hold r.1 ≡ called p.calls + queued p.tasks)
        × (r.0.threads ≡ p.threads)
  unfolding take_task
  take_task-callbacks p [] e = elim (Bool-cases p.threads_stop) [
    | inl s ↦ rw s (omega arith, refl)
    | inr s ↦ rw s (omega arith, refl)
  ]
  take_task-callbacks p ((task, meta) ∷ rest) e =
      let n : queued p.tasks ≡ one (meta.cb && meta.id == k) + queued rest = ap queued e in
      elim (Bool-cases p.threads_stop) [
        | inl s ↦ rw s (omega arith, refl)
        | inr s ↦ rw s (omega arith, refl)
      ]

  run-callbacks :
      (p : ThreadPool R) (w : Worker R)
      → let r = run p w in
        (called r.0.calls + queued r.0.tasks + hold r.1 ≡ called p.calls + queued p.tasks + hold w)
        × (r.0.threads ≡ p.threads)
  unfolding run
  run-callbacks p exited = (omega arith, refl)
  run-callbacks p waiting =
      let (kept, threads) = take_task-callbacks p p.tasks refl in (omega arith, threads)
  run-callbacks p (working task meta) =
      (omega (arith, called-notify meta.cb meta.id (get_result (call task)) p.calls), refl)

  everywhere-run_worker : (i : ℕ) (p : ThreadPool R) → everywhere (run_worker i p) ≡ everywhere p
  unfolding run_worker
  everywhere-run_worker i p = elim (Option-cases (get_elem? p.threads i)) [
    | inl e ↦ rw (run_worker, e) refl
    | inr (w, e) ↦
        let (kept, threads) = run-callbacks p w in
        let counts = held-set p.threads i w (run p w).1 e in
        rw (run_worker, e, threads) (omega arith)
  ]

  everywhere-Step : {p q : ThreadPool R} (s : Step p q) → everywhere q ≡ everywhere p + asks s
  unfolding stop
  everywhere-Step (adds {p} cb func) = everywhere-add_task cb func p
  everywhere-Step (runs {p} i) = omega (arith, everywhere-run_worker i p)
  everywhere-Step stops = omega arith

  everywhere-Reach : {p q : ThreadPool R} (r : Reach p q) → everywhere q ≡ everywhere p + handed r
  unfolding handed
  everywhere-Reach here = omega arith
  everywhere-Reach (next r s) = omega (arith, everywhere-Reach r, everywhere-Step s)

held-idle : (R : Type 0) (k n : ℕ) → held {R = R} k (idle_workers n) ≡ 0
unfolding idle_workers
held-idle R k zero = refl
held-idle R k (suc n) = omega (arith, held-idle R k n)

-- A pool hands on every callback exactly once: in every state that a new pool reaches, whatever the
-- clients, the workers and the destructor did before, the callbacks that were handed over with the
-- number `k` are as many as were made with it, wait with it in the queue, or are in the hands of a
-- worker.
pub handed-everywhere :
    {R : Type 0} (k n capacity : ℕ) (p : ThreadPool R) (r : Reach (new_pool n capacity) p)
    → handed k r ≡ called k p.calls + queued k p.tasks + held k p.threads
unfolding new_pool
handed-everywhere {R} k n capacity p r = omega (arith, everywhere-Reach k r, held-idle R k n)
