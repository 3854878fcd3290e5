-- ===== src/ThreadPool/Queue.antt =====
-- What the clients of the pool may rely on: `wait_all` and the destructor.
use social_network.Prelude.{
  ℕ, ◌+◌, ◌≤◌, ◌<◌, ◌≡◌, refl, ap, true, List, [], ◌∷◌, length, ==_iff, arith, ◌↔◌,
}
use social_network.ThreadPool.{
  PooledTask, TaskMeta, Worker, waiting, exited, working, ThreadPool, uint64, new_pool, notify,
  all_done, run, take_task, stop, call, get_result, Reach,
}
use social_network.ThreadPool.Accounting.{working_count, new_pool-Accounted, Reach-Accounted}

working_count_bounded : {R : Type 0} (ws : List (Worker R)) → working_count ws ≤ length ws
unfolding working_count
working_count_bounded [] = omega arith
working_count_bounded (waiting ∷ ws) = omega (arith, working_count_bounded ws)
working_count_bounded (exited ∷ ws) = omega (arith, working_count_bounded ws)
working_count_bounded (working task meta ∷ ws) = omega (arith, working_count_bounded ws)

module _ {R : Type 0} where
  no_tasks : (ts : List (PooledTask R × TaskMeta)) → length ts ≡ 0 → ts ≡ []
  no_tasks [] e = refl
  no_tasks (t ∷ ts) e = ground arith

  -- The condition of `wait_all` is met exactly when nothing is left to do, whatever the clients and
  -- the workers did before: no task waits in the queue, and no worker has one in its hands. It is
  -- assumed that the threads and the places of the queue are together less than 2^64.
  pub all_done-idle :
      (n capacity : ℕ) (p : ThreadPool R)
      → Reach (new_pool n capacity) p
      → p.threads_max_count + p.tasks_max_capacity < 18446744073709551616
      → (all_done p ≡ true) ↔ ((p.tasks ≡ []) × (working_count p.threads ≡ 0))
  unfolding all_done
  all_done-idle n capacity p r small =
      let h = Reach-Accounted r (new_pool-Accounted n capacity) in
      let total = h.total in
      let bounded = h.bounded in
      let kept = h.threads_kept in
      let few = working_count_bounded p.threads in
      let done =
        ==_iff (uint64 (p.tasks_completed_count + p.tasks_refused_count)) p.tasks_last_id in
      (
        λ d.
            let e : uint64 (p.tasks_completed_count + p.tasks_refused_count) ≡ p.tasks_last_id =
              done.0 d in
            (no_tasks p.tasks (omega arith), omega arith),
        λ idle.
            let e : length p.tasks ≡ 0 = ap length idle.0 in let w = idle.1 in done.1 (omega arith),
      )

  take_task-stop :
      (p : ThreadPool R) (ts : List (PooledTask R × TaskMeta))
      → p.threads_stop ≡ true
      → take_task p ts ≡ (p, exited)
  unfolding take_task
  take_task-stop p [] e = rw e refl
  take_task-stop p (t ∷ ts) e = rw e refl

  -- Once the destructor has begun no task is started: a worker that is not in a task leaves, one
  -- that is finishes it, and what waits in the queue stays there.
  pub run-stop :
      (p : ThreadPool R) (w : Worker R)
      → ((run (stop p) w).0.tasks ≡ p.tasks)
        × ((run (run (stop p) w).0 (run (stop p) w).1).1 ≡ exited)
  unfolding run stop
  run-stop p waiting = rw (take_task-stop (stop p) p.tasks refl) (refl, refl)
  run-stop p exited = (refl, refl)
  run-stop p (working task meta) = (
    refl,
    ap (λ r. r.1)
        (take_task-stop
          (record (stop p) {
            tasks_completed_count = uint64 (p.tasks_completed_count + 1);
            calls = notify meta.cb meta.id (get_result (call task)) p.calls;
          })
          p.tasks refl),
  )
