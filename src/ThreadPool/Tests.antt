-- ===== src/ThreadPool/Tests.antt =====
-- Runs of the pool, and its theorems at concrete states.
use social_network.Prelude.{ℕ, ◌+◌, ◌≡◌, refl, ◌↔◌, true, false, [], ◌∷◌, none, some, arith}
use social_network.ThreadPool.{
  nothing, value, any_func, ThreadPool, new_pool, add_task, all_done, run_worker, enqueue, adds,
  runs, Reach, here, next,
}
use social_network.ThreadPool.Accounting.{working_count}
use social_network.ThreadPool.Callbacks.{handed, called, queued, held, handed-everywhere}
use social_network.ThreadPool.Queue.{all_done-idle}

-- One worker and one place: the second task is refused, with a callback.
abbrev fresh : ThreadPool ℕ
fresh = new_pool 1 1

abbrev after : ThreadPool ℕ
after = (add_task true (any_func (some 8)) (add_task true (any_func (some 7)) fresh).0).0

abbrev finished : ThreadPool ℕ
finished = run_worker 0 (run_worker 0 after)

finished_calls : finished.calls ≡ (1, nothing) ∷ (0, value 7) ∷ []
unfolding add_task new_pool run_worker
finished_calls = refl

finished_done : (all_done after ≡ false) × (all_done finished ≡ true)
unfolding add_task new_pool run_worker all_done
finished_done = (refl, refl)

-- A task that throws is completed, and its callback gets no result.
thrown :
    (run_worker 0 (run_worker 0 (add_task true (any_func none) fresh).0)).calls ≡ (0, nothing) ∷ []
unfolding add_task new_pool run_worker
thrown = refl

finished-Reach : Reach fresh finished
finished-Reach =
    next
      (next (next (next here (adds true (any_func (some 7)))) (adds true (any_func (some 8))))
        (runs 0))
      (runs 0)

all_done-idle_example :
    (all_done finished ≡ true) ↔ ((finished.tasks ≡ []) × (working_count finished.threads ≡ 0))
all_done-idle_example =
    all_done-idle 1 1 finished finished-Reach (unfold add_task new_pool run_worker in omega arith)

-- `enqueue` answers true at a full queue, and the work is dropped.
full : enqueue true (add_task false (any_func (some 7)) fresh).0 ≡ (
  record (add_task false (any_func (some 7)) fresh).0 {
    tasks_last_id = 2;
    tasks_refused_count = 1;
  },
  true,
)
unfolding add_task new_pool enqueue
full = refl

handed-everywhere_example :
    handed 1 finished-Reach
    ≡ called 1 finished.calls + queued 1 finished.tasks + held 1 finished.threads
handed-everywhere_example = handed-everywhere 1 1 1 finished finished-Reach

handed_once : handed 1 finished-Reach ≡ 1
unfolding handed finished-Reach add_task new_pool run_worker
handed_once = refl
