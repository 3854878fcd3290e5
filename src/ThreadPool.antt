-- ===== src/ThreadPool.antt =====
-- service/include/helpers/thread_pool.h, service/sources/helpers/thread_pool.cpp, and the
-- `ThreadPoolAdaptor` of service/include/app.h. A member that holds the mutex is one step, and so is
-- one passage of a worker. The callback of a refused task, which the code makes when it has left the
-- mutex, is made in the step of `add_task`. A task that throws throws a `std::exception`.
pub mod Accounting
pub mod Callbacks
pub mod Queue
mod Tests
use social_network.Prelude.{
  ℕ, zero, suc, ◌+◌, ◌%◌, ◌^◌, Bool, true, false, not, ◌&&◌, List, [], ◌∷◌, ◌++◌, Option, none,
  some, ltb, ◌==◌, if◌then◌else◌, length, get_elem?, set, is_empty,
}

-- `std::any`: empty, the `0` of the function that stands in for a void one, or a result.
pub data Any (R : Type 0) : Type 0 where
  nothing : Any R
  int_zero : Any R
  value : R → Any R

-- What is submitted: a void function, which returns or throws, or one that returns a value or throws.
pub data Func (R : Type 0) : Type 0 where
  void_func : Bool → Func R
  any_func : Option R → Func R

pub record PooledTask (R : Type 0) : Type 0 where
  pub is_void : Bool
  pub func : Func R
  pub result : Any R

-- `TaskMeta`; `cb` tells if the callback is set.
pub record TaskMeta : Type 0 where
  pub id : ℕ
  pub cb : Bool

-- A worker stands at the condition of its loop, has a task in hand, or has returned from `run`.
pub data Worker (R : Type 0) : Type 0 where
  waiting exited : Worker R
  working : PooledTask R → TaskMeta → Worker R

-- `calls` lists the callbacks that were made, each by the number of its task.
pub record ThreadPool (R : Type 0) : Type 0 where
  pub threads_max_count : ℕ
  pub tasks_max_capacity : ℕ
  pub tasks_last_id : ℕ
  pub tasks_completed_count : ℕ
  pub tasks_refused_count : ℕ
  pub threads_stop : Bool
  pub threads : List (Worker R)
  pub tasks : List (PooledTask R × TaskMeta)
  pub calls : List (ℕ × Any R)

abbrev pub uint64 : ℕ → ℕ
uint64 n = n % 18446744073709551616

module _ {R : Type 0} where
  unfoldable pub new_task : Func R → PooledTask R
  new_task (void_func returns) = record {
    is_void = true;
    func = void_func returns;
    result = nothing;
  }
  new_task (any_func v) = record { is_void = false; func = any_func v; result = nothing }

  -- `operator ()`; an exception leaves `result` empty, and `run` catches it.
  unfoldable pub run_func : Func R → Any R
  run_func (void_func true) = int_zero
  run_func (void_func false) = nothing
  run_func (any_func (some v)) = value v
  run_func (any_func none) = nothing

  unfoldable pub call : PooledTask R → PooledTask R
  unfolding run_func
  call task = record task { result = run_func task.func }

  unfoldable pub get_result : PooledTask R → Any R
  get_result task = if task.is_void then nothing else task.result

  unfoldable pub idle_workers : ℕ → List (Worker R)
  idle_workers zero = []
  idle_workers (suc n) = waiting ∷ idle_workers n

  unfoldable pub new_pool : ℕ → ℕ → ThreadPool R
  unfolding idle_workers
  new_pool threads_count tasks_capacity = record {
    threads_max_count = threads_count;
    tasks_max_capacity = tasks_capacity;
    tasks_last_id = 0;
    tasks_completed_count = 0;
    tasks_refused_count = 0;
    threads_stop = false;
    threads = idle_workers threads_count;
    tasks = [];
    calls = [];
  }

  -- `if (cb) cb(result);`
  abbrev pub notify : Bool → ℕ → Any R → List (ℕ × Any R) → List (ℕ × Any R)
  notify cb id result calls = if cb then calls ++ (id, result) ∷ [] else calls

  unfoldable pub add_task : Bool → Func R → ThreadPool R → ThreadPool R × Option ℕ
  unfolding new_task
  add_task cb func p =
      let id = p.tasks_last_id in
      if ltb (length p.tasks) p.tasks_max_capacity
      then (
        record p {
          tasks_last_id = uint64 (id + 1);
          tasks = p.tasks ++ (new_task func, record { id = id; cb = cb }) ∷ [];
        },
        some id,
      )
      else (
        record p {
          tasks_last_id = uint64 (id + 1);
          tasks_refused_count = uint64 (p.tasks_refused_count + 1);
          calls = notify cb id nothing p.calls;
        },
        (if cb then none else some id),
      )

  -- The condition that `wait_all` waits for.
  unfoldable pub all_done : ThreadPool R → Bool
  all_done p = uint64 (p.tasks_completed_count + p.tasks_refused_count) == p.tasks_last_id

  -- At the wait: with a task it goes to work, and if it must stop it leaves the loop.
  unfoldable pub take_task : ThreadPool R → List (PooledTask R × TaskMeta) → ThreadPool R × Worker R
  take_task p [] = if p.threads_stop then (p, exited) else (p, waiting)
  take_task p ((task, meta) ∷ rest) =
      if p.threads_stop then (p, exited) else (record p { tasks = rest }, working task meta)

  -- One passage of a worker through `run`.
  unfoldable pub run : ThreadPool R → Worker R → ThreadPool R × Worker R
  unfolding take_task call get_result
  run p waiting = take_task p p.tasks
  run p exited = (p, exited)
  run p (working task meta) = (
    record p {
      tasks_completed_count = uint64 (p.tasks_completed_count + 1);
      calls = notify meta.cb meta.id (get_result (call task)) p.calls;
    },
    waiting,
  )

  abbrev pub store_worker : ℕ → ThreadPool R × Worker R → ThreadPool R
  store_worker i (p, w) = record p { threads = set p.threads i w }

  -- Worker `i` goes on.
  unfoldable pub run_worker : ℕ → ThreadPool R → ThreadPool R
  unfolding run
  run_worker i p = elim (get_elem? p.threads i) [ none ↦ p | some w ↦ store_worker i (run p w) ]

  -- What the destructor does before it joins the workers.
  unfoldable pub stop : ThreadPool R → ThreadPool R
  stop p = record p { threads_stop = true }

  -- `ThreadPoolAdaptor::enqueue`.
  unfoldable pub enqueue : Bool → ThreadPool R → ThreadPool R × Bool
  unfolding add_task
  enqueue returns p =
      let (p', id) = add_task false (void_func returns) p in
      (p', elim id [ none ↦ false | some n ↦ true ])

-- Any interleaving of the clients, of the workers and of the destructor.
pub data Step {R : Type 0} : ThreadPool R → ThreadPool R → Type 0 where
  adds : {p : ThreadPool R} → (cb : Bool) (func : Func R) → Step p (add_task cb func p).0
  runs : {p : ThreadPool R} → (i : ℕ) → Step p (run_worker i p)
  stops : {p : ThreadPool R} → Step p (stop p)

pub data Reach {R : Type 0} (p : ThreadPool R) : ThreadPool R → Type 0 where
  here : Reach p p
  next : {q r : ThreadPool R} → Reach p q → Step q r → Reach p r
