-- ===== src/Pool.antt =====
-- src/thread_pool.c and include/thread_pool.h: the pool's state between two holders of its mutex,
-- and what each of them does while it holds it.
pub mod Ring
pub mod Tasks
pub mod Workers
mod Tests
pub mod Runs
use mathlib.Core.Option
use uestc_shixvn_mini_web_se.Prelude.{
  Bytes, ◌>>=◌, >>=-eq-some, ℕ, zero, suc, ◌+◌, ◌-◌, ◌*◌, ◌/◌, ◌%◌, ◌^◌, ◌≤◌, ◌<◌, min, bit_or, ◌≡◌,
  refl, sym, ap, subst, ◌∙◌, ◌≢◌, ◌↔◌, ◌⊎◌, inl, inr, Bool, true, false, not, ◌&&◌, ◌||◌, Option,
  none, some, List, [], ◌∷◌, ◌++◌, map, append-nil, append_assoc, arith, ℤ, sub_ℕ, to_nat, is_int,
  pos, negsuc, length, get_elem?, set, length-append, length-set, get_elem?-set_self,
  get_elem?-set_ne, get_or, take, drop, replicate, take-append-drop, length-take, length-drop,
  length-replicate, length-map, get_or-set, get_or-beyond, passes, passes-at, ltb, leb, ◌==◌,
  if◌then◌else◌, ltb→lt, lt→ltb, leb→le, ==_iff, tests, Bool-cases, Option-cases, codes,
}

abbrev pub max_pool_workers : ℕ
max_pool_workers = 64

-- A task is its `client_fd`; `capacity` is the length of the array.
pub record ThreadPool : Type 0 where
  pub tasks : List ℕ
  pub capacity : ℕ
  pub count : ℕ
  pub head : ℕ
  pub tail : ℕ
  pub worker_active : List Bool
  pub num_workers : ℕ
  pub core_size : ℕ
  pub max_size : ℕ
  pub shutdown : Bool
  pub total_processed : ℕ
  pub total_errors : ℕ
  pub peak_workers : ℕ

-- The fields that `thread_pool_create` sets, before it spawns the core workers.
abbrev pub empty_pool : ℕ → ℕ → ℕ → ThreadPool
empty_pool core_size max_size queue_capacity = record {
  tasks = replicate queue_capacity 0;
  capacity = queue_capacity;
  count = 0;
  head = 0;
  tail = 0;
  worker_active = replicate max_pool_workers false;
  num_workers = 0;
  core_size = core_size;
  max_size = min max_size max_pool_workers;
  shutdown = false;
  total_processed = 0;
  total_errors = 0;
  peak_workers = 0;
}

abbrev pub bad_sizes : ℕ → ℕ → ℕ → Bool
bad_sizes core_size max_size queue_capacity =
    ltb core_size 1 || (ltb max_size core_size || ltb queue_capacity 1)

unfoldable pub new_pool : ℕ → ℕ → ℕ → Option ThreadPool
new_pool core_size max_size queue_capacity =
    if bad_sizes core_size max_size queue_capacity
    then none
    else some (empty_pool core_size max_size queue_capacity)

unfoldable pub enqueue : ℕ → ThreadPool → ThreadPool
enqueue client_fd pool = record pool {
  tasks = set pool.tasks pool.tail client_fd;
  tail = (pool.tail + 1) % pool.capacity;
  count = pool.count + 1;
}

unfoldable pub dequeue : ThreadPool → ℕ × ThreadPool
dequeue pool = (
  get_or pool.tasks pool.head 0,
  record pool { head = (pool.head + 1) % pool.capacity; count = pool.count - 1 },
)

-- `thread_pool_add_task`, each time that it gets the mutex: it is rejected, waits for room, or has
-- put the task in; the flag is `should_spawn`.
pub data Adding : Type 0 where
  rejected waits : Adding
  enqueued : ThreadPool → Bool → Adding

abbrev pub should_spawn : ThreadPool → Bool
should_spawn pool = ltb 0 pool.count && ltb pool.num_workers pool.max_size

unfoldable pub thread_pool_add_task : ThreadPool → ℕ → Adding
thread_pool_add_task pool client_fd =
    if pool.shutdown
    then rejected
    else if leb pool.capacity pool.count
    then waits
    else enqueued (enqueue client_fd pool) (should_spawn (enqueue client_fd pool))

-- A worker, each time that it gets the mutex: it waits, exits, or has taken a task.
pub data Turn : Type 0 where
  idle : Turn
  exits : ThreadPool → Turn
  takes : ℕ → ThreadPool → Turn

-- The worker of a slot leaves.
abbrev pub release : ℕ → ThreadPool → ThreadPool
release slot pool = record pool {
  worker_active = set pool.worker_active slot false;
  num_workers = pool.num_workers - 1;
}

unfoldable pub worker_turn : ℕ → ThreadPool → Turn
worker_turn slot pool =
    if pool.count == 0
    then (if pool.shutdown then exits (release slot pool) else idle)
    else takes (dequeue pool).0 (dequeue pool).1

-- A wait of an extra worker that timed out.
unfoldable pub timed_out : ℕ → ThreadPool → Turn
timed_out slot pool =
    if pool.count == 0 && not pool.shutdown
    then exits (release slot pool)
    else worker_turn slot pool

-- The first slot below `max_size` that is not in use.
unfoldable pub free_worker : ℕ → List Bool → Option ℕ
free_worker zero active = none
free_worker (suc n) [] = none
free_worker (suc n) (b ∷ active) =
    let rest = free_worker n active in if b then Option.map suc rest else some 0

-- `spawn_worker` up to the creation of the thread, and what it undoes if that fails.
unfoldable pub reserve : ThreadPool → Option (ℕ × ThreadPool)
reserve pool = free_worker pool.max_size pool.worker_active >>= λ slot. some (
  slot,
  record pool {
    worker_active = set pool.worker_active slot true;
    num_workers = pool.num_workers + 1;
  },
)

abbrev pub thread_pool_shutdown : ThreadPool → ThreadPool
thread_pool_shutdown pool = record pool { shutdown = true }
