-- ===== src/Pool/Runs.antt =====
-- Runs of the pool: what its threads do, one after the other, while they hold the mutex.
use uestc_shixvn_mini_web_se.Pool.{
  bad_sizes, empty_pool, timed_out, free_worker, worker_turn, new_pool, reserve,
  thread_pool_shutdown, release, thread_pool_add_task, ThreadPool, enqueued, exits, takes,
}
use uestc_shixvn_mini_web_se.Pool.Ring.{IsRing, queue}
use uestc_shixvn_mini_web_se.Pool.Tasks.{
  thread_pool_add_task-Admits, worker_turn-Serves, Admits, Serves,
}
use uestc_shixvn_mini_web_se.Prelude.{
  >>=-eq-some, ℕ, ◌+◌, ◌<◌, ◌≡◌, refl, sym, ap, subst, ◌∙◌, inl, inr, Bool, true, false, some, List,
  [], ◌∷◌, ◌++◌, append-nil, append_assoc, arith, set, get_or, length-replicate, Bool-cases,
}

-- A step puts in and takes out the tasks that stand in front of the state it leads to. A worker's
-- thread runs while its slot is in use.
pub data Step (pool : ThreadPool) : List ℕ → List ℕ → ThreadPool → Type 0 where
  adds :
      (client_fd : ℕ) {pool' : ThreadPool} {spawns : Bool}
      → thread_pool_add_task pool client_fd ≡ enqueued pool' spawns
      → Step pool (client_fd ∷ []) [] pool'
  serves :
      (slot : ℕ) {client_fd : ℕ} {pool' : ThreadPool}
      → worker_turn slot pool ≡ takes client_fd pool'
      → Step pool [] (client_fd ∷ []) pool'
  leaves :
      (slot : ℕ)
      → get_or pool.worker_active slot false ≡ true
      → worker_turn slot pool ≡ exits (release slot pool)
      → Step pool [] [] (release slot pool)
  gives_up :
      (slot : ℕ)
      → get_or pool.worker_active slot false ≡ true
      → timed_out slot pool ≡ exits (release slot pool)
      → Step pool [] [] (release slot pool)
  spawns :
      {slot : ℕ} {pool' : ThreadPool} → reserve pool ≡ some (slot, pool') → Step pool [] [] pool'
  undoes :
      (slot : ℕ) → get_or pool.worker_active slot false ≡ true → Step pool [] [] (release slot pool)
  shuts_down : Step pool [] [] (thread_pool_shutdown pool)

-- The tasks put in and taken out since the pool was created.
pub data Run (start : ThreadPool) : List ℕ → List ℕ → ThreadPool → Type 0 where
  here : Run start [] [] start
  later :
      {put taken p t : List ℕ} {pool pool' : ThreadPool}
      → Run start put taken pool
      → Step pool p t pool'
      → Run start (put ++ p) (taken ++ t) pool'

-- Every state keeps to the ring, and what was put in is what was taken out and what still waits.
abbrev Accounts : List ℕ → List ℕ → ThreadPool → Type 0
Accounts put taken pool = IsRing pool × (put ≡ taken ++ queue pool)

release-IsRing : (slot : ℕ) (pool : ThreadPool) → IsRing pool → IsRing (release slot pool)
release-IsRing slot pool r = record {
  sized = r.sized;
  head_inside = r.head_inside;
  count_fits = r.count_fits;
  tail_follows = r.tail_follows;
}

shutdown-IsRing : (pool : ThreadPool) → IsRing pool → IsRing (thread_pool_shutdown pool)
shutdown-IsRing pool r = record {
  sized = r.sized;
  head_inside = r.head_inside;
  count_fits = r.count_fits;
  tail_follows = r.tail_follows;
}

-- What a step does to the queue.
abbrev Moves : ThreadPool → List ℕ → List ℕ → ThreadPool → Type 0
Moves pool p t pool' = IsRing pool' × (queue pool ++ p ≡ t ++ queue pool')

quiet : (pool pool' : ThreadPool) → queue pool' ≡ queue pool → IsRing pool' → Moves pool [] [] pool'
quiet pool pool' e r = (r, append-nil (queue pool) ∙ sym e)

reserve-Moves :
    (pool pool' : ThreadPool) (slot : ℕ)
    → IsRing pool
    → reserve pool ≡ some (slot, pool')
    → Moves pool [] [] pool'
unfolding reserve
reserve-Moves pool pool' slot r h =
    let (s, found, e) = >>=-eq-some (free_worker pool.max_size pool.worker_active) _ h in
    let q : ThreadPool = record pool {
      worker_active = set pool.worker_active s true;
      num_workers = pool.num_workers + 1;
    } in
    let same : q ≡ pool' = ground (arith, e) in
    subst (Moves pool [] []) same (
      quiet pool q refl (record {
        sized = r.sized;
        head_inside = r.head_inside;
        count_fits = r.count_fits;
        tail_follows = r.tail_follows;
      }))

Step-Moves :
    (pool : ThreadPool) (p t : List ℕ) (pool' : ThreadPool)
    → IsRing pool
    → Step pool p t pool'
    → Moves pool p t pool'
Step-Moves pool _ _ pool' r (adds fd e) =
    let (up, q, r', s) = subst (Admits pool fd) e (thread_pool_add_task-Admits pool fd r) in
    (r', sym q)
Step-Moves pool _ _ pool' r (serves slot e) =
    let (q, r') = subst (Serves pool) e (worker_turn-Serves slot pool r) in
    (r', append-nil (queue pool) ∙ q)
Step-Moves pool _ _ _ r (leaves slot a e) = quiet pool _ refl (release-IsRing slot pool r)
Step-Moves pool _ _ _ r (gives_up slot a e) = quiet pool _ refl (release-IsRing slot pool r)
Step-Moves pool _ _ _ r (spawns e) = reserve-Moves pool _ _ r e
Step-Moves pool _ _ _ r (undoes slot a) = quiet pool _ refl (release-IsRing slot pool r)
Step-Moves pool _ _ _ r shuts_down = quiet pool _ refl (shutdown-IsRing pool r)

Run-Accounts :
    (start : ThreadPool) (put taken : List ℕ) (pool : ThreadPool)
    → IsRing start
    → queue start ≡ []
    → Run start put taken pool
    → Accounts put taken pool
Run-Accounts start _ _ pool r e here = (r, sym e)
Run-Accounts start _ _ pool' r e
      (later {put = put} {taken = taken} {p = p} {t = t} {pool = pool} run s) =
    let (r1, balance) = Run-Accounts start put taken pool r e run in
    let (r2, moves) = Step-Moves pool p t pool' r1 s in
    (
      r2,
      ap (λ l. l ++ p) balance
          ∙ append_assoc taken (queue pool) p
          ∙ ap (◌++◌ taken) moves
          ∙ sym (append_assoc taken t (queue pool')),
    )

new_pool-IsRing :
    (core_size max_size queue_capacity : ℕ) (pool : ThreadPool)
    → new_pool core_size max_size queue_capacity ≡ some pool
    → IsRing pool × (queue pool ≡ [])
unfolding new_pool
new_pool-IsRing core_size max_size queue_capacity pool h =
    let start = empty_pool core_size max_size queue_capacity in
    elim (Bool-cases (bad_sizes core_size max_size queue_capacity)) [
      | inl bad ↦ absurd (ground (arith, bad, h))
      | inr good ↦
          let some_room : 0 < queue_capacity = ground (arith, good) in
          let same : start ≡ pool = ground (arith, good, h) in
          let r : IsRing start = record {
            sized = length-replicate queue_capacity 0;
            head_inside = some_room;
            count_fits = omega arith;
            tail_follows = ground arith;
          } in
          subst (λ q. IsRing q × (queue q ≡ [])) same (r, refl)
    ]

-- From the creation of a pool on, whatever its threads do in whatever order: the tasks that were
-- added are the tasks that workers took, in the same order, followed by those that still wait. No
-- task is lost, taken twice or overtaken.
pub thread_pool_is_fifo :
    (core_size max_size queue_capacity : ℕ) (start pool : ThreadPool) (put taken : List ℕ)
    → new_pool core_size max_size queue_capacity ≡ some start
    → Run start put taken pool
    → put ≡ taken ++ queue pool
thread_pool_is_fifo core_size max_size queue_capacity start pool put taken h run =
    let (r, e) = new_pool-IsRing core_size max_size queue_capacity start h in
    (Run-Accounts start put taken pool r e run).1
