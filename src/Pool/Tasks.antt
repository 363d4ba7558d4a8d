-- ===== src/Pool/Tasks.antt =====
-- `thread_pool_add_task` and the turns of a worker, on every branch.
use uestc_shixvn_mini_web_se.Pool.{
  should_spawn, worker_turn, thread_pool_add_task, enqueue, ThreadPool, Adding, rejected, waits,
  enqueued, Turn, idle, exits, takes,
}
use uestc_shixvn_mini_web_se.Pool.Ring.{
  contents, IsRing, queue, queue-enqueue, enqueue-IsRing, queue-dequeue, dequeue-IsRing,
}
use uestc_shixvn_mini_web_se.Prelude.{
  ℕ, ◌<◌, ◌≡◌, refl, sym, ap, subst, inl, inr, true, false, [], ◌∷◌, ◌++◌, arith, ltb, leb, ◌==◌,
  leb→le, Bool-cases,
}

abbrev pub Admits : ThreadPool → ℕ → Adding → Type 0
Admits pool client_fd rejected = pool.shutdown ≡ true
Admits pool client_fd waits = (pool.shutdown ≡ false) × (pool.count ≡ pool.capacity)
Admits pool client_fd (enqueued pool' spawns) =
    (pool.shutdown ≡ false)
    × (queue pool' ≡ queue pool ++ client_fd ∷ [])
    × IsRing pool'
    × (spawns ≡ ltb pool.num_workers pool.max_size)

enqueue-should_spawn :
    (pool : ThreadPool) (client_fd : ℕ)
    → should_spawn (enqueue client_fd pool) ≡ ltb pool.num_workers pool.max_size
unfolding enqueue
enqueue-should_spawn pool client_fd = ground arith

-- A task is rejected only after the shutdown, has to wait only while the buffer is full, and is
-- otherwise put behind the tasks that wait; a worker is then spawned whenever there are fewer than
-- `max_size`, idle ones or not.
pub thread_pool_add_task-Admits :
    (pool : ThreadPool) (client_fd : ℕ)
    → IsRing pool
    → Admits pool client_fd (thread_pool_add_task pool client_fd)
unfolding thread_pool_add_task
thread_pool_add_task-Admits pool client_fd r = elim (Bool-cases pool.shutdown) [
  | inl down ↦
      let e : thread_pool_add_task pool client_fd ≡ rejected = ground (arith, down) in
      subst (Admits pool client_fd) (sym e) down
  | inr up ↦ elim (Bool-cases (leb pool.capacity pool.count)) [
    | inl full ↦
        let e : thread_pool_add_task pool client_fd ≡ waits = ground (arith, up, full) in
        subst (Admits pool client_fd) (sym e) (up, omega (arith, leb→le _ _ full, r.count_fits))
    | inr room ↦
        let below : pool.count < pool.capacity = ground (arith, room) in
        let pool' = enqueue client_fd pool in
        let e : thread_pool_add_task pool client_fd ≡ enqueued pool' (should_spawn pool') =
          ground (arith, up, room) in
        subst (Admits pool client_fd) (sym e) (
          up,
          queue-enqueue pool client_fd r below,
          enqueue-IsRing pool client_fd r below,
          enqueue-should_spawn pool client_fd,
        )
  ]
]

abbrev pub Serves : ThreadPool → Turn → Type 0
Serves pool idle = (queue pool ≡ []) × (pool.shutdown ≡ false)
Serves pool (exits pool') = (queue pool ≡ []) × (queue pool' ≡ [])
Serves pool (takes client_fd pool') = (queue pool ≡ client_fd ∷ queue pool') × IsRing pool'

queue-none : (pool : ThreadPool) → pool.count ≡ 0 → queue pool ≡ []
queue-none pool e = ap (contents pool.tasks pool.capacity pool.head) e

-- A worker that gets the mutex waits only while there is no task and no shutdown, exits only when
-- no task is left, and otherwise takes the task that waits longest.
pub worker_turn-Serves :
    (slot : ℕ) (pool : ThreadPool) → IsRing pool → Serves pool (worker_turn slot pool)
unfolding worker_turn
worker_turn-Serves slot pool r = elim (Bool-cases (pool.count == 0)) [
  | inl none_left ↦
      let empty = queue-none pool (ground (arith, none_left)) in
      elim (Bool-cases pool.shutdown) [
        | inl down ↦ rw none_left (rw down (empty, empty))
        | inr up ↦ rw none_left (rw up (empty, refl))
      ]
  | inr more ↦
      let some_task : 0 < pool.count = ground (arith, more) in
      rw more (queue-dequeue pool r some_task, dequeue-IsRing pool r some_task)
]
