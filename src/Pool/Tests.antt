-- ===== src/Pool/Tests.antt =====
-- A run of the pool, and its theorems at it.
use uestc_shixvn_mini_web_se.Pool.{
  max_pool_workers, dequeue, enqueue, free_worker, new_pool, worker_turn, thread_pool_add_task,
  reserve, empty_pool, ThreadPool, enqueued, takes,
}
use uestc_shixvn_mini_web_se.Pool.Runs.{Run, here, later, adds, serves, spawns, thread_pool_is_fifo}
use uestc_shixvn_mini_web_se.Pool.Workers.{in_use, thread_pool_num_workers}
use uestc_shixvn_mini_web_se.Pool.Tasks.{
  thread_pool_add_task-Admits, worker_turn-Serves, Admits, Serves,
}
use uestc_shixvn_mini_web_se.Pool.Ring.{IsRing, queue}
use uestc_shixvn_mini_web_se.Prelude.{◌≤◌, min, ◌≡◌, refl, true, some, [], ◌∷◌, ◌++◌, arith, set}

abbrev start : ThreadPool
start = empty_pool 1 2 2

abbrev staffed : ThreadPool
staffed = record start { worker_active = set start.worker_active 0 true; num_workers = 1 }

abbrev after_one : ThreadPool
after_one = record staffed { tasks = 7 ∷ 0 ∷ []; tail = 1; count = 1 }

abbrev after_two : ThreadPool
after_two = record staffed { tasks = 7 ∷ 8 ∷ []; tail = 0; count = 2 }

abbrev after_three : ThreadPool
after_three = record after_two { head = 1; count = 1 }

reserved : reserve start ≡ some (0, staffed)
unfolding reserve free_worker
reserved = refl

first_added : thread_pool_add_task staffed 7 ≡ enqueued after_one true
unfolding thread_pool_add_task enqueue
first_added = refl

second_added : thread_pool_add_task after_one 8 ≡ enqueued after_two true
unfolding thread_pool_add_task enqueue
second_added = refl

first_taken : worker_turn 0 after_two ≡ takes 7 after_three
unfolding worker_turn dequeue
first_taken = refl

run : Run start (7 ∷ 8 ∷ []) (7 ∷ []) after_three
run =
    later (later (later (later here (spawns reserved)) (adds 7 first_added)) (adds 8 second_added))
      (serves 0 first_taken)

created : new_pool 1 2 2 ≡ some start
unfolding new_pool
created = refl

two-IsRing : IsRing after_two
two-IsRing = record {
  sized = refl;
  head_inside = omega arith;
  count_fits = omega arith;
  tail_follows = refl;
}

thread_pool_is_fifo_example : 7 ∷ 8 ∷ [] ≡ (7 ∷ []) ++ queue after_three
thread_pool_is_fifo_example =
    thread_pool_is_fifo 1 2 2 start after_three (7 ∷ 8 ∷ []) (7 ∷ []) created run

thread_pool_num_workers_example :
    (after_three.num_workers ≡ in_use after_three.worker_active)
    × (after_three.num_workers ≤ min 2 max_pool_workers)
thread_pool_num_workers_example =
    thread_pool_num_workers 1 2 2 start after_three (7 ∷ 8 ∷ []) (7 ∷ []) created run

thread_pool_add_task-Admits_example : Admits after_two 9 (thread_pool_add_task after_two 9)
thread_pool_add_task-Admits_example = thread_pool_add_task-Admits after_two 9 two-IsRing

worker_turn-Serves_example : Serves after_two (worker_turn 0 after_two)
worker_turn-Serves_example = worker_turn-Serves 0 after_two two-IsRing
