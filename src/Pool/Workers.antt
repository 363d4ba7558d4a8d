-- ===== src/Pool/Workers.antt =====
-- How many workers the pool counts, in any run of it.
use uestc_shixvn_mini_web_se.Pool.{
  bad_sizes, empty_pool, max_pool_workers, dequeue, enqueue, new_pool, reserve,
  thread_pool_shutdown, release, worker_turn, thread_pool_add_task, free_worker, ThreadPool,
  enqueued, takes,
}
use uestc_shixvn_mini_web_se.Pool.Runs.{
  Run, here, later, Step, adds, serves, leaves, gives_up, spawns, undoes, shuts_down,
}
use uestc_shixvn_mini_web_se.Prelude.{
  >>=-eq-some, ℕ, zero, suc, ◌+◌, ◌≤◌, ◌<◌, min, ◌≡◌, refl, sym, ap, subst, inl, inr, Bool, true,
  false, some, List, [], ◌∷◌, arith, set, get_or, replicate, get_or-set, ◌==◌, Bool-cases,
  Option-cases,
}

-- The slots in use.
abbrev pub in_use : List Bool → ℕ
in_use [] = 0
in_use (true ∷ active) = suc (in_use active)
in_use (false ∷ active) = in_use active

pub record IsStaffed (limit : ℕ) (pool : ThreadPool) : Type 0 where
  pub counted : pool.num_workers ≡ in_use pool.worker_active
  pub limited : pool.max_size ≡ limit
  pub below : (s : ℕ) → get_or pool.worker_active s false ≡ true → s < limit

in_use_bound :
    (active : List Bool) (limit : ℕ)
    → ((s : ℕ) → get_or active s false ≡ true → s < limit)
    → in_use active ≤ limit
in_use_bound [] limit h = omega arith
in_use_bound (false ∷ active) limit h =
    in_use_bound active limit (λ s e. omega (arith, h (suc s) e))
in_use_bound (true ∷ active) zero h = absurd (omega (arith, h 0 refl))
in_use_bound (true ∷ active) (suc limit) h =
    omega (arith, in_use_bound active limit (λ s e. omega (arith, h (suc s) e)))

in_use-release :
    (active : List Bool) (s : ℕ)
    → get_or active s false ≡ true
    → suc (in_use (set active s false)) ≡ in_use active
in_use-release [] s h = absurd (ground (arith, h))
in_use-release (true ∷ active) zero h = refl
in_use-release (false ∷ active) zero h = absurd (ground (arith, h))
in_use-release (true ∷ active) (suc s) h = ap suc (in_use-release active s h)
in_use-release (false ∷ active) (suc s) h = in_use-release active s h

-- The slot that is reserved was free, and below the bound.
abbrev IsReserved : ℕ → List Bool → ℕ → Type 0
IsReserved n active s = (s < n) × (in_use (set active s true) ≡ suc (in_use active))

free_worker-IsReserved :
    (n : ℕ) (active : List Bool) (s : ℕ) → free_worker n active ≡ some s → IsReserved n active s
unfolding free_worker
free_worker-IsReserved zero active s h = cc
free_worker-IsReserved (suc n) [] s h = cc
free_worker-IsReserved (suc n) (false ∷ active) s h =
    let same : 0 ≡ s = ground (arith, h) in
    let r : IsReserved (suc n) (false ∷ active) 0 = (omega arith, refl) in
    subst (IsReserved (suc n) (false ∷ active)) same r
free_worker-IsReserved (suc n) (true ∷ active) s h = elim (Option-cases (free_worker n active)) [
  | inl e ↦ absurd (ground (arith, e, h))
  | inr (k, e) ↦
      let same : suc k ≡ s = ground (arith, e, h) in
      let (b, one_more) = free_worker-IsReserved n active k e in
      let r : IsReserved (suc n) (true ∷ active) (suc k) = (omega arith, ap suc one_more) in
      subst (IsReserved (suc n) (true ∷ active)) same r
]

module _ (limit : ℕ) (pool : ThreadPool) (i : IsStaffed limit pool) where
  enqueue-IsStaffed :
      (fd : ℕ) (pool' : ThreadPool) (b : Bool)
      → thread_pool_add_task pool fd ≡ enqueued pool' b
      → IsStaffed limit pool'
  unfolding thread_pool_add_task enqueue
  enqueue-IsStaffed fd pool' b h =
      let same : enqueue fd pool ≡ pool' = ground (arith, h) in
      let r : IsStaffed limit (enqueue fd pool) = record {
        counted = i.counted;
        limited = i.limited;
        below = i.below;
      } in
      subst (IsStaffed limit) same r

  dequeue-IsStaffed :
      (slot fd : ℕ) (pool' : ThreadPool)
      → worker_turn slot pool ≡ takes fd pool'
      → IsStaffed limit pool'
  unfolding worker_turn dequeue
  dequeue-IsStaffed slot fd pool' h =
      let same : (dequeue pool).1 ≡ pool' = ground (arith, h) in
      let r : IsStaffed limit (dequeue pool).1 = record {
        counted = i.counted;
        limited = i.limited;
        below = i.below;
      } in
      subst (IsStaffed limit) same r

  release-IsStaffed :
      (slot : ℕ) → get_or pool.worker_active slot false ≡ true → IsStaffed limit (release slot pool)
  release-IsStaffed slot a = record {
    counted = omega (arith, i.counted, in_use-release pool.worker_active slot a);
    limited = i.limited;
    below = λ s e. i.below s (ground (arith, e, get_or-set pool.worker_active slot s false false));
  }

  shutdown-IsStaffed : IsStaffed limit (thread_pool_shutdown pool)
  shutdown-IsStaffed = record { counted = i.counted; limited = i.limited; below = i.below }

  reserve-IsStaffed :
      (slot : ℕ) (pool' : ThreadPool) → reserve pool ≡ some (slot, pool') → IsStaffed limit pool'
  unfolding reserve
  reserve-IsStaffed slot pool' h =
      let (s, found, e) = >>=-eq-some (free_worker pool.max_size pool.worker_active) _ h in
      let (b, one_more) = free_worker-IsReserved pool.max_size pool.worker_active s found in
      let q : ThreadPool = record pool {
        worker_active = set pool.worker_active s true;
        num_workers = pool.num_workers + 1;
      } in
      let same : q ≡ pool' = ground (arith, e) in
      let r : IsStaffed limit q = record {
        counted = omega (arith, i.counted, one_more);
        limited = i.limited;
        below = λ t on. reserved_below s t b on;
      } in
      subst (IsStaffed limit) same r
    where
      reserved_below :
          (s t : ℕ)
          → s < pool.max_size
          → get_or (set pool.worker_active s true) t false ≡ true
          → t < limit
      reserved_below s t b on = elim (Bool-cases (t == s)) [
        | inl here' ↦ ground (arith, here', i.limited)
        | inr there ↦
            i.below t (ground (arith, on, there, get_or-set pool.worker_active s t true false))
      ]

Step-IsStaffed :
    (limit : ℕ) (pool : ThreadPool) (p t : List ℕ) (pool' : ThreadPool)
    → IsStaffed limit pool
    → Step pool p t pool'
    → IsStaffed limit pool'
Step-IsStaffed limit pool _ _ pool' i (adds fd e) = enqueue-IsStaffed limit pool i fd pool' _ e
Step-IsStaffed limit pool _ _ pool' i (serves slot e) =
    dequeue-IsStaffed limit pool i slot _ pool' e
Step-IsStaffed limit pool _ _ _ i (leaves slot a e) = release-IsStaffed limit pool i slot a
Step-IsStaffed limit pool _ _ _ i (gives_up slot a e) = release-IsStaffed limit pool i slot a
Step-IsStaffed limit pool _ _ _ i (spawns e) = reserve-IsStaffed limit pool i _ _ e
Step-IsStaffed limit pool _ _ _ i (undoes slot a) = release-IsStaffed limit pool i slot a
Step-IsStaffed limit pool _ _ _ i shuts_down = shutdown-IsStaffed limit pool i

Run-IsStaffed :
    (limit : ℕ) (start : ThreadPool) (put taken : List ℕ) (pool : ThreadPool)
    → IsStaffed limit start
    → Run start put taken pool
    → IsStaffed limit pool
Run-IsStaffed limit start _ _ pool i here = i
Run-IsStaffed limit start _ _ pool' i
      (later {put = put} {taken = taken} {p = p} {t = t} {pool = pool} run s) =
    Step-IsStaffed limit pool p t pool' (Run-IsStaffed limit start put taken pool i run) s

none_in_use : (n : ℕ) → in_use (replicate n false) ≡ 0
none_in_use zero = refl
none_in_use (suc n) = none_in_use n

none_is_active : (n s : ℕ) → get_or (replicate n false) s false ≡ false
none_is_active zero s = refl
none_is_active (suc n) zero = refl
none_is_active (suc n) (suc s) = none_is_active n s

new_pool-IsStaffed :
    (core_size max_size queue_capacity : ℕ) (pool : ThreadPool)
    → new_pool core_size max_size queue_capacity ≡ some pool
    → IsStaffed (min max_size max_pool_workers) pool
unfolding new_pool
new_pool-IsStaffed core_size max_size queue_capacity pool h =
    let start = empty_pool core_size max_size queue_capacity in
    elim (Bool-cases (bad_sizes core_size max_size queue_capacity)) [
      | inl bad ↦ absurd (ground (arith, bad, h))
      | inr good ↦
          let same : start ≡ pool = ground (arith, good, h) in
          let r : IsStaffed (min max_size max_pool_workers) start = record {
            counted = sym (none_in_use max_pool_workers);
            limited = refl;
            below = λ s on. absurd (ground (arith, on, none_is_active max_pool_workers s));
          } in
          subst (IsStaffed (min max_size max_pool_workers)) same r
    ]

-- In any run of a pool from its creation on, `num_workers` is the number of slots in use, and never
-- more than `max_size` as given, nor than 64.
pub thread_pool_num_workers :
    (core_size max_size queue_capacity : ℕ) (start pool : ThreadPool) (put taken : List ℕ)
    → new_pool core_size max_size queue_capacity ≡ some start
    → Run start put taken pool
    → (pool.num_workers ≡ in_use pool.worker_active)
      × (pool.num_workers ≤ min max_size max_pool_workers)
thread_pool_num_workers core_size max_size queue_capacity start pool put taken h run =
    let limit = min max_size max_pool_workers in
    let i =
      Run-IsStaffed limit start put taken pool
        (new_pool-IsStaffed core_size max_size queue_capacity start h) run in
    (i.counted, omega (arith, i.counted, in_use_bound pool.worker_active limit i.below))
