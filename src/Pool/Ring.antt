-- ===== src/Pool/Ring.antt =====
-- The ring buffer of the pool is a queue: what is put in last comes out last.
use native.Mathlib.Nat.{mod_self, mod-eq_of_lt}
use uestc_shixvn_mini_web_se.Pool.{dequeue, enqueue, ThreadPool}
use uestc_shixvn_mini_web_se.Prelude.{
  ℕ, zero, suc, ◌+◌, ◌-◌, ◌%◌, ◌≤◌, ◌<◌, ◌≡◌, refl, sym, ap, subst, ◌∙◌, ◌≢◌, ◌⊎◌, inl, inr, List,
  [], ◌∷◌, ◌++◌, arith, length, set, length-set, get_or, get_or-set, ltb, if◌then◌else◌, ltb→lt,
  Bool-cases,
}

-- The tasks that wait, the first one first.
abbrev pub contents : List ℕ → ℕ → ℕ → ℕ → List ℕ
contents tasks capacity head zero = []
contents tasks capacity head (suc count) =
    get_or tasks head 0 ∷ contents tasks capacity ((head + 1) % capacity) count

abbrev pub queue : ThreadPool → List ℕ
queue pool = contents pool.tasks pool.capacity pool.head pool.count

-- The n-th place behind the head.
abbrev pub place : ℕ → ℕ → ℕ → ℕ
place capacity head n = if ltb (head + n) capacity then head + n else head + n - capacity

pub record IsRing (pool : ThreadPool) : Type 0 where
  pub sized : length pool.tasks ≡ pool.capacity
  pub head_inside : pool.head < pool.capacity
  pub count_fits : pool.count ≤ pool.capacity
  pub tail_follows : pool.tail ≡ place pool.capacity pool.head pool.count

-- One step round the ring.
step_cases :
    (capacity i : ℕ)
    → i < capacity
    → ((i + 1 < capacity) × ((i + 1) % capacity ≡ i + 1))
      ⊎ ((i + 1 ≡ capacity) × ((i + 1) % capacity ≡ 0))
step_cases capacity i h = elim (Bool-cases (ltb (i + 1) capacity)) [
  | inl e ↦ let below = ltb→lt _ _ e in inl (below, mod-eq_of_lt below)
  | inr e ↦
      let last : i + 1 ≡ capacity = ground (arith, e) in
      inr (last, subst (λ n. n % capacity ≡ 0) (sym last) (mod_self capacity))
]

place-next :
    (capacity head n : ℕ)
    → head < capacity
    → n + 1 < capacity + 1
    → place capacity ((head + 1) % capacity) n ≡ place capacity head (suc n)
place-next capacity head n h b = ground (arith, step_cases capacity head h)

next_below : (capacity head : ℕ) → head < capacity → (head + 1) % capacity < capacity
next_below capacity head h = ground (arith, step_cases capacity head h)

-- The last task stands in the last place.
contents_last :
    (tasks : List ℕ) (capacity head n : ℕ)
    → head < capacity
    → n < capacity
    → contents tasks capacity head (suc n)
      ≡ contents tasks capacity head n ++ get_or tasks (place capacity head n) 0 ∷ []
contents_last tasks capacity head zero h b = ground arith
contents_last tasks capacity head (suc n) h b = ap (◌∷◌ (get_or tasks head 0)) (
    contents_last tasks capacity ((head + 1) % capacity) n (next_below capacity head h)
      (omega arith)
    ∙ ap (λ i. contents tasks capacity ((head + 1) % capacity) n ++ get_or tasks i 0 ∷ [])
        (place-next capacity head n h (omega arith)))

-- A write behind the tasks that wait changes none of them.
contents-set :
    (tasks : List ℕ) (capacity head n m v : ℕ)
    → head < capacity
    → n ≤ m
    → m < capacity
    → contents (set tasks (place capacity head m) v) capacity head n
      ≡ contents tasks capacity head n
contents-set tasks capacity head zero m v h le b = refl
contents-set tasks capacity head (suc n) zero v h le b = absurd (omega arith)
contents-set tasks capacity head (suc n) (suc m) v h le b =
    let apart : place capacity head (suc m) ≢ head = ground arith in
    let first : get_or (set tasks (place capacity head (suc m)) v) head 0 ≡ get_or tasks head 0 =
      ground (arith, get_or-set tasks (place capacity head (suc m)) head v 0) in
    let rest =
      contents-set tasks capacity ((head + 1) % capacity) n m v (next_below capacity head h)
        (omega arith) (omega arith) in
    let same = place-next capacity head m h (omega arith) in
    rw first (
      ap (◌∷◌ (get_or tasks head 0))
        (ap (λ f. contents (set tasks f v) capacity ((head + 1) % capacity) n) (sym same) ∙ rest))

get_or-set_here : (tasks : List ℕ) (f v : ℕ) → f < length tasks → get_or (set tasks f v) f 0 ≡ v
get_or-set_here tasks f v h = ground (arith, get_or-set tasks f f v 0)

place_below :
    (capacity head n : ℕ) → head < capacity → n ≤ capacity → place capacity head n < capacity
place_below capacity head n h b = ground arith

-- A task that is put in stands behind the others.
module _ (pool : ThreadPool) (client_fd : ℕ) (r : IsRing pool)
    (room : pool.count < pool.capacity) where
  pub queue-enqueue : queue (enqueue client_fd pool) ≡ queue pool ++ client_fd ∷ []
  unfolding enqueue
  queue-enqueue =
      let f = place pool.capacity pool.head pool.count in
      let tasks = set pool.tasks f client_fd in
      let n : pool.count + 1 ≡ suc pool.count = omega arith in
      let inside : f < length pool.tasks = omega (
        arith,
        place_below pool.capacity pool.head pool.count r.head_inside r.count_fits,
        r.sized,
      ) in
      ap (λ t. contents (set pool.tasks t client_fd) pool.capacity pool.head (pool.count + 1))
        r.tail_follows
      ∙ ap (contents tasks pool.capacity pool.head) n
      ∙ contents_last tasks pool.capacity pool.head pool.count r.head_inside room
      ∙ rw
          (
            contents-set pool.tasks pool.capacity pool.head pool.count pool.count client_fd
                r.head_inside (omega arith) room,
            get_or-set_here pool.tasks f client_fd inside,
          )
          refl

  pub enqueue-IsRing : IsRing (enqueue client_fd pool)
  unfolding enqueue
  enqueue-IsRing =
      let f = place pool.capacity pool.head pool.count in
      let below = place_below pool.capacity pool.head pool.count r.head_inside r.count_fits in
      record {
        sized = length-set pool.tasks pool.tail client_fd ∙ r.sized;
        head_inside = r.head_inside;
        count_fits = omega arith;
        tail_follows =
            ap (λ t. (t + 1) % pool.capacity) r.tail_follows
            ∙ ground (arith, step_cases pool.capacity f below, r.head_inside);
      }

-- The task that a worker takes is the first one.
module _ (pool : ThreadPool) (r : IsRing pool) (some_task : 0 < pool.count) where
  pub queue-dequeue : queue pool ≡ (dequeue pool).0 ∷ queue (dequeue pool).1
  unfolding dequeue
  queue-dequeue =
      let n : pool.count ≡ suc (pool.count - 1) = omega arith in
      ap (contents pool.tasks pool.capacity pool.head) n

  pub dequeue-IsRing : IsRing (dequeue pool).1
  unfolding dequeue
  dequeue-IsRing = record {
    sized = r.sized;
    head_inside = next_below pool.capacity pool.head r.head_inside;
    count_fits = omega (arith, r.count_fits);
    tail_follows =
        r.tail_follows
        ∙ ground (arith, step_cases pool.capacity pool.head r.head_inside, r.count_fits);
  }
