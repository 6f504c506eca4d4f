-- ===== src/ThreadPool/Adder.antt =====
-- Labweek15/threadpools.c: what a step of `addTask` does to the pool.
use native.Mathlib.Decide.{ℕ_discrete}
use operating_system_homewor.Prelude.{
  ℕ, ◌+◌, ◌%◌, ◌≤◌, ◌<◌, ◌≡◌, refl, sym, ap, ◌∙◌, arith, update, update_self, update_ne,
}
use operating_system_homewor.ThreadPool.{
  task_queue_max_size, Shared, Main, numbered, Add, next, all_added, finds_full, finds_room, puts,
  moves_rear,
}
use operating_system_homewor.ThreadPool.State.{added, placed, sure_room, LocalMain}

-- `main` changes nothing that belongs to the workers.
abbrev pub Untouched : Shared → Shared → Type 0
Untouched m m' =
    (m'.pools.sem_mutex ≡ m.pools.sem_mutex)
    × (m'.pools.task_sum ≡ m.pools.task_sum)
    × (m'.pools.task_queue.front ≡ m.pools.task_queue.front)
    × (m'.dealt_with ≡ m.dealt_with)

pub Add-Untouched : {m m' : Shared} {a b : Main} → Add m a m' b → Untouched m m'
Add-Untouched (next h) = (refl, refl, refl, refl)
Add-Untouched (all_added h) = (refl, refl, refl, refl)
Add-Untouched (finds_full h) = (refl, refl, refl, refl)
Add-Untouched (finds_room h) = (refl, refl, refl, refl)
Add-Untouched puts = (refl, refl, refl, refl)
Add-Untouched moves_rear = (refl, refl, refl, refl)

pub Add-rear :
    {m m' : Shared} {a b : Main}
    → m.pools.task_queue.rear ≡ added a % task_queue_max_size
    → LocalMain m.pools.task_queue.rear a
    → Add m a m' b
    → m'.pools.task_queue.rear ≡ added b % task_queue_max_size
Add-rear r l (next h) = r
Add-rear r l (all_added h) = omega (arith, r, l, h)
Add-rear r l (finds_full h) = r
Add-rear r l (finds_room h) = r
Add-rear r l puts = r
Add-rear r l moves_rear = omega (arith, r, l.1)

pub Add-added :
    {m m' : Shared} {a b : Main}
    → LocalMain m.pools.task_queue.rear a
    → Add m a m' b
    → added a ≤ added b
Add-added l (next h) = omega arith
Add-added l (all_added h) = omega (arith, l)
Add-added l (finds_full h) = omega arith
Add-added l (finds_room h) = omega arith
Add-added l puts = omega arith
Add-added l moves_rear = omega arith

pub Add-LocalMain :
    {m m' : Shared} {a b : Main}
    → LocalMain m.pools.task_queue.rear a
    → Add m a m' b
    → LocalMain m'.pools.task_queue.rear b
Add-LocalMain l (next h) = h
Add-LocalMain l (all_added h) = tt
Add-LocalMain l (finds_full h) = l
Add-LocalMain l (finds_room h) = l
Add-LocalMain l puts = (l, refl)
Add-LocalMain l moves_rear = omega (arith, l.0)

-- A place that `main` has seen to be free stays free, for only `main` fills places.
pub Add-room :
    {m m' : Shared} {a b : Main} (t : ℕ)
    → m.pools.task_queue.front ≡ t % task_queue_max_size
    → m.pools.task_queue.rear ≡ added a % task_queue_max_size
    → t ≤ added a
    → added a + sure_room a < t + task_queue_max_size
    → LocalMain m.pools.task_queue.rear a
    → Add m a m' b
    → added b + sure_room b < t + task_queue_max_size
Add-room t f r le few l (next h) = omega arith
Add-room t f r le few l (all_added h) = omega (arith, l, h, few)
Add-room t f r le few l (finds_full h) = omega arith
Add-room t f r le few l (finds_room h) = omega arith
Add-room t f r le few l puts = omega arith
Add-room t f r le few l moves_rear = omega arith

pub Add-queued :
    {m m' : Shared} {a b : Main} (t : ℕ)
    → m.pools.task_queue.rear ≡ added a % task_queue_max_size
    → added a + sure_room a < t + task_queue_max_size
    → LocalMain m.pools.task_queue.rear a
    → ((k : ℕ)
        → t ≤ k
        → k < added a + placed a
        → m.pools.task_queue.tasks (k % task_queue_max_size) ≡ numbered (k + 1))
    → Add m a m' b
    → (k : ℕ) → t ≤ k
    → k < added b + placed b
    → m'.pools.task_queue.tasks (k % task_queue_max_size) ≡ numbered (k + 1)
Add-queued t r few l queued (next h) k le lt = queued k le (omega (arith, lt, l))
Add-queued t r few l queued (all_added h) k le lt = queued k le (omega (arith, lt, l))
Add-queued t r few l queued (finds_full h) k le lt = queued k le (omega (arith, lt, l))
Add-queued t r few l queued (finds_room h) k le lt = queued k le (omega (arith, lt, l))
Add-queued {m = m} t r few l queued (puts {i = i}) k le lt = elim (ℕ_discrete k i) [
  | yes e ↦
      ap (update m.pools.task_queue.tasks m.pools.task_queue.rear (numbered (i + 1)))
        (ap (λ x. x % task_queue_max_size) e ∙ sym r)
      ∙ update_self m.pools.task_queue.tasks m.pools.task_queue.rear (numbered (i + 1))
      ∙ ap (λ x. numbered (x + 1)) (sym e)
  | no ne ↦
      update_ne m.pools.task_queue.tasks m.pools.task_queue.rear (k % task_queue_max_size)
        (numbered (i + 1)) (λ same. omega (arith, same, r, few, le, lt, ne))
      ∙ queued k le (omega (arith, lt, ne))
]
Add-queued t r few l queued moves_rear k le lt = queued k le (omega (arith, lt))
