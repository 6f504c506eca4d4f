-- ===== src/ThreadPool/Worker.antt =====
-- Labweek15/threadpools.c: what a step of `executeTask` does to the pool.
use operating_system_homewor.Prelude.{
  ℕ, ◌+◌, ◌%◌, ◌≤◌, ◌<◌, ◌≡◌, refl, ap, ◌∙◌, [], ◌∷◌, arith, count, count-append,
}
use operating_system_homewor.ThreadPool.{
  task_queue_max_size, task_num, Task, Shared, Pc, w_front, Work, locks, finds_none, finds_task,
  ends, sleeps, unlocks_last, counts, takes, moves_front, unlocks, runs, numbered,
}
use operating_system_homewor.ThreadPool.State.{critical, lowered, sure_task, holds, due, Local}

-- Only the last step of a task's removal changes how many have been taken.
abbrev pub taken_after : ℕ → Pc → ℕ
taken_after t (w_front _ _) = t + 1
taken_after t _ = t

-- A step of a worker from `p` to `q` neither makes nor loses what the semaphore and the sum count.
abbrev pub Balanced : ℕ → Shared → Pc → Shared → Pc → Type 0
Balanced t m p m' q =
    (m'.pools.sem_mutex + critical q ≡ m.pools.sem_mutex + critical p)
    × (m'.pools.task_sum + taken_after t p + lowered q ≡ m.pools.task_sum + t + lowered p)
    × (m'.pools.task_queue.rear ≡ m.pools.task_queue.rear)
    × (critical p ≡ 0 → taken_after t p ≡ t)
    × (critical p ≡ 0 → sure_task q ≡ sure_task p)

pub Work-Balanced :
    {m m' : Shared} {p q : Pc} (t : ℕ)
    → (critical p ≡ 1 → m.pools.task_sum + t + lowered p ≡ task_num)
    → t + sure_task p ≤ task_num
    → Work m p m' q
    → Balanced t m p m' q
Work-Balanced t sum le (locks h) = ground arith
Work-Balanced t sum le (finds_none h) = ground arith
Work-Balanced t sum le (finds_task h) = ground arith
Work-Balanced t sum le (ends h) = ground arith
Work-Balanced t sum le (sleeps h) = ground arith
Work-Balanced t sum le unlocks_last = ground arith
Work-Balanced t sum le counts = ground arith
Work-Balanced t sum le takes = ground arith
Work-Balanced t sum le moves_front = ground arith
Work-Balanced t sum le unlocks = ground arith
Work-Balanced t sum le runs = ground arith

-- A worker that sees a task is sure of it, for nobody else can take it.
pub Work-sure :
    {m m' : Shared} {p q : Pc} (t a : ℕ)
    → m.pools.task_queue.front ≡ t % task_queue_max_size
    → m.pools.task_queue.rear ≡ a % task_queue_max_size
    → t + sure_task p ≤ a
    → a < t + task_queue_max_size
    → Work m p m' q
    → taken_after t p + sure_task q ≤ a
Work-sure t a f r le few (locks h) = omega arith
Work-sure t a f r le few (finds_none h) = omega arith
Work-sure t a f r le few (finds_task h) = omega arith
Work-sure t a f r le few (ends h) = omega arith
Work-sure t a f r le few (sleeps h) = omega arith
Work-sure t a f r le few unlocks_last = omega arith
Work-sure t a f r le few counts = omega arith
Work-sure t a f r le few takes = omega arith
Work-sure t a f r le few moves_front = omega arith
Work-sure t a f r le few unlocks = omega arith
Work-sure t a f r le few runs = omega arith

pub Work-front :
    {m m' : Shared} {p q : Pc} (t : ℕ)
    → m.pools.task_queue.front ≡ t % task_queue_max_size
    → Local t p
    → Work m p m' q
    → m'.pools.task_queue.front ≡ taken_after t p % task_queue_max_size
Work-front t f l (locks h) = f
Work-front t f l (finds_none h) = f
Work-front t f l (finds_task h) = f
Work-front t f l (ends h) = f
Work-front t f l (sleeps h) = f
Work-front t f l unlocks_last = f
Work-front t f l counts = f
Work-front t f l takes = f
Work-front t f l moves_front = omega (arith, l.0)
Work-front t f l unlocks = f
Work-front t f l runs = f

pub Work-tasks :
    {m m' : Shared} {p q : Pc}
    → Work m p m' q
    → m'.pools.task_queue.tasks ≡ m.pools.task_queue.tasks
Work-tasks (locks h) = refl
Work-tasks (finds_none h) = refl
Work-tasks (finds_task h) = refl
Work-tasks (ends h) = refl
Work-tasks (sleeps h) = refl
Work-tasks unlocks_last = refl
Work-tasks counts = refl
Work-tasks takes = refl
Work-tasks moves_front = refl
Work-tasks unlocks = refl
Work-tasks runs = refl

pub Work-Local :
    {m m' : Shared} {p q : Pc} (t : ℕ)
    → m.pools.task_queue.front ≡ t % task_queue_max_size
    → (0 < sure_task p → m.pools.task_queue.tasks (t % task_queue_max_size) ≡ numbered (t + 1))
    → (critical p ≡ 1 → m.pools.task_sum + t + lowered p ≡ task_num)
    → Local t p
    → Work m p m' q
    → Local (taken_after t p) q
Work-Local t f x sum l (locks h) = tt
Work-Local t f x sum l (finds_none h) = tt
Work-Local t f x sum l (finds_task h) = tt
Work-Local t f x sum l (ends h) = omega (arith, sum refl, h)
Work-Local t f x sum l (sleeps h) = tt
Work-Local t f x sum l unlocks_last = l
Work-Local t f x sum l counts = tt
Work-Local {m = m} t f x sum l takes = (f, ap m.pools.task_queue.tasks f ∙ x (omega arith))
Work-Local t f x sum l moves_front = tt
Work-Local t f x sum l unlocks = tt
Work-Local t f x sum l runs = tt

pub Work-once :
    {m m' : Shared} {p q : Pc} (t n : ℕ)
    → Local t p
    → Work m p m' q
    → count n m'.dealt_with + holds n q + due t n
      ≡ count n m.dealt_with + holds n p + due (taken_after t p) n
Work-once t n l (locks h) = refl
Work-once t n l (finds_none h) = refl
Work-once t n l (finds_task h) = refl
Work-once t n l (ends h) = refl
Work-once t n l (sleeps h) = refl
Work-once t n l unlocks_last = refl
Work-once t n l counts = refl
Work-once t n l takes = refl
Work-once t n l moves_front = ground (arith, ap Task.arg l.1)
Work-once t n l unlocks = refl
Work-once {m = m} t n l (runs {t = x}) = ground (arith, count-append n m.dealt_with (x.arg ∷ []))
