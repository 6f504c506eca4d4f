-- ===== src/ThreadPool.antt =====
-- Labweek15/threadpools.c: ten workers that take tasks from a ring under a semaphore, while `main`
-- adds a hundred tasks to it.
pub mod State
pub mod Worker
pub mod Adder
pub mod Invariant
pub mod Progress
pub mod Safety
mod Tests
use operating_system_homewor.Prelude.{
  ℕ, ◌+◌, ◌-◌, ◌%◌, ◌≤◌, ◌<◌, ◌≡◌, ◌≢◌, List, [], ◌∷◌, ◌++◌, update,
}

abbrev pub threads_num : ℕ
threads_num = 10

abbrev pub task_queue_max_size : ℕ
task_queue_max_size = 12

abbrev pub task_num : ℕ
task_num = 100

-- The one function that tasks call.
pub data Function : Type 0 where
  task_function : Function

-- The argument is the number that it points to.
pub record Task : Type 0 where
  pub function : Function
  pub arg : ℕ

pub record TaskQueue : Type 0 where
  pub tasks : ℕ → Task
  pub front : ℕ
  pub rear : ℕ

-- `Threadpools`, with the value of its semaphore
pub record Threadpools : Type 0 where
  pub task_queue : TaskQueue
  pub task_sum : ℕ
  pub sem_mutex : ℕ

-- The pool, and the numbers that `taskFunction` has printed.
pub record Shared : Type 0 where
  pub pools : Threadpools
  pub dealt_with : List ℕ

-- The statement of `executeTask` that a worker is about to execute, with its live variables.
pub data Pc : Type 0 where
  w_wait : Pc
  w_while : Pc
  w_sum : Pc
  w_post_last : Pc
  w_exit : Pc
  w_count : Pc
  w_take : Pc
  w_front : (front : ℕ) (task : Task) → Pc
  w_post : (task : Task) → Pc
  w_run : (task : Task) → Pc

-- Where `main` stands: at the test of the loop that adds task `i`, in `addTask`, or in the joins.
pub data Main : Type 0 where
  looping : (i : ℕ) → Main
  adding : (i : ℕ) → Main
  putting : (i : ℕ) → Main
  moving : (i rear : ℕ) → Main
  joining : Main
  finished : Main

abbrev pub numbered : ℕ → Task
numbered n = record { function = task_function; arg = n }

module _ (m : Shared) where
  abbrev pool : Threadpools
  pool = m.pools

  abbrev queue : TaskQueue
  queue = m.pools.task_queue

  abbrev pub with_pools : Threadpools → Shared
  with_pools t = record m { pools = t }

  abbrev pub with_queue : TaskQueue → Shared
  with_queue u = with_pools (record pool { task_queue = u })

  -- `executeTask`, an access to the pool at a time
  pub data Work : Pc → Shared → Pc → Type 0 where
    locks :
        {v : ℕ}
        → pool.sem_mutex ≡ v + 1
        → Work w_wait (with_pools (record pool { sem_mutex = v })) w_while
    finds_none : queue.front ≡ queue.rear → Work w_while m w_sum
    finds_task : queue.front ≢ queue.rear → Work w_while m w_count
    ends : pool.task_sum ≡ 0 → Work w_sum m w_post_last
    sleeps : pool.task_sum ≢ 0 → Work w_sum m w_while
    unlocks_last :
        Work w_post_last (with_pools (record pool { sem_mutex = pool.sem_mutex + 1 })) w_exit
    counts : Work w_count (with_pools (record pool { task_sum = pool.task_sum - 1 })) w_take
    takes : Work w_take m (w_front queue.front (queue.tasks queue.front))
    moves_front :
        {f : ℕ} {t : Task}
        → Work
            (w_front f t)
            (with_queue (record queue { front = (f + 1) % task_queue_max_size }))
            (w_post t)
    unlocks :
        {t : Task}
        → Work (w_post t) (with_pools (record pool { sem_mutex = pool.sem_mutex + 1 })) (w_run t)
    runs : {t : Task} → Work (w_run t) (record m { dealt_with = m.dealt_with ++ t.arg ∷ [] }) w_wait

  -- `addTask` as `main` calls it, an access to the queue at a time
  pub data Add : Main → Shared → Main → Type 0 where
    next : {i : ℕ} → i < task_num → Add (looping i) m (adding i)
    all_added : {i : ℕ} → task_num ≤ i → Add (looping i) m joining
    finds_full :
        {i : ℕ}
        → (queue.rear + task_queue_max_size + 1 - queue.front) % task_queue_max_size ≡ 0
        → Add (adding i) m (adding i)
    finds_room :
        {i : ℕ}
        → (queue.rear + task_queue_max_size + 1 - queue.front) % task_queue_max_size ≢ 0
        → Add (adding i) m (putting i)
    puts :
        {i : ℕ}
        → Add
            (putting i)
            (with_queue (record queue { tasks = update queue.tasks queue.rear (numbered (i + 1)) }))
            (moving i queue.rear)
    moves_rear :
        {i r : ℕ}
        → Add
            (moving i r)
            (with_queue (record queue { rear = (r + 1) % task_queue_max_size }))
            (looping (i + 1))

pub record System : Type 0 where
  pub shared : Shared
  pub pc : ℕ → Pc
  pub main : Main

pub data Step (s : System) : System → Type 0 where
  work :
      {m : Shared} {p : Pc} (i : ℕ)
      → i < threads_num
      → Work s.shared (s.pc i) m p
      → Step s (record s { shared = m; pc = update s.pc i p })
  add :
      {m : Shared} {a : Main} → Add s.shared s.main m a → Step s (record s { shared = m; main = a })
  join :
      s.main ≡ joining
      → ((i : ℕ) → i < threads_num → s.pc i ≡ w_exit)
      → Step s (record s { main = finished })

-- The pool as `initThreadpools` sets it up over memory that holds anything.
abbrev pub init_threadpools : (ℕ → Task) → Threadpools
init_threadpools memory = record {
  task_queue = record { tasks = memory; front = 0; rear = 0 };
  task_sum = task_num;
  sem_mutex = 1;
}

abbrev pub init_system : (ℕ → Task) → System
init_system memory = record {
  shared = record { pools = init_threadpools memory; dealt_with = [] };
  pc = λ _. w_wait;
  main = looping 0;
}

pub data Reach (memory : ℕ → Task) : System → Type 0 where
  starts : Reach memory (init_system memory)
  steps : {s t : System} → Reach memory s → Step s t → Reach memory t
