-- ===== src/ThreadPool/State.antt =====
-- Labweek15/threadpools.c: what holds in every state that the pool reaches.
use operating_system_homewor.Prelude.{
  ℕ, ◌+◌, ◌%◌, ◌≤◌, ◌<◌, ◌≡◌, ◌&&◌, ltb, leb, ◌==◌, if◌then◌else◌, count, total,
}
use operating_system_homewor.ThreadPool.{
  threads_num, task_queue_max_size, task_num, Pc, w_wait, w_post_last, w_exit, w_count, w_take,
  w_front, w_post, w_run, Main, looping, adding, putting, moving, joining, finished, numbered,
  System,
}

-- A worker between the two operations on `sem_mutex`.
abbrev pub critical : Pc → ℕ
critical w_wait = 0
critical w_exit = 0
critical (w_run _) = 0
critical _ = 1

-- `task_sum` has been lowered for a task that is not taken yet.
abbrev pub lowered : Pc → ℕ
lowered w_take = 1
lowered (w_front _ _) = 1
lowered _ = 0

-- A worker that has seen a task that nobody else can take.
abbrev pub sure_task : Pc → ℕ
sure_task w_count = 1
sure_task w_take = 1
sure_task (w_front _ _) = 1
sure_task _ = 0

-- A worker that has taken task `n` and not yet run it.
abbrev pub holds : ℕ → Pc → ℕ
holds n (w_post t) = if t.arg == n then 1 else 0
holds n (w_run t) = if t.arg == n then 1 else 0
holds n _ = 0

-- The tasks that are in the queue or have been there.
abbrev pub added : Main → ℕ
added (looping i) = i
added (adding i) = i
added (putting i) = i
added (moving i _) = i
added joining = task_num
added finished = task_num

-- A task that is in its place and not yet counted by `rear`.
abbrev pub placed : Main → ℕ
placed (moving _ _) = 1
placed _ = 0

-- A place that `main` has seen to be free.
abbrev pub sure_room : Main → ℕ
sure_room (putting _) = 1
sure_room (moving _ _) = 1
sure_room _ = 0

-- Task `n` is among the first `t`.
abbrev pub due : ℕ → ℕ → ℕ
due t n = if ltb 0 n && leb n t then 1 else 0

-- The live variables of a worker, when `t` tasks have been taken.
abbrev pub Local : ℕ → Pc → Type 0
Local t (w_front f x) = (f ≡ t % task_queue_max_size) × (x ≡ numbered (t + 1))
Local t w_post_last = t ≡ task_num
Local t w_exit = t ≡ task_num
Local t _ = Unit

abbrev pub LocalMain : ℕ → Main → Type 0
LocalMain r (looping i) = i ≤ task_num
LocalMain r (adding i) = i < task_num
LocalMain r (putting i) = i < task_num
LocalMain r (moving i r') = (i < task_num) × (r' ≡ r)
LocalMain r _ = Unit

pub record Inv (s : System) : Type 0 where
  pub taken : ℕ  -- how many tasks have left the queue
  pub lock : s.shared.pools.sem_mutex + total critical threads_num s.pc ≡ 1
  pub sum : s.shared.pools.task_sum + taken + total lowered threads_num s.pc ≡ task_num
  pub front : s.shared.pools.task_queue.front ≡ taken % task_queue_max_size
  pub rear : s.shared.pools.task_queue.rear ≡ added s.main % task_queue_max_size
  pub enough : taken + total sure_task threads_num s.pc ≤ added s.main
  pub room : added s.main + sure_room s.main < taken + task_queue_max_size
  pub queued :
      (k : ℕ)
      → taken ≤ k
      → k < added s.main + placed s.main
      → s.shared.pools.task_queue.tasks (k % task_queue_max_size) ≡ numbered (k + 1)
  pub once : (n : ℕ) → count n s.shared.dealt_with + total (holds n) threads_num s.pc ≡ due taken n
  pub local : (i : ℕ) → i < threads_num → Local taken (s.pc i)
  pub local_main : LocalMain s.shared.pools.task_queue.rear s.main
