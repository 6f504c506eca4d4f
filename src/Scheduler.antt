-- ===== src/Scheduler.antt =====
-- Labweek16/scheduler.c: the queue of tasks, its five policies, and what the scheduler does when a
-- task arrives, when it is told to choose, and when a task has finished. `add_task` and `delete_task`
-- hold the mutex and so exclude each other, but the handler of the scheduler thread takes no mutex:
-- each of its accesses to the head is a step of its own, also between the two halves of `add_task`,
-- of which one stores the status of the head and the other links the new task. Signals and semaphore
-- posts are recorded in the order in which they are sent.
pub mod Insert
pub mod Order
pub mod Runs
mod Tests
use operating_system_homewor.Prelude.{
  ℕ, suc, ◌+◌, Bool, true, false, Option, none, some, List, [], ◌∷◌, ◌++◌, ◌≡◌, if◌then◌else◌,
}
use operating_system_homewor.Prelude.Int.{ℤ, ltb_ℤ, leb_ℤ}

-- `schedule_status`.
pub data Status : Type 0 where
  running : Status
  ready : Status
  waiting : Status

-- `schedule_policy`.
pub data Policy : Type 0 where
  policy_fcfs : Policy
  policy_sjf_pem : Policy
  policy_sjf_not_pem : Policy
  policy_priority_pem : Policy
  policy_priority_not_pem : Policy

pub record Task : Type 0 where
  pub arrival_time : ℤ
  pub wct : ℤ
  pub priority : ℤ
  pub schedule_status : Status
  pub ptid : ℕ

-- SIGUSR1 and SIGCONT to the thread of a task, `sem_post` on its semaphore, and SIGUSR2 to the
-- scheduler thread.
pub data Sent : Type 0 where
  stop : ℕ → Sent
  continue : ℕ → Sent
  start : ℕ → Sent
  choose : Sent

-- The list from `head`, what was sent, and the number of tasks that have finished.
pub record Scheduler : Type 0 where
  pub queue : List Task
  pub sent : List Sent
  pub finished_task : ℕ

abbrev pub init_scheduler : Scheduler
init_scheduler = record { queue = []; sent = []; finished_task = 0 }

-- The thread sets `ptid` itself before it adds the task; the status is set by `add_task`.
abbrev pub creat_thread_node : ℤ → ℤ → ℤ → ℕ → Task
creat_thread_node arrival_time wct priority ptid = record {
  arrival_time = arrival_time;
  wct = wct;
  priority = priority;
  schedule_status = waiting;
  ptid = ptid;
}

abbrev pub with_status : Task → Status → Task
with_status t status = record t { schedule_status = status }

-- The walk along the list while the test holds of `cur_node`; the new node goes before the node at
-- which it stops.
pub insert_while : (Task → Bool) → Task → List Task → List Task
insert_while test new [] = new ∷ []
insert_while test new (cur ∷ rest) =
    let later = insert_while test new rest in if test cur then cur ∷ later else new ∷ cur ∷ rest

pub fcfs : Task → List Task → List Task
fcfs new [] = new ∷ []
fcfs new (cur ∷ rest) = cur ∷ fcfs new rest

pub sjf_pem : Task → List Task → List Task
sjf_pem new [] = new ∷ []
sjf_pem new (head ∷ rest) =
    if ltb_ℤ new.wct head.wct
    then new ∷ head ∷ rest
    else insert_while (λ cur. leb_ℤ cur.wct new.wct) new (head ∷ rest)

pub sjf_not_pem : Task → List Task → List Task
sjf_not_pem new [] = new ∷ []
sjf_not_pem new (head ∷ rest) = head ∷ insert_while (λ cur. leb_ℤ cur.wct new.wct) new rest

pub priority_pem : Task → List Task → List Task
priority_pem new [] = new ∷ []
priority_pem new (head ∷ rest) =
    if ltb_ℤ head.priority new.priority
    then new ∷ head ∷ rest
    else insert_while (λ cur. leb_ℤ new.priority cur.priority) new (head ∷ rest)

pub priority_not_pem : Task → List Task → List Task
priority_not_pem new [] = new ∷ []
priority_not_pem new (head ∷ rest) =
    head ∷ insert_while (λ cur. leb_ℤ new.priority cur.priority) new rest

-- The `switch` of `add_task`.
pub insert : Policy → Task → List Task → List Task
insert policy_fcfs new queue = fcfs new queue
insert policy_sjf_pem new queue = sjf_pem new queue
insert policy_sjf_not_pem new queue = sjf_not_pem new queue
insert policy_priority_pem new queue = priority_pem new queue
insert policy_priority_not_pem new queue = priority_not_pem new queue

-- The head is stopped and made ready.
pub stop_head : List Task → List Task
stop_head [] = []
stop_head (head ∷ rest) = with_status head ready ∷ rest

pub stop_signals : List Task → List Sent
stop_signals [] = []
stop_signals (head ∷ rest) = stop head.ptid ∷ []

-- The first half of `add_task`, after which the thread still holds the mutex
pub stop_current : Scheduler → Scheduler
stop_current s = record {
  queue = stop_head s.queue;
  sent = s.sent ++ stop_signals s.queue;
  finished_task = s.finished_task;
}

-- The second half; the list changes for the others by one store, of the head or of a link.
pub add_node : Policy → Task → Scheduler → Scheduler
add_node policy node s = record {
  queue = insert policy (with_status node waiting) s.queue;
  sent = s.sent ++ choose ∷ [];
  finished_task = s.finished_task;
}

abbrev pub add_task : Policy → Task → Scheduler → Scheduler
add_task policy node s = add_node policy node (stop_current s)

pub continue_signals : List Task → List Sent
continue_signals [] = []
continue_signals (head ∷ rest) = continue head.ptid ∷ []

-- `none` is the use of a null `sched.head`.
pub delete_task : Scheduler → Option Scheduler
delete_task s = elim s.queue [
  | [] ↦ none
  | _ ∷ rest ↦ some (record {
    queue = rest;
    sent = s.sent ++ continue_signals rest;
    finished_task = s.finished_task;
  })
]

-- The end of `task_runner`.
pub finish_task : Scheduler → Option Scheduler
finish_task s = elim (delete_task s) [
  | none ↦ none
  | some t ↦ some (record t { finished_task = t.finished_task + 1 })
]

-- Where the handler is: it waits for a signal, or is about to test for READY, to store READY, to store
-- RUNNING or to post after a head that was WAITING, to store RUNNING or to send SIGCONT after a head
-- that was READY.
pub data Handler : Type 0 where
  rests : Handler
  tests_ready : Handler
  stores_ready : Handler
  stores_running : Handler
  posts : Handler
  resumes : Handler
  signals : Handler

abbrev pub after_first_test : Status → Handler
after_first_test waiting = stores_ready
after_first_test ready = tests_ready
after_first_test running = tests_ready

abbrev pub after_second_test : Status → Handler
after_second_test ready = resumes
after_second_test waiting = rests
after_second_test running = rests

-- One access of the handler to what is the head now: the head after it, and what is sent
pub handle : Handler → Task → Handler × Task × List Sent
handle rests head = (after_first_test head.schedule_status, head, [])
handle tests_ready head = (after_second_test head.schedule_status, head, [])
handle stores_ready head = (stores_running, with_status head ready, [])
handle stores_running head = (posts, with_status head running, [])
handle posts head = (rests, head, start head.ptid ∷ [])
handle resumes head = (signals, with_status head running, [])
handle signals head = (rests, head, continue head.ptid ∷ [])

-- `none` is the use of a null `sched.head`.
pub sched_run_sighand : Handler → Scheduler → Option (Handler × Scheduler)
sched_run_sighand handler s = elim s.queue [
  | [] ↦ none
  | head ∷ rest ↦ some (
    (handle handler head).0,
    record {
      queue = (handle handler head).1 ∷ rest;
      sent = s.sent ++ (handle handler head).2;
      finished_task = s.finished_task;
    },
  )
]

-- The states that the program can come to under a policy, with the number of tasks that were added,
-- the task whose `add_task` is half done, and where the handler is. The handler may start at any time.
pub data Reach (policy : Policy) : ℕ → Scheduler → Option Task → Handler → Type 0 where
  begins : Reach policy 0 init_scheduler none rests
  arrives :
      {n : ℕ} {s : Scheduler} {h : Handler} (node : Task)
      → Reach policy n s none h
      → Reach policy n (stop_current s) (some node) h
  enters :
      {n : ℕ} {s : Scheduler} {h : Handler} (node : Task)
      → Reach policy n s (some node) h
      → Reach policy (suc n) (add_node policy node s) none h
  chooses :
      {n : ℕ} {s t : Scheduler} {adding : Option Task} {h h' : Handler}
      → Reach policy n s adding h
      → sched_run_sighand h s ≡ some (h', t)
      → Reach policy n t adding h'
  finishes :
      {n : ℕ} {s t : Scheduler} {h : Handler}
      → Reach policy n s none h
      → finish_task s ≡ some t
      → Reach policy n t none h
