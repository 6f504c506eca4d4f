-- ===== src/Scheduler/Tests.antt =====
-- Labweek16/scheduler.c: three tasks, of which the last to arrive is the shortest.
use operating_system_homewor.Prelude.{ℕ, ◌≡◌, refl, Option, none, some, List, [], ◌∷◌, ◌++◌}
use operating_system_homewor.Prelude.Int.{pos}
use operating_system_homewor.Scheduler.{
  Policy, policy_sjf_pem, policy_sjf_not_pem, Task, Scheduler, init_scheduler, creat_thread_node,
  insert_while, fcfs, sjf_pem, sjf_not_pem, priority_pem, priority_not_pem, insert, stop_head,
  stop_signals, add_task, continue_signals, delete_task, finish_task, sched_run_sighand, Reach,
  begins, arrives, enters, chooses, Handler, rests, handle, stop_current, add_node, Status, waiting,
  running,
}
use operating_system_homewor.Scheduler.Insert.{yields}
use operating_system_homewor.Scheduler.Order.{kept, movable, Placed, insert-Placed}

program : Unit {0}
unfolding insert_while fcfs sjf_pem sjf_not_pem priority_pem priority_not_pem insert stop_head
    stop_signals continue_signals delete_task finish_task handle sched_run_sighand stop_current
    add_node
program = tt

abbrev long_task : Task
long_task = creat_thread_node (pos 0) (pos 8) (pos 3) 1

abbrev middle_task : Task
middle_task = creat_thread_node (pos 1) (pos 4) (pos 1) 2

abbrev short_task : Task
short_task = creat_thread_node (pos 2) (pos 2) (pos 2) 3

abbrev arrived : Policy → Scheduler
arrived p = add_task p short_task (add_task p middle_task (add_task p long_task init_scheduler))

abbrev ids : List Task → List ℕ
ids [] = []
ids (t ∷ ts) = t.ptid ∷ ids ts

preempted : ids (arrived policy_sjf_pem).queue ≡ 3 ∷ 2 ∷ 1 ∷ []
unfolding program
preempted = refl

not_preempted : ids (arrived policy_sjf_not_pem).queue ≡ 1 ∷ 3 ∷ 2 ∷ []
unfolding program
not_preempted = refl

abbrev finished_one : Option Scheduler
finished_one = finish_task (arrived policy_sjf_not_pem)

-- The queue after the first task has finished.
abbrev later : Scheduler
later = elim (finish_task (arrived policy_sjf_not_pem)) [ none ↦ init_scheduler | some s ↦ s ]

-- The handler is about to store RUNNING for the first task when a shorter one arrives: the first is
-- marked as running behind it, and the shorter one is started while it is marked as waiting.
abbrev step : Handler × Scheduler → Handler × Scheduler
step (h, s) = elim (sched_run_sighand h s) [ none ↦ (h, s) | some r ↦ r ]

abbrev interrupted : Handler × Scheduler
interrupted = step (step (rests, add_task policy_sjf_pem long_task init_scheduler))

abbrev stored_late : Handler × Scheduler
stored_late = step (interrupted.0, stop_current interrupted.1)

abbrev raced : Handler × Scheduler
raced = step (stored_late.0, add_node policy_sjf_pem short_task stored_late.1)

abbrev statuses : List Task → List Status
statuses [] = []
statuses (t ∷ ts) = t.schedule_status ∷ statuses ts

test_raced :
    Reach policy_sjf_pem 2 raced.1 none raced.0
    × (ids raced.1.queue ≡ 3 ∷ 1 ∷ [])
    × (statuses raced.1.queue ≡ waiting ∷ running ∷ [])
unfolding program
test_raced = (
  chooses
      (enters short_task (
        chooses
          (arrives short_task
            (chooses (chooses (enters long_task (arrives long_task begins)) refl) refl))
          refl))
      refl,
  refl,
  refl,
)

insert-Placed_example :
    (r : List Task) × (insert policy_sjf_not_pem short_task (long_task ∷ middle_task ∷ [])
      ≡ kept policy_sjf_not_pem (long_task ∷ middle_task ∷ []) ++ r)
    × Placed
        (yields policy_sjf_not_pem short_task)
        short_task
        (movable policy_sjf_not_pem (long_task ∷ middle_task ∷ []))
        r
insert-Placed_example = insert-Placed policy_sjf_not_pem short_task (long_task ∷ middle_task ∷ [])
