-- ===== src/ThreadPool/Tests.antt =====
-- Labweek15/threadpools.c: one task added and run, and the end of a whole run.
use operating_system_homewor.Prelude.{ℕ, ◌≡◌, refl, [], ◌∷◌, arith, count}
use operating_system_homewor.ThreadPool.{
  task_num, Task, numbered, finds_task, locks, finds_none, sleeps, counts, takes, moves_front,
  unlocks, runs, looping, finished, next, finds_room, puts, moves_rear, System, work, add,
  init_system, Reach, starts, steps,
}
use operating_system_homewor.ThreadPool.State.{due}
use operating_system_homewor.ThreadPool.Progress.{Steps, none_yet, and_then}
use operating_system_homewor.ThreadPool.Safety.{finished_once, can_finish}

abbrev unset : ℕ → Task
unset _ = numbered 0

-- A worker waits with the mutex in its hands until `main` has added a task, and runs it.
first_task : (s : System) × Reach unset s × (s.shared.dealt_with ≡ 1 ∷ []) × (s.main ≡ looping 1)
first_task =
    let locked =
      steps (steps starts (work 3 (omega arith) (locks {v = 0} refl)))
        (work 3 (omega arith) (finds_none refl)) in
    let asleep = steps locked (work 3 (omega arith) (sleeps (omega arith))) in
    let ready = steps (steps asleep (add (next (omega arith)))) (add (finds_room (omega arith))) in
    let one = steps (steps ready (add puts)) (add moves_rear) in
    let seen =
      steps (steps one (work 3 (omega arith) (finds_task (omega arith))))
        (work 3 (omega arith) counts) in
    let held = steps (steps seen (work 3 (omega arith) takes)) (work 3 (omega arith) moves_front) in
    (_, steps (steps held (work 3 (omega arith) unlocks)) (work 3 (omega arith) runs), refl, refl)

-- From there the pool comes to its end.
can_finish_example : (t : System) × Steps first_task.0 t × (t.main ≡ finished)
can_finish_example = can_finish first_task.1

reach_on : {memory : ℕ → Task} {s t : System} → Reach memory s → Steps s t → Reach memory t
reach_on r none_yet = r
reach_on r (and_then step more) = reach_on (steps r step) more

whole_run : (t : System) × Steps (init_system unset) t × (t.main ≡ finished)
whole_run = can_finish starts

finished_once_example : count 57 whole_run.0.shared.dealt_with ≡ due task_num 57
finished_once_example = finished_once (reach_on starts whole_run.1) whole_run.2 57
