-- ===== src/Scheduler/Runs.antt =====
-- Labweek16/scheduler.c: what holds whenever tasks have arrived, were chosen and have finished, in
-- any order.
use operating_system_homewor.Prelude.{ℕ, ◌+◌, ◌≡◌, length}
use operating_system_homewor.Scheduler.{Policy, Scheduler}
use operating_system_homewor.Scheduler.Insert.{}
use operating_system_homewor.Scheduler.Order.{Ordered}

-- The order of the policy, and every task that was added is queued or has finished.
abbrev pub IsKept : Policy → ℕ → Scheduler → Type 0
IsKept p n s = Ordered p s.queue × (length s.queue + s.finished_task ≡ n)
