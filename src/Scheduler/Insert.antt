-- ===== src/Scheduler/Insert.antt =====
-- Labweek16/scheduler.c: where each policy puts a new task.
use operating_system_homewor.Prelude.{◌≡◌, refl, ap, Bool, true, false, List, [], ◌∷◌, arith}
use operating_system_homewor.Prelude.Int.{leb_ℤ}
use operating_system_homewor.Scheduler.{
  Policy, policy_fcfs, policy_sjf_pem, policy_sjf_not_pem, policy_priority_pem,
  policy_priority_not_pem, Task, insert_while, fcfs, sjf_pem, sjf_not_pem, priority_pem,
  priority_not_pem, insert,
}

-- `new` may wait behind `cur`: the test of the walk.
abbrev pub yields : Policy → Task → Task → Bool
yields policy_fcfs new cur = true
yields policy_sjf_pem new cur = leb_ℤ cur.wct new.wct
yields policy_sjf_not_pem new cur = leb_ℤ cur.wct new.wct
yields policy_priority_pem new cur = leb_ℤ new.priority cur.priority
yields policy_priority_not_pem new cur = leb_ℤ new.priority cur.priority

abbrev pub preemptive : Policy → Bool
preemptive policy_fcfs = true
preemptive policy_sjf_pem = true
preemptive policy_sjf_not_pem = false
preemptive policy_priority_pem = true
preemptive policy_priority_not_pem = false

fcfs-while : (new : Task) (q : List Task) → fcfs new q ≡ insert_while (λ _. true) new q
unfolding fcfs insert_while
fcfs-while new [] = refl
fcfs-while new (x ∷ q) = ap (λ r. x ∷ r) (fcfs-while new q)

sjf_pem-while :
    (new : Task) (q : List Task) → sjf_pem new q ≡ insert_while (λ cur. leb_ℤ cur.wct new.wct) new q
unfolding sjf_pem insert_while
sjf_pem-while new [] = refl
sjf_pem-while new (x ∷ q) = ground arith

priority_pem-while :
    (new : Task) (q : List Task)
    → priority_pem new q ≡ insert_while (λ cur. leb_ℤ new.priority cur.priority) new q
unfolding priority_pem insert_while
priority_pem-while new [] = refl
priority_pem-while new (x ∷ q) = ground arith

-- A preemptive policy, like first come first served, walks from the head.
pub insert-preemptive :
    (p : Policy) (new : Task) (q : List Task)
    → preemptive p ≡ true
    → insert p new q ≡ insert_while (yields p new) new q
unfolding insert
insert-preemptive policy_fcfs new q h = fcfs-while new q
insert-preemptive policy_sjf_pem new q h = sjf_pem-while new q
insert-preemptive policy_priority_pem new q h = priority_pem-while new q
insert-preemptive policy_sjf_not_pem new q h = absurd cc
insert-preemptive policy_priority_not_pem new q h = absurd cc

-- One that is not leaves the head where it is.
pub insert-kept :
    (p : Policy) (new x : Task) (q : List Task)
    → preemptive p ≡ false
    → insert p new (x ∷ q) ≡ x ∷ insert_while (yields p new) new q
unfolding insert sjf_not_pem priority_not_pem
insert-kept policy_sjf_not_pem new x q h = refl
insert-kept policy_priority_not_pem new x q h = refl
insert-kept policy_fcfs new x q h = absurd cc
insert-kept policy_sjf_pem new x q h = absurd cc
insert-kept policy_priority_pem new x q h = absurd cc

pub insert-empty : (p : Policy) (new : Task) → insert p new [] ≡ new ∷ []
unfolding insert fcfs sjf_pem sjf_not_pem priority_pem priority_not_pem
insert-empty policy_fcfs new = refl
insert-empty policy_sjf_pem new = refl
insert-empty policy_sjf_not_pem new = refl
insert-empty policy_priority_pem new = refl
insert-empty policy_priority_not_pem new = refl
