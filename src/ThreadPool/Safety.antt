-- ===== src/ThreadPool/Safety.antt =====
-- Labweek15/threadpools.c: every task is run once, and the pool can come to its end.
use mathlib.Core.Path.{subst}
use operating_system_homewor.Prelude.{
  ℕ, zero, suc, ◌≤◌, ◌<◌, ◌≡◌, ◌≢◌, ◌⊎◌, inl, inr, refl, ap, arith, count, total, total_zero,
}
use operating_system_homewor.ThreadPool.{
  threads_num, task_num, Task, Shared, Pc, w_exit, Work, Main, looping, adding, putting, moving,
  joining, finished, Add, next, all_added, finds_full, finds_room, puts, moves_rear, System, work,
  add, join, Reach, starts, steps,
}
use operating_system_homewor.ThreadPool.State.{holds, added, due, Local, Inv}
use operating_system_homewor.ThreadPool.Invariant.{Step-Inv, Reach-Inv}
use operating_system_homewor.ThreadPool.Progress.{
  Steps, none_yet, and_then, left, append_steps, goes_on,
}

-- In every state that the pool reaches a task has been run at most once, and only if it was added.
at_most_once :
    {memory : ℕ → Task} {s : System}
    → Reach memory s
    → (n : ℕ) → count n s.shared.dealt_with ≤ due (added s.main) n
at_most_once {s = s} r n = let inv = Reach-Inv r in ground (arith, inv.once n, inv.enough)

no_work_after : {A : Type 0} {m m' : Shared} {q : Pc} → Work m w_exit m' q → A
no_work_after move = elim move [ ]

not_by_main : {A : Type 0} {m m' : Shared} {a b : Main} → b ≡ finished → Add m a m' b → A
not_by_main e (next h) = absurd cc
not_by_main e (all_added h) = absurd cc
not_by_main e (finds_full h) = absurd cc
not_by_main e (finds_room h) = absurd cc
not_by_main e puts = absurd cc
not_by_main e moves_rear = absurd cc

-- When `main` has joined the workers, they have ended.
gone :
    {memory : ℕ → Task} {s : System}
    → Reach memory s
    → s.main ≡ finished
    → (i : ℕ) → i < threads_num
    → s.pc i ≡ w_exit
gone starts e i lt = absurd cc
gone (steps {s = s} before (work {m = m} {p = q} j lt_j move)) e i lt =
    no_work_after (subst (λ x. Work s.shared x m q) (gone before e j lt_j) move)
gone (steps before (add move)) e i lt = not_by_main e move
gone (steps before (join joins all)) e i lt = all i lt

-- When `main` has joined the workers, each of the tasks 1 to 100 has been run exactly once, and
-- nothing else.
pub finished_once :
    {memory : ℕ → Task} {s : System}
    → Reach memory s
    → s.main ≡ finished
    → (n : ℕ) → count n s.shared.dealt_with ≡ due task_num n
finished_once {s = s} r e n =
    let inv = Reach-Inv r in
    let none_held : total (holds n) threads_num s.pc ≡ 0 =
      total_zero (holds n) threads_num s.pc (λ i lt. ap (holds n) (gone r e i lt)) in
    let over : inv.taken ≡ task_num =
      subst (Local inv.taken) (gone r e 0 (omega arith)) (inv.local 0 (omega arith)) in
    omega (arith, inv.once n, none_held, ap (λ t. due t n) over)

ended : (a : Main) → (a ≡ finished) ⊎ (a ≢ finished)
ended finished = inl refl
ended (looping i) = inr (λ e. cc)
ended (adding i) = inr (λ e. cc)
ended (putting i) = inr (λ e. cc)
ended (moving i r) = inr (λ e. cc)
ended joining = inr (λ e. cc)

Steps-Inv : {s t : System} → Steps s t → Inv s → Inv t
Steps-Inv none_yet inv = inv
Steps-Inv (and_then step more) inv = Steps-Inv more (Step-Inv step inv)

finish_from :
    (n : ℕ) (s : System) → Inv s → left s ≤ n → (t : System) × Steps s t × (t.main ≡ finished)
finish_from zero s inv le = elim (ended s.main) [
  | inl e ↦ (s, none_yet, e)
  | inr ne ↦ let (t, some, less) = goes_on s inv ne in absurd (omega (arith, less, le))
]
finish_from (suc n) s inv le = elim (ended s.main) [
  | inl e ↦ (s, none_yet, e)
  | inr ne ↦
      let (t, some, less) = goes_on s inv ne in
      let (u, more, e) = finish_from n t (Steps-Inv some inv) (omega (arith, less, le)) in
      (u, append_steps some more, e)
]

-- No deadlock: from every state that the pool reaches, the threads can go on to the state in which
-- `main` has joined all workers.
pub can_finish :
    {memory : ℕ → Task} {s : System}
    → Reach memory s
    → (t : System) × Steps s t × (t.main ≡ finished)
can_finish {s = s} r = finish_from (left s) s (Reach-Inv r) (omega arith)
