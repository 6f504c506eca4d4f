-- ===== src/ThreadPool/Progress.antt =====
-- Labweek15/threadpools.c: from every state that the pool reaches all threads can come to their end.
use mathlib.Core.Path.{subst}
use native.Mathlib.Decide.{ℕ_discrete}
use operating_system_homewor.Prelude.{
  ℕ, zero, suc, ◌+◌, ◌-◌, ◌*◌, ◌<◌, ◌≡◌, ◌≢◌, ◌⊎◌, inl, inr, refl, sym, ap, arith, update,
  update_self, total, total-update, total_find, total_member, every_or,
}
use operating_system_homewor.ThreadPool.{
  threads_num, task_num, Shared, Pc, w_wait, w_while, w_sum, w_post_last, w_exit, w_count, w_take,
  w_front, w_post, w_run, Work, locks, finds_none, finds_task, ends, sleeps, unlocks_last, counts,
  takes, moves_front, unlocks, runs, Main, looping, adding, putting, moving, joining, finished, Add,
  next, all_added, finds_room, puts, moves_rear, System, Step, work, add, join,
}
use operating_system_homewor.ThreadPool.State.{
  critical, lowered, Local, sure_task, added, LocalMain, Inv,
}
use operating_system_homewor.ThreadPool.Invariant.{added_most, sum_of, Step-Inv}

-- Any number of steps.
pub data Steps : System → System → Type 0 where
  none_yet : {s : System} → Steps s s
  and_then : {s t u : System} → Step s t → Steps t u → Steps s u

pub append_steps : {s t u : System} → Steps s t → Steps t u → Steps s u
append_steps none_yet more = more
append_steps (and_then step some) more = and_then step (append_steps some more)

-- How many steps other than waiting a worker has at most before it has run its task or ended.
abbrev pub ahead : Pc → ℕ
ahead w_wait = 6
ahead w_while = 5
ahead w_sum = 5
ahead w_post_last = 4
ahead w_exit = 0
ahead w_count = 4
ahead w_take = 12
ahead (w_front _ _) = 11
ahead (w_post _) = 10
ahead (w_run _) = 9

abbrev pub ahead_main : Main → ℕ
ahead_main (looping i) = 4 * (task_num - i) + 3
ahead_main (adding i) = 4 * (task_num - i) + 2
ahead_main (putting i) = 4 * (task_num - i) + 1
ahead_main (moving i _) = 4 * (task_num - i)
ahead_main joining = 2
ahead_main finished = 0

-- What is left to do.
abbrev pub left : System → ℕ
left s = 10 * s.shared.pools.task_sum + total ahead threads_num s.pc + ahead_main s.main

abbrev pub Progress : System → Type 0
Progress s = (t : System) × Steps s t × (left t < left s)

Work-to :
    (s : System) (i : ℕ) (p : Pc)
    → i < threads_num
    → s.pc i ≡ p
    → {m : Shared} {q : Pc} → Work s.shared p m q
    → Step s (record s { shared = m; pc = update s.pc i q })
Work-to s i p lt e {m} {q} move = work i lt (subst (λ x. Work s.shared x m q) (sym e) move)

less-Work :
    (s : System) (i : ℕ) (p : Pc)
    → i < threads_num
    → s.pc i ≡ p
    → {m : Shared} {q : Pc} → Work s.shared p m q
    → 10 * m.pools.task_sum + ahead q < 10 * s.shared.pools.task_sum + ahead p
    → Progress s
less-Work s i p lt e {m} {q} move less = (
  _,
  and_then (Work-to s i p lt e move) none_yet,
  omega (arith, total-update ahead threads_num i s.pc q lt, ap ahead e, less),
)

-- A waiting step does not add to what is left.
after_waiting :
    (s : System) (i : ℕ) (p : Pc)
    → i < threads_num
    → s.pc i ≡ p
    → {q : Pc} → Work s.shared p s.shared q
    → ahead q ≡ ahead p
    → Progress (record s { pc = update s.pc i q })
    → Progress s
after_waiting s i p lt e {q} move same (t, go, less) = (
  t,
  and_then (Work-to s i p lt e move) go,
  omega (arith, total-update ahead threads_num i s.pc q lt, ap ahead e, same, less),
)

less-Main :
    (s : System) (a : Main)
    → s.main ≡ a
    → {m : Shared} {b : Main} → Add s.shared a m b
    → m.pools.task_sum ≡ s.shared.pools.task_sum
    → ahead_main b < ahead_main a
    → Progress s
less-Main s a e {m} {b} move same less = (
  _,
  and_then (add (subst (λ x. Add s.shared x m b) (sym e) move)) none_yet,
  omega (arith, ap ahead_main e, same, less),
)

-- While the queue is empty and not all tasks are taken, `main` goes on.
main_goes :
    (s : System) (inv : Inv s) (a : Main)
    → s.main ≡ a
    → inv.taken ≡ added a
    → inv.taken < task_num
    → Progress s
main_goes s inv (looping i) e all few =
    less-Main s _ e (next (omega (arith, all, few))) refl (omega arith)
main_goes s inv (adding i) e all few =
    less-Main s _ e (finds_room (λ full. omega (arith, full, inv.front, inv.rear, ap added e, all)))
      refl (omega arith)
main_goes s inv (putting i) e all few = less-Main s _ e puts refl (omega arith)
main_goes s inv (moving i r) e all few = less-Main s _ e moves_rear refl (omega (arith, all, few))
main_goes s inv joining e all few = absurd (omega (arith, all, few))
main_goes s inv finished e all few = absurd (omega (arith, all, few))

-- A worker at the test of the queue: it finds a task, or ends, or waits for `main`.
while_goes : (s : System) → Inv s → (i : ℕ) → i < threads_num → s.pc i ≡ w_while → Progress s
while_goes s inv i lt e =
    elim (ℕ_discrete s.shared.pools.task_queue.front s.shared.pools.task_queue.rear) [
      | no some ↦ less-Work s i w_while lt e (finds_task some) (omega arith)
      | yes empty ↦ elim (ℕ_discrete s.shared.pools.task_sum 0) [
        | yes over ↦
            after_waiting s i w_while lt e (finds_none empty) refl
              (less-Work _ i w_sum lt (update_self s.pc i w_sum) (ends over) (omega arith))
        | no more ↦
            main_goes s inv s.main refl
              (omega (arith, empty, inv.front, inv.rear, inv.enough, inv.room))
              (omega (arith, more, inv.sum))
      ]
    ]

owner_goes :
    (s : System)
    → Inv s
    → (i : ℕ) → i < threads_num
    → (p : Pc) → s.pc i ≡ p
    → 0 < critical p
    → Progress s
owner_goes s inv i lt w_wait e in_p = absurd (omega (arith, in_p))
owner_goes s inv i lt w_while e in_p = while_goes s inv i lt e
owner_goes s inv i lt w_sum e in_p = elim (ℕ_discrete s.shared.pools.task_sum 0) [
  | yes over ↦ less-Work s i w_sum lt e (ends over) (omega arith)
  | no more ↦ after_waiting s i w_sum lt e (sleeps more) refl (
      while_goes _ (Step-Inv (Work-to s i w_sum lt e (sleeps more)) inv) i lt
        (update_self s.pc i w_while))
]
owner_goes s inv i lt w_post_last e in_p = less-Work s i _ lt e unlocks_last (omega arith)
owner_goes s inv i lt w_exit e in_p = absurd (omega (arith, in_p))
owner_goes s inv i lt w_count e in_p = less-Work s i _ lt e counts (
    omega (
      arith,
      sum_of s inv i lt (omega (arith, ap critical e)),
      total_member sure_task threads_num i s.pc lt,
      ap sure_task e,
      ap lowered e,
      inv.enough,
      added_most s.shared.pools.task_queue.rear s.main inv.local_main,
    ))
owner_goes s inv i lt w_take e in_p = less-Work s i _ lt e takes (omega arith)
owner_goes s inv i lt (w_front f t) e in_p = less-Work s i _ lt e moves_front (omega arith)
owner_goes s inv i lt (w_post t) e in_p = less-Work s i _ lt e unlocks (omega arith)
owner_goes s inv i lt (w_run t) e in_p = absurd (omega (arith, in_p))

-- Workers end when all tasks are taken, and so are added.
all_added_then :
    (s : System) (inv : Inv s)
    → ((i : ℕ) → i < threads_num → s.pc i ≡ w_exit)
    → added s.main ≡ task_num
all_added_then s inv gone =
    let over : inv.taken ≡ task_num =
      subst (Local inv.taken) (gone 0 (omega arith)) (inv.local 0 (omega arith)) in
    omega (arith, over, inv.enough, added_most s.shared.pools.task_queue.rear s.main inv.local_main)

-- With the mutex free a worker has ended or goes on.
free_goes :
    (s : System) (v : ℕ)
    → s.shared.pools.sem_mutex ≡ v + 1
    → (i : ℕ) → i < threads_num
    → (p : Pc) → s.pc i ≡ p
    → critical p ≡ 0
    → (p ≡ w_exit) ⊎ Progress s
free_goes s v free i lt w_wait e out = inr (less-Work s i _ lt e (locks free) (omega arith))
free_goes s v free i lt w_exit e out = inl refl
free_goes s v free i lt (w_run t) e out = inr (less-Work s i _ lt e runs (omega arith))
free_goes s v free i lt w_while e out = absurd (omega (arith, out))
free_goes s v free i lt w_sum e out = absurd (omega (arith, out))
free_goes s v free i lt w_post_last e out = absurd (omega (arith, out))
free_goes s v free i lt w_count e out = absurd (omega (arith, out))
free_goes s v free i lt w_take e out = absurd (omega (arith, out))
free_goes s v free i lt (w_front f t) e out = absurd (omega (arith, out))
free_goes s v free i lt (w_post t) e out = absurd (omega (arith, out))

-- When every worker has ended, all tasks are added, and `main` goes to its end.
end_goes :
    (s : System)
    → Inv s
    → ((i : ℕ) → i < threads_num → s.pc i ≡ w_exit)
    → added s.main ≡ task_num
    → (a : Main) → s.main ≡ a
    → LocalMain s.shared.pools.task_queue.rear a
    → a ≢ finished
    → Progress s
end_goes s inv gone all (looping i) e l ne =
    less-Main s _ e (all_added (omega (arith, all, ap added e))) refl
      (omega (arith, all, ap added e))
end_goes s inv gone all (adding i) e l ne = absurd (omega (arith, all, ap added e, l))
end_goes s inv gone all (putting i) e l ne = absurd (omega (arith, all, ap added e, l))
end_goes s inv gone all (moving i r) e l ne = absurd (omega (arith, all, ap added e, l.0))
end_goes s inv gone all joining e l ne =
    (_, and_then (join e gone) none_yet, omega (arith, ap ahead_main e))
end_goes s inv gone all finished e l ne = absurd (ne refl)

semaphore-cases : (v : ℕ) → (v ≡ 0) ⊎ ((u : ℕ) × (v ≡ u + 1))
semaphore-cases zero = inl refl
semaphore-cases (suc v) = inr (v, omega arith)

pub goes_on : (s : System) → Inv s → s.main ≢ finished → Progress s
goes_on s inv ne = elim (semaphore-cases s.shared.pools.sem_mutex) [
  | inl taken ↦
      let (i, lt, in_i) = total_find critical threads_num s.pc (omega (arith, inv.lock, taken)) in
      owner_goes s inv i lt (s.pc i) refl in_i
  | inr (v, free) ↦
      elim (every_or threads_num (λ i lt.
        free_goes s v free i lt (s.pc i) refl
          (omega (arith, total_member critical threads_num i s.pc lt, inv.lock, free)))) [
            | inr (i, lt, progress) ↦ progress
            | inl gone ↦
                end_goes s inv gone (all_added_then s inv gone) s.main refl inv.local_main ne
          ]
]
