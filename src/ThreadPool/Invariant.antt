-- ===== src/ThreadPool/Invariant.antt =====
-- Labweek15/threadpools.c: every step of the pool keeps the invariant.
use mathlib.Core.Path.{subst}
use native.Mathlib.Decide.{ℕ_discrete}
use operating_system_homewor.Prelude.{
  ℕ, ◌+◌, ◌%◌, ◌≤◌, ◌<◌, ◌≡◌, ◌≢◌, refl, sym, ap, ◌∙◌, arith, count, update, update_self, update_ne,
  total, total-update, total_member, total_two, total_alone, total_const,
}
use operating_system_homewor.ThreadPool.{
  threads_num, task_queue_max_size, task_num, Task, Shared, Pc, w_wait, w_while, w_sum, w_post_last,
  w_exit, w_count, w_take, w_front, w_post, w_run, Work, Main, looping, adding, putting, moving,
  joining, finished, numbered, Add, System, Step, work, add, join, init_system, Reach, starts,
  steps,
}
use operating_system_homewor.ThreadPool.State.{
  critical, lowered, sure_task, holds, added, placed, sure_room, Local, LocalMain, Inv,
}
use operating_system_homewor.ThreadPool.Adder.{
  Add-Untouched, Add-rear, Add-added, Add-LocalMain, Add-room, Add-queued,
}
use operating_system_homewor.ThreadPool.Worker.{
  taken_after, Balanced, Work-Balanced, Work-sure, Work-front, Work-tasks, Work-Local, Work-once,
}

pub added_most : (r : ℕ) (a : Main) → LocalMain r a → added a ≤ task_num
added_most r (looping i) l = l
added_most r (adding i) l = omega (arith, l)
added_most r (putting i) l = omega (arith, l)
added_most r (moving i r') l = omega (arith, l.0)
added_most r joining l = omega arith
added_most r finished l = omega arith

taken_later : (t : ℕ) (p : Pc) → t ≤ taken_after t p
taken_later t p = ground arith

sure-critical : (r : Pc) → sure_task r ≤ critical r
sure-critical r = ground arith

lowered-critical : (r : Pc) → lowered r ≤ critical r
lowered-critical r = ground arith

-- What a worker outside its critical section knows, it knows when more tasks have been taken.
Local-outside :
    (t t' : ℕ) (r : Pc) → t ≤ t' → t' ≤ task_num → critical r ≡ 0 → Local t r → Local t' r
Local-outside t t' w_wait le most out l = tt
Local-outside t t' w_exit le most out l = omega (arith, le, most, l)
Local-outside t t' (w_run x) le most out l = tt
Local-outside t t' w_while le most out l = absurd (omega (arith, out))
Local-outside t t' w_sum le most out l = absurd (omega (arith, out))
Local-outside t t' w_post_last le most out l = absurd (omega (arith, out))
Local-outside t t' w_count le most out l = absurd (omega (arith, out))
Local-outside t t' w_take le most out l = absurd (omega (arith, out))
Local-outside t t' (w_front f x) le most out l = absurd (omega (arith, out))
Local-outside t t' (w_post x) le most out l = absurd (omega (arith, out))

module _ (s : System) (inv : Inv s) (i : ℕ) (lt : i < threads_num) where
  alone : 0 < critical (s.pc i) → (j : ℕ) → j < threads_num → j ≢ i → critical (s.pc j) ≡ 0
  alone in_p j lt_j ne = omega (arith, total_two critical threads_num i j s.pc lt lt_j ne, inv.lock)

  -- While this worker owns the mutex, what it weighs is all that any do.
  all_of :
      (w : Pc → ℕ)
      → ((r : Pc) → w r ≤ critical r)
      → 0 < critical (s.pc i)
      → total w threads_num s.pc ≡ w (s.pc i)
  all_of w light in_p =
      total_alone w threads_num i s.pc lt
        (λ j lt_j ne. omega (arith, light (s.pc j), alone in_p j lt_j ne))

  -- What the sum has been lowered by is one at most, by the owner of the mutex.
  pub sum_of :
      critical (s.pc i) ≡ 1 → s.shared.pools.task_sum + inv.taken + lowered (s.pc i) ≡ task_num
  sum_of in_p = omega (arith, inv.sum, all_of lowered lowered-critical (omega (arith, in_p)))

module _ (s : System) (inv : Inv s) (i : ℕ) (lt : i < threads_num) (m' : Shared) (q : Pc)
    (move : Work s.shared (s.pc i) m' q) where
  abbrev p : Pc
  p = s.pc i

  abbrev pc' : ℕ → Pc
  pc' = update s.pc i q

  abbrev t : ℕ
  t = inv.taken

  self : pc' i ≡ q
  self = update_self s.pc i q

  other : (j : ℕ) → j ≢ i → pc' j ≡ s.pc j
  other j ne = update_ne s.pc i j q ne

  sure_now : t + sure_task p ≤ added s.main
  sure_now = omega (arith, inv.enough, total_member sure_task threads_num i s.pc lt)

  most_added : added s.main ≤ task_num
  most_added = added_most s.shared.pools.task_queue.rear s.main inv.local_main

  balanced : Balanced t s.shared p m' q
  balanced = Work-Balanced t (sum_of s inv i lt) (omega (arith, sure_now, most_added)) move

  sure_after : taken_after t p + sure_task q ≤ added s.main
  sure_after = Work-sure t (added s.main) inv.front inv.rear sure_now (omega (arith, inv.room)) move

  enough_after : taken_after t p + total sure_task threads_num pc' ≤ added s.main
  enough_after =
      let change = total-update sure_task threads_num i s.pc q lt in
      elim (ℕ_discrete (critical p) 0) [
        | yes out ↦ omega (arith, change, balanced.3 out, balanced.4 out, inv.enough)
        | no in_p ↦ omega (
          arith,
          change,
          all_of s inv i lt sure_task sure-critical (omega (arith, in_p)),
          sure_after,
        )
      ]

  in_front :
      0 < sure_task p → s.shared.pools.task_queue.tasks (t % task_queue_max_size) ≡ numbered (t + 1)
  in_front sure = inv.queued t (omega arith) (omega (arith, sure, sure_now))

  Local-after : (j : ℕ) → j < threads_num → Local (taken_after t p) (pc' j)
  Local-after j lt_j = elim (ℕ_discrete j i) [
    | yes e ↦
        subst (Local (taken_after t p)) (sym (ap pc' e ∙ self))
          (Work-Local t inv.front in_front (sum_of s inv i lt) (inv.local i lt) move)
    | no ne ↦ subst (Local (taken_after t p)) (sym (other j ne)) (elim (ℕ_discrete (critical p) 0) [
      | yes out ↦ subst (λ n. Local n (s.pc j)) (sym (balanced.3 out)) (inv.local j lt_j)
      | no in_p ↦
          Local-outside t (taken_after t p) (s.pc j) (taken_later t p)
            (omega (arith, sure_after, most_added))
            (alone s inv i lt (omega (arith, in_p)) j lt_j ne) (inv.local j lt_j)
    ])
  ]

  work_Inv : Inv (record s { shared = m'; pc = pc' })
  work_Inv = record {
    taken = taken_after t p;
    lock = omega (arith, inv.lock, balanced.0, total-update critical threads_num i s.pc q lt);
    sum = omega (arith, inv.sum, balanced.1, total-update lowered threads_num i s.pc q lt);
    front = Work-front t inv.front (inv.local i lt) move;
    rear = balanced.2 ∙ inv.rear;
    enough = enough_after;
    room = omega (arith, inv.room, taken_later t p);
    queued = λ k le lt_k.
        ap (λ f. f (k % task_queue_max_size)) (Work-tasks move)
        ∙ inv.queued k (omega (arith, le, taken_later t p)) lt_k;
    once = λ n. omega (
      arith,
      inv.once n,
      Work-once t n (inv.local i lt) move,
      total-update (holds n) threads_num i s.pc q lt,
    );
    local = Local-after;
    local_main = subst (λ r. LocalMain r s.main) (sym balanced.2) inv.local_main;
  }

add_Inv :
    (s : System) {m : Shared} {a : Main}
    → Inv s
    → Add s.shared s.main m a
    → Inv (record s { shared = m; main = a })
add_Inv s {m} {a} inv move =
    let same = Add-Untouched move in
    let t = inv.taken in
    let few = inv.room in
    record {
      taken = t;
      lock = omega (arith, inv.lock, same.0);
      sum = omega (arith, inv.sum, same.1);
      front = same.2 ∙ inv.front;
      rear = Add-rear inv.rear inv.local_main move;
      enough = omega (arith, inv.enough, Add-added inv.local_main move);
      room = Add-room t inv.front inv.rear (omega (arith, inv.enough)) few inv.local_main move;
      queued = Add-queued t inv.rear few inv.local_main inv.queued move;
      once = λ n. ap (λ xs. count n xs + total (holds n) threads_num s.pc) same.3 ∙ inv.once n;
      local = inv.local;
      local_main = Add-LocalMain inv.local_main move;
    }

init-Inv : (memory : ℕ → Task) → Inv (init_system memory)
init-Inv memory = record {
  taken = 0;
  lock = omega (arith, total_const critical threads_num w_wait refl);
  sum = omega (arith, total_const lowered threads_num w_wait refl);
  front = refl;
  rear = refl;
  enough = omega (arith, total_const sure_task threads_num w_wait refl);
  room = omega arith;
  queued = λ k le lt. absurd (omega (arith, lt));
  once = λ n. ground (arith, total_const (holds n) threads_num w_wait refl);
  local = λ i lt. tt;
  local_main = omega arith;
}

pub Step-Inv : {s t : System} → Step s t → Inv s → Inv t
Step-Inv {s} (work {m = m} {p = q} i lt move) inv = work_Inv s inv i lt m q move
Step-Inv {s} (add move) inv = add_Inv s inv move
Step-Inv (join e gone) inv = record {
  taken = inv.taken;
  lock = inv.lock;
  sum = inv.sum;
  front = inv.front;
  rear = inv.rear ∙ ap (λ a. added a % task_queue_max_size) e;
  enough = omega (arith, inv.enough, ap added e);
  room = omega (arith, inv.room, ap added e, ap sure_room e);
  queued = λ k le lt. inv.queued k le (omega (arith, lt, ap added e, ap placed e));
  once = inv.once;
  local = inv.local;
  local_main = tt;
}

pub Reach-Inv : {memory : ℕ → Task} {s : System} → Reach memory s → Inv s
Reach-Inv {memory} starts = init-Inv memory
Reach-Inv (steps before step) = Step-Inv step (Reach-Inv before)
