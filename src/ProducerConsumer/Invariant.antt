-- ===== src/ProducerConsumer/Invariant.antt =====
-- Labweek15/alg.18-7-syn-pc-producer-6.c and alg.18-8-syn-pc-consumer-6.c: what holds in every state
-- that the two processes reach.
use mathlib.Core.Path.{subst}
use native.Mathlib.Decide.{ℕ_discrete}
use operating_system_homewor.Prelude.{
  ℕ, zero, suc, ◌+◌, ◌%◌, total_zero, ◌≤◌, ◌<◌, ◌≡◌, ◌≢◌, refl, sym, ap, ◌∙◌, arith, update,
  update_self, update_ne, total, total-update, total_two, total_member,
}
use operating_system_homewor.ProducerConsumer.{
  Shared, DataPcSt, Pc, p_while, Main, joining, posting, System, Step, produce, consume, joined,
  post,
}
use operating_system_homewor.ProducerConsumer.Setup.{
  Sizes, IsValid, first_pc, init_system, Reach, starts, steps,
}
use operating_system_homewor.ProducerConsumer.Balance.{
  critical, has_slot, has_stock, Balanced, Produce-Balanced, Consume-Balanced,
}
use operating_system_homewor.ProducerConsumer.Content.{Content}
use operating_system_homewor.ProducerConsumer.Outside.{
  Content-idle, Produce-outside, Consume-outside,
}
use operating_system_homewor.ProducerConsumer.Contents.{Produce-Content, Consume-Content}

-- The stock that `main` has posted.
abbrev pub posted : Main → ℕ
posted joining = 0
posted (posting k) = k

abbrev pub threads : Sizes → ℕ
threads z = z.thread_pro + z.thread_cons

pub record Inv (z : Sizes) (s : System) : Type 0 where
  pub sized :
      (s.shared.ctln.buffer_size ≡ z.buffer_size)
      × (s.shared.ctln.max_item_num ≡ z.max_item_num)
      × (s.shared.ctln.thread_pro ≡ z.thread_pro)
      × (s.shared.ctln.thread_cons ≡ z.thread_cons)
  pub lock : s.shared.ctln.sem_mutex + total critical (threads z) s.pc ≡ 1
  pub slots :
      s.shared.ctln.emptyslot + total has_slot (threads z) s.pc + s.shared.ctln.item_num
      ≡ z.buffer_size + s.shared.ctln.consume_num
  pub stocks :
      s.shared.ctln.stock + total has_stock (threads z) s.pc + s.shared.ctln.consume_num
      ≡ s.shared.ctln.item_num + posted s.main
  pub owner : Pc
  pub holds : critical owner ≡ total critical (threads z) s.pc
  pub only : (i : ℕ) → i < threads z → 0 < critical (s.pc i) → s.pc i ≡ owner
  pub content : Content s.shared owner

-- What a step of a thread from `p` to `q` does to what the shared memory holds.
record Keeps (m : Shared) (p : Pc) (m' : Shared) (q : Pc) : Type 0 where
  balanced : Balanced m p m' q
  inside : m.ctln.item_num ≤ m.ctln.consume_num + m.ctln.buffer_size → Content m p → Content m' q
  outside : (o : Pc) → critical p + critical q ≡ 0 → Content m o → Content m' o

-- Who owns the mutex after a step of a thread to `q`.
record Owned (z : Sizes) (m : Shared) (pc : ℕ → Pc) : Type 0 where
  owner : Pc
  holds : critical owner ≡ total critical (threads z) pc
  only : (i : ℕ) → i < threads z → 0 < critical (pc i) → pc i ≡ owner
  content : Content m owner

module _ (z : Sizes) (s : System) (inv : Inv z s) (i : ℕ) (lt : i < threads z) (m' : Shared)
    (q : Pc) where
  abbrev p : Pc
  p = s.pc i

  abbrev pc' : ℕ → Pc
  pc' = update s.pc i q

  critical_after :
      total critical (threads z) pc' + critical p ≡ total critical (threads z) s.pc + critical q
  critical_after = total-update critical (threads z) i s.pc q lt

  room : s.shared.ctln.item_num ≤ s.shared.ctln.consume_num + s.shared.ctln.buffer_size
  room = omega (arith, inv.slots, inv.sized.0)

  -- No other thread is in its critical section together with this one.
  alone : 0 < critical p → (j : ℕ) → j < threads z → j ≢ i → critical (s.pc j) ≡ 0
  alone in_i j ltj ne = omega (arith, total_two critical (threads z) i j s.pc lt ltj ne, inv.lock)

  self : pc' i ≡ q
  self = update_self s.pc i q

  other : (j : ℕ) → j ≢ i → pc' j ≡ s.pc j
  other j ne = update_ne s.pc i j q ne

  -- The thread that moves is the only one that may be in its critical section.
  only_mover :
      ((j : ℕ) → j < threads z → j ≢ i → critical (s.pc j) ≡ 0)
      → (j : ℕ) → j < threads z
      → 0 < critical (pc' j)
      → pc' j ≡ q
  only_mover none_else j lt_j in_j = elim (ℕ_discrete j i) [
    | yes e ↦ ap pc' e ∙ self
    | no ne ↦ absurd (omega (arith, in_j, ap critical (other j ne), none_else j lt_j ne))
  ]

  stays_outside : Keeps s.shared p m' q → critical p + critical q ≡ 0 → Owned z m' pc'
  stays_outside k none_in = record {
    owner = inv.owner;
    holds = omega (arith, inv.holds, critical_after, none_in);
    only = λ j ltj in_j. elim (ℕ_discrete j i) [
      | yes e ↦
          absurd (omega (arith, in_j, ap (λ x. critical (pc' x)) e, ap critical self, none_in))
      | no ne ↦ other j ne ∙ inv.only j ltj (omega (arith, in_j, ap critical (other j ne)))
    ];
    content = k.outside inv.owner none_in inv.content;
  }

  stays_inside : Keeps s.shared p m' q → 0 < critical p → Owned z m' pc'
  stays_inside k in_p = record {
    owner = q;
    holds = omega (arith, inv.holds, critical_after, ap critical (inv.only i lt in_p));
    only = only_mover (alone in_p);
    content = k.inside room (subst (Content s.shared) (sym (inv.only i lt in_p)) inv.content);
  }

  goes_inside : Keeps s.shared p m' q → critical p ≡ 0 → 0 < critical q → Owned z m' pc'
  goes_inside k out_p in_q = record {
    owner = q;
    holds = omega (arith, inv.lock, critical_after, k.balanced.0);
    only = only_mover (λ j lt_j ne.
        omega (arith, total_member critical (threads z) j s.pc lt_j, inv.lock, k.balanced.0));
    content = k.inside room (
        Content-idle s.shared inv.owner p (omega (arith, inv.holds, inv.lock, k.balanced.0)) out_p
          inv.content);
  }

  owned : Keeps s.shared p m' q → Owned z m' pc'
  owned k = elim (ℕ_discrete (critical p) 0) [
    | no in_p ↦ stays_inside k (omega (arith, in_p))
    | yes out_p ↦ elim (ℕ_discrete (critical q) 0) [
      | no in_q ↦ goes_inside k out_p (omega (arith, in_q))
      | yes out_q ↦ stays_outside k (omega (arith, out_p, out_q))
    ]
  ]

  -- A step of one thread keeps the invariant.
  move_Inv : Keeps s.shared p m' q → Inv z (record s { shared = m'; pc = pc' })
  move_Inv k = record {
    sized = ground (arith, k.balanced, inv.sized);
    lock = omega (arith, inv.lock, critical_after, k.balanced.0);
    slots = omega (arith, inv.slots, total-update has_slot (threads z) i s.pc q lt, k.balanced.1);
    stocks =
        omega (arith, inv.stocks, total-update has_stock (threads z) i s.pc q lt, k.balanced.2);
    owner = (owned k).owner;
    holds = (owned k).holds;
    only = (owned k).only;
    content = (owned k).content;
  }

start_place : (z : Sizes) → 0 ≡ 0 % z.buffer_size
start_place z = omega arith

first-critical : (n i : ℕ) → critical (first_pc n i) ≡ 0
first-critical zero i = refl
first-critical (suc n) zero = refl
first-critical (suc n) (suc i) = first-critical n i

first-has_slot : (n i : ℕ) → has_slot (first_pc n i) ≡ 0
first-has_slot zero i = refl
first-has_slot (suc n) zero = refl
first-has_slot (suc n) (suc i) = first-has_slot n i

first-has_stock : (n i : ℕ) → has_stock (first_pc n i) ≡ 0
first-has_stock zero i = refl
first-has_stock (suc n) zero = refl
first-has_stock (suc n) (suc i) = first-has_stock n i

none_critical : (z : Sizes) → total critical (threads z) (first_pc z.thread_pro) ≡ 0
none_critical z = total_zero critical (threads z) _ (λ i lt. first-critical z.thread_pro i)

init-Inv : (z : Sizes) (memory : ℕ → DataPcSt) → IsValid z → Inv z (init_system z memory)
init-Inv z memory valid = record {
  sized = (refl, refl, refl, refl);
  lock = omega (arith, none_critical z);
  slots = omega (arith, total_zero has_slot (threads z) _ (λ i lt. first-has_slot z.thread_pro i));
  stocks =
      omega (arith, total_zero has_stock (threads z) _ (λ i lt. first-has_stock z.thread_pro i));
  owner = p_while;
  holds = sym (none_critical z);
  only = λ i lt in_i. absurd (omega (arith, in_i, first-critical z.thread_pro i));
  content = record {
    placed = (start_place z, start_place z, λ k lt le. absurd (omega (arith, lt, le)));
    counted = ground (arith, valid.items);
    told = refl;
  };
}

-- `main` of the producers' process only changes the stock.
main_Inv :
    {z : Sizes} {s : System}
    → Inv z s
    → (v : ℕ) (k : Main) → v + posted s.main ≡ s.shared.ctln.stock + posted k
    → Inv z (record s {
      shared = record s.shared { ctln = record s.shared.ctln { stock = v } };
      main = k;
    })
main_Inv inv v k e = record {
  sized = inv.sized;
  lock = inv.lock;
  slots = inv.slots;
  stocks = omega (arith, inv.stocks, e);
  owner = inv.owner;
  holds = inv.holds;
  only = inv.only;
  content = record {
    placed = inv.content.placed;
    counted = inv.content.counted;
    told = inv.content.told;
  };
}

-- Every step of the two processes keeps the invariant.
pub Step-Inv : {z : Sizes} {s t : System} → Step s t → Inv z s → Inv z t
Step-Inv {z} {s} (produce {m = m} {p = q} i lt move) inv =
    move_Inv z s inv i (omega (arith, lt, inv.sized.2)) m q (record {
      balanced = Produce-Balanced move;
      inside = Produce-Content move;
      outside = λ o. Produce-outside move;
    })
Step-Inv {z} {s} (consume {m = m} {p = q} i ge lt move) inv =
    move_Inv z s inv i (omega (arith, lt, inv.sized.2, inv.sized.3)) m q (record {
      balanced = Consume-Balanced move;
      inside = Consume-Content move;
      outside = λ o. Consume-outside move;
    })
Step-Inv {s = s} (joined e done) inv =
    main_Inv inv s.shared.ctln.stock (posting 0) (omega (arith, ap posted e))
Step-Inv {s = s} (post k e more) inv =
    main_Inv inv (s.shared.ctln.stock + 1) (posting (k + 1)) (omega (arith, ap posted e))

pub Reach-Inv :
    {z : Sizes} {memory : ℕ → DataPcSt} {s : System} → IsValid z → Reach z memory s → Inv z s
Reach-Inv {z} {memory} valid starts = init-Inv z memory valid
Reach-Inv valid (steps before step) = Step-Inv step (Reach-Inv valid before)
