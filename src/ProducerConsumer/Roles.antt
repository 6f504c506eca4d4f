-- ===== src/ProducerConsumer/Roles.antt =====
-- Labweek15/alg.18-7-syn-pc-producer-6.c and alg.18-8-syn-pc-consumer-6.c: when a thread may end, and
-- who has seen the last item.
use operating_system_homewor.Prelude.{
  ℕ, zero, suc, ◌≤◌, ◌<◌, ◌≡◌, ◌≢◌, refl, sym, ap, ◌∙◌, ◌⊎◌, inl, inr, arith, update, update_self,
  update_ne, total, total-update, total_member,
}
use mathlib.Core.Path.{subst}
use native.Mathlib.Decide.{ℕ_discrete}
use operating_system_homewor.ProducerConsumer.{
  Main, DataPcSt, Shared, Pc, Produce, Consume, Main, System, Step, produce, consume, joined, post,
  p_while, p_wait_slot, p_wait_mutex, p_if, p_count, p_move, p_write, p_flag, p_post_stock,
  p_post_slot, p_post_mutex, p_exit, c_while, c_while_flag, c_post_slot, c_post_mutex, c_exit,
  p_more, p_done, p_slot, p_lock, p_below, p_full, p_counts, p_moves, p_writes, p_flags,
  p_flags_not, p_stocks, p_returns, p_unlocks, c_some, c_none, c_goes_on, c_done, c_stock, c_lock,
  c_filled, c_empty, c_moves, c_prints, c_counts, c_frees, c_returns, c_unlocks,
}
use operating_system_homewor.ProducerConsumer.Setup.{
  Sizes, IsValid, first_pc, init_system, Reach, starts, steps,
}
use operating_system_homewor.ProducerConsumer.Balance.{Produce-Balanced, Consume-Balanced}
use operating_system_homewor.ProducerConsumer.Content.{unflagged, sure_item}
use operating_system_homewor.ProducerConsumer.Invariant.{threads, Inv, Reach-Inv}

-- A statement of `producer`.
abbrev pub producing : Pc → ℕ
producing p_while = 1
producing p_wait_slot = 1
producing p_wait_mutex = 1
producing p_if = 1
producing p_count = 1
producing p_move = 1
producing p_write = 1
producing p_flag = 1
producing p_post_stock = 1
producing p_post_slot = 1
producing p_post_mutex = 1
producing p_exit = 1
producing _ = 0

-- A producer that has ended.
abbrev pub p_left : Pc → ℕ
p_left p_exit = 1
p_left _ = 0

-- A consumer that has ended.
abbrev pub c_left : Pc → ℕ
c_left c_exit = 1
c_left _ = 0

-- A consumer that has taken an item, or tests whether to go on.
abbrev pub past_stock : Pc → ℕ
past_stock c_post_slot = 1
past_stock c_post_mutex = 1
past_stock c_while = 1
past_stock c_while_flag = 1
past_stock c_exit = 1
past_stock _ = 0

-- What a step from `p` to `q` means for the end of the run.
abbrev pub Late : Shared → Pc → Shared → Pc → Type 0
Late m p m' q =
    (producing q ≡ producing p)
    × (m.ctln.item_num ≤ m'.ctln.item_num)
    × (m.ctln.end_flag ≤ m'.ctln.end_flag)
    × (0 < p_left q → m'.ctln.max_item_num ≤ m'.ctln.item_num)
    × (0 < c_left q → 0 < m'.ctln.end_flag)
    × ((m'.ctln.consume_num ≡ m.ctln.consume_num) ⊎ (past_stock q ≡ 1))
    × (m.ctln.consume_num ≡ m.ctln.max_item_num
        → m.ctln.item_num ≤ m.ctln.max_item_num
        → 0 < m.ctln.end_flag
        → past_stock p ≤ past_stock q)

pub Produce-Late :
    {i : ℕ} {m m' : Shared} {p q : Pc} → m.ctln.end_flag ≤ 1 → Produce i m p m' q → Late m p m' q
Produce-Late low (p_more h) = ground arith
Produce-Late low (p_done h) = ground arith
Produce-Late low (p_slot h) = ground arith
Produce-Late low (p_lock h) = ground arith
Produce-Late low (p_below h) = ground arith
Produce-Late low (p_full h) = ground arith
Produce-Late low p_counts = ground arith
Produce-Late low p_moves = ground arith
Produce-Late low p_writes = ground arith
Produce-Late low (p_flags h) = ground arith
Produce-Late low (p_flags_not h) = ground arith
Produce-Late low p_stocks = ground arith
Produce-Late low p_returns = ground arith
Produce-Late low p_unlocks = ground arith

pub Consume-Late :
    {i : ℕ} {m m' : Shared} {p q : Pc} → m.ctln.end_flag ≤ 1 → Consume i m p m' q → Late m p m' q
Consume-Late low (c_some h) = ground arith
Consume-Late low (c_none h) = ground arith
Consume-Late low (c_goes_on h) = ground arith
Consume-Late low (c_done h) = ground arith
Consume-Late low (c_stock h) = ground arith
Consume-Late low (c_lock h) = ground arith
Consume-Late low (c_filled h) = ground arith
Consume-Late low (c_empty h) = ground arith
Consume-Late low c_moves = ground arith
Consume-Late low c_prints = ground arith
Consume-Late low c_counts = ground arith
Consume-Late low c_frees = ground arith
Consume-Late low c_returns = ground arith
Consume-Late low c_unlocks = ground arith

pub record Ends (z : Sizes) (s : System) : Type 0 where
  pub producers : (i : ℕ) → i < z.thread_pro → producing (s.pc i) ≡ 1
  pub consumers : (i : ℕ) → z.thread_pro ≤ i → i < threads z → producing (s.pc i) ≡ 0
  pub p_ends :
      (i : ℕ)
      → i < threads z
      → 0 < p_left (s.pc i)
      → s.shared.ctln.max_item_num ≤ s.shared.ctln.item_num
  pub c_ends : (i : ℕ) → i < threads z → 0 < c_left (s.pc i) → 0 < s.shared.ctln.end_flag
  pub seen :
      s.shared.ctln.consume_num ≡ s.shared.ctln.max_item_num → 0 < total past_stock (threads z) s.pc

unflagged_sure : (p : Pc) → unflagged p ≤ sure_item p
unflagged_sure p = ground arith

-- When all items are consumed, the end has been announced.
flag_set :
    {z : Sizes} {s : System}
    → Inv z s
    → s.shared.ctln.consume_num ≡ s.shared.ctln.max_item_num
    → 0 < s.shared.ctln.end_flag
flag_set {s = s} inv e = ground (arith, inv.content.counted, unflagged_sure inv.owner, e)

module _ (z : Sizes) (s : System) (inv : Inv z s) (ends : Ends z s) (i : ℕ) (lt : i < threads z)
    (m' : Shared) (q : Pc) (late : Late s.shared (s.pc i) m' q)
    (same_max : m'.ctln.max_item_num ≡ s.shared.ctln.max_item_num) where
  abbrev pc' : ℕ → Pc
  pc' = update s.pc i q

  -- A fact about each thread that holds of the mover and of the others still.
  each :
      (w : Pc → ℕ) (P : ℕ → Type 0) → P (w q) → (j : ℕ) → (j ≢ i → P (w (s.pc j))) → P (w (pc' j))
  each w P here j others = elim (ℕ_discrete j i) [
    | yes e ↦ subst (λ x. P (w x)) (sym (ap pc' e ∙ update_self s.pc i q)) here
    | no ne ↦ subst (λ x. P (w x)) (sym (update_ne s.pc i j q ne)) (others ne)
  ]

  role : (j : ℕ) → producing (pc' j) ≡ producing (s.pc j)
  role j = elim (ℕ_discrete j i) [
    | yes e ↦
        ap (λ x. producing (pc' x)) e
        ∙ ap producing (update_self s.pc i q)
        ∙ late.0
        ∙ ap (λ x. producing (s.pc x)) (sym e)
    | no ne ↦ ap producing (update_ne s.pc i j q ne)
  ]

  still_seen : m'.ctln.consume_num ≡ m'.ctln.max_item_num → 0 < total past_stock (threads z) pc'
  still_seen all = elim late.5 [
    | inr past ↦ omega (
      arith,
      total_member past_stock (threads z) i pc' lt,
      ap past_stock (update_self s.pc i q),
      past,
    )
    | inl same ↦
        let all_before : s.shared.ctln.consume_num ≡ s.shared.ctln.max_item_num =
          sym same ∙ all ∙ same_max in
        omega (
          arith,
          total-update past_stock (threads z) i s.pc q lt,
          ends.seen all_before,
          late.6 all_before (omega (arith, inv.content.counted.0)) (flag_set inv all_before),
        )
  ]

  pub move_Ends : Ends z (record s { shared = m'; pc = pc' })
  move_Ends = record {
    producers = λ j lt_j. role j ∙ ends.producers j lt_j;
    consumers = λ j ge_j lt_j. role j ∙ ends.consumers j ge_j lt_j;
    p_ends = λ j lt_j.
        each p_left (λ w. 0 < w → m'.ctln.max_item_num ≤ m'.ctln.item_num) late.3 j
          (λ ne left. omega (arith, ends.p_ends j lt_j left, late.1, same_max));
    c_ends = λ j lt_j.
        each c_left (λ w. 0 < w → 0 < m'.ctln.end_flag) late.4 j
          (λ ne left. omega (arith, ends.c_ends j lt_j left, late.2));
    seen = still_seen;
  }

producing_first :
    (n i : ℕ)
    → (i < n → producing (first_pc n i) ≡ 1)
      × (n ≤ i → producing (first_pc n i) ≡ 0)
      × (p_left (first_pc n i) ≡ 0)
      × (c_left (first_pc n i) ≡ 0)
producing_first zero i = (λ lt. absurd (omega (arith, lt)), λ le. refl, refl, refl)
producing_first (suc n) zero = (λ lt. refl, λ le. absurd (omega (arith, le)), refl, refl)
producing_first (suc n) (suc i) =
    let first = producing_first n i in
    (λ lt. first.0 (omega (arith, lt)), λ le. first.1 (omega (arith, le)), first.2, first.3)

init-Ends : (z : Sizes) (memory : ℕ → DataPcSt) → IsValid z → Ends z (init_system z memory)
init-Ends z memory valid = record {
  producers = λ i lt. (producing_first z.thread_pro i).0 lt;
  consumers = λ i ge lt. (producing_first z.thread_pro i).1 ge;
  p_ends = λ i lt left. absurd (omega (arith, left, (producing_first z.thread_pro i).2));
  c_ends = λ i lt left. absurd (omega (arith, left, (producing_first z.thread_pro i).3));
  seen = λ all. absurd (omega (arith, all, valid.items));
}

low_flag : {z : Sizes} {s : System} → Inv z s → s.shared.ctln.end_flag ≤ 1
low_flag inv = omega (arith, inv.content.counted.5)

main_Ends :
    {z : Sizes} {s : System}
    → Ends z s
    → (v : ℕ) (k : Main)
    → Ends z (record s {
      shared = record s.shared { ctln = record s.shared.ctln { stock = v } };
      main = k;
    })
main_Ends ends v k = record {
  producers = ends.producers;
  consumers = ends.consumers;
  p_ends = ends.p_ends;
  c_ends = ends.c_ends;
  seen = ends.seen;
}

Step-Ends : {z : Sizes} {s t : System} → Step s t → Inv z s → Ends z s → Ends z t
Step-Ends {z} {s} (produce {m = m} {p = q} i lt move) inv ends =
    move_Ends z s inv ends i (omega (arith, lt, inv.sized.2)) m q (Produce-Late (low_flag inv) move)
      (Produce-Balanced move).4
Step-Ends {z} {s} (consume {m = m} {p = q} i ge lt move) inv ends =
    move_Ends z s inv ends i (omega (arith, lt, inv.sized.2, inv.sized.3)) m q
      (Consume-Late (low_flag inv) move) (Consume-Balanced move).4
Step-Ends (joined e done) inv ends = main_Ends ends _ _
Step-Ends (post k e more) inv ends = main_Ends ends _ _

pub Reach-Ends :
    {z : Sizes} {memory : ℕ → DataPcSt} {s : System} → IsValid z → Reach z memory s → Ends z s
Reach-Ends {z} {memory} valid starts = init-Ends z memory valid
Reach-Ends valid (steps before step) =
    Step-Ends step (Reach-Inv valid before) (Reach-Ends valid before)
