-- ===== src/ProducerConsumer/Next.antt =====
-- Labweek15/alg.18-7-syn-pc-producer-6.c and alg.18-8-syn-pc-consumer-6.c: the step that a thread
-- takes next, or what it waits for.
use native.Mathlib.Decide.{dec_lt, ℕ_discrete}
use operating_system_homewor.Prelude.{ℕ, zero, suc, ◌+◌, ◌≡◌, refl, ◌⊎◌, inl, inr, arith}
use operating_system_homewor.ProducerConsumer.{
  Shared, Pc, Produce, Consume, p_while, p_wait_slot, p_wait_mutex, p_if, p_count, p_move, p_write,
  p_flag, p_post_stock, p_post_slot, p_post_mutex, p_exit, c_while, c_while_flag, c_wait_stock,
  c_wait_mutex, c_if, c_move, c_print, c_count, c_post_slot, c_post_stock, c_post_mutex, c_exit,
  p_more, p_done, p_slot, p_lock, p_below, p_full, p_counts, p_moves, p_writes, p_flags,
  p_flags_not, p_stocks, p_returns, p_unlocks, c_some, c_none, c_goes_on, c_done, c_stock, c_lock,
  c_filled, c_empty, c_moves, c_prints, c_counts, c_frees, c_returns, c_unlocks,
}
use operating_system_homewor.ProducerConsumer.Roles.{producing}

-- What keeps a thread from going on: it has ended, or the semaphore it waits for is 0.
pub data Stuck (m : Shared) : Pc → Type 0 where
  p_ended : Stuck m p_exit
  c_ended : Stuck m c_exit
  no_slot : m.ctln.emptyslot ≡ 0 → Stuck m p_wait_slot
  no_stock : m.ctln.stock ≡ 0 → Stuck m c_wait_stock
  p_locked : m.ctln.sem_mutex ≡ 0 → Stuck m p_wait_mutex
  c_locked : m.ctln.sem_mutex ≡ 0 → Stuck m c_wait_mutex

unfoldable pub taken_from : (v : ℕ) → (v ≡ 0) ⊎ ((u : ℕ) × (v ≡ u + 1))
taken_from zero = inl refl
taken_from (suc v) = inr (v, omega arith)

-- A producer can go on, or is stuck.
unfoldable pub next_produce :
    (i : ℕ) (m : Shared) (p : Pc)
    → producing p ≡ 1
    → Stuck m p ⊎ ((m' : Shared) × (q : Pc) × Produce i m p m' q)
next_produce i m p_while is_one = inr (elim (dec_lt (m.ctln.item_num) (m.ctln.max_item_num)) [
  | yes lt ↦ (_, _, p_more lt)
  | no ge ↦ (_, _, p_done (omega (arith, ge)))
])
next_produce i m p_wait_slot is_one = elim (taken_from m.ctln.emptyslot) [
  | inl empty ↦ inl (no_slot empty)
  | inr (u, e) ↦ inr (_, _, p_slot e)
]
next_produce i m p_wait_mutex is_one = elim (taken_from m.ctln.sem_mutex) [
  | inl empty ↦ inl (p_locked empty)
  | inr (u, e) ↦ inr (_, _, p_lock e)
]
next_produce i m p_if is_one = inr (elim (dec_lt (m.ctln.item_num) (m.ctln.max_item_num)) [
  | yes lt ↦ (_, _, p_below lt)
  | no ge ↦ (_, _, p_full (omega (arith, ge)))
])
next_produce i m p_count is_one = inr (_, _, p_counts)
next_produce i m p_move is_one = inr (_, _, p_moves)
next_produce i m p_write is_one = inr (_, _, p_writes)
next_produce i m p_flag is_one = inr (elim (ℕ_discrete (m.ctln.item_num) m.ctln.max_item_num) [
  | yes e ↦ (_, _, p_flags e)
  | no ne ↦ (_, _, p_flags_not ne)
])
next_produce i m p_post_stock is_one = inr (_, _, p_stocks)
next_produce i m p_post_slot is_one = inr (_, _, p_returns)
next_produce i m p_post_mutex is_one = inr (_, _, p_unlocks)
next_produce i m p_exit is_one = inl p_ended
next_produce i m c_while is_one = absurd (omega (arith, is_one))
next_produce i m c_while_flag is_one = absurd (omega (arith, is_one))
next_produce i m c_wait_stock is_one = absurd (omega (arith, is_one))
next_produce i m c_wait_mutex is_one = absurd (omega (arith, is_one))
next_produce i m c_if is_one = absurd (omega (arith, is_one))
next_produce i m c_move is_one = absurd (omega (arith, is_one))
next_produce i m c_print is_one = absurd (omega (arith, is_one))
next_produce i m c_count is_one = absurd (omega (arith, is_one))
next_produce i m c_post_slot is_one = absurd (omega (arith, is_one))
next_produce i m c_post_stock is_one = absurd (omega (arith, is_one))
next_produce i m c_post_mutex is_one = absurd (omega (arith, is_one))
next_produce i m c_exit is_one = absurd (omega (arith, is_one))

-- So is a consumer.
unfoldable pub next_consume :
    (i : ℕ) (m : Shared) (p : Pc)
    → producing p ≡ 0
    → Stuck m p ⊎ ((m' : Shared) × (q : Pc) × Consume i m p m' q)
next_consume i m p_while is_one = absurd (omega (arith, is_one))
next_consume i m p_wait_slot is_one = absurd (omega (arith, is_one))
next_consume i m p_wait_mutex is_one = absurd (omega (arith, is_one))
next_consume i m p_if is_one = absurd (omega (arith, is_one))
next_consume i m p_count is_one = absurd (omega (arith, is_one))
next_consume i m p_move is_one = absurd (omega (arith, is_one))
next_consume i m p_write is_one = absurd (omega (arith, is_one))
next_consume i m p_flag is_one = absurd (omega (arith, is_one))
next_consume i m p_post_stock is_one = absurd (omega (arith, is_one))
next_consume i m p_post_slot is_one = absurd (omega (arith, is_one))
next_consume i m p_post_mutex is_one = absurd (omega (arith, is_one))
next_consume i m p_exit is_one = absurd (omega (arith, is_one))
next_consume i m c_while is_one = inr (elim (dec_lt (m.ctln.consume_num) (m.ctln.item_num)) [
  | yes lt ↦ (_, _, c_some lt)
  | no ge ↦ (_, _, c_none (omega (arith, ge)))
])
next_consume i m c_while_flag is_one = inr (elim (ℕ_discrete (m.ctln.end_flag) 0) [
  | yes e ↦ (_, _, c_goes_on e)
  | no ne ↦ (_, _, c_done ne)
])
next_consume i m c_wait_stock is_one = elim (taken_from m.ctln.stock) [
  | inl empty ↦ inl (no_stock empty)
  | inr (u, e) ↦ inr (_, _, c_stock e)
]
next_consume i m c_wait_mutex is_one = elim (taken_from m.ctln.sem_mutex) [
  | inl empty ↦ inl (c_locked empty)
  | inr (u, e) ↦ inr (_, _, c_lock e)
]
next_consume i m c_if is_one = inr (elim (dec_lt (m.ctln.consume_num) (m.ctln.item_num)) [
  | yes lt ↦ (_, _, c_filled lt)
  | no ge ↦ (_, _, c_empty (omega (arith, ge)))
])
next_consume i m c_move is_one = inr (_, _, c_moves)
next_consume i m c_print is_one = inr (_, _, c_prints)
next_consume i m c_count is_one = inr (_, _, c_counts)
next_consume i m c_post_slot is_one = inr (_, _, c_frees)
next_consume i m c_post_stock is_one = inr (_, _, c_returns)
next_consume i m c_post_mutex is_one = inr (_, _, c_unlocks)
next_consume i m c_exit is_one = inl c_ended
