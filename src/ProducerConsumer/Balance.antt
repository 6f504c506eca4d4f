-- ===== src/ProducerConsumer/Balance.antt =====
-- Labweek15/alg.18-7-syn-pc-producer-6.c and alg.18-8-syn-pc-consumer-6.c: what a thread has taken
-- from each semaphore, and that a step of it keeps the balance.
use operating_system_homewor.Prelude.{ℕ, ◌+◌, ◌≡◌, arith}
use operating_system_homewor.ProducerConsumer.{
  Shared, Pc, Produce, Consume, p_wait_mutex, p_if, p_count, p_move, p_write, p_flag, p_post_stock,
  p_post_slot, p_post_mutex, c_wait_mutex, c_if, c_move, c_print, c_count, c_post_slot,
  c_post_stock, c_post_mutex, p_more, p_done, p_slot, p_lock, p_below, p_full, p_counts, p_moves,
  p_writes, p_flags, p_flags_not, p_stocks, p_returns, p_unlocks, c_some, c_none, c_goes_on, c_done,
  c_stock, c_lock, c_filled, c_empty, c_moves, c_prints, c_counts, c_frees, c_returns, c_unlocks,
}

-- A thread between the two operations on `sem_mutex`.
abbrev pub critical : Pc → ℕ
critical p_if = 1
critical p_count = 1
critical p_move = 1
critical p_write = 1
critical p_flag = 1
critical p_post_stock = 1
critical p_post_slot = 1
critical p_post_mutex = 1
critical c_if = 1
critical c_move = 1
critical c_print = 1
critical c_count = 1
critical c_post_slot = 1
critical c_post_stock = 1
critical c_post_mutex = 1
critical _ = 0

-- A free unit that a thread has and that neither `emptyslot` nor an item counts.
abbrev pub has_slot : Pc → ℕ
has_slot p_wait_mutex = 1
has_slot p_if = 1
has_slot p_count = 1
has_slot p_post_slot = 1
has_slot c_post_slot = 1
has_slot _ = 0

-- An item that is counted and that a thread has, before it is in `stock` or after.
abbrev pub has_stock : Pc → ℕ
has_stock p_move = 1
has_stock p_write = 1
has_stock p_flag = 1
has_stock p_post_stock = 1
has_stock c_wait_mutex = 1
has_stock c_if = 1
has_stock c_move = 1
has_stock c_print = 1
has_stock c_count = 1
has_stock c_post_stock = 1
has_stock _ = 0

-- A step from `p` to `q` neither makes nor loses what the semaphores count, and no size changes.
abbrev pub Balanced : Shared → Pc → Shared → Pc → Type 0
Balanced m p m' q =
    (m'.ctln.sem_mutex + critical q ≡ m.ctln.sem_mutex + critical p)
    × (m'.ctln.emptyslot + has_slot q + m'.ctln.item_num + m.ctln.consume_num
        ≡ m.ctln.emptyslot + has_slot p + m.ctln.item_num + m'.ctln.consume_num)
    × (m'.ctln.stock + has_stock q + m'.ctln.consume_num + m.ctln.item_num
        ≡ m.ctln.stock + has_stock p + m.ctln.consume_num + m'.ctln.item_num)
    × (m'.ctln.buffer_size ≡ m.ctln.buffer_size)
    × (m'.ctln.max_item_num ≡ m.ctln.max_item_num)
    × (m'.ctln.thread_pro ≡ m.ctln.thread_pro)
    × (m'.ctln.thread_cons ≡ m.ctln.thread_cons)

pub Produce-Balanced : {i : ℕ} {m m' : Shared} {p q : Pc} → Produce i m p m' q → Balanced m p m' q
Produce-Balanced (p_more h) = ground arith
Produce-Balanced (p_done h) = ground arith
Produce-Balanced (p_slot h) = ground arith
Produce-Balanced (p_lock h) = ground arith
Produce-Balanced (p_below h) = ground arith
Produce-Balanced (p_full h) = ground arith
Produce-Balanced p_counts = ground arith
Produce-Balanced p_moves = ground arith
Produce-Balanced p_writes = ground arith
Produce-Balanced (p_flags h) = ground arith
Produce-Balanced (p_flags_not h) = ground arith
Produce-Balanced p_stocks = ground arith
Produce-Balanced p_returns = ground arith
Produce-Balanced p_unlocks = ground arith

pub Consume-Balanced : {i : ℕ} {m m' : Shared} {p q : Pc} → Consume i m p m' q → Balanced m p m' q
Consume-Balanced (c_some h) = ground arith
Consume-Balanced (c_none h) = ground arith
Consume-Balanced (c_goes_on h) = ground arith
Consume-Balanced (c_done h) = ground arith
Consume-Balanced (c_stock h) = ground arith
Consume-Balanced (c_lock h) = ground arith
Consume-Balanced (c_filled h) = ground arith
Consume-Balanced (c_empty h) = ground arith
Consume-Balanced c_moves = ground arith
Consume-Balanced c_prints = ground arith
Consume-Balanced c_counts = ground arith
Consume-Balanced c_frees = ground arith
Consume-Balanced c_returns = ground arith
Consume-Balanced c_unlocks = ground arith
