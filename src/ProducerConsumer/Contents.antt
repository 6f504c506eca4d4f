-- ===== src/ProducerConsumer/Contents.antt =====
-- Labweek15/alg.18-7-syn-pc-producer-6.c and alg.18-8-syn-pc-consumer-6.c: a step of a thread keeps
-- what the ring and the counters hold.
use operating_system_homewor.Prelude.{ℕ, ◌+◌, ◌%◌, ◌≤◌, ◌≡◌, sym, ap, ◌∙◌, arith}
use operating_system_homewor.ProducerConsumer.{
  Shared, Pc, Produce, Consume, p_more, p_done, p_slot, p_lock, p_below, p_full, p_counts, p_moves,
  p_writes, p_flags, p_flags_not, p_stocks, p_returns, p_unlocks, c_some, c_none, c_goes_on, c_done,
  c_stock, c_lock, c_filled, c_empty, c_moves, c_prints, c_counts, c_frees, c_returns, c_unlocks,
}
use operating_system_homewor.ProducerConsumer.Content.{
  unflagged, printed, numbers, item_nos, Placed, Counted, Content,
}
use operating_system_homewor.ProducerConsumer.Places.{
  next_place, next_place_after, same_place, write_unit, same_numbers, print_next,
}

Produce-Counted :
    {i : ℕ} {m m' : Shared} {p q : Pc}
    → Produce i m p m' q
    → Counted m.ctln m.data_units p
    → Counted m'.ctln m'.data_units q
Produce-Counted (p_more h) c = ground arith
Produce-Counted (p_done h) c = c
Produce-Counted (p_slot h) c = c
Produce-Counted (p_lock h) c = c
Produce-Counted (p_below h) c = ground arith
Produce-Counted (p_full h) c = c
Produce-Counted p_counts c = ground arith
Produce-Counted p_moves c = c
Produce-Counted p_writes c = c
Produce-Counted (p_flags h) c = ground arith
Produce-Counted (p_flags_not h) c = ground arith
Produce-Counted p_stocks c = ground arith
Produce-Counted p_returns c = c
Produce-Counted p_unlocks c = c

Produce-Placed :
    {i : ℕ} {m m' : Shared} {p q : Pc}
    → Produce i m p m' q
    → m.ctln.item_num ≤ m.ctln.consume_num + m.ctln.buffer_size
    → unflagged p ≤ m.ctln.item_num
    → Placed m.ctln m.data_units p
    → Placed m'.ctln m'.data_units q
Produce-Placed (p_more _) room low c = c
Produce-Placed (p_done _) room low c = c
Produce-Placed (p_slot _) room low c = c
Produce-Placed (p_lock _) room low c = c
Produce-Placed (p_below _) room low c = c
Produce-Placed (p_full _) room low c = c
Produce-Placed {i = i} {m = m} p_counts room low c =
    (c.0 ∙ ap (λ n. n % m.ctln.buffer_size) (omega arith), c.1, λ k lt le. c.2 k lt (omega arith))
Produce-Placed {i = i} {m = m} p_moves room low c = (
  next_place m.ctln.enqueue m.ctln.item_num m.ctln.buffer_size low c.0
      ∙ sym (same_place m.ctln.item_num m.ctln.buffer_size),
  c.1,
  c.2,
)
Produce-Placed {i = i} {m = m} p_writes room low c = (
  c.0,
  c.1,
  write_unit i m.ctln.enqueue m.ctln.consume_num m.ctln.item_num m.ctln.buffer_size m.data_units
      room (c.0 ∙ same_place m.ctln.item_num m.ctln.buffer_size) c.2,
)
Produce-Placed (p_flags _) room low c = c
Produce-Placed (p_flags_not _) room low c = c
Produce-Placed p_stocks room low c = c
Produce-Placed p_returns room low c = c
Produce-Placed p_unlocks room low c = c

Consume-Counted :
    {i : ℕ} {m m' : Shared} {p q : Pc}
    → Consume i m p m' q
    → Counted m.ctln m.data_units p
    → Counted m'.ctln m'.data_units q
Consume-Counted (c_some h) c = c
Consume-Counted (c_none h) c = c
Consume-Counted (c_goes_on h) c = c
Consume-Counted (c_done h) c = c
Consume-Counted (c_stock h) c = c
Consume-Counted (c_lock h) c = c
Consume-Counted (c_filled h) c = ground arith
Consume-Counted (c_empty h) c = c
Consume-Counted c_moves c = c
Consume-Counted c_prints c = c
Consume-Counted c_counts c = ground arith
Consume-Counted c_frees c = c
Consume-Counted c_returns c = c
Consume-Counted c_unlocks c = c

Consume-Placed :
    {i : ℕ} {m m' : Shared} {p q : Pc}
    → Consume i m p m' q
    → m.ctln.item_num ≤ m.ctln.consume_num + m.ctln.buffer_size
    → unflagged p ≤ m.ctln.item_num
    → Placed m.ctln m.data_units p
    → Placed m'.ctln m'.data_units q
Consume-Placed (c_some _) room low c = c
Consume-Placed (c_none _) room low c = c
Consume-Placed (c_goes_on _) room low c = c
Consume-Placed (c_done _) room low c = c
Consume-Placed (c_stock _) room low c = c
Consume-Placed (c_lock _) room low c = c
Consume-Placed (c_filled _) room low c = c
Consume-Placed (c_empty _) room low c = c
Consume-Placed {i = i} {m = m} c_moves room low c =
    (c.0, next_place_after m.ctln.dequeue m.ctln.consume_num m.ctln.buffer_size c.1, c.2)
Consume-Placed c_prints room low c = c
Consume-Placed {i = i} {m = m} c_counts room low c =
    (c.0, c.1 ∙ ap (λ n. n % m.ctln.buffer_size) (omega arith), λ k lt le. c.2 k (omega arith) le)
Consume-Placed c_frees room low c = c
Consume-Placed c_returns room low c = c
Consume-Placed c_unlocks room low c = c

Produce-told :
    {i : ℕ} {m m' : Shared} {p q : Pc}
    → Produce i m p m' q
    → Content m p
    → item_nos m'.taken ≡ numbers (m'.ctln.consume_num + printed q)
Produce-told (p_more _) c = c.told
Produce-told (p_done _) c = c.told
Produce-told (p_slot _) c = c.told
Produce-told (p_lock _) c = c.told
Produce-told (p_below _) c = c.told
Produce-told (p_full _) c = c.told
Produce-told p_counts c = c.told
Produce-told p_moves c = c.told
Produce-told p_writes c = c.told
Produce-told (p_flags _) c = c.told
Produce-told (p_flags_not _) c = c.told
Produce-told p_stocks c = c.told
Produce-told p_returns c = c.told
Produce-told p_unlocks c = c.told

Consume-told :
    {i : ℕ} {m m' : Shared} {p q : Pc}
    → Consume i m p m' q
    → Content m p
    → item_nos m'.taken ≡ numbers (m'.ctln.consume_num + printed q)
Consume-told (c_some _) c = c.told
Consume-told (c_none _) c = c.told
Consume-told (c_goes_on _) c = c.told
Consume-told (c_done _) c = c.told
Consume-told (c_stock _) c = c.told
Consume-told (c_lock _) c = c.told
Consume-told (c_filled _) c = c.told
Consume-told (c_empty _) c = c.told
Consume-told c_moves c = c.told
Consume-told {m = m} c_prints c =
    print_next m.ctln.consume_num m.ctln.item_num m.ctln.dequeue m.ctln.buffer_size m.taken
      m.data_units c.told c.counted.1 c.placed.1 c.placed.2
Consume-told {m = m} c_counts c =
    c.told
    ∙ same_numbers {a = m.ctln.consume_num + 1} {b = m.ctln.consume_num + 1 + 0} (omega arith)
Consume-told c_frees c = c.told
Consume-told c_returns c = c.told
Consume-told c_unlocks c = c.told

-- A step of a thread that may go on keeps what the shared memory holds.
pub Produce-Content :
    {i : ℕ} {m m' : Shared} {p q : Pc}
    → Produce i m p m' q
    → m.ctln.item_num ≤ m.ctln.consume_num + m.ctln.buffer_size
    → Content m p
    → Content m' q
Produce-Content move room c = record {
  placed = Produce-Placed move room c.counted.2 c.placed;
  counted = Produce-Counted move c.counted;
  told = Produce-told move c;
}

-- A step of a thread that may go on keeps what the shared memory holds.
pub Consume-Content :
    {i : ℕ} {m m' : Shared} {p q : Pc}
    → Consume i m p m' q
    → m.ctln.item_num ≤ m.ctln.consume_num + m.ctln.buffer_size
    → Content m p
    → Content m' q
Consume-Content move room c = record {
  placed = Consume-Placed move room c.counted.2 c.placed;
  counted = Consume-Counted move c.counted;
  told = Consume-told move c;
}
