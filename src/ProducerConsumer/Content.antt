-- ===== src/ProducerConsumer/Content.antt =====
-- Labweek15/alg.18-7-syn-pc-producer-6.c and alg.18-8-syn-pc-consumer-6.c: what the ring and the
-- counters hold while the owner of `sem_mutex` stands at a statement.
use operating_system_homewor.Prelude.{
  ℕ, zero, suc, ◌+◌, ◌-◌, ◌%◌, ◌≤◌, ◌<◌, ◌≡◌, List, [], ◌∷◌, ◌++◌,
}
use operating_system_homewor.ProducerConsumer.{
  base_addr, CtlnPcSt, DataPcSt, Shared, Pc, p_count, p_move, p_write, p_flag, p_post_stock, c_move,
  c_print, c_count,
}

-- `item_num` is ahead of `enqueue`.
abbrev pub unmoved : Pc → ℕ
unmoved p_move = 1
unmoved _ = 0

-- The last item is counted, and not yet in its unit.
abbrev pub unwritten : Pc → ℕ
unwritten p_move = 1
unwritten p_write = 1
unwritten _ = 0

-- `item_num` was raised since the test that sets `end_flag`.
abbrev pub unflagged : Pc → ℕ
unflagged p_move = 1
unflagged p_write = 1
unflagged p_flag = 1
unflagged _ = 0

-- The producer has seen that an item is left to make.
abbrev pub sure_below : Pc → ℕ
sure_below p_count = 1
sure_below _ = 0

-- An item is there that nobody can take.
abbrev pub sure_item : Pc → ℕ
sure_item p_move = 1
sure_item p_write = 1
sure_item p_flag = 1
sure_item p_post_stock = 1
sure_item c_move = 1
sure_item c_print = 1
sure_item c_count = 1
sure_item _ = 0

-- `dequeue` is ahead of `consume_num`.
abbrev pub moved : Pc → ℕ
moved c_print = 1
moved c_count = 1
moved _ = 0

-- The item after `consume_num` has been taken out.
abbrev pub printed : Pc → ℕ
printed c_count = 1
printed _ = 0

-- The items 1 to `n`.
abbrev pub numbers : ℕ → List ℕ
numbers zero = []
numbers (suc n) = numbers n ++ suc n ∷ []

abbrev pub item_nos : List DataPcSt → List ℕ
item_nos [] = []
item_nos (x ∷ xs) = x.item_no ∷ item_nos xs

module _ (c : CtlnPcSt) (data_units : ℕ → DataPcSt) (p : Pc) where
  -- `enqueue` and `dequeue` stand where the counters say, and the unit of each item that is written
  -- and not consumed holds it.
  abbrev pub Placed : Type 0
  Placed =
      (c.enqueue ≡ (c.item_num - unmoved p) % c.buffer_size)
      × (c.dequeue ≡ (c.consume_num + moved p) % c.buffer_size)
      × ((k : ℕ)
          → c.consume_num < k
          → k + unwritten p ≤ c.item_num
          → (data_units (k % c.buffer_size + base_addr)).item_no ≡ k)

  abbrev pub Counted : Type 0
  Counted =
      (c.item_num + sure_below p ≤ c.max_item_num)
      × (c.consume_num + sure_item p ≤ c.item_num)
      × (unflagged p ≤ c.item_num)
      × (c.end_flag ≡ 0 → c.item_num < c.max_item_num + unflagged p)
      × (0 < c.end_flag → c.item_num ≡ c.max_item_num)
      × (c.end_flag ≤ 1)

-- What holds of the shared memory while the owner of the mutex stands at `p`.
pub record Content (m : Shared) (p : Pc) : Type 0 where
  pub placed : Placed m.ctln m.data_units p
  pub counted : Counted m.ctln m.data_units p
  pub told : item_nos m.taken ≡ numbers (m.ctln.consume_num + printed p)
