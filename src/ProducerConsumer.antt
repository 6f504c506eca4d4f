-- ===== src/ProducerConsumer.antt =====
-- Labweek15/alg.18-6-syn-pc-con-6.{h,c}, alg.18-7-syn-pc-producer-6.c, alg.18-8-syn-pc-consumer-6.c:
-- producers and consumers over a ring in shared memory.
pub mod Setup
pub mod Balance
pub mod Content
pub mod Places
pub mod Outside
pub mod Contents
pub mod Invariant
pub mod Safety
pub mod Roles
pub mod Next
pub mod Progress
mod Tests
use operating_system_homewor.Prelude.{
  ℕ, zero, ◌+◌, ◌%◌, ◌≤◌, ◌<◌, ◌≡◌, ◌≢◌, Bool, true, false, List, [], ◌∷◌, ◌++◌, update,
}

-- The first units of the shared memory are kept for the control block.
abbrev pub base_addr : ℕ
base_addr = 10

-- `struct ctln_pc_st`; a semaphore is its value.
pub record CtlnPcSt : Type 0 where
  pub buffer_size : ℕ
  pub max_item_num : ℕ
  pub thread_pro : ℕ
  pub thread_cons : ℕ
  pub sem_mutex : ℕ
  pub stock : ℕ
  pub emptyslot : ℕ
  pub item_num : ℕ
  pub consume_num : ℕ
  pub enqueue : ℕ
  pub dequeue : ℕ
  pub end_flag : ℕ

-- `struct data_pc_st`, without the field that is reserved
pub record DataPcSt : Type 0 where
  pub item_no : ℕ
  pub pro_tid : ℕ

-- The shared memory, and what the consumers print of each item that they take.
pub record Shared : Type 0 where
  pub ctln : CtlnPcSt
  pub data_units : ℕ → DataPcSt
  pub taken : List DataPcSt

-- The statement that a thread is about to execute: those of `producer`, then those of `consumer`.
pub data Pc : Type 0 where
  p_while : Pc
  p_wait_slot : Pc
  p_wait_mutex : Pc
  p_if : Pc
  p_count : Pc
  p_move : Pc
  p_write : Pc
  p_flag : Pc
  p_post_stock : Pc
  p_post_slot : Pc
  p_post_mutex : Pc
  p_exit : Pc
  c_while : Pc
  c_while_flag : Pc
  c_wait_stock : Pc
  c_wait_mutex : Pc
  c_if : Pc
  c_move : Pc
  c_print : Pc
  c_count : Pc
  c_post_slot : Pc
  c_post_stock : Pc
  c_post_mutex : Pc
  c_exit : Pc

module _ (i : ℕ) (m : Shared) where
  abbrev ctl : CtlnPcSt
  ctl = m.ctln

  abbrev pub with_ctln : CtlnPcSt → Shared
  with_ctln c = record m { ctln = c }

  -- `producer` in thread `i`, a statement that reads or writes shared memory at a time
  pub data Produce : Pc → Shared → Pc → Type 0 where
    p_more : ctl.item_num < ctl.max_item_num → Produce p_while m p_wait_slot
    p_done : ctl.max_item_num ≤ ctl.item_num → Produce p_while m p_exit
    p_slot :
        {v : ℕ}
        → ctl.emptyslot ≡ v + 1
        → Produce p_wait_slot (with_ctln (record ctl { emptyslot = v })) p_wait_mutex
    p_lock :
        {v : ℕ}
        → ctl.sem_mutex ≡ v + 1
        → Produce p_wait_mutex (with_ctln (record ctl { sem_mutex = v })) p_if
    p_below : ctl.item_num < ctl.max_item_num → Produce p_if m p_count
    p_full : ctl.max_item_num ≤ ctl.item_num → Produce p_if m p_post_slot
    p_counts : Produce p_count (with_ctln (record ctl { item_num = ctl.item_num + 1 })) p_move
    p_moves :
        Produce p_move
          (with_ctln (record ctl { enqueue = (ctl.enqueue + 1) % ctl.buffer_size }))
          p_write
    p_writes :
        Produce p_write
          (record m {
            data_units =
                update m.data_units
                  (ctl.enqueue + base_addr)
                  (record { item_no = ctl.item_num; pro_tid = i });
          })
          p_flag
    p_flags :
        ctl.item_num ≡ ctl.max_item_num
        → Produce p_flag (with_ctln (record ctl { end_flag = 1 })) p_post_stock
    p_flags_not : ctl.item_num ≢ ctl.max_item_num → Produce p_flag m p_post_stock
    p_stocks : Produce p_post_stock (with_ctln (record ctl { stock = ctl.stock + 1 })) p_post_mutex
    p_returns :
        Produce p_post_slot (with_ctln (record ctl { emptyslot = ctl.emptyslot + 1 })) p_post_mutex
    p_unlocks :
        Produce p_post_mutex (with_ctln (record ctl { sem_mutex = ctl.sem_mutex + 1 })) p_while

  -- `consumer`; the two tests of its `while` are two reads, the second if the first is false.
  pub data Consume : Pc → Shared → Pc → Type 0 where
    c_some : ctl.consume_num < ctl.item_num → Consume c_while m c_wait_stock
    c_none : ctl.item_num ≤ ctl.consume_num → Consume c_while m c_while_flag
    c_goes_on : ctl.end_flag ≡ 0 → Consume c_while_flag m c_wait_stock
    c_done : ctl.end_flag ≢ 0 → Consume c_while_flag m c_exit
    c_stock :
        {v : ℕ}
        → ctl.stock ≡ v + 1
        → Consume c_wait_stock (with_ctln (record ctl { stock = v })) c_wait_mutex
    c_lock :
        {v : ℕ}
        → ctl.sem_mutex ≡ v + 1
        → Consume c_wait_mutex (with_ctln (record ctl { sem_mutex = v })) c_if
    c_filled : ctl.consume_num < ctl.item_num → Consume c_if m c_move
    c_empty : ctl.item_num ≤ ctl.consume_num → Consume c_if m c_post_stock
    c_moves :
        Consume c_move
          (with_ctln (record ctl { dequeue = (ctl.dequeue + 1) % ctl.buffer_size }))
          c_print
    c_prints :
        Consume c_print
          (record m { taken = m.taken ++ m.data_units (ctl.dequeue + base_addr) ∷ [] })
          c_count
    c_counts :
        Consume c_count (with_ctln (record ctl { consume_num = ctl.consume_num + 1 })) c_post_slot
    c_frees :
        Consume c_post_slot (with_ctln (record ctl { emptyslot = ctl.emptyslot + 1 })) c_post_mutex
    c_returns : Consume c_post_stock (with_ctln (record ctl { stock = ctl.stock + 1 })) c_post_mutex
    c_unlocks :
        Consume c_post_mutex (with_ctln (record ctl { sem_mutex = ctl.sem_mutex + 1 })) c_while

-- `main` of the producers' process: it joins them, and then posts the stock for the consumers.
pub data Main : Type 0 where
  joining : Main
  posting : (i : ℕ) → Main

-- Threads below `thread_pro` are the producers, the `thread_cons` next ones the consumers.
pub record System : Type 0 where
  pub shared : Shared
  pub pc : ℕ → Pc
  pub main : Main

pub data Step (s : System) : System → Type 0 where
  produce :
      {m : Shared} {p : Pc} (i : ℕ)
      → i < s.shared.ctln.thread_pro
      → Produce i s.shared (s.pc i) m p
      → Step s (record s { shared = m; pc = update s.pc i p })
  consume :
      {m : Shared} {p : Pc} (i : ℕ)
      → s.shared.ctln.thread_pro ≤ i
      → i < s.shared.ctln.thread_pro + s.shared.ctln.thread_cons
      → Consume i s.shared (s.pc i) m p
      → Step s (record s { shared = m; pc = update s.pc i p })
  joined :
      s.main ≡ joining
      → ((i : ℕ) → i < s.shared.ctln.thread_pro → s.pc i ≡ p_exit)
      → Step s (record s { main = posting 0 })
  post :
      (k : ℕ)
      → s.main ≡ posting k
      → k + 1 < s.shared.ctln.thread_cons
      → Step s (record s {
        shared = record s.shared {
          ctln = record s.shared.ctln { stock = s.shared.ctln.stock + 1 };
        };
        main = posting (k + 1);
      })
