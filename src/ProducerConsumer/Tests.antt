-- ===== src/ProducerConsumer/Tests.antt =====
-- Labweek15/alg.18-6-syn-pc-con-6.c with its producers and consumers, run in a given order.
use native.Mathlib.Decide.{dec_lt, ℕ_discrete}
use operating_system_homewor.Prelude.{
  ◌⊎◌, ◌≤◌, ◌<◌, ℕ, ◌+◌, ◌≡◌, refl, inl, inr, List, [], ◌∷◌, ◌++◌, replicate, length, arith,
}
use operating_system_homewor.Prelude.Int.{pos}
use operating_system_homewor.ProducerConsumer.{
  p_wait_slot, p_exit, c_exit, Step, DataPcSt, System, produce, consume,
}
use operating_system_homewor.ProducerConsumer.Setup.{
  for_buffer, sizes, Sizes, IsValid, read_sizes, Reach, starts, steps, read_sizes-IsValid,
}
use operating_system_homewor.ProducerConsumer.Balance.{critical}
use operating_system_homewor.ProducerConsumer.Content.{numbers, item_nos}
use operating_system_homewor.ProducerConsumer.Safety.{mutual_exclusion, taken_in_order}
use operating_system_homewor.ProducerConsumer.Progress.{Finished, Abandoned, progress}
use operating_system_homewor.ProducerConsumer.Roles.{producing}
use operating_system_homewor.ProducerConsumer.Next.{next_produce, next_consume, taken_from}
use operating_system_homewor.ProducerConsumer.Progress.{}

abbrev unset : ℕ → DataPcSt
unset _ = record { item_no = 0; pro_tid = 0 }

record Run (z : Sizes) : Type 0 where
  last : System
  reach : Reach z unset last

-- One step of thread `i`, if it can go on.
turn : {z : Sizes} → Run z → ℕ → Run z
unfolding next_produce next_consume taken_from dec_lt ℕ_discrete
turn r i = elim (dec_lt i r.last.shared.ctln.thread_pro) [
  | yes lt ↦ elim (ℕ_discrete (producing (r.last.pc i)) 1) [
    | no _ ↦ r
    | yes is_one ↦ elim (next_produce i r.last.shared (r.last.pc i) is_one) [
      | inl _ ↦ r
      | inr (m, q, move) ↦ record { last = _; reach = steps r.reach (produce i lt move) }
    ]
  ]
  | no ge ↦ elim (dec_lt i (r.last.shared.ctln.thread_pro + r.last.shared.ctln.thread_cons)) [
    | no _ ↦ r
    | yes lt ↦ elim (ℕ_discrete (producing (r.last.pc i)) 0) [
      | no _ ↦ r
      | yes is_one ↦ elim (next_consume i r.last.shared (r.last.pc i) is_one) [
        | inl _ ↦ r
        | inr (m, q, move) ↦ record {
          last = _;
          reach = steps r.reach (consume i (omega (arith, ge)) lt move);
        }
      ]
    ]
  ]
]

turns : {z : Sizes} → List ℕ → Run z → Run z
turns [] r = r
turns (i ∷ is) r = turns is (turn r i)

from_start : (z : Sizes) → Run z
from_start z = record { last = _; reach = starts }

abbrev two_units : Sizes
two_units = record { buffer_size = 2; max_item_num = 3; thread_pro = 2; thread_cons = 2 }

two_units-IsValid : IsValid two_units
unfolding read_sizes
two_units-IsValid = read_sizes-IsValid (pos 200 ∷ pos 2 ∷ pos 3 ∷ pos 2 ∷ pos 2 ∷ []) two_units refl

-- A producer makes two items, a consumer takes one, and is about to count it.
abbrev busy : Run two_units
busy = turns (replicate 22 0 ++ replicate 6 2) (from_start two_units)

test_busy :
    (length busy.last.shared.taken ≡ 1)
    × (busy.last.shared.ctln.item_num ≡ 2)
    × (critical (busy.last.pc 2) ≡ 1)
unfolding turn turns from_start
test_busy = (refl, refl, refl)

read_sizes-IsValid_example : IsValid two_units
unfolding read_sizes
read_sizes-IsValid_example =
    read_sizes-IsValid (pos 200 ∷ pos 2 ∷ pos 3 ∷ pos 2 ∷ pos 2 ∷ []) two_units refl

mutual_exclusion_example : ◌≡◌ {A = ℕ} 2 2
unfolding turn turns from_start
mutual_exclusion_example =
    mutual_exclusion {s = busy.last} two_units-IsValid busy.reach 2 2 (omega arith) (omega arith)
      refl refl

taken_in_order_example :
    (item_nos busy.last.shared.taken ≡ numbers (length busy.last.shared.taken))
    × (busy.last.shared.ctln.consume_num ≤ length busy.last.shared.taken)
    × (length busy.last.shared.taken ≤ busy.last.shared.ctln.item_num)
    × (busy.last.shared.ctln.item_num ≤ busy.last.shared.ctln.consume_num + 2)
    × (busy.last.shared.ctln.item_num ≤ 3)
    × (busy.last.shared.ctln.enqueue < 2)
    × (busy.last.shared.ctln.dequeue < 2)
taken_in_order_example = taken_in_order two_units-IsValid busy.reach

progress_example :
    ((t : System) × Step busy.last t) ⊎ Finished two_units busy.last ⊎ Abandoned two_units busy.last
progress_example = progress two_units-IsValid busy.reach

-- The prompt says 1-500, and any positive number of producers is taken.
many_producers :
    (z : Sizes) × (read_sizes for_buffer (pos 1 ∷ pos 1 ∷ pos 501 ∷ pos 1 ∷ []) ≡ sizes z)
    × (z.thread_pro ≡ 501)
unfolding read_sizes
many_producers = (_, refl, refl)

abbrev one_unit : Sizes
one_unit = record { buffer_size = 1; max_item_num = 1; thread_pro = 2; thread_cons = 1 }

-- The consumer sees that no item is there; a producer makes the only item and sets `end_flag`; the
-- consumer sees the flag and ends. The item stays, and the other producer waits for its unit.
abbrev left_behind : Run one_unit
left_behind = turns (1 ∷ 2 ∷ replicate 13 0 ++ 2 ∷ []) (from_start one_unit)

test_left_behind :
    (left_behind.last.pc 0 ≡ p_exit)
    × (left_behind.last.pc 1 ≡ p_wait_slot)
    × (left_behind.last.pc 2 ≡ c_exit)
    × (left_behind.last.shared.ctln.emptyslot ≡ 0)
    × (left_behind.last.shared.ctln.item_num ≡ 1)
    × (left_behind.last.shared.ctln.consume_num ≡ 0)
unfolding turn turns from_start
test_left_behind = (refl, refl, refl, refl, refl, refl)
