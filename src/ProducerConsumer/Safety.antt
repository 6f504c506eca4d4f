-- ===== src/ProducerConsumer/Safety.antt =====
-- Labweek15/alg.18-7-syn-pc-producer-6.c and alg.18-8-syn-pc-consumer-6.c: mutual exclusion, and the
-- items that come out.
use native.Mathlib.Nat.{mod-lt}
use native.Mathlib.Decide.{ℕ_discrete}
use operating_system_homewor.Prelude.{
  ℕ, zero, suc, ◌+◌, ◌%◌, ◌≤◌, ◌<◌, ◌≡◌, refl, sym, ap, ◌∙◌, List, [], ◌∷◌, length, length-append,
  arith, total_two,
}
use operating_system_homewor.ProducerConsumer.{DataPcSt, Pc, System}
use operating_system_homewor.ProducerConsumer.Setup.{Sizes, IsValid, Reach}
use operating_system_homewor.ProducerConsumer.Balance.{critical}
use operating_system_homewor.ProducerConsumer.Content.{sure_item, printed, numbers, item_nos}
use operating_system_homewor.ProducerConsumer.Invariant.{threads, Reach-Inv}

-- In no reachable state are two threads between the operations on `sem_mutex`.
pub mutual_exclusion :
    {z : Sizes} {memory : ℕ → DataPcSt} {s : System}
    → IsValid z
    → Reach z memory s
    → (i j : ℕ) → i < threads z
    → j < threads z
    → critical (s.pc i) ≡ 1
    → critical (s.pc j) ≡ 1
    → i ≡ j
mutual_exclusion {z} {s = s} valid r i j lt_i lt_j in_i in_j = elim (ℕ_discrete j i) [
  | yes e ↦ sym e
  | no ne ↦ absurd (
      omega (
        arith,
        total_two critical (threads z) i j s.pc lt_i lt_j ne,
        (Reach-Inv valid r).lock,
        in_i,
        in_j,
      ))
]

length-numbers : (n : ℕ) → length (numbers n) ≡ n
length-numbers zero = refl
length-numbers (suc n) = omega (arith, length-append (numbers n) (suc n ∷ []), length-numbers n)

length-item_nos : (xs : List DataPcSt) → length (item_nos xs) ≡ length xs
length-item_nos [] = refl
length-item_nos (x ∷ xs) = ap suc (length-item_nos xs)

printed-sure : (p : Pc) → printed p ≤ sure_item p
printed-sure p = ground arith

place_below : (a n b : ℕ) → 0 < b → a ≡ n % b → a < b
place_below a n b some e = omega (arith, e, mod-lt n some)

-- What the consumers have printed is, in every reachable state, the items 1, 2, 3, ... in this order,
-- none lost or taken twice; the ring is never overfilled, and no more items are made than asked for.
-- Both ends of the ring stay within its units.
pub taken_in_order :
    {z : Sizes} {memory : ℕ → DataPcSt} {s : System}
    → IsValid z
    → Reach z memory s
    → (item_nos s.shared.taken ≡ numbers (length s.shared.taken))
      × (s.shared.ctln.consume_num ≤ length s.shared.taken)
      × (length s.shared.taken ≤ s.shared.ctln.item_num)
      × (s.shared.ctln.item_num ≤ s.shared.ctln.consume_num + z.buffer_size)
      × (s.shared.ctln.item_num ≤ z.max_item_num)
      × (s.shared.ctln.enqueue < z.buffer_size)
      × (s.shared.ctln.dequeue < z.buffer_size)
taken_in_order {z} {s = s} valid r =
    let inv = Reach-Inv valid r in
    let told = inv.content.told in
    let many : length s.shared.taken ≡ s.shared.ctln.consume_num + printed inv.owner =
      sym (length-item_nos s.shared.taken) ∙ ap length told ∙ length-numbers _ in
    let filled : 0 < s.shared.ctln.buffer_size = omega (arith, valid.room, inv.sized.0) in
    (
      told ∙ ap numbers (sym many),
      omega (arith, many),
      omega (arith, many, inv.content.counted.1, printed-sure inv.owner),
      omega (arith, inv.slots),
      omega (arith, inv.content.counted.0, inv.sized.1),
      rw (sym inv.sized.0) (place_below _ _ _ filled inv.content.placed.0),
      rw (sym inv.sized.0) (place_below _ _ _ filled inv.content.placed.1),
    )
