-- ===== src/ProducerConsumer/Progress.antt =====
-- Labweek15/alg.18-7-syn-pc-producer-6.c and alg.18-8-syn-pc-consumer-6.c: that the threads are not
-- all stuck before the work is done.
use native.Mathlib.Decide.{dec_lt}
use operating_system_homewor.Prelude.{
  ℕ, ◌+◌, ◌≤◌, ◌<◌, ◌≡◌, refl, ap, ◌∙◌, ◌⊎◌, inl, inr, arith, total, total_zero, total_find,
  every_or,
}
use operating_system_homewor.ProducerConsumer.{
  Shared, DataPcSt, Pc, Main, joining, posting, System, Step, produce, consume, joined, post,
  p_exit, c_wait_stock, c_exit,
}
use operating_system_homewor.ProducerConsumer.Setup.{Sizes, IsValid, Reach}
use operating_system_homewor.ProducerConsumer.Balance.{critical, has_slot, has_stock}
use operating_system_homewor.ProducerConsumer.Invariant.{threads, posted, Inv, Reach-Inv}
use operating_system_homewor.ProducerConsumer.Roles.{
  producing, p_left, c_left, past_stock, Ends, Reach-Ends,
}
use operating_system_homewor.ProducerConsumer.Next.{
  Stuck, p_ended, c_ended, no_slot, no_stock, p_locked, c_locked, taken_from, next_produce,
  next_consume,
}

-- With the mutex free, a stuck thread has nothing that a semaphore counts.
stuck_light :
    {m : Shared} {p : Pc}
    → Stuck m p
    → m.ctln.sem_mutex ≡ 1
    → (critical p ≡ 0) × (has_slot p ≡ 0) × (has_stock p ≡ 0)
stuck_light p_ended free = (refl, refl, refl)
stuck_light c_ended free = (refl, refl, refl)
stuck_light (no_slot e) free = (refl, refl, refl)
stuck_light (no_stock e) free = (refl, refl, refl)
stuck_light (p_locked e) free = absurd (omega (arith, e, free))
stuck_light (c_locked e) free = absurd (omega (arith, e, free))

stuck_critical : {m : Shared} {p : Pc} → Stuck m p → critical p ≡ 0
stuck_critical p_ended = refl
stuck_critical c_ended = refl
stuck_critical (no_slot e) = refl
stuck_critical (no_stock e) = refl
stuck_critical (p_locked e) = refl
stuck_critical (c_locked e) = refl

stuck_producer :
    {m : Shared} {p : Pc}
    → Stuck m p
    → m.ctln.sem_mutex ≡ 1
    → producing p ≡ 1
    → (p ≡ p_exit) ⊎ (m.ctln.emptyslot ≡ 0)
stuck_producer p_ended free pro = inl refl
stuck_producer c_ended free pro = absurd (omega (arith, pro))
stuck_producer (no_slot e) free pro = inr e
stuck_producer (no_stock e) free pro = absurd (omega (arith, pro))
stuck_producer (p_locked e) free pro = absurd (omega (arith, e, free))
stuck_producer (c_locked e) free pro = absurd (omega (arith, e, free))

stuck_consumer :
    {m : Shared} {p : Pc}
    → Stuck m p
    → m.ctln.sem_mutex ≡ 1
    → producing p ≡ 0
    → (p ≡ c_exit) ⊎ ((p ≡ c_wait_stock) × (m.ctln.stock ≡ 0))
stuck_consumer p_ended free con = absurd (omega (arith, con))
stuck_consumer c_ended free con = inl refl
stuck_consumer (no_slot e) free con = absurd (omega (arith, con))
stuck_consumer (no_stock e) free con = inr (refl, e)
stuck_consumer (p_locked e) free con = absurd (omega (arith, e, free))
stuck_consumer (c_locked e) free con = absurd (omega (arith, e, free))

-- Every thread has ended.
abbrev pub Finished : Sizes → System → Type 0
Finished z s =
    ((i : ℕ) → i < z.thread_pro → s.pc i ≡ p_exit)
    × ((i : ℕ) → z.thread_pro ≤ i → i < threads z → s.pc i ≡ c_exit)

-- Every consumer has ended, with items left in the ring.
abbrev pub Abandoned : Sizes → System → Type 0
Abandoned z s =
    ((i : ℕ) → z.thread_pro ≤ i → i < threads z → s.pc i ≡ c_exit)
    × (s.shared.ctln.item_num ≡ z.max_item_num)
    × (s.shared.ctln.consume_num < s.shared.ctln.item_num)

module _ (z : Sizes) (s : System) (inv : Inv z s) (ends : Ends z s) where
  abbrev Going : Type 0
  Going = (t : System) × Step s t

  -- A thread can go on, and the system with it, or is stuck.
  next_thread : (i : ℕ) → i < threads z → Stuck s.shared (s.pc i) ⊎ Going
  next_thread i lt = elim (dec_lt i z.thread_pro) [
    | yes pro ↦ elim (next_produce i s.shared (s.pc i) (ends.producers i pro)) [
      | inl stuck ↦ inl stuck
      | inr (m, q, move) ↦ inr (_, produce i (omega (arith, pro, inv.sized.2)) move)
    ]
    | no con ↦ elim (next_consume i s.shared (s.pc i) (ends.consumers i (omega (arith, con)) lt)) [
      | inl stuck ↦ inl stuck
      | inr (m, q, move) ↦ inr (
        _,
        consume i (omega (arith, con, inv.sized.2)) (omega (arith, lt, inv.sized.2, inv.sized.3))
            move,
      )
    ]
  ]

  -- A thread in its critical section can go on.
  holder_goes : s.shared.ctln.sem_mutex ≡ 0 → Going
  holder_goes taken =
      let (i, lt, in_i) = total_find critical (threads z) s.pc (omega (arith, inv.lock, taken)) in
      elim (next_thread i lt) [
        | inr going ↦ going
        | inl stuck ↦ absurd (omega (arith, in_i, stuck_critical stuck))
      ]

  module _ (valid : IsValid z) (free : s.shared.ctln.sem_mutex ≡ 1)
      (stuck : (i : ℕ) → i < threads z → Stuck s.shared (s.pc i)) where
    slots_empty : total has_slot (threads z) s.pc ≡ 0
    slots_empty = total_zero has_slot (threads z) s.pc (λ i lt. (stuck_light (stuck i lt) free).1)

    stocks_empty : total has_stock (threads z) s.pc ≡ 0
    stocks_empty = total_zero has_stock (threads z) s.pc (λ i lt. (stuck_light (stuck i lt) free).2)

    consumer_stuck :
        (i : ℕ)
        → z.thread_pro ≤ i
        → i < threads z
        → (s.pc i ≡ c_exit) ⊎ ((s.pc i ≡ c_wait_stock) × (s.shared.ctln.stock ≡ 0))
    consumer_stuck i ge lt = stuck_consumer (stuck i lt) free (ends.consumers i ge lt)

    -- A producer that waits for a unit: the ring is full, and there is stock, so no consumer waits.
    full_ring : s.shared.ctln.emptyslot ≡ 0 → Abandoned z s
    full_ring none_free =
        let left : s.shared.ctln.consume_num < s.shared.ctln.item_num =
          omega (arith, inv.slots, none_free, slots_empty, valid.room) in
        let gone : (i : ℕ) → z.thread_pro ≤ i → i < threads z → s.pc i ≡ c_exit = λ i ge lt.
          elim (consumer_stuck i ge lt) [
            | inl e ↦ e
            | inr (_, out) ↦ absurd (omega (arith, inv.stocks, out, stocks_empty, left))
          ] in
        let ended : 0 < s.shared.ctln.end_flag =
          ends.c_ends z.thread_pro (omega (arith, valid.some_cons)) (
            omega (
              arith,
              ap c_left (gone z.thread_pro (omega arith) (omega (arith, valid.some_cons))),
            )) in
        (gone, inv.content.counted.4 ended ∙ inv.sized.1, left)

    module _ (over : (i : ℕ) → i < z.thread_pro → s.pc i ≡ p_exit) where
      made : s.shared.ctln.item_num ≡ s.shared.ctln.max_item_num
      made = omega (
        arith,
        inv.content.counted.0,
        ends.p_ends 0 (omega (arith, valid.some_pro))
            (omega (arith, ap p_left (over 0 valid.some_pro))),
      )

      -- With one consumer, which waits, none is past the wait.
      nobody_past :
          (i : ℕ)
          → z.thread_pro ≤ i
          → i < threads z
          → s.pc i ≡ c_wait_stock
          → z.thread_cons ≤ 1
          → 0 < total past_stock (threads z) s.pc
          → ⊥
      nobody_past i ge lt waits single some_past =
          let (j, lt_j, past) = total_find past_stock (threads z) s.pc some_past in
          elim (dec_lt j z.thread_pro) [
            | yes pro ↦ omega (arith, past, ap past_stock (over j pro))
            | no con ↦
                let same : j ≡ i = omega (arith, con, ge, lt, lt_j, single) in
                omega (arith, past, ap (λ x. past_stock (s.pc x)) same, ap past_stock waits)
          ]

      -- The last consumer does not wait: it has taken the last item, or there is stock for it.
      none_waits :
          (k : ℕ)
          → s.main ≡ posting k
          → z.thread_cons ≤ k + 1
          → (i : ℕ) → z.thread_pro ≤ i
          → i < threads z
          → s.pc i ≡ c_exit
      none_waits k posts all_posted i ge lt = elim (consumer_stuck i ge lt) [
        | inl e ↦ e
        | inr (waits, out) ↦
            let all : s.shared.ctln.consume_num ≡ s.shared.ctln.max_item_num = omega (
              arith,
              inv.stocks,
              inv.content.counted.1,
              out,
              stocks_empty,
              made,
              ap posted posts,
            ) in
            let last : k ≡ 0 =
              omega (arith, inv.stocks, out, stocks_empty, made, all, ap posted posts) in
            absurd (nobody_past i ge lt waits (omega (arith, all_posted, last)) (ends.seen all))
      ]

      ending : (k : Main) → s.main ≡ k → Going ⊎ Finished z s ⊎ Abandoned z s
      ending joining waits = inl (_, joined waits (λ i lt. over i (omega (arith, lt, inv.sized.2))))
      ending (posting k) posts = elim (dec_lt (k + 1) z.thread_cons) [
        | yes more ↦ inl (_, post k posts (omega (arith, more, inv.sized.3)))
        | no done ↦ inr (inl (over, none_waits k posts (omega (arith, done))))
      ]

    producer_stuck : (i : ℕ) → i < z.thread_pro → (s.pc i ≡ p_exit) ⊎ (s.shared.ctln.emptyslot ≡ 0)
    producer_stuck i lt = stuck_producer (stuck i (omega (arith, lt))) free (ends.producers i lt)

    stuck_over : Going ⊎ Finished z s ⊎ Abandoned z s
    stuck_over = elim (every_or z.thread_pro producer_stuck) [
      | inl over ↦ ending over s.main refl
      | inr (i, lt, none_free) ↦ inr (inr (full_ring none_free))
    ]

  -- Some step is possible, or every thread has ended, or every consumer has.
  going_or_over : IsValid z → Going ⊎ Finished z s ⊎ Abandoned z s
  going_or_over valid = elim (taken_from s.shared.ctln.sem_mutex) [
    | inl taken ↦ inl (holder_goes taken)
    | inr (u, e) ↦ elim (every_or (threads z) next_thread) [
      | inr (i, lt, going) ↦ inl going
      | inl stuck ↦ stuck_over valid (omega (arith, inv.lock, e)) stuck
    ]
  ]

-- No deadlock before the end: from a reachable state some thread or `main` can go on, unless every
-- thread has ended, or every consumer has ended with all items made and some left in the ring.
pub progress :
    {z : Sizes} {memory : ℕ → DataPcSt} {s : System}
    → IsValid z
    → Reach z memory s
    → ((t : System) × Step s t) ⊎ Finished z s ⊎ Abandoned z s
progress {z} {s = s} valid r = going_or_over z s (Reach-Inv valid r) (Reach-Ends valid r) valid
