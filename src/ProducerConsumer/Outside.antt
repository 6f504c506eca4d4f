-- ===== src/ProducerConsumer/Outside.antt =====
-- Labweek15/alg.18-7-syn-pc-producer-6.c and alg.18-8-syn-pc-consumer-6.c: threads outside their
-- critical sections.
use operating_system_homewor.Prelude.{ℕ, ◌+◌, ◌≡◌, arith}
use operating_system_homewor.ProducerConsumer.{
  Shared, Pc, Produce, Consume, p_while, p_wait_slot, p_wait_mutex, p_if, p_count, p_move, p_write,
  p_flag, p_post_stock, p_post_slot, p_post_mutex, p_exit, c_while, c_while_flag, c_wait_stock,
  c_wait_mutex, c_if, c_move, c_print, c_count, c_post_slot, c_post_stock, c_post_mutex, c_exit,
  p_more, p_done, p_slot, p_lock, p_below, p_full, p_counts, p_moves, p_writes, p_flags,
  p_flags_not, p_stocks, p_returns, p_unlocks, c_some, c_none, c_goes_on, c_done, c_stock, c_lock,
  c_filled, c_empty, c_moves, c_prints, c_counts, c_frees, c_returns, c_unlocks,
}
use operating_system_homewor.ProducerConsumer.Balance.{critical}
use operating_system_homewor.ProducerConsumer.Content.{Content}

-- A thread outside its critical section changes nothing that the owner of the mutex relies on.
pub Produce-outside :
    {i : ℕ} {m m' : Shared} {p q o : Pc}
    → Produce i m p m' q
    → critical p + critical q ≡ 0
    → Content m o
    → Content m' o
Produce-outside (p_more _) none_in c = record {
  placed = c.placed;
  counted = c.counted;
  told = c.told;
}
Produce-outside (p_done _) none_in c = record {
  placed = c.placed;
  counted = c.counted;
  told = c.told;
}
Produce-outside (p_slot _) none_in c = record {
  placed = c.placed;
  counted = c.counted;
  told = c.told;
}
Produce-outside (p_lock _) none_in c = absurd (omega (arith, none_in))
Produce-outside (p_below _) none_in c = absurd (omega (arith, none_in))
Produce-outside (p_full _) none_in c = absurd (omega (arith, none_in))
Produce-outside p_counts none_in c = absurd (omega (arith, none_in))
Produce-outside p_moves none_in c = absurd (omega (arith, none_in))
Produce-outside p_writes none_in c = absurd (omega (arith, none_in))
Produce-outside (p_flags _) none_in c = absurd (omega (arith, none_in))
Produce-outside (p_flags_not _) none_in c = absurd (omega (arith, none_in))
Produce-outside p_stocks none_in c = absurd (omega (arith, none_in))
Produce-outside p_returns none_in c = absurd (omega (arith, none_in))
Produce-outside p_unlocks none_in c = absurd (omega (arith, none_in))

pub Consume-outside :
    {i : ℕ} {m m' : Shared} {p q o : Pc}
    → Consume i m p m' q
    → critical p + critical q ≡ 0
    → Content m o
    → Content m' o
Consume-outside (c_some _) none_in c = record {
  placed = c.placed;
  counted = c.counted;
  told = c.told;
}
Consume-outside (c_none _) none_in c = record {
  placed = c.placed;
  counted = c.counted;
  told = c.told;
}
Consume-outside (c_goes_on _) none_in c = record {
  placed = c.placed;
  counted = c.counted;
  told = c.told;
}
Consume-outside (c_done _) none_in c = record {
  placed = c.placed;
  counted = c.counted;
  told = c.told;
}
Consume-outside (c_stock _) none_in c = record {
  placed = c.placed;
  counted = c.counted;
  told = c.told;
}
Consume-outside (c_lock _) none_in c = absurd (omega (arith, none_in))
Consume-outside (c_filled _) none_in c = absurd (omega (arith, none_in))
Consume-outside (c_empty _) none_in c = absurd (omega (arith, none_in))
Consume-outside c_moves none_in c = absurd (omega (arith, none_in))
Consume-outside c_prints none_in c = absurd (omega (arith, none_in))
Consume-outside c_counts none_in c = absurd (omega (arith, none_in))
Consume-outside c_frees none_in c = absurd (omega (arith, none_in))
Consume-outside c_returns none_in c = absurd (omega (arith, none_in))
Consume-outside c_unlocks none_in c = absurd (omega (arith, none_in))

-- While nobody owns the mutex, the memory is as it is for any thread outside.
at_rest :
    (m : Shared) (p : Pc)
    → critical p ≡ 0
    → (Content m p → Content m p_while) × (Content m p_while → Content m p)
at_rest m p_while free = (
  λ c. record { placed = c.placed; counted = c.counted; told = c.told },
  λ c. record { placed = c.placed; counted = c.counted; told = c.told },
)
at_rest m p_wait_slot free = (
  λ c. record { placed = c.placed; counted = c.counted; told = c.told },
  λ c. record { placed = c.placed; counted = c.counted; told = c.told },
)
at_rest m p_wait_mutex free = (
  λ c. record { placed = c.placed; counted = c.counted; told = c.told },
  λ c. record { placed = c.placed; counted = c.counted; told = c.told },
)
at_rest m p_if free = absurd (omega (arith, free))
at_rest m p_count free = absurd (omega (arith, free))
at_rest m p_move free = absurd (omega (arith, free))
at_rest m p_write free = absurd (omega (arith, free))
at_rest m p_flag free = absurd (omega (arith, free))
at_rest m p_post_stock free = absurd (omega (arith, free))
at_rest m p_post_slot free = absurd (omega (arith, free))
at_rest m p_post_mutex free = absurd (omega (arith, free))
at_rest m p_exit free = (
  λ c. record { placed = c.placed; counted = c.counted; told = c.told },
  λ c. record { placed = c.placed; counted = c.counted; told = c.told },
)
at_rest m c_while free = (
  λ c. record { placed = c.placed; counted = c.counted; told = c.told },
  λ c. record { placed = c.placed; counted = c.counted; told = c.told },
)
at_rest m c_while_flag free = (
  λ c. record { placed = c.placed; counted = c.counted; told = c.told },
  λ c. record { placed = c.placed; counted = c.counted; told = c.told },
)
at_rest m c_wait_stock free = (
  λ c. record { placed = c.placed; counted = c.counted; told = c.told },
  λ c. record { placed = c.placed; counted = c.counted; told = c.told },
)
at_rest m c_wait_mutex free = (
  λ c. record { placed = c.placed; counted = c.counted; told = c.told },
  λ c. record { placed = c.placed; counted = c.counted; told = c.told },
)
at_rest m c_if free = absurd (omega (arith, free))
at_rest m c_move free = absurd (omega (arith, free))
at_rest m c_print free = absurd (omega (arith, free))
at_rest m c_count free = absurd (omega (arith, free))
at_rest m c_post_slot free = absurd (omega (arith, free))
at_rest m c_post_stock free = absurd (omega (arith, free))
at_rest m c_post_mutex free = absurd (omega (arith, free))
at_rest m c_exit free = (
  λ c. record { placed = c.placed; counted = c.counted; told = c.told },
  λ c. record { placed = c.placed; counted = c.counted; told = c.told },
)

pub Content-idle :
    (m : Shared) (o p : Pc) → critical o ≡ 0 → critical p ≡ 0 → Content m o → Content m p
Content-idle m o p free_o free_p c = (at_rest m p free_p).1 ((at_rest m o free_o).0 c)
