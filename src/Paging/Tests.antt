-- ===== src/Paging/Tests.antt =====
-- Labweek17/page_replacement.c: the reference string of the textbook, with five frames.
use operating_system_homewor.Prelude.{
  ℕ, ◌+◌, ◌≤◌, ◌<◌, ◌≡◌, ◌≢◌, refl, ◌⊎◌, true, false, some, List, [], ◌∷◌, arith, if◌then◌else◌,
}
use operating_system_homewor.Paging.{
  Frames, Line, frame_size, PageQueue, find_page, fifo_step, fifo_loop, fifo, setrow1, setcolumn0,
  one_sum, least_loop, find_least_row, lru_matrix_step, lru_matrix_loop, lru_matrix,
  creat_page_node, init_loop, init_page_stack, unlink, replace_head, lru_stack_step, lru_stack_loop,
  lru_stack, chance_loop, replace_victim, second_chance_step, second_chance_loop, second_chance,
  no_pages, init_page_queue,
}
use operating_system_homewor.Paging.Oldest.{first_loaded, least_recently_used}
use operating_system_homewor.Paging.Arrival.{fifo_correct}
use operating_system_homewor.Paging.Rows.{lru_matrix_correct}
use operating_system_homewor.Paging.Stack.{lru_stack_correct}
use operating_system_homewor.Paging.Stopping.{around, Stops}
use operating_system_homewor.Paging.Clock.{
  MarksUsed, Replaces, Served, second_chance_step_lem, second_chance_total,
}

program : Unit {0}
unfolding find_page fifo_step fifo_loop fifo setrow1 setcolumn0 one_sum least_loop find_least_row
    lru_matrix_step lru_matrix_loop lru_matrix creat_page_node init_loop init_page_stack unlink
    replace_head lru_stack_step lru_stack_loop lru_stack chance_loop replace_victim
    second_chance_step second_chance_loop second_chance
program = tt

abbrev references : List ℕ
references = 7 ∷ 0 ∷ 1 ∷ 2 ∷ 0 ∷ 3 ∷ 0 ∷ 4 ∷ 2 ∷ 3 ∷ 0 ∷ 3 ∷ 2 ∷ 1 ∷ 2 ∷ 0 ∷ 1 ∷ 7 ∷ 0 ∷ 1 ∷ []

-- The page faults of a run.
abbrev faults : List Line → ℕ
faults [] = 0
faults (l ∷ ls) = (if l.1 then 1 else 0) + faults ls

faults-fifo : faults (fifo references) ≡ 9
unfolding program
faults-fifo = refl

faults-lru_matrix : faults (lru_matrix references) ≡ 7
unfolding program
faults-lru_matrix = refl

faults-lru_stack : faults (lru_stack references) ≡ 7
unfolding program
faults-lru_stack = refl

fifo_correct_example : fifo references ≡ first_loaded references
fifo_correct_example = fifo_correct references

lru_matrix_correct_example : lru_matrix references ≡ least_recently_used references
lru_matrix_correct_example = lru_matrix_correct references

lru_stack_correct_example : lru_stack references ≡ least_recently_used references
lru_stack_correct_example = lru_stack_correct references

abbrev opening : Frames × PageQueue
opening = (no_pages, init_page_queue)

second_chance_step_lem_example :
    ((j : ℕ) × (t : PageQueue) × (j < frame_size)
      × (opening.0 j ≡ some 7)
      × (second_chance_step 7 opening ≡ some ((no_pages, t), false))
      × MarksUsed init_page_queue j t)
    ⊎ (((j : ℕ) → j < frame_size → opening.0 j ≢ some 7)
        × ((d : ℕ) × (r t : PageQueue) × (frames : Frames) × (d ≤ frame_size)
            × Stops init_page_queue r d
            × (second_chance_step 7 opening ≡ some ((frames, t), true))
            × Replaces r 7 t
            × (frames (around 0 d) ≡ some 7)
            × ((i : ℕ) → i ≢ around 0 d → frames i ≡ opening.0 i)))
second_chance_step_lem_example = second_chance_step_lem 7 opening (refl, omega arith)

second_chance_total_example :
    (lines : List Line) × (second_chance references ≡ some lines) × Served references lines
second_chance_total_example = second_chance_total references
