-- ===== src/MinHeap/Tests.antt =====
-- Labweek7/SLList_MinHeap.c: the run of `main`, and a student marked as deleted by mistake.
use mathlib.Core.Path.{subst}
use operating_system_homewor.Prelude.{
  zero, suc, sym, ℕ, ◌+◌, ◌<◌, ◌≡◌, refl, ◌⊎◌, true, false, Option, none, some, List, [], ◌∷◌,
  arith,
}
use operating_system_homewor.Prelude.Int.{ℤ, pos, eqb_ℤ}
use operating_system_homewor.MinHeap.{
  at, is_none, Student, Heap, initial_static_link_list, set_pre_at, set_next_at,
  insert_list_at_head, relink_next, relink_pre, swapped_list, swapped_head, swap_heap_node,
  sift_down, build_loop, initial_heap, sift_up, place_new, push_at, push_heap_by_id_and_name,
  push_heap, pop_loop, unlink_node, clear_flag, pop_heap, top_heap,
}
use operating_system_homewor.MinHeap.Find.{
  str_eq, first_of, find_test, modify_id, modify_id_by_index,
}
use operating_system_homewor.MinHeap.Program.{
  list_loop, print_static_link_list, heap_loop, print_heap, insert_all, push_all, student, name,
  first_students, main_changes, main_run,
}
use operating_system_homewor.MinHeap.Swap.{key}
use operating_system_homewor.MinHeap.Listed.{WithinLink}
use operating_system_homewor.MinHeap.Front.{InFront, push_heap_by_id_and_name-InFront}
use operating_system_homewor.MinHeap.Kept.{HasList, SameList, swap_heap_node-SameList}
use operating_system_homewor.MinHeap.Sift.{IsHeap, Permuted}
use operating_system_homewor.MinHeap.Build.{initial_heap-IsHeap}
use operating_system_homewor.MinHeap.Push.{Spare, IsValid, Pushed, push_heap_by_id_and_name-Pushed}
use operating_system_homewor.MinHeap.Pop.{Popped, pop_heap-Popped}
use operating_system_homewor.MinHeap.Find.Reached.{find_test-found}

program : Unit {0}
unfolding set_pre_at set_next_at insert_list_at_head relink_next relink_pre swapped_list
    swapped_head swap_heap_node sift_down build_loop initial_heap sift_up place_new push_at
    push_heap_by_id_and_name push_heap pop_loop unlink_node clear_flag pop_heap str_eq first_of
    find_test modify_id modify_id_by_index list_loop print_static_link_list heap_loop print_heap
    insert_all push_all main_changes main_run
program = tt

abbrev blank : Heap
blank = initial_static_link_list (λ _. student (pos 0) [])

abbrev ids : List Student → List ℤ
ids [] = []
ids (s ∷ ss) = s.id ∷ ids ss

abbrev or_blank : Option Heap → Heap
or_blank none = blank
or_blank (some h) = h

-- The list that `main` makes before it is a heap.
abbrev listed : Heap
listed = or_blank (insert_all first_students blank)

ids-print_heap : ids (print_heap listed) ≡ pos 30 ∷ pos 20 ∷ pos 40 ∷ pos 50 ∷ pos 10 ∷ []
unfolding program
ids-print_heap = refl

ids-initial_heap :
    ids (print_heap (initial_heap listed)) ≡ pos 10 ∷ pos 20 ∷ pos 40 ∷ pos 50 ∷ pos 30 ∷ []
unfolding program
ids-initial_heap = refl

-- Two students, the smaller one pushed first.
abbrev two : Heap
two = or_blank (push_all (student (pos 20) (name 1) ∷ student (pos 30) (name 2) ∷ []) blank)

-- The mark goes to the head of the linked list, which stays, and not to the root, which is removed.
wrong_flag :
    ((top_heap (pop_heap two)).id ≡ pos 30)
    × ((top_heap (pop_heap two)).flag ≡ 0)
    × (((pop_heap two).list 1).flag ≡ 1)
unfolding program
wrong_flag = (refl, refl, refl)

initial_heap-IsHeap_example :
    IsHeap 2 (key (initial_heap two))
    × Permuted 2 (key two) (key (initial_heap two))
    × ((initial_heap two).size ≡ 2)
unfolding program
initial_heap-IsHeap_example = initial_heap-IsHeap two

blank-IsValid : IsValid blank
blank-IsValid = ((λ q c le child lt. absurd (omega arith)), ((λ i lt. refl), refl))

push_heap_by_id_and_name-Pushed_example :
    (r : Heap) × (push_heap_by_id_and_name blank (pos 7) (name 1) ≡ some r) × Pushed blank (pos 7) r
push_heap_by_id_and_name-Pushed_example =
    push_heap_by_id_and_name-Pushed blank (pos 7) (name 1) (omega arith) blank-IsValid

-- One student in a blank heap.
abbrev one : Heap
one = or_blank (push_heap_by_id_and_name blank (pos 7) (name 1))

one-IsValid : IsValid one
unfolding program
one-IsValid = ((λ q c le child lt. absurd (ground (arith, child))), ((λ i lt. refl), refl))

one-size : 0 < one.size
unfolding program
one-size = omega arith

pop_heap-Popped_example : Popped one (pop_heap one)
pop_heap-Popped_example = pop_heap-Popped one one-size one-IsValid

find_test-found_example :
    ((find_test (two.size + 1) (λ s. eqb_ℤ s.id (pos 30)) two 0 ≡ none)
      × ((i : ℕ) → i < two.size → eqb_ℤ (two.list i).id (pos 30) ≡ false))
    ⊎ ((i : ℕ) × (find_test (two.size + 1) (λ s. eqb_ℤ s.id (pos 30)) two 0 ≡ some i)
        × (i < two.size)
        × (eqb_ℤ (two.list i).id (pos 30) ≡ true))
find_test-found_example = find_test-found (λ s. eqb_ℤ s.id (pos 30)) two

below_two : (P : ℕ → Type 0) → P 0 → P 1 → (i : ℕ) → i < 2 → P i
below_two P a b zero lt = a
below_two P a b (suc zero) lt = b
below_two P a b (suc (suc i)) lt = absurd (omega arith)

two-HasList : HasList 2 two
unfolding program
two-HasList = (
  (
    λ i j li lj.
        below_two (λ i. at (two.list i).next_node j ≡ at (two.list j).pre_node i)
          (below_two (λ j. at (two.list 0).next_node j ≡ at (two.list j).pre_node 0) refl refl j lj)
          (below_two (λ j. at (two.list 1).next_node j ≡ at (two.list j).pre_node 1) refl refl j lj)
          i li,
    below_two (λ i. (at (two.list i).next_node i ≡ false) × (at (two.list i).pre_node i ≡ false))
        (refl, refl) (refl, refl),
  ),
  below_two (λ i. WithinLink 2 (two.list i).next_node × WithinLink 2 (two.list i).pre_node)
      (tt, omega arith) (omega arith, tt),
  below_two (λ i. is_none (two.list i).pre_node ≡ at two.head_index i) refl refl,
  omega arith,
)

swap_heap_node-SameList_example : SameList 2 two (swap_heap_node two 0 1)
swap_heap_node-SameList_example =
    swap_heap_node-SameList two 2 0 1 two-HasList (omega arith) (omega arith)
      (λ e. absurd (omega arith))

two-size : two.size ≡ 2
unfolding program
two-size = refl

two-small : two.size < 1024
unfolding program
two-small = omega arith

two-Spare : Spare two
unfolding program
two-Spare = (λ i lt. ground arith, omega arith)

push_heap_by_id_and_name-InFront_example :
    (r : Heap) × (push_heap_by_id_and_name two (pos 5) (name 6) ≡ some r)
    × InFront two (pos 5) (name 6) r
push_heap_by_id_and_name-InFront_example =
    push_heap_by_id_and_name-InFront two (pos 5) (name 6) two-small two-Spare
      (subst (λ n. HasList n two) (sym two-size) two-HasList)
