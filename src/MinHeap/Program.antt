-- ===== src/MinHeap/Program.antt =====
-- Labweek7/SLList_MinHeap.c: what is printed of the linked list and of the heap, and `main`.
use operating_system_homewor.Prelude.{ℕ, zero, suc, ◌+◌, Option, none, some, List, [], ◌∷◌, ◌++◌}
use operating_system_homewor.Prelude.Int.{ℤ, pos}
use operating_system_homewor.MinHeap.{
  Student, Students, Heap, initial_static_link_list, insert_list_at_head, initial_heap, push_heap,
  pop_heap,
}
use operating_system_homewor.MinHeap.Find.{find_heap, modify_id, modify_id_by_index}

-- The loop of `printStaticLinkList`, from the node `pre` on.
unfoldable pub list_loop : ℕ → Students → Option ℕ → Option (List Student)
list_loop fuel l none = some []
list_loop zero l (some i) = none
list_loop (suc fuel) l (some i) = elim (list_loop fuel l (l i).next_node) [
  | none ↦ none
  | some rest ↦ some (l i ∷ rest)
]

unfoldable pub print_static_link_list : Heap → Option (List Student)
print_static_link_list h = list_loop h.size h.list h.head_index

-- The loop of `printHeap`: the first `n` places.
unfoldable pub heap_loop : ℕ → Students → List Student
heap_loop zero l = []
heap_loop (suc n) l = heap_loop n l ++ l n ∷ []

unfoldable pub print_heap : Heap → List Student
print_heap h = heap_loop h.size h.list

unfoldable pub insert_all : List Student → Heap → Option Heap
insert_all [] h = some h
insert_all (stu ∷ rest) h = elim (insert_list_at_head h stu) [
  | none ↦ none
  | some r ↦ insert_all rest r
]

unfoldable pub push_all : List Student → Heap → Option Heap
push_all [] h = some h
push_all (stu ∷ rest) h = elim (push_heap h stu) [ none ↦ none | some r ↦ push_all rest r ]

abbrev pub student : ℤ → List ℕ → Student
student id name = record { flag = 0; id = id; name = name; pre_node = none; next_node = none }

-- `"name1"` and so on, as character codes.
abbrev pub name : ℕ → List ℕ
name digit = 110 ∷ 97 ∷ 109 ∷ 101 ∷ (digit + 48) ∷ []

abbrev pub stu3 : Student
stu3 = student (pos 40) (name 3)

abbrev pub stu4 : Student
stu4 = student (pos 50) (name 4)

abbrev pub first_students : List Student
first_students =
    student (pos 30) (name 1)
    ∷ student (pos 20) (name 2)
    ∷ stu3
    ∷ stu4
    ∷ student (pos 10) (name 5)
    ∷ []

abbrev pub later_students : List Student
later_students = student (pos 5) (name 6) ∷ student (pos 25) (name 7) ∷ []

-- What `main` does to the heap after the pushes.
unfoldable pub main_changes : Heap → Heap
main_changes h = modify_id_by_index (modify_id (pop_heap (pop_heap h)) stu4 (pos 5)) 0 (pos 90)

-- The heap at the end of `main`, from what its memory held, and where it finds `stu3`.
unfoldable pub main_run : Students → Option (Heap × Option ℕ)
main_run garbage = elim (insert_all first_students (initial_static_link_list garbage)) [
  | none ↦ none
  | some listed ↦ elim (push_all later_students (initial_heap listed)) [
    | none ↦ none
    | some pushed ↦ some (main_changes pushed, find_heap (main_changes pushed) stu3 0)
  ]
]
