-- ===== src/MinHeap/Find.antt =====
-- Labweek7/SLList_MinHeap.c: the search in the heap, and the operations that change what it finds.
pub mod Reached
use operating_system_homewor.Prelude.{
  ℕ, zero, suc, ◌+◌, ◌*◌, Bool, true, false, ◌&&◌, Option, none, some, List, [], ◌∷◌, ltb, leb,
  ◌==◌, if◌then◌else◌, update,
}
use operating_system_homewor.Prelude.Int.{ℤ, eqb_ℤ}
use operating_system_homewor.MinHeap.{Student, Students, Heap, initial_heap}

-- `strcmp(a, b) == 0`; a name is its characters before the null byte.
unfoldable pub str_eq : List ℕ → List ℕ → Bool
str_eq [] [] = true
str_eq [] (y ∷ ys) = false
str_eq (x ∷ xs) [] = false
str_eq (x ∷ xs) (y ∷ ys) = (x == y) && str_eq xs ys

-- `if (left != -1) return left; if (right != -1) return right; return -1;`
unfoldable pub first_of : Option ℕ → Option ℕ → Option ℕ
first_of none right = right
first_of (some i) right = some i

-- The recursion that the three searches share, with its fuel.
unfoldable pub find_test : ℕ → (Student → Bool) → Heap → ℕ → Option ℕ
find_test zero test h cur = none
find_test (suc fuel) test h cur =
    let left = find_test fuel test h (cur * 2 + 1) in
    let right = find_test fuel test h (cur * 2 + 2) in
    if leb h.size cur
    then none
    else if test (h.list cur)
    then some cur
    else first_of (if ltb (cur * 2 + 1) h.size then left else none)
        (if ltb (cur * 2 + 2) h.size then right else none)

abbrev pub find_heap : Heap → Student → ℕ → Option ℕ
find_heap h stu = find_test (h.size + 1) (λ s. eqb_ℤ s.id stu.id && str_eq s.name stu.name) h

abbrev pub find_heap_by_id : Heap → ℤ → ℕ → Option ℕ
find_heap_by_id h id = find_test (h.size + 1) (λ s. eqb_ℤ s.id id) h

abbrev pub find_heap_by_name : Heap → List ℕ → ℕ → Option ℕ
find_heap_by_name h name = find_test (h.size + 1) (λ s. str_eq s.name name) h

abbrev pub set_id : Heap → ℕ → ℤ → Heap
set_id h i id = record h { list = update h.list i (record (h.list i) { id = id }) }

abbrev pub set_name : Heap → ℕ → List ℕ → Heap
set_name h i name = record h { list = update h.list i (record (h.list i) { name = name }) }

-- Without the student the heap stays as it is, and a message is printed.
unfoldable pub modify_id : Heap → Student → ℤ → Heap
modify_id h stu id = elim (find_heap h stu 0) [ none ↦ h | some i ↦ initial_heap (set_id h i id) ]

unfoldable pub modify_name : Heap → Student → List ℕ → Heap
modify_name h stu name = elim (find_heap h stu 0) [ none ↦ h | some i ↦ set_name h i name ]

unfoldable pub modify_id_and_name : Heap → Student → ℤ → List ℕ → Heap
modify_id_and_name h stu id name = elim (find_heap h stu 0) [
  | none ↦ h
  | some i ↦ initial_heap (set_name (set_id h i id) i name)
]

unfoldable pub modify_id_by_index : Heap → ℕ → ℤ → Heap
modify_id_by_index h i id = if leb h.size i then h else initial_heap (set_id h i id)

unfoldable pub modify_name_by_index : Heap → ℕ → List ℕ → Heap
modify_name_by_index h i name = if leb h.size i then h else set_name h i name

unfoldable pub modify_id_and_name_by_index : Heap → ℕ → ℤ → List ℕ → Heap
modify_id_and_name_by_index h i id name =
    if leb h.size i then h else initial_heap (set_name (set_id h i id) i name)
