-- ===== src/MinHeap.antt =====
-- Labweek7/SLList_MinHeap.c: students in an array that is a linked list and a minimum heap at once,
-- with a stack of the unused places. An index that is -1 is `none`; a use of place -1 of the array
-- makes an operation `none`. The loops run on fuel, which the size of the heap bounds.
pub mod Find
pub mod Program
pub mod Links
pub mod Listed
pub mod Kept
pub mod NewHead
pub mod Front
pub mod Fields
pub mod Swap
pub mod Sift
pub mod Build
pub mod Push
pub mod Pop
mod Tests
use operating_system_homewor.Prelude.{
  ℕ, zero, suc, ◌+◌, ◌-◌, ◌*◌, ◌/◌, Bool, true, false, not, ◌&&◌, Option, none, some, List, [], ◌∷◌,
  ltb, leb, ◌==◌, if◌then◌else◌, update,
}
use operating_system_homewor.Prelude.Int.{ℤ, ltb_ℤ, eqb_ℤ}

abbrev pub max_size : ℕ
max_size = 1024

pub record Student : Type 0 where
  pub flag : ℕ
  pub id : ℤ
  pub name : List ℕ
  pub pre_node : Option ℕ
  pub next_node : Option ℕ

abbrev pub Students : Type 0
Students = ℕ → Student

-- `count` is `top + 1`.
pub record Stack : Type 0 where
  pub index : ℕ → ℕ
  pub count : ℕ

pub record Heap : Type 0 where
  pub list : Students
  pub head_index : Option ℕ
  pub size : ℕ
  pub unused_indexs : Stack

abbrev pub initiate_stack : Stack
initiate_stack = record { index = λ i. max_size - i - 1; count = max_size }

abbrev pub push_stack : Stack → ℕ → Stack
push_stack stk i = record { index = update stk.index stk.count i; count = stk.count + 1 }

abbrev pub pop_stack : Stack → Stack
pop_stack stk = record { index = stk.index; count = stk.count - 1 }

abbrev pub top_stack : Stack → Option ℕ
top_stack stk = if stk.count == 0 then none else some (stk.index (stk.count - 1))

abbrev pub initial_static_link_list : Students → Heap
initial_static_link_list garbage = record {
  list = garbage;
  head_index = none;
  size = 0;
  unused_indexs = initiate_stack;
}

abbrev pub set_pre : Students → ℕ → Option ℕ → Students
set_pre l i v = update l i (record (l i) { pre_node = v })

abbrev pub set_next : Students → ℕ → Option ℕ → Students
set_next l i v = update l i (record (l i) { next_node = v })

-- `if (i != -1) list[i].preNode = v;`
pub set_pre_at : Students → Option ℕ → Option ℕ → Students
set_pre_at l none v = l
set_pre_at l (some i) v = set_pre l i v

pub set_next_at : Students → Option ℕ → Option ℕ → Students
set_next_at l none v = l
set_next_at l (some i) v = set_next l i v

-- `flag`, `preNode` and `nextNode` of a node that becomes the head of the linked list.
abbrev pub set_head_node : Students → ℕ → Option ℕ → Students
set_head_node l i head = update l i (record (l i) { flag = 1; pre_node = none; next_node = head })

-- The rest of `insertListAtHead` and of the first part of `pushHeap`.
abbrev pub with_head : Heap → Students → ℕ → Heap
with_head h l i = record {
  list = l;
  head_index = some i;
  size = h.size + 1;
  unused_indexs = pop_stack h.unused_indexs;
}

pub insert_list_at_head : Heap → Student → Option Heap
insert_list_at_head h stu = elim (top_stack h.unused_indexs) [
  | none ↦ none
  | some i ↦ some (
      with_head h
        (set_pre_at (set_head_node (update h.list i stu) i h.head_index) h.head_index (some i)) i)
]

-- `if (i != -1 && i != other) list[i].nextNode = v;`
pub relink_next : Students → Option ℕ → ℕ → ℕ → Students
relink_next l none other v = l
relink_next l (some i) other v = if i == other then l else set_next l i (some v)

pub relink_pre : Students → Option ℕ → ℕ → ℕ → Students
relink_pre l none other v = l
relink_pre l (some i) other v = if i == other then l else set_pre l i (some v)

-- `i == j`, for an index that may be -1.
abbrev pub at : Option ℕ → ℕ → Bool
at none j = false
at (some i) j = i == j

abbrev pub is_none : Option ℕ → Bool
is_none none = true
is_none (some i) = false

-- The two nodes change places, and the links to both follow them.
pub swapped_list : Students → ℕ → ℕ → Students
swapped_list l parent child =
    let l1 : Students = update (update l parent (l child)) child (l parent) in
    let l2 = relink_next l1 (l parent).pre_node child child in
    let l3 = relink_pre l2 (l parent).next_node child child in
    let l4 = relink_next l3 (l child).pre_node parent parent in
    let l5 = relink_pre l4 (l child).next_node parent parent in
    let l6 : Students =
      if at (l parent).pre_node child
      then set_pre (set_next l5 parent (some child)) child (some parent)
      else l5 in
    if at (l parent).next_node child
    then set_next (set_pre l6 parent (some child)) child (some parent)
    else l6

pub swapped_head : Students → Option ℕ → ℕ → ℕ → Option ℕ
swapped_head l head parent child =
    if is_none (l child).pre_node
    then some child
    else if is_none (l parent).pre_node
    then some parent
    else head

pub swap_heap_node : Heap → ℕ → ℕ → Heap
swap_heap_node h parent child = record {
  list = swapped_list h.list parent child;
  head_index = swapped_head (swapped_list h.list parent child) h.head_index parent child;
  size = h.size;
  unused_indexs = h.unused_indexs;
}

-- The smaller of two children, where the second one exists.
abbrev pub smaller_child : Heap → ℕ → ℕ → ℕ
smaller_child h n child =
    if ltb (child + 1) n && ltb_ℤ (h.list (child + 1)).id (h.list child).id
    then child + 1
    else child

-- The `while` loop of `initialHeap`; `id` is that of `temp`.
pub sift_down : ℕ → Heap → ℕ → ℤ → ℕ → Heap
sift_down zero h n id parent = h
sift_down (suc fuel) h n id parent =
    let child = smaller_child h n (2 * parent + 1) in
    let later = sift_down fuel (swap_heap_node h parent child) n id child in
    if ltb (2 * parent + 1) n then (if ltb_ℤ (h.list child).id id then later else h) else h

-- The loop over `i`, from `m - 1` down.
pub build_loop : ℕ → Heap → Heap
build_loop zero h = h
build_loop (suc i) h = build_loop i (sift_down h.size h h.size (h.list i).id i)

pub initial_heap : Heap → Heap
initial_heap h = build_loop (h.size / 2) h

-- The `while` loop of `pushHeap`.
pub sift_up : ℕ → Heap → ℤ → ℕ → Heap × ℕ
sift_up zero h id child = (h, child)
sift_up (suc fuel) h id child =
    let parent = (child - 1) / 2 in
    let later = sift_up fuel (swap_heap_node h parent child) id parent in
    if ltb_ℤ id (h.list parent).id && ltb 0 child then later else (h, child)

-- The new node before it rises; `head_index` is set after the loop only.
pub place_new : Heap → ℕ → ℤ → List ℕ → Heap
place_new h child id name =
    let l = update h.list child (record (h.list child) { id = id; name = name }) in
    record {
      list = set_head_node (set_pre_at l h.head_index (some child)) child h.head_index;
      head_index = h.head_index;
      size = h.size + 1;
      unused_indexs = pop_stack h.unused_indexs;
    }

pub push_at : Heap → ℕ → ℤ → List ℕ → Heap
push_at h child id name =
    let r = sift_up child (place_new h child id name) id child in
    record (r.0) { head_index = some r.1 }

pub push_heap_by_id_and_name : Heap → ℤ → List ℕ → Option Heap
push_heap_by_id_and_name h id name = elim (top_stack h.unused_indexs) [
  | none ↦ none
  | some child ↦ some (push_at h child id name)
]

pub push_heap : Heap → Student → Option Heap
push_heap h stu = elim (top_stack h.unused_indexs) [
  | none ↦ none
  | some child ↦ some (push_at h child stu.id stu.name)
]

-- The `for` loop of `popHeap`; `id` is that of `temp`.
pub pop_loop : ℕ → Heap → ℤ → ℕ → Heap
pop_loop zero h id high = h
pop_loop (suc fuel) h id high =
    let left = 2 * high + 1 in
    let low =
      if not (left == h.size - 1) && ltb_ℤ (h.list (left + 1)).id (h.list left).id
      then left + 1
      else left in
    let later = pop_loop fuel (swap_heap_node h high low) id low in
    if ltb (2 * high + 1) h.size then (if ltb_ℤ (h.list low).id id then later else h) else h

-- The node at place `i` leaves the linked list.
pub unlink_node : Heap → ℕ → Heap
unlink_node h i =
    let pre = (h.list i).pre_node in
    let next = (h.list i).next_node in
    record h {
      list = set_pre_at (set_next_at h.list pre next) next pre;
      head_index = if is_none pre then next else h.head_index;
    }

-- `list[headIndex].flag = 0;` The write to `list[-1]`, where there is no head, is outside the model: it
-- changes nothing here.
pub clear_flag : Students → Option ℕ → Students
clear_flag l none = l
clear_flag l (some i) = update l i (record (l i) { flag = 0 })

-- The last place becomes unused.
abbrev pub give_back : Heap → Heap
give_back h = record {
  list = clear_flag h.list h.head_index;
  head_index = h.head_index;
  size = h.size - 1;
  unused_indexs = push_stack h.unused_indexs (h.size - 1);
}

pub pop_heap : Heap → Heap
pop_heap h =
    let back = give_back h in
    if h.size == 0
    then h
    else if h.size == 1
    then record back { head_index = none }
    else unlink_node
        (pop_loop back.size (swap_heap_node back 0 back.size) (h.list (h.size - 1)).id 0) back.size

abbrev pub top_heap : Heap → Student
top_heap h = h.list 0

abbrev pub is_empty_heap : Heap → Bool
is_empty_heap h = h.size == 0
