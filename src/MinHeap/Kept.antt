-- ===== src/MinHeap/Kept.antt =====
-- Labweek7/SLList_MinHeap.c: `swapHeapNode`, and so `initialHeap`, leave the linked list in its order.
use mathlib.Core.Path.{subst}
use operating_system_homewor.Prelude.{ℕ, ◌<◌, ◌≡◌, ◌≢◌, refl, sym, ap, ◌∙◌, Option, List}
use operating_system_homewor.MinHeap.{Heap, swapped_list, swap_heap_node}
use operating_system_homewor.MinHeap.Program.{list_loop}
use operating_system_homewor.MinHeap.Listed.{
  Card, IsList, shown, swapped_head-moved, swapped-IsList, shown-swapped,
}

-- The heap has a linked list in its first `n` places.
abbrev pub HasList : ℕ → Heap → Type 0
HasList n h = IsList n h.list h.head_index

-- Its students from the head on, followed for `fuel` steps.
abbrev pub followed : ℕ → Heap → Option (List Card)
followed fuel h = shown (list_loop fuel h.list h.head_index)

-- `r` has a linked list with the students of that of `h`, in the same order.
abbrev pub SameList : ℕ → Heap → Heap → Type 0
SameList n h r = HasList n r × ((fuel : ℕ) → followed fuel r ≡ followed fuel h) × (r.size ≡ h.size)

-- For a linked list in the first `n` places, the exchange of two of them changes places and links,
-- but not the students that the list shows nor their order.
pub swap_heap_node-SameList :
    (h : Heap) (n p c : ℕ)
    → HasList n h
    → p < n
    → c < n
    → p ≢ c
    → SameList n h (swap_heap_node h p c)
unfolding swap_heap_node
swap_heap_node-SameList h n p c list lp lc ne =
    let head = swapped_head-moved h.list h.head_index n p c list lp lc ne in
    (
      subst (IsList n (swapped_list h.list p c)) (sym head)
          (swapped-IsList h.list h.head_index n p c list lp lc ne),
      λ fuel.
          ap (λ o. shown (list_loop fuel (swapped_list h.list p c) o)) head
          ∙ shown-swapped h.list h.head_index n p c list lp lc ne fuel h.head_index list.3,
      refl,
    )
