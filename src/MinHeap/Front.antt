-- ===== src/MinHeap/Front.antt =====
-- Labweek7/SLList_MinHeap.c: `pushHeap` puts the new student at the front of the linked list.
use mathlib.Core.Path.{subst}
use operating_system_homewor.Prelude.{
  ℕ, zero, suc, ◌+◌, ◌-◌, ◌/◌, ◌<◌, ◌≡◌, ◌≢◌, refl, sym, ap, ◌∙◌, Bool-cases, inl, inr, ◌&&◌,
  Option, some, List, arith, ltb, ◌==◌, if◌then◌else◌,
}
use operating_system_homewor.Prelude.Int.{ℤ, ltb_ℤ}
use operating_system_homewor.MinHeap.{
  Heap, swapped_list, swap_heap_node, sift_up, place_new, push_at, max_size,
  push_heap_by_id_and_name,
}
use operating_system_homewor.MinHeap.Program.{list_loop}
use operating_system_homewor.MinHeap.Push.{Spare, top_stack-size}
use operating_system_homewor.MinHeap.NewHead.{linked, linked-IsList, shown_new}
use operating_system_homewor.MinHeap.Kept.{HasList, followed}
use operating_system_homewor.MinHeap.Listed.{
  Card, IsList, shown, show_first, swapped-IsList, shown-swapped,
}

-- The node at place `c` is the head of a linked list that shows `students`.
abbrev pub Fronted : ℕ → Heap → ℕ → (ℕ → Option (List Card)) → Type 0
Fronted n h c students =
    IsList n h.list (some c) × ((fuel : ℕ) → shown (list_loop fuel h.list (some c)) ≡ students fuel)

moved_back : (p c : ℕ) → (if c == c then p else if p == c then c else c) ≡ p
moved_back p c = ground arith

-- The new node rises and stays the head.
sift_up-Fronted :
    (fuel n c : ℕ) (h : Heap) (id : ℤ) (students : ℕ → Option (List Card))
    → c < n
    → Fronted n h c students
    → Fronted n (sift_up fuel h id c).0 (sift_up fuel h id c).1 students
unfolding sift_up swap_heap_node
sift_up-Fronted zero n c h id students lt front = front
sift_up-Fronted (suc fuel) n c h id students lt (list, shows) =
    let p = (c - 1) / 2 in
    elim (Bool-cases (ltb_ℤ id (h.list p).id && ltb 0 c)) [
      | inr stays ↦ rw (stays, sift_up) (list, shows)
      | inl rises ↦
          let above : 0 < c = ground (arith, rises) in
          let lp : p < n = omega (arith, above) in
          let ne : p ≢ c = λ e. absurd (omega (arith, above)) in
          rw (rises, sift_up)
            (sift_up-Fronted fuel n p (swap_heap_node h p c) id students lp (
              subst (λ m. IsList n (swapped_list h.list p c) (some m)) (moved_back p c)
                  (swapped-IsList h.list (some c) n p c list lp lt ne),
              λ f.
                  ap (λ m. shown (list_loop f (swapped_list h.list p c) (some m)))
                    (sym (moved_back p c))
                  ∙ shown-swapped h.list (some c) n p c list lp lt ne f (some c) lt
                  ∙ shows f,
            ))
    ]

-- What a push does to the linked list.
abbrev pub InFront : Heap → ℤ → List ℕ → Heap → Type 0
InFront h id name r =
    HasList (h.size + 1) r
    × ((fuel : ℕ) → followed (suc fuel) r ≡ show_first (id, name) (followed fuel h))

push_at-InFront :
    (h : Heap) (id : ℤ) (name : List ℕ)
    → HasList h.size h
    → InFront h id name (push_at h h.size id name)
unfolding push_at place_new
push_at-InFront h id name list =
    let after = linked h.list h.size h.head_index id name in
    let (kept, shows) =
      sift_up-Fronted h.size (h.size + 1) h.size (place_new h h.size id name) id
        (λ fuel. shown (list_loop fuel after (some h.size))) (omega arith)
        (linked-IsList h.list h.size h.head_index id name list, (λ fuel. refl)) in
    (kept, λ fuel. shows (suc fuel) ∙ shown_new h.list h.size h.head_index id name list fuel)

-- In a heap that is not full, whose places in use are a linked list, `pushHeap` puts the new student
-- before all others in that list and leaves their order.
pub push_heap_by_id_and_name-InFront :
    (h : Heap) (id : ℤ) (name : List ℕ)
    → h.size < max_size
    → Spare h
    → HasList h.size h
    → (r : Heap) × (push_heap_by_id_and_name h id name ≡ some r) × InFront h id name r
unfolding push_heap_by_id_and_name
push_heap_by_id_and_name-InFront h id name lt spare list = (
  push_at h h.size id name,
  rw (top_stack-size h spare lt, push_heap_by_id_and_name) refl,
  push_at-InFront h id name list,
)
