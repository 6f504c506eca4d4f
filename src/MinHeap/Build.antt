-- ===== src/MinHeap/Build.antt =====
-- Labweek7/SLList_MinHeap.c, `initialHeap`: any list becomes a heap.
use mathlib.Core.Path.{subst}
use operating_system_homewor.Prelude.{ℕ, zero, suc, ◌/◌, ◌≤◌, ◌≡◌, refl, sym, ◌∙◌, arith}
use operating_system_homewor.MinHeap.{Heap, sift_down, build_loop, initial_heap}
use operating_system_homewor.MinHeap.Swap.{key}
use operating_system_homewor.MinHeap.Sift.{
  OrderedFrom, IsHeap, Permuted, same, Permuted-trans, Sunk, sift_down-Sunk,
}

build_loop-Sunk :
    (i : ℕ) (h : Heap)
    → i ≤ h.size
    → OrderedFrom i h.size (key h)
    → Sunk 0 h.size h (build_loop i h)
unfolding build_loop
build_loop-Sunk zero h le ordered = (ordered, same (λ i. refl), refl)
build_loop-Sunk (suc i) h le ordered =
    let n = h.size in
    let r = sift_down n h n (key h i) i in
    let (from, permuted, size) =
      sift_down-Sunk n i i n h (key h i) (omega arith) (omega arith) refl (
        (λ q c iq ne child lt. ordered q c (omega (arith, ne)) child lt),
        λ q c iq above child lt. absurd (ground (arith, above)),
      ) in
    let (from2, permuted2, size2) =
      build_loop-Sunk i r (omega (arith, size))
        (subst (λ m. OrderedFrom i m (key r)) (sym size) from) in
    (
      subst (λ m. OrderedFrom 0 m (key (build_loop i r))) size from2,
      Permuted-trans n (key h) (key r) (key (build_loop i r)) permuted
          (subst (λ m. Permuted m (key r) (key (build_loop i r))) size permuted2),
      size2 ∙ size,
    )

-- Whatever the keys are, after `initialHeap` no node has a key above that of a child, and the keys
-- are those from before, exchanged among the places in use.
pub initial_heap-IsHeap :
    (h : Heap)
    → IsHeap h.size (key (initial_heap h))
      × Permuted h.size (key h) (key (initial_heap h))
      × ((initial_heap h).size ≡ h.size)
unfolding initial_heap
initial_heap-IsHeap h =
    build_loop-Sunk (h.size / 2) h (omega arith) (λ q c iq child lt. absurd (ground (arith, child)))
