-- ===== src/MinHeap/Push.antt =====
-- Labweek7/SLList_MinHeap.c, `pushHeap`: a new node rises until the heap is in order.
use mathlib.Core.Path.{subst, fun_ext}
use native.Mathlib.Decide.{ℕ_discrete}
use operating_system_homewor.Prelude.{
  ℕ, zero, suc, ◌+◌, ◌-◌, ◌*◌, ◌/◌, ◌<◌, ◌≤◌, ◌≡◌, ◌≢◌, refl, sym, ap, ◌∙◌, inl, inr, Bool-cases,
  true, false, ◌&&◌, arith, ltb, ◌==◌, Option, none, some, List, update,
}
use operating_system_homewor.Prelude.Int.{ℤ, pos_part, neg_part, ◌≤ℤ◌, ltb_ℤ}
use operating_system_homewor.MinHeap.{
  max_size, Stack, pop_stack, Student, Students, Heap, swap_heap_node, sift_up, place_new, push_at,
  push_heap_by_id_and_name, push_heap, top_stack, set_head_node, set_pre_at,
}
use operating_system_homewor.MinHeap.Swap.{key, exchanged, key-swap, size-swap, set_pre_at-id}
use operating_system_homewor.MinHeap.Sift.{Child, IsHeap, Permuted, same, exchange}

-- No node has a key above that of a child, but perhaps the parent of `c`, which is no larger than
-- the children of `c`.
abbrev pub HeapBut : ℕ → ℕ → (ℕ → ℤ) → Type 0
HeapBut c n f =
    ((q x : ℕ) → x ≢ c → Child q x → x < n → f q ≤ℤ f x)
    × ((q x : ℕ) → Child q c → Child c x → x < n → f q ≤ℤ f x)

exchange-HeapBut :
    (p n c : ℕ) (f : ℕ → ℤ)
    → Child p c
    → c < n
    → f c ≤ℤ f p
    → HeapBut c n f
    → HeapBut p n (exchanged f p c)
exchange-HeapBut p n c f child lt le (inner, outer) = (
  λ q x ne qx xn. ground (arith, child, qx, inner q x, outer p x, ne, le, ap f),
  λ q x qp px xn. ground (arith, child, qp, px, inner q p, inner p x, ap f),
)

pub parent-Child : (c : ℕ) → 0 < c → Child ((c - 1) / 2) c
parent-Child c lt = elim (ℕ_discrete c (2 * ((c - 1) / 2) + 1)) [
  | yes e ↦ inl e
  | no ne ↦ inr (omega (arith, ne))
]

-- What the loop comes to.
abbrev pub Risen : ℕ → Heap → Heap × ℕ → Type 0
Risen n h r = IsHeap n (key r.0) × Permuted n (key h) (key r.0) × (r.0.size ≡ h.size) × (r.1 < n)

stays-ordered :
    (h : Heap) (id : ℤ) (c q x : ℕ)
    → (ltb_ℤ id (h.list ((c - 1) / 2)).id && ltb 0 c) ≡ false
    → id ≡ key h c
    → x ≡ c
    → Child q x
    → key h q ≤ℤ key h x
stays-ordered h id c q x stays e here child =
    let up : q ≡ (c - 1) / 2 = ground (arith, child) in
    ground (
      arith,
      child,
      stays,
      ap (λ k. pos_part (key h k)) up,
      ap (λ k. neg_part (key h k)) up,
      ap (λ k. pos_part (key h k)) here,
      ap (λ k. neg_part (key h k)) here,
      ap pos_part e,
      ap neg_part e,
    )

rises-ordered : (a b c : ℤ) (d : ℕ) → (ltb_ℤ a b && ltb 0 d) ≡ true → a ≡ c → c ≤ℤ b
rises-ordered a b c d rises e = ground (arith, rises, ap pos_part e, ap neg_part e)

pub exchanged_first : (f : ℕ → ℤ) (p c : ℕ) → c ≢ p → exchanged f p c p ≡ f c
exchanged_first f p c ne = ground (arith, ne)

pub sift_up-Risen :
    (fuel c n : ℕ) (h : Heap) (id : ℤ)
    → c < n
    → c ≤ fuel
    → id ≡ key h c
    → HeapBut c n (key h)
    → Risen n h (sift_up fuel h id c)
unfolding sift_up
sift_up-Risen zero c n h id lt enough e (inner, outer) = (
  λ q x le child xn. inner q x (λ here. absurd (ground (arith, child))) child xn,
  same (λ i. refl),
  refl,
  lt,
)
sift_up-Risen (suc fuel) c n h id lt enough e but =
    let p = (c - 1) / 2 in
    elim (Bool-cases (ltb_ℤ id (h.list p).id && ltb 0 c)) [
      | inr stays ↦
          rw (stays, sift_up)
            (
              λ q x le child xn. elim (ℕ_discrete x c) [
                | yes here ↦ stays-ordered h id c q x stays e here child
                | no ne ↦ but.0 q x ne child xn
              ],
              same (λ i. refl),
              refl,
              lt,
            )
      | inl rises ↦
          let above : 0 < c = ground (arith, rises) in
          let child = parent-Child c above in
          let swapped = fun_ext (key-swap h p c) in
          let (ordered, permuted, size, low) =
            sift_up-Risen fuel p n (swap_heap_node h p c) id (omega (arith, above)) (omega arith)
              (e
                ∙ sym (
                    key-swap h p c p
                    ∙ exchanged_first (key h) p c (λ same_place. absurd (omega (arith, above)))))
              (subst (HeapBut p n) (sym swapped) (
                exchange-HeapBut p n c (key h) child lt
                  (rises-ordered id (key h p) (key h c) c rises e) but)) in
          rw (rises, sift_up)
            (
              ordered,
              exchange p c (omega (arith, above)) lt (
                  subst (λ f. Permuted n f (key (sift_up fuel (swap_heap_node h p c) id p).0))
                    swapped permuted),
              size ∙ size-swap h p c,
              low,
            )
    ]

-- The stack holds the unused places, the first one on top.
abbrev pub SpareIn : Stack → ℕ → Type 0
SpareIn stk size =
    ((i : ℕ) → i < stk.count → stk.index i ≡ max_size - i - 1) × (stk.count + size ≡ max_size)

abbrev pub Spare : Heap → Type 0
Spare h = SpareIn h.unused_indexs h.size

abbrev pub IsValid : Heap → Type 0
IsValid h = IsHeap h.size (key h) × Spare h

set_head_node-id :
    (l : Students) (i : ℕ) (head : Option ℕ) (k : ℕ) → (set_head_node l i head k).id ≡ (l k).id
set_head_node-id l i head k = ground (arith, ap (λ j. (l j).id))

update-id :
    (l : Students) (i k : ℕ) (id : ℤ) (name : List ℕ)
    → (update l i (record (l i) { id = id; name = name }) k).id ≡ update (λ j. (l j).id) i id k
update-id l i k id name = elim (Bool-cases (i == k)) [ inl e ↦ rw e refl | inr e ↦ rw e refl ]

key-place_new :
    (h : Heap) (c k : ℕ) (id : ℤ) (name : List ℕ)
    → key (place_new h c id name) k ≡ update (key h) c id k
unfolding place_new
key-place_new h c k id name =
    let l = update h.list c (record (h.list c) { id = id; name = name }) in
    set_head_node-id (set_pre_at l h.head_index (some c)) c h.head_index k
    ∙ set_pre_at-id l h.head_index (some c) k
    ∙ update-id h.list c k id name

sift_up-unused :
    (fuel c : ℕ) (h : Heap) (id : ℤ) → (sift_up fuel h id c).0.unused_indexs ≡ h.unused_indexs
unfolding sift_up swap_heap_node
sift_up-unused zero c h id = refl
sift_up-unused (suc fuel) c h id =
    elim (Bool-cases (ltb_ℤ id (h.list ((c - 1) / 2)).id && ltb 0 c)) [
      | inl rises ↦
          rw (rises, sift_up)
            (sift_up-unused fuel ((c - 1) / 2) (swap_heap_node h ((c - 1) / 2) c) id)
      | inr stays ↦ rw (stays, sift_up) refl
    ]

-- What a push comes to.
abbrev pub Pushed : Heap → ℤ → Heap → Type 0
Pushed h id r =
    IsValid r × (r.size ≡ h.size + 1) × Permuted (h.size + 1) (update (key h) h.size id) (key r)

pop_stack-SpareIn :
    (stk : Stack) (n : ℕ) → SpareIn stk n → n < max_size → SpareIn (pop_stack stk) (n + 1)
pop_stack-SpareIn stk n (places, total) lt = (λ i li. places i (omega arith), omega (arith, total))

push_at-Pushed :
    (h : Heap) (id : ℤ) (name : List ℕ)
    → h.size < max_size
    → IsValid h
    → Pushed h id (push_at h h.size id name)
unfolding push_at place_new
push_at-Pushed h id name lt (heap, spare) =
    let n = h.size + 1 in
    let placed = fun_ext (λ k. key-place_new h h.size k id name) in
    let (heap2, permuted, size, low) =
      sift_up-Risen h.size h.size n (place_new h h.size id name) id (omega arith) (omega arith)
        (sym (key-place_new h h.size h.size id name ∙ ground arith))
        (subst (HeapBut h.size n) (sym placed) (
          λ q x ne child xn. ground (arith, heap q x, ne, child),
          λ q x qc cx xn. absurd (ground (arith, cx)),
        )) in
    let unused = sift_up-unused h.size h.size (place_new h h.size id name) id in
    (
      (
        subst (λ m. IsHeap m (key (sift_up h.size (place_new h h.size id name) id h.size).0))
            (sym size) heap2,
        subst (λ stk. SpareIn stk (sift_up h.size (place_new h h.size id name) id h.size).0.size)
            (sym unused)
            (subst (SpareIn (pop_stack h.unused_indexs)) (sym size)
              (pop_stack-SpareIn h.unused_indexs h.size spare lt)),
      ),
      size,
      subst (λ f. Permuted n f (key (sift_up h.size (place_new h h.size id name) id h.size).0))
          placed permuted,
    )

zero_test : (n : ℕ) → 0 < n → (n == 0) ≡ false
zero_test n lt = ground arith

pub top_stack-size :
    (h : Heap) → Spare h → h.size < max_size → top_stack h.unused_indexs ≡ some h.size
top_stack-size h (places, total) lt =
    rw (zero_test h.unused_indexs.count (omega (arith, total)))
      (ap some (places (h.unused_indexs.count - 1) (omega (arith, total)) ∙ omega (arith, total)))

top_stack-full : (h : Heap) → Spare h → h.size ≡ max_size → top_stack h.unused_indexs ≡ none
top_stack-full h (places, total) full =
    let empty : h.unused_indexs.count ≡ 0 = omega (arith, total) in rw empty refl

-- In a valid heap that is not full `pushHeap` makes a valid heap of one more node, whose keys are
-- those from before and the new one, exchanged among the places in use.
pub push_heap_by_id_and_name-Pushed :
    (h : Heap) (id : ℤ) (name : List ℕ)
    → h.size < max_size
    → IsValid h
    → (r : Heap) × (push_heap_by_id_and_name h id name ≡ some r) × Pushed h id r
unfolding push_heap_by_id_and_name
push_heap_by_id_and_name-Pushed h id name lt valid = (
  push_at h h.size id name,
  rw (top_stack-size h valid.1 lt, push_heap_by_id_and_name) refl,
  push_at-Pushed h id name lt valid,
)

-- A full array refuses a new node.
pub push_heap_full :
    (h : Heap) (id : ℤ) (name : List ℕ)
    → Spare h
    → h.size ≡ max_size
    → push_heap_by_id_and_name h id name ≡ none
unfolding push_heap_by_id_and_name
push_heap_full h id name spare full =
    rw (top_stack-full h spare full, push_heap_by_id_and_name) refl

-- `pushHeap` takes the number and the name of the student, and nothing else.
pub push_heap-by_id :
    (h : Heap) (stu : Student) → push_heap h stu ≡ push_heap_by_id_and_name h stu.id stu.name
unfolding push_heap push_heap_by_id_and_name
push_heap-by_id h stu = refl
