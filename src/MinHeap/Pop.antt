-- ===== src/MinHeap/Pop.antt =====
-- Labweek7/SLList_MinHeap.c, `popHeap`: the root goes to the last place, and the others stay a heap.
use mathlib.Core.Path.{subst, fun_ext}
use native.Mathlib.Decide.{ℕ_discrete}
use operating_system_homewor.Prelude.{
  ℕ, zero, suc, ◌+◌, ◌-◌, ◌*◌, ◌/◌, ◌<◌, ◌≤◌, ◌≡◌, ◌≢◌, refl, sym, ap, ◌∙◌, inl, inr, Bool-cases,
  true, false, not, ◌&&◌, arith, ltb, ◌==◌, if◌then◌else◌, none, ltb→lt,
}
use operating_system_homewor.Prelude.Int.{ℤ, pos_part, neg_part, ◌≤ℤ◌, ltb_ℤ}
use operating_system_homewor.MinHeap.{
  Stack, push_stack, Heap, swap_heap_node, sift_down, smaller_child, pop_loop, unlink_node,
  give_back, pop_heap,
}
use operating_system_homewor.MinHeap.Swap.{
  key, exchanged, key-swap, size-swap, set_pre_at-id, set_next_at-id, clear_flag-id,
}
use operating_system_homewor.MinHeap.Sift.{
  IsHeap, OrderedBut, Permuted, same, exchange, exchanged_second, sift_down-Sunk,
}
use operating_system_homewor.MinHeap.Push.{parent-Child, exchanged_first, IsValid, SpareIn}

-- The loop of `popHeap` is that of `initialHeap`.
low_child :
    (h : Heap) (high : ℕ)
    → 2 * high + 1 < h.size
    → (if not (2 * high + 1 == h.size - 1)
          && ltb_ℤ (h.list (2 * high + 1 + 1)).id (h.list (2 * high + 1)).id
        then 2 * high + 1 + 1
        else 2 * high + 1)
      ≡ smaller_child h h.size (2 * high + 1)
low_child h high lt = ground arith

pop_loop-sift_down :
    (fuel high : ℕ) (h : Heap) (id : ℤ) → pop_loop fuel h id high ≡ sift_down fuel h h.size id high
unfolding pop_loop sift_down
pop_loop-sift_down zero high h id = refl
pop_loop-sift_down (suc fuel) high h id = elim (Bool-cases (ltb (2 * high + 1) h.size)) [
  | inr none_left ↦ rw (none_left, pop_loop, sift_down) refl
  | inl some_left ↦
      let low = low_child h high (ltb→lt (2 * high + 1) h.size some_left) in
      rw (some_left, low, pop_loop, sift_down)
        (ap (λ r. if ltb_ℤ (h.list (smaller_child h h.size (2 * high + 1))).id id then r else h)
          (subst
            (λ m.
              pop_loop fuel (swap_heap_node h high (smaller_child h h.size (2 * high + 1))) id
                (smaller_child h h.size (2 * high + 1))
              ≡ sift_down fuel (swap_heap_node h high (smaller_child h h.size (2 * high + 1))) m id
                  (smaller_child h h.size (2 * high + 1)))
            (size-swap h high (smaller_child h h.size (2 * high + 1)))
            (pop_loop-sift_down fuel (smaller_child h h.size (2 * high + 1))
              (swap_heap_node h high (smaller_child h h.size (2 * high + 1))) id)))
]

sift_down-unused :
    (fuel p n : ℕ) (h : Heap) (id : ℤ) → (sift_down fuel h n id p).unused_indexs ≡ h.unused_indexs
unfolding sift_down swap_heap_node
sift_down-unused zero p n h id = refl
sift_down-unused (suc fuel) p n h id =
    let c = smaller_child h n (2 * p + 1) in
    elim (Bool-cases (ltb (2 * p + 1) n)) [
      | inr none_left ↦ rw (none_left, sift_down) refl
      | inl some_left ↦ elim (Bool-cases (ltb_ℤ (h.list c).id id)) [
        | inr stays ↦ rw (some_left, stays, sift_down) refl
        | inl sinks ↦
            rw (some_left, sinks, sift_down) (sift_down-unused fuel c n (swap_heap_node h p c) id)
      ]
    ]

Permuted-widen : (m n : ℕ) (f g : ℕ → ℤ) → m ≤ n → Permuted m f g → Permuted n f g
Permuted-widen m n f g le (same e) = same e
Permuted-widen m n f g le (exchange p c lp lc r) =
    exchange p c (omega arith) (omega arith) (Permuted-widen m n (exchanged f p c) g le r)

-- Exchanges below `m` leave place `m` alone.
Permuted-above : (m : ℕ) (f g : ℕ → ℤ) → Permuted m f g → f m ≡ g m
Permuted-above m f g (same e) = e m
Permuted-above m f g (exchange p c lp lc r) =
    sym (exchanged_other f p c m (omega arith) (omega arith))
    ∙ Permuted-above m (exchanged f p c) g r
  where
    exchanged_other : (f : ℕ → ℤ) (p c k : ℕ) → p < k → c < k → exchanged f p c k ≡ f k
    exchanged_other f p c k lp lc = ground arith

key-unlink_node : (h : Heap) (i k : ℕ) → key (unlink_node h i) k ≡ key h k
unfolding unlink_node
key-unlink_node h i k =
    set_pre_at-id _ (h.list i).next_node (h.list i).pre_node k
    ∙ set_next_at-id h.list (h.list i).pre_node (h.list i).next_node k

push_stack-SpareIn :
    (stk : Stack) (n : ℕ) → SpareIn stk n → 0 < n → SpareIn (push_stack stk (n - 1)) (n - 1)
push_stack-SpareIn stk n (places, total) lt =
    (λ i li. ground (arith, places i, total), omega (arith, total))

-- The root of a heap has the least key.
pub root_least : (n : ℕ) (f : ℕ → ℤ) → IsHeap n f → (i : ℕ) → i < n → f 0 ≤ℤ f i
root_least n f heap i lt = by_fuel (i + 1) i (omega arith) lt
  where
    by_fuel : (fuel i : ℕ) → i < fuel → i < n → f 0 ≤ℤ f i
    by_fuel zero i bound lt = absurd (omega arith)
    by_fuel (suc fuel) i bound lt = elim (ℕ_discrete i 0) [
      | yes e ↦ (let all = ap f e in omega (arith, ap pos_part all, ap neg_part all))
      | no ne ↦
          (let up = by_fuel fuel ((i - 1) / 2) (omega (arith, ne)) (omega (arith, ne)) in
            let child =
              heap ((i - 1) / 2) i (omega arith) (parent-Child i (omega (arith, ne))) lt in
            omega (arith, up, child))
    ]

-- What a pop comes to.
abbrev pub Popped : Heap → Heap → Type 0
Popped h r =
    IsValid r
    × (r.size + 1 ≡ h.size)
    × Permuted h.size (key h) (key r)
    × (key r r.size ≡ key h 0)
    × ((i : ℕ) → i < h.size → key h 0 ≤ℤ key h i)

eqb_of : (a b : ℕ) → a ≡ b → (a == b) ≡ true
eqb_of a b e = ground (arith, e)

eqb_ne : (a b : ℕ) → a ≢ b → (a == b) ≡ false
eqb_ne a b ne = ground (arith, ne)

-- The heap before the last node leaves the linked list.
abbrev sunk : Heap → Heap
sunk h =
    sift_down (h.size - 1) (swap_heap_node (give_back h) 0 (h.size - 1)) (h.size - 1)
      (key h (h.size - 1)) 0

abbrev emptied : Heap → Heap
emptied h = record (give_back h) { head_index = none }

pop_heap_one : (h : Heap) → h.size ≡ 1 → pop_heap h ≡ emptied h
unfolding pop_heap
pop_heap_one h one = rw (eqb_ne h.size 0 (omega (arith, one)), eqb_of h.size 1 one, pop_heap) refl

pop_heap_more : (h : Heap) → 1 < h.size → pop_heap h ≡ unlink_node (sunk h) (h.size - 1)
unfolding pop_heap swap_heap_node
pop_heap_more h more =
    rw
      (
        eqb_ne h.size 0 (omega (arith, more)),
        eqb_ne h.size 1 (omega (arith, more)),
        pop_heap,
        pop_loop-sift_down (h.size - 1) 0 (swap_heap_node (give_back h) 0 (h.size - 1))
            (key h (h.size - 1)),
      )
      refl

emptied-Popped : (h : Heap) → h.size ≡ 1 → IsValid h → Popped h (emptied h)
emptied-Popped h one (heap, spare) = (
  (
    (λ q c le child lt. absurd (omega (arith, one))),
    push_stack-SpareIn h.unused_indexs h.size spare (omega arith),
  ),
  omega (arith, one),
  same (λ i. sym (clear_flag-id h.list h.head_index i)),
  clear_flag-id h.list h.head_index (h.size - 1) ∙ ap (key h) (omega (arith, one)),
  λ i lt. root_least h.size (key h) heap i lt,
)

-- The root and the last node have changed places; the others are in order below the root.
rest-OrderedBut : (n : ℕ) (f : ℕ → ℤ) → IsHeap n f → OrderedBut 0 0 (n - 1) (exchanged f 0 (n - 1))
rest-OrderedBut n f heap = (
  λ q c le ne child lt. ground (arith, ne, child, heap q c),
  λ q c le root child lt. absurd (ground (arith, root)),
)

size-unlink_node : (h : Heap) (i : ℕ) → (unlink_node h i).size ≡ h.size
unfolding unlink_node
size-unlink_node h i = refl

unused-unlink_node : (h : Heap) (i : ℕ) → (unlink_node h i).unused_indexs ≡ h.unused_indexs
unfolding unlink_node
unused-unlink_node h i = refl

unused-swap : (h : Heap) (p c : ℕ) → (swap_heap_node h p c).unused_indexs ≡ h.unused_indexs
unfolding swap_heap_node
unused-swap h p c = refl

sunk-Popped : (h : Heap) → 1 < h.size → IsValid h → Popped h (unlink_node (sunk h) (h.size - 1))
sunk-Popped h more (heap, spare) =
    let m = h.size - 1 in
    let back = fun_ext (λ i. clear_flag-id h.list h.head_index i) in
    let keys : key (swap_heap_node (give_back h) 0 m) ≡ exchanged (key h) 0 m =
      fun_ext (key-swap (give_back h) 0 m) ∙ ap (λ f. exchanged f 0 m) back in
    let last : key h m ≡ key (swap_heap_node (give_back h) 0 m) 0 =
      sym (ap (λ f. f 0) keys ∙ exchanged_first (key h) 0 m (omega (arith, more))) in
    let (ordered, permuted, size) =
      sift_down-Sunk m 0 0 m (swap_heap_node (give_back h) 0 m) (key h m) (omega arith)
        (omega arith) last
        (subst (OrderedBut 0 0 m) (sym keys) (rest-OrderedBut h.size (key h) heap)) in
    let after = fun_ext (key-unlink_node (sunk h) m) in
    let r = unlink_node (sunk h) m in
    let size_r : r.size ≡ m = size-unlink_node (sunk h) m ∙ size ∙ size-swap (give_back h) 0 m in
    let unused_r : r.unused_indexs ≡ push_stack h.unused_indexs m =
      unused-unlink_node (sunk h) m
      ∙ sift_down-unused m 0 m (swap_heap_node (give_back h) 0 m) (key h m)
      ∙ unused-swap (give_back h) 0 m in
    (
      (
        subst (λ k. IsHeap k (key r)) (sym size_r) (subst (IsHeap m) (sym after) ordered),
        subst (SpareIn r.unused_indexs) (sym size_r) (
            subst (λ stk. SpareIn stk m) (sym unused_r)
              (push_stack-SpareIn h.unused_indexs h.size spare (omega arith))),
      ),
      omega (arith, size_r),
      exchange 0 m (omega arith) (omega arith) (
          subst (λ f. Permuted h.size f (key r)) keys
            (subst (Permuted h.size (key (swap_heap_node (give_back h) 0 m))) (sym after) (
              Permuted-widen m h.size (key (swap_heap_node (give_back h) 0 m)) (key (sunk h))
                (omega arith) permuted))),
      ap (key r) size_r
          ∙ ap (λ f. f m) after
          ∙ sym (Permuted-above m (key (swap_heap_node (give_back h) 0 m)) (key (sunk h)) permuted)
          ∙ ap (λ f. f m) keys
          ∙ exchanged_second (key h) 0 m,
      root_least h.size (key h) heap,
    )

-- From a valid heap that is not empty `popHeap` takes a student with the least key: its key ends
-- behind the places in use, the others are a valid heap, and no key is lost.
pub pop_heap-Popped : (h : Heap) → 0 < h.size → IsValid h → Popped h (pop_heap h)
pop_heap-Popped h lt (heap, spare) = elim (ℕ_discrete h.size 1) [
  | yes one ↦ subst (Popped h) (sym (pop_heap_one h one)) (emptied-Popped h one (heap, spare))
  | no ne ↦
      let more : 1 < h.size = omega (arith, ne) in
      subst (Popped h) (sym (pop_heap_more h more)) (sunk-Popped h more (heap, spare))
]
