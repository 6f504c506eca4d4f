-- ===== src/MinHeap/Sift.antt =====
-- Labweek7/SLList_MinHeap.c, the loop of `initialHeap`: a node sinks until the heap is in order.
use mathlib.Core.Path.{subst, fun_ext}
use native.Mathlib.Decide.{ℕ_discrete}
use operating_system_homewor.Prelude.{
  ℕ, zero, suc, ◌+◌, ◌*◌, ◌<◌, ◌≤◌, ◌≡◌, ◌≢◌, refl, sym, ap, ◌∙◌, ◌⊎◌, inl, inr, Bool-cases, true,
  ◌&&◌, arith, ltb, ltb→lt, ltb→le,
}
use operating_system_homewor.Prelude.Int.{ℤ, pos_part, neg_part, ◌≤ℤ◌, ltb_ℤ}
use operating_system_homewor.MinHeap.{Heap, smaller_child, swap_heap_node, sift_down}
use operating_system_homewor.MinHeap.Swap.{key, exchanged, key-swap, size-swap}

-- `c` is a child of `q` in the tree.
abbrev pub Child : ℕ → ℕ → Type 0
Child q c = (c ≡ 2 * q + 1) ⊎ (c ≡ 2 * q + 2)

-- Among the first `n` places, no node from `k` on has a key above that of a child.
abbrev pub OrderedFrom : ℕ → ℕ → (ℕ → ℤ) → Type 0
OrderedFrom k n f = (q c : ℕ) → k ≤ q → Child q c → c < n → f q ≤ℤ f c

abbrev pub IsHeap : ℕ → (ℕ → ℤ) → Type 0
IsHeap n f = OrderedFrom 0 n f

-- The same, but for the node `p`, whose parent is no larger than the children of `p`.
abbrev pub OrderedBut : ℕ → ℕ → ℕ → (ℕ → ℤ) → Type 0
OrderedBut p k n f =
    ((q c : ℕ) → k ≤ q → q ≢ p → Child q c → c < n → f q ≤ℤ f c)
    × ((q c : ℕ) → k ≤ q → Child q p → Child p c → c < n → f q ≤ℤ f c)

exchange-OrderedBut :
    (p k n c : ℕ) (f : ℕ → ℤ)
    → k ≤ p
    → Child p c
    → c < n
    → ((d : ℕ) → Child p d → d < n → f c ≤ℤ f d)
    → f c ≤ℤ f p
    → OrderedBut p k n f
    → OrderedBut c k n (exchanged f p c)
exchange-OrderedBut p k n c f kp child lt least above (inner, outer) = (
  λ q x kq qc qx xn.
      ground (arith, child, qx, qc, least x, inner q x kq, outer q c kq, inner q c kq, above, ap f),
  λ q x kq qc cx xn. ground (arith, child, qc, cx, inner c x, ap f),
)

-- `g` comes from `f` by exchanges among the first `n` places.
pub data Permuted (n : ℕ) : (ℕ → ℤ) → (ℕ → ℤ) → Type 0 where
  same : {f g : ℕ → ℤ} → ((i : ℕ) → f i ≡ g i) → Permuted n f g
  exchange :
      {f g : ℕ → ℤ} (p c : ℕ) → p < n → c < n → Permuted n (exchanged f p c) g → Permuted n f g

pub Permuted-trans : (n : ℕ) (f g k : ℕ → ℤ) → Permuted n f g → Permuted n g k → Permuted n f k
Permuted-trans n f g k (same e) q = subst (λ r. Permuted n r k) (sym (fun_ext e)) q
Permuted-trans n f g k (exchange p c lp lc r) q =
    exchange p c lp lc (Permuted-trans n (exchanged f p c) g k r q)

-- The child that the loop compares is the smallest.
pub smaller_child-least :
    (h : Heap) (n p : ℕ)
    → 2 * p + 1 < n
    → Child p (smaller_child h n (2 * p + 1))
      × (smaller_child h n (2 * p + 1) < n)
      × ((d : ℕ) → Child p d → d < n → key h (smaller_child h n (2 * p + 1)) ≤ℤ key h d)
smaller_child-least h n p lt =
    elim (Bool-cases
      (ltb (2 * p + 1 + 1) n && ltb_ℤ (h.list (2 * p + 1 + 1)).id (h.list (2 * p + 1)).id)) [
        | inl second ↦ rw second (
          inr (omega arith),
          ground (arith, second),
          λ d child ld. ground (arith, second, child, ap (key h)),
        )
        | inr first ↦
            rw first (inl refl, lt, λ d child ld. ground (arith, first, child, ap (key h)))
      ]

-- What the loop comes to from a node `p`.
abbrev pub Sunk : ℕ → ℕ → Heap → Heap → Type 0
Sunk k n h r = OrderedFrom k n (key r) × Permuted n (key h) (key r) × (r.size ≡ h.size)

no_child : (p k n : ℕ) (h : Heap) → n ≤ 2 * p + 1 → OrderedBut p k n (key h) → Sunk k n h h
no_child p k n h le (inner, outer) =
    (λ q c kq child lt. inner q c kq (λ e. absurd (ground arith)) child lt, same (λ i. refl), refl)

pub exchanged_second : (f : ℕ → ℤ) (p c : ℕ) → exchanged f p c c ≡ f p
exchanged_second f p c = ground arith

below : (a b c : ℤ) → ltb_ℤ a b ≡ true → b ≡ c → a ≤ℤ c
below a b c lt e = ground (arith, ap pos_part e, ap neg_part e)

pub sift_down-Sunk :
    (fuel p k n : ℕ) (h : Heap) (id : ℤ)
    → k ≤ p
    → n ≤ p + fuel
    → id ≡ key h p
    → OrderedBut p k n (key h)
    → Sunk k n h (sift_down fuel h n id p)
unfolding sift_down
sift_down-Sunk zero p k n h id kp enough e but = no_child p k n h (omega arith) but
sift_down-Sunk (suc fuel) p k n h id kp enough e but = elim (Bool-cases (ltb (2 * p + 1) n)) [
  | inr none_left ↦
      rw (none_left, sift_down) (no_child p k n h (ltb→le (2 * p + 1) n none_left) but)
  | inl some_left ↦
      let c = smaller_child h n (2 * p + 1) in
      let (child, lt, least) = smaller_child-least h n p (ltb→lt (2 * p + 1) n some_left) in
      elim (Bool-cases (ltb_ℤ (h.list c).id id)) [
        | inr stays ↦
            rw (some_left, stays, sift_down)
              (
                λ q d kq qd ld. elim (ℕ_discrete q p) [
                  | yes here ↦ ground (arith, least d, stays, e, here, qd, ap (key h) here)
                  | no ne ↦ but.0 q d kq ne qd ld
                ],
                same (λ i. refl),
                refl,
              )
        | inl sinks ↦
            let swapped = fun_ext (key-swap h p c) in
            let (ordered, permuted, size) =
              sift_down-Sunk fuel c k n (swap_heap_node h p c) id (ground (arith, child))
                (ground (arith, child)) (e ∙ sym (key-swap h p c c ∙ exchanged_second (key h) p c))
                (subst (OrderedBut c k n) (sym swapped) (
                  exchange-OrderedBut p k n c (key h) kp child lt least
                    (below (key h c) id (key h p) sinks e) but)) in
            rw (some_left, sinks, sift_down)
              (
                ordered,
                exchange p c (ground (arith, child)) lt (
                    subst (λ f. Permuted n f (key (sift_down fuel (swap_heap_node h p c) n id c)))
                      swapped permuted),
                size ∙ size-swap h p c,
              )
      ]
]
