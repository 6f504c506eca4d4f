-- ===== src/MinHeap/Links.antt =====
-- Labweek7/SLList_MinHeap.c, `swapHeapNode`: what each assignment does to the links, and what they
-- come to.
pub mod Moved
use mathlib.Core.Path.{subst}
use native.Mathlib.Decide.{ℕ_discrete}
use operating_system_homewor.Prelude.{
  ℕ, ◌<◌, ◌≡◌, ◌≢◌, refl, sym, ap, eqb_refl, ◌∙◌, Bool, true, false, not, ◌&&◌, Bool-cases, inl,
  inr, Option, none, some, List, arith, ◌==◌, if◌then◌else◌, update,
}
use operating_system_homewor.Prelude.Int.{ℤ}
use operating_system_homewor.MinHeap.Fields.{from, if-field}
use operating_system_homewor.MinHeap.{
  Student, Students, Heap, set_pre, set_next, relink_next, relink_pre, at, is_none, swapped_list,
  swapped_head, swap_heap_node,
}

-- The place where `i` is found after `p` and `c` have changed places.
abbrev pub moved : ℕ → ℕ → ℕ → ℕ
moved p c i = if c == i then p else if p == i then c else i

abbrev pub moved_link : ℕ → ℕ → Option ℕ → Option ℕ
moved_link p c none = none
moved_link p c (some i) = some (moved p c i)

pub set_pre-next :
    (l : Students) (i k : ℕ) (v : Option ℕ) → (set_pre l i v k).next_node ≡ (l k).next_node
set_pre-next l i k v = ground (arith, ap (λ j. (l j).next_node))

pub set_next-pre :
    (l : Students) (i k : ℕ) (v : Option ℕ) → (set_next l i v k).pre_node ≡ (l k).pre_node
set_next-pre l i k v = ground (arith, ap (λ j. (l j).pre_node))

pub set_next-next :
    (l : Students) (i k : ℕ) (v : Option ℕ)
    → (set_next l i v k).next_node ≡ (if i == k then v else (l k).next_node)
set_next-next l i k v = elim (Bool-cases (i == k)) [ inl e ↦ rw e refl | inr e ↦ rw e refl ]

pub set_pre-pre :
    (l : Students) (i k : ℕ) (v : Option ℕ)
    → (set_pre l i v k).pre_node ≡ (if i == k then v else (l k).pre_node)
set_pre-pre l i k v = elim (Bool-cases (i == k)) [ inl e ↦ rw e refl | inr e ↦ rw e refl ]

pub relink_pre-next :
    (l : Students) (o : Option ℕ) (other v k : ℕ)
    → (relink_pre l o other v k).next_node ≡ (l k).next_node
unfolding relink_pre
relink_pre-next l none other v k = refl
relink_pre-next l (some i) other v k = elim (Bool-cases (i == other)) [
  | inl e ↦ rw e refl
  | inr e ↦ rw e (set_pre-next l i k (some v))
]

pub relink_next-pre :
    (l : Students) (o : Option ℕ) (other v k : ℕ)
    → (relink_next l o other v k).pre_node ≡ (l k).pre_node
unfolding relink_next
relink_next-pre l none other v k = refl
relink_next-pre l (some i) other v k = elim (Bool-cases (i == other)) [
  | inl e ↦ rw e refl
  | inr e ↦ rw e (set_next-pre l i k (some v))
]

pub relink_next-next :
    (l : Students) (o : Option ℕ) (other v k : ℕ)
    → (relink_next l o other v k).next_node
      ≡ (if at o k && not (at o other) then some v else (l k).next_node)
unfolding relink_next
relink_next-next l none other v k = refl
relink_next-next l (some i) other v k = elim (Bool-cases (i == other)) [
  | inl e ↦ elim (Bool-cases (i == k)) [ inl f ↦ rw (e, f) refl | inr f ↦ rw (e, f) refl ]
  | inr e ↦ elim (Bool-cases (i == k)) [ inl f ↦ rw (e, f) refl | inr f ↦ rw (e, f) refl ]
]

pub relink_pre-pre :
    (l : Students) (o : Option ℕ) (other v k : ℕ)
    → (relink_pre l o other v k).pre_node
      ≡ (if at o k && not (at o other) then some v else (l k).pre_node)
unfolding relink_pre
relink_pre-pre l none other v k = refl
relink_pre-pre l (some i) other v k = elim (Bool-cases (i == other)) [
  | inl e ↦ elim (Bool-cases (i == k)) [ inl f ↦ rw (e, f) refl | inr f ↦ rw (e, f) refl ]
  | inr e ↦ elim (Bool-cases (i == k)) [ inl f ↦ rw (e, f) refl | inr f ↦ rw (e, f) refl ]
]

-- The links of node `k` after the assignments, from those of the two nodes.
abbrev pub next_after : ℕ → ℕ → ℕ → Option ℕ → Option ℕ → Option ℕ → Option ℕ → Option ℕ
next_after p c k pp pn cp base =
    if at pn c && (c == k)
    then some p
    else if at pp c && (p == k)
    then some c
    else if at cp k && not (at cp p)
    then some p
    else if at pp k && not (at pp c)
    then some c
    else base

-- An assignment under `if`.
pub if-next :
    (b : Bool) (l m : Students) (i k : ℕ) (v : Option ℕ)
    → (m k).next_node ≡ (if i == k then v else (l k).next_node)
    → ((if b then m else l) k).next_node ≡ (if b && (i == k) then v else (l k).next_node)
if-next true l m i k v e = e
if-next false l m i k v e = refl

pub if-pre :
    (b : Bool) (l m : Students) (i k : ℕ) (v : Option ℕ)
    → (m k).pre_node ≡ (if i == k then v else (l k).pre_node)
    → ((if b then m else l) k).pre_node ≡ (if b && (i == k) then v else (l k).pre_node)
if-pre true l m i k v e = e
if-pre false l m i k v e = refl

-- The three cases of `k`: the child, the parent, and any other node.
next_after-child :
    (p c : ℕ) (pp pn cp : Option ℕ)
    → p ≢ c
    → at pn p ≡ false
    → at cp c ≡ false
    → next_after p c c pp pn cp pn ≡ moved_link p c pn
next_after-child p c pp none cp ne a1 a4 = ground (arith, ne, a1, a4)
next_after-child p c pp (some x) cp ne a1 a4 = ground (arith, ne, a1, a4)

next_after-parent :
    (p c : ℕ) (pp pn cp cn : Option ℕ)
    → p ≢ c
    → at pp p ≡ false
    → at cn c ≡ false
    → at cn p ≡ at pp c
    → next_after p c p pp pn cp cn ≡ moved_link p c cn
next_after-parent p c pp pn cp none ne a2 a3 b2 = ground (arith, ne, a2, a3, b2)
next_after-parent p c pp pn cp (some x) ne a2 a3 b2 = ground (arith, ne, a2, a3, b2)

next_after-other :
    (p c k : ℕ) (pp pn cp kn : Option ℕ)
    → p ≢ k
    → c ≢ k
    → at kn p ≡ at pp k
    → at kn c ≡ at cp k
    → (at cp k ≡ true → at cp p ≡ false)
    → (at pp k ≡ true → at pp c ≡ false)
    → next_after p c k pp pn cp kn ≡ moved_link p c kn
next_after-other p c k pp pn cp none np nc d1 d2 e1 e2 = ground (arith, np, nc, d1, d2)
next_after-other p c k pp pn cp (some x) np nc d1 d2 e1 e2 = ground (arith, np, nc, d1, d2, e1, e2)

at_unique : (o : Option ℕ) (i j : ℕ) → i ≢ j → at o i ≡ true → at o j ≡ false
at_unique none i j ne h = absurd cc
at_unique (some x) i j ne h = ground (arith, ne, h)

-- The links `f` and `g` of the nodes below `n` are the two directions of one another, and no node is
-- linked to itself.
abbrev pub Paired : ℕ → (ℕ → Option ℕ) → (ℕ → Option ℕ) → Type 0
Paired n f g =
    ((i j : ℕ) → i < n → j < n → at (f i) j ≡ at (g j) i)
    × ((i : ℕ) → i < n → (at (f i) i ≡ false) × (at (g i) i ≡ false))

from_second : (f : ℕ → Option ℕ) (p c : ℕ) → from f p c c ≡ f p
from_second f p c = ground arith

from_first : (f : ℕ → Option ℕ) (p c : ℕ) → p ≢ c → from f p c p ≡ f c
from_first f p c ne = ground (arith, ne)

from_other : (f : ℕ → Option ℕ) (p c k : ℕ) → p ≢ k → c ≢ k → from f p c k ≡ f k
from_other f p c k np nc = ground (arith, np, nc)

-- In one direction the assignments make of every link the link to where its node is now.
pub next_after-moved :
    (f g : ℕ → Option ℕ) (n p c k : ℕ)
    → Paired n f g
    → p < n
    → c < n
    → p ≢ c
    → k < n
    → next_after p c k (g p) (f p) (g c) (from f p c k) ≡ moved_link p c (from f p c k)
next_after-moved f g n p c k (both, loopless) lp lc ne lk = elim (ℕ_discrete c k) [
  | yes ck ↦
      subst (λ m. next_after p c m (g p) (f p) (g c) (from f p c m) ≡ moved_link p c (from f p c m))
        ck
        (subst (λ b. next_after p c c (g p) (f p) (g c) b ≡ moved_link p c b)
          (sym (from_second f p c))
          (next_after-child p c (g p) (f p) (g c) ne (loopless p lp).0 (loopless c lc).1))
  | no nck ↦ elim (ℕ_discrete p k) [
    | yes pk ↦
        subst
          (λ m. next_after p c m (g p) (f p) (g c) (from f p c m) ≡ moved_link p c (from f p c m))
          pk
          (subst (λ b. next_after p c p (g p) (f p) (g c) b ≡ moved_link p c b)
            (sym (from_first f p c ne))
            (next_after-parent p c (g p) (f p) (g c) (f c) ne (loopless p lp).1 (loopless c lc).0
              (both c p lc lp)))
    | no npk ↦
        subst (λ b. next_after p c k (g p) (f p) (g c) b ≡ moved_link p c b)
          (sym (from_other f p c k npk nck))
          (next_after-other p c k (g p) (f p) (g c) (f k) npk nck (both k p lk lp) (both k c lk lc)
            (at_unique (g c) k p (λ e. npk (sym e))) (at_unique (g p) k c (λ e. nck (sym e))))
  ]
]

-- The two tests for neighbours may come in either order.
pub next_after-order :
    (p c k : ℕ) (pp pn cp base : Option ℕ)
    → p ≢ c
    → (if at pp c && (p == k)
        then some c
        else if at pn c && (c == k)
        then some p
        else if at cp k && not (at cp p)
        then some p
        else if at pp k && not (at pp c)
        then some c
        else base)
      ≡ next_after p c k pp pn cp base
next_after-order p c k pp pn cp base ne = ground (arith, ne)
