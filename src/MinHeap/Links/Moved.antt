-- ===== src/MinHeap/Links/Moved.antt =====
-- Labweek7/SLList_MinHeap.c, `swapHeapNode`: the links of every node after the swap are its old links
-- with the two places exchanged.
use operating_system_homewor.Prelude.{
  ℕ, ◌<◌, ◌≡◌, ◌≢◌, sym, ap, ◌∙◌, not, ◌&&◌, some, ◌==◌, if◌then◌else◌, update,
}
use operating_system_homewor.MinHeap.{
  Students, set_pre, set_next, relink_next, relink_pre, at, swapped_list,
}
use operating_system_homewor.MinHeap.Fields.{from, if-field}
use operating_system_homewor.MinHeap.Links.{
  moved_link, set_pre-next, set_next-pre, set_next-next, set_pre-pre, relink_pre-next,
  relink_next-pre, relink_next-next, relink_pre-pre, if-next, if-pre, next_after, Paired,
  next_after-moved, next_after-order,
}

next-swapped :
    (l : Students) (p c k : ℕ)
    → (swapped_list l p c k).next_node
      ≡ next_after p c k
          (l p).pre_node
          (l p).next_node
          (l c).pre_node
          (from (λ i. (l i).next_node) p c k)
unfolding swapped_list
next-swapped l p c k =
    let l1 : Students = update (update l p (l c)) c (l p) in
    let l2 = relink_next l1 (l p).pre_node c c in
    let l3 = relink_pre l2 (l p).next_node c c in
    let l4 = relink_next l3 (l c).pre_node p p in
    let l5 = relink_pre l4 (l c).next_node p p in
    let m6 = set_pre (set_next l5 p (some c)) c (some p) in
    let l6 : Students = if at (l p).pre_node c then m6 else l5 in
    let m7 = set_next (set_pre l6 p (some c)) c (some p) in
    let first : (l2 k).next_node ≡ (
        if at (l p).pre_node k && not (at (l p).pre_node c)
        then some c
        else from (λ i. (l i).next_node) p c k) =
      relink_next-next l1 (l p).pre_node c c k
      ∙ ap (λ z. if at (l p).pre_node k && not (at (l p).pre_node c) then some c else z)
          (if-field (λ s. s.next_node) (c == k) (p == k) (l p) (l c) (l k)) in
    let second : (l5 k).next_node
        ≡ (if at (l c).pre_node k && not (at (l c).pre_node p) then some p else (l2 k).next_node) =
      relink_pre-next l4 (l c).next_node p p k
      ∙ relink_next-next l3 (l c).pre_node p p k
      ∙ ap (λ z. if at (l c).pre_node k && not (at (l c).pre_node p) then some p else z)
          (relink_pre-next l2 (l p).next_node c c k) in
    let third : (l6 k).next_node
        ≡ (if at (l p).pre_node c && (p == k) then some c else (l5 k).next_node) =
      if-next (at (l p).pre_node c) l5 m6 p k (some c)
        (set_pre-next (set_next l5 p (some c)) c k (some p) ∙ set_next-next l5 p k (some c)) in
    if-next (at (l p).next_node c) l6 m7 c k (some p) (
      set_next-next (set_pre l6 p (some c)) c k (some p)
      ∙ ap (λ z. if c == k then some p else z) (set_pre-next l6 p k (some c)))
    ∙ ap (λ z. if at (l p).next_node c && (c == k) then some p else z)
        (third
          ∙ ap (λ z. if at (l p).pre_node c && (p == k) then some c else z)
              (second
                ∙ ap (λ z. if at (l c).pre_node k && not (at (l c).pre_node p) then some p else z)
                    first))

pre-swapped :
    (l : Students) (p c k : ℕ)
    → p ≢ c
    → (swapped_list l p c k).pre_node
      ≡ next_after p c k
          (l p).next_node
          (l p).pre_node
          (l c).next_node
          (from (λ i. (l i).pre_node) p c k)
unfolding swapped_list
pre-swapped l p c k ne =
    let l1 : Students = update (update l p (l c)) c (l p) in
    let l2 = relink_next l1 (l p).pre_node c c in
    let l3 = relink_pre l2 (l p).next_node c c in
    let l4 = relink_next l3 (l c).pre_node p p in
    let l5 = relink_pre l4 (l c).next_node p p in
    let m6 = set_pre (set_next l5 p (some c)) c (some p) in
    let l6 : Students = if at (l p).pre_node c then m6 else l5 in
    let m7 = set_next (set_pre l6 p (some c)) c (some p) in
    let first : (l3 k).pre_node ≡ (
        if at (l p).next_node k && not (at (l p).next_node c)
        then some c
        else from (λ i. (l i).pre_node) p c k) =
      relink_pre-pre l2 (l p).next_node c c k
      ∙ ap (λ z. if at (l p).next_node k && not (at (l p).next_node c) then some c else z)
          (relink_next-pre l1 (l p).pre_node c c k
            ∙ if-field (λ s. s.pre_node) (c == k) (p == k) (l p) (l c) (l k)) in
    let second : (l5 k).pre_node
        ≡ (if at (l c).next_node k && not (at (l c).next_node p) then some p else (l3 k).pre_node) =
      relink_pre-pre l4 (l c).next_node p p k
      ∙ ap (λ z. if at (l c).next_node k && not (at (l c).next_node p) then some p else z)
          (relink_next-pre l3 (l c).pre_node p p k) in
    let third : (l6 k).pre_node
        ≡ (if at (l p).pre_node c && (c == k) then some p else (l5 k).pre_node) =
      if-pre (at (l p).pre_node c) l5 m6 c k (some p) (
        set_pre-pre (set_next l5 p (some c)) c k (some p)
        ∙ ap (λ z. if c == k then some p else z) (set_next-pre l5 p k (some c))) in
    if-pre (at (l p).next_node c) l6 m7 p k (some c)
      (set_next-pre (set_pre l6 p (some c)) c k (some p) ∙ set_pre-pre l6 p k (some c))
    ∙ ap (λ z. if at (l p).next_node c && (p == k) then some c else z)
        (third
          ∙ ap (λ z. if at (l p).pre_node c && (c == k) then some p else z)
              (second
                ∙ ap (λ z. if at (l c).next_node k && not (at (l c).next_node p) then some p else z)
                    first))
    ∙ next_after-order p c k (l p).next_node (l p).pre_node (l c).next_node
        (from (λ i. (l i).pre_node) p c k) ne

abbrev pub Linked : ℕ → Students → Type 0
Linked n l = Paired n (λ i. (l i).next_node) (λ i. (l i).pre_node)

-- After the swap the node that was at place `i` links to the places where its neighbours are now.
pub next-moved :
    (l : Students) (n p c k : ℕ)
    → Linked n l
    → p < n
    → c < n
    → p ≢ c
    → k < n
    → (swapped_list l p c k).next_node ≡ moved_link p c (from (λ i. (l i).next_node) p c k)
next-moved l n p c k linked lp lc ne lk =
    next-swapped l p c k
    ∙ next_after-moved (λ i. (l i).next_node) (λ i. (l i).pre_node) n p c k linked lp lc ne lk

pub pre-moved :
    (l : Students) (n p c k : ℕ)
    → Linked n l
    → p < n
    → c < n
    → p ≢ c
    → k < n
    → (swapped_list l p c k).pre_node ≡ moved_link p c (from (λ i. (l i).pre_node) p c k)
pre-moved l n p c k (both, loopless) lp lc ne lk =
    pre-swapped l p c k ne
    ∙ next_after-moved (λ i. (l i).pre_node) (λ i. (l i).next_node) n p c k
        ((λ i j li lj. sym (both j i lj li)), (λ i li. ((loopless i li).1, (loopless i li).0))) lp
        lc ne lk
