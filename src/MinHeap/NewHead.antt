-- ===== src/MinHeap/NewHead.antt =====
-- Labweek7/SLList_MinHeap.c, `pushHeap`: the links once the new node is in, before it rises.
use mathlib.Core.Path.{subst}
use native.Mathlib.Decide.{ℕ_discrete}
use operating_system_homewor.Prelude.{
  ℕ, zero, suc, ◌+◌, ◌<◌, ◌≤◌, ◌≡◌, refl, sym, ap, ap₂, ◌∙◌, Bool, true, false, Option, none, some,
  List, arith, ◌==◌, eqb_refl, if◌then◌else◌, update,
}
use operating_system_homewor.Prelude.Int.{ℤ}
use operating_system_homewor.MinHeap.{Student, Students, at, is_none, set_pre_at, set_head_node}
use operating_system_homewor.MinHeap.Fields.{eqb_ne}
use operating_system_homewor.MinHeap.Program.{list_loop}
use operating_system_homewor.MinHeap.Listed.{
  card, IsList, WithinLink, shown, show_first, shown-step,
}

abbrev pub front_node : ℤ → List ℕ → Option ℕ → Student
front_node id name head = record {
  flag = 1;
  id = id;
  name = name;
  pre_node = none;
  next_node = head;
}

-- The nodes once the new one is linked in at place `n`.
abbrev pub linked : Students → ℕ → Option ℕ → ℤ → List ℕ → Students
linked l n head id name =
    set_head_node (set_pre_at (update l n (record (l n) { id = id; name = name })) head (some n)) n
      head

linked-new :
    (l : Students) (n : ℕ) (head : Option ℕ) (id : ℤ) (name : List ℕ)
    → WithinLink n head
    → linked l n head id name n ≡ front_node id name head
unfolding set_pre_at
linked-new l n none id name within = rw (eqb_refl n) refl
linked-new l n (some h) id name within =
    rw (eqb_refl n, eqb_ne h n (λ e. absurd (omega arith))) refl

abbrev linked_before : Students → ℕ → Option ℕ → ℕ → Student
linked_before l n head k = if at head k then record (l k) { pre_node = some n } else l k

linked-old :
    (l : Students) (n : ℕ) (head : Option ℕ) (id : ℤ) (name : List ℕ) (k : ℕ)
    → k < n
    → linked l n head id name k ≡ linked_before l n head k
unfolding set_pre_at
linked-old l n none id name k lt = rw (eqb_ne n k (λ e. absurd (omega arith))) refl
linked-old l n (some h) id name k lt = elim (ℕ_discrete h k) [
  | yes e ↦
      subst (λ m. linked l n (some m) id name k ≡ linked_before l n (some m) k) (sym e)
        (rw (eqb_refl k, eqb_ne n k (λ e2. absurd (omega arith))) refl)
  | no ne ↦ rw (eqb_ne h k ne, eqb_ne n k (λ e2. absurd (omega arith))) refl
]

if-field :
    (b : Bool) (s : Student) (v : Option ℕ)
    → ((if b then record s { pre_node = v } else s).next_node ≡ s.next_node)
      × ((if b then record s { pre_node = v } else s).pre_node ≡ (if b then v else s.pre_node))
      × (card (if b then record s { pre_node = v } else s) ≡ card s)
if-field true s v = (refl, refl, refl)
if-field false s v = (refl, refl, refl)

at-within : (n i : ℕ) (o : Option ℕ) → WithinLink n o → n ≤ i → at o i ≡ false
at-within n i none within le = refl
at-within n i (some j) within le = eqb_ne j i (λ e. absurd (omega arith))

WithinLink-suc : (n : ℕ) (o : Option ℕ) → WithinLink n o → WithinLink (n + 1) o
WithinLink-suc n none h = tt
WithinLink-suc n (some i) h = omega arith

-- The place `k < n + 1` is `n` or below it.
by_place : (P : ℕ → Type 0) (n : ℕ) → P n → ((k : ℕ) → k < n → P k) → (k : ℕ) → k < n + 1 → P k
by_place P n new old k lt = elim (ℕ_discrete k n) [
  | yes e ↦ subst P (sym e) new
  | no ne ↦ old k (omega (arith, ne))
]

new-at : (b : Bool) (o : Option ℕ) (n : ℕ) → at o n ≡ false → b ≡ at (if b then some n else o) n
new-at true o n e = sym (eqb_refl n)
new-at false o n e = sym e

old-at :
    (b : Bool) (o : Option ℕ) (n i : ℕ)
    → i < n
    → is_none o ≡ b
    → at o i ≡ at (if b then some n else o) i
old-at true none n i lt e = sym (eqb_ne n i (λ same. absurd (omega arith)))
old-at true (some j) n i lt e = absurd cc
old-at false o n i lt e = refl

old-is_none :
    (b : Bool) (o : Option ℕ) (n i : ℕ)
    → is_none o ≡ b
    → i < n
    → is_none (if b then some n else o) ≡ (n == i)
old-is_none true o n i e lt = sym (eqb_ne n i (λ same. absurd (omega arith)))
old-is_none false o n i e lt = e ∙ sym (eqb_ne n i (λ same. absurd (omega arith)))

old-WithinLink :
    (b : Bool) (o : Option ℕ) (n : ℕ)
    → WithinLink n o
    → WithinLink (n + 1) (if b then some n else o)
old-WithinLink true o n h = omega arith
old-WithinLink false o n h = WithinLink-suc n o h

module _ (l : Students) (n : ℕ) (head : Option ℕ) (id : ℤ) (name : List ℕ)
    (list : IsList n l head) where
  abbrev pub after : Students
  after = linked l n head id name

  next_new : (after n).next_node ≡ head
  next_new = ap (λ s. s.next_node) (linked-new l n head id name list.3)

  pre_new : (after n).pre_node ≡ none
  pre_new = ap (λ s. s.pre_node) (linked-new l n head id name list.3)

  next_old : (k : ℕ) → k < n → (after k).next_node ≡ (l k).next_node
  next_old k lt =
      ap (λ s. s.next_node) (linked-old l n head id name k lt)
      ∙ (if-field (at head k) (l k) (some n)).0

  pre_old : (k : ℕ) → k < n → (after k).pre_node ≡ (if at head k then some n else (l k).pre_node)
  pre_old k lt =
      ap (λ s. s.pre_node) (linked-old l n head id name k lt)
      ∙ (if-field (at head k) (l k) (some n)).1

  card_old : (k : ℕ) → k < n → card (after k) ≡ card (l k)
  card_old k lt =
      ap card (linked-old l n head id name k lt) ∙ (if-field (at head k) (l k) (some n)).2

  both_ways :
      (i : ℕ) → i < n + 1 → (j : ℕ) → j < n + 1 → at (after i).next_node j ≡ at (after j).pre_node i
  both_ways =
      by_place (λ i. (j : ℕ) → j < n + 1 → at (after i).next_node j ≡ at (after j).pre_node i) n
        (by_place (λ j. at (after n).next_node j ≡ at (after j).pre_node n) n
          (ap (λ o. at o n) next_new
            ∙ at-within n n head list.3 (omega arith)
            ∙ sym (ap (λ o. at o n) pre_new))
          (λ j lj.
            ap (λ o. at o j) next_new
            ∙ new-at (at head j) (l j).pre_node n
                (at-within n n (l j).pre_node (list.1 j lj).1 (omega arith))
            ∙ sym (ap (λ o. at o n) (pre_old j lj))))
        (λ i li.
          by_place (λ j. at (after i).next_node j ≡ at (after j).pre_node i) n
            (ap (λ o. at o n) (next_old i li)
              ∙ at-within n n (l i).next_node (list.1 i li).0 (omega arith)
              ∙ sym (ap (λ o. at o i) pre_new))
            (λ j lj.
              ap (λ o. at o j) (next_old i li)
              ∙ list.0.0 i j li lj
              ∙ old-at (at head j) (l j).pre_node n i li (list.2 j lj)
              ∙ sym (ap (λ o. at o i) (pre_old j lj))))

  pub linked-IsList : IsList (n + 1) after (some n)
  linked-IsList = (
    (
      λ i j li lj. both_ways i li j lj,
      by_place (λ i. (at (after i).next_node i ≡ false) × (at (after i).pre_node i ≡ false)) n
          (
            ap (λ o. at o n) next_new ∙ at-within n n head list.3 (omega arith),
            ap (λ o. at o n) pre_new,
          )
          (λ i li.
            let loopless = list.0.1 i li in
            (
              ap (λ o. at o i) (next_old i li) ∙ loopless.0,
              ap (λ o. at o i) (pre_old i li)
                  ∙ sym (old-at (at head i) (l i).pre_node n i li (list.2 i li))
                  ∙ loopless.1,
            )),
    ),
    by_place (λ i. WithinLink (n + 1) (after i).next_node × WithinLink (n + 1) (after i).pre_node) n
        (
          subst (WithinLink (n + 1)) (sym next_new) (WithinLink-suc n head list.3),
          subst (WithinLink (n + 1)) (sym pre_new) tt,
        )
        (λ i li. (
          subst (WithinLink (n + 1)) (sym (next_old i li))
              (WithinLink-suc n (l i).next_node (list.1 i li).0),
          subst (WithinLink (n + 1)) (sym (pre_old i li))
              (old-WithinLink (at head i) (l i).pre_node n (list.1 i li).1),
        )),
    by_place (λ i. is_none (after i).pre_node ≡ (n == i)) n (ap is_none pre_new ∙ sym (eqb_refl n))
        (λ i li.
          ap is_none (pre_old i li) ∙ old-is_none (at head i) (l i).pre_node n i (list.2 i li) li),
    omega arith,
  )

  -- The nodes that were there show what they showed.
  shown_old :
      (fuel : ℕ) (o : Option ℕ)
      → WithinLink n o
      → shown (list_loop fuel after o) ≡ shown (list_loop fuel l o)
  unfolding list_loop
  shown_old fuel none within = refl
  shown_old zero (some k) within = refl
  shown_old (suc fuel) (some k) within =
      shown-step (after k) (list_loop fuel after (after k).next_node)
      ∙ ap₂ show_first (card_old k within) (
          ap (λ o. shown (list_loop fuel after o)) (next_old k within)
          ∙ shown_old fuel (l k).next_node (list.1 k within).0)
      ∙ sym (shown-step (l k) (list_loop fuel l (l k).next_node))

  pub shown_new :
      (fuel : ℕ)
      → shown (list_loop (suc fuel) after (some n))
        ≡ show_first (id, name) (shown (list_loop fuel l head))
  unfolding list_loop
  shown_new fuel =
      shown-step (after n) (list_loop fuel after (after n).next_node)
      ∙ ap₂ show_first (ap card (linked-new l n head id name list.3))
          (ap (λ o. shown (list_loop fuel after o)) next_new ∙ shown_old fuel head list.3)
