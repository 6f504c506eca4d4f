-- ===== src/MinHeap/Listed.antt =====
-- Labweek7/SLList_MinHeap.c: to put the heap in order does not change the order of the linked list.
use mathlib.Core.Path.{subst}
use operating_system_homewor.Prelude.{
  ℕ, zero, suc, ◌<◌, ◌≡◌, ◌≢◌, refl, sym, ap, ap₂, ◌∙◌, Bool, Bool-cases, inl, inr, Option, none,
  some, List, [], ◌∷◌, arith, ◌==◌, if◌then◌else◌,
}
use operating_system_homewor.Prelude.Int.{ℤ}
use operating_system_homewor.MinHeap.{Student, Students, at, is_none, swapped_list, swapped_head}
use operating_system_homewor.MinHeap.Program.{list_loop}
use operating_system_homewor.MinHeap.Fields.{from, field-swapped}
use operating_system_homewor.MinHeap.Links.{moved, moved_link}
use operating_system_homewor.MinHeap.Links.Moved.{Linked, next-moved, pre-moved}

-- A link does not leave the first `n` places.
abbrev pub WithinLink : ℕ → Option ℕ → Type 0
WithinLink n none = Unit
WithinLink n (some i) = i < n

-- The linked list of the first `n` places: the links go both ways and stay there, and the head is
-- the node that has none before it.
abbrev pub IsList : ℕ → Students → Option ℕ → Type 0
IsList n l head =
    Linked n l
    × ((i : ℕ) → i < n → WithinLink n (l i).next_node × WithinLink n (l i).pre_node)
    × ((i : ℕ) → i < n → is_none (l i).pre_node ≡ at head i)
    × WithinLink n head

-- What a reader sees of the students: number and name.
abbrev pub Card : Type 0
Card = ℤ × List ℕ

abbrev pub card : Student → Card
card s = (s.id, s.name)

abbrev pub cards : List Student → List Card
cards [] = []
cards (s ∷ ss) = card s ∷ cards ss

abbrev pub shown : Option (List Student) → Option (List Card)
shown none = none
shown (some ss) = some (cards ss)

pub show_first : Card → Option (List Card) → Option (List Card)
show_first x none = none
show_first x (some rest) = some (x ∷ rest)

pub shown-step :
    (x : Student) (r : Option (List Student))
    → shown (elim r [ none ↦ none | some rest ↦ some (x ∷ rest) ]) ≡ show_first (card x) (shown r)
unfolding show_first
shown-step x none = refl
shown-step x (some rest) = refl

from-moved {ℓ} : {A : Type ℓ} (f : ℕ → A) (p c k : ℕ) → from f p c k ≡ f (moved p c k)
from-moved f p c k = elim (Bool-cases (c == k)) [
  | inl e ↦ rw e refl
  | inr e ↦ rw e (elim (Bool-cases (p == k)) [ inl d ↦ rw d refl | inr d ↦ rw d refl ])
]

moved-moved : (p c k : ℕ) → moved p c (moved p c k) ≡ k
moved-moved p c k = ground arith

moved_lt : (n p c k : ℕ) → p < n → c < n → k < n → moved p c k < n
moved_lt n p c k lp lc lk = ground arith

at-moved_link : (p c j : ℕ) (o : Option ℕ) → at (moved_link p c o) j ≡ at o (moved p c j)
at-moved_link p c j none = refl
at-moved_link p c j (some i) = ground arith

moved_link-WithinLink :
    (n p c : ℕ) (o : Option ℕ) → p < n → c < n → WithinLink n o → WithinLink n (moved_link p c o)
moved_link-WithinLink n p c none lp lc h = tt
moved_link-WithinLink n p c (some i) lp lc h = moved_lt n p c i lp lc h

is_none-moved_link : (p c : ℕ) (o : Option ℕ) → is_none (moved_link p c o) ≡ is_none o
is_none-moved_link p c none = refl
is_none-moved_link p c (some i) = refl

head-moved :
    (p c : ℕ) (head : Option ℕ) (b d : Bool)
    → p ≢ c
    → b ≡ at head p
    → d ≡ at head c
    → (if b then some c else if d then some p else head) ≡ moved_link p c head
head-moved p c none b d ne e f = rw (e, f) refl
head-moved p c (some i) b d ne e f = rw (e, f) (ground (arith, ne))

module _ (l : Students) (head : Option ℕ) (n p c : ℕ) (list : IsList n l head) (lp : p < n)
    (lc : c < n) (ne : p ≢ c) where
  -- The links after the swap, by the place from which a node came.
  next_now :
      (k : ℕ)
      → k < n
      → (swapped_list l p c k).next_node ≡ moved_link p c (l (moved p c k)).next_node
  next_now k lk =
      next-moved l n p c k list.0 lp lc ne lk
      ∙ ap (moved_link p c) (from-moved (λ i. (l i).next_node) p c k)

  pre_now :
      (k : ℕ) → k < n → (swapped_list l p c k).pre_node ≡ moved_link p c (l (moved p c k)).pre_node
  pre_now k lk =
      pre-moved l n p c k list.0 lp lc ne lk
      ∙ ap (moved_link p c) (from-moved (λ i. (l i).pre_node) p c k)

  pub swapped_head-moved : swapped_head (swapped_list l p c) head p c ≡ moved_link p c head
  unfolding swapped_head
  swapped_head-moved =
      head-moved p c head (is_none (swapped_list l p c c).pre_node)
        (is_none (swapped_list l p c p).pre_node) ne (none_at c p lc lp (ground arith))
        (none_at p c lp lc (ground (arith, ne)))
    where
      none_at :
          (k i : ℕ)
          → k < n
          → i < n
          → moved p c k ≡ i
          → is_none (swapped_list l p c k).pre_node ≡ at head i
      none_at k i lk li e =
          ap is_none (pre_now k lk)
          ∙ is_none-moved_link p c (l (moved p c k)).pre_node
          ∙ ap (λ m. is_none (l m).pre_node) e
          ∙ list.2 i li

  pub swapped-IsList : IsList n (swapped_list l p c) (moved_link p c head)
  swapped-IsList = (
    (
      λ i j li lj.
          ap (λ o. at o j) (next_now i li)
          ∙ at-moved_link p c j (l (moved p c i)).next_node
          ∙ list.0.0 (moved p c i) (moved p c j) (moved_lt n p c i lp lc li)
              (moved_lt n p c j lp lc lj)
          ∙ sym (ap (λ o. at o i) (pre_now j lj) ∙ at-moved_link p c i (l (moved p c j)).pre_node),
      λ i li. (
        ap (λ o. at o i) (next_now i li)
            ∙ at-moved_link p c i (l (moved p c i)).next_node
            ∙ (list.0.1 (moved p c i) (moved_lt n p c i lp lc li)).0,
        ap (λ o. at o i) (pre_now i li)
            ∙ at-moved_link p c i (l (moved p c i)).pre_node
            ∙ (list.0.1 (moved p c i) (moved_lt n p c i lp lc li)).1,
      ),
    ),
    λ i li.
        let (within_next, within_pre) = list.1 (moved p c i) (moved_lt n p c i lp lc li) in
        (
          subst (WithinLink n) (sym (next_now i li))
              (moved_link-WithinLink n p c (l (moved p c i)).next_node lp lc within_next),
          subst (WithinLink n) (sym (pre_now i li))
              (moved_link-WithinLink n p c (l (moved p c i)).pre_node lp lc within_pre),
        ),
    λ i li.
        ap is_none (pre_now i li)
        ∙ is_none-moved_link p c (l (moved p c i)).pre_node
        ∙ list.2 (moved p c i) (moved_lt n p c i lp lc li)
        ∙ sym (at-moved_link p c i head),
    moved_link-WithinLink n p c head lp lc list.3,
  )

  card-moved : (k : ℕ) → card (swapped_list l p c (moved p c k)) ≡ card (l k)
  card-moved k =
      field-swapped card (λ s v. refl) (λ s v. refl) l p c (moved p c k)
      ∙ from-moved (λ i. card (l i)) p c (moved p c k)
      ∙ ap (λ m. card (l m)) (moved-moved p c k)

  next-from :
      (k : ℕ)
      → k < n
      → (swapped_list l p c (moved p c k)).next_node ≡ moved_link p c (l k).next_node
  next-from k lk =
      next_now (moved p c k) (moved_lt n p c k lp lc lk)
      ∙ ap (λ m. moved_link p c (l m).next_node) (moved-moved p c k)

  pub shown-swapped :
      (fuel : ℕ) (o : Option ℕ)
      → WithinLink n o
      → shown (list_loop fuel (swapped_list l p c) (moved_link p c o)) ≡ shown (list_loop fuel l o)
  unfolding list_loop
  shown-swapped fuel none within = refl
  shown-swapped zero (some k) within = refl
  shown-swapped (suc fuel) (some k) within =
      let rest = shown-swapped fuel (l k).next_node (list.1 k within).0 in
      shown-step (swapped_list l p c (moved p c k))
        (list_loop fuel (swapped_list l p c) (swapped_list l p c (moved p c k)).next_node)
      ∙ ap₂ show_first (card-moved k)
          (ap (λ o. shown (list_loop fuel (swapped_list l p c) o)) (next-from k within) ∙ rest)
      ∙ sym (shown-step (l k) (list_loop fuel l (l k).next_node))
