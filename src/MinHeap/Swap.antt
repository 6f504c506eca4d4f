-- ===== src/MinHeap/Swap.antt =====
-- Labweek7/SLList_MinHeap.c, `swapHeapNode`: the two nodes change places, their keys with them.
use operating_system_homewor.Prelude.{ℕ, ◌≡◌, refl, ap, Option, none, some, arith}
use operating_system_homewor.Prelude.Int.{ℤ}
use operating_system_homewor.MinHeap.Fields.{from, field-swapped}
use operating_system_homewor.MinHeap.{
  Students, Heap, set_pre, set_next, set_pre_at, set_next_at, swap_heap_node, clear_flag,
}

abbrev pub key : Heap → ℕ → ℤ
key h i = (h.list i).id

set_pre-id : (l : Students) (i k : ℕ) (v : Option ℕ) → (set_pre l i v k).id ≡ (l k).id
set_pre-id l i k v = ground (arith, ap (λ j. (l j).id))

set_next-id : (l : Students) (i k : ℕ) (v : Option ℕ) → (set_next l i v k).id ≡ (l k).id
set_next-id l i k v = ground (arith, ap (λ j. (l j).id))

pub set_pre_at-id : (l : Students) (o v : Option ℕ) (k : ℕ) → (set_pre_at l o v k).id ≡ (l k).id
unfolding set_pre_at
set_pre_at-id l none v k = refl
set_pre_at-id l (some i) v k = set_pre-id l i k v

pub set_next_at-id : (l : Students) (o v : Option ℕ) (k : ℕ) → (set_next_at l o v k).id ≡ (l k).id
unfolding set_next_at
set_next_at-id l none v k = refl
set_next_at-id l (some i) v k = set_next-id l i k v

pub clear_flag-id : (l : Students) (o : Option ℕ) (k : ℕ) → (clear_flag l o k).id ≡ (l k).id
unfolding clear_flag
clear_flag-id l none k = refl
clear_flag-id l (some i) k = ground (arith, ap (λ j. (l j).id))

-- The function with two of its values exchanged.
abbrev pub exchanged : (ℕ → ℤ) → ℕ → ℕ → ℕ → ℤ
exchanged = from

-- A swap exchanges the two keys and no others.
pub key-swap : (h : Heap) (p c k : ℕ) → key (swap_heap_node h p c) k ≡ exchanged (key h) p c k
unfolding swap_heap_node
key-swap h p c k = field-swapped (λ s. s.id) (λ s v. refl) (λ s v. refl) h.list p c k

pub size-swap : (h : Heap) (p c : ℕ) → (swap_heap_node h p c).size ≡ h.size
unfolding swap_heap_node
size-swap h p c = refl
