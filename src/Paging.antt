-- ===== src/Paging.antt =====
-- Labweek17/page_replacement.c: the frames, and page replacement by FIFO, by LRU on a stack and on a
-- matrix, and by second chance. A frame that holds -1 is `none`. Each algorithm returns what it
-- prints for each reference: the frames, and whether there was a page fault.
pub mod Oldest
pub mod Scan
pub mod Arrival
pub mod Rows
pub mod Order
pub mod Stack
pub mod Stopping
pub mod Clock
mod Tests
use operating_system_homewor.Prelude.{
  ℕ, zero, suc, ◌+◌, ◌%◌, Bool, true, false, not, ◌&&◌, Option, none, some, List, [], ◌∷◌, ◌++◌,
  ltb, ◌==◌, if◌then◌else◌, update,
}

abbrev pub frame_size : ℕ
frame_size = 5

abbrev pub Frames : Type 0
Frames = ℕ → Option ℕ

abbrev pub no_pages : Frames
no_pages _ = none

-- `page_frame[j] == page_num`.
abbrev pub holds : Option ℕ → ℕ → Bool
holds none p = false
holds (some q) p = q == p

-- The loop over `j`, with `n` frames left: where it stops.
pub find_page : ℕ → ℕ → Frames → ℕ → ℕ
find_page zero j frames p = j
find_page (suc n) j frames p =
    let rest = find_page n (j + 1) frames p in if holds (frames j) p then j else rest

-- One line of the output.
abbrev pub Line : Type 0
Line = Frames × Bool

pub record Fifo : Type 0 where
  pub page_frame : Frames
  pub replace_index : ℕ

-- The body of the loop of `FIFO`; the flag is the page fault.
pub fifo_step : ℕ → Fifo → Fifo × Bool
fifo_step p s =
    if find_page frame_size 0 s.page_frame p == frame_size
    then (
      record {
        page_frame = update s.page_frame s.replace_index (some p);
        replace_index = (s.replace_index + 1) % frame_size;
      },
      true,
    )
    else (s, false)

pub fifo_loop : List ℕ → Fifo → List Line
fifo_loop [] s = []
fifo_loop (p ∷ ps) s =
    ((fifo_step p s).0.page_frame, (fifo_step p s).1) ∷ fifo_loop ps (fifo_step p s).0

abbrev pub fifo_start : Fifo
fifo_start = record { page_frame = no_pages; replace_index = 0 }

pub fifo : List ℕ → List Line
fifo reference_string = fifo_loop reference_string fifo_start

abbrev pub Matrix : Type 0
Matrix = ℕ → ℕ → ℕ

pub setrow1 : Matrix → ℕ → Matrix
setrow1 matrix row i j = if (i == row) && ltb j frame_size then 1 else matrix i j

pub setcolumn0 : Matrix → ℕ → Matrix
setcolumn0 matrix column i j =
    if (j == column) && (ltb i frame_size && not (i == column)) then 0 else matrix i j

-- `one_sum`, over the columns below `n`.
pub one_sum : ℕ → (ℕ → ℕ) → ℕ
one_sum zero row = 0
one_sum (suc n) row = (if row n == 1 then 1 else 0) + one_sum n row

-- The loop over `i`, with `n` rows left.
pub least_loop : ℕ → ℕ → Matrix → ℕ → ℕ → ℕ
least_loop zero i matrix least_one_sum least_row = least_row
least_loop (suc n) i matrix least_one_sum least_row =
    let taken = least_loop n (i + 1) matrix (one_sum frame_size (matrix i)) i in
    let kept = least_loop n (i + 1) matrix least_one_sum least_row in
    if ltb (one_sum frame_size (matrix i)) least_one_sum then taken else kept

pub find_least_row : Matrix → ℕ
find_least_row matrix = least_loop frame_size 0 matrix frame_size 0

pub record LruMatrix : Type 0 where
  pub page_frame : Frames
  pub matrix : Matrix

abbrev pub use_row : Matrix → ℕ → Matrix
use_row matrix j = setcolumn0 (setrow1 matrix j) j

-- The body of the loop of `LRU_matrix`.
pub lru_matrix_step : ℕ → LruMatrix → LruMatrix × Bool
lru_matrix_step p s =
    let j = find_page frame_size 0 s.page_frame p in
    let victim = find_least_row s.matrix in
    if j == frame_size
    then (
      record { page_frame = update s.page_frame victim (some p); matrix = use_row s.matrix victim },
      true,
    )
    else (record { page_frame = s.page_frame; matrix = use_row s.matrix j }, false)

pub lru_matrix_loop : List ℕ → LruMatrix → List Line
lru_matrix_loop [] s = []
lru_matrix_loop (p ∷ ps) s =
    ((lru_matrix_step p s).0.page_frame, (lru_matrix_step p s).1)
    ∷ lru_matrix_loop ps (lru_matrix_step p s).0

abbrev pub lru_matrix_start : LruMatrix
lru_matrix_start = record { page_frame = no_pages; matrix = λ _ _. 0 }

pub lru_matrix : List ℕ → List Line
lru_matrix reference_string = lru_matrix_loop reference_string lru_matrix_start

-- A node of the stack.
pub record PageNode : Type 0 where
  pub page_num : Option ℕ
  pub page_index : ℕ

pub creat_page_node : Option ℕ → ℕ → PageNode
creat_page_node p i = record { page_num = p; page_index = i }

-- The doubly linked list is the sequence of its nodes, from `head` to `tail`. `n` nodes are left to
-- make.
pub init_loop : ℕ → ℕ → List PageNode
init_loop zero i = []
init_loop (suc n) i = creat_page_node none i ∷ init_loop n (i + 1)

pub init_page_stack : List PageNode
init_page_stack = init_loop frame_size 0

-- The walk from the head: the first node of the page taken out of the list, and what is left.
pub unlink : ℕ → List PageNode → Option (PageNode × List PageNode)
unlink p [] = none
unlink p (x ∷ xs) =
    if holds x.page_num p
    then some (x, xs)
    else elim (unlink p xs) [ none ↦ none | some found ↦ some (found.0, x ∷ found.1) ]

pub record LruStack : Type 0 where
  pub page_frame : Frames
  pub stack : List PageNode

-- The head becomes the victim, and goes to the tail with the new page.
pub replace_head : ℕ → Frames → List PageNode → LruStack
replace_head p frames [] = record { page_frame = frames; stack = [] }
replace_head p frames (old_head ∷ rest) = record {
  page_frame = update frames old_head.page_index (some p);
  stack = rest ++ creat_page_node (some p) old_head.page_index ∷ [];
}

-- The body of the loop of `LRU_stack`.
pub lru_stack_step : ℕ → LruStack → LruStack × Bool
lru_stack_step p s = elim (unlink p s.stack) [
  | none ↦ (replace_head p s.page_frame s.stack, true)
  | some found ↦ (record { page_frame = s.page_frame; stack = found.1 ++ found.0 ∷ [] }, false)
]

pub lru_stack_loop : List ℕ → LruStack → List Line
lru_stack_loop [] s = []
lru_stack_loop (p ∷ ps) s =
    ((lru_stack_step p s).0.page_frame, (lru_stack_step p s).1)
    ∷ lru_stack_loop ps (lru_stack_step p s).0

abbrev pub lru_stack_start : LruStack
lru_stack_start = record { page_frame = no_pages; stack = init_page_stack }

pub lru_stack : List ℕ → List Line
lru_stack reference_string = lru_stack_loop reference_string lru_stack_start

-- The circular queue: node `j` has `page_index` j and its `next` is the node after it, as
-- `init_PageQueue` links them; `head` is node 0.
pub record PageQueue : Type 0 where
  pub page_num : Frames
  pub reference_bit : ℕ → ℕ
  pub clock_pointer : ℕ

abbrev pub init_page_queue : PageQueue
init_page_queue = record { page_num = no_pages; reference_bit = λ _. 0; clock_pointer = 0 }

abbrev pub next : ℕ → ℕ
next j = (j + 1) % frame_size

-- The `while` loop that looks for a reference bit 0, with `n` rounds of fuel.
pub chance_loop : ℕ → PageQueue → Option PageQueue
chance_loop zero q = none
chance_loop (suc n) q =
    let later = chance_loop n (record {
      page_num = q.page_num;
      reference_bit = update q.reference_bit q.clock_pointer 0;
      clock_pointer = next q.clock_pointer;
    }) in
    if q.reference_bit q.clock_pointer == 0 then some q else later

abbrev pub set_reference_bit : PageQueue → ℕ → PageQueue
set_reference_bit q j = record {
  page_num = q.page_num;
  reference_bit = update q.reference_bit j 1;
  clock_pointer = q.clock_pointer;
}

-- The new page in the node of the clock pointer, which then moves on.
pub replace_victim : ℕ → PageQueue → PageQueue
replace_victim p q = record {
  page_num = update q.page_num q.clock_pointer (some p);
  reference_bit = update q.reference_bit q.clock_pointer 1;
  clock_pointer = next q.clock_pointer;
}

abbrev pub chance_fuel : ℕ
chance_fuel = 6

-- The body of the loop of `Second_Chance`; `none` is a clock that never stops.
pub second_chance_step : ℕ → Frames × PageQueue → Option ((Frames × PageQueue) × Bool)
second_chance_step p (frames, q) =
    let j = find_page frame_size 0 q.page_num p in
    if j == frame_size
    then elim (chance_loop chance_fuel q) [
      | none ↦ none
      | some found ↦
          some ((update frames found.clock_pointer (some p), replace_victim p found), true)
    ]
    else some ((frames, set_reference_bit q j), false)

pub second_chance_loop : List ℕ → Frames × PageQueue → Option (List Line)
second_chance_loop [] s = some []
second_chance_loop (p ∷ ps) s = elim (second_chance_step p s) [
  | none ↦ none
  | some r ↦ elim (second_chance_loop ps r.0) [
    | none ↦ none
    | some lines ↦ some ((r.0.0, r.1) ∷ lines)
  ]
]

pub second_chance : List ℕ → Option (List Line)
second_chance reference_string = second_chance_loop reference_string (no_pages, init_page_queue)
