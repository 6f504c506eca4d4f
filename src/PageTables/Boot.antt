-- ===== src/PageTables/Boot.antt =====
-- Labweek11/lab2/kern/mm/pmm.c: what `boot_map_segment` maps.
use operating_system_homewor.Prelude.{ℕ, ◌+◌, ◌*◌, ◌/◌, ◌%◌, ◌≤◌, ◌<◌, ◌≡◌, ◌≢◌, ◌⊎◌, some}
use operating_system_homewor.PageTables.{Paged, pdx, ptx, entry_for, get_page, set_word, roundup}
use operating_system_homewor.PageTables.Lookup.{table_of}
use operating_system_homewor.PageTables.State.{vpt_index}
use operating_system_homewor.PageTables.NewTable.{Ready}
use operating_system_homewor.PageTables.Rewritten.{Other, Rewritten}

-- The pages from `la` on are mapped to those from `pa` on, and no other address outside the window at
-- VPT is mapped differently.
abbrev pub Mapped : ℕ → Paged → ℕ → ℕ → Paged → Type 0
Mapped n v la pa w =
    ((k : ℕ) → k < n → get_page w (la + k * 4096) ≡ some (pa / 4096 + k))
    × ((la' : ℕ)
        → pdx la' ≢ vpt_index
        → ((k : ℕ) → k < n → Other (la + k * 4096) la')
        → get_page w la' ≡ get_page v la')

module _ (v w : Paged) (la pa perm : ℕ) (lt : perm < 4096) (outside : pdx la ≢ vpt_index)
    (ready : Ready v la w (table_of w la) (ptx la)) where
  abbrev u : Paged
  u = set_word w (table_of w la) (ptx la) (entry_for (pa / 4096) perm)

-- How many pages a segment touches
abbrev pub pages_of : ℕ → ℕ → ℕ
pages_of la size = roundup (size + la % 4096) / 4096

-- The segment ends before the window of 4 MB at VPT, or starts behind it.
abbrev pub OutsideWindow : ℕ → ℕ → Type 0
OutsideWindow la size = (la + size ≤ 4206886912) ⊎ (4211081216 ≤ la)
