-- ===== src/Disk/Sweep.antt =====
-- Labweek18/HDD_scheduling.c: the loop that SCAN, C-SCAN, LOOK and C-LOOK share, a sweep of the head
-- over a range of cylinders in one direction.
pub mod Blocks
pub mod Serve
pub mod Down
pub mod Up
use operating_system_homewor.Prelude.{ℕ, zero, suc, ◌+◌, Bool, ◌&&◌, ltb, if◌then◌else◌}
use operating_system_homewor.Prelude.Int.{ℤ, pos, negsuc, leb_ℤ, eqb_ℤ}
use operating_system_homewor.Disk.{Drive, visit}

-- `while (cylinders[cylinder_head] > 0) { ... }`
unfoldable pub serve_loop : ℕ → ℕ → Drive → Drive
serve_loop zero h d = d
serve_loop (suc fuel) h d =
    let rest = serve_loop fuel h (visit h d) in if ltb 0 (d.cylinders h) then rest else d

-- Each round takes one request off, so the count is fuel enough.
unfoldable pub serve : ℕ → Drive → Drive
serve h d = serve_loop (d.cylinders h) h d

-- `head_dir` is what the user typed; every value but 0 means upwards.
abbrev pub downwards : ℤ → Bool
downwards head_dir = eqb_ℤ head_dir (pos 0)

abbrev pub advance : ℤ → ℕ → ℤ
advance head_dir zero = if downwards head_dir then negsuc 0 else pos 1
advance head_dir (suc h) = if downwards head_dir then pos h else pos (h + 2)

-- `while (cylinder_head >= lo && cylinder_head <= hi) { ... }`, with the final position. SCAN and
-- C-SCAN write the upper test as `< CYLINDER_NUM`. The range holds no negative cylinder.
unfoldable pub sweep : ℕ → ℕ → ℕ → ℤ → ℤ → Drive → ℤ × Drive
sweep zero lo hi head_dir head d = (head, d)
sweep (suc fuel) lo hi head_dir (negsuc n) d = (negsuc n, d)
sweep (suc fuel) lo hi head_dir (pos h) d =
    let rest = sweep fuel lo hi head_dir (advance head_dir h) (serve h d) in
    if leb_ℤ (pos lo) (pos h) && leb_ℤ (pos h) (pos hi) then rest else (pos h, d)
