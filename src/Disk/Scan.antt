-- ===== src/Disk/Scan.antt =====
-- Labweek18/HDD_scheduling.c: `SCAN` and `C_SCAN`, which sweep the whole disk.
pub mod Turn
pub mod Down
pub mod Up
pub mod Once
pub mod Circular
use operating_system_homewor.Prelude.{ℕ, ◌+◌, ◌-◌, List, [], ◌∷◌, ◌++◌, ◌==◌, if◌then◌else◌}
use operating_system_homewor.Prelude.Int.{ℤ, pos, negsuc, eqb_ℤ}
use operating_system_homewor.Disk.{Drive, cylinder_num, seek_distance, start}
use operating_system_homewor.Disk.Sweep.{sweep, downwards}

-- A sweep of the whole disk passes each cylinder once.
abbrev pub sweep_disk : ℤ → ℤ → Drive → ℤ × Drive
sweep_disk = sweep (cylinder_num + 1) 0 (cylinder_num - 1)

-- `if (cylinder_head == -1) cylinder_head++;` and, after it,
-- `if (cylinder_head == CYLINDER_NUM) cylinder_head--;`
abbrev pub clamp_head : ℤ → ℤ
clamp_head head =
    let head' = if eqb_ℤ head (negsuc 0) then pos 0 else head in
    if eqb_ℤ head' (pos cylinder_num) then pos (cylinder_num - 1) else head'

-- `if (pre_cylinder_head != cylinder_head) { ... }`: the head goes on to the end of the disk. The
-- clamped head is not negative.
pub stop_at : ℤ → Drive → Drive
stop_at (pos h) d =
    if d.pre == h
    then d
    else record d { pre = h; sum = d.sum + seek_distance h d.pre; out = d.out ++ h ∷ [] }
stop_at (negsuc n) d = d

abbrev pub reverse_dir : ℤ → ℤ
reverse_dir head_dir = if downwards head_dir then pos 1 else pos 0

unfoldable pub scan : List ℕ → ℕ → ℤ → Drive
unfolding stop_at
scan req head head_dir =
    let (h, d) = sweep_disk head_dir (pos head) (start req head) in
    let turn = clamp_head h in (sweep_disk (reverse_dir head_dir) turn (stop_at turn d)).1

-- `if (cylinder_head == 0) ... else if (cylinder_head == CYLINDER_NUM - 1) ...`
abbrev pub other_end : ℤ → ℤ
other_end head =
    if eqb_ℤ head (pos 0)
    then pos (cylinder_num - 1)
    else if eqb_ℤ head (pos (cylinder_num - 1))
    then pos 0
    else head

-- The head returns across the disk: the whole width is added, and the end is printed if nothing is
-- pending there.
pub return_to : ℤ → Drive → Drive
return_to (pos h) d = record d {
  pre = h;
  sum = d.sum + (cylinder_num - 1);
  out = if d.cylinders h == 0 then d.out ++ h ∷ [] else d.out;
}
return_to (negsuc n) d = d

unfoldable pub c_scan : List ℕ → ℕ → ℤ → Drive
unfolding stop_at return_to
c_scan req head head_dir =
    let (h, d) = sweep_disk head_dir (pos head) (start req head) in
    let turn = clamp_head h in
    let back = other_end turn in (sweep_disk head_dir back (return_to back (stop_at turn d))).1
