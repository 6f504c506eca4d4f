-- ===== src/Disk/Look.antt =====
-- Labweek18/HDD_scheduling.c: `LOOK` and `C_LOOK`, which sweep between the outermost requests.
pub mod Range
pub mod Once
pub mod Circular
use operating_system_homewor.Prelude.{ℕ, ◌+◌, ◌-◌, List, [], ◌∷◌, ltb, if◌then◌else◌}
use operating_system_homewor.Prelude.Int.{ℤ, pos, negsuc, sub_ℕ, eqb_ℤ}
use operating_system_homewor.Disk.{Drive, cylinder_num, start}
use operating_system_homewor.Disk.Sweep.{sweep}
use operating_system_homewor.Disk.Scan.{reverse_dir}

-- `cylinder_req_min` and `cylinder_req_max`.
pub record Bounds : Type 0 where
  pub low : ℕ
  pub high : ℕ

pub range_loop : List ℕ → Bounds → Bounds
range_loop [] b = b
range_loop (id ∷ req) b = range_loop req (record {
  low = if ltb id b.low then id else b.low;
  high = if ltb b.high id then id else b.high;
})

-- The loop starts at `cylinder_req[0]`; the array is never empty.
pub request_range : List ℕ → Bounds
unfolding range_loop
request_range [] = record { low = 0; high = 0 }
request_range (id ∷ req) = range_loop (id ∷ req) (record { low = id; high = id })

-- A head outside the requests is put at the nearer end. `cylinder_head` is assigned before the
-- distance is added, so the first branch adds 0.
pub approach : Bounds → ℕ → Drive → ℕ × Drive
approach b head d =
    if ltb head b.low
    then (let head' = b.low in (head', record d { sum = d.sum + (b.low - head') }))
    else if ltb b.high head
    then (b.high, record d { sum = d.sum + (b.high - b.low) })
    else (head, d)

abbrev pub sweep_range : Bounds → ℤ → ℤ → Drive → ℤ × Drive
sweep_range b = sweep (cylinder_num + 1) b.low b.high

-- `if (cylinder_head == cylinder_req_min - 1) ...` and then
-- `if (cylinder_head == cylinder_req_max + 1) ...`, with what they assign.
abbrev pub land_on : Bounds → ℕ → ℕ → ℤ → ℤ
land_on b after_low after_high head =
    let head' = if eqb_ℤ head (sub_ℕ b.low 1) then pos after_low else head in
    if eqb_ℤ head' (pos (b.high + 1)) then pos after_high else head'

unfoldable pub look : List ℕ → ℕ → ℤ → Drive
unfolding request_range approach
look req head head_dir =
    let b = request_range req in
    let (h, d) = approach b head (start req head) in
    let (h', d') = sweep_range b head_dir (pos h) d in
    (sweep_range b (reverse_dir head_dir) (land_on b b.low b.high h') d').1

-- The head jumps to `h` without a print, and the width of the requests is added.
pub jump_to : Bounds → ℤ → Drive → Drive
jump_to b (pos h) d = record d { pre = h; sum = d.sum + (b.high - b.low) }
jump_to b (negsuc n) d = d

unfoldable pub c_look : List ℕ → ℕ → ℤ → Drive
unfolding request_range approach jump_to
c_look req head head_dir =
    let b = request_range req in
    let (h, d) = approach b head (start req head) in
    let (h', d') = sweep_range b head_dir (pos h) d in
    let back = land_on b b.high b.low h' in (sweep_range b head_dir back (jump_to b back d')).1
