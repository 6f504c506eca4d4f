-- ===== src/Disk/Look/Once.antt =====
-- Labweek18/HDD_scheduling.c, `LOOK`: a sweep to the outermost request and one back.
use operating_system_homewor.Prelude.{
  ℕ, ◌+◌, ◌-◌, ◌≤◌, ◌≡◌, Bool, true, false, List, ◌++◌, arith, ltb, if◌then◌else◌,
}
use operating_system_homewor.Prelude.Int.{ℤ, pos}
use operating_system_homewor.Disk.{Drive}
use operating_system_homewor.Disk.Path.{Moved}
use operating_system_homewor.Disk.Sweep.Blocks.{blocks_down, blocks_up}
use operating_system_homewor.Disk.Scan.{reverse_dir}
use operating_system_homewor.Disk.Look.{Bounds, approach, sweep_range, land_on}

-- The cylinder in the range that is nearest to the head.
abbrev pub into : Bounds → ℕ → ℕ
into b head = if ltb head b.low then b.low else if ltb b.high head then b.high else head

-- What `LOOK` and `C_LOOK` add to the movement before they move.
abbrev pub surplus : Bounds → ℕ → ℕ
surplus b head = if ltb b.high head then b.high - b.low else 0

-- Both branches put the head into the range and add the surplus to the sum.
pub approach_eq :
    (b : Bounds) (head : ℕ) (d : Drive)
    → b.low ≤ b.high
    → approach b head d ≡ (into b head, record d { sum = d.sum + surplus b head })
unfolding approach
approach_eq b head d ordered = ground arith

-- What LOOK serves from `h` in the range: one side of it, then the other.
abbrev pub look_run : Bool → (ℕ → ℕ) → Bounds → ℕ → List ℕ
look_run true c b h = blocks_down c b.low (h + 1 - b.low) ++ blocks_up c (h + 1) (b.high - h)
look_run false c b h = blocks_up c h (b.high + 1 - h) ++ blocks_down c b.low (h - b.low)

abbrev two_sweeps : Bounds → ℤ → ℕ → Drive → Drive
two_sweeps b dir h d =
    let r = sweep_range b dir (pos h) d in
    (sweep_range b (reverse_dir dir) (land_on b b.low b.high r.0) r.1).1

-- Both sweeps, from any drive whose requests lie in the range.
pub record Looked (d0 d : Drive) (tr : List ℕ) : Type 0 where
  pub moved : Moved d0 d tr
  pub idle : (a : ℕ) → d.cylinders a ≡ 0
