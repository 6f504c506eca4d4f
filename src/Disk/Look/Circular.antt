-- ===== src/Disk/Look/Circular.antt =====
-- Labweek18/HDD_scheduling.c, `C_LOOK`: a sweep to the outermost request, a jump to the other one,
-- and a second sweep in the same direction.
use operating_system_homewor.Prelude.{ℕ, ◌+◌, ◌-◌, ◌≡◌, Bool, true, false, List, ◌++◌}
use operating_system_homewor.Prelude.Int.{ℤ, pos}
use operating_system_homewor.Disk.{Drive}
use operating_system_homewor.Disk.Path.{path}
use operating_system_homewor.Disk.Sweep.Blocks.{blocks_down, blocks_up}
use operating_system_homewor.Disk.Look.{Bounds, sweep_range, land_on, jump_to}

abbrev same_way : Bounds → ℤ → ℕ → Drive → Drive
same_way b dir h d =
    let r = sweep_range b dir (pos h) d in
    let back = land_on b b.high b.low r.0 in (sweep_range b dir back (jump_to b back r.1)).1

-- The first stretch of C-LOOK from `h` in the range, the second one, and where that starts.
abbrev pub c_look_there : Bool → (ℕ → ℕ) → Bounds → ℕ → List ℕ
c_look_there true c b h = blocks_down c b.low (h + 1 - b.low)
c_look_there false c b h = blocks_up c h (b.high + 1 - h)

abbrev pub c_look_back : Bool → (ℕ → ℕ) → Bounds → ℕ → List ℕ
c_look_back true c b h = blocks_down c (h + 1) (b.high - h)
c_look_back false c b h = blocks_up c b.low (h - b.low)

abbrev pub far_end : Bool → Bounds → ℕ
far_end true b = b.high
far_end false b = b.low

record Jumped (b : Bounds) (d0 d : Drive) (there back : List ℕ) (far : ℕ) : Type 0 where
  printed : d.out ≡ d0.out ++ (there ++ back)
  counted : d.sum ≡ d0.sum + path d0.pre there + (b.high - b.low) + path far back
  idle : (a : ℕ) → d.cylinders a ≡ 0
