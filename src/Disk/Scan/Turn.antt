-- ===== src/Disk/Scan/Turn.antt =====
-- Labweek18/HDD_scheduling.c, `SCAN`: the stop where the head turns, and the run that it makes.
use operating_system_homewor.Prelude.{
  ℕ, ◌+◌, ◌-◌, ◌<◌, ◌≡◌, refl, sym, inl, inr, Bool-cases, List, [], ◌∷◌, ◌++◌, arith, ◌==◌,
  if◌then◌else◌,
}
use operating_system_homewor.Prelude.Int.{ℤ, pos}
use operating_system_homewor.Disk.{Drive, cylinder_num, start}
use operating_system_homewor.Disk.Path.{
  gap, path, last_stop, Moved, Moved-refl, seek_distance-gap, one_stop, path-nil, last_stop-nil,
}
use operating_system_homewor.Disk.Sweep.Blocks.{blocks_down, blocks_up}
use operating_system_homewor.Disk.Scan.{sweep_disk, clamp_head, stop_at, reverse_dir, scan}

-- The stop at the end of the disk, if the head is not there already.
abbrev pub turning : ℕ → ℕ → List ℕ
turning last end = if last == end then [] else end ∷ []

pub stop_at-Moved : (h : ℕ) (d : Drive) → Moved d (stop_at (pos h) d) (turning d.pre h)
unfolding stop_at
stop_at-Moved h d = elim (Bool-cases (d.pre == h)) [
  | inl here ↦ rw here (Moved-refl d)
  | inr away ↦ rw away (record {
    printed = refl;
    counted = omega (arith, one_stop d.pre h, seek_distance-gap h d.pre);
    ended = sym (one_stop d.pre h).1;
  })
]

pub cylinders-stop_at :
    (h : ℕ) (d : Drive) (a : ℕ) → (stop_at (pos h) d).cylinders a ≡ d.cylinders a
unfolding stop_at
cylinders-stop_at h d a = ground arith

-- What SCAN prints after the start of the head, at `head` with the requests `c`.
abbrev pub scan_down : (ℕ → ℕ) → ℕ → List ℕ
scan_down c head =
    let there = blocks_down c 0 (head + 1) in
    there ++ turning (last_stop head there) 0 ++ blocks_up c (head + 1) (cylinder_num - 1 - head)

abbrev pub scan_up : (ℕ → ℕ) → ℕ → List ℕ
scan_up c head =
    let there = blocks_up c head (cylinder_num - head) in
    there ++ turning (last_stop head there) (cylinder_num - 1) ++ blocks_down c 0 head

-- What SCAN has done: the head went through `tr` and nothing is left on the disk.
pub record Scanned (d0 d : Drive) (tr : List ℕ) : Type 0 where
  pub moved : Moved d0 d tr
  pub idle : (a : ℕ) → a < cylinder_num → d.cylinders a ≡ 0

pub scan_eq :
    (req : List ℕ) (head : ℕ) (dir : ℤ)
    → let r = sweep_disk dir (pos head) (start req head) in
      scan req head dir
      ≡ (sweep_disk (reverse_dir dir) (clamp_head r.0) (stop_at (clamp_head r.0) r.1)).1
unfolding scan
scan_eq req head dir = refl

-- The movement to the turning point, and where it ends.
pub path-turning : (p end : ℕ) → path p (turning p end) ≡ gap p end
path-turning p end = elim (Bool-cases (p == end)) [
  | inl here ↦ rw here (ground (arith, path-nil p))
  | inr away ↦ rw away ((one_stop p end).0)
]

pub last_stop-turning : (p end : ℕ) → last_stop p (turning p end) ≡ end
last_stop-turning p end = elim (Bool-cases (p == end)) [
  | inl here ↦ rw here (ground (arith, last_stop-nil p))
  | inr away ↦ rw away ((one_stop p end).1)
]
