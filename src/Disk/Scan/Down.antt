-- ===== src/Disk/Scan/Down.antt =====
-- Labweek18/HDD_scheduling.c, `SCAN` with the head going to cylinder 0 first.
use operating_system_homewor.Prelude.{ℕ, ◌+◌, ◌-◌, ◌<◌, ◌≡◌, refl, ap, ◌∙◌, true, List, arith}
use operating_system_homewor.Prelude.Int.{ℤ, pos, sub_ℕ}
use operating_system_homewor.Disk.{Drive, cylinder_num, start}
use operating_system_homewor.Disk.Path.{last_stop, Moved, Moved-trans}
use operating_system_homewor.Disk.Sweep.{downwards}
use operating_system_homewor.Disk.Sweep.Blocks.{
  blocks_down, blocks_up, blocks_up_congr, blocks_up-skip,
}
use operating_system_homewor.Disk.Sweep.Down.{SweptDown, sweep-SweptDown}
use operating_system_homewor.Disk.Sweep.Up.{SweptUp, sweep-SweptUp}
use operating_system_homewor.Disk.Scan.{sweep_disk, stop_at, scan}
use operating_system_homewor.Disk.Scan.Turn.{
  turning, stop_at-Moved, cylinders-stop_at, scan_down, Scanned, scan_eq,
}

-- The second sweep of the way down serves what the first left, above the start.
rest-down :
    (d0 : Drive) (head : ℕ) (r1 : ℤ × Drive)
    → head < cylinder_num
    → SweptDown 0 (head + 1) d0 r1
    → blocks_up (stop_at (pos 0) r1.1).cylinders 0 cylinder_num
      ≡ blocks_up d0.cylinders (head + 1) (cylinder_num - 1 - head)
rest-down d0 head r1 small s =
    let c' = (stop_at (pos 0) r1.1).cylinders in
    let n = cylinder_num - 1 - head in
    let split : cylinder_num ≡ (head + 1) + n = omega arith in
    let bottom : 0 + (head + 1) ≡ head + 1 = omega arith in
    ap (blocks_up c' 0) split
    ∙ blocks_up-skip c' 0 (head + 1) n
        (λ q g l. ground (arith, cylinders-stop_at 0 r1.1 q, s.left q))
    ∙ ap (λ lo. blocks_up c' lo n) bottom
    ∙ blocks_up_congr c' d0.cylinders (head + 1) n
        (λ q g l. ground (arith, cylinders-stop_at 0 r1.1 q, s.left q))

scan-down-Scanned :
    (d0 : Drive) (head : ℕ) (r1 r2 : ℤ × Drive)
    → head < cylinder_num
    → d0.pre ≡ head
    → SweptDown 0 (head + 1) d0 r1
    → SweptUp 0 cylinder_num (stop_at (pos 0) r1.1) r2
    → Scanned d0 r2.1 (scan_down d0.cylinders head)
scan-down-Scanned d0 head r1 r2 small e s1 s2 = record {
  moved =
      rw (← rest-down d0 head r1 small s1)
        (Moved-trans _ _ _ _ _ (Moved-trans _ _ _ _ _ s1.moved turn) s2.moved);
  idle = λ a in_disk. ground (arith, s2.left a);
}
  where
    last_is : r1.1.pre ≡ last_stop head (blocks_down d0.cylinders 0 (head + 1))
    last_is = s1.moved.ended ∙ ap (λ p. last_stop p (blocks_down d0.cylinders 0 (head + 1))) e

    turn :
        Moved r1.1
          (stop_at (pos 0) r1.1)
          (turning (last_stop head (blocks_down d0.cylinders 0 (head + 1))) 0)
    turn = rw (← last_is) (stop_at-Moved 0 r1.1)

pub scan_down-Scanned :
    (req : List ℕ) (head : ℕ) (dir : ℤ)
    → head < cylinder_num
    → downwards dir ≡ true
    → Scanned (start req head) (scan req head dir) (scan_down (start req head).cylinders head)
unfolding start
scan_down-Scanned req head dir small down =
    rw (scan_eq req head dir, s1.stopped, down) (scan-down-Scanned d0 head r1 _ small refl s1 s2)
  where
    d0 : Drive
    d0 = start req head

    r1 : ℤ × Drive
    r1 = sweep_disk dir (pos head) d0

    from : sub_ℕ (0 + (head + 1)) 1 ≡ pos head
    from = ground arith

    s1 : SweptDown 0 (head + 1) d0 r1
    s1 = rw from at (
        sweep-SweptDown (head + 1) (cylinder_num + 1) 0 (cylinder_num - 1) dir d0 down (omega arith)
          (omega arith))

    s2 :
        SweptUp 0 cylinder_num
          (stop_at (pos 0) r1.1)
          (sweep_disk (pos 1) (pos 0) (stop_at (pos 0) r1.1))
    s2 =
        sweep-SweptUp cylinder_num (cylinder_num + 1) 0 (cylinder_num - 1) 0 (pos 1)
          (stop_at (pos 0) r1.1) refl (omega arith) (omega arith) (omega arith)
