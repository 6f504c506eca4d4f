-- ===== src/Disk/Scan/Up.antt =====
-- Labweek18/HDD_scheduling.c, `SCAN` with the head going to the last cylinder first.
use operating_system_homewor.Prelude.{ℕ, ◌+◌, ◌-◌, ◌<◌, ◌≡◌, refl, ap, ◌∙◌, false, List, arith}
use operating_system_homewor.Prelude.Int.{ℤ, pos}
use operating_system_homewor.Disk.{Drive, cylinder_num, start}
use operating_system_homewor.Disk.Path.{last_stop, Moved, Moved-trans}
use operating_system_homewor.Disk.Sweep.{downwards}
use operating_system_homewor.Disk.Sweep.Blocks.{
  blocks_down, blocks_up, blocks_down_congr, blocks_down-skip_top,
}
use operating_system_homewor.Disk.Sweep.Down.{SweptDown, sweep-SweptDown}
use operating_system_homewor.Disk.Sweep.Up.{SweptUp, sweep-SweptUp}
use operating_system_homewor.Disk.Scan.{sweep_disk, stop_at, scan}
use operating_system_homewor.Disk.Scan.Turn.{
  turning, stop_at-Moved, cylinders-stop_at, scan_up, Scanned, scan_eq,
}

-- The second sweep of the way up serves what the first left, below the start.
rest-up :
    (d0 : Drive) (head : ℕ) (r1 : ℤ × Drive)
    → head < cylinder_num
    → SweptUp head (cylinder_num - head) d0 r1
    → blocks_down (stop_at (pos (cylinder_num - 1)) r1.1).cylinders 0 cylinder_num
      ≡ blocks_down d0.cylinders 0 head
rest-up d0 head r1 small s =
    let c' = (stop_at (pos (cylinder_num - 1)) r1.1).cylinders in
    let n = cylinder_num - head in
    let split : cylinder_num ≡ head + n = omega arith in
    ap (blocks_down c' 0) split
    ∙ blocks_down-skip_top c' 0 head n
        (λ q g l. ground (arith, cylinders-stop_at (cylinder_num - 1) r1.1 q, s.left q))
    ∙ blocks_down_congr c' d0.cylinders 0 head
        (λ q g l. ground (arith, cylinders-stop_at (cylinder_num - 1) r1.1 q, s.left q))

scan-up-Scanned :
    (d0 : Drive) (head : ℕ) (r1 r2 : ℤ × Drive)
    → head < cylinder_num
    → d0.pre ≡ head
    → SweptUp head (cylinder_num - head) d0 r1
    → SweptDown 0 cylinder_num (stop_at (pos (cylinder_num - 1)) r1.1) r2
    → Scanned d0 r2.1 (scan_up d0.cylinders head)
scan-up-Scanned d0 head r1 r2 small e s1 s2 = record {
  moved =
      rw (← rest-up d0 head r1 small s1)
        (Moved-trans _ _ _ _ _ (Moved-trans _ _ _ _ _ s1.moved turn) s2.moved);
  idle = λ a in_disk. ground (arith, s2.left a);
}
  where
    last_is : r1.1.pre ≡ last_stop head (blocks_up d0.cylinders head (cylinder_num - head))
    last_is =
        s1.moved.ended ∙ ap (λ p. last_stop p (blocks_up d0.cylinders head (cylinder_num - head))) e

    turn : Moved r1.1 (stop_at (pos (cylinder_num - 1)) r1.1) (
        turning
          (last_stop head (blocks_up d0.cylinders head (cylinder_num - head)))
          (cylinder_num - 1))
    turn = rw (← last_is) (stop_at-Moved (cylinder_num - 1) r1.1)

pub scan_up-Scanned :
    (req : List ℕ) (head : ℕ) (dir : ℤ)
    → head < cylinder_num
    → downwards dir ≡ false
    → Scanned (start req head) (scan req head dir) (scan_up (start req head).cylinders head)
unfolding start
scan_up-Scanned req head dir small up =
    rw (scan_eq req head dir, s1.stopped, beyond, up)
      (scan-up-Scanned d0 head r1 _ small refl s1 s2)
  where
    d0 : Drive
    d0 = start req head

    r1 : ℤ × Drive
    r1 = sweep_disk dir (pos head) d0

    end : ℕ
    end = cylinder_num - 1

    beyond : head + (cylinder_num - head) ≡ cylinder_num
    beyond = omega arith

    s1 : SweptUp head (cylinder_num - head) d0 r1
    s1 =
        sweep-SweptUp (cylinder_num - head) (cylinder_num + 1) 0 end head dir d0 up (omega arith)
          (omega arith) (omega arith)

    s2 :
        SweptDown 0 cylinder_num
          (stop_at (pos end) r1.1)
          (sweep_disk (pos 0) (pos end) (stop_at (pos end) r1.1))
    s2 =
        sweep-SweptDown cylinder_num (cylinder_num + 1) 0 end (pos 0) (stop_at (pos end) r1.1) refl
          (omega arith) (omega arith)
