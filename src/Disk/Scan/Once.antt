-- ===== src/Disk/Scan/Once.antt =====
-- Labweek18/HDD_scheduling.c, `SCAN`: one sweep to the end of the disk and one back.
use mathlib.Core.Path.{fun_ext}
use operating_system_homewor.Prelude.{
  ℕ, ◌+◌, ◌-◌, ◌<◌, ◌≡◌, inl, inr, Bool-cases, List, ◌++◌, arith, count, if◌then◌else◌,
}
use operating_system_homewor.Prelude.Int.{ℤ}
use operating_system_homewor.Disk.{cylinder_num, start}
use operating_system_homewor.Disk.Load.{cylinders-start}
use operating_system_homewor.Disk.Path.{gap, path, last_stop, path-append, last_stop-append}
use operating_system_homewor.Disk.Sweep.{downwards}
use operating_system_homewor.Disk.Sweep.Blocks.{
  blocks_down, blocks_up, path-blocks_down, last_stop-blocks_up-le, path-blocks_up,
}
use operating_system_homewor.Disk.Scan.{scan}
use operating_system_homewor.Disk.Scan.Turn.{
  turning, scan_down, scan_up, Scanned, path-turning, last_stop-turning,
}
use operating_system_homewor.Disk.Scan.Down.{scan_down-Scanned}
use operating_system_homewor.Disk.Scan.Up.{scan_up-Scanned}

-- SCAN from a head on the disk serves every request: after the start it prints the requests of the
-- cylinders from the head to the end in the direction given, in the order in which the head passes
-- them and each as often as it was asked, the end itself if the head did not stop there, and then
-- those of the other side on the way back. The total movement is the length of this path, and
-- nothing is left pending on the disk.
pub scan_correct :
    (req : List ℕ) (head : ℕ) (dir : ℤ)
    → head < cylinder_num
    → let tr =
        if downwards dir
        then scan_down (λ a. count a req) head
        else scan_up (λ a. count a req) head in
      ((scan req head dir).out ≡ (start req head).out ++ tr)
      × ((scan req head dir).sum ≡ path head tr)
      × ((a : ℕ) → a < cylinder_num → (scan req head dir).cylinders a ≡ 0)
unfolding start
scan_correct req head dir small =
    rw (← fun_ext (cylinders-start req head)) (elim (Bool-cases (downwards dir)) [
      | inl down ↦ rw down (finish _ (scan_down-Scanned req head dir small down))
      | inr up ↦ rw up (finish _ (scan_up-Scanned req head dir small up))
    ])
  where
    finish :
        (tr : List ℕ)
        → Scanned (start req head) (scan req head dir) tr
        → ((scan req head dir).out ≡ (start req head).out ++ tr)
          × ((scan req head dir).sum ≡ path head tr)
          × ((a : ℕ) → a < cylinder_num → (scan req head dir).cylinders a ≡ 0)
    finish tr s = (s.moved.printed, omega (arith, s.moved.counted), s.idle)

path-there_and_back :
    (p end : ℕ) (there back : List ℕ)
    → path p (there ++ turning (last_stop p there) end ++ back)
      ≡ path p there + gap (last_stop p there) end + path end back
path-there_and_back p end there back =
    let t = turning (last_stop p there) end in
    rw (
      path-append p (there ++ t) back,
      path-append p there t,
      last_stop-append p there t,
      path-turning,
      last_stop-turning,
    )

-- In closed form: a head going down moves to cylinder 0 and up again to the highest request above
-- its start, or stays at 0 if there is none; a head going up moves to the last cylinder, and down
-- again to the lowest request below its start if there is one.
scan_total :
    (req : List ℕ) (head : ℕ) (dir : ℤ)
    → head < cylinder_num
    → let c : ℕ → ℕ = λ a. count a req in
      let end = cylinder_num - 1 in
      (scan req head dir).sum ≡ (
        if downwards dir
        then head + last_stop 0 (blocks_up c (head + 1) (end - head))
        else (end - head) + (end - last_stop end (blocks_down c 0 head)))
scan_total req head dir small =
    let c : ℕ → ℕ = λ a. count a req in
    let end = cylinder_num - 1 in
    elim (Bool-cases (downwards dir)) [
      | inl down ↦
          let there = blocks_down c 0 (head + 1) in
          let back = blocks_up c (head + 1) (end - head) in
          let total : (scan req head dir).sum ≡ path head (scan_down c head) =
            (rw down at (scan_correct req head dir small)).1 in
          rw (down, total, path-there_and_back head 0 there back)
            (omega (
              arith,
              path-blocks_down c head 0 (head + 1),
              path-blocks_up c 0 (head + 1) (end - head),
            ))
      | inr up ↦
          let there = blocks_up c head (cylinder_num - head) in
          let back = blocks_down c 0 head in
          let total : (scan req head dir).sum ≡ path head (scan_up c head) =
            (rw up at (scan_correct req head dir small)).1 in
          rw (up, total, path-there_and_back head end there back)
            (omega (
              arith,
              path-blocks_up c head head (cylinder_num - head),
              path-blocks_down c end 0 head,
              last_stop-blocks_up-le c head head (cylinder_num - head) end,
            ))
    ]
