-- ===== src/Disk/Tests.antt =====
-- Labweek18/HDD_scheduling.c: the algorithms on the usual queue of eight requests with the head at
-- 53, and the theorems at such inputs.
use operating_system_homewor.Prelude.{
  ℕ, ◌<◌, ◌≡◌, refl, some, List, [], ◌∷◌, ◌++◌, arith, count, All,
}
use operating_system_homewor.Prelude.Int.{ℤ, pos}
use operating_system_homewor.Disk.{
  cylinder_num, Drive, start, visit, fcfs, find_cylinder_min_seek_dis, sstf, abs_int,
}
use operating_system_homewor.Disk.Path.{path}
use operating_system_homewor.Disk.Nearest.{IsNearest, find_cylinder_min_seek_dis-IsNearest}
use operating_system_homewor.Disk.Sstf.{Greedy, sstf_correct}
use operating_system_homewor.Disk.Sweep.{serve_loop, serve, sweep}
use operating_system_homewor.Disk.Scan.{scan}
use operating_system_homewor.Disk.Scan.Turn.{scan_down}
use operating_system_homewor.Disk.Scan.Once.{scan_correct}
use operating_system_homewor.Disk.Scan.Circular.{CircularRun, c_scan_correct}
use operating_system_homewor.Disk.Look.{look}

abbrev queue : List ℕ
queue = 98 ∷ 183 ∷ 37 ∷ 122 ∷ 14 ∷ 124 ∷ 65 ∷ 67 ∷ []

abbrev toward_zero : ℤ
toward_zero = pos 0

abbrev upward : ℤ
upward = pos 1

fcfs_moves : (fcfs queue 53).sum ≡ 640
unfolding fcfs start visit abs_int
fcfs_moves = refl

scan_moves : (scan queue 53 toward_zero).sum ≡ 236
unfolding scan start visit abs_int sweep serve serve_loop
scan_moves = refl

scan_prints :
    (scan queue 53 toward_zero).out ≡ 53 ∷ 37 ∷ 14 ∷ 0 ∷ 65 ∷ 67 ∷ 98 ∷ 122 ∷ 124 ∷ 183 ∷ []
unfolding scan start visit abs_int sweep serve serve_loop
scan_prints = refl

look_moves : (look queue 53 toward_zero).sum ≡ 208
unfolding look start visit abs_int sweep serve serve_loop
look_moves = refl

-- From above all requests the head moves 199 - 14 = 185 cylinders.
look_moves_above : (look queue 199 toward_zero).sum ≡ 354
unfolding look start visit abs_int sweep serve serve_loop
look_moves_above = refl

sstf_runs : (d : Drive) × (sstf queue 53 ≡ some d) × (d.sum ≡ 236)
unfolding sstf find_cylinder_min_seek_dis start visit abs_int
sstf_runs = (_, refl, refl)

queue-small : All (λ x. x < cylinder_num) queue
queue-small = omega arith

find_cylinder_min_seek_dis-IsNearest_example :
    (r : ℤ) × (find_cylinder_min_seek_dis (λ a. count a queue) 53 ≡ some r)
    × IsNearest (λ a. count a queue) 53 r
find_cylinder_min_seek_dis-IsNearest_example =
    find_cylinder_min_seek_dis-IsNearest (λ a. count a queue) 53 (omega arith)

sstf_correct_example :
    (d : Drive) × (tr : List ℕ) × (sstf queue 53 ≡ some d)
    × (d.out ≡ (start queue 53).out ++ tr)
    × (d.sum ≡ path 53 tr)
    × Greedy (start queue 53).cylinders 53 tr
    × ((a : ℕ) → count a tr ≡ count a queue)
    × ((a : ℕ) → d.cylinders a ≡ 0)
sstf_correct_example = sstf_correct queue 53 refl queue-small (omega arith)

scan_correct_example :
    ((scan queue 53 toward_zero).out ≡ (start queue 53).out ++ scan_down (λ a. count a queue) 53)
    × ((scan queue 53 toward_zero).sum ≡ path 53 (scan_down (λ a. count a queue) 53))
    × ((a : ℕ) → a < cylinder_num → (scan queue 53 toward_zero).cylinders a ≡ 0)
scan_correct_example = scan_correct queue 53 toward_zero (omega arith)

c_scan_correct_example : CircularRun queue 53 upward (λ a. count a queue)
c_scan_correct_example = c_scan_correct queue 53 upward (omega arith)
