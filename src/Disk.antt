-- ===== src/Disk.antt =====
-- Labweek18/HDD_scheduling.c: the state of the simulated drive, the helpers of the six
-- scheduling algorithms, and FCFS and SSTF. The children hold the sweeping algorithms and the proofs.
pub mod Path
pub mod Load
pub mod Nearest
pub mod Fcfs
pub mod Sstf
pub mod Sweep
pub mod Scan
pub mod Look
mod Tests
use operating_system_homewor.Prelude.{
  ℕ, zero, suc, ◌+◌, ◌-◌, Bool, true, false, ◌&&◌, ◌||◌, Option, none, some, List, [], ◌∷◌, ◌++◌,
  ltb, ◌==◌, if◌then◌else◌, update,
}
use operating_system_homewor.Prelude.Int.{ℤ, pos, negsuc, sub_ℕ, leb_ℤ}

abbrev pub cylinder_req_num : ℕ
cylinder_req_num = 8

abbrev pub cylinder_num : ℕ
cylinder_num = 200

-- What the algorithms update: the pending requests of each cylinder, the last stop of the head
-- (`pre_cylinder_head`; FCFS and SSTF keep it in `cylinder_head`), `head_move_sum`, and the
-- cylinders printed so far.
pub record Drive : Type 0 where
  pub cylinders : ℕ → ℕ
  pub pre : ℕ
  pub sum : ℕ
  pub out : List ℕ

-- The result is not negative, so it is a plain number.
pub abs_int : ℤ → ℕ
abs_int (pos n) = n
abs_int (negsuc n) = suc n

-- `abs_int(a - b)`
abbrev pub seek_distance : ℕ → ℕ → ℕ
seek_distance a b = abs_int (sub_ℕ a b)

pub set_cylinders : (ℕ → ℕ) → List ℕ → ℕ → ℕ
set_cylinders c [] = c
set_cylinders c (id ∷ req) = set_cylinders (update c id (c id + 1)) req

-- The common prologue: clear the cylinders, count the requests, and print the start of the head
-- if nothing is asked of its cylinder.
pub start : List ℕ → ℕ → Drive
unfolding set_cylinders
start req head =
    let c = set_cylinders (λ _. 0) req in
    record { cylinders = c; pre = head; sum = 0; out = if c head == 0 then head ∷ [] else [] }

-- Print a stop, take one request off its cylinder, add the distance and move the head there.
-- A count is decremented only where it is positive (`Fcfs` and `Sstf` show it), so it is a number.
pub visit : ℕ → Drive → Drive
visit id d = record d {
  cylinders = update d.cylinders id (d.cylinders id - 1);
  pre = id;
  sum = d.sum + seek_distance d.pre id;
  out = d.out ++ id ∷ [];
}

pub fcfs_loop : List ℕ → Drive → Drive
fcfs_loop [] d = d
fcfs_loop (id ∷ req) d = fcfs_loop req (visit id d)

pub fcfs : List ℕ → ℕ → Drive
unfolding fcfs_loop
fcfs req head = fcfs_loop req (start req head)

-- The two scanning variables of `find_cylinder_min_seek_dis`: whether one stands on a pending
-- cylinder, and where it goes next. `dir0` becomes -1 past cylinder 0.
abbrev hit_down : (ℕ → ℕ) → ℤ → Bool
hit_down c (pos n) = ltb 0 (c n)
hit_down c (negsuc n) = false

abbrev hit_up : (ℕ → ℕ) → ℕ → Bool
hit_up c n = ltb n cylinder_num && ltb 0 (c n)

abbrev next_down : ℤ → ℤ
next_down (pos zero) = negsuc 0
next_down (pos (suc n)) = pos n
next_down (negsuc n) = negsuc n

abbrev next_up : ℕ → ℕ
next_up n = if ltb n cylinder_num then n + 1 else n

-- `none` means that the fuel ran out.
pub find_loop : ℕ → (ℕ → ℕ) → ℤ → ℕ → Option ℤ
find_loop zero c dir0 dir1 = none
find_loop (suc fuel) c dir0 dir1 =
    let rest = find_loop fuel c (next_down dir0) (next_up dir1) in
    if leb_ℤ (pos 0) dir0 || ltb dir1 cylinder_num
    then if hit_down c dir0 then some dir0 else if hit_up c dir1 then some (pos dir1) else rest
    else some (negsuc 0)

pub find_cylinder_min_seek_dis : (ℕ → ℕ) → ℕ → Option ℤ
unfolding find_loop
find_cylinder_min_seek_dis c head = find_loop (cylinder_num + 1) c (pos head) head

-- `none` is a fault: with no pending request the source writes `cylinders[-1]`.
sstf_visit : Option ℤ → Drive → Option Drive
sstf_visit (some (pos id)) d = some (visit id d)
sstf_visit _ d = none

pub sstf_loop : ℕ → Drive → Option Drive
sstf_loop zero d = some d
sstf_loop (suc n) d = elim (sstf_visit (find_cylinder_min_seek_dis d.cylinders d.pre) d) [
  | none ↦ none
  | some d' ↦ sstf_loop n d'
]

pub sstf : List ℕ → ℕ → Option Drive
unfolding sstf_loop sstf_visit
sstf req head = sstf_loop cylinder_req_num (start req head)
