-- ===== src/Disk/Fcfs.antt =====
-- Labweek18/HDD_scheduling.c, `FCFS`: the requests are served in the order of their arrival.
use operating_system_homewor.Prelude.{
  ℕ, ◌-◌, ◌<◌, ◌≡◌, List, [], ◌∷◌, ◌++◌, arith, count, count-append,
}
use operating_system_homewor.Disk.{Drive, visit, fcfs_loop, start}
use operating_system_homewor.Disk.Load.{cylinders-start}

pub cylinders-fcfs_loop :
    (req : List ℕ) (d : Drive) (a : ℕ) → (fcfs_loop req d).cylinders a ≡ d.cylinders a - count a req
unfolding fcfs_loop visit
cylinders-fcfs_loop [] d a = omega arith
cylinders-fcfs_loop (id ∷ req) d a = ground (arith, cylinders-fcfs_loop req (visit id d) a)

-- FCFS never takes a request off a cylinder with none: when it comes to serve `id`, after any
-- number of requests, the count of `id` is positive.
fcfs_no_underflow :
    (done rest : List ℕ) (id head : ℕ)
    → 0 < (fcfs_loop done (start (done ++ id ∷ rest) head)).cylinders id
fcfs_no_underflow done rest id head =
    let req = done ++ id ∷ rest in
    ground (
      arith,
      cylinders-fcfs_loop done (start req head) id,
      cylinders-start req head id,
      count-append id done (id ∷ rest),
    )
