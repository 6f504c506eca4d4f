-- ===== src/Disk/Sstf.antt =====
-- Labweek18/HDD_scheduling.c, `SSTF`: it never runs out of requests, and each stop is a nearest one.
use operating_system_homewor.Prelude.{
  ℕ, zero, suc, ◌-◌, ◌<◌, ◌≡◌, refl, some, List, [], ◌∷◌, ◌++◌, arith, length, count, update, All,
  remove_first, count-remove_first, length-remove_first, remove_first-All,
}
use operating_system_homewor.Prelude.Int.{ℤ, pos, negsuc}
use operating_system_homewor.Disk.{
  cylinder_num, cylinder_req_num, Drive, visit, find_cylinder_min_seek_dis, sstf_visit, sstf_loop,
  sstf, start,
}
use operating_system_homewor.Disk.Path.{path, Moved, Moved-refl, Moved-trans, visit-Moved}
use operating_system_homewor.Disk.Load.{cylinders-start}
use operating_system_homewor.Disk.Nearest.{IsNearest, find_cylinder_min_seek_dis-IsNearest}

-- Shortest seek first, as a rule for whole runs: each stop is a pending cylinder that is nearest
-- to the one before, and takes one request off.
abbrev pub Greedy : (ℕ → ℕ) → ℕ → List ℕ → Type 0
Greedy c head [] = Unit
Greedy c head (p ∷ ps) = IsNearest c head (pos p) × Greedy (update c p (c p - 1)) p ps

-- What the loop has done when `rem` lists the requests that were pending before it.
record Ran (rem : List ℕ) (d d' : Drive) (tr : List ℕ) : Type 0 where
  moved : Moved d d' tr
  greedy : Greedy d.cylinders d.pre tr
  served : (a : ℕ) → count a tr ≡ count a rem
  idle : (a : ℕ) → d'.cylinders a ≡ 0

Ran-visit :
    (rem : List ℕ) (d d' : Drive) (p : ℕ) (tr : List ℕ)
    → IsNearest d.cylinders d.pre (pos p)
    → ((a : ℕ) → d.cylinders a ≡ count a rem)
    → Ran (remove_first p rem) (visit p d) d' tr
    → Ran rem d d' (p ∷ tr)
unfolding visit
Ran-visit rem d d' p tr near load r = record {
  moved = Moved-trans d (visit p d) d' (p ∷ []) tr (visit-Moved p d) r.moved;
  greedy = (near, r.greedy);
  served = λ a. ground (arith, r.served a, count-remove_first p a rem, load p, near.1);
  idle = r.idle;
}

-- With a request pending the search answers a cylinder.
find-pos :
    (c : ℕ → ℕ) (head x : ℕ)
    → head < cylinder_num
    → x < cylinder_num
    → 0 < c x
    → (p : ℕ) × (find_cylinder_min_seek_dis c head ≡ some (pos p)) × IsNearest c head (pos p)
find-pos c head x inside small asked =
    let (r, found, near) = find_cylinder_min_seek_dis-IsNearest c head inside in go r found near
  where
    go :
        (r : ℤ)
        → find_cylinder_min_seek_dis c head ≡ some r
        → IsNearest c head r
        → (p : ℕ) × (find_cylinder_min_seek_dis c head ≡ some (pos p)) × IsNearest c head (pos p)
    go (pos p) found near = (p, found, near)
    go (negsuc m) found near = absurd (omega (arith, near.1 x small))

sstf_loop-Ran :
    (n : ℕ) (rem : List ℕ) (d : Drive)
    → length rem ≡ n
    → All (λ x. x < cylinder_num) rem
    → ((a : ℕ) → d.cylinders a ≡ count a rem)
    → d.pre < cylinder_num
    → (d' : Drive) × (tr : List ℕ) × (sstf_loop n d ≡ some d') × Ran rem d d' tr
unfolding sstf_loop sstf_visit visit
sstf_loop-Ran zero [] d e small load inside =
    (d, [], refl, record { moved = Moved-refl d; greedy = tt; served = λ a. refl; idle = load })
sstf_loop-Ran zero (x ∷ rem) d e small load inside = absurd (omega arith)
sstf_loop-Ran (suc n) [] d e small load inside = absurd (omega arith)
sstf_loop-Ran (suc n) (x ∷ rem) d e small load inside =
    let (p, found, near) = find-pos d.cylinders d.pre x inside small.0 (ground (arith, load x)) in
    let (d', tr, ran, r) =
      sstf_loop-Ran n (remove_first p (x ∷ rem)) (visit p d)
        (omega (arith, length-remove_first p (x ∷ rem) (omega (arith, load p, near.1))))
        (remove_first-All (λ y. y < cylinder_num) p (x ∷ rem) small)
        (λ a. ground (arith, count-remove_first p a (x ∷ rem), load a, load p)) near.0 in
    (d', p ∷ tr, rw (found, sstf_loop) ran, Ran-visit (x ∷ rem) d d' p tr near load r)

-- With the eight requests and the head on the disk, SSTF ends without a fault. It prints the start
-- and then a run in which each stop is a pending cylinder nearest to the one before (the lower of
-- two as near); the run serves every request as often as it was asked and leaves none pending, and
-- the total movement is the length of its path from the start of the head.
pub sstf_correct :
    (req : List ℕ) (head : ℕ)
    → length req ≡ cylinder_req_num
    → All (λ x. x < cylinder_num) req
    → head < cylinder_num
    → (d : Drive) × (tr : List ℕ) × (sstf req head ≡ some d)
      × (d.out ≡ (start req head).out ++ tr)
      × (d.sum ≡ path head tr)
      × Greedy (start req head).cylinders head tr
      × ((a : ℕ) → count a tr ≡ count a req)
      × ((a : ℕ) → d.cylinders a ≡ 0)
unfolding sstf start
sstf_correct req head eight small inside =
    let (d, tr, ran, r) =
      sstf_loop-Ran cylinder_req_num req (start req head) eight small (cylinders-start req head)
        inside in
    (d, tr, ran, r.moved.printed, omega (arith, r.moved.counted), r.greedy, r.served, r.idle)
