-- ===== src/Disk/Sweep/Down.antt =====
-- Labweek18/HDD_scheduling.c: a sweep towards cylinder 0 serves its range in descending order.
use operating_system_homewor.Prelude.{
  ℕ, zero, suc, ◌+◌, ◌≤◌, ◌<◌, ◌≡◌, refl, true, arith, leb, ltb, ◌&&◌, if◌then◌else◌,
}
use operating_system_homewor.Prelude.Int.{ℤ, pos, sub_ℕ, leb_ℤ}
use operating_system_homewor.Disk.{Drive}
use operating_system_homewor.Disk.Path.{Moved, Moved-refl, Moved-trans}
use operating_system_homewor.Disk.Sweep.{serve, sweep, downwards, advance}
use operating_system_homewor.Disk.Sweep.Blocks.{
  blocks_down, blocks_down_congr, blocks_down-suc, blocks_down-zero,
}
use operating_system_homewor.Disk.Sweep.Serve.{serve-Moved, cylinders-serve}

-- A sweep that starts in its range at `lo + n - 1` ends just below `lo`, has served the `n` blocks
-- from there down, and leaves the other cylinders alone.
pub record SweptDown (lo n : ℕ) (d : Drive) (r : ℤ × Drive) : Type 0 where
  pub stopped : r.0 ≡ sub_ℕ lo 1
  pub moved : Moved d r.1 (blocks_down d.cylinders lo n)
  pub left : (a : ℕ) → r.1.cylinders a ≡ (if leb lo a && ltb a (lo + n) then 0 else d.cylinders a)

advance-down : (dir : ℤ) (h : ℕ) → downwards dir ≡ true → advance dir h ≡ sub_ℕ h 1
advance-down dir zero down = ground arith
advance-down dir (suc h) down = ground arith

below :
    (fuel lo hi : ℕ) (dir : ℤ) (d : Drive)
    → 0 < fuel
    → sweep fuel lo hi dir (sub_ℕ lo 1) d ≡ (sub_ℕ lo 1, d)
unfolding sweep
below zero lo hi dir d more = absurd (omega arith)
below (suc fuel) zero hi dir d more = refl
below (suc fuel) (suc lo) hi dir d more = ground arith

-- One round in the range.
sweep-in :
    (fuel lo hi h : ℕ) (dir : ℤ) (d : Drive)
    → downwards dir ≡ true
    → lo ≤ h
    → h ≤ hi
    → sweep (suc fuel) lo hi dir (pos h) d ≡ sweep fuel lo hi dir (sub_ℕ h 1) (serve h d)
unfolding sweep
sweep-in fuel lo hi h dir d down ge le =
    let test : (leb_ℤ (pos lo) (pos h) && leb_ℤ (pos h) (pos hi)) ≡ true = ground arith in
    rw (test, advance-down dir h down)

SweptDown-serve :
    (lo n : ℕ) (d : Drive) (r : ℤ × Drive)
    → SweptDown lo n (serve (lo + n) d) r
    → SweptDown lo (suc n) d r
SweptDown-serve lo n d r s = record {
  stopped = s.stopped;
  moved =
      rw (blocks_down-suc d.cylinders lo n)
        (Moved-trans d (serve (lo + n) d) r.1 _ _ (serve-Moved (lo + n) d) (rw same at s.moved));
  left = λ a. ground (arith, s.left a, cylinders-serve (lo + n) d a);
}
  where
    same : blocks_down (serve (lo + n) d).cylinders lo n ≡ blocks_down d.cylinders lo n
    same = blocks_down_congr _ _ lo n (λ q g l. ground (arith, cylinders-serve (lo + n) d q))

-- A sweep towards 0 from inside its range, with fuel for every cylinder, ends just outside and has
-- served all below its start.
pub sweep-SweptDown :
    (n fuel lo hi : ℕ) (dir : ℤ) (d : Drive)
    → downwards dir ≡ true
    → lo + n ≤ hi + 1
    → n < fuel
    → SweptDown lo n d (sweep fuel lo hi dir (sub_ℕ (lo + n) 1) d)
sweep-SweptDown zero fuel lo hi dir d down inside enough =
    let e : lo + 0 ≡ lo = omega arith in
    rw (e, below fuel lo hi dir d enough)
      (record {
        stopped = refl;
        moved = rw blocks_down-zero (Moved-refl d);
        left = λ a. ground arith;
      })
sweep-SweptDown (suc n) zero lo hi dir d down inside enough = absurd (omega arith)
sweep-SweptDown (suc n) (suc fuel) lo hi dir d down inside enough =
    let e : sub_ℕ (lo + suc n) 1 ≡ pos (lo + n) = ground arith in
    rw (e, sweep-in fuel lo hi (lo + n) dir d down (omega arith) (omega arith))
      (SweptDown-serve lo n d _
        (sweep-SweptDown n fuel lo hi dir (serve (lo + n) d) down (omega arith) (omega arith)))
