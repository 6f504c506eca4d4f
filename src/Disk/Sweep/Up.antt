-- ===== src/Disk/Sweep/Up.antt =====
-- Labweek18/HDD_scheduling.c: a sweep away from cylinder 0 serves its range in ascending order.
use operating_system_homewor.Prelude.{
  ℕ, zero, suc, ◌+◌, ◌≤◌, ◌<◌, ◌≡◌, refl, true, false, ap, arith, leb, ltb, ◌&&◌, if◌then◌else◌,
}
use operating_system_homewor.Prelude.Int.{ℤ, pos, leb_ℤ}
use operating_system_homewor.Disk.{Drive}
use operating_system_homewor.Disk.Path.{Moved, Moved-refl, Moved-trans}
use operating_system_homewor.Disk.Sweep.{serve, sweep, downwards, advance}
use operating_system_homewor.Disk.Sweep.Blocks.{
  blocks_up, blocks_up_congr, blocks_up-suc, blocks_up-zero,
}
use operating_system_homewor.Disk.Sweep.Serve.{serve-Moved, cylinders-serve}

-- A sweep that starts in its range at `h` ends just above `hi`, has served the `n` blocks from `h`
-- up, and leaves the other cylinders alone.
pub record SweptUp (h n : ℕ) (d : Drive) (r : ℤ × Drive) : Type 0 where
  pub stopped : r.0 ≡ pos (h + n)
  pub moved : Moved d r.1 (blocks_up d.cylinders h n)
  pub left : (a : ℕ) → r.1.cylinders a ≡ (if leb h a && ltb a (h + n) then 0 else d.cylinders a)

advance-up : (dir : ℤ) (h : ℕ) → downwards dir ≡ false → advance dir h ≡ pos (h + 1)
advance-up dir zero up = ground arith
advance-up dir (suc h) up = ground arith

above :
    (fuel lo hi h : ℕ) (dir : ℤ) (d : Drive) → hi < h → sweep fuel lo hi dir (pos h) d ≡ (pos h, d)
unfolding sweep
above zero lo hi h dir d out = refl
above (suc fuel) lo hi h dir d out =
    let test : (leb_ℤ (pos lo) (pos h) && leb_ℤ (pos h) (pos hi)) ≡ false = ground arith in rw test

sweep-in :
    (fuel lo hi h : ℕ) (dir : ℤ) (d : Drive)
    → downwards dir ≡ false
    → lo ≤ h
    → h ≤ hi
    → sweep (suc fuel) lo hi dir (pos h) d ≡ sweep fuel lo hi dir (pos (h + 1)) (serve h d)
unfolding sweep
sweep-in fuel lo hi h dir d up ge le =
    let test : (leb_ℤ (pos lo) (pos h) && leb_ℤ (pos h) (pos hi)) ≡ true = ground arith in
    rw (test, advance-up dir h up)

SweptUp-serve :
    (h n : ℕ) (d : Drive) (r : ℤ × Drive) → SweptUp (h + 1) n (serve h d) r → SweptUp h (suc n) d r
SweptUp-serve h n d r s = record {
  stopped = ground (arith, s.stopped);
  moved =
      rw (blocks_up-suc d.cylinders h n)
        (Moved-trans d (serve h d) r.1 _ _ (serve-Moved h d) (rw same at s.moved));
  left = λ a. ground (arith, s.left a, cylinders-serve h d a);
}
  where
    same : blocks_up (serve h d).cylinders (h + 1) n ≡ blocks_up d.cylinders (h + 1) n
    same = blocks_up_congr _ _ (h + 1) n (λ q g l. ground (arith, cylinders-serve h d q))

-- A sweep upwards from inside its range, with fuel for every cylinder, ends just above it and has
-- served all above its start.
pub sweep-SweptUp :
    (n fuel lo hi h : ℕ) (dir : ℤ) (d : Drive)
    → downwards dir ≡ false
    → lo ≤ h
    → h + n ≡ hi + 1
    → n < fuel
    → SweptUp h n d (sweep fuel lo hi dir (pos h) d)
sweep-SweptUp zero fuel lo hi h dir d up ge e enough =
    rw (above fuel lo hi h dir d (omega arith)) (record {
      stopped = ap pos (omega arith);
      moved = rw blocks_up-zero (Moved-refl d);
      left = λ a. ground arith;
    })
sweep-SweptUp (suc n) zero lo hi h dir d up ge e enough = absurd (omega arith)
sweep-SweptUp (suc n) (suc fuel) lo hi h dir d up ge e enough =
    rw (sweep-in fuel lo hi h dir d up ge (omega arith)) (
      SweptUp-serve h n d _ (
        sweep-SweptUp n fuel lo hi (h + 1) dir (serve h d) up (omega arith) (omega arith)
          (omega arith)))
