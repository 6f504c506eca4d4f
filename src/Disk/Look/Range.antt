-- ===== src/Disk/Look/Range.antt =====
-- Labweek18/HDD_scheduling.c: the loop of `LOOK` and `C_LOOK` that finds the outermost requests.
use operating_system_homewor.Prelude.{
  ℕ, ◌≤◌, ◌<◌, ◌≢◌, refl, List, [], ◌∷◌, arith, count, All, ltb, if◌then◌else◌,
}
use operating_system_homewor.Disk.{cylinder_num}
use operating_system_homewor.Disk.Look.{Bounds, range_loop, request_range}

-- The loop can only widen the range that it starts from, and what it passes lies inside.
record Widened (b b' : Bounds) (req : List ℕ) : Type 0 where
  lower : b'.low ≤ b.low
  higher : b.high ≤ b'.high
  inside : (a : ℕ) → 0 < count a req → (b'.low ≤ a) × (a ≤ b'.high)

abbrev widen : ℕ → Bounds → Bounds
widen id b = record {
  low = if ltb id b.low then id else b.low;
  high = if ltb b.high id then id else b.high;
}

range_loop-Widened : (req : List ℕ) (b : Bounds) → Widened b (range_loop req b) req
unfolding range_loop
range_loop-Widened [] b = record {
  lower = omega arith;
  higher = omega arith;
  inside = λ a h. absurd (omega arith);
}
range_loop-Widened (id ∷ req) b =
    let w = range_loop-Widened req (widen id b) in
    record {
      lower = ground (arith, w.lower);
      higher = ground (arith, w.higher);
      inside = λ a h. ground (arith, w.inside a, w.lower, w.higher);
    }

range_loop-lt :
    (req : List ℕ) (b : Bounds)
    → All (λ x. x < cylinder_num) req
    → b.high < cylinder_num
    → (range_loop req b).high < cylinder_num
unfolding range_loop
range_loop-lt [] b small h = h
range_loop-lt (id ∷ req) b small h = range_loop-lt req _ small.1 (ground (arith, small.0))

-- Every request lies in the range, the range is not empty and lies on the disk.
pub record IsRange (req : List ℕ) (b : Bounds) : Type 0 where
  pub ordered : b.low ≤ b.high
  pub on_disk : b.high < cylinder_num
  pub inside : (a : ℕ) → 0 < count a req → (b.low ≤ a) × (a ≤ b.high)

pub request_range-IsRange :
    (req : List ℕ) → req ≢ [] → All (λ x. x < cylinder_num) req → IsRange req (request_range req)
unfolding request_range
request_range-IsRange [] some small = absurd (some refl)
request_range-IsRange (id ∷ req) some small =
    let b : Bounds = record { low = id; high = id } in
    let w = range_loop-Widened (id ∷ req) b in
    record {
      ordered = omega (arith, w.lower, w.higher);
      on_disk = range_loop-lt (id ∷ req) b small small.0;
      inside = w.inside;
    }
