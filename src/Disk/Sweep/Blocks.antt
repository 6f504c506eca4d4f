-- ===== src/Disk/Sweep/Blocks.antt =====
-- Labweek18/HDD_scheduling.c: what a sweep serves, cylinder by cylinder, as an explicit list.
use operating_system_homewor.Prelude.{
  ℕ, zero, suc, ◌+◌, ◌≤◌, ◌<◌, ◌≡◌, refl, ap, ap₂, List, [], ◌++◌, arith, count, count-append,
  count-replicate, replicate, leb, ◌&&◌, if◌then◌else◌, ltb,
}
use native.Mathlib.Decide.{dec_lt}
use operating_system_homewor.Disk.Path.{
  path, last_stop, path-append, last_stop-append, path-replicate, last_stop-replicate, path-nil,
  last_stop-nil,
}

-- The requests `c` of the cylinders `lo + n - 1`, ..., `lo`.
pub blocks_down : (ℕ → ℕ) → ℕ → ℕ → List ℕ
blocks_down c lo zero = []
blocks_down c lo (suc n) = replicate (c (lo + n)) (lo + n) ++ blocks_down c lo n

-- The requests `c` of the cylinders `lo`, ..., `lo + n - 1`.
pub blocks_up : (ℕ → ℕ) → ℕ → ℕ → List ℕ
blocks_up c lo zero = []
blocks_up c lo (suc n) = replicate (c lo) lo ++ blocks_up c (lo + 1) n

pub blocks_down_congr :
    (c c' : ℕ → ℕ) (lo n : ℕ)
    → ((q : ℕ) → lo ≤ q → q < lo + n → c q ≡ c' q)
    → blocks_down c lo n ≡ blocks_down c' lo n
unfolding blocks_down
blocks_down_congr c c' lo zero same = refl
blocks_down_congr c c' lo (suc n) same =
    ap₂ ◌++◌ (ap (λ k. replicate k (lo + n)) (same (lo + n) (omega arith) (omega arith)))
      (blocks_down_congr c c' lo n (λ q g l. same q g (omega arith)))

pub blocks_up_congr :
    (c c' : ℕ → ℕ) (lo n : ℕ)
    → ((q : ℕ) → lo ≤ q → q < lo + n → c q ≡ c' q)
    → blocks_up c lo n ≡ blocks_up c' lo n
unfolding blocks_up
blocks_up_congr c c' lo zero same = refl
blocks_up_congr c c' lo (suc n) same =
    ap₂ ◌++◌ (ap (λ k. replicate k lo) (same lo (omega arith) (omega arith)))
      (blocks_up_congr c c' (lo + 1) n (λ q g l. same q (omega arith) (omega arith)))

-- Each cylinder of the range appears as often as it was asked, and no other does.
pub count-blocks_down :
    (c : ℕ → ℕ) (lo n a : ℕ)
    → count a (blocks_down c lo n) ≡ (if leb lo a && ltb a (lo + n) then c a else 0)
unfolding blocks_down
count-blocks_down c lo zero a = ground arith
count-blocks_down c lo (suc n) a = ground (
  arith,
  count-append a (replicate (c (lo + n)) (lo + n)) (blocks_down c lo n),
  count-replicate a (lo + n) (c (lo + n)),
  count-blocks_down c lo n a,
)

pub count-blocks_up :
    (c : ℕ → ℕ) (lo n a : ℕ)
    → count a (blocks_up c lo n) ≡ (if leb lo a && ltb a (lo + n) then c a else 0)
unfolding blocks_up
count-blocks_up c lo zero a = ground arith
count-blocks_up c lo (suc n) a = ground (
  arith,
  count-append a (replicate (c lo) lo) (blocks_up c (lo + 1) n),
  count-replicate a lo (c lo),
  count-blocks_up c (lo + 1) n a,
)

-- A descending run from `p` covers exactly the distance to its last stop, which is in the range if
-- the run stops at all.
pub path-blocks_down :
    (c : ℕ → ℕ) (p lo n : ℕ)
    → lo + n ≤ p + 1
    → (path p (blocks_down c lo n) + last_stop p (blocks_down c lo n) ≡ p)
unfolding blocks_down
path-blocks_down c p lo zero le = omega (arith, path-nil p, last_stop-nil p)
path-blocks_down c p lo (suc n) le =
    let b = replicate (c (lo + n)) (lo + n) in
    let m = last_stop p b in
    ground (
      arith,
      path-append p b (blocks_down c lo n),
      last_stop-append p b (blocks_down c lo n),
      path-replicate p (lo + n) (c (lo + n)),
      last_stop-replicate p (lo + n) (c (lo + n)),
      path-blocks_down c m lo n,
    )

pub path-blocks_up :
    (c : ℕ → ℕ) (p lo n : ℕ)
    → p ≤ lo
    → (p + path p (blocks_up c lo n) ≡ last_stop p (blocks_up c lo n))
unfolding blocks_up
path-blocks_up c p lo zero le = omega (arith, path-nil p, last_stop-nil p)
path-blocks_up c p lo (suc n) le =
    let b = replicate (c lo) lo in
    let m = last_stop p b in
    ground (
      arith,
      path-append p b (blocks_up c (lo + 1) n),
      last_stop-append p b (blocks_up c (lo + 1) n),
      path-replicate p lo (c lo),
      last_stop-replicate p lo (c lo),
      path-blocks_up c m (lo + 1) n,
    )

-- Where such a run ends: at `p` if nothing was asked of the range,
pub last_stop-quiet_up :
    (c : ℕ → ℕ) (p lo n : ℕ)
    → ((q : ℕ) → lo ≤ q → q < lo + n → c q ≡ 0)
    → last_stop p (blocks_up c lo n) ≡ p
unfolding blocks_up
last_stop-quiet_up c p lo zero quiet = last_stop-nil p
last_stop-quiet_up c p lo (suc n) quiet =
    rw (quiet lo (omega arith) (omega arith))
      (last_stop-quiet_up c p (lo + 1) n (λ q g l. quiet q (omega arith) (omega arith)))

-- and else at the outermost cylinder that was asked.
pub last_stop-blocks_up :
    (c : ℕ → ℕ) (p lo n h : ℕ)
    → lo ≤ h
    → h < lo + n
    → 0 < c h
    → ((q : ℕ) → h < q → q < lo + n → c q ≡ 0)
    → last_stop p (blocks_up c lo n) ≡ h
unfolding blocks_up
last_stop-blocks_up c p lo zero h ge lt asked top = absurd (omega arith)
last_stop-blocks_up c p lo (suc n) h ge lt asked top =
    let b = replicate (c lo) lo in
    elim (dec_lt lo h) [
      | yes below ↦ rw (last_stop-append p b (blocks_up c (lo + 1) n)) (
          last_stop-blocks_up c (last_stop p b) (lo + 1) n h (omega arith) (omega arith) asked
            (λ q g l. top q g (omega arith)))
      | no here ↦ rw (last_stop-append p b (blocks_up c (lo + 1) n)) (
          ground (
            arith,
            last_stop-replicate p lo (c lo),
            last_stop-quiet_up c (last_stop p b) (lo + 1) n
                (λ q g l. top q (omega arith) (omega arith)),
          ))
    ]

-- The first block of a run.
pub blocks_down-suc :
    (c : ℕ → ℕ) (lo n : ℕ)
    → blocks_down c lo (suc n) ≡ replicate (c (lo + n)) (lo + n) ++ blocks_down c lo n
unfolding blocks_down
blocks_down-suc c lo n = refl

pub blocks_up-suc :
    (c : ℕ → ℕ) (lo n : ℕ) → blocks_up c lo (suc n) ≡ replicate (c lo) lo ++ blocks_up c (lo + 1) n
unfolding blocks_up
blocks_up-suc c lo n = refl

pub blocks_down-zero : (c : ℕ → ℕ) (lo : ℕ) → blocks_down c lo 0 ≡ []
unfolding blocks_down
blocks_down-zero c lo = refl

pub blocks_up-zero : (c : ℕ → ℕ) (lo : ℕ) → blocks_up c lo 0 ≡ []
unfolding blocks_up
blocks_up-zero c lo = refl

-- Cylinders with no request add nothing to a run.
pub blocks_up-skip :
    (c : ℕ → ℕ) (lo m n : ℕ)
    → ((q : ℕ) → lo ≤ q → q < lo + m → c q ≡ 0)
    → blocks_up c lo (m + n) ≡ blocks_up c (lo + m) n
blocks_up-skip c lo zero n quiet =
    let e : lo + 0 ≡ lo = omega arith in let f : 0 + n ≡ n = omega arith in rw (e, f)
blocks_up-skip c lo (suc m) n quiet =
    let e : suc m + n ≡ suc (m + n) = omega arith in
    let f : lo + suc m ≡ lo + 1 + m = omega arith in
    rw (e, f, blocks_up-suc c lo (m + n), quiet lo (omega arith) (omega arith))
      (blocks_up-skip c (lo + 1) m n (λ q g l. quiet q (omega arith) (omega arith)))

pub blocks_down-skip :
    (c : ℕ → ℕ) (lo m n : ℕ)
    → ((q : ℕ) → lo ≤ q → q < lo + m → c q ≡ 0)
    → blocks_down c lo (m + n) ≡ blocks_down c (lo + m) n
blocks_down-skip c lo m zero quiet =
    let e : m + 0 ≡ m = omega arith in rw (e, blocks_down-zero c (lo + m)) (quiet_down c lo m quiet)
  where
    quiet_down :
        (c : ℕ → ℕ) (lo m : ℕ) → ((q : ℕ) → lo ≤ q → q < lo + m → c q ≡ 0) → blocks_down c lo m ≡ []
    quiet_down c lo zero quiet = blocks_down-zero c lo
    quiet_down c lo (suc m) quiet =
        rw (blocks_down-suc c lo m, quiet (lo + m) (omega arith) (omega arith))
          (quiet_down c lo m (λ q g l. quiet q g (omega arith)))
blocks_down-skip c lo m (suc n) quiet =
    let e : m + suc n ≡ suc (m + n) = omega arith in
    let f : lo + (m + n) ≡ lo + m + n = omega arith in
    rw (
      e,
      blocks_down-suc c lo (m + n),
      blocks_down-suc c (lo + m) n,
      f,
      blocks_down-skip c lo m n quiet,
    )

pub blocks_down-skip_top :
    (c : ℕ → ℕ) (lo n m : ℕ)
    → ((q : ℕ) → lo + n ≤ q → q < lo + n + m → c q ≡ 0)
    → blocks_down c lo (n + m) ≡ blocks_down c lo n
blocks_down-skip_top c lo n zero quiet = let e : n + 0 ≡ n = omega arith in rw e
blocks_down-skip_top c lo n (suc m) quiet =
    let e : n + suc m ≡ suc (n + m) = omega arith in
    rw (e, blocks_down-suc c lo (n + m), quiet (lo + (n + m)) (omega arith) (omega arith))
      (blocks_down-skip_top c lo n m (λ q g l. quiet q g (omega arith)))

pub blocks_up-skip_top :
    (c : ℕ → ℕ) (lo n m : ℕ)
    → ((q : ℕ) → lo + n ≤ q → q < lo + n + m → c q ≡ 0)
    → blocks_up c lo (n + m) ≡ blocks_up c lo n
blocks_up-skip_top c lo zero m quiet =
    let e : 0 + m ≡ m + 0 = omega arith in
    rw (
      e,
      blocks_up-skip c lo m 0 (λ q g l. quiet q (omega arith) (omega arith)),
      blocks_up-zero c (lo + m),
      blocks_up-zero c lo,
    )
blocks_up-skip_top c lo (suc n) m quiet =
    let e : suc n + m ≡ suc (n + m) = omega arith in
    rw (
      e,
      blocks_up-suc c lo (n + m),
      blocks_up-suc c lo n,
      blocks_up-skip_top c (lo + 1) n m (λ q g l. quiet q (omega arith) (omega arith)),
    )

-- A run ends in its range or where it started.
pub last_stop-blocks_up-le :
    (c : ℕ → ℕ) (p lo n m : ℕ) → p ≤ m → lo + n ≤ m + 1 → last_stop p (blocks_up c lo n) ≤ m
unfolding blocks_up
last_stop-blocks_up-le c p lo zero m ge le = omega (arith, last_stop-nil p)
last_stop-blocks_up-le c p lo (suc n) m ge le =
    let b = replicate (c lo) lo in
    ground (
      arith,
      last_stop-append p b (blocks_up c (lo + 1) n),
      last_stop-replicate p lo (c lo),
      last_stop-blocks_up-le c (last_stop p b) (lo + 1) n m,
    )
