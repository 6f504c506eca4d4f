-- ===== src/Disk/Nearest.antt =====
-- Labweek18/HDD_scheduling.c, `find_cylinder_min_seek_dis`: the cylinder that the search in both
-- directions stops at is the nearest pending one, and there is none exactly when it answers -1.
use Prim.Native.Nat.{min}
use operating_system_homewor.Prelude.{
  ℕ, zero, suc, ◌+◌, ◌≤◌, ◌<◌, ◌≡◌, refl, ◌⊎◌, inl, inr, true, false, some, arith, ◌||◌, ltb,
  Bool-cases, ltb→lt, ltb→le,
}
use operating_system_homewor.Prelude.Int.{ℤ, pos, negsuc, leb_ℤ}
use operating_system_homewor.Disk.{
  cylinder_num, hit_down, hit_up, next_down, next_up, find_loop, find_cylinder_min_seek_dis,
}
use operating_system_homewor.Disk.Path.{gap}

-- What an answer says of the pending requests `c`: a nearest pending cylinder, the lower one of
-- two that are as near; or -1, and nothing is pending.
abbrev pub IsNearest : (ℕ → ℕ) → ℕ → ℤ → Type 0
IsNearest c head (pos p) =
    (p < cylinder_num)
    × (0 < c p)
    × ((q : ℕ) → q < cylinder_num → 0 < c q → gap head p ≤ gap head q)
    × ((q : ℕ) → q < cylinder_num → 0 < c q → gap head p ≡ gap head q → p ≤ q)
IsNearest c head (negsuc n) = (n ≡ 0) × ((q : ℕ) → q < cylinder_num → c q ≡ 0)

-- After `k` rounds the lower variable is `k` below the head, or -1.
abbrev Below : ℕ → ℕ → ℤ → Type 0
Below head k (pos n) = n + k ≡ head
Below head k (negsuc n) = (n ≡ 0) × (head < k)

-- Nothing is pending nearer than `k`.
abbrev Quiet : (ℕ → ℕ) → ℕ → ℕ → Type 0
Quiet c head k = (q : ℕ) → q < cylinder_num → gap head q < k → c q ≡ 0

next_down-Below : (head k : ℕ) (d : ℤ) → Below head k d → Below head (k + 1) (next_down d)
next_down-Below head k (pos zero) h = omega arith
next_down-Below head k (pos (suc n)) h = omega arith
next_down-Below head k (negsuc n) h = omega arith

-- The two cylinders at distance `k` are those that the variables stand on.
at_down :
    (c : ℕ → ℕ) (head k q : ℕ) (d : ℤ)
    → Below head k d
    → hit_down c d ≡ false
    → q + k ≡ head
    → c q ≡ 0
at_down c head k q (pos n) b miss e =
    let same : n ≡ q = omega arith in rw (← same) (omega (arith, ltb→le 0 (c n) miss))
at_down c head k q (negsuc n) b miss e = absurd (omega arith)

at_up :
    (c : ℕ → ℕ) (head k q u : ℕ)
    → u ≡ min (head + k) cylinder_num
    → hit_up c u ≡ false
    → q < cylinder_num
    → head + k ≡ q
    → c q ≡ 0
at_up c head k q u e miss small s = let same : u ≡ q = omega arith in ground arith

near_split :
    (head k q : ℕ) → gap head q < k + 1 → (gap head q < k) ⊎ ((q + k ≡ head) ⊎ (head + k ≡ q))
near_split head k q h = omega arith

-- A pending cylinder is not nearer than `k`.
far : (c : ℕ → ℕ) (head k q : ℕ) → Quiet c head k → q < cylinder_num → 0 < c q → k ≤ gap head q
far c head k q quiet small asked = ground (arith, quiet q small)

-- The next round: neither variable stands on a pending cylinder.
Quiet-next :
    (c : ℕ → ℕ) (head k : ℕ) (d : ℤ) (u : ℕ)
    → Below head k d
    → u ≡ min (head + k) cylinder_num
    → hit_down c d ≡ false
    → hit_up c u ≡ false
    → Quiet c head k
    → Quiet c head (k + 1)
Quiet-next c head k d u b e nd nu quiet q small near = elim (near_split head k q near) [
  | inl less ↦ quiet q small less
  | inr (inl low) ↦ at_down c head k q d b nd low
  | inr (inr high) ↦ at_up c head k q u e nu small high
]

-- Where a variable stands on a pending cylinder, that one is nearest.
IsNearest-down :
    (c : ℕ → ℕ) (head k : ℕ) (d : ℤ)
    → head < cylinder_num
    → Below head k d
    → hit_down c d ≡ true
    → Quiet c head k
    → IsNearest c head d
IsNearest-down c head k (pos n) small b hit quiet = (
  omega arith,
  ltb→lt 0 (c n) hit,
  λ q s a. omega (arith, far c head k q quiet s a),
  λ q s a. omega (arith, far c head k q quiet s a),
)
IsNearest-down c head k (negsuc n) small b hit quiet = cc

IsNearest-up :
    (c : ℕ → ℕ) (head k : ℕ) (d : ℤ) (u : ℕ)
    → head < cylinder_num
    → Below head k d
    → u ≡ min (head + k) cylinder_num
    → hit_down c d ≡ false
    → hit_up c u ≡ true
    → Quiet c head k
    → IsNearest c head (pos u)
IsNearest-up c head k d u small b e miss hit quiet =
    let inside : u < cylinder_num = ground arith in
    (
      inside,
      ground arith,
      λ q s a. omega (arith, far c head k q quiet s a),
      λ q s a same. ground (arith, far c head k q quiet s a, at_down c head k q d b miss),
    )

next_up-eq :
    (head k u : ℕ) → u ≡ min (head + k) cylinder_num → next_up u ≡ min (head + (k + 1)) cylinder_num
next_up-eq head k u e = ground arith

-- While the loop goes on a variable is inside, and `k` is below the number of cylinders.
more_room :
    (c : ℕ → ℕ) (head k : ℕ) (d : ℤ) (u : ℕ)
    → head < cylinder_num
    → Below head k d
    → u ≡ min (head + k) cylinder_num
    → (leb_ℤ (pos 0) d || ltb u cylinder_num) ≡ true
    → k + 1 ≤ cylinder_num
more_room c head k (pos n) u small b e more = omega arith
more_room c head k (negsuc n) u small b e more = ground arith

-- When both variables are outside, nothing is pending anywhere.
over-Quiet :
    (c : ℕ → ℕ) (head k : ℕ) (d : ℤ) (u : ℕ)
    → Below head k d
    → u ≡ min (head + k) cylinder_num
    → (leb_ℤ (pos 0) d || ltb u cylinder_num) ≡ false
    → Quiet c head k
    → (q : ℕ) → q < cylinder_num
    → c q ≡ 0
over-Quiet c head k (pos n) u b e over quiet q small = ground arith
over-Quiet c head k (negsuc n) u b e over quiet q small = ground (arith, quiet q small)

-- From a reachable state of the search, enough fuel gives a nearest pending cylinder.
find_loop-IsNearest :
    (fuel : ℕ) (c : ℕ → ℕ) (head k : ℕ) (d : ℤ) (u : ℕ)
    → head < cylinder_num
    → k ≤ cylinder_num
    → cylinder_num < fuel + k
    → Below head k d
    → u ≡ min (head + k) cylinder_num
    → Quiet c head k
    → (r : ℤ) × (find_loop fuel c d u ≡ some r) × IsNearest c head r
unfolding find_loop
find_loop-IsNearest zero c head k d u small room enough b e quiet = absurd (omega arith)
find_loop-IsNearest (suc fuel) c head k d u small room enough b e quiet =
    elim (Bool-cases (leb_ℤ (pos 0) d || ltb u cylinder_num)) [
      | inr over ↦ rw over (negsuc 0, refl, (refl, over-Quiet c head k d u b e over quiet))
      | inl more ↦ rw more (elim (Bool-cases (hit_down c d)) [
        | inl hit ↦ rw hit (d, refl, IsNearest-down c head k d small b hit quiet)
        | inr miss ↦ rw miss (elim (Bool-cases (hit_up c u)) [
          | inl hit ↦ rw hit (pos u, refl, IsNearest-up c head k d u small b e miss hit quiet)
          | inr none_up ↦ rw none_up (
              find_loop-IsNearest fuel c head (k + 1) (next_down d) (next_up u) small
                (more_room c head k d u small b e more) (omega arith) (next_down-Below head k d b)
                (next_up-eq head k u e) (Quiet-next c head k d u b e miss none_up quiet))
        ])
      ])
    ]

-- From a head on the disk the search always ends, within its fuel, and its answer is a nearest
-- pending cylinder, the lower one of two at the same distance; it is -1 only if no cylinder is
-- pending.
pub find_cylinder_min_seek_dis-IsNearest :
    (c : ℕ → ℕ) (head : ℕ)
    → head < cylinder_num
    → (r : ℤ) × (find_cylinder_min_seek_dis c head ≡ some r) × IsNearest c head r
unfolding find_cylinder_min_seek_dis
find_cylinder_min_seek_dis-IsNearest c head small =
    find_loop-IsNearest (cylinder_num + 1) c head 0 (pos head) head small (omega arith)
      (omega arith) (omega arith) (omega arith) (λ q s near. absurd (omega arith))
