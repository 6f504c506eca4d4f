-- ===== src/Paging/Rows.antt =====
-- Labweek17/page_replacement.c, `LRU_matrix`: the row with the fewest ones belongs to the page used
-- the longest ago.
use mathlib.Core.Path.{subst}
use native.Mathlib.Decide.{ℕ_discrete}
use operating_system_homewor.Prelude.{
  ℕ, zero, suc, ◌+◌, ◌<◌, ◌≤◌, ◌≡◌, ◌≢◌, sym, ap, ap₂, refl, ◌∙◌, true, List, [], ◌∷◌, arith, ltb,
  ◌==◌, update, ◌⊎◌, inl, inr, Bool-cases, ltb→le, lt→ltb,
}
use operating_system_homewor.Paging.{
  frame_size, find_page, Matrix, setrow1, setcolumn0, use_row, one_sum, least_loop, find_least_row,
  LruMatrix, lru_matrix_step, lru_matrix_loop, lru_matrix_start, lru_matrix,
}
use operating_system_homewor.Paging.Scan.{find_page-range}
use operating_system_homewor.Paging.Oldest.{
  Stamped, oldest_loop, oldest_loop_here, oldest, oldest_lt, holder-find_page, stamped_step,
  stamped_loop, stamped_start, least_recently_used,
}

one_sum_le :
    (n : ℕ) (r s : ℕ → ℕ) → ((j : ℕ) → j < n → r j ≡ 1 → s j ≡ 1) → one_sum n r ≤ one_sum n s
unfolding one_sum
one_sum_le zero r s h = omega arith
one_sum_le (suc n) r s h =
    let ih = one_sum_le n r s (λ j lt. h j (omega arith)) in ground (arith, ih, h n (omega arith))

one_sum_lt :
    (n : ℕ) (r s : ℕ → ℕ) (k : ℕ)
    → ((j : ℕ) → j < n → r j ≡ 1 → s j ≡ 1)
    → k < n
    → r k ≡ 0
    → s k ≡ 1
    → one_sum n r < one_sum n s
unfolding one_sum
one_sum_lt zero r s k h lt rk sk = absurd (omega arith)
one_sum_lt (suc n) r s k h lt rk sk = elim (ℕ_discrete k n) [
  | yes e ↦
      let le = one_sum_le n r s (λ j lj. h j (omega arith)) in
      let rn = subst (λ m. r m ≡ 0) e rk in
      let sn = subst (λ m. s m ≡ 1) e sk in rw (rn, sn, one_sum) (omega (arith, le))
  | no ne ↦
      let ih = one_sum_lt n r s k (λ j lj. h j (omega arith)) (omega (arith, ne)) rk sk in
      ground (arith, ih, h n (omega arith))
]

one_sum_bound : (n : ℕ) (r : ℕ → ℕ) → one_sum n r ≤ n
unfolding one_sum
one_sum_bound zero r = omega arith
one_sum_bound (suc n) r = ground (arith, one_sum_bound n r)

-- What a cell tells of the stamps of its row and its column.
abbrev Newer : (ℕ → ℕ) → Matrix → ℕ → ℕ → Type 0
Newer t m i j =
    ((m i j ≡ 1) × (0 < t i) × ((i ≡ j) ⊎ (t j < t i)))
    ⊎ ((m i j ≡ 0) × ((t i ≡ 0) ⊎ ((i ≢ j) × (t i ≤ t j))))

abbrev Tracks : Matrix → Stamped → Type 0
Tracks m s =
    ((i j : ℕ) → i < frame_size → j < frame_size → Newer s.stamp m i j)
    × ((j : ℕ) → s.stamp j ≤ s.now)
    × ((i j : ℕ) → s.stamp i ≡ s.stamp j → 0 < s.stamp i → i ≡ j)

module _ (m : Matrix) (s : Stamped) (tracks : Tracks m s) where
  row_lt :
      (a b : ℕ)
      → a < frame_size
      → b < frame_size
      → s.stamp a < s.stamp b
      → one_sum frame_size (m a) < one_sum frame_size (m b)
  row_lt a b la lb lt =
      one_sum_lt frame_size (m a) (m b) b
        (λ j lj e. ground (arith, tracks.0 a j la lj, tracks.0 b j lb lj, ap s.stamp)) lb
        (ground (arith, tracks.0 a b la lb)) (ground (arith, tracks.0 b b lb lb))

  row_le :
      (a b : ℕ)
      → a < frame_size
      → b < frame_size
      → s.stamp a ≤ s.stamp b
      → one_sum frame_size (m a) ≤ one_sum frame_size (m b)
  row_le a b la lb le = elim (ℕ_discrete a b) [
    | yes e ↦ subst (λ k. one_sum frame_size (m a) ≤ one_sum frame_size (m k)) e (omega arith)
    | no ne ↦ one_sum_le frame_size (m a) (m b) (λ j lj e.
        ground (arith, ne, tracks.0 a j la lj, tracks.0 b j lb lj, tracks.2 a b, ap s.stamp))
  ]

  ltb-row :
      (a b : ℕ)
      → a < frame_size
      → b < frame_size
      → ltb (one_sum frame_size (m a)) (one_sum frame_size (m b)) ≡ ltb (s.stamp a) (s.stamp b)
  ltb-row a b la lb = ground (arith, row_lt a b la lb, row_le b a lb la)

  -- The loop over the rows follows the search for the oldest stamp.
  least_loop-oldest :
      (n i row : ℕ)
      → i + n ≤ frame_size
      → row < frame_size
      → least_loop n i m (one_sum frame_size (m row)) row ≡ oldest_loop n i s.stamp row
  unfolding least_loop oldest_loop
  least_loop-oldest zero i row le lr = refl
  least_loop-oldest (suc n) i row le lr =
      let same = ltb-row i row (omega arith) lr in
      elim (Bool-cases (ltb (s.stamp i) (s.stamp row))) [
        | inl less ↦
            rw (same, less, least_loop, oldest_loop)
              (least_loop-oldest n (i + 1) i (omega arith) (omega arith))
        | inr more ↦
            rw (same, more, least_loop, oldest_loop)
              (least_loop-oldest n (i + 1) row (omega arith) lr)
      ]

  least_loop_first :
      (n : ℕ) → least_loop (suc n) 0 m frame_size 0 ≡ least_loop n 1 m (one_sum frame_size (m 0)) 0
  unfolding least_loop
  least_loop_first n = elim (Bool-cases (ltb (one_sum frame_size (m 0)) frame_size)) [
    | inl less ↦ rw less refl
    | inr full ↦ rw full (
        ap (λ k. least_loop n 1 m k 0)
          (omega (
            arith,
            one_sum_bound frame_size (m 0),
            ltb→le (one_sum frame_size (m 0)) frame_size full,
          )))
  ]

  find_least_row-oldest : find_least_row m ≡ oldest s.stamp
  unfolding find_least_row
  find_least_row-oldest =
      least_loop_first 4
      ∙ least_loop-oldest 4 1 0 (omega arith) (omega arith)
      ∙ sym (oldest_loop_here 4 0 s.stamp)

use-Tracks :
    (m : Matrix) (s : Stamped) (k : ℕ)
    → Tracks m s
    → k < frame_size
    → Tracks
        (use_row m k)
        (record { frames = s.frames; stamp = update s.stamp k (s.now + 1); now = s.now + 1 })
unfolding setrow1 setcolumn0
use-Tracks m s k tracks lt = (
  λ i j li lj. ground (
    arith,
    tracks.0 i j li lj,
    tracks.1 i,
    tracks.1 j,
    lt→ltb j frame_size lj,
    lt→ltb i frame_size li,
  ),
  λ j. ground (arith, tracks.1 j),
  λ i j. ground (arith, tracks.1 i, tracks.1 j, tracks.2 i j),
)

lru_matrix_step-stamped :
    (p : ℕ) (l : LruMatrix) (s : Stamped)
    → l.page_frame ≡ s.frames
    → Tracks l.matrix s
    → ((lru_matrix_step p l).0.page_frame ≡ (stamped_step true p s).0.frames)
      × ((lru_matrix_step p l).1 ≡ (stamped_step true p s).1)
      × Tracks (lru_matrix_step p l).0.matrix (stamped_step true p s).0
unfolding lru_matrix_step stamped_step
lru_matrix_step-stamped p l s same tracks =
    elim (Bool-cases (find_page frame_size 0 s.frames p == frame_size)) [
      | inl miss ↦
          rw
            (
              same,
              holder-find_page s.frames p,
              miss,
              lru_matrix_step,
              stamped_step,
              find_least_row-oldest l.matrix s tracks,
            )
            (refl, refl, use-Tracks l.matrix s (oldest s.stamp) tracks (oldest_lt s.stamp))
      | inr hit ↦
          let range = find_page-range frame_size 0 s.frames p in
          rw (same, holder-find_page s.frames p, hit, lru_matrix_step, stamped_step)
            (
              refl,
              refl,
              use-Tracks l.matrix s (find_page frame_size 0 s.frames p) tracks
                  (ground (arith, range)),
            )
    ]

lru_matrix_loop-stamped :
    (ps : List ℕ) (l : LruMatrix) (s : Stamped)
    → l.page_frame ≡ s.frames
    → Tracks l.matrix s
    → lru_matrix_loop ps l ≡ stamped_loop true ps s
unfolding lru_matrix_loop stamped_loop
lru_matrix_loop-stamped [] l s same tracks = refl
lru_matrix_loop-stamped (p ∷ ps) l s same tracks =
    let (frames, fault, tracks2) = lru_matrix_step-stamped p l s same tracks in
    ap₂ (λ line rest. line ∷ rest) (ap₂ (λ a b. (a, b)) frames fault)
      (lru_matrix_loop-stamped ps (lru_matrix_step p l).0 (stamped_step true p s).0 frames tracks2)

-- For every reference string LRU on a matrix prints the frames and the page faults of the algorithm
-- that replaces the page used the longest ago.
pub lru_matrix_correct :
    (reference_string : List ℕ) → lru_matrix reference_string ≡ least_recently_used reference_string
unfolding lru_matrix least_recently_used
lru_matrix_correct reference_string =
    lru_matrix_loop-stamped reference_string lru_matrix_start stamped_start refl
      (λ i j li lj. ground arith, λ j. omega arith, λ i j e lt. absurd (omega arith))
