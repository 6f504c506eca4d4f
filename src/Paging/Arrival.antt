-- ===== src/Paging/Arrival.antt =====
-- Labweek17/page_replacement.c, `FIFO`: the victim is the page loaded the longest ago.
use operating_system_homewor.Prelude.{
  ℕ, ◌+◌, ◌<◌, ◌≤◌, ◌%◌, ◌≡◌, ap₂, refl, false, some, List, [], ◌∷◌, arith, ltb, ◌==◌, update, ◌⊎◌,
  inl, inr, Bool-cases, ltb→lt, ltb→le,
}
use native.Mathlib.Nat.{mod-eq_of_lt}
use native.Mathlib.Decide.{ℕ_discrete}
use operating_system_homewor.Paging.{
  frame_size, find_page, Fifo, fifo_step, fifo_loop, fifo_start, fifo,
}
use operating_system_homewor.Paging.Oldest.{
  Stamped, oldest, holder-find_page, stamped_step, stamped_loop, stamped_start, first_loaded,
  oldest_unique,
}

-- The frames from `i` on were loaded before those below `i`, and both in the order of the frames.
abbrev Rotated : ℕ → Stamped → Type 0
Rotated i s =
    (i < frame_size)
    × ((j : ℕ) → s.stamp j ≤ s.now)
    × ((j k : ℕ) → j ≤ k → k < i → s.stamp j ≤ s.stamp k)
    × ((j k : ℕ) → i ≤ j → j ≤ k → k < frame_size → s.stamp j ≤ s.stamp k)
    × ((j k : ℕ) → j < i → i ≤ k → k < frame_size → s.stamp k < s.stamp j)

Rotated-oldest : (i : ℕ) (s : Stamped) → Rotated i s → oldest s.stamp ≡ i
Rotated-oldest i s (lt, _, low, high, across) = oldest_unique s.stamp i (
  lt,
  λ j lj. elim (Bool-cases (ltb j i)) [
    | inl below ↦ (let less = ltb→lt j i below in omega (arith, across j i less (omega arith) lt))
    | inr above ↦ high i j (omega arith) (omega (arith, ltb→le j i above)) lj
  ],
  λ j lj. across j i lj (omega arith) lt,
)

abbrev load : Stamped → ℕ → ℕ → Stamped
load s i p = record {
  frames = update s.frames i (some p);
  stamp = update s.stamp i (s.now + 1);
  now = s.now + 1;
}

next_index :
    (i : ℕ)
    → i < frame_size
    → ((i + 1 < frame_size) × ((i + 1) % frame_size ≡ i + 1))
      ⊎ ((i ≡ 4) × ((i + 1) % frame_size ≡ 0))
next_index i lt = elim (ℕ_discrete i 4) [
  | yes e ↦ inr (e, rw e refl)
  | no ne ↦ inl (omega (arith, ne), mod-eq_of_lt (omega (arith, ne)))
]

load-Rotated : (i p : ℕ) (s : Stamped) → Rotated i s → Rotated ((i + 1) % frame_size) (load s i p)
load-Rotated i p s (lt, stamps, low, high, across) = elim (next_index i lt) [
  | inl (more, e) ↦ rw e (
    more,
    (λ j. ground (arith, stamps j)),
    (λ j k jk ki. ground (arith, stamps j, low j k jk)),
    (λ j k ij jk kf. ground (arith, high j k)),
    (λ j k ji ik kf. ground (arith, stamps k, across j k)),
  )
  | inr (e4, e) ↦ rw e (
    omega arith,
    (λ j. ground (arith, stamps j)),
    (λ j k jk ki. absurd (omega arith)),
    (λ j k ij jk kf. ground (arith, stamps j, low j k jk)),
    (λ j k ji ik kf. absurd (omega arith)),
  )
]

fifo_step-stamped :
    (p : ℕ) (f : Fifo) (s : Stamped)
    → f.page_frame ≡ s.frames
    → Rotated f.replace_index s
    → ((fifo_step p f).0.page_frame ≡ (stamped_step false p s).0.frames)
      × ((fifo_step p f).1 ≡ (stamped_step false p s).1)
      × Rotated (fifo_step p f).0.replace_index (stamped_step false p s).0
unfolding fifo_step stamped_step
fifo_step-stamped p f s same rot =
    elim (Bool-cases (find_page frame_size 0 s.frames p == frame_size)) [
      | inl miss ↦
          rw
            (
              same,
              holder-find_page s.frames p,
              miss,
              fifo_step,
              stamped_step,
              Rotated-oldest f.replace_index s rot,
            )
            (refl, refl, load-Rotated f.replace_index p s rot)
      | inr hit ↦
          rw (same, holder-find_page s.frames p, hit, fifo_step, stamped_step) (refl, refl, rot)
    ]

fifo_loop-stamped :
    (ps : List ℕ) (f : Fifo) (s : Stamped)
    → f.page_frame ≡ s.frames
    → Rotated f.replace_index s
    → fifo_loop ps f ≡ stamped_loop false ps s
unfolding fifo_loop stamped_loop
fifo_loop-stamped [] f s same rot = refl
fifo_loop-stamped (p ∷ ps) f s same rot =
    let (frames, fault, rot2) = fifo_step-stamped p f s same rot in
    ap₂ (λ line rest. line ∷ rest) (ap₂ (λ a b. (a, b)) frames fault)
      (fifo_loop-stamped ps (fifo_step p f).0 (stamped_step false p s).0 frames rot2)

-- For every reference string FIFO prints the frames and the page faults of the algorithm that
-- replaces the page loaded the longest ago.
pub fifo_correct :
    (reference_string : List ℕ) → fifo reference_string ≡ first_loaded reference_string
unfolding fifo first_loaded
fifo_correct reference_string = fifo_loop-stamped reference_string fifo_start stamped_start refl (
  omega arith,
  λ j. omega arith,
  λ j k jk ki. omega arith,
  λ j k ij jk kf. omega arith,
  λ j k ji ik kf. absurd (omega arith),
)
