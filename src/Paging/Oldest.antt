-- ===== src/Paging/Oldest.antt =====
-- Labweek17/page_replacement.c: what FIFO and LRU promise. Every frame carries the time of its last
-- load, for LRU also of its last use, and the victim is the first frame with the least time.
use operating_system_homewor.Prelude.{
  ℕ, zero, suc, ◌+◌, ◌<◌, ◌≤◌, ◌≡◌, refl, sym, ap, Bool, true, false, Option, none, some, List, [],
  ◌∷◌, arith, ltb, ◌==◌, if◌then◌else◌, update, ◌⊎◌, inl, inr, Bool-cases, ltb→lt, lt→ltb,
}
use native.Mathlib.Decide.{ℕ_discrete}
use operating_system_homewor.Paging.{frame_size, Frames, no_pages, holds, find_page, Line}

pub record Stamped : Type 0 where
  pub frames : Frames
  pub stamp : ℕ → ℕ
  pub now : ℕ

-- The first index with the least stamp, among `best` and the `n` indices from `i` on.
unfoldable pub oldest_loop : ℕ → ℕ → (ℕ → ℕ) → ℕ → ℕ
oldest_loop zero i stamp best = best
oldest_loop (suc n) i stamp best =
    oldest_loop n (i + 1) stamp (if ltb (stamp i) (stamp best) then i else best)

abbrev pub oldest : (ℕ → ℕ) → ℕ
oldest stamp = oldest_loop frame_size 0 stamp 0

-- Whether a frame has the page, and the first frame that has it. This is told apart from the search of
-- the programs, so that it says what a page fault is.
unfoldable pub has_page : Option ℕ → ℕ → Bool
has_page none p = false
has_page (some q) p = if q == p then true else false

unfoldable pub holder : Frames → ℕ → Option ℕ
holder frames p =
    if has_page (frames 0) p
    then some 0
    else if has_page (frames 1) p
    then some 1
    else if has_page (frames 2) p
    then some 2
    else if has_page (frames 3) p
    then some 3
    else if has_page (frames 4) p
    then some 4
    else none

has_page-holds : (o : Option ℕ) (p : ℕ) → has_page o p ≡ holds o p
unfolding has_page
has_page-holds none p = refl
has_page-holds (some q) p = ground arith

-- The search of the programs finds that frame, or ends behind the frames if there is none.
pub holder-find_page :
    (frames : Frames) (p : ℕ)
    → holder frames p ≡ (
        if find_page frame_size 0 frames p == frame_size
        then none
        else some (find_page frame_size 0 frames p))
unfolding holder find_page
holder-find_page frames p =
    rw
      (
        has_page-holds (frames 0) p,
        has_page-holds (frames 1) p,
        has_page-holds (frames 2) p,
        has_page-holds (frames 3) p,
        has_page-holds (frames 4) p,
      )
      (ground arith)

-- A reference: a resident page is stamped again if `touch` says so, another one replaces the oldest.
unfoldable pub stamped_step : Bool → ℕ → Stamped → Stamped × Bool
stamped_step touch p s = elim (holder s.frames p) [
  | none ↦ (
    record {
      frames = update s.frames (oldest s.stamp) (some p);
      stamp = update s.stamp (oldest s.stamp) (s.now + 1);
      now = s.now + 1;
    },
    true,
  )
  | some j ↦
      if touch
      then (
        record { frames = s.frames; stamp = update s.stamp j (s.now + 1); now = s.now + 1 },
        false,
      )
      else (s, false)
]

unfoldable pub stamped_loop : Bool → List ℕ → Stamped → List Line
stamped_loop touch [] s = []
stamped_loop touch (p ∷ ps) s =
    ((stamped_step touch p s).0.frames, (stamped_step touch p s).1)
    ∷ stamped_loop touch ps (stamped_step touch p s).0

abbrev pub stamped_start : Stamped
stamped_start = record { frames = no_pages; stamp = λ _. 0; now = 0 }

if_same : (b : Bool) (x : ℕ) → (if b then x else x) ≡ x
if_same true x = refl
if_same false x = refl

pub oldest_loop_here :
    (n i : ℕ) (stamp : ℕ → ℕ) → oldest_loop (suc n) i stamp i ≡ oldest_loop n (i + 1) stamp i
unfolding oldest_loop
oldest_loop_here n i stamp = ap (oldest_loop n (i + 1) stamp) (if_same (ltb (stamp i) (stamp i)) i)

-- What FIFO and LRU promise for a reference string.
unfoldable pub first_loaded : List ℕ → List Line
first_loaded reference_string = stamped_loop false reference_string stamped_start

unfoldable pub least_recently_used : List ℕ → List Line
least_recently_used reference_string = stamped_loop true reference_string stamped_start

-- `i` is the first frame with the least stamp.
abbrev pub IsOldest : (ℕ → ℕ) → ℕ → Type 0
IsOldest stamp i =
    (i < frame_size)
    × ((j : ℕ) → j < frame_size → stamp i ≤ stamp j)
    × ((j : ℕ) → j < i → stamp i < stamp j)

oldest_loop_unique :
    (n i best k : ℕ) (stamp : ℕ → ℕ)
    → ((j : ℕ) → j < i + n → stamp k ≤ stamp j)
    → ((j : ℕ) → j < k → stamp k < stamp j)
    → k < i + n
    → (((i ≤ k) × (stamp k < stamp best)) ⊎ (best ≡ k))
    → oldest_loop n i stamp best ≡ k
unfolding oldest_loop
oldest_loop_unique zero i best k stamp least first lt (inl (le, _)) = absurd (omega arith)
oldest_loop_unique zero i best k stamp least first lt (inr e) = e
oldest_loop_unique (suc n) i best k stamp least first lt h =
    oldest_loop_unique n (i + 1) (if ltb (stamp i) (stamp best) then i else best) k stamp
      (λ j lj. least j (omega arith)) first (omega arith)
      (elim h [
        | inr e ↦ inr (elim (Bool-cases (ltb (stamp i) (stamp best))) [
          | inl less ↦ absurd (
              let low = ltb→lt (stamp i) (stamp best) less in
              omega (arith, low, least i (omega arith), ap stamp e))
          | inr more ↦ rw more e
        ])
        | inl (le, small) ↦ elim (ℕ_discrete i k) [
          | yes here ↦
              inr (rw (lt→ltb (stamp i) (stamp best) (omega (arith, small, ap stamp here))) here)
          | no ne ↦ inl (
            omega (arith, ne),
            elim (Bool-cases (ltb (stamp i) (stamp best))) [
              | inl less ↦ rw less (first i (omega (arith, ne)))
              | inr more ↦ rw more small
            ],
          )
        ]
      ])

pub oldest_unique : (stamp : ℕ → ℕ) (k : ℕ) → IsOldest stamp k → oldest stamp ≡ k
oldest_unique stamp k (lt, least, first) =
    oldest_loop_unique frame_size 0 0 k stamp least first lt (elim (ℕ_discrete k 0) [
      | yes e ↦ inr (sym e)
      | no ne ↦ inl (omega arith, first 0 (omega (arith, ne)))
    ])

oldest_loop_lt : (n i best : ℕ) (stamp : ℕ → ℕ) → best < i + n → oldest_loop n i stamp best < i + n
unfolding oldest_loop
oldest_loop_lt zero i best stamp lt = lt
oldest_loop_lt (suc n) i best stamp lt = omega (
  arith,
  oldest_loop_lt n (i + 1) (if ltb (stamp i) (stamp best) then i else best) stamp (ground arith),
)

pub oldest_lt : (stamp : ℕ → ℕ) → oldest stamp < frame_size
oldest_lt stamp = oldest_loop_lt frame_size 0 0 stamp (omega arith)
