-- ===== src/Paging/Clock.antt =====
-- Labweek17/page_replacement.c, `Second_Chance`: the clock stops, at the first page that was not used
-- since the clock last passed, and pages used since then are kept.
use mathlib.Core.Path.{fun_ext}
use native.Mathlib.Decide.{ℕ_discrete}
use operating_system_homewor.Prelude.{
  ℕ, ◌<◌, ◌≤◌, ◌≡◌, ◌≢◌, sym, ap, refl, ◌∙◌, Bool, true, false, Option, none, some, List, [], ◌∷◌,
  arith, ◌==◌, update, ◌⊎◌, inl, inr, Bool-cases,
}
use operating_system_homewor.Paging.{
  frame_size, Frames, no_pages, holds, find_page, Line, PageQueue, init_page_queue, chance_fuel,
  set_reference_bit, replace_victim, second_chance_step, second_chance_loop, second_chance,
}
use operating_system_homewor.Paging.Scan.{
  Resident, find_page-range, find_page-found, find_page-absent,
}
use operating_system_homewor.Paging.Stopping.{around, Stops, chance_loop-Stops, chance_loop_total}

-- The frames are those of the queue.
abbrev pub Agrees : Frames × PageQueue → Type 0
Agrees s = (s.0 ≡ s.1.page_num) × (s.1.clock_pointer < frame_size)

-- The queue `t` is `q` with the node `j` marked as used.
abbrev pub MarksUsed : PageQueue → ℕ → PageQueue → Type 0
MarksUsed q j t =
    (t.page_num ≡ q.page_num)
    × (t.clock_pointer ≡ q.clock_pointer)
    × (t.reference_bit j ≡ 1)
    × ((i : ℕ) → i ≢ j → t.reference_bit i ≡ q.reference_bit i)

-- The queue `t` is `r` with the page `p`, marked as used, in the node of the clock pointer, which
-- has moved on by one.
abbrev pub Replaces : PageQueue → ℕ → PageQueue → Type 0
Replaces r p t =
    (t.page_num r.clock_pointer ≡ some p)
    × ((i : ℕ) → i ≢ r.clock_pointer → t.page_num i ≡ r.page_num i)
    × (t.clock_pointer ≡ around r.clock_pointer 1)
    × (t.reference_bit r.clock_pointer ≡ 1)
    × ((i : ℕ) → i ≢ r.clock_pointer → t.reference_bit i ≡ r.reference_bit i)

holds-some : (o : Option ℕ) (p : ℕ) → holds o p ≡ true → o ≡ some p
holds-some none p h = absurd cc
holds-some (some q) p h = ap (λ x. some x) (ground (arith, h))

some-holds : (o : Option ℕ) (p : ℕ) → o ≡ some p → holds o p ≡ true
some-holds o p e = ap (λ x. holds x p) e ∙ ground arith

replace_victim-Replaces : (p : ℕ) (r : PageQueue) → Replaces r p (replace_victim p r)
unfolding replace_victim
replace_victim-Replaces p r =
    (ground arith, λ i ne. ground (arith, ne), refl, ground arith, λ i ne. ground (arith, ne))

-- With frames that are those of the queue: a reference to a resident page is no fault and only
-- marks its node as used; any other page replaces the first page from the clock pointer on that was
-- not used since the clock last passed, `d` places on, where `d` is 5 if all were used, which are
-- then marked unused; the new page is marked as used, and the clock moves on by one.
pub second_chance_step_lem :
    (p : ℕ) (s : Frames × PageQueue)
    → Agrees s
    → ((j : ℕ) × (t : PageQueue) × (j < frame_size)
        × (s.0 j ≡ some p)
        × (second_chance_step p s ≡ some ((s.0, t), false))
        × MarksUsed s.1 j t)
      ⊎ (((j : ℕ) → j < frame_size → s.0 j ≢ some p)
          × ((d : ℕ) × (r t : PageQueue) × (frames : Frames) × (d ≤ frame_size)
              × Stops s.1 r d
              × (second_chance_step p s ≡ some ((frames, t), true))
              × Replaces r p t
              × (frames (around s.1.clock_pointer d) ≡ some p)
              × ((i : ℕ) → i ≢ around s.1.clock_pointer d → frames i ≡ s.0 i)))
unfolding second_chance_step
second_chance_step_lem p s agrees =
    elim (Bool-cases (find_page frame_size 0 s.1.page_num p == frame_size)) [
      | inl miss ↦
          let (r, ends) = chance_loop_total s.1 agrees.1 in
          let ((d, ld, stops), _) = chance_loop-Stops chance_fuel s.1 r agrees.1 ends in
          let victim = around s.1.clock_pointer d in
          inr (
            λ j lj here.
                let found = some-holds (s.0 j) p here in
                let absent : holds (s.0 j) p ≡ false = rw agrees.0 (
                  find_page-absent frame_size 0 s.1.page_num p j (omega arith)
                    (ground (arith, miss))) in
                cc,
            (
              d,
              r,
              replace_victim p r,
              update s.0 victim (some p),
              omega arith,
              stops,
              rw (miss, ends, second_chance_step) (rw stops.1 refl),
              replace_victim-Replaces p r,
              ground arith,
              λ i ne. ground (arith, ne),
            ),
          )
      | inr hit ↦
          let at = find_page frame_size 0 s.1.page_num p in
          let range = find_page-range frame_size 0 s.1.page_num p in
          let low : at < frame_size = ground (arith, range) in
          inl (
            at,
            set_reference_bit s.1 at,
            low,
            holds-some (s.0 at) p (rw agrees.0 (find_page-found frame_size 0 s.1.page_num p low)),
            rw (hit, second_chance_step) refl,
            (refl, refl, ground arith, λ i ne. ground (arith, ne)),
          )
    ]

-- Every reference is followed by a line whose frames hold its page.
abbrev pub Served : List ℕ → List Line → Type 0
Served [] [] = Unit
Served [] (l ∷ ls) = ⊥
Served (p ∷ ps) [] = ⊥
Served (p ∷ ps) (l ∷ ls) = Resident l.0 p × Served ps ls

-- What one reference comes to.
abbrev Outcome : ℕ → Frames × PageQueue → Type 0
Outcome p s =
    (t : Frames × PageQueue) × (fault : Bool) × (second_chance_step p s ≡ some (t, fault))
    × Agrees t
    × Resident t.0 p

second_chance_step-Outcome : (p : ℕ) (s : Frames × PageQueue) → Agrees s → Outcome p s
second_chance_step-Outcome p s agrees = elim (second_chance_step_lem p s agrees) [
  | inl (j, t, lj, here, e, marks) ↦ (
    (s.0, t),
    false,
    e,
    (agrees.0 ∙ sym marks.0, omega (arith, marks.1, agrees.1)),
    (j, lj, some-holds (s.0 j) p here),
  )
  | inr (absent, (d, r, t, frames, ld, stops, e, replaces, here, others)) ↦
      let v = around s.1.clock_pointer d in
      (
        (frames, t),
        true,
        e,
        (
          fun_ext (λ i. elim (ℕ_discrete i v) [
            | yes at ↦ ap frames at ∙ here ∙ sym (ap t.page_num (at ∙ sym stops.1) ∙ replaces.0)
            | no ne ↦
                others i ne
                ∙ ap (λ f. f i) (agrees.0 ∙ sym stops.0)
                ∙ sym (replaces.1 i (λ e2. ne (e2 ∙ stops.1)))
          ]),
          omega (arith, replaces.2),
        ),
        (v, omega arith, some-holds (frames v) p here),
      )
]

second_chance_loop-Served :
    (ps : List ℕ) (s : Frames × PageQueue)
    → Agrees s
    → (lines : List Line) × (second_chance_loop ps s ≡ some lines) × Served ps lines
unfolding second_chance_loop
second_chance_loop-Served [] s agrees = ([], refl, tt)
second_chance_loop-Served (p ∷ ps) s agrees =
    let (t, fault, e, agrees2, resident) = second_chance_step-Outcome p s agrees in
    let (lines, rest, served) = second_chance_loop-Served ps t agrees2 in
    ((t.0, fault) ∷ lines, rw (e, rest, second_chance_loop) refl, (resident, served))

-- The clock always stops: second chance prints a line for every reference, whose frames hold the
-- page.
pub second_chance_total :
    (reference_string : List ℕ)
    → (lines : List Line) × (second_chance reference_string ≡ some lines)
      × Served reference_string lines
unfolding second_chance
second_chance_total reference_string =
    second_chance_loop-Served reference_string (no_pages, init_page_queue) (refl, omega arith)
