-- ===== src/Paging/Stopping.antt =====
-- Labweek17/page_replacement.c, `Second_Chance`: where the loop of the clock stops, and that it stops.
use mathlib.Core.Path.{subst}
use native.Mathlib.Decide.{ℕ_discrete}
use operating_system_homewor.Prelude.{
  ℕ, zero, suc, ◌+◌, ◌-◌, ◌<◌, ◌%◌, ◌≡◌, ◌≢◌, sym, refl, ◌∙◌, false, some, arith, ◌==◌, update,
}
use operating_system_homewor.Paging.{frame_size, PageQueue, next, chance_loop, chance_fuel}
use operating_system_homewor.Paging.Scan.{}

-- The node `i` places after `c` in the circle.
abbrev pub around : ℕ → ℕ → ℕ
around c i = (c + i) % frame_size

-- The clock goes `d` places on, to a page not used: all it passes was used and is marked unused,
-- and no other mark and no page changes.
abbrev pub Stops : PageQueue → PageQueue → ℕ → Type 0
Stops q r d =
    (r.page_num ≡ q.page_num)
    × (r.clock_pointer ≡ around q.clock_pointer d)
    × (r.reference_bit r.clock_pointer ≡ 0)
    × ((i : ℕ) → i < d → i < frame_size → q.reference_bit (around q.clock_pointer i) ≢ 0)
    × ((i : ℕ) → i < d → r.reference_bit (around q.clock_pointer i) ≡ 0)
    × ((j : ℕ)
        → ((i : ℕ) → i < d → j ≢ around q.clock_pointer i)
        → r.reference_bit j ≡ q.reference_bit j)

around-zero : (c : ℕ) → c < frame_size → around c 0 ≡ c
around-zero c lt = omega arith

around-next : (c i : ℕ) → around (next c) i ≡ around c (i + 1)
around-next c i = omega arith

around-back : (c i : ℕ) → i ≢ 0 → around (next c) (i - 1) ≡ around c i
around-back c i ne = omega (arith, ne)

around-start : (c i : ℕ) → c < frame_size → i ≡ 0 → c ≡ around c i
around-start c i lt e = omega arith

next_lt : (c : ℕ) → next c < frame_size
next_lt c = omega arith

-- One round of the loop.
abbrev pass : PageQueue → PageQueue
pass q = record {
  page_num = q.page_num;
  reference_bit = update q.reference_bit q.clock_pointer 0;
  clock_pointer = next q.clock_pointer;
}

update_ne : (f : ℕ → ℕ) (k v j : ℕ) → j ≢ k → update f k v j ≡ f j
update_ne f k v j ne = ground (arith, ne)

Stops-pass :
    (q r : PageQueue) (d : ℕ)
    → q.clock_pointer < frame_size
    → q.reference_bit q.clock_pointer ≢ 0
    → Stops (pass q) r d
    → ((j : ℕ) → (pass q).reference_bit j ≡ 0 → r.reference_bit j ≡ 0)
    → Stops q r (d + 1)
Stops-pass q r d lt used (pages, pointer, unused, passed, cleared, kept) mono = (
  pages,
  pointer ∙ around-next q.clock_pointer d,
  unused,
  λ i li lf. elim (ℕ_discrete i 0) [
    | yes e ↦ subst (λ k. q.reference_bit k ≢ 0) (around-start q.clock_pointer i lt e) used
    | no ne ↦ λ zero_there. passed (i - 1) (omega (arith, ne)) (omega arith) (
        subst (λ k. (pass q).reference_bit k ≡ 0) (sym (around-back q.clock_pointer i ne))
          (ground (arith, zero_there)))
  ],
  λ i li. elim (ℕ_discrete i 0) [
    | yes e ↦
        subst (λ k. r.reference_bit k ≡ 0) (around-start q.clock_pointer i lt e)
          (mono q.clock_pointer (ground arith))
    | no ne ↦
        subst (λ k. r.reference_bit k ≡ 0) (around-back q.clock_pointer i ne)
          (cleared (i - 1) (omega (arith, ne)))
  ],
  λ j apart.
      kept j (λ i li e. apart (i + 1) (omega arith) (e ∙ around-next q.clock_pointer i))
      ∙ update_ne q.reference_bit q.clock_pointer 0 j
          (λ e. apart 0 (omega arith) (e ∙ sym (around-zero q.clock_pointer lt))),
)

ne→false : (a : ℕ) → a ≢ 0 → (a == 0) ≡ false
ne→false a ne = ground (arith, ne)

pub chance_loop-Stops :
    (n : ℕ) (q r : PageQueue)
    → q.clock_pointer < frame_size
    → chance_loop n q ≡ some r
    → ((d : ℕ) × (d < n) × Stops q r d) × ((j : ℕ) → q.reference_bit j ≡ 0 → r.reference_bit j ≡ 0)
unfolding chance_loop
chance_loop-Stops zero q r lt h = absurd cc
chance_loop-Stops (suc n) q r lt h = elim (ℕ_discrete (q.reference_bit q.clock_pointer) 0) [
  | yes e ↦
      let h2 = rw (e, chance_loop) at h in
      let same : q ≡ r = cc in
      subst
        (λ r2.
          ((d : ℕ) × (d < suc n) × Stops q r2 d)
          × ((j : ℕ) → q.reference_bit j ≡ 0 → r2.reference_bit j ≡ 0))
        same
        (
          (
            0,
            omega arith,
            (
              refl,
              sym (around-zero q.clock_pointer lt),
              e,
              (λ i li. absurd (omega arith)),
              (λ i li. absurd (omega arith)),
              λ j apart. refl,
            ),
          ),
          λ j e2. e2,
        )
  | no ne ↦
      let used = ne→false (q.reference_bit q.clock_pointer) ne in
      let ((d, ld, stops), mono) =
        chance_loop-Stops n (pass q) r (next_lt q.clock_pointer) (rw (used, chance_loop) at h) in
      ((d + 1, omega arith, Stops-pass q r d lt ne stops mono), λ j e. mono j (ground (arith, e)))
]

-- If an unused page stands within reach of the fuel, the loop ends.
chance_loop_ends :
    (n i : ℕ) (q : PageQueue)
    → q.clock_pointer < frame_size
    → i < n
    → q.reference_bit (around q.clock_pointer i) ≡ 0
    → (r : PageQueue) × (chance_loop n q ≡ some r)
unfolding chance_loop
chance_loop_ends zero i q lt li h = absurd (omega arith)
chance_loop_ends (suc n) i q lt li h = elim (ℕ_discrete (q.reference_bit q.clock_pointer) 0) [
  | yes e ↦ (q, rw e refl)
  | no ne ↦
      let later : i ≢ 0 = λ e.
        ne (subst (λ k. q.reference_bit k ≡ 0) (sym (around-start q.clock_pointer i lt e)) h) in
      rw (ne→false (q.reference_bit q.clock_pointer) ne, chance_loop)
        (chance_loop_ends n (i - 1) (pass q) (next_lt q.clock_pointer) (omega (arith, later)) (
          subst (λ k. (pass q).reference_bit k ≡ 0) (sym (around-back q.clock_pointer i later))
            (ground (arith, h))))
]

all_around : (c : ℕ) → c < frame_size → around (next c) 4 ≡ c
all_around c lt = omega arith

chance_loop-pass :
    (n : ℕ) (q : PageQueue)
    → q.reference_bit q.clock_pointer ≢ 0
    → chance_loop (suc n) q ≡ chance_loop n (pass q)
unfolding chance_loop
chance_loop-pass n q ne = rw (ne→false (q.reference_bit q.clock_pointer) ne, chance_loop) refl

-- One page is all that the clock can pass twice, so six rounds are enough.
pub chance_loop_total :
    (q : PageQueue)
    → q.clock_pointer < frame_size
    → (r : PageQueue) × (chance_loop chance_fuel q ≡ some r)
chance_loop_total q lt = elim (ℕ_discrete (q.reference_bit q.clock_pointer) 0) [
  | yes e ↦
      chance_loop_ends chance_fuel 0 q lt (omega arith)
        (subst (λ k. q.reference_bit k ≡ 0) (sym (around-zero q.clock_pointer lt)) e)
  | no ne ↦
      let (r, ends) = chance_loop_ends 5 4 (pass q) (next_lt q.clock_pointer) (omega arith) (
        subst (λ k. (pass q).reference_bit k ≡ 0) (sym (all_around q.clock_pointer lt))
          (ground arith)) in
      (r, chance_loop-pass 5 q ne ∙ ends)
]
