-- ===== src/Paging/Stack.antt =====
-- Labweek17/page_replacement.c, `LRU_stack`: the head of the stack is the page used the longest ago.
use operating_system_homewor.Prelude.{
  ℕ, ◌+◌, ◌<◌, ◌≤◌, ◌≡◌, ◌≢◌, sym, ap, ap₂, refl, ◌∙◌, true, false, some, none, List, [], ◌∷◌, ◌++◌,
  All, arith, ◌==◌, update, ◌⊎◌, inl, inr, Bool-cases, Option-cases, ltb, ltb→lt, ltb→le,
}
use operating_system_homewor.Paging.{
  frame_size, Frames, holds, find_page, PageNode, creat_page_node, unlink, LruStack, replace_head,
  lru_stack_step, lru_stack_loop, lru_stack_start, lru_stack, init_page_stack, init_loop,
}
use operating_system_homewor.Paging.Scan.{find_page-range, find_page-found, find_page-absent}
use operating_system_homewor.Paging.Oldest.{
  Stamped, oldest, oldest_unique, holder-find_page, stamped_step, stamped_loop, stamped_start,
  least_recently_used,
}
use operating_system_homewor.Paging.Order.{
  Before, Sorted, Has, Unlinked, All-map, All-append, All-both, All-has, unlink-some, unlink-none,
  Unlinked-here,
}

-- A node shows the page that its frame holds.
abbrev Shows : Stamped → PageNode → Type 0
Shows s x = (x.page_index < frame_size) × (x.page_num ≡ s.frames x.page_index)

abbrev Unique : Frames → Type 0
Unique frames =
    (i j p : ℕ)
    → i < frame_size
    → j < frame_size
    → holds (frames i) p ≡ true
    → holds (frames j) p ≡ true
    → i ≡ j

abbrev Follows : List PageNode → Stamped → Type 0
Follows xs s =
    All (Shows s) xs
    × Sorted s.stamp xs
    × ((j : ℕ) → j < frame_size → Has j xs)
    × ((j : ℕ) → s.stamp j ≤ s.now)
    × Unique s.frames

Sorted-append :
    (t : ℕ → ℕ) (xs : List PageNode) (x : PageNode)
    → Sorted t xs
    → All (λ y. Before t y.page_index x.page_index) xs
    → Sorted t (xs ++ x ∷ [])
Sorted-append t [] x h k = (tt, tt)
Sorted-append t (y ∷ xs) x h k = (
  All-append (λ z. Before t y.page_index z.page_index) xs (x ∷ []) h.0 (k.0, tt),
  Sorted-append t xs x h.1 k.1,
)

Has-append-left : (j : ℕ) (xs ys : List PageNode) → Has j xs → Has j (xs ++ ys)
Has-append-left j [] ys h = absurd h
Has-append-left j (x ∷ xs) ys (inl e) = inl e
Has-append-left j (x ∷ xs) ys (inr h) = inr (Has-append-left j xs ys h)

Has-append-last :
    (j : ℕ) (xs : List PageNode) (x : PageNode) → x.page_index ≡ j → Has j (xs ++ x ∷ [])
Has-append-last j [] x e = inl e
Has-append-last j (y ∷ xs) x e = inr (Has-append-last j xs x e)

Before-update : (t : ℕ → ℕ) (k v a b : ℕ) → a ≢ k → b ≢ k → Before t a b → Before (update t k v) a b
Before-update t k v a b na nb h = ground (arith, na, nb)

Sorted-update :
    (t : ℕ → ℕ) (k v : ℕ) (xs : List PageNode)
    → All (λ y. y.page_index ≢ k) xs
    → Sorted t xs
    → Sorted (update t k v) xs
Sorted-update t k v [] apart h = tt
Sorted-update t k v (x ∷ xs) apart h = (
  All-map _ (λ y. Before (update t k v) x.page_index y.page_index) xs
      (λ y both. Before-update t k v x.page_index y.page_index apart.0 both.0 both.1)
      (All-both _ (λ y. Before t x.page_index y.page_index) xs apart.1 h.0),
  Sorted-update t k v xs apart.1 h.1,
)

abbrev used : Stamped → Frames → ℕ → Stamped
used s frames k = record { frames = frames; stamp = update s.stamp k (s.now + 1); now = s.now + 1 }

-- The frame of a node is used: the node goes to the tail and shows what the frame holds from now on.
use_node :
    (s : Stamped) (xs ys : List PageNode) (x z : PageNode) (frames : Frames)
    → Follows xs s
    → Unlinked xs x ys
    → z.page_index ≡ x.page_index
    → z.page_num ≡ frames x.page_index
    → ((j : ℕ) → j ≢ x.page_index → frames j ≡ s.frames j)
    → Unique frames
    → Follows (ys ++ z ∷ []) (used s frames x.page_index)
use_node s xs ys x z frames (shows, sorted, all, stamps, unique) (keeps, has, sorts) ze zp same
      unique2 =
    let (sorted2, apart) = sorts s.stamp sorted in
    let (showx, showys) = keeps (Shows s) shows in
    (
      All-append (Shows (used s frames x.page_index)) ys (z ∷ [])
          (All-map _ _ ys (λ y both. (both.1.0, both.1.1 ∙ sym (same y.page_index both.0)))
            (All-both _ (Shows s) ys apart showys))
          ((omega (arith, ze, showx.0), zp ∙ ap frames (sym ze)), tt),
      Sorted-append (update s.stamp x.page_index (s.now + 1)) ys z
          (Sorted-update s.stamp x.page_index (s.now + 1) ys apart sorted2)
          (All-map _ _ ys (λ y ne. ground (arith, ne, ze, stamps y.page_index)) apart),
      λ j lj. elim (has j (all j lj)) [
        | inl e ↦ Has-append-last j ys z (ze ∙ e)
        | inr later ↦ Has-append-left j ys (z ∷ []) later
      ],
      λ j. ground (arith, stamps j),
      unique2,
    )

-- The head is the oldest frame.
head-oldest :
    (s : Stamped) (x : PageNode) (xs : List PageNode)
    → Follows (x ∷ xs) s
    → oldest s.stamp ≡ x.page_index
head-oldest s x xs (shows, sorted, all, _, _) =
    let before : (j : ℕ) → j < frame_size → (x.page_index ≡ j) ⊎ Before s.stamp x.page_index j =
      λ j lj. elim (all j lj) [
        | inl e ↦ inl e
        | inr later ↦ inr (All-has (Before s.stamp x.page_index) j xs later sorted.0)
      ] in
    oldest_unique s.stamp x.page_index (
      shows.0.0,
      λ j lj. ground (arith, before j lj, ap s.stamp),
      λ j lj. ground (arith, before j (omega (arith, shows.0.0)), ap s.stamp),
    )

Unique-load :
    (frames : Frames) (p k : ℕ)
    → ((j : ℕ) → j < frame_size → holds (frames j) p ≡ false)
    → Unique frames
    → Unique (update frames k (some p))
Unique-load frames p k absent unique i j q li lj hi hj =
    ground (arith, absent i li, absent j lj, unique i j q li lj)

-- No node of the page, no frame of the page.
Follows-absent :
    (p : ℕ) (xs : List PageNode) (s : Stamped)
    → Follows xs s
    → unlink p xs ≡ none
    → (j : ℕ) → j < frame_size
    → holds (s.frames j) p ≡ false
Follows-absent p xs s follows missing j lj =
    All-has (λ k. holds (s.frames k) p ≡ false) j xs (follows.2 j lj)
      (All-map _ (λ x. holds (s.frames x.page_index) p ≡ false) xs (λ x both. rw⁻¹ both.0.1 both.1)
        (All-both (Shows s) _ xs follows.0 (unlink-none p xs missing)))

find_page-missing :
    (p : ℕ) (frames : Frames)
    → ((j : ℕ) → j < frame_size → holds (frames j) p ≡ false)
    → find_page frame_size 0 frames p ≡ frame_size
find_page-missing p frames absent =
    let at = find_page frame_size 0 frames p in
    let range = find_page-range frame_size 0 frames p in
    elim (Bool-cases (ltb at frame_size)) [
      | inl less ↦ absurd (
          let lt = ltb→lt at frame_size less in
          let true_here = find_page-found frame_size 0 frames p lt in
          let false_here = absent at lt in cc)
      | inr more ↦ omega (arith, ltb→le at frame_size more, range)
    ]

find_page-resident :
    (p : ℕ) (frames : Frames) (k : ℕ)
    → Unique frames
    → k < frame_size
    → holds (frames k) p ≡ true
    → find_page frame_size 0 frames p ≡ k
find_page-resident p frames k unique lt here =
    let at = find_page frame_size 0 frames p in
    elim (Bool-cases (ltb k at)) [
      | inl less ↦ absurd (
          let none_here =
            find_page-absent frame_size 0 frames p k (omega arith) (ltb→lt k at less) in
          cc)
      | inr more ↦
          let low : at < frame_size = omega (arith, ltb→le k at more) in
          unique at k p low lt (find_page-found frame_size 0 frames p low) here
    ]

eqb_false : (k : ℕ) → k < frame_size → (k == frame_size) ≡ false
eqb_false k lt = ground arith

replace_head-stamped :
    (p : ℕ) (xs : List PageNode) (s : Stamped)
    → Follows xs s
    → ((j : ℕ) → j < frame_size → holds (s.frames j) p ≡ false)
    → ((replace_head p s.frames xs).page_frame ≡ update s.frames (oldest s.stamp) (some p))
      × Follows
          (replace_head p s.frames xs).stack
          (used s (update s.frames (oldest s.stamp) (some p)) (oldest s.stamp))
unfolding replace_head creat_page_node
replace_head-stamped p [] s follows absent = absurd (follows.2 0 (omega arith))
replace_head-stamped p (x ∷ xs) s follows absent = rw (head-oldest s x xs follows) (
  refl,
  use_node s (x ∷ xs) xs x (creat_page_node (some p) x.page_index)
      (update s.frames x.page_index (some p)) follows (Unlinked-here x xs) refl (ground arith)
      (λ j ne. ground (arith, ne)) (Unique-load s.frames p x.page_index absent follows.4),
)

lru_stack_step-stamped :
    (p : ℕ) (l : LruStack) (s : Stamped)
    → l.page_frame ≡ s.frames
    → Follows l.stack s
    → ((lru_stack_step p l).0.page_frame ≡ (stamped_step true p s).0.frames)
      × ((lru_stack_step p l).1 ≡ (stamped_step true p s).1)
      × Follows (lru_stack_step p l).0.stack (stamped_step true p s).0
unfolding lru_stack_step stamped_step
lru_stack_step-stamped p l s same follows = elim (Option-cases (unlink p l.stack)) [
  | inl missing ↦
      let absent = Follows-absent p l.stack s follows missing in
      rw
        (
          missing,
          lru_stack_step,
          holder-find_page s.frames p,
          stamped_step,
          find_page-missing p s.frames absent,
          same,
        )
        (let (frames, more) = replace_head-stamped p l.stack s follows absent in
          (frames, refl, more))
  | inr ((x, ys), e) ↦
      let (here, parts) = unlink-some p l.stack x ys e in
      let (lt, shown) = (parts.0 (Shows s) follows.0).0 in
      let here2 : holds (s.frames x.page_index) p ≡ true = rw⁻¹ shown here in
      let at = find_page-resident p s.frames x.page_index follows.4 lt here2 in
      rw
        (
          e,
          lru_stack_step,
          holder-find_page s.frames p,
          stamped_step,
          at,
          eqb_false x.page_index lt,
        )
        (
          same,
          refl,
          use_node s l.stack ys x x s.frames follows parts refl shown (λ j ne. refl) follows.4,
        )
]

lru_stack_loop-stamped :
    (ps : List ℕ) (l : LruStack) (s : Stamped)
    → l.page_frame ≡ s.frames
    → Follows l.stack s
    → lru_stack_loop ps l ≡ stamped_loop true ps s
unfolding lru_stack_loop stamped_loop
lru_stack_loop-stamped [] l s same follows = refl
lru_stack_loop-stamped (p ∷ ps) l s same follows =
    let (frames, fault, follows2) = lru_stack_step-stamped p l s same follows in
    ap₂ (λ line rest. line ∷ rest) (ap₂ (λ a b. (a, b)) frames fault)
      (lru_stack_loop-stamped ps (lru_stack_step p l).0 (stamped_step true p s).0 frames follows2)

start-Follows : Follows init_page_stack stamped_start
unfolding init_page_stack init_loop creat_page_node
start-Follows = (
  (
    (omega arith, refl),
    ((omega arith, refl), ((omega arith, refl), ((omega arith, refl), ((omega arith, refl), tt)))),
  ),
  (
    (
      inr (refl, omega arith),
      (inr (refl, omega arith), (inr (refl, omega arith), (inr (refl, omega arith), tt))),
    ),
    (
      (inr (refl, omega arith), (inr (refl, omega arith), (inr (refl, omega arith), tt))),
      (
        (inr (refl, omega arith), (inr (refl, omega arith), tt)),
        ((inr (refl, omega arith), tt), (tt, tt)),
      ),
    ),
  ),
  λ j lj. ground arith,
  λ j. omega arith,
  λ i j p li lj hi hj. absurd (let impossible = hi in cc),
)

-- For every reference string LRU on a stack prints the frames and the page faults of the algorithm
-- that replaces the page used the longest ago.
pub lru_stack_correct :
    (reference_string : List ℕ) → lru_stack reference_string ≡ least_recently_used reference_string
unfolding lru_stack least_recently_used
lru_stack_correct reference_string =
    lru_stack_loop-stamped reference_string lru_stack_start stamped_start refl start-Follows
