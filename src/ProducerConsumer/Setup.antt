-- ===== src/ProducerConsumer/Setup.antt =====
-- Labweek15/alg.18-6-syn-pc-con-6.c: the answers that `main` reads, and the state it sets up.
use operating_system_homewor.Prelude.{
  ℕ, zero, suc, ◌≤◌, ◌<◌, ◌≡◌, if◌then◌else◌, Bool, true, false, List, [], ◌∷◌, arith,
}
use operating_system_homewor.Prelude.Int.{ℤ, pos, negsuc, pos_part, ltb_ℤ, leb_ℤ}
use operating_system_homewor.ProducerConsumer.{
  CtlnPcSt, DataPcSt, Pc, p_while, c_while, joining, System, Step,
}

-- What `main` sizes the run by.
pub record Sizes : Type 0 where
  pub buffer_size : ℕ
  pub max_item_num : ℕ
  pub thread_pro : ℕ
  pub thread_cons : ℕ

pub data Answer : Type 0 where
  unanswered : Answer  -- the input ends before the last prompt
  quits : Answer
  sizes : Sizes → Answer

-- The prompt that comes next, with what was read before it.
pub data Prompt : Type 0 where
  for_buffer : Prompt
  for_items : (b : ℤ) → Prompt
  for_pro : (b n : ℤ) → Prompt
  for_cons : (b n p : ℤ) → Prompt

abbrev chosen : ℤ → ℤ → ℤ → ℤ → Sizes
chosen b n p c = record {
  buffer_size = pos_part b;
  max_item_num = pos_part n;
  thread_pro = pos_part p;
  thread_cons = pos_part c;
}

-- The loop of `main`, one prompt at a time: a number that is not positive ends it, one that is too
-- large starts it again.
unfoldable pub read_sizes : Prompt → List ℤ → Answer
read_sizes prompt [] = unanswered
read_sizes for_buffer (b ∷ xs) =
    if leb_ℤ b (pos 0)
    then quits
    else if ltb_ℤ (pos 100) b
    then read_sizes for_buffer xs
    else read_sizes (for_items b) xs
read_sizes (for_items b) (n ∷ xs) =
    if leb_ℤ n (pos 0)
    then quits
    else if ltb_ℤ (pos 10000) n
    then read_sizes for_buffer xs
    else read_sizes (for_pro b n) xs
read_sizes (for_pro b n) (p ∷ xs) =
    if leb_ℤ p (pos 0)
    then quits
    else if ltb_ℤ p (pos 0)
    then read_sizes for_buffer xs
    else read_sizes (for_cons b n p) xs
read_sizes (for_cons b n p) (c ∷ xs) =
    if leb_ℤ c (pos 0)
    then quits
    else if ltb_ℤ c (pos 0)
    then read_sizes for_buffer xs
    else sizes (chosen b n p c)

pub record IsValid (z : Sizes) : Type 0 where
  pub room : 0 < z.buffer_size
  pub small : z.buffer_size ≤ 100
  pub items : 0 < z.max_item_num
  pub few : z.max_item_num ≤ 10000
  pub some_pro : 0 < z.thread_pro
  pub some_cons : 0 < z.thread_cons

-- What the answers read before a prompt have passed.
Passed : Prompt → Type 0
Passed for_buffer = Unit
Passed (for_items b) = (0 < pos_part b) × (pos_part b ≤ 100)
Passed (for_pro b n) =
    (0 < pos_part b) × (pos_part b ≤ 100) × (0 < pos_part n) × (pos_part n ≤ 10000)
Passed (for_cons b n p) =
    (0 < pos_part b)
    × (pos_part b ≤ 100)
    × (0 < pos_part n)
    × (pos_part n ≤ 10000)
    × (0 < pos_part p)

-- The control block as `main` sets it up, over memory that holds anything, with the threads made.
abbrev pub init_ctln : Sizes → CtlnPcSt
init_ctln z = record {
  buffer_size = z.buffer_size;
  max_item_num = z.max_item_num;
  thread_pro = z.thread_pro;
  thread_cons = z.thread_cons;
  item_num = 0;
  consume_num = 0;
  enqueue = 0;
  dequeue = 0;
  end_flag = 0;
  sem_mutex = 1;
  stock = 0;
  emptyslot = z.buffer_size;
}

abbrev pub first_pc : ℕ → ℕ → Pc
first_pc zero i = c_while
first_pc (suc n) zero = p_while
first_pc (suc n) (suc i) = first_pc n i

abbrev pub init_system : Sizes → (ℕ → DataPcSt) → System
init_system z memory = record {
  shared = record { ctln = init_ctln z; data_units = memory; taken = [] };
  pc = first_pc z.thread_pro;
  main = joining;
}

pub data Reach (z : Sizes) (memory : ℕ → DataPcSt) : System → Type 0 where
  starts : Reach z memory (init_system z memory)
  steps : {s t : System} → Reach z memory s → Step s t → Reach z memory t

goes_on :
    (low lower : Bool) (again : Answer) (made z : Sizes)
    → low ≡ false
    → lower ≡ false
    → (if low then quits else if lower then again else sizes made) ≡ sizes z
    → z ≡ made
goes_on false false again made z l m e = cc
goes_on false true again made z l m e = absurd cc
goes_on true lower again made z l m e = absurd cc

IsValid-from :
    (prompt : Prompt) (xs : List ℤ) (z : Sizes)
    → Passed prompt
    → read_sizes prompt xs ≡ sizes z
    → IsValid z
unfolding read_sizes Passed
IsValid-from for_buffer [] z passed e = absurd cc
IsValid-from (for_items b) [] z passed e = absurd cc
IsValid-from (for_pro b n) [] z passed e = absurd cc
IsValid-from (for_cons b n p) [] z passed e = absurd cc
IsValid-from for_buffer (b ∷ xs) z passed e =
    ground (arith, IsValid-from for_buffer xs z, IsValid-from (for_items b) xs z)
IsValid-from (for_items b) (n ∷ xs) z passed e =
    ground (arith, IsValid-from for_buffer xs z, IsValid-from (for_pro b n) xs z)
IsValid-from (for_pro b n) (p ∷ xs) z passed e =
    ground (arith, IsValid-from for_buffer xs z, IsValid-from (for_cons b n p) xs z)
IsValid-from (for_cons b n (negsuc p)) (c ∷ xs) z passed e = absurd (omega (arith, passed.4))
IsValid-from (for_cons b n (pos zero)) (c ∷ xs) z passed e = absurd (omega (arith, passed.4))
IsValid-from (for_cons b n (pos (suc p))) (negsuc c ∷ xs) z passed e = absurd (ground (arith, e))
IsValid-from (for_cons b n (pos (suc p))) (pos zero ∷ xs) z passed e = absurd cc
IsValid-from (for_cons b n (pos (suc p))) (pos (suc c) ∷ xs) z passed e =
    let same =
      goes_on (leb_ℤ (pos (suc c)) (pos 0)) (ltb_ℤ (pos (suc c)) (pos 0)) (read_sizes for_buffer xs)
        (chosen b n (pos (suc p)) (pos (suc c))) z (ground arith) (ground arith) e in
    rw same (record {
      room = passed.0;
      small = passed.1;
      items = passed.2;
      few = passed.3;
      some_pro = passed.4;
      some_cons = omega arith;
    })

-- Whatever is typed, the sizes that `main` goes on with are positive, with at most 100 units and at
-- most 10000 items.
pub read_sizes-IsValid : (xs : List ℤ) (z : Sizes) → read_sizes for_buffer xs ≡ sizes z → IsValid z
unfolding Passed
read_sizes-IsValid xs z e = IsValid-from for_buffer xs z tt e
