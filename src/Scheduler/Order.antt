-- ===== src/Scheduler/Order.antt =====
-- Labweek16/scheduler.c: the order that the policies keep in the queue.
use operating_system_homewor.Prelude.{
  suc, ◌≡◌, refl, ap, Bool, true, false, List, [], ◌∷◌, ◌++◌, arith, All, length, if◌then◌else◌,
  inl, inr, Bool-cases, leb→le,
}
use operating_system_homewor.Prelude.Int.{◌≤ℤ◌}
use operating_system_homewor.Scheduler.{
  Policy, policy_fcfs, policy_sjf_pem, policy_sjf_not_pem, policy_priority_pem,
  policy_priority_not_pem, Task, insert_while, insert,
}
use operating_system_homewor.Scheduler.Insert.{
  yields, preemptive, insert-preemptive, insert-kept, insert-empty,
}

-- No task of the list passes the test, or the first one does not.
abbrev pub Stopped : (Task → Bool) → List Task → Type 0
Stopped test [] = Unit
Stopped test (x ∷ xs) = test x ≡ false

-- The new task stands behind the tasks that pass the test, before the first one that does not.
abbrev pub Placed : (Task → Bool) → Task → List Task → List Task → Type 0
Placed test new q r =
    (ys : List Task) × (zs : List Task) × (q ≡ ys ++ zs)
    × (r ≡ ys ++ new ∷ zs)
    × All (λ y. test y ≡ true) ys
    × Stopped test zs

insert_while-Placed :
    (test : Task → Bool) (new : Task) (q : List Task) → Placed test new q (insert_while test new q)
unfolding insert_while
insert_while-Placed test new [] = ([], [], refl, refl, tt, tt)
insert_while-Placed test new (x ∷ q) = elim (Bool-cases (test x)) [
  | inl passes ↦
      let (ys, zs, e, r, all, stopped) = insert_while-Placed test new q in
      (
        x ∷ ys,
        zs,
        ap (λ l. x ∷ l) e,
        rw (passes, insert_while) (ap (λ l. x ∷ l) r),
        (passes, all),
        stopped,
      )
  | inr stops ↦ ([], x ∷ q, refl, rw (stops, insert_while) refl, tt, stops)
]

-- What a policy lets a new task pass, and what it leaves before it in any case.
abbrev pub kept : Policy → List Task → List Task
kept p [] = []
kept p (x ∷ q) = if preemptive p then [] else x ∷ []

abbrev pub movable : Policy → List Task → List Task
movable p [] = []
movable p (x ∷ q) = if preemptive p then x ∷ q else q

-- For every policy and queue: the head stays where it is under a policy that is not preemptive, and
-- among the others the new task goes behind all that need not yield to it, before the first that
-- must.
pub insert-Placed :
    (p : Policy) (new : Task) (q : List Task)
    → (r : List Task) × (insert p new q ≡ kept p q ++ r) × Placed (yields p new) new (movable p q) r
insert-Placed p new [] = (new ∷ [], insert-empty p new, ([], [], refl, refl, tt, tt))
insert-Placed p new (x ∷ q) = elim (Bool-cases (preemptive p)) [
  | inl pre ↦ rw pre (
    insert_while (yields p new) new (x ∷ q),
    insert-preemptive p new (x ∷ q) pre,
    insert_while-Placed (yields p new) new (x ∷ q),
  )
  | inr non ↦ rw non (
    insert_while (yields p new) new q,
    insert-kept p new x q non,
    insert_while-Placed (yields p new) new q,
  )
]

-- `a` may run before `b`.
abbrev pub Before : Policy → Task → Task → Type 0
Before policy_fcfs a b = Unit
Before policy_sjf_pem a b = a.wct ≤ℤ b.wct
Before policy_sjf_not_pem a b = a.wct ≤ℤ b.wct
Before policy_priority_pem a b = b.priority ≤ℤ a.priority
Before policy_priority_not_pem a b = b.priority ≤ℤ a.priority

abbrev pub Sorted : Policy → List Task → Type 0
Sorted p [] = Unit
Sorted p (x ∷ xs) = All (Before p x) xs × Sorted p xs

-- The queue is in order, but for the head where it cannot be preempted.
abbrev pub Ordered : Policy → List Task → Type 0
Ordered p [] = Unit
Ordered p (x ∷ xs) = Sorted p (if preemptive p then x ∷ xs else xs)

yields→Before : (p : Policy) (new cur : Task) → yields p new cur ≡ true → Before p cur new
yields→Before policy_fcfs new cur h = tt
yields→Before policy_sjf_pem new cur h = leb→le _ _ h
yields→Before policy_sjf_not_pem new cur h = leb→le _ _ h
yields→Before policy_priority_pem new cur h = leb→le _ _ h
yields→Before policy_priority_not_pem new cur h = leb→le _ _ h

stays→Before : (p : Policy) (new cur : Task) → yields p new cur ≡ false → Before p new cur
stays→Before policy_fcfs new cur h = tt
stays→Before policy_sjf_pem new cur h = ground arith
stays→Before policy_sjf_not_pem new cur h = ground arith
stays→Before policy_priority_pem new cur h = ground arith
stays→Before policy_priority_not_pem new cur h = ground arith

Before-trans : (p : Policy) (a b c : Task) → Before p a b → Before p b c → Before p a c
Before-trans policy_fcfs a b c h k = tt
Before-trans policy_sjf_pem a b c h k = omega arith
Before-trans policy_sjf_not_pem a b c h k = omega arith
Before-trans policy_priority_pem a b c h k = omega arith
Before-trans policy_priority_not_pem a b c h k = omega arith

All-Before :
    (p : Policy) (a b : Task) (xs : List Task)
    → Before p a b
    → All (Before p b) xs
    → All (Before p a) xs
All-Before p a b [] h k = tt
All-Before p a b (x ∷ xs) h k = (Before-trans p a b x h k.0, All-Before p a b xs h k.1)

pub insert_while-All :
    (P : Task → Type 0) (test : Task → Bool) (new : Task) (q : List Task)
    → P new
    → All P q
    → All P (insert_while test new q)
unfolding insert_while
insert_while-All P test new [] h k = (h, tt)
insert_while-All P test new (x ∷ q) h k = elim (Bool-cases (test x)) [
  | inl passes ↦ rw (passes, insert_while) (k.0, insert_while-All P test new q h k.1)
  | inr stops ↦ rw (stops, insert_while) (h, k)
]

insert_while-Sorted :
    (p : Policy) (new : Task) (q : List Task)
    → Sorted p q
    → Sorted p (insert_while (yields p new) new q)
unfolding insert_while
insert_while-Sorted p new [] h = (tt, tt)
insert_while-Sorted p new (x ∷ q) h = elim (Bool-cases (yields p new x)) [
  | inl passes ↦
      rw (passes, insert_while)
        (
          insert_while-All (Before p x) (yields p new) new q (yields→Before p new x passes) h.0,
          insert_while-Sorted p new q h.1,
        )
  | inr stops ↦
      let first = stays→Before p new x stops in
      rw (stops, insert_while) ((first, All-Before p new x q first h.0), h)
]

tail-Sorted :
    (p : Policy) (b : Bool) (x : Task) (xs : List Task)
    → Sorted p (x ∷ xs)
    → Sorted p (if b then x ∷ xs else xs)
tail-Sorted p true x xs h = h
tail-Sorted p false x xs h = h.1

pub Sorted→Ordered : (p : Policy) (xs : List Task) → Sorted p xs → Ordered p xs
Sorted→Ordered p [] h = tt
Sorted→Ordered p (x ∷ xs) h = tail-Sorted p (preemptive p) x xs h

-- What stands behind the head is in order under every policy.
pub Ordered-rest : (p : Policy) (x : Task) (xs : List Task) → Ordered p (x ∷ xs) → Sorted p xs
Ordered-rest p x xs h = elim (Bool-cases (preemptive p)) [
  | inl pre ↦ (let sorted : Sorted p (x ∷ xs) = rw pre at h in sorted.1)
  | inr non ↦ rw non at h
]

pub insert-Ordered :
    (p : Policy) (new : Task) (q : List Task) → Ordered p q → Ordered p (insert p new q)
insert-Ordered p new [] h = rw (insert-empty p new) (Sorted→Ordered p (new ∷ []) (tt, tt))
insert-Ordered p new (x ∷ q) h = elim (Bool-cases (preemptive p)) [
  | inl pre ↦ rw (insert-preemptive p new (x ∷ q) pre) (
      Sorted→Ordered p (insert_while (yields p new) new (x ∷ q))
        (insert_while-Sorted p new (x ∷ q) (rw pre at h)))
  | inr non ↦ rw (insert-kept p new x q non, non) (insert_while-Sorted p new q (rw non at h))
]

pub insert-All :
    (P : Task → Type 0) (p : Policy) (new : Task) (q : List Task)
    → P new
    → All P q
    → All P (insert p new q)
insert-All P p new [] h k = rw (insert-empty p new) (h, tt)
insert-All P p new (x ∷ q) h k = elim (Bool-cases (preemptive p)) [
  | inl pre ↦
      rw (insert-preemptive p new (x ∷ q) pre) (insert_while-All P (yields p new) new (x ∷ q) h k)
  | inr non ↦ rw (insert-kept p new x q non) (k.0, insert_while-All P (yields p new) new q h k.1)
]

length-insert_while :
    (test : Task → Bool) (new : Task) (q : List Task)
    → length (insert_while test new q) ≡ suc (length q)
unfolding insert_while
length-insert_while test new [] = refl
length-insert_while test new (x ∷ q) = ground (arith, length-insert_while test new q)

pub length-insert :
    (p : Policy) (new : Task) (q : List Task) → length (insert p new q) ≡ suc (length q)
length-insert p new [] = rw (insert-empty p new) refl
length-insert p new (x ∷ q) = elim (Bool-cases (preemptive p)) [
  | inl pre ↦
      rw (insert-preemptive p new (x ∷ q) pre) (length-insert_while (yields p new) new (x ∷ q))
  | inr non ↦ rw (insert-kept p new x q non) (ap suc (length-insert_while (yields p new) new q))
]
