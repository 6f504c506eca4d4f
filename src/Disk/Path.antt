-- ===== src/Disk/Path.antt =====
-- Labweek18/HDD_scheduling.c: the length of a path of the head, and what a stretch of the run adds
-- to the drive.
use operating_system_homewor.Prelude.{
  ℕ, zero, suc, ◌+◌, ◌-◌, ◌≡◌, refl, List, [], ◌∷◌, ◌++◌, append-nil, append_assoc, arith,
  replicate, ◌==◌, if◌then◌else◌,
}
use operating_system_homewor.Disk.{Drive, abs_int, seek_distance, visit}

-- The distance between two cylinders, of which one difference is 0.
abbrev pub gap : ℕ → ℕ → ℕ
gap a b = (a - b) + (b - a)

pub seek_distance-gap : (a b : ℕ) → seek_distance a b ≡ gap a b
unfolding abs_int
seek_distance-gap a b = ground arith

-- The movement of a head that goes from `p` through the stops in order.
pub path : ℕ → List ℕ → ℕ
path p [] = 0
path p (x ∷ xs) = gap p x + path x xs

-- Where it ends.
pub last_stop : ℕ → List ℕ → ℕ
last_stop p [] = p
last_stop p (x ∷ xs) = last_stop x xs

pub path-append :
    (p : ℕ) (xs ys : List ℕ) → path p (xs ++ ys) ≡ path p xs + path (last_stop p xs) ys
unfolding path last_stop
path-append p [] ys = omega arith
path-append p (x ∷ xs) ys = omega (arith, path-append x xs ys)

pub last_stop-append :
    (p : ℕ) (xs ys : List ℕ) → last_stop p (xs ++ ys) ≡ last_stop (last_stop p xs) ys
unfolding last_stop
last_stop-append p [] ys = refl
last_stop-append p (x ∷ xs) ys = last_stop-append x xs ys

-- From `d` to `d'` the head has gone through `seg`, printed it and counted its length.
pub record Moved (d d' : Drive) (seg : List ℕ) : Type 0 where
  pub printed : d'.out ≡ d.out ++ seg
  pub counted : d'.sum ≡ d.sum + path d.pre seg
  pub ended : d'.pre ≡ last_stop d.pre seg

pub Moved-refl : (d : Drive) → Moved d d []
unfolding path last_stop
Moved-refl d = record { printed = rw append-nil; counted = omega arith; ended = refl }

pub Moved-trans :
    (d d' d'' : Drive) (s t : List ℕ) → Moved d d' s → Moved d' d'' t → Moved d d'' (s ++ t)
Moved-trans d d' d'' s t m n = record {
  printed = rw (n.printed, m.printed, append_assoc);
  counted = rw (path-append, ← m.ended) (omega (arith, n.counted, m.counted));
  ended = rw (last_stop-append, ← m.ended) n.ended;
}

pub visit-Moved : (id : ℕ) (d : Drive) → Moved d (visit id d) (id ∷ [])
unfolding visit path last_stop
visit-Moved id d = record {
  printed = refl;
  counted = omega (arith, seek_distance-gap d.pre id);
  ended = refl;
}

pub path-replicate : (p h k : ℕ) → path p (replicate k h) ≡ (if k == 0 then 0 else gap p h)
unfolding path
path-replicate p h zero = refl
path-replicate p h (suc k) = ground (arith, path-replicate h h k)

pub last_stop-replicate : (p h k : ℕ) → last_stop p (replicate k h) ≡ (if k == 0 then p else h)
unfolding last_stop
last_stop-replicate p h zero = refl
last_stop-replicate p h (suc k) = ground (arith, last_stop-replicate h h k)

pub path-nil : (p : ℕ) → path p [] ≡ 0
unfolding path
path-nil p = refl

pub last_stop-nil : (p : ℕ) → last_stop p [] ≡ p
unfolding last_stop
last_stop-nil p = refl

pub one_stop : (p h : ℕ) → (path p (h ∷ []) ≡ gap p h) × (last_stop p (h ∷ []) ≡ h)
unfolding path last_stop
one_stop p h = (omega arith, refl)
