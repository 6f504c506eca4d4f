-- ===== src/Disk/Load.antt =====
-- Labweek18/HDD_scheduling.c: what `set_cylinders` and the common prologue set up.
use operating_system_homewor.Prelude.{ℕ, ◌+◌, ◌≡◌, List, [], ◌∷◌, arith, count, update}
use operating_system_homewor.Disk.{set_cylinders, start}

pub set_cylinders-count :
    (c : ℕ → ℕ) (req : List ℕ) (a : ℕ) → set_cylinders c req a ≡ c a + count a req
unfolding set_cylinders
set_cylinders-count c [] a = omega arith
set_cylinders-count c (id ∷ req) a =
    ground (arith, set_cylinders-count (update c id (c id + 1)) req a)

pub cylinders-start : (req : List ℕ) (head a : ℕ) → (start req head).cylinders a ≡ count a req
unfolding start
cylinders-start req head a = omega (arith, set_cylinders-count (λ _. 0) req a)
