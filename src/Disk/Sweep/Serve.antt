-- ===== src/Disk/Sweep/Serve.antt =====
-- Labweek18/HDD_scheduling.c: the inner loop of a sweep serves all requests of one cylinder.
use operating_system_homewor.Prelude.{
  ℕ, zero, suc, ◌≡◌, refl, true, ◌∷◌, [], arith, replicate, ltb, ◌==◌, if◌then◌else◌,
}
use operating_system_homewor.Disk.{Drive, visit}
use operating_system_homewor.Disk.Path.{Moved, Moved-refl, Moved-trans, visit-Moved}
use operating_system_homewor.Disk.Sweep.{serve_loop, serve}

serve_loop-Moved :
    (n h : ℕ) (d : Drive) → d.cylinders h ≡ n → Moved d (serve_loop n h d) (replicate n h)
unfolding serve_loop visit
serve_loop-Moved zero h d e = Moved-refl d
serve_loop-Moved (suc n) h d e =
    let more : ltb 0 (d.cylinders h) ≡ true = ground arith in
    rw more (
      Moved-trans d (visit h d) _ (h ∷ []) (replicate n h) (visit-Moved h d)
        (serve_loop-Moved n h (visit h d) (ground arith)))

cylinders-serve_loop :
    (n h : ℕ) (d : Drive) (a : ℕ)
    → d.cylinders h ≡ n
    → (serve_loop n h d).cylinders a ≡ (if h == a then 0 else d.cylinders a)
unfolding serve_loop visit
cylinders-serve_loop zero h d a e = ground arith
cylinders-serve_loop (suc n) h d a e = ground (arith, cylinders-serve_loop n h (visit h d) a)

-- It serves them all, as one block.
pub serve-Moved : (h : ℕ) (d : Drive) → Moved d (serve h d) (replicate (d.cylinders h) h)
unfolding serve
serve-Moved h d = serve_loop-Moved (d.cylinders h) h d refl

pub cylinders-serve :
    (h : ℕ) (d : Drive) (a : ℕ) → (serve h d).cylinders a ≡ (if h == a then 0 else d.cylinders a)
unfolding serve
cylinders-serve h d a = cylinders-serve_loop (d.cylinders h) h d a refl
