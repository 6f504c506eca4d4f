-- ===== src/Disk/Scan/Circular.antt =====
-- Labweek18/HDD_scheduling.c, `C_SCAN`: a sweep to the end of the disk, a return across it, and a
-- second sweep in the same direction.
use mathlib.Core.Path.{fun_ext, subst}
use operating_system_homewor.Prelude.{
  ℕ, ◌+◌, ◌-◌, ◌<◌, ◌≡◌, refl, sym, ap, ◌∙◌, inl, inr, Bool-cases, true, false, List, [], ◌∷◌, ◌++◌,
  arith, count, leb, ◌==◌, if◌then◌else◌, append_assoc, append-nil,
}
use operating_system_homewor.Prelude.Int.{ℤ, pos, sub_ℕ}
use operating_system_homewor.Disk.{Drive, cylinder_num, start}
use operating_system_homewor.Disk.Load.{cylinders-start}
use operating_system_homewor.Disk.Path.{gap, path, last_stop, Moved, Moved-trans, path-append}
use operating_system_homewor.Disk.Sweep.{downwards}
use operating_system_homewor.Disk.Sweep.Blocks.{
  blocks_down, blocks_up, blocks_up_congr, blocks_down_congr, blocks_down-skip, blocks_up-skip_top,
  path-blocks_down, path-blocks_up, last_stop-blocks_up-le,
}
use operating_system_homewor.Disk.Sweep.Down.{SweptDown, sweep-SweptDown}
use operating_system_homewor.Disk.Sweep.Up.{SweptUp, sweep-SweptUp}
use operating_system_homewor.Disk.Scan.{
  sweep_disk, clamp_head, stop_at, other_end, return_to, c_scan,
}
use operating_system_homewor.Disk.Scan.Turn.{
  turning, stop_at-Moved, cylinders-stop_at, path-turning,
}

-- The far end is printed on the return unless a request pending there is about to be.
abbrev pub returning : ℕ → ℕ → List ℕ
returning pending end = if pending == 0 then end ∷ [] else []

-- A run of C-SCAN: the first sweep with the stop at its end, the return, the second sweep.
pub record Circled (d0 d : Drive) (there ret back : List ℕ) (end : ℕ) : Type 0 where
  pub printed : d.out ≡ d0.out ++ (there ++ ret ++ back)
  pub counted : d.sum ≡ d0.sum + path d0.pre there + (cylinder_num - 1) + path end back
  pub idle : (a : ℕ) → a < cylinder_num → d.cylinders a ≡ 0

Circled-of :
    (d0 d1 d : Drive) (there ret back : List ℕ) (end : ℕ)
    → Moved d0 d1 there
    → ret ≡ returning (d1.cylinders end) end
    → Moved (return_to (pos end) d1) d back
    → ((a : ℕ) → a < cylinder_num → d.cylinders a ≡ 0)
    → Circled d0 d there ret back end
unfolding return_to
Circled-of d0 d1 d there ret back end m e n idle = record {
  printed =
      rw (n.printed, e)
        (elim (Bool-cases (d1.cylinders end == 0)) [
          | inl quiet ↦ rw (quiet, m.printed) (simp append_assoc)
          | inr asked ↦ rw (asked, m.printed) (simp (append_assoc, append-nil))
        ]);
  counted = omega (arith, m.counted, n.counted);
  idle = idle;
}

c_scan_eq :
    (req : List ℕ) (head : ℕ) (dir : ℤ)
    → let r = sweep_disk dir (pos head) (start req head) in
      let back = other_end (clamp_head r.0) in
      c_scan req head dir ≡ (sweep_disk dir back (return_to back (stop_at (clamp_head r.0) r.1))).1
unfolding c_scan
c_scan_eq req head dir = refl

cylinders-return_to :
    (h : ℕ) (d : Drive) (a : ℕ) → (return_to (pos h) d).cylinders a ≡ d.cylinders a
unfolding return_to
cylinders-return_to h d a = refl

-- C-SCAN from a head going to cylinder 0.
c_scan_down-Circled :
    (req : List ℕ) (head : ℕ) (dir : ℤ)
    → head < cylinder_num
    → downwards dir ≡ true
    → let c = (start req head).cylinders in
      let end = cylinder_num - 1 in
      let there = blocks_down c 0 (head + 1) in
      Circled
        (start req head)
        (c_scan req head dir)
        (there ++ turning (last_stop head there) 0)
        (returning (if leb end head then 0 else c end) end)
        (blocks_down c (head + 1) (end - head))
        end
unfolding start
c_scan_down-Circled req head dir small down =
    rw (c_scan_eq req head dir, s1.stopped)
      (Circled-of d0 d1 _ _ _ _ end (Moved-trans _ _ _ _ _ s1.moved turn)
        (ap (λ k. returning k end) (sym (left end))) (rw rest at s2.moved)
        (λ a in_disk. ground (arith, s2.left a)))
  where
    d0 : Drive
    d0 = start req head

    c : ℕ → ℕ
    c = d0.cylinders

    end : ℕ
    end = cylinder_num - 1

    r1 : ℤ × Drive
    r1 = sweep_disk dir (pos head) d0

    from : sub_ℕ (0 + (head + 1)) 1 ≡ pos head
    from = ground arith

    s1 : SweptDown 0 (head + 1) d0 r1
    s1 = rw from at (
        sweep-SweptDown (head + 1) (cylinder_num + 1) 0 end dir d0 down (omega arith) (omega arith))

    d1 : Drive
    d1 = stop_at (pos 0) r1.1

    turn : Moved r1.1 d1 (turning (last_stop head (blocks_down c 0 (head + 1))) 0)
    turn = rw (← s1.moved.ended) (stop_at-Moved 0 r1.1)

    left : (a : ℕ) → d1.cylinders a ≡ (if leb a head then 0 else c a)
    left a = ground (arith, cylinders-stop_at 0 r1.1 a, s1.left a)

    d2 : Drive
    d2 = return_to (pos end) d1

    s2 : SweptDown 0 cylinder_num d2 (sweep_disk dir (pos end) d2)
    s2 =
        sweep-SweptDown cylinder_num (cylinder_num + 1) 0 end dir d2 down (omega arith)
          (omega arith)

    rest : blocks_down d2.cylinders 0 cylinder_num ≡ blocks_down c (head + 1) (end - head)
    rest =
        let split : cylinder_num ≡ (head + 1) + (end - head) = omega arith in
        let bottom : 0 + (head + 1) ≡ head + 1 = omega arith in
        ap (blocks_down d2.cylinders 0) split
        ∙ blocks_down-skip d2.cylinders 0 (head + 1) (end - head)
            (λ q g l. ground (arith, cylinders-return_to end d1 q, left q))
        ∙ ap (λ lo. blocks_down d2.cylinders lo (end - head)) bottom
        ∙ blocks_down_congr d2.cylinders c (head + 1) (end - head)
            (λ q g l. ground (arith, cylinders-return_to end d1 q, left q))

-- C-SCAN from a head going to the last cylinder.
c_scan_up-Circled :
    (req : List ℕ) (head : ℕ) (dir : ℤ)
    → head < cylinder_num
    → downwards dir ≡ false
    → let c = (start req head).cylinders in
      let end = cylinder_num - 1 in
      let there = blocks_up c head (cylinder_num - head) in
      Circled
        (start req head)
        (c_scan req head dir)
        (there ++ turning (last_stop head there) end)
        (returning (if leb head 0 then 0 else c 0) 0)
        (blocks_up c 0 head)
        0
unfolding start
c_scan_up-Circled req head dir small up =
    rw (c_scan_eq req head dir, s1.stopped, beyond)
      (Circled-of d0 d1 _ _ _ _ 0 (Moved-trans _ _ _ _ _ s1.moved turn)
        (ap (λ k. returning k 0) (sym (left 0 (omega arith)))) (rw rest at s2.moved)
        (λ a in_disk. ground (arith, s2.left a)))
  where
    d0 : Drive
    d0 = start req head

    c : ℕ → ℕ
    c = d0.cylinders

    end : ℕ
    end = cylinder_num - 1

    r1 : ℤ × Drive
    r1 = sweep_disk dir (pos head) d0

    beyond : head + (cylinder_num - head) ≡ cylinder_num
    beyond = omega arith

    s1 : SweptUp head (cylinder_num - head) d0 r1
    s1 =
        sweep-SweptUp (cylinder_num - head) (cylinder_num + 1) 0 end head dir d0 up (omega arith)
          (omega arith) (omega arith)

    d1 : Drive
    d1 = stop_at (pos end) r1.1

    turn : Moved r1.1 d1 (turning (last_stop head (blocks_up c head (cylinder_num - head))) end)
    turn = rw (← s1.moved.ended) (stop_at-Moved end r1.1)

    left : (a : ℕ) → a < cylinder_num → d1.cylinders a ≡ (if leb head a then 0 else c a)
    left a in_disk = ground (arith, cylinders-stop_at end r1.1 a, s1.left a)

    d2 : Drive
    d2 = return_to (pos 0) d1

    s2 : SweptUp 0 cylinder_num d2 (sweep_disk dir (pos 0) d2)
    s2 =
        sweep-SweptUp cylinder_num (cylinder_num + 1) 0 end 0 dir d2 up (omega arith) (omega arith)
          (omega arith)

    rest : blocks_up d2.cylinders 0 cylinder_num ≡ blocks_up c 0 head
    rest =
        let split : cylinder_num ≡ head + (cylinder_num - head) = omega arith in
        ap (blocks_up d2.cylinders 0) split
        ∙ blocks_up-skip_top d2.cylinders 0 head (cylinder_num - head)
            (λ q g l. ground (arith, cylinders-return_to 0 d1 q, left q (omega arith)))
        ∙ blocks_up_congr d2.cylinders c 0 head
            (λ q g l. ground (arith, cylinders-return_to 0 d1 q, left q (omega arith)))

-- What C-SCAN does at `head` with the requests `c`: the run it prints, its length, and that nothing
-- is left pending on the disk.
abbrev pub CircularRun : List ℕ → ℕ → ℤ → (ℕ → ℕ) → Type 0
CircularRun req head dir c =
    let end = cylinder_num - 1 in
    let down = blocks_down c 0 (head + 1) in
    let up = blocks_up c head (cylinder_num - head) in
    let above = blocks_down c (head + 1) (end - head) in
    let below = blocks_up c 0 head in
    let out = (start req head).out in
    ((c_scan req head dir).out ≡ (
      if downwards dir
      then out
        ++ (down
            ++ turning (last_stop head down) 0
            ++ returning (if leb end head then 0 else c end) end
            ++ above)
      else out
        ++ (up
            ++ turning (last_stop head up) end
            ++ returning (if leb head 0 then 0 else c 0) 0
            ++ below)))
    × ((c_scan req head dir).sum ≡ (
        if downwards dir
        then head + end + (end - last_stop end above)
        else (end - head) + end + last_stop 0 below))
    × ((a : ℕ) → a < cylinder_num → (c_scan req head dir).cylinders a ≡ 0)

path-out :
    (p end : ℕ) (there : List ℕ)
    → path p (there ++ turning (last_stop p there) end) ≡ path p there + gap (last_stop p there) end
path-out p end there = rw (path-append, path-turning)

-- C-SCAN from a head on the disk, toward cylinder 0: it prints the requests from the head down to
-- 0, then 0 if the head did not stop there, then the last cylinder unless a request is pending
-- there, and then the requests above the start from the top down; the total movement is the way to
-- cylinder 0, the width of the disk, and the way from the last cylinder to the last stop. Away from
-- cylinder 0 it is the mirror image. Either way nothing is left pending on the disk.
pub c_scan_correct :
    (req : List ℕ) (head : ℕ) (dir : ℤ)
    → head < cylinder_num
    → CircularRun req head dir (λ a. count a req)
unfolding start
c_scan_correct req head dir small =
    subst (CircularRun req head dir) (fun_ext (cylinders-start req head))
      (elim (Bool-cases (downwards dir)) [
        | inl down ↦
            let r = c_scan_down-Circled req head dir small down in
            rw down (
              r.printed,
              omega (
                arith,
                r.counted,
                path-out head 0 (blocks_down c 0 (head + 1)),
                path-blocks_down c head 0 (head + 1),
                path-blocks_down c end (head + 1) (end - head),
              ),
              r.idle,
            )
        | inr up ↦
            let r = c_scan_up-Circled req head dir small up in
            rw up (
              r.printed,
              omega (
                arith,
                r.counted,
                path-out head end (blocks_up c head (cylinder_num - head)),
                path-blocks_up c head head (cylinder_num - head),
                last_stop-blocks_up-le c head head (cylinder_num - head) end,
                path-blocks_up c 0 0 head,
              ),
              r.idle,
            )
      ])
  where
    c : ℕ → ℕ
    c = (start req head).cylinders

    end : ℕ
    end = cylinder_num - 1
