-- ===== src/Rq/Place.antt =====
-- `endfast` and `coalesce` insert a range between its neighbours.
use tcpincast.Base.{
  ==→eq, eq→==, Bool-cases, inl, inr, ℕ, ◌+◌, ◌≤◌, ◌<◌, ◌≡◌, refl, ◌∙◌, sym, ap, Bool, true, false,
  ◌||◌, List, [], ◌∷◌, ◌==◌, arith, zip_up, map-zip_up, min, max,
}
use tcpincast.Rq.Defs.{Seg, Rq, release}
use tcpincast.Rq.Coalesce.{Outcome, returns, aborts, dangles, crossed, out_of_fuel, coalesce}
use tcpincast.Rq.Sides.{New, endfast}
use tcpincast.Rq.Ranges.{
  Range, range_of, ranges, insert_range, Sep, width, insert-Beyond, insert-absorb, insert-first,
  insert-later,
}
use tcpincast.Rq.Zip.{Before, Joined, Before-mono, insert-zip_up, width-zip_up}

-- The queue that a call returns holds these ranges, and counts their bytes.
abbrev pub Holds : List Range → Outcome → Type 0
Holds r (returns f q) = (ranges q.fifo ≡ r) × (q.total ≡ width r)
Holds r aborts = ⊥
Holds r dangles = ⊥
Holds r crossed = ⊥
Holds r out_of_fuel = ⊥

abbrev pub EndsBy : ℕ → List Seg → Type 0
EndsBy s [] = Unit
EndsBy s (p ∷ b) = p.endseq ≤ s

abbrev pub BeginsFrom : ℕ → List Seg → Type 0
BeginsFrom e [] = Unit
BeginsFrom e (x ∷ a) = e ≤ x.startseq

-- Does the new block touch the node before or the node after?
abbrev pub meets_left : List Seg → ℕ → Bool
meets_left [] s = false
meets_left (p ∷ b) s = s == p.endseq

abbrev pub meets_right : List Seg → ℕ → Bool
meets_right [] e = false
meets_right (x ∷ a) e = e == x.startseq

module _ (w : New) (q : Rq) (nonempty : w.start < w.end) where
  endfast-nil :
      (a : List Seg) (m : Bool)
      → BeginsFrom w.end a
      → Sep (ranges a)
      → m ≡ meets_right a w.end
      → q.total ≡ width (ranges a)
      → Holds (insert_range w.start w.end (ranges a)) (endfast [] a m w q)
  unfolding endfast release coalesce
  endfast-nil [] m f v e t =
      rw (e, insert-Beyond w.start w.end [] nonempty tt tt) (refl, omega arith)
  endfast-nil (x ∷ a) m f v e t = elim (Bool-cases (w.end == x.startseq)) [
    | inl touch ↦
        rw (e, touch)
          (ground (arith, insert-first w.start w.end (range_of x) (ranges a) w.start x.endseq))
    | inr apart ↦
        rw (e, apart, insert-Beyond w.start w.end (ranges (x ∷ a)) nonempty v (ground arith))
          (refl, omega arith)
  ]

module _ (w : New) (q : Rq) (nonempty : w.start < w.end) (p : Seg) (b : List Seg)
    (left : p.endseq ≤ w.start) (full : p.startseq < p.endseq)
    (before : Before p.startseq (ranges b)) where
  behind : Before w.start (ranges b)
  behind = Before-mono {m = p.startseq} {n = w.start} (ranges b) (omega arith) before

  -- The insertion happens at `p`.
  insert_at :
      (a : List Range)
      → insert_range w.start w.end (zip_up (ranges b) (range_of p ∷ a))
        ≡ zip_up (ranges b) (insert_range w.start w.end (range_of p ∷ a))
  insert_at a = insert-zip_up w.start w.end (ranges b) (range_of p ∷ a) behind

  count : (a : List Range) → width (zip_up (ranges b) a) ≡ width (ranges b) + width a
  count = width-zip_up (ranges b)

  endfast-last :
      (m : Bool)
      → m ≡ (w.start == p.endseq)
      → q.total ≡ width (zip_up (ranges b) (range_of p ∷ []))
      → Holds
          (zip_up (ranges b) (insert_range w.start w.end (range_of p ∷ [])))
          (endfast (p ∷ b) [] m w q)
  unfolding endfast release coalesce
  endfast-last m e t = elim (Bool-cases (w.start == p.endseq)) [
    | inl touch ↦
        let same : (p.endseq == w.start) ≡ true = ground arith in
        rw
          (
            e,
            touch,
            same,
            map-zip_up,
            insert-first w.start w.end (range_of p) [] p.startseq w.end (ground arith) (omega arith)
                full tt (omega arith) (omega arith) tt,
          )
          (
            refl,
            omega (
              arith,
              count (range_of p ∷ []),
              count (record { lo = p.startseq; hi = w.end } ∷ []),
              ==→eq w.start p.endseq touch,
            ),
          )
    | inr apart ↦
        rw
          (
            e,
            apart,
            map-zip_up,
            insert-later w.start w.end (range_of p) [] (ground arith),
            insert-Beyond w.start w.end [] nonempty tt tt,
          )
          (
            refl,
            omega (
              arith,
              count (range_of p ∷ []),
              count (range_of p ∷ record { lo = w.start; hi = w.end } ∷ []),
            ),
          )
  ]

  module _ (x : Seg) (a : List Seg) (right : w.end ≤ x.startseq) (sep : Sep (ranges (x ∷ a))) where
    after_both :
        w.start ≡ p.endseq
        → w.end ≡ x.startseq
        → insert_range w.start w.end (range_of p ∷ ranges (x ∷ a))
          ≡ record { lo = p.startseq; hi = x.endseq } ∷ ranges a
    after_both l r =
        insert-absorb w.start w.end (range_of p) (ranges (x ∷ a)) (omega arith) (omega arith)
        ∙ insert-first (min w.start p.startseq) (max w.end p.endseq) (range_of x) (ranges a)
            p.startseq x.endseq (omega arith) (omega arith) sep.0 sep.2 (omega arith) (omega arith)
            sep.1

    after_left :
        w.start ≡ p.endseq
        → w.end < x.startseq
        → insert_range w.start w.end (range_of p ∷ ranges (x ∷ a))
          ≡ record { lo = p.startseq; hi = w.end } ∷ ranges (x ∷ a)
    after_left l r =
        insert-first w.start w.end (range_of p) (ranges (x ∷ a)) p.startseq w.end (omega arith)
          (omega arith) full sep (omega arith) (omega arith) r

    after_right :
        p.endseq < w.start
        → w.end ≡ x.startseq
        → insert_range w.start w.end (range_of p ∷ ranges (x ∷ a))
          ≡ range_of p ∷ record { lo = w.start; hi = x.endseq } ∷ ranges a
    after_right l r =
        insert-later w.start w.end (range_of p) (ranges (x ∷ a)) l
        ∙ ap (◌∷◌ (range_of p)) (
            insert-first w.start w.end (range_of x) (ranges a) w.start x.endseq (omega arith)
              (omega arith) sep.0 sep.2 (omega arith) (omega arith) sep.1)

    after_none :
        p.endseq < w.start
        → w.end < x.startseq
        → insert_range w.start w.end (range_of p ∷ ranges (x ∷ a))
          ≡ range_of p ∷ record { lo = w.start; hi = w.end } ∷ ranges (x ∷ a)
    after_none l r =
        insert-later w.start w.end (range_of p) (ranges (x ∷ a)) l
        ∙ ap (◌∷◌ (range_of p)) (insert-Beyond w.start w.end (ranges (x ∷ a)) nonempty sep r)

    endfast-between :
        (m : Bool)
        → m ≡ ((w.start == p.endseq) || (w.end == x.startseq))
        → q.total ≡ width (zip_up (ranges b) (ranges (p ∷ x ∷ a)))
        → Holds
            (zip_up (ranges b) (insert_range w.start w.end (ranges (p ∷ x ∷ a))))
            (endfast (p ∷ b) (x ∷ a) m w q)
    unfolding endfast release coalesce
    endfast-between m e t = elim (Bool-cases (w.start == p.endseq)) [
      | inl l ↦
          let l' : w.start ≡ p.endseq = ==→eq _ _ l in
          let same : (p.endseq == w.start) ≡ true = eq→== _ _ (sym l') in
          elim (Bool-cases (w.end == x.startseq)) [
            | inl r ↦
                rw (e, l, same, r, map-zip_up, after_both l' (==→eq _ _ r))
                  (
                    refl,
                    omega (
                      arith,
                      count (ranges (p ∷ x ∷ a)),
                      count (record { lo = p.startseq; hi = x.endseq } ∷ ranges a),
                      ==→eq _ _ r,
                      sep.0,
                    ),
                  )
            | inr r ↦
                let r' : w.end < x.startseq = ground arith in
                rw (e, l, same, r, map-zip_up, after_left l' r')
                  (
                    refl,
                    omega (
                      arith,
                      count (ranges (p ∷ x ∷ a)),
                      count (record { lo = p.startseq; hi = w.end } ∷ ranges (x ∷ a)),
                      sep.0,
                    ),
                  )
          ]
      | inr l ↦
          let l' : p.endseq < w.start = ground arith in
          let same : (p.endseq == w.start) ≡ false = ground arith in
          elim (Bool-cases (w.end == x.startseq)) [
            | inl r ↦
                rw (e, l, same, r, map-zip_up, after_right l' (==→eq _ _ r))
                  (
                    refl,
                    omega (
                      arith,
                      count (ranges (p ∷ x ∷ a)),
                      count (range_of p ∷ record { lo = w.start; hi = x.endseq } ∷ ranges a),
                      ==→eq _ _ r,
                      sep.0,
                    ),
                  )
            | inr r ↦
                let r' : w.end < x.startseq = ground arith in
                rw (e, l, same, r, map-zip_up, after_none l' r')
                  (
                    refl,
                    omega (
                      arith,
                      count (ranges (p ∷ x ∷ a)),
                      count (range_of p ∷ record { lo = w.start; hi = w.end } ∷ ranges (x ∷ a)),
                      sep.0,
                    ),
                  )
          ]
    ]

-- The place of a new block: its neighbours do not overlap it.
pub record Fits (w : New) (b a : List Seg) : Type 0 where
  pub nonempty : w.start < w.end
  pub joined : Joined (ranges b) (ranges a)
  pub sep : Sep (ranges a)
  pub left : EndsBy w.start b
  pub right : BeginsFrom w.end a

-- From `endfast` on, the block is inserted if `needmerge` says whether it touches a neighbour.
pub endfast_inserts :
    (w : New) (q : Rq) (b a : List Seg) (m : Bool)
    → Fits w b a
    → m ≡ (meets_left b w.start || meets_right a w.end)
    → q.total ≡ width (ranges (zip_up b a))
    → Holds (insert_range w.start w.end (ranges (zip_up b a))) (endfast b a m w q)
endfast_inserts w q [] a m f e t = endfast-nil w q f.nonempty a m f.right f.sep e t
endfast_inserts w q (p ∷ b) [] m f e t =
    rw
      (map-zip_up range_of b (p ∷ []), insert_at w q f.nonempty p b f.left f.joined.0 f.joined.2 [])
      (endfast-last w q f.nonempty p b f.left f.joined.0 f.joined.2 m (ground arith)
        (t ∙ ap width (map-zip_up range_of b (p ∷ []))))
endfast_inserts w q (p ∷ b) (x ∷ a) m f e t =
    rw
      (
        map-zip_up range_of b (p ∷ x ∷ a),
        insert_at w q f.nonempty p b f.left f.joined.0 f.joined.2 (ranges (x ∷ a)),
      )
      (endfast-between w q f.nonempty p b f.left f.joined.0 f.joined.2 x a f.right f.sep m e
        (t ∙ ap width (map-zip_up range_of b (p ∷ x ∷ a))))
