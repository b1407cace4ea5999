-- ===== src/Rq/OneBetween.antt =====
-- The merges of `add` when one node lies between the neighbours of the block.
use tcpincast.Base.{
  subst, eq→==, ap₂, ◌+◌, ◌-◌, ◌≤◌, ◌<◌, ◌≡◌, refl, ◌∙◌, sym, ap, Bool, true, false, ◌||◌, inl, inr,
  List, [], ◌∷◌, arith, zip_up, min, max, Bool-cases, ltb, ltb→lt, is_nil,
}
use tcpincast.Rq.Defs.{Seg, Rq}
use tcpincast.Rq.Sides.{New, finish, right_of, stretch_left, stretch_right, grown}
use tcpincast.Rq.Ranges.{
  Range, range_of, ranges, insert_range, Sep, Beyond, Beyond-mono, width, insert-Beyond,
  insert-absorb, insert-first,
}
use tcpincast.Rq.Zip.{Before, Joined, Before-mono, insert-zip_up, width-zip_up}
use tcpincast.Rq.Place.{Holds, EndsBy, BeginsFrom}
use tcpincast.Rq.Leftover.{
  insert-narrow, finish_covered, finish_covered_left, finish_inserts, Beyond-hull,
}

-- One node `m` between, which the block overlaps from the left of `m` or from inside it.
module _ (w : New) (q : Rq) (b : List Seg) (m : Seg) (a : List Seg) (nonempty : w.start < w.end)
    (joined : Joined (ranges b) (ranges (m ∷ a))) (sep : Sep (ranges (m ∷ a)))
    (left : EndsBy w.start b) (right : BeginsFrom w.end a) (above : w.start < m.endseq)
    (below : m.startseq < w.end)
    (total : q.total ≡ width (zip_up (ranges b) (ranges (m ∷ a)))) where
  abbrev goal : List Range
  goal = insert_range w.start w.end (zip_up (ranges b) (ranges (m ∷ a)))

  abbrev hull : Range
  hull = record { lo = min w.start m.startseq; hi = max w.end m.endseq }

  count : (a : List Range) → width (zip_up (ranges b) a) ≡ width (ranges b) + width a
  count = width-zip_up (ranges b)

  -- What follows once nothing before `m` touches the block.
  goal_behind :
      Before w.start (ranges b) → goal ≡ zip_up (ranges b) (insert_range hull.lo hull.hi (ranges a))
  goal_behind v =
      insert-zip_up w.start w.end (ranges b) (ranges (m ∷ a)) v
      ∙ ap (zip_up (ranges b))
          (insert-absorb w.start w.end (range_of m) (ranges a) (omega arith) (omega arith))

  -- The block ends inside `m`: nothing of it is left when both sides have merged.
  absorbed :
      Before w.start (ranges b)
      → Beyond hull.hi (ranges a)
      → (m' : Seg) → m'.startseq ≡ hull.lo
      → m'.endseq ≡ hull.hi
      → (v : New) → v.end ≤ v.start
      → (q' : Rq) → q'.total ≡ q.total + (m.startseq - m'.startseq) + (m'.endseq - m.endseq)
      → (n : Bool) → Holds goal (finish (m' ∷ b) [] a n v q')
  absorbed v r m' l h w' e q' t n =
      let g : goal ≡ zip_up (ranges b) (ranges (m' ∷ a)) =
        goal_behind v
        ∙ ap (zip_up (ranges b))
            (insert-Beyond hull.lo hull.hi (ranges a) (omega arith) sep.2 r ∙ rw (l, h)) in
      finish_covered_left b m' a w' q' goal n e (sym g)
        (omega (arith, ap width g, count (ranges (m' ∷ a)), count (ranges (m ∷ a)), sep.0))

  -- The block goes on behind `m`, up to the next node or into the free space before it.
  left_only :
      Before w.start (ranges b)
      → (m' : Seg) → m'.startseq ≡ hull.lo
      → m'.endseq ≡ m.endseq
      → Before hull.lo (ranges b)
      → m.endseq < w.end
      → (v : New) → v.start ≡ m.endseq
      → v.end ≡ w.end
      → (q' : Rq) → q'.total ≡ q.total + (m.startseq - m'.startseq)
      → Holds goal (finish (m' ∷ b) [] a true v q')
  left_only v m' l h v' k w' es ee q' t =
      finish_inserts (m' ∷ b) a w' q' goal true
        (record {
          nonempty = omega arith;
          joined = (omega (arith, sep.0), rw h sep.1, rw l v');
          sep = sep.2;
          left = omega arith;
          right = rw ee right;
        })
        (rw (eq→== w'.start m'.endseq (es ∙ sym h)))
        (insert-zip_up w'.start w'.end (ranges b) (ranges (m' ∷ a))
            (Before-mono {m = hull.lo} {n = w'.start} (ranges b) (omega arith) v')
          ∙ ap (zip_up (ranges b)) (
              insert-absorb w'.start w'.end (range_of m') (ranges a) (omega arith)
                (omega (arith, sep.0))
              ∙ ap₂ (λ s e. insert_range s e (ranges a)) (omega (arith, sep.0)) (omega arith))
          ∙ sym (goal_behind v))
        (omega (arith, count (ranges (m' ∷ a)), count (ranges (m ∷ a)), sep.0))

  -- The left-side merge, and the right-side one where `m` is also the last node before `q`.
  pub left_merge :
      Before w.start (ranges b)
      → Before (min w.start m.startseq) (ranges b)
      → Holds goal (
          right_of true b
            (stretch_left w m)
            a
            (record w { start = m.endseq; initcnt = w.initcnt - 1 })
            (grown m (stretch_left w m) q))
  unfolding right_of stretch_left stretch_right grown
  left_merge v v' = elim (Bool-cases (is_nil a || ltb w.end m.endseq)) [
    | inl r ↦ rw r (
        absorbed v (Beyond-hull a w.end m.endseq r sep.1) _ (ground arith) (ground arith) _
          (ground arith) _ (ground arith) true)
    | inr r ↦ rw r (elim (Bool-cases (ltb m.endseq w.end)) [
      | inl k ↦
          left_only v (stretch_left w m) (ground arith) refl v' (ltb→lt _ _ k) _ refl refl
            (grown m (stretch_left w m) q) (ground arith)
      | inr k ↦
          absorbed v (Beyond-mono {k = hull.hi} {m = m.endseq} (ranges a) (ground arith) sep.1)
            (stretch_left w m) (ground arith) (ground arith)
            (record w { start = m.endseq; initcnt = w.initcnt - 1 }) (ground arith)
            (grown m (stretch_left w m) q) (ground arith) true
    ])
  ]

module _ (w : New) (q : Rq) (p : Seg) (b : List Seg) (m : Seg) (a : List Seg)
    (nonempty : w.start < w.end) (joined : Joined (ranges (p ∷ b)) (ranges (m ∷ a)))
    (sep : Sep (ranges (m ∷ a))) (left : p.endseq ≤ w.start) (below : m.startseq < w.end)
    (inside : w.end < m.endseq) (after : w.start ≤ m.startseq)
    (total : q.total ≡ width (zip_up (ranges (p ∷ b)) (ranges (m ∷ a)))) where
  behind : Before w.start (ranges b)
  behind = Before-mono {m = p.startseq} {n = w.start} (ranges b) (omega arith) joined.2

  kept : range_of (stretch_right w m) ≡ range_of m
  unfolding stretch_right
  kept = ground arith

  narrowed :
      w.start < m.startseq
      → insert_range w.start m.startseq (zip_up (ranges (p ∷ b)) (ranges (m ∷ a)))
        ≡ insert_range w.start w.end (zip_up (ranges (p ∷ b)) (ranges (m ∷ a)))
  narrowed k =
      insert-zip_up w.start m.startseq (ranges b) (ranges (p ∷ m ∷ a)) behind
      ∙ ap (zip_up (ranges b)) (
          insert-narrow w.start w.end (range_of p) (range_of m) (ranges a) left joined.0 after
            (omega arith) (omega arith) sep.0)
      ∙ sym (insert-zip_up w.start w.end (ranges b) (ranges (p ∷ m ∷ a)) behind)

  unchanged :
      m.startseq ≡ w.start
      → zip_up (ranges (p ∷ b)) (ranges (m ∷ a))
        ≡ insert_range w.start w.end (zip_up (ranges (p ∷ b)) (ranges (m ∷ a)))
  unchanged k = sym (
      insert-zip_up w.start w.end (ranges (p ∷ b)) (ranges (m ∷ a))
        (omega (arith, joined.1), joined.0, joined.2)
      ∙ ap (zip_up (ranges (p ∷ b))) (
          insert-first w.start w.end (range_of m) (ranges a) m.startseq m.endseq (omega arith)
            (omega arith) sep.0 sep.2 (omega arith) (omega arith) sep.1))

  -- The block ends in `m` and starts before it: only the right-side merge applies.
  pub right_only :
      Holds
        (insert_range w.start w.end (zip_up (ranges (p ∷ b)) (ranges (m ∷ a))))
        (right_of false (p ∷ b) m a w q)
  unfolding right_of stretch_right grown
  right_only =
      let r : (is_nil a || ltb w.end m.endseq) ≡ true = ground arith in
      let counted : (grown m (stretch_right w m) q).total ≡ q.total = ground arith in
      rw r (elim (Bool-cases (ltb w.start m.startseq)) [
        | inl k ↦
            finish_inserts (p ∷ b) (stretch_right w m ∷ a) (record w { end = m.startseq })
              (grown m (stretch_right w m) q) _ true
              (record {
                nonempty = ltb→lt _ _ k;
                joined = joined;
                sep = subst (λ x. Sep (x ∷ ranges a)) (sym kept) sep;
                left = left;
                right = omega arith;
              })
              (ground arith)
              (ap (λ x. insert_range w.start m.startseq (zip_up (ranges (p ∷ b)) (x ∷ ranges a)))
                  kept
                ∙ narrowed (ltb→lt _ _ k))
              (counted
                ∙ total
                ∙ ap (λ x. width (zip_up (ranges (p ∷ b)) (x ∷ ranges a))) (sym kept))
        | inr k ↦
            let same : m.startseq ≡ w.start = ground arith in
            finish_covered (p ∷ b) (stretch_right w m) a (record w { end = m.startseq })
              (grown m (stretch_right w m) q) _ true (omega arith)
              (ap (λ x. zip_up (ranges (p ∷ b)) (x ∷ ranges a)) kept ∙ unchanged same)
              (counted ∙ total ∙ ap width (unchanged same))
      ])
