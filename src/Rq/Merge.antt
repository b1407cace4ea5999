-- ===== src/Rq/Merge.antt =====
-- The left-side and right-side merges of `add`: a node that overlaps the block takes its part.
use tcpincast.Base.{
  All, ◌≢◌, subst, ap₂, ℕ, ◌-◌, ◌<◌, ◌≡◌, refl, ◌∙◌, sym, ap, true, ◌||◌, ◌⊎◌, inl, inr, List, [],
  ◌∷◌, ◌++◌, arith, zip_up, min, max, Bool-cases, ltb, is_nil,
}
use tcpincast.Rq.Defs.{Seg, Rq}
use tcpincast.Rq.Sides.{
  New, merge, merge_with, right_far, far, rev_onto, stretch_left, stretch_right, grown, touches,
}
use tcpincast.Rq.Ranges.{Range, range_of, ranges, insert_range, Sep, width, insert-absorb}
use tcpincast.Rq.Zip.{Before, Joined, Joined-Before, Before-mono, insert-zip_up}
use tcpincast.Rq.Place.{Holds, EndsBy, BeginsFrom}
use tcpincast.Rq.Leftover.{insert-same, finish_inserts}
use tcpincast.Rq.OneBetween.{left_merge, right_only}

-- Two nodes between: the block covers the gap from `m` to `z`.
module _ (w : New) (q : Rq) (b : List Seg) (m z : Seg) (a : List Seg)
    (joined : Joined (ranges b) (ranges (m ∷ z ∷ a))) (sep : Sep (ranges (m ∷ z ∷ a)))
    (behind : Before w.start (ranges b)) (starts : m.startseq < w.start)
    (above : w.start < m.endseq) (below : z.startseq < w.end) (inside : w.end < z.endseq)
    (total : q.total ≡ width (zip_up (ranges b) (ranges (m ∷ z ∷ a)))) where
  bridged :
      insert_range m.endseq z.startseq (zip_up (ranges b) (ranges (m ∷ z ∷ a)))
      ≡ insert_range w.start w.end (zip_up (ranges b) (ranges (m ∷ z ∷ a)))
  bridged =
      insert-zip_up m.endseq z.startseq (ranges b) (ranges (m ∷ z ∷ a))
        (Before-mono {m = w.start} {n = m.endseq} (ranges b) (omega arith) behind)
      ∙ ap (zip_up (ranges b)) (
          insert-absorb m.endseq z.startseq (range_of m) (ranges (z ∷ a)) (omega arith)
            (omega (arith, sep.1))
          ∙ insert-same (min m.endseq m.startseq) (max z.startseq m.endseq) (min w.start m.startseq)
              (max w.end m.endseq) (range_of z) (ranges a) (omega (arith, sep.1)) (omega arith)
              (omega (arith, sep.1, sep.2.0)) (omega arith) (omega (arith, sep.0, sep.1))
              (omega (arith, sep.1, sep.2.0))
          ∙ sym (
              insert-absorb w.start w.end (range_of m) (ranges (z ∷ a)) (omega arith)
                (omega arith)))
      ∙ sym (insert-zip_up w.start w.end (ranges b) (ranges (m ∷ z ∷ a)) behind)

  both_merge :
      Holds
        (insert_range w.start w.end (zip_up (ranges b) (ranges (m ∷ z ∷ a))))
        (merge_with b m (z ∷ []) a w q)
  unfolding merge_with far right_far rev_onto stretch_left stretch_right grown
  both_merge =
      let l : (is_nil b || ltb m.startseq w.start) ≡ true = ground arith in
      let r : (is_nil a || ltb w.end z.endseq) ≡ true = ground arith in
      let m' = stretch_left w m in
      let w' : New = record w { start = m.endseq; initcnt = w.initcnt - 1 } in
      let z' = stretch_right w' z in
      let em : range_of m' ≡ range_of m = ground arith in
      let ez : range_of z' ≡ range_of z = ground arith in
      let counted : (grown z z' (grown m m' q)).total ≡ q.total = ground arith in
      rw (l, r)
        (finish_inserts (m' ∷ b) (z' ∷ a)
          (record w { start = m.endseq; end = z.startseq; initcnt = w.initcnt - 1 })
          (grown z z' (grown m m' q)) _ true
          (record {
            nonempty = sep.1;
            joined = ground (arith, Joined-Before (ranges b) (range_of m) (ranges (z ∷ a)) joined);
            sep = subst (λ y. Sep (y ∷ ranges a)) (sym ez) sep.2;
            left = ground arith;
            right = ground arith;
          })
          (ground arith)
          (ap₂ (λ x y. insert_range m.endseq z.startseq (zip_up (ranges b) (x ∷ y ∷ ranges a))) em
              ez
            ∙ bridged)
          (counted
            ∙ total
            ∙ ap₂ (λ x y. width (zip_up (ranges b) (x ∷ y ∷ ranges a))) (sym em) (sym ez)))

-- `p` ends by the start of the block, `q` begins from its end, and the nodes between overlap it
-- without lying inside.
abbrev pub Overlaps : New → Seg → Type 0
Overlaps w m =
    (m.startseq < w.end) × (w.start < m.endseq) × ((m.startseq < w.start) ⊎ (w.end < m.endseq))

pub record Between (w : New) (q : Rq) (b mid a : List Seg) : Type 0 where
  pub nonempty : w.start < w.end
  pub joined : Joined (ranges b) (ranges (mid ++ a))
  pub sep : Sep (ranges (mid ++ a))
  pub left : EndsBy w.start b
  pub right : BeginsFrom w.end a
  pub total : q.total ≡ width (zip_up (ranges b) (ranges (mid ++ a)))
  pub over : All (Overlaps w) mid

Before-start :
    (b : List Seg) (s : ℕ) (m : Seg) (xs : List Range)
    → (is_nil b || ltb m.startseq s) ≡ true
    → Joined (ranges b) (range_of m ∷ xs)
    → Before s (ranges b) × Before (min s m.startseq) (ranges b)
Before-start [] s m xs l j = (tt, tt)
Before-start (p ∷ b) s m xs l j = ground arith

-- One node between.
one-Between :
    (w : New) (q : Rq) (b : List Seg) (m : Seg) (a : List Seg)
    → Between w q b (m ∷ []) a
    → Holds
        (insert_range w.start w.end (zip_up (ranges b) (ranges (m ∷ a))))
        (merge_with b m [] a w q)
unfolding merge_with
one-Between w q [] m a c =
    left_merge w q [] m a c.nonempty tt c.sep tt c.right c.over.0.1 c.over.0.0 c.total tt tt
one-Between w q (p ∷ b) m a c = elim (Bool-cases (ltb m.startseq w.start)) [
  | inl l ↦
      let v = Before-start (p ∷ b) w.start m (ranges a) l c.joined in
      rw l (
        left_merge w q (p ∷ b) m a c.nonempty c.joined c.sep c.left c.right c.over.0.1 c.over.0.0
          c.total v.0 v.1)
  | inr l ↦ rw l (
      right_only w q p b m a c.nonempty c.joined c.sep c.left c.over.0.0 (ground arith)
        (ground arith) c.total)
]

two-Between :
    (w : New) (q : Rq) (b : List Seg) (m z : Seg) (a : List Seg)
    → Between w q b (m ∷ z ∷ []) a
    → Holds
        (insert_range w.start w.end (zip_up (ranges b) (ranges (m ∷ z ∷ a))))
        (merge_with b m (z ∷ []) a w q)
two-Between w q b m z a c =
    let starts : m.startseq < w.start = omega (arith, c.over.0, c.over.1.0, c.sep.1) in
    both_merge w q b m z a c.joined c.sep
      (Before-mono {m = m.startseq} {n = w.start} (ranges b) (omega arith)
        (Joined-Before (ranges b) (range_of m) (ranges (z ∷ a)) c.joined))
      starts c.over.0.1 c.over.1.0.0 (omega (arith, c.over.1.0, c.over.0, c.sep.1)) c.total

pub merge_inserts :
    (w : New) (q : Rq) (b mid a : List Seg)
    → Between w q b mid a
    → mid ≢ []
    → Holds (insert_range w.start w.end (zip_up (ranges b) (ranges (mid ++ a)))) (merge b mid a w q)
unfolding merge
merge_inserts w q b [] a c n = absurd (n refl)
merge_inserts w q b (m ∷ []) a c n = one-Between w q b m a c
merge_inserts w q b (m ∷ z ∷ []) a c n = two-Between w q b m z a c
merge_inserts w q b (m ∷ z ∷ y ∷ t) a c n =
    absurd (omega (arith, c.over.0, c.over.1.0, c.over.1.1.0, c.sep.1, c.sep.2.1))

-- No node between: the block lies between `p` and `q`.
pub gap_inserts :
    (w : New) (q : Rq) (p : Seg) (b : List Seg) (x : Seg) (a : List Seg)
    → Between w q (p ∷ b) [] (x ∷ a)
    → Holds
        (insert_range w.start w.end (zip_up (ranges (p ∷ b)) (ranges (x ∷ a))))
        (merge (p ∷ b) [] (x ∷ a) w q)
unfolding merge touches
gap_inserts w q p b x a c =
    finish_inserts (p ∷ b) (x ∷ a) w q _ _
      (record {
        nonempty = c.nonempty;
        joined = c.joined;
        sep = c.sep;
        left = c.left;
        right = c.right;
      })
      (ground (arith, c.left, c.right)) refl c.total
