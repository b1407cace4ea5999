-- ===== src/Rq/Leftover.antt =====
-- What is left of a block in `add` once the nodes that overlap it have taken their part.
use tcpincast.Base.{
  ℕ, ◌≤◌, ◌<◌, ◌≡◌, refl, ◌∙◌, sym, ap, Bool, true, ◌||◌, inl, inr, List, [], ◌∷◌, arith, zip_up,
  map-zip_up, min, max, Bool-cases, ltb, ltb→lt, ltb→le, is_nil, le→leb, lt→leb,
}
use tcpincast.Rq.Defs.{Seg, Rq}
use tcpincast.Rq.Sides.{New, finish, covered}
use tcpincast.Rq.Ranges.{
  Range, range_of, ranges, insert_range, Beyond, width, insert-absorb, insert-later,
}
use tcpincast.Rq.Place.{Holds, meets_left, meets_right, Fits, endfast_inserts}

-- Two insertions that differ only inside a range that both meet.
pub insert-same :
    (s e s' e' : ℕ) (x : Range) (xs : List Range)
    → s ≤ x.hi
    → x.lo ≤ e
    → s' ≤ x.hi
    → x.lo ≤ e'
    → min s x.lo ≡ min s' x.lo
    → max e x.hi ≡ max e' x.hi
    → insert_range s e (x ∷ xs) ≡ insert_range s' e' (x ∷ xs)
insert-same s e s' e' x xs h k h' k' l r =
    insert-absorb s e x xs h k ∙ rw (l, r) (sym (insert-absorb s' e' x xs h' k'))

-- The end of a block may be drawn back to the start of the range that covers it.
pub insert-narrow :
    (s e : ℕ) (p m : Range) (xs : List Range)
    → p.hi ≤ s
    → p.lo < p.hi
    → s ≤ m.lo
    → m.lo ≤ e
    → e ≤ m.hi
    → m.lo < m.hi
    → insert_range s m.lo (p ∷ m ∷ xs) ≡ insert_range s e (p ∷ m ∷ xs)
insert-narrow s e p m xs ps pf sm me eh mf = elim (Bool-cases (ltb p.hi s)) [
  | inl gap ↦
      insert-later s m.lo p (m ∷ xs) (ltb→lt _ _ gap)
      ∙ ap (◌∷◌ p) (
          insert-same s m.lo s e m xs (omega arith) (omega arith) (omega arith) me refl
            (omega arith))
      ∙ sym (insert-later s e p (m ∷ xs) (ltb→lt _ _ gap))
  | inr near ↦
      let near' : s ≤ p.hi = ltb→le _ _ near in
      insert-absorb s m.lo p (m ∷ xs) near' (omega arith)
      ∙ insert-same (min s p.lo) (max m.lo p.hi) (min s p.lo) (max e p.hi) m xs (omega arith)
          (omega arith) (omega arith) (omega arith) refl (omega arith)
      ∙ sym (insert-absorb s e p (m ∷ xs) near' (omega arith))
]

-- `covered` leaves the nodes as they are.
covered-Holds :
    (b : List Seg) (m : Seg) (a : List Seg) (w : New) (q : Rq) (r : List Range)
    → zip_up (ranges b) (ranges (m ∷ a)) ≡ r
    → q.total ≡ width r
    → Holds r (covered (zip_up b (m ∷ a)) w q)
unfolding covered
covered-Holds [] m a w q r e t = (e, t)
covered-Holds (x ∷ b) m a w q r e t = covered-Holds b x (m ∷ a) w q r e t

pub finish_covered :
    (b : List Seg) (m : Seg) (a : List Seg) (w : New) (q : Rq) (r : List Range) (n : Bool)
    → w.end ≤ w.start
    → zip_up (ranges b) (ranges (m ∷ a)) ≡ r
    → q.total ≡ width r
    → Holds r (finish b [] (m ∷ a) n w q)
unfolding finish
finish_covered b m a w q r n h e t = rw (le→leb _ _ h) (covered-Holds b m a w q r e t)

pub finish_covered_left :
    (b : List Seg) (m : Seg) (a : List Seg) (w : New) (q : Rq) (r : List Range) (n : Bool)
    → w.end ≤ w.start
    → zip_up (ranges b) (ranges (m ∷ a)) ≡ r
    → q.total ≡ width r
    → Holds r (finish (m ∷ b) [] a n w q)
unfolding finish
finish_covered_left b m a w q r n h e t = rw (le→leb _ _ h) (covered-Holds b m a w q r e t)

pub finish_inserts :
    (b a : List Seg) (w : New) (q : Rq) (r : List Range) (n : Bool)
    → Fits w b a
    → n ≡ (meets_left b w.start || meets_right a w.end)
    → insert_range w.start w.end (zip_up (ranges b) (ranges a)) ≡ r
    → q.total ≡ width (zip_up (ranges b) (ranges a))
    → Holds r (finish b [] a n w q)
unfolding finish
finish_inserts b a w q r n f e i t =
    rw (lt→leb _ _ f.nonempty, ← i, ← map-zip_up range_of b a)
      (endfast_inserts w q b a n f e (t ∙ ap width (sym (map-zip_up range_of b a))))

pub Beyond-hull :
    (a : List Seg) (e h : ℕ)
    → (is_nil a || ltb e h) ≡ true
    → Beyond h (ranges a)
    → Beyond (max e h) (ranges a)
Beyond-hull [] e h r b = tt
Beyond-hull (x ∷ a) e h r b = omega (arith, ltb→lt e h r)
