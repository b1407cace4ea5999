-- ===== src/Rq/Rejoin.antt =====
-- The ranges before and after the place of a block, put together again.
use tcpincast.Base.{
  ℕ, ◌+◌, ◌≤◌, ◌<◌, ◌≡◌, refl, ◌∙◌, sym, ap, subst, ◌≢◌, true, List, [], ◌∷◌, ◌++◌, arith, zip_up,
  min, Bool-cases, inl, inr, is_nil, ltb, length,
}
use tcpincast.Rq.Defs.{Seg, Rq}
use tcpincast.Rq.Sides.{New, merge}
use tcpincast.Rq.Add.{first_of_p, rest_of_p}
use tcpincast.Rq.Ranges.{
  Range, range_of, ranges, insert_range, Sep, width, insert-absorb, insert-later, insert-first,
}
use tcpincast.Rq.Zip.{Before, Joined, Joined-Before, Before-mono, insert-zip_up}
use tcpincast.Rq.Place.{Holds, EndsBy}
use tcpincast.Rq.Merge.{Between, merge_inserts, gap_inserts}
use tcpincast.Rq.Sweep.{StartsWith}

pub width-ranges : (l a : List Seg) → width (ranges (l ++ a)) ≡ width (ranges l) + width (ranges a)
width-ranges [] a = omega arith
width-ranges (x ∷ l) a = omega (arith, width-ranges l a)

pub length-zip_up : (b a : List Seg) → length (zip_up b a) ≡ length b + length a
length-zip_up [] a = omega arith
length-zip_up (x ∷ b) a = omega (arith, length-zip_up b (x ∷ a))

-- The nodes that the sweep visits are `p` and those between.
pub refold :
    (b k a : List Seg) → zip_up (rest_of_p b) ((first_of_p b ++ k) ++ a) ≡ zip_up b (k ++ a)
unfolding rest_of_p first_of_p
refold [] k a = refl
refold (p ∷ b) k a = refl

pub Sep-left : (l a : List Seg) → Sep (ranges (l ++ a)) → Sep (ranges l)
Sep-left [] a v = tt
Sep-left (x ∷ []) a v = (v.0, tt, tt)
Sep-left (x ∷ y ∷ l) a v = (v.0, v.1, Sep-left (y ∷ l) a v.2)

pub is_nil-eq : (l : List Seg) → is_nil l ≡ true → l ≡ []
is_nil-eq [] e = refl
is_nil-eq (x ∷ l) e = cc

pub zip_up-eq_nil : (b a : List Seg) → zip_up b a ≡ [] → (b ≡ []) × (a ≡ [])
zip_up-eq_nil [] a e = (refl, e)
zip_up-eq_nil (x ∷ b) a e = let t : x ∷ a ≡ [] = (zip_up-eq_nil b (x ∷ a) e).1 in cc

-- The block is there already.
pub insert-present :
    (w : New) (b l a : List Seg)
    → w.start < w.end
    → StartsWith w l
    → Joined (ranges b) (ranges (l ++ a))
    → Sep (ranges (l ++ a))
    → insert_range w.start w.end (zip_up (ranges b) (ranges (l ++ a)))
      ≡ zip_up (ranges b) (ranges (l ++ a))
insert-present w b [] a n h j v = absurd h
insert-present w b (r ∷ l) a n h j v =
    insert-zip_up w.start w.end (ranges b) (ranges (r ∷ l ++ a)) (
      subst (λ k. Before k (ranges b)) h.0
        (Joined-Before (ranges b) (range_of r) (ranges (l ++ a)) j))
    ∙ ap (zip_up (ranges b)) (
        insert-first w.start w.end (range_of r) (ranges (l ++ a)) r.startseq r.endseq
          (omega (arith, h.0, h.1)) (omega (arith, h.0)) v.0 v.2 (omega (arith, h.0))
          (omega (arith, h.1)) v.1)

-- The merges, with a node on each side of a gap.
pub merge_all :
    (w : New) (q : Rq) (b m a : List Seg)
    → Between w q b m a
    → (b ≡ [] → m ≢ [])
    → m ++ a ≢ []
    → Holds (insert_range w.start w.end (zip_up (ranges b) (ranges (m ++ a)))) (merge b m a w q)
merge_all w q b (m ∷ ms) a c f n = merge_inserts w q b (m ∷ ms) a c (λ e. cc)
merge_all w q [] [] a c f n = absurd (f refl refl)
merge_all w q (p ∷ b) [] [] c f n = absurd (n refl)
merge_all w q (p ∷ b) [] (x ∷ a) c f n = gap_inserts w q p b x a c

-- Lists that take every wider block alike take it alike behind other nodes, too.
pub insert-behind :
    (s e : ℕ) (b : List Seg) (xs ys : List Range)
    → EndsBy s b
    → s < e
    → Joined (ranges b) xs
    → ((s' : ℕ) → s' ≤ s → insert_range s' e xs ≡ insert_range s' e ys)
    → insert_range s e (zip_up (ranges b) xs) ≡ insert_range s e (zip_up (ranges b) ys)
insert-behind s e [] xs ys l h j f = f s (omega arith)
insert-behind s e (p ∷ b) xs ys l h j f =
    let v = Before-mono {m = p.startseq} {n = s} (ranges b) (omega arith) j.2 in
    insert-zip_up s e (ranges b) (range_of p ∷ xs) v
    ∙ ap (zip_up (ranges b)) (elim (Bool-cases (ltb p.endseq s)) [
      | inl gap ↦
          insert-later s e (range_of p) xs (ground arith)
          ∙ ap (◌∷◌ (range_of p)) (f s (omega arith))
          ∙ sym (insert-later s e (range_of p) ys (ground arith))
      | inr near ↦
          let k : s ≤ p.endseq = ground arith in
          insert-absorb s e (range_of p) xs k (omega arith)
          ∙ ap (λ t. insert_range (min s p.startseq) t xs) (omega arith)
          ∙ f (min s p.startseq) (omega arith)
          ∙ ap (λ t. insert_range (min s p.startseq) t ys) (omega arith)
          ∙ sym (insert-absorb s e (range_of p) ys k (omega arith))
    ])
    ∙ sym (insert-zip_up s e (ranges b) (range_of p ∷ ys) v)
