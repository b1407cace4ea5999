-- ===== src/Rq/Round.antt =====
-- The rounds of `add`: the fast paths, the search, and the return to `again2`.
use tcpincast.Base.{
  ℕ, zero, suc, ◌<◌, ◌≡◌, refl, ◌∙◌, sym, ap, subst, ◌≢◌, false, List, [], ◌∷◌, ◌++◌, ◌==◌, arith,
  zip_up, map-zip_up, Bool-cases, inl, inr, is_nil, leb, leb→le, leb→lt, lt→ltb, le→ltb, ap₂,
  length, All, append-nil,
}
use tcpincast.Rq.Defs.{Seg, Rq}
use tcpincast.Rq.Coalesce.{Outcome}
use tcpincast.Rq.Sides.{New, endfast, rev_onto}
use tcpincast.Rq.Add.{
  Place, sweep, upto_q, first_of_p, has_q, search_from, back_to_p, placed, placed_in, again2, first,
  add,
}
use tcpincast.Rq.Ranges.{Range, range_of, ranges, insert_range, Sep, width}
use tcpincast.Rq.Zip.{Joined, Joined-zip_up}
use tcpincast.Rq.Place.{Holds, EndsBy, endfast_inserts}
use tcpincast.Rq.Sweep.{sweep-skip}
use tcpincast.Rq.Search.{zip_up-rev, back-zip_up, back-EndsBy, back-above, back-after, Before-has_q}
use tcpincast.Rq.Insert.{swept_inserts}
use tcpincast.Rq.Rejoin.{is_nil-eq}

-- What a round may ask of the next one.
abbrev Retries : New → ℕ → (New → Rq → Outcome) → Type 0
Retries w n again =
    (w' : New) (q' : Rq)
    → w'.start ≡ w.start
    → w'.end ≡ w.end
    → Sep (ranges q'.fifo)
    → q'.total ≡ width (ranges q'.fifo)
    → length q'.fifo < n
    → Holds (insert_range w.start w.end (ranges q'.fifo)) (again w' q')

no_q :
    (s e : ℕ) (b : List Seg) (xs : List Range)
    → EndsBy s b
    → s < e
    → Joined (ranges b) xs
    → has_q e b ≡ false
unfolding has_q
no_q s e [] xs l h j = refl
no_q s e (p ∷ b) xs l h j = ground (arith, Before-has_q p.startseq e b j.2)

region :
    (w : New) (q : Rq) (b l : List Seg) (xs : List Range)
    → EndsBy w.start b
    → Joined (ranges b) xs
    → sweep (first_of_p b ++ l) w q
      ≡ record (sweep l w q) { kept = first_of_p b ++ (sweep l w q).kept }
unfolding first_of_p
region w q [] l xs e j = refl
region w q (p ∷ b) l xs e j = sweep-skip p l w q (omega (arith, j.0))

search_inserts :
    (w : New) (q : Rq) (pl : Place) (again : New → Rq → Outcome)
    → w.start < w.end
    → Joined (ranges pl.before) (ranges pl.after)
    → Sep (ranges pl.after)
    → EndsBy w.start pl.before
    → All (λ x. w.start < x.endseq) pl.after
    → pl.after ≢ []
    → (pl.before ≡ [] → upto_q w.end pl.after ≢ [])
    → q.total ≡ width (zip_up (ranges pl.before) (ranges pl.after))
    → Retries w (length (zip_up pl.before pl.after)) again
    → Holds
        (insert_range w.start w.end (zip_up (ranges pl.before) (ranges pl.after)))
        (search_from again pl w q)
unfolding search_from
search_inserts w q pl again n j v l a b f t r =
    rw
      (
        no_q w.start w.end pl.before (ranges pl.after) l n j,
        region w q pl.before (upto_q w.end pl.after) (ranges pl.after) l j,
      )
      (swept_inserts w q pl n j v l a b f t again r)

back-last : (s : ℕ) (z : Seg) (b : List Seg) → s < z.endseq → (back_to_p s (z ∷ b) []).after ≢ []
unfolding back_to_p
back-last s z b h = rw (lt→ltb _ _ h) (back-after s b (z ∷ []) (λ e. cc))

upto-head : (e : ℕ) (h : Seg) (t : List Seg) → h.startseq < e → upto_q e (h ∷ t) ≢ []
unfolding upto_q
upto-head e h t k = rw (lt→ltb _ _ k) (λ x. cc)

-- The ranges around a place of the queue `l`.
around : (b a l : List Seg) → zip_up b a ≡ l → zip_up (ranges b) (ranges a) ≡ ranges l
around b a l e = sym (map-zip_up range_of b a) ∙ ap ranges e

-- One round over a queue `h ∷ t` whose last node is `z`.
placed_inserts :
    (w : New) (q : Rq) (h : Seg) (t : List Seg) (z : Seg) (b : List Seg)
    (again : New → Rq → Outcome)
    → w.start < w.end
    → zip_up (z ∷ b) [] ≡ h ∷ t
    → Sep (ranges (h ∷ t))
    → q.total ≡ width (ranges (h ∷ t))
    → Retries w (length (h ∷ t)) again
    → Holds (insert_range w.start w.end (ranges (h ∷ t))) (placed again h t z b w q)
unfolding placed
placed_inserts w q h t z b again n e v c r = elim (Bool-cases (leb z.endseq w.start)) [
  | inl k ↦
      let p = around (z ∷ b) [] (h ∷ t) e in
      let j = Joined-zip_up (ranges (z ∷ b)) [] (subst Sep (sym p) v) in
      rw k (
        subst
          (λ l.
            Holds (insert_range w.start w.end (ranges l))
              (endfast (z ∷ b) [] (w.start == z.endseq) w q))
          e
          (endfast_inserts w q (z ∷ b) [] (w.start == z.endseq)
            (record { nonempty = n; joined = j.0; sep = tt; left = leb→le _ _ k; right = tt })
            (ground arith) (c ∙ ap (λ l. width (ranges l)) (sym e))))
  | inr k ↦ rw k (elim (Bool-cases (leb w.end h.startseq)) [
    | inl m ↦ rw m (
        endfast_inserts w q [] (h ∷ t) (w.end == h.startseq)
          (record { nonempty = n; joined = tt; sep = v; left = tt; right = leb→le _ _ m }) refl c)
    | inr m ↦
        let pl = back_to_p w.start (z ∷ b) [] in
        let z' : zip_up pl.before pl.after ≡ h ∷ t = back-zip_up w.start (z ∷ b) [] ∙ e in
        let p = around pl.before pl.after (h ∷ t) z' in
        let j = Joined-zip_up (ranges pl.before) (ranges pl.after) (subst Sep (sym p) v) in
        rw m (
          subst (λ l. Holds (insert_range w.start w.end l) (search_from again pl w q)) p
            (search_inserts w q pl again n j.0 j.1 (back-EndsBy w.start (z ∷ b) [])
              (back-above w.start (z ∷ b) [] tt) (back-last w.start z b (leb→lt _ _ k))
              (λ f.
                subst (λ l. upto_q w.end l ≢ []) (sym (ap (λ l. zip_up l pl.after) (sym f) ∙ z'))
                  (upto-head w.end h t (leb→lt _ _ m)))
              (c ∙ ap width (sym p)) (rw z' r)))
  ])
]

rev-cons :
    (x : Seg) (acc l : List Seg) → (z : Seg) × (b : List Seg) × (rev_onto (x ∷ acc) l ≡ z ∷ b)
unfolding rev_onto
rev-cons x acc [] = (x, acc, refl)
rev-cons x acc (y ∷ l) = rev-cons y (x ∷ acc) l

placed_in_inserts :
    (w : New) (q : Rq) (l : List Seg) (again : New → Rq → Outcome)
    → w.start < w.end
    → Sep (ranges l)
    → q.total ≡ width (ranges l)
    → Retries w (length l) again
    → Holds (insert_range w.start w.end (ranges l)) (placed_in again l (rev_onto [] l) w q)
unfolding placed_in rev_onto
placed_in_inserts w q [] again n v c r =
    endfast_inserts w q [] [] false
      (record { nonempty = n; joined = tt; sep = tt; left = tt; right = tt }) refl c
placed_in_inserts w q (h ∷ t) again n v c r =
    let (z, b, e) = rev-cons h [] t in
    let back : zip_up (z ∷ b) [] ≡ h ∷ t =
      ap (λ l. zip_up l []) (sym e) ∙ zip_up-rev (h ∷ []) t [] ∙ ap (◌∷◌ h) (append-nil t) in
    rw e (placed_inserts w q h t z b again n back v c r)

-- With more fuel than nodes the rounds end, and the block is inserted.
pub again2_inserts :
    (fuel : ℕ) (w : New) (q : Rq)
    → w.start < w.end
    → Sep (ranges q.fifo)
    → q.total ≡ width (ranges q.fifo)
    → length q.fifo < fuel
    → Holds (insert_range w.start w.end (ranges q.fifo)) (again2 fuel w q)
unfolding again2
again2_inserts zero w q n v c h = absurd (omega arith)
again2_inserts (suc fuel) w q n v c h =
    placed_in_inserts w q q.fifo (again2 fuel) n v c λ w' q' s e v' c' h'.
      subst (λ k. Holds k (again2 fuel w' q')) (ap₂ (λ a b. insert_range a b (ranges q'.fifo)) s e)
        (again2_inserts fuel w' q' (omega arith) v' c' (omega arith))

-- A queue of separated segments whose bytes `total_` counts, with no LIFO entry when it is empty.
pub record IsValid (q : Rq) : Type 0 where
  pub sep : Sep (ranges q.fifo)
  pub total : q.total ≡ width (ranges q.fifo)
  pub stacked : q.fifo ≡ [] → q.lifo ≡ []

first_inserts :
    (w : New) (q : Rq)
    → w.start < w.end
    → q.lifo ≡ []
    → Holds (insert_range w.start w.end []) (first w q)
unfolding first insert_range
first_inserts w q n e = rw e (refl, omega arith)

abbrev block : ℕ → ℕ → ℕ → ℕ → New
block s e t r = record { start = s; end = e; tiflags = t; rqflags = r; initcnt = 1 }

-- `add` of a block that is not empty, to a valid queue, always returns; the queue then holds the
-- ranges that inserting the block's range gives, merged where they touch, and `total_` counts them.
pub add_inserts :
    (start end tiflags rqflags : ℕ) (q : Rq)
    → start < end
    → IsValid q
    → Holds (insert_range start end (ranges q.fifo)) (add start end tiflags rqflags q)
unfolding add
add_inserts start end tiflags rqflags q n v = elim (Bool-cases (is_nil q.fifo)) [
  | inl e ↦
      let nil = is_nil-eq q.fifo e in
      rw (le→ltb end start (omega arith), e)
        (subst
          (λ l.
            Holds (insert_range start end (ranges l)) (first (block start end tiflags rqflags) q))
          (sym nil) (first_inserts _ q n (v.stacked nil)))
  | inr e ↦
      rw (le→ltb end start (omega arith), e)
        (again2_inserts (suc (length q.fifo)) (block start end tiflags rqflags) q n v.sep v.total
          (omega arith))
]
