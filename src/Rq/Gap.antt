-- ===== src/Rq/Gap.antt =====
-- `nexthole` and `cnts`: the first hole at or after a sequence number, and what lies beyond it.
use tcpincast.Base.{
  ℕ, suc, ◌+◌, ◌-◌, ◌≤◌, ◌<◌, ◌≡◌, refl, ap, ◌∙◌, sym, true, false, List, [], ◌∷◌, ltb, arith,
  length, Bool-cases, inl, inr, lt→ltb, le→ltb, le→leb, leb→lt, leb→le, ltb→lt, ltb→le,
  if◌then◌else◌, ℤ, pos, leb_ℤ, ltb_ℤ, minus_one, ◌⊎◌,
}
use tcpincast.Rq.Defs.{
  Seg, Rq, Hole, nexthole, nexthole_from, with_counts, after_block, no_counts, cnts,
}
use tcpincast.Rq.Round.{IsValid}
use tcpincast.Rq.Ranges.{Range, range_of, ranges, covers, Sep, width, Beyond, Beyond-mono}
use tcpincast.Rq.Trim.{covers-Beyond}

-- The ranges that begin after a byte.
abbrev pub above : ℕ → List Range → List Range
above n [] = []
above n (x ∷ xs) = let rest = above n xs in if ltb n x.lo then x ∷ rest else rest

-- What `nxtcnt` and `nxtbytes` say of the ranges beyond a hole: -1 for none.
abbrev pub count_of : List Range → ℤ
count_of [] = minus_one
count_of (x ∷ xs) = pos (length (x ∷ xs))

abbrev pub bytes_of : List Range → ℤ
bytes_of [] = minus_one
bytes_of (x ∷ xs) = pos (width (x ∷ xs))

-- `r` is the first byte from `s` on that `xs` does not cover.
pub record IsFirstHole (s : ℕ) (xs : List Range) (r : ℕ) : Type 0 where
  pub from : s ≤ r
  pub free : covers r xs ≡ false
  pub before : (n : ℕ) → s ≤ n → n < r → covers n xs ≡ true

-- What `nexthole` gives: the first hole with the counts beyond it, or -1 where no range reaches.
abbrev pub Finds : ℕ → List Range → Hole → Type 0
Finds s xs h =
    ((h.seq ≡ minus_one) × (h.nxtcnt ≡ minus_one) × ((n : ℕ) → s ≤ n → covers n xs ≡ false))
    ⊎ ((r : ℕ) × (h.seq ≡ pos r)
        × IsFirstHole s xs r
        × (h.nxtcnt ≡ count_of (above r xs))
        × (h.nxtbytes ≡ bytes_of (above r xs)))

cnts-blks : (l : List Seg) → (cnts l).0 ≡ length (ranges l)
unfolding cnts
cnts-blks [] = refl
cnts-blks (x ∷ l) = ap suc (cnts-blks l)

cnts-bytes : (l : List Seg) → (cnts l).1 ≡ width (ranges l)
unfolding cnts
cnts-bytes [] = refl
cnts-bytes (x ∷ l) = ap (λ n. x.endseq - x.startseq + n) (cnts-bytes l)

above-all : (n : ℕ) (xs : List Range) → Sep xs → Beyond n xs → above n xs ≡ xs
above-all n [] v b = refl
above-all n (x ∷ xs) v b =
    rw (lt→ltb n x.lo b) (ap (◌∷◌ x) (above-all n xs v.2 (Beyond-mono xs (omega arith) v.1)))

pub covers-past : (m : ℕ) (x : Range) (xs : List Range) → x.hi ≤ m → covers m (x ∷ xs) ≡ covers m xs
covers-past m x xs h = ground arith

after-seq : (s : ℤ) (l : List Seg) → (after_block s l).seq ≡ s
unfolding after_block with_counts no_counts
after-seq s [] = refl
after-seq s (p ∷ l) = refl

counts-Beyond :
    (s : ℤ) (r : ℕ) (l : List Seg)
    → Sep (ranges l)
    → Beyond r (ranges l)
    → ((after_block s l).nxtcnt ≡ count_of (above r (ranges l)))
      × ((after_block s l).nxtbytes ≡ bytes_of (above r (ranges l)))
unfolding after_block with_counts no_counts
counts-Beyond s r [] v b = (refl, refl)
counts-Beyond s r (p ∷ l) v b =
    let e = sym (above-all r (ranges (p ∷ l)) v b) in
    (
      ap (λ n. pos (suc n)) (cnts-blks l) ∙ ap count_of e,
      ap (λ n. pos (p.endseq - p.startseq + n)) (cnts-bytes l) ∙ ap bytes_of e,
    )

-- A range in front that has ended by `s` changes nothing.
Finds-cons :
    (s : ℕ) (x : Range) (xs : List Range) (h : Hole)
    → x.lo < x.hi
    → x.hi < s
    → Finds s xs h
    → Finds s (x ∷ xs) h
Finds-cons s x xs h n k (inl f) = inl (f.0, f.1, λ m j. covers-past m x xs (omega arith) ∙ f.2 m j)
Finds-cons s x xs h n k (inr (r, e, f, c, b)) = inr (
  r,
  e,
  record {
    from = f.from;
    free = covers-past r x xs (omega (arith, f.from)) ∙ f.free;
    before = λ m j l. covers-past m x xs (omega arith) ∙ f.before m j l;
  },
  rw (le→ltb r x.lo (omega (arith, f.from))) c,
  rw (le→ltb r x.lo (omega (arith, f.from))) b,
)

-- The hole behind a block that holds `s` or ends at it.
at_end :
    (s : ℕ) (p : Seg) (l : List Seg)
    → Sep (ranges (p ∷ l))
    → p.startseq ≤ s
    → s ≤ p.endseq
    → Finds s (ranges (p ∷ l)) (after_block (pos p.endseq) l)
unfolding after_block with_counts no_counts
at_end s p l v h k =
    let c = counts-Beyond (pos p.endseq) p.endseq l v.2 v.1 in
    inr (
      p.endseq,
      after-seq (pos p.endseq) l,
      record {
        from = k;
        free =
            covers-past p.endseq (range_of p) (ranges l) (omega arith)
            ∙ covers-Beyond p.endseq p.endseq (ranges l) v.2 v.1 (omega arith);
        before = λ n i j. rw (le→leb p.startseq n (omega arith), lt→ltb n p.endseq j) refl;
      },
      rw (le→ltb p.endseq p.startseq (omega (arith, v.0))) c.0,
      rw (le→ltb p.endseq p.startseq (omega (arith, v.0))) c.1,
    )

nexthole_from-Finds :
    (s : ℕ) (l : List Seg) → Sep (ranges l) → Finds s (ranges l) (nexthole_from (pos s) l)
unfolding nexthole_from with_counts after_block no_counts
nexthole_from-Finds s [] v = inl (refl, refl, λ n h. refl)
nexthole_from-Finds s (p ∷ l) v = elim (Bool-cases (ltb_ℤ (pos s) (pos p.startseq))) [
  | inl e ↦
      let b : s < p.startseq = omega (arith, ltb→lt _ _ e) in
      let c = counts-Beyond (pos s) s (p ∷ l) v b in
      rw e (
        inr (
          s,
          refl,
          record {
            from = omega arith;
            free = covers-Beyond s s (ranges (p ∷ l)) v b (omega arith);
            before = λ n h k. absurd (omega arith);
          },
          c.0,
          c.1,
        ))
  | inr e ↦
      let f : p.startseq ≤ s = omega (arith, ltb→le _ _ e) in
      rw (e, le→leb (p.startseq + 0) (s + 0) (omega arith))
        (elim (Bool-cases (leb_ℤ (pos s) (pos p.endseq))) [
          | inl m ↦ rw m (at_end s p l v f (omega (arith, leb→le _ _ m)))
          | inr m ↦ rw m (
              Finds-cons s (range_of p) (ranges l) _ v.0 (omega (arith, leb→lt _ _ m))
                (nexthole_from-Finds s l v.2))
        ])
]

-- `nexthole` of a valid queue finds the first byte from `seq` on that the queue does not cover,
-- with the number and the bytes of the blocks beyond it, or gives -1 where no block reaches `seq`.
pub nexthole-Finds :
    (seq : ℕ) (q : Rq) → IsValid q → Finds seq (ranges q.fifo) (nexthole (pos seq) q)
unfolding nexthole
nexthole-Finds seq q v = nexthole_from-Finds seq q.fifo v.sep
