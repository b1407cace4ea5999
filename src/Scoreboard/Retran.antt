-- ===== src/Scoreboard/Retran.antt =====
-- `ScoreBoardRQ::GetNextRetran` and `MarkRetran`: which packet is sent again.
use tcpincast.Base.{
  ltb→lt, ltb→le, le→leb, lt→ltb, ◌&&◌, ℕ, ◌≤◌, ◌<◌, ◌≡◌, ◌≢◌, refl, ap, ap₂, subst, ◌∙◌, sym, Bool,
  true, false, List, [], ◌∷◌, arith, Bool-cases, inl, inr, ℤ, pos, minus_one, ltb_ℤ, if◌then◌else◌,
  ◌⊎◌, ltb,
}
use tcpincast.Rq.Defs
use tcpincast.Rq.Defs.{Rq, Hole}
use tcpincast.Rq.Ranges.{Sep, Range, ranges, covers}
use tcpincast.Rq.Round.{IsValid}
use tcpincast.Rq.Gap.{IsFirstHole, Finds, above, count_of, nexthole-Finds}
use tcpincast.Scoreboard.Shim.{ScoreBoardRq, sack_min, next_from, get_next_retran}

-- Where the search begins: `h_seqno_`, or `sack_min` if that is higher.
abbrev pub search_start : ScoreBoardRq → ℤ
search_start s = if ltb_ℤ s.h_seqno (sack_min s) then sack_min s else s.h_seqno

-- The packet `n` is the first missing one from `k` on, and some block lies beyond it.
abbrev pub IsLost : ℕ → List Range → ℕ → Type 0
IsLost k xs n = IsFirstHole k xs n × (above n xs ≢ [])

-- The result names the missing packet, which is not packet 0, and remembers it; or it is -1, and
-- there is none but perhaps packet 0.
abbrev pub Picks : ℕ → ScoreBoardRq → ℤ × ScoreBoardRq → Type 0
Picks k s (r, s') =
    (s'.rq ≡ s.rq)
    × (((n : ℕ) × (r ≡ pos n) × (0 < n) × IsLost k (ranges s.rq.fifo) n × (s'.h_seqno ≡ pos n))
        ⊎ ((r ≡ minus_one)
            × (s'.h_seqno ≡ pos k)
            × ((n : ℕ) → IsLost k (ranges s.rq.fifo) n → n ≡ 0)))

hole_unique : (k : ℕ) (xs : List Range) (m n : ℕ) → IsFirstHole k xs m → IsFirstHole k xs n → n ≤ m
hole_unique k xs m n f g = elim (Bool-cases (ltb m n)) [
  | inl h ↦ absurd (ground (arith, f.free, f.from, g.before m))
  | inr h ↦ ground arith
]

-- The test of `next_from` for a hole at `r` with `xs` beyond it.
abbrev wanted : ℕ → List Range → Bool
wanted r xs = ltb_ℤ (pos 0) (pos r) && ltb_ℤ (pos 0) (count_of xs)

wanted-true : (r : ℕ) (xs : List Range) → wanted r xs ≡ true → (0 < r) × (xs ≢ [])
wanted-true r [] h = absurd (ground (arith, h))
wanted-true r (x ∷ xs) h = (ground (arith, h), λ e. cc)

wanted-false : (r : ℕ) (xs : List Range) → wanted r xs ≡ false → 0 < r → xs ≢ [] → ⊥
wanted-false r [] h k e = e refl
wanted-false r (x ∷ xs) h k e = ground (arith, h)

above-covers :
    (n : ℕ) (xs : List Range) → Sep xs → above n xs ≢ [] → (m : ℕ) × (n < m) × (covers m xs ≡ true)
above-covers n [] v h = absurd (h refl)
above-covers n (x ∷ xs) v h = elim (Bool-cases (ltb n x.lo)) [
  | inl e ↦ (x.lo, ltb→lt _ _ e, rw (le→leb x.lo x.lo (omega arith), lt→ltb x.lo x.hi v.0) refl)
  | inr e ↦ let (m, k, c) = above-covers n xs v.2 (λ r. h (rw e r)) in (m, k, ground (arith, c))
]

raised : (k r : ℕ) → k ≤ r → (if ltb_ℤ (pos k) (pos r) then pos r else pos k) ≡ pos r
raised k r l = elim (Bool-cases (ltb_ℤ (pos k) (pos r))) [
  | inl e ↦ rw e refl
  | inr e ↦ rw e (let same : k ≡ r = omega (arith, ltb→le _ _ e) in ap pos same)
]

-- The outcome of `next_from`, by its test.
taken :
    (k r : ℕ) (h : Hole) (s : ScoreBoardRq)
    → h.seq ≡ pos r
    → k ≤ r
    → s.h_seqno ≡ pos k
    → (ltb_ℤ (pos 0) h.seq && ltb_ℤ (pos 0) h.nxtcnt) ≡ true
    → ((next_from h s).0 ≡ pos r)
      × ((next_from h s).1.rq ≡ s.rq)
      × ((next_from h s).1.h_seqno ≡ pos r)
unfolding next_from
taken k r h s e l m t = rw (t, e, m) (refl, refl, raised k r l)

not_taken :
    (h : Hole) (s : ScoreBoardRq)
    → (ltb_ℤ (pos 0) h.seq && ltb_ℤ (pos 0) h.nxtcnt) ≡ false
    → next_from h s ≡ (minus_one, s)
unfolding next_from
not_taken h s t = rw t refl

next_from-Picks :
    (k : ℕ) (h : Hole) (s s1 : ScoreBoardRq)
    → Sep (ranges s.rq.fifo)
    → s1.rq ≡ s.rq
    → s1.h_seqno ≡ pos k
    → Finds k (ranges s.rq.fifo) h
    → Picks k s (next_from h s1)
next_from-Picks k h s s1 v q m (inl f) = rw (not_taken h s1 (rw f.0 refl)) (
  q,
  inr (
    refl,
    m,
    λ n l.
        let (j, i, c) = above-covers n (ranges s.rq.fifo) v l.1 in
        absurd (ground (arith, f.2 j, l.0.from, c)),
  ),
)
next_from-Picks k h s s1 v q m (inr (r, e, f, c, b)) =
    let xs = ranges s.rq.fifo in
    let beyond = above r xs in
    let same : wanted r beyond ≡ (ltb_ℤ (pos 0) h.seq && ltb_ℤ (pos 0) h.nxtcnt) =
      ap₂ (λ i j. ltb_ℤ (pos 0) i && ltb_ℤ (pos 0) j) (sym e) (sym c) in
    elim (Bool-cases (ltb_ℤ (pos 0) h.seq && ltb_ℤ (pos 0) h.nxtcnt)) [
      | inl t ↦
          let g = taken k r h s1 e f.from m t in
          let w = wanted-true r beyond (same ∙ t) in (g.1 ∙ q, inl (r, g.0, w.0, (f, w.1), g.2))
      | inr t ↦ rw (not_taken h s1 t) (
        q,
        inr (
          refl,
          m,
          λ n l.
              let one : n ≡ r =
                ground (arith, hole_unique k xs r n f l.0, hole_unique k xs n r l.0 f) in
              elim (Bool-cases (ltb 0 n)) [
                | inl z ↦ absurd (
                    wanted-false r beyond (same ∙ t) (ground (arith, one, z))
                      (subst (λ i. above i xs ≢ []) one l.1))
                | inr z ↦ ground (arith, z)
              ],
        ),
      )
    ]

-- `get_next_retran` over a valid queue, from `k` on, gives the first packet that is missing where
-- some block lies beyond it, and remembers it as `h_seqno_`, if that is not packet 0; or -1, and
-- there is no such packet, or it is packet 0. The queue is left as it is.
pub get_next_retran-Picks :
    (s : ScoreBoardRq) (k : ℕ)
    → IsValid s.rq
    → search_start s ≡ pos k
    → Picks k s (get_next_retran s)
unfolding get_next_retran
get_next_retran-Picks s k v e =
    next_from-Picks k (Defs.nexthole (search_start s) s.rq) s
      (record s { h_seqno = search_start s }) v.sep refl e (rw e (nexthole-Finds k s.rq v))
