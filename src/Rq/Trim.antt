-- ===== src/Rq/Trim.antt =====
-- `clearto` and `cleartonxt`: what they leave of a queue.
use tcpincast.Base.{
  ℕ, ◌+◌, ◌-◌, ◌≤◌, ◌<◌, ◌≡◌, refl, false, ◌&&◌, List, [], ◌∷◌, arith, Bool-cases, inl, inr, lt→ltb,
  le→leb, lt→leb, leb→lt, leb→le, bit_or, ℤ, pos, leb_ℤ,
}
use tcpincast.Rq.Defs.{Seg, Rq, clearto, clearto_from, trim, release}
use tcpincast.Rq.Round.{IsValid}
use tcpincast.Rq.Ranges.{Range, range_of, ranges, covers, Sep, width, Beyond}

-- No byte below `n` and after byte `k`.
pub covers-Beyond : (n k : ℕ) (xs : List Range) → Sep xs → Beyond k xs → n ≤ k → covers n xs ≡ false
covers-Beyond n k [] v b h = refl
covers-Beyond n k (x ∷ xs) v b h = ground (arith, covers-Beyond n x.hi xs)

-- What is left of a queue that covered `xs`, when all below `seq` is cleared.
abbrev pub Leaves : ℤ → List Range → ℕ × Rq → Type 0
Leaves seq xs (f, q) =
    Sep (ranges q.fifo)
    × (q.total ≡ width (ranges q.fifo))
    × ((n : ℕ) → covers n (ranges q.fifo) ≡ (leb_ℤ seq (pos n) && covers n xs))

Beyond-below :
    (seq n : ℕ) (xs : List Range)
    → Sep xs
    → Beyond seq xs
    → covers n xs ≡ (leb_ℤ (pos seq) (pos n) && covers n xs)
Beyond-below seq n xs v b = elim (Bool-cases (leb_ℤ (pos seq) (pos n))) [
  | inl e ↦ rw e refl
  | inr e ↦ rw e (covers-Beyond n seq xs v b (omega (arith, leb→lt _ _ e)))
]

trimmed :
    (seq n : ℕ) (x : Range) (xs : List Range)
    → x.lo ≤ seq
    → seq < x.hi
    → Sep (x ∷ xs)
    → covers n (record { lo = seq; hi = x.hi } ∷ xs)
      ≡ (leb_ℤ (pos seq) (pos n) && covers n (x ∷ xs))
trimmed seq n x xs h k v = elim (Bool-cases (leb_ℤ (pos seq) (pos n))) [
  | inl e ↦
      rw
        (e, le→leb seq n (omega (arith, leb→le _ _ e)), le→leb x.lo n (omega (arith, leb→le _ _ e)))
        refl
  | inr e ↦
      rw (e, lt→leb seq n (omega (arith, leb→lt _ _ e)))
        (covers-Beyond n x.hi xs v.2 v.1 (omega (arith, leb→lt _ _ e)))
]

clearto_from-Leaves :
    (seq : ℕ) (l : List Seg) (flag : ℕ) (q : Rq)
    → Sep (ranges l)
    → q.total ≡ width (ranges l)
    → Leaves (pos seq) (ranges l) (clearto_from (pos seq) l flag q)
unfolding clearto_from trim release
clearto_from-Leaves seq [] flag q v t = (tt, t, λ n. ground arith)
clearto_from-Leaves seq (p ∷ l) flag q v t = elim (Bool-cases (leb_ℤ (pos p.endseq) (pos seq))) [
  | inl e ↦
      let q1 : Rq = record q { total = q.total - (p.endseq - p.startseq) } in
      let ih = clearto_from-Leaves seq l (bit_or flag p.pflags) (release p q1) v.2 (omega arith) in
      rw e (ih.0, ih.1, λ n. ground (arith, ih.2 n))
  | inr e ↦ elim (Bool-cases (leb_ℤ (pos p.startseq) (pos seq))) [
    | inl m ↦
        rw (e, m, lt→ltb (seq + 0) (p.endseq + 0) (leb→lt _ _ e))
          (
            (omega (arith, leb→lt _ _ e), v.1, v.2),
            omega (arith, leb→le _ _ m, leb→lt _ _ e),
            λ n.
                trimmed seq n (range_of p) (ranges l) (omega (arith, leb→le _ _ m))
                  (omega (arith, leb→lt _ _ e)) v,
          )
    | inr m ↦
        rw (e, m) (v, t, λ n. Beyond-below seq n (ranges (p ∷ l)) v (omega (arith, leb→lt _ _ m)))
  ]
]

-- `clearto` of a valid queue leaves separated segments that cover exactly the bytes from `seq` on
-- that were covered, and `total_` counts them.
pub clearto-Leaves :
    (seq : ℕ) (q : Rq) → IsValid q → Leaves (pos seq) (ranges q.fifo) (clearto (pos seq) q)
unfolding clearto
clearto-Leaves seq q v = clearto_from-Leaves seq q.fifo 0 q v.sep v.total
