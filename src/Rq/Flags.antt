-- ===== src/Rq/Flags.antt =====
-- The flags that `clearto` gives.
use tcpincast.Base.{
  ℕ, ◌+◌, ◌-◌, ◌≡◌, refl, List, [], ◌∷◌, arith, Bool-cases, inl, inr, if◌then◌else◌, pos, leb_ℤ,
  bit_or, leb→le, leb→lt, lt→ltb, le→leb, lt→leb, leb,
}
use tcpincast.Rq.Defs.{Seg, Rq, clearto, clearto_from, trim, release}
use tcpincast.Rq.Ranges.{ranges, Sep, Beyond, Beyond-mono}
use tcpincast.Rq.Round.{IsValid}

-- `flag` with the flags of all segments that begin at `seq` or before.
abbrev pub flags_upto : ℕ → List Seg → ℕ → ℕ
flags_upto seq [] flag = flag
flags_upto seq (p ∷ l) flag =
    flags_upto seq l (if leb p.startseq seq then bit_or flag p.pflags else flag)

flags_upto-Beyond :
    (seq : ℕ) (l : List Seg) (flag : ℕ)
    → Sep (ranges l)
    → Beyond seq (ranges l)
    → flags_upto seq l flag ≡ flag
flags_upto-Beyond seq [] flag v b = refl
flags_upto-Beyond seq (p ∷ l) flag v b =
    rw (lt→leb p.startseq seq b)
      (flags_upto-Beyond seq l flag v.2 (Beyond-mono (ranges l) (omega (arith, v.0)) v.1))

clearto_from-flags :
    (seq : ℕ) (l : List Seg) (flag : ℕ) (q : Rq)
    → Sep (ranges l)
    → (clearto_from (pos seq) l flag q).0 ≡ flags_upto seq l flag
unfolding clearto_from trim release
clearto_from-flags seq [] flag q v = refl
clearto_from-flags seq (p ∷ l) flag q v = elim (Bool-cases (leb_ℤ (pos p.endseq) (pos seq))) [
  | inl e ↦
      let q1 : Rq = record q { total = q.total - (p.endseq - p.startseq) } in
      rw (e, le→leb p.startseq seq (omega (arith, leb→le _ _ e, v.0)))
        (clearto_from-flags seq l (bit_or flag p.pflags) (release p q1) v.2)
  | inr e ↦ elim (Bool-cases (leb_ℤ (pos p.startseq) (pos seq))) [
    | inl m ↦
        rw
          (
            e,
            m,
            lt→ltb (seq + 0) (p.endseq + 0) (leb→lt _ _ e),
            le→leb p.startseq seq (omega (arith, leb→le _ _ m)),
            flags_upto-Beyond seq l (bit_or flag p.pflags) v.2
                (Beyond-mono (ranges l) (omega (arith, leb→lt _ _ e)) v.1),
          )
          refl
    | inr m ↦ rw (e, m, flags_upto-Beyond seq (p ∷ l) flag v (omega (arith, leb→lt _ _ m))) refl
  ]
]

-- `clearto` of a valid queue gives the union of the flags of exactly the segments that begin at
-- `seq` or before.
pub clearto-flags_upto :
    (seq : ℕ) (q : Rq) → IsValid q → (clearto (pos seq) q).0 ≡ flags_upto seq q.fifo 0
unfolding clearto
clearto-flags_upto seq q v = clearto_from-flags seq q.fifo 0 q v.sep
