-- ===== src/Rq/Canon.antt =====
-- A queue has one form: separated ranges that cover the same bytes are the same.
use tcpincast.Base.{
  ℕ, ◌≤◌, ◌<◌, ◌≡◌, refl, ap₂, ◌∙◌, sym, true, List, [], ◌∷◌, leb, arith, Bool-cases, inl, inr,
  lt→ltb, le→leb, leb→lt, leb→le,
}
use tcpincast.Rq.Ranges.{Range, covers, Sep}
use tcpincast.Rq.Trim.{covers-Beyond}
use tcpincast.Rq.Gap.{covers-past}

inside : (n : ℕ) (x : Range) (xs : List Range) → x.lo ≤ n → n < x.hi → covers n (x ∷ xs) ≡ true
inside n x xs h k = rw (le→leb x.lo n h, lt→ltb n x.hi k) refl

-- The first range of one list begins no later, and ends no later, than that of the other.
first-le :
    (x y : Range) (xs ys : List Range)
    → Sep (x ∷ xs)
    → Sep (y ∷ ys)
    → ((n : ℕ) → covers n (x ∷ xs) ≡ covers n (y ∷ ys))
    → x.lo ≤ y.lo
first-le x y xs ys v u e = elim (Bool-cases (leb x.lo y.lo)) [
  | inl h ↦ leb→le _ _ h
  | inr h ↦
      let c = covers-Beyond y.lo y.lo (x ∷ xs) v (leb→lt _ _ h) (omega arith) in
      let d = inside y.lo y ys (omega arith) u.0 in absurd (ground (c, e y.lo, d, arith))
]

end-le :
    (x y : Range) (xs ys : List Range)
    → Sep (x ∷ xs)
    → Sep (y ∷ ys)
    → x.lo ≡ y.lo
    → ((n : ℕ) → covers n (x ∷ xs) ≡ covers n (y ∷ ys))
    → x.hi ≤ y.hi
end-le x y xs ys v u l e = elim (Bool-cases (leb x.hi y.hi)) [
  | inl h ↦ leb→le _ _ h
  | inr h ↦
      let c =
        covers-past y.hi y ys (omega arith) ∙ covers-Beyond y.hi y.hi ys u.2 u.1 (omega arith) in
      let d = inside y.hi x xs (omega (arith, u.0)) (leb→lt _ _ h) in
      absurd (ground (c, e y.hi, d, arith))
]

-- Separated ranges that cover the same bytes are equal.
pub canonical :
    (xs ys : List Range) → Sep xs → Sep ys → ((n : ℕ) → covers n xs ≡ covers n ys) → xs ≡ ys
canonical [] [] v u e = refl
canonical [] (y ∷ ys) v u e = absurd (ground (arith, e y.lo, inside y.lo y ys (omega arith) u.0))
canonical (x ∷ xs) [] v u e = absurd (ground (arith, e x.lo, inside x.lo x xs (omega arith) v.0))
canonical (x ∷ xs) (y ∷ ys) v u e =
    let l : x.lo ≡ y.lo =
      omega (arith, first-le x y xs ys v u e, first-le y x ys xs u v (λ n. sym (e n))) in
    let h : x.hi ≡ y.hi =
      omega (arith, end-le x y xs ys v u l e, end-le y x ys xs u v (sym l) (λ n. sym (e n))) in
    ap₂ ◌∷◌ (ap₂ (λ a b. record { lo = a; hi = b }) l h) (
      canonical xs ys v.2 u.2 (λ n. elim (Bool-cases (leb x.hi n)) [
        | inl k ↦
            sym (covers-past n x xs (leb→le _ _ k))
            ∙ e n
            ∙ covers-past n y ys (omega (arith, leb→le _ _ k))
        | inr k ↦
            covers-Beyond n x.hi xs v.2 v.1 (omega (arith, leb→lt _ _ k))
            ∙ sym (covers-Beyond n y.hi ys u.2 u.1 (omega (arith, leb→lt _ _ k)))
      ]))
