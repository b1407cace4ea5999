-- ===== src/Rq/Sweep.antt =====
-- The loop of `add` that removes the nodes which the new block covers.
use tcpincast.Base.{
  ℕ, ◌+◌, ◌-◌, ◌≤◌, ◌<◌, ◌≡◌, refl, ◌∙◌, sym, ap, true, false, ◌&&◌, ◌⊎◌, inl, inr, List, [], ◌∷◌,
  ◌++◌, ◌==◌, arith, min, max, Bool-cases, leb, length, none, some, All, ap₂, bit_or,
}
use tcpincast.Rq.Defs.{Seg, Rq, release}
use tcpincast.Rq.Sides.{New}
use tcpincast.Rq.Add.{Sweep, sweep, take_over, kill}
use tcpincast.Rq.Ranges.{
  range_of, ranges, insert_range, Sep, Beyond, width, insert-absorb, Beyond-mono,
}
use tcpincast.Rq.Merge.{Overlaps}

-- A node that shares a byte with the block.
abbrev pub Hits : New → Seg → Type 0
Hits w m = (m.startseq < w.end) × (w.start < m.endseq)

-- What the first node of the list adds to the sweep of the others.
module _ {ℓ} (P : Sweep → Type ℓ) (r : Seg) (l : List Seg) (w : New) (q : Rq) where
  sweep_cases :
      (w.start ≡ r.startseq
        → w.end ≡ r.endseq
        → P (record {
          kept = record r { pflags = bit_or r.pflags w.tiflags } ∷ l;
          altered = false;
          exact = some (bit_or r.pflags w.tiflags);
          block = w;
          queue = q;
        }))
      → (w.start ≤ r.startseq
          → r.endseq ≤ w.end
          → P (record (sweep l (take_over w r) (kill r q)) { altered = true }))
      → ((r.startseq < w.start) ⊎ (w.end < r.endseq)
          → P (record (sweep l w q) { kept = r ∷ (sweep l w q).kept }))
      → P (sweep (r ∷ l) w q)
  unfolding sweep
  sweep_cases exact killed passed = elim (Bool-cases (w.start == r.startseq && w.end == r.endseq)) [
    | inl e ↦ rw e (exact (ground arith) (ground arith))
    | inr e ↦ rw e (elim (Bool-cases (leb w.start r.startseq && leb r.endseq w.end)) [
      | inl c ↦ rw c (killed (ground arith) (ground arith))
      | inr c ↦ rw c (passed (ground arith))
    ])
  ]

pub sweep-block :
    (l : List Seg) (w : New) (q : Rq)
    → ((sweep l w q).block.start ≡ w.start) × ((sweep l w q).block.end ≡ w.end)
sweep-block [] w q = unfold sweep in (refl, refl)
sweep-block (r ∷ l) w q =
    sweep_cases (λ s. (s.block.start ≡ w.start) × (s.block.end ≡ w.end)) r l w q
      (λ _ _. (refl, refl)) (λ _ _. sweep-block l (take_over w r) (kill r q))
      (λ _. sweep-block l w q)

pub sweep-Beyond :
    (n : ℕ) (l a : List Seg) (w : New) (q : Rq)
    → (sweep l w q).exact ≡ none
    → Sep (ranges (l ++ a))
    → Beyond n (ranges (l ++ a))
    → Beyond n (ranges ((sweep l w q).kept ++ a))
sweep-Beyond n [] a w q = λ e v b. unfold sweep in b
sweep-Beyond n (r ∷ l) a w q =
    sweep_cases
      (λ s.
        s.exact ≡ none
        → Sep (ranges (r ∷ l ++ a))
        → Beyond n (ranges (r ∷ l ++ a))
        → Beyond n (ranges (s.kept ++ a)))
      r l w q (λ _ _ e. cc)
      (λ _ _ e v b.
        sweep-Beyond n l a (take_over w r) (kill r q) e v.2
          (Beyond-mono {k = n} {m = r.endseq} (ranges (l ++ a)) (omega (arith, v.0)) v.1))
      (λ _ e v b. b)

pub sweep-Sep :
    (l a : List Seg) (w : New) (q : Rq)
    → (sweep l w q).exact ≡ none
    → Sep (ranges (l ++ a))
    → Sep (ranges ((sweep l w q).kept ++ a))
sweep-Sep [] a w q = λ e v. unfold sweep in v
sweep-Sep (r ∷ l) a w q =
    sweep_cases (λ s. s.exact ≡ none → Sep (ranges (r ∷ l ++ a)) → Sep (ranges (s.kept ++ a))) r l w
      q (λ _ _ e. cc) (λ _ _ e v. sweep-Sep l a (take_over w r) (kill r q) e v.2)
      (λ _ e v. (v.0, sweep-Beyond r.endseq l a w q e v.2 v.1, sweep-Sep l a w q e v.2))

-- Inserting the block gives the same ranges before and after the sweep.
pub sweep-insert :
    (s e : ℕ) (l a : List Seg) (w : New) (q : Rq)
    → (sweep l w q).exact ≡ none
    → All (Hits w) l
    → s ≤ w.start
    → w.end ≤ e
    → insert_range s e (ranges (l ++ a)) ≡ insert_range s e (ranges ((sweep l w q).kept ++ a))
sweep-insert s e [] a w q = λ x h ls le. unfold sweep in refl
sweep-insert s e (r ∷ l) a w q =
    sweep_cases
      (λ z.
        z.exact ≡ none
        → All (Hits w) (r ∷ l)
        → s ≤ w.start
        → w.end ≤ e
        → insert_range s e (ranges (r ∷ l ++ a)) ≡ insert_range s e (ranges (z.kept ++ a)))
      r l w q (λ _ _ x. cc)
      (λ in_left in_right x h ls le.
        insert-absorb s e (range_of r) (ranges (l ++ a)) (omega (arith, h.0)) (omega (arith, h.0))
        ∙ ap₂ (λ u v. insert_range u v (ranges (l ++ a))) (omega arith) (omega arith)
        ∙ sweep-insert s e l a (take_over w r) (kill r q) x h.1 ls le)
      (λ _ x h ls le.
        insert-absorb s e (range_of r) (ranges (l ++ a)) (omega (arith, h.0)) (omega (arith, h.0))
        ∙ sweep-insert (min s r.startseq) (max e r.endseq) l a w q x h.1 (omega arith) (omega arith)
        ∙ sym (
            insert-absorb s e (range_of r) (ranges ((sweep l w q).kept ++ a)) (omega (arith, h.0))
              (omega (arith, h.0))))

pub sweep-total :
    (k : ℕ) (l : List Seg) (w : New) (q : Rq)
    → (sweep l w q).exact ≡ none
    → q.total ≡ k + width (ranges l)
    → (sweep l w q).queue.total ≡ k + width (ranges (sweep l w q).kept)
sweep-total k [] w q = λ e t. unfold sweep in t
sweep-total k (r ∷ l) w q =
    sweep_cases
      (λ z.
        z.exact ≡ none
        → q.total ≡ k + width (ranges (r ∷ l))
        → z.queue.total ≡ k + width (ranges z.kept))
      r l w q (λ _ _ x. cc)
      (λ _ _ x t. sweep-total k l (take_over w r) (kill r q) x (unfold kill release in omega arith))
      (λ _ x t. omega (arith, sweep-total (k + (r.endseq - r.startseq)) l w q x))

pub sweep-length :
    (l : List Seg) (w : New) (q : Rq)
    → (sweep l w q).exact ≡ none
    → (length (sweep l w q).kept ≤ length l)
      × ((sweep l w q).altered ≡ true → length (sweep l w q).kept < length l)
sweep-length [] w q = λ e. unfold sweep in (omega arith, λ f. cc)
sweep-length (r ∷ l) w q =
    sweep_cases
      (λ z.
        z.exact ≡ none
        → (length z.kept ≤ length (r ∷ l)) × (z.altered ≡ true → length z.kept < length (r ∷ l)))
      r l w q (λ _ _ x. cc)
      (λ _ _ x. (
        omega (arith, (sweep-length l (take_over w r) (kill r q) x).0),
        λ _. omega (arith, (sweep-length l (take_over w r) (kill r q) x).0),
      ))
      (λ _ x.
        (omega (arith, (sweep-length l w q x).0), λ f. omega (arith, (sweep-length l w q x).1 f)))

-- A sweep that removes nothing changes nothing.
pub sweep-still :
    (l : List Seg) (w : New) (q : Rq)
    → (sweep l w q).exact ≡ none
    → (sweep l w q).altered ≡ false
    → All (Hits w) l
    → ((sweep l w q).kept ≡ l)
      × ((sweep l w q).queue ≡ q)
      × ((sweep l w q).block ≡ w)
      × All (Overlaps w) l
sweep-still [] w q = λ e f h. unfold sweep in (refl, refl, refl, tt)
sweep-still (r ∷ l) w q =
    sweep_cases
      (λ z.
        z.exact ≡ none
        → z.altered ≡ false
        → All (Hits w) (r ∷ l)
        → (z.kept ≡ r ∷ l) × (z.queue ≡ q) × (z.block ≡ w) × All (Overlaps w) (r ∷ l))
      r l w q (λ _ _ x. cc) (λ _ _ x f. cc)
      (λ out x f h.
        let ih = sweep-still l w q x f h.1 in
        (ap (◌∷◌ r) ih.0, ih.1, ih.2, ((h.0.0, h.0.1, out), ih.3)))

-- Where the sweep meets a node that is the block itself, that node is the first one.
abbrev pub StartsWith : New → List Seg → Type 0
StartsWith w [] = ⊥
StartsWith w (r ∷ l) = (r.startseq ≡ w.start) × (r.endseq ≡ w.end)

pub sweep-exact :
    (l : List Seg) (w : New) (q : Rq) (f : ℕ)
    → (sweep l w q).exact ≡ some f
    → All (Hits w) l
    → Sep (ranges l)
    → StartsWith w l × (ranges (sweep l w q).kept ≡ ranges l) × ((sweep l w q).queue ≡ q)
sweep-exact [] w q f = λ e. unfold sweep in cc
sweep-exact (r ∷ l) w q f =
    sweep_cases
      (λ z.
        z.exact ≡ some f
        → All (Hits w) (r ∷ l)
        → Sep (ranges (r ∷ l))
        → StartsWith w (r ∷ l) × (ranges z.kept ≡ ranges (r ∷ l)) × (z.queue ≡ q))
      r l w q (λ s t x h v. ((sym s, sym t), refl, refl))
      (λ s t x h v. absurd (apart l h v (sweep-exact l (take_over w r) (kill r q) f x h.1 v.2).0))
      (λ _ x h v. absurd (apart l h v (sweep-exact l w q f x h.1 v.2).0))
  where
    apart : (l : List Seg) → All (Hits w) (r ∷ l) → Sep (ranges (r ∷ l)) → StartsWith w l → ⊥
    apart [] h v s = s
    apart (z ∷ l) h v s = omega (arith, h.0, v.1, s.0)

-- The sweep passes over a node that starts before the block.
pub sweep-skip :
    (p : Seg) (l : List Seg) (w : New) (q : Rq)
    → p.startseq < w.start
    → sweep (p ∷ l) w q ≡ record (sweep l w q) { kept = p ∷ (sweep l w q).kept }
sweep-skip p l w q h =
    sweep_cases (λ z. z ≡ record (sweep l w q) { kept = p ∷ (sweep l w q).kept }) p l w q
      (λ s _. absurd (omega arith)) (λ s _. absurd (omega arith)) (λ _. refl)
