-- ===== src/Rq/Ranges.antt =====
-- What a queue holds, as a list of ranges, and the reference definition of adding a range.
use tcpincast.Base.{
  ℕ, ◌+◌, ◌-◌, ◌≤◌, ◌<◌, ◌≡◌, ◌∙◌, refl, Bool, false, ◌&&◌, ◌||◌, List, [], ◌∷◌, map, ltb, leb,
  if◌then◌else◌, min, max, arith, Bool-cases, ltb→lt, le→ltb, lt→ltb, inl, inr,
}
use tcpincast.Rq.Defs.{Seg}

pub record Range : Type 0 where
  pub lo : ℕ
  pub hi : ℕ

abbrev pub range_of : Seg → Range
range_of x = record { lo = x.startseq; hi = x.endseq }

abbrev pub ranges : List Seg → List Range
ranges = map range_of

-- Ranges that touch or overlap the new one are merged with it.
unfoldable pub insert_range : ℕ → ℕ → List Range → List Range
insert_range s e [] = record { lo = s; hi = e } ∷ []
insert_range s e (x ∷ xs) =
    let merged = insert_range (min s x.lo) (max e x.hi) xs in
    let later = x ∷ insert_range s e xs in
    if ltb x.hi s then later else if ltb e x.lo then record { lo = s; hi = e } ∷ x ∷ xs else merged

abbrev pub Beyond : ℕ → List Range → Type 0
Beyond n [] = Unit
Beyond n (x ∷ xs) = n < x.lo

-- No range is empty, and each begins strictly after the one before has ended.
abbrev pub Sep : List Range → Type 0
Sep [] = Unit
Sep (x ∷ xs) = (x.lo < x.hi) × Beyond x.hi xs × Sep xs

abbrev pub covers : ℕ → List Range → Bool
covers n [] = false
covers n (x ∷ xs) = (leb x.lo n && ltb n x.hi) || covers n xs

abbrev pub width : List Range → ℕ
width [] = 0
width (x ∷ xs) = (x.hi - x.lo) + width xs

pub Beyond-mono : {k m : ℕ} (xs : List Range) → k ≤ m → Beyond m xs → Beyond k xs
Beyond-mono [] h b = tt
Beyond-mono (x ∷ xs) h b = omega arith

Beyond-insert :
    (k s e : ℕ) (xs : List Range) → k < s → Sep xs → Beyond k xs → Beyond k (insert_range s e xs)
unfolding insert_range
Beyond-insert k s e [] h v b = h
Beyond-insert k s e (x ∷ xs) h v b =
    ground (arith, Beyond-mono {k = k} {m = x.hi} xs, Beyond-insert k (min s x.lo) (max e x.hi) xs)

pub insert_range-Sep : (s e : ℕ) (xs : List Range) → s < e → Sep xs → Sep (insert_range s e xs)
unfolding insert_range
insert_range-Sep s e [] h v = (h, tt, tt)
insert_range-Sep s e (x ∷ xs) h v = elim (Bool-cases (ltb x.hi s)) [
  | inl before ↦
      rw before
        (v.0, Beyond-insert x.hi s e xs (ltb→lt _ _ before) v.2 v.1, insert_range-Sep s e xs h v.2)
  | inr near ↦ rw near (elim (Bool-cases (ltb e x.lo)) [
    | inl after ↦ rw after (h, ltb→lt _ _ after, v)
    | inr merged ↦ rw merged (insert_range-Sep (min s x.lo) (max e x.hi) xs (omega arith) v.2)
  ])
]

pub covers-insert :
    (n s e : ℕ) (xs : List Range)
    → s < e
    → covers n (insert_range s e xs) ≡ ((leb s n && ltb n e) || covers n xs)
unfolding insert_range
covers-insert n s e [] h = refl
covers-insert n s e (x ∷ xs) h =
    ground (arith, covers-insert n s e xs, covers-insert n (min s x.lo) (max e x.hi) xs)

-- A range that ends before all others stands in front.
pub insert-Beyond :
    (s e : ℕ) (xs : List Range)
    → s < e
    → Sep xs
    → Beyond e xs
    → insert_range s e xs ≡ record { lo = s; hi = e } ∷ xs
unfolding insert_range
insert-Beyond s e [] h v b = refl
insert-Beyond s e (x ∷ xs) h v b = rw (le→ltb x.hi s (omega arith), lt→ltb e x.lo b)

-- A range that meets the first one is merged with it.
pub insert-absorb :
    (s e : ℕ) (x : Range) (xs : List Range)
    → s ≤ x.hi
    → x.lo ≤ e
    → insert_range s e (x ∷ xs) ≡ insert_range (min s x.lo) (max e x.hi) xs
unfolding insert_range
insert-absorb s e x xs h k = rw (le→ltb x.hi s h, le→ltb e x.lo k)

-- A range that begins after the first one has ended leaves it.
pub insert-later :
    (s e : ℕ) (x : Range) (xs : List Range)
    → x.hi < s
    → insert_range s e (x ∷ xs) ≡ x ∷ insert_range s e xs
unfolding insert_range
insert-later s e x xs h = rw (lt→ltb x.hi s h)

-- The first range takes over a range that meets it.
pub insert-first :
    (s e : ℕ) (x : Range) (xs : List Range) (lo hi : ℕ)
    → s ≤ x.hi
    → x.lo ≤ e
    → x.lo < x.hi
    → Sep xs
    → lo ≡ min s x.lo
    → hi ≡ max e x.hi
    → Beyond hi xs
    → insert_range s e (x ∷ xs) ≡ record { lo = lo; hi = hi } ∷ xs
insert-first s e x xs lo hi h k n v el eh b =
    insert-absorb s e x xs h k ∙ rw (← el, ← eh) (insert-Beyond lo hi xs (omega arith) v b)
