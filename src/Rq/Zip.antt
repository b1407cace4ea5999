-- ===== src/Rq/Zip.antt =====
-- Separated ranges around a place in the queue.
use tcpincast.Base.{ℕ, ◌+◌, ◌≤◌, ◌<◌, ◌≡◌, refl, ◌∙◌, ap, List, [], ◌∷◌, arith, zip_up}
use tcpincast.Rq.Ranges.{Range, Sep, Beyond, insert_range, width}

-- The ranges before a place, nearest first, are separated and end before `n`.
abbrev pub Before : ℕ → List Range → Type 0
Before n [] = Unit
Before n (x ∷ b) = (x.hi < n) × (x.lo < x.hi) × Before x.lo b

pub Before-mono : {m n : ℕ} (b : List Range) → m ≤ n → Before m b → Before n b
Before-mono [] h v = tt
Before-mono (x ∷ b) h v = ground arith

-- Where the ranges after the place begin, or some bound on the ranges before.
abbrev pub Joined : List Range → List Range → Type 0
Joined [] xs = Unit
Joined (x ∷ b) xs = (x.lo < x.hi) × Beyond x.hi xs × Before x.lo b

pub Sep-zip_up : (b xs : List Range) → Joined b xs → Sep xs → Sep (zip_up b xs)
Sep-zip_up [] xs j v = v
Sep-zip_up (x ∷ []) xs j v = (j.0, j.1, v)
Sep-zip_up (x ∷ y ∷ b) xs j v = Sep-zip_up (y ∷ b) (x ∷ xs) (ground arith) (j.0, j.1, v)

pub Joined-zip_up : (b xs : List Range) → Sep (zip_up b xs) → Joined b xs × Sep xs
Joined-zip_up [] xs v = (tt, v)
Joined-zip_up (x ∷ []) xs v = (ground arith, v.2)
Joined-zip_up (x ∷ y ∷ b) xs v = ground (arith, Joined-zip_up (y ∷ b) (x ∷ xs) v)

-- A range that begins after all that stands before is inserted behind them.
pub insert-zip_up :
    (s e : ℕ) (b xs : List Range)
    → Before s b
    → insert_range s e (zip_up b xs) ≡ zip_up b (insert_range s e xs)
unfolding insert_range
insert-zip_up s e [] xs v = refl
insert-zip_up s e (x ∷ b) xs v =
    insert-zip_up s e b (x ∷ xs) (Before-mono {m = x.lo} {n = s} b (omega arith) v.2)
    ∙ ap (zip_up b) (ground (arith))

pub width-zip_up : (b xs : List Range) → width (zip_up b xs) ≡ width b + width xs
width-zip_up [] xs = omega arith
width-zip_up (x ∷ b) xs = omega (arith, width-zip_up b (x ∷ xs))

pub Joined-Before :
    (b : List Range) (x : Range) (xs : List Range) → Joined b (x ∷ xs) → Before x.lo b
Joined-Before [] x xs j = tt
Joined-Before (y ∷ b) x xs j = ground arith
