-- ===== src/Rq/Search.antt =====
-- The search for the neighbours `p` and `q` of a new block.
use tcpincast.Base.{ℕ, ◌≤◌, ◌<◌, ◌≡◌, refl, false, List, [], ◌∷◌, ◌++◌, arith, zip_up, ◌≢◌, All}
use tcpincast.Rq.Defs.{Seg}
use tcpincast.Rq.Sides.{New, rev_onto}
use tcpincast.Rq.Add.{back_to_p, upto_q, from_q, has_q}
use tcpincast.Rq.Ranges.{ranges}
use tcpincast.Rq.Zip.{Before}
use tcpincast.Rq.Place.{EndsBy, BeginsFrom}
use tcpincast.Rq.Sweep.{Hits}

pub zip_up-rev : (acc xs ys : List Seg) → zip_up (rev_onto acc xs) ys ≡ zip_up acc (xs ++ ys)
unfolding rev_onto
zip_up-rev acc [] ys = refl
zip_up-rev acc (x ∷ xs) ys = zip_up-rev (x ∷ acc) xs ys

pub back-zip_up :
    (s : ℕ) (b a : List Seg) → zip_up (back_to_p s b a).before (back_to_p s b a).after ≡ zip_up b a
unfolding back_to_p
back-zip_up s [] a = refl
back-zip_up s (p ∷ b) a = ground (arith, back-zip_up s b (p ∷ a))

pub back-EndsBy : (s : ℕ) (b a : List Seg) → EndsBy s (back_to_p s b a).before
unfolding back_to_p
back-EndsBy s [] a = tt
back-EndsBy s (p ∷ b) a = ground (arith, back-EndsBy s b (p ∷ a))

pub back-above :
    (s : ℕ) (b a : List Seg)
    → All (λ x. s < x.endseq) a
    → All (λ x. s < x.endseq) (back_to_p s b a).after
unfolding back_to_p
back-above s [] a h = h
back-above s (p ∷ b) a h = ground (arith, back-above s b (p ∷ a))

-- If the last node ends after `s`, it is behind the place.
pub back-after : (s : ℕ) (b a : List Seg) → a ≢ [] → (back_to_p s b a).after ≢ []
unfolding back_to_p
back-after s [] a h = h
back-after s (p ∷ b) a h = ground (arith, back-after s b (p ∷ a))

pub upto-from : (e : ℕ) (a : List Seg) → upto_q e a ++ from_q e a ≡ a
unfolding upto_q from_q
upto-from e [] = refl
upto-from e (x ∷ a) = ground (arith, upto-from e a)

pub from-BeginsFrom : (e : ℕ) (a : List Seg) → BeginsFrom e (from_q e a)
unfolding from_q
from-BeginsFrom e [] = tt
from-BeginsFrom e (x ∷ a) = ground (arith, from-BeginsFrom e a)

pub upto-Hits :
    (w : New) (a : List Seg) → All (λ x. w.start < x.endseq) a → All (Hits w) (upto_q w.end a)
unfolding upto_q
upto-Hits w [] h = tt
upto-Hits w (x ∷ a) h = ground (arith, upto-Hits w a)

-- Nodes that end before the block do not start behind it.
pub Before-has_q : (n e : ℕ) (b : List Seg) → Before n (ranges b) → n ≤ e → has_q e b ≡ false
unfolding has_q
Before-has_q n e [] v h = refl
Before-has_q n e (p ∷ b) v h = ground (arith, Before-has_q p.startseq e b)
