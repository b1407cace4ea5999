-- ===== src/Scoreboard/Received.antt =====
-- The SACK blocks that a header brings, added to the queue of a `ScoreBoardRQ`.
use tcpincast.Base.{ℕ, ◌<◌, ◌≡◌, refl, ap, ◌∙◌, sym, Bool, false, ◌||◌, List, [], ◌∷◌, arith, All}
use tcpincast.Rq.Defs.{Rq}
use tcpincast.Rq.Coalesce.{Outcome, returns, aborts, dangles, crossed, out_of_fuel}
use tcpincast.Rq.Add.{add}
use tcpincast.Rq.Ranges.{ranges, covers, width}
use tcpincast.Rq.Round.{IsValid}
use tcpincast.Rq.Cover.{Lands, Lands-map, in_block, add-Gains}
use tcpincast.Rq.Canon.{canonical}
use tcpincast.Scoreboard.Shim.{add_blocks, and_then}

abbrev pub in_blocks : ℕ → List (ℕ × ℕ) → Bool
in_blocks n [] = false
in_blocks n (b ∷ bs) = in_block n b || in_blocks n bs

abbrev pub NonEmpty : ℕ × ℕ → Type 0
NonEmpty b = b.0 < b.1

-- The queue after all blocks: valid, and covering what they and the old queue cover.
abbrev pub GainsAll : List (ℕ × ℕ) → Rq → Rq → Type 0
GainsAll bs q q' =
    IsValid q'
    × ((n : ℕ) → covers n (ranges q'.fifo) ≡ (in_blocks n bs || covers n (ranges q.fifo)))

pub or-swap : (a b c : Bool) → (b || (a || c)) ≡ ((a || b) || c)
or-swap a b c = ground arith

pub then-Lands :
    {P : Rq → Type 0} (Q : Rq → Type 0) (f : Rq → Outcome) (o : Outcome)
    → ((q : Rq) → P q → Lands Q (f q))
    → Lands P o
    → Lands Q (and_then f o)
unfolding and_then
then-Lands Q f (returns x q) g h = g q h
then-Lands Q f aborts g h = h
then-Lands Q f dangles g h = h
then-Lands Q f crossed g h = h
then-Lands Q f out_of_fuel g h = h

-- Adding blocks, none empty, one after another to a valid queue always returns; the queue is
-- valid, and covers a byte just when one of the blocks or the old queue does.
pub add_blocks-GainsAll :
    (bs : List (ℕ × ℕ)) (q : Rq)
    → All NonEmpty bs
    → IsValid q
    → Lands (GainsAll bs q) (add_blocks bs q)
unfolding add_blocks
add_blocks-GainsAll [] q a v = (v, λ n. refl)
add_blocks-GainsAll (b ∷ bs) q a v =
    then-Lands _ (add_blocks bs) (add b.0 b.1 0 0 q)
      (λ q1 g.
        Lands-map (add_blocks bs q1)
          (λ q2 h. (
            h.0,
            λ n.
                h.1 n
                ∙ ap (λ c. in_blocks n bs || c) (g.1 n)
                ∙ or-swap (in_block n b) (in_blocks n bs) (covers n (ranges q.fifo)),
          ))
          (add_blocks-GainsAll bs q1 a.1 g.0))
      (add-Gains b.0 b.1 0 0 q a.0 v)

-- Two calls return queues with the same segments and the same number of bytes.
abbrev pub Agree : Outcome → Outcome → Type 0
Agree o o' = Lands (λ q. Lands (λ q'. (ranges q.fifo ≡ ranges q'.fifo) × (q.total ≡ q'.total)) o') o

same-Agree :
    (q1 q2 : Rq) (bs cs : List (ℕ × ℕ)) (q : Rq)
    → ((n : ℕ) → in_blocks n bs ≡ in_blocks n cs)
    → GainsAll bs q q1
    → GainsAll cs q q2
    → (ranges q1.fifo ≡ ranges q2.fifo) × (q1.total ≡ q2.total)
same-Agree q1 q2 bs cs q e g h =
    let r =
      canonical (ranges q1.fifo) (ranges q2.fifo) g.0.sep h.0.sep
        (λ n. g.1 n ∙ ap (λ b. b || covers n (ranges q.fifo)) (e n) ∙ sym (h.1 n)) in
    (r, g.0.total ∙ ap width r ∙ sym h.0.total)

-- Blocks that cover the same bytes, in whatever order, number or division, lead a valid queue to
-- the same segments and the same count of bytes.
pub add_blocks-same :
    (bs cs : List (ℕ × ℕ)) (q : Rq)
    → All NonEmpty bs
    → All NonEmpty cs
    → ((n : ℕ) → in_blocks n bs ≡ in_blocks n cs)
    → IsValid q
    → Agree (add_blocks bs q) (add_blocks cs q)
add_blocks-same bs cs q a c e v =
    Lands-map (add_blocks bs q)
      (λ q1 g.
        Lands-map (add_blocks cs q) (λ q2 h. same-Agree q1 q2 bs cs q e g h)
          (add_blocks-GainsAll cs q c v))
      (add_blocks-GainsAll bs q a v)
