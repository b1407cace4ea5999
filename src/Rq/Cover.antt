-- ===== src/Rq/Cover.antt =====
-- What `add` does to the bytes that a queue covers, and to its validity.
use tcpincast.Base.{
  ℕ, min, max, ◌<◌, ◌≡◌, sym, subst, ◌∙◌, ap, Bool, ◌&&◌, ◌||◌, List, [], ◌∷◌, ltb, leb, arith,
}
use tcpincast.Rq.Defs.{Rq}
use tcpincast.Rq.Coalesce.{Outcome, returns, aborts, dangles, crossed, out_of_fuel}
use tcpincast.Rq.Add.{add}
use tcpincast.Rq.Ranges.{
  Range, ranges, insert_range, insert_range-Sep, covers, covers-insert, Sep, width,
}
use tcpincast.Rq.Place.{Holds}
use tcpincast.Rq.Round.{IsValid, add_inserts}

-- The call returns, with a queue of which `P` holds.
abbrev pub Lands : (Rq → Type 0) → Outcome → Type 0
Lands P (returns f q) = P q
Lands P aborts = ⊥
Lands P dangles = ⊥
Lands P crossed = ⊥
Lands P out_of_fuel = ⊥

pub Lands-map : {P Q : Rq → Type 0} (o : Outcome) → ((q : Rq) → P q → Q q) → Lands P o → Lands Q o
Lands-map (returns f q) g h = g q h
Lands-map aborts g h = h
Lands-map dangles g h = h
Lands-map crossed g h = h
Lands-map out_of_fuel g h = h

pub Holds-Lands :
    (r : List Range) (o : Outcome)
    → Holds r o
    → Lands (λ q. (ranges q.fifo ≡ r) × (q.total ≡ width r)) o
Holds-Lands r (returns f q) h = h
Holds-Lands r aborts h = h
Holds-Lands r dangles h = h
Holds-Lands r crossed h = h
Holds-Lands r out_of_fuel h = h

insert-ne : (s e : ℕ) (r : List Range) → insert_range s e r ≡ [] → ⊥
unfolding insert_range
insert-ne s e [] h = cc
insert-ne s e (x ∷ xs) h = ground (arith, insert-ne (min s x.lo) (max e x.hi) xs)

-- The byte `n` is in a block.
abbrev pub in_block : ℕ → ℕ × ℕ → Bool
in_block n (s, e) = leb s n && ltb n e

-- The queue after a block `b` has been added to `q`: it is valid, and covers what `b` covers and
-- what `q` covers.
abbrev pub Gains : ℕ × ℕ → Rq → Rq → Type 0
Gains b q q' =
    IsValid q' × ((n : ℕ) → covers n (ranges q'.fifo) ≡ (in_block n b || covers n (ranges q.fifo)))

-- Adding a block that is not empty to a valid queue returns a valid queue, which covers a byte
-- just when the block or the queue did.
pub add-Gains :
    (start end tiflags rqflags : ℕ) (q : Rq)
    → start < end
    → IsValid q
    → Lands (Gains (start, end) q) (add start end tiflags rqflags q)
add-Gains start end tiflags rqflags q n v =
    let r = ranges q.fifo in
    Lands-map (add start end tiflags rqflags q)
      (λ q' h. (
        record {
          sep = subst Sep (sym h.0) (insert_range-Sep start end r n v.sep);
          total = h.1 ∙ ap width (sym h.0);
          stacked = λ e. absurd (insert-ne start end r (sym h.0 ∙ ap ranges e));
        },
        λ k. ap (covers k) h.0 ∙ covers-insert k start end r n,
      ))
      (Holds-Lands (insert_range start end r) _ (add_inserts start end tiflags rqflags q n v))
