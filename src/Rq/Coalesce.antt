-- ===== src/Rq/Coalesce.antt =====
-- `ReassemblyQueue::coalesce`: a new block is joined to the nodes that it is adjacent to. `Outcome`
-- is what `add` comes to.
use tcpincast.Base.{ℕ, ◌+◌, ◌&&◌, List, [], ◌∷◌, ◌==◌, if◌then◌else◌, ℤ, pos, leb_ℤ, bit_or, zip_up}
use tcpincast.Rq.Defs.{Seg, Rq, release}

-- `returns f q`: `add` returns the flags `f`. `aborts`: it calls `abort()`. `dangles`: it goes on
-- with `p` freed. `crossed`: it found `q` at or before `p`, where the model stops.
-- `out_of_fuel` is of the model.
pub data Outcome : Type 0 where
  returns : ℕ → Rq → Outcome
  aborts dangles crossed out_of_fuel : Outcome

-- `if (rcv_nxt_ >= start) rcv_nxt_ = end`.
unfoldable pub advance : ℕ → ℕ → ℤ → ℤ
advance start end r = if leb_ℤ (pos start) r then pos end else r

-- `p->cnt_`, `p->pflags_` and an edge of a node that takes over the new block `n`.
unfoldable pub grow_right : Seg → Seg → Seg
grow_right p n = record p {
  endseq = n.endseq;
  cnt = p.cnt + n.cnt;
  pflags = bit_or p.pflags n.pflags;
}

unfoldable pub grow_left : Seg → Seg → Seg
grow_left q n = record q {
  startseq = n.startseq;
  cnt = q.cnt + n.cnt;
  pflags = bit_or q.pflags n.pflags;
}

-- The end of `coalesce`: the block is in place, and moves `rcv_nxt_` if it reaches that far.
unfoldable pub settle : List Seg → Seg → List Seg → Rq → Outcome
unfolding advance
settle b p a q =
    returns p.pflags
      (record q { fifo = zip_up b (p ∷ a); rcv_nxt = advance p.startseq p.endseq q.rcv_nxt })

-- No neighbour is adjacent: `p` alone decides about `rcv_nxt_`, and is read if it is null.
unfoldable pub unjoined : List Seg → Seg → List Seg → Rq → Outcome
unfolding advance
unjoined [] n a q = dangles
unjoined (p ∷ b) n a q =
    returns 0
      (record q { fifo = zip_up (p ∷ b) (n ∷ a); rcv_nxt = advance p.startseq p.endseq q.rcv_nxt })

unfoldable pub join_right : List Seg → Seg → List Seg → Rq → Outcome
unfolding settle grow_left unjoined
join_right b n [] q = unjoined b n [] q
join_right b n (x ∷ a) q =
    if n.endseq == x.startseq
    then settle b (grow_left x n) a (release n q)
    else unjoined b n (x ∷ a) q

unfoldable pub join_left : Seg → List Seg → Seg → List Seg → Rq → Outcome
unfolding settle grow_right
join_left p b n a q = settle b (grow_right p n) a (release n q)

-- The new block fills the hole between `p` and `x`. The flags of `x` are not taken over.
unfoldable pub join_both : Seg → List Seg → Seg → Seg → List Seg → Rq → Outcome
unfolding settle grow_right
join_both p b n x a q =
    settle b
      (record p {
        endseq = x.endseq;
        cnt = p.cnt + (n.cnt + x.cnt);
        pflags = bit_or p.pflags n.pflags;
      })
      a (release x (release n q))

unfoldable pub coalesce : List Seg → Seg → List Seg → Rq → Outcome
unfolding join_right join_left join_both
coalesce [] n a q = join_right [] n a q
coalesce (p ∷ b) n [] q =
    if p.endseq == n.startseq then join_left p b n [] q else join_right (p ∷ b) n [] q
coalesce (p ∷ b) n (x ∷ a) q =
    if p.endseq == n.startseq && n.endseq == x.startseq
    then join_both p b n x a q
    else if p.endseq == n.startseq
    then join_left p b n (x ∷ a) q
    else join_right (p ∷ b) n (x ∷ a) q
