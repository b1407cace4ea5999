-- ===== src/Rq/Sides.antt =====
-- `ReassemblyQueue::add` from its merges with the nodes on either side of the block to `endfast`.
-- A place between two nodes is a pair of lists, the nodes before it, nearest first.
use tcpincast.Base.{
  ℕ, ◌+◌, ◌-◌, Bool, true, false, ◌&&◌, ◌||◌, List, [], ◌∷◌, ◌++◌, ◌==◌, ltb, leb, if◌then◌else◌,
  bit_or, is_nil, zip_up,
}
use tcpincast.Rq.Defs.{Seg, Rq, newseginfo}
use tcpincast.Rq.Coalesce.{Outcome, returns, dangles, advance, coalesce}

-- The block that is being added, as the loop leaves it.
pub record New : Type 0 where
  pub start : ℕ
  pub end : ℕ
  pub tiflags : ℕ
  pub rqflags : ℕ
  pub initcnt : ℕ

unfoldable pub new_seg : ℕ → New → Seg
new_seg a w = record {
  addr = a;
  startseq = w.start;
  endseq = w.end;
  pflags = w.tiflags;
  rqflags = w.rqflags;
  cnt = w.initcnt;
}

-- From the label `endfast` on.
unfoldable pub endfast : List Seg → List Seg → Bool → New → Rq → Outcome
unfolding new_seg advance coalesce
endfast b a needmerge w q =
    let (addr, pool) = newseginfo q.pool in
    let n = new_seg addr w in
    let q' : Rq = record q {
      lifo = addr ∷ q.lifo;
      total = q.total + (w.end - w.start);
      pool = pool;
    } in
    if needmerge
    then coalesce b n a q'
    else returns w.tiflags
        (record q' { fifo = zip_up b (n ∷ a); rcv_nxt = advance w.start w.end q.rcv_nxt })

-- `if (start < p->startseq_) …`, and the flags and count of a node that the block overlaps.
unfoldable pub stretch_left : New → Seg → Seg
stretch_left w p = record p {
  startseq = if ltb w.start p.startseq then w.start else p.startseq;
  pflags = bit_or p.pflags w.tiflags;
  cnt = p.cnt + 1;
}

unfoldable pub stretch_right : New → Seg → Seg
stretch_right w q = record q {
  endseq = if ltb q.endseq w.end then w.end else q.endseq;
  pflags = bit_or q.pflags w.tiflags;
}

-- The node loses nothing, so `total_` grows by the difference.
unfoldable pub grown : Seg → Seg → Rq → Rq
grown old new q = record q {
  total = q.total + (old.startseq - new.startseq) + (new.endseq - old.endseq);
}

-- `if (end <= start) { … return }`, with the FIFO that the merges leave.
unfoldable pub covered : List Seg → New → Rq → Outcome
unfolding advance
covered [] w q = dangles
covered (h ∷ t) w q =
    returns w.tiflags (record q { fifo = h ∷ t; rcv_nxt = advance h.startseq h.endseq q.rcv_nxt })

-- After the merges: nothing is left to insert, or `endfast`.
unfoldable pub finish : List Seg → List Seg → List Seg → Bool → New → Rq → Outcome
unfolding covered endfast
finish b mid a needmerge w q =
    if leb w.end w.start then covered (zip_up b (mid ++ a)) w q else endfast b a needmerge w q

-- `if (p->endseq_ == start || q->startseq_ == end) needmerge = TRUE`, when `p` and `q` are adjacent.
unfoldable pub touches : List Seg → List Seg → New → Bool
touches (p ∷ b) (x ∷ a) w =
    leb p.endseq w.start && leb w.end x.startseq && (p.endseq == w.start || x.startseq == w.end)
touches _ _ w = false

-- The right-side merge when the last node before `q` is `m`, which a left-side merge has made `p`
-- or not. Where `m` is both, `end` falls to its start and `start` is its end.
unfoldable pub right_of : Bool → List Seg → Seg → List Seg → New → Rq → Outcome
unfolding finish stretch_right grown
right_of left b m a w q =
    let m' = stretch_right w m in
    if is_nil a || ltb w.end m.endseq
    then (if left
        then finish (m' ∷ b) [] a true (record w { end = m.startseq }) (grown m m' q)
        else finish b [] (m' ∷ a) true (record w { end = m.startseq }) (grown m m' q))
    else (if left then finish (m ∷ b) [] a true w q else finish b (m ∷ []) a false w q)

-- The same with other nodes between: `m` is the first of `b`, moved there by a left-side merge
-- or not, and `z ∷ mid` are the nodes up to `q`, nearest to `q` first.
unfoldable pub right_far : Bool → List Seg → Seg → List Seg → List Seg → New → Rq → Outcome
unfolding finish stretch_right grown
right_far left b z mid a w q =
    let z' = stretch_right w z in
    if is_nil a || ltb w.end z.endseq
    then finish b (zip_up mid []) (z' ∷ a) true (record w { end = z.startseq }) (grown z z' q)
    else finish b (zip_up (z ∷ mid) []) a left w q

unfoldable pub rev_onto : List Seg → List Seg → List Seg
rev_onto acc [] = acc
rev_onto acc (x ∷ xs) = rev_onto (x ∷ acc) xs

unfoldable pub far : Bool → List Seg → List Seg → List Seg → New → Rq → Outcome
unfolding right_far
far left b [] a w q = finish b [] a left w q
far left b (z ∷ mid) a w q = right_far left b z mid a w q

-- Both merges: `m ∷ mid` are the nodes after `p` and before `q`.
unfoldable pub merge_with : List Seg → Seg → List Seg → List Seg → New → Rq → Outcome
unfolding right_of far rev_onto stretch_left grown
merge_with b m [] a w q =
    let m' = stretch_left w m in
    if is_nil b || ltb m.startseq w.start
    then right_of true b m' a (record w { start = m.endseq; initcnt = w.initcnt - 1 })
        (grown m m' q)
    else right_of false b m a w q
merge_with b m (z ∷ mid) a w q =
    let m' = stretch_left w m in
    if is_nil b || ltb m.startseq w.start
    then far true (m' ∷ b) (rev_onto [] (z ∷ mid)) a
        (record w { start = m.endseq; initcnt = w.initcnt - 1 }) (grown m m' q)
    else far false b (rev_onto (m ∷ []) (z ∷ mid)) a w q

-- With no node between `p` and `q` neither merge applies: the two fast paths have taken the cases
-- where `p` or `q` is null.
unfoldable pub merge : List Seg → List Seg → List Seg → New → Rq → Outcome
unfolding merge_with finish touches
merge b [] a w q = finish b [] a (touches b a w) w q
merge b (m ∷ mid) a w q = merge_with b m mid a w q
