-- ===== src/Rq/Add.antt =====
-- `ReassemblyQueue::add` and `coalesce`. A place between two nodes is a pair of lists: the nodes
-- before it, nearest first (the source's `p` is the first of them), and the nodes from `q` on.
use tcpincast.Base.{
  ℕ, zero, suc, ◌+◌, ◌-◌, Bool, true, false, ◌&&◌, ◌||◌, Option, none, some, List, [], ◌∷◌, ◌++◌,
  ◌==◌, ltb, leb, if◌then◌else◌, bit_or, is_nil, zip_up, length,
}
use tcpincast.Rq.Defs.{Seg, Rq, newseginfo, release, empty}
use tcpincast.Rq.Coalesce.{Outcome, returns, aborts, dangles, crossed, out_of_fuel, advance}
use tcpincast.Rq.Sides.{New, new_seg, endfast, rev_onto, merge}

-- `p = tail_; while (p && p->endseq_ > start) p = p->prev_`, from the nodes before, nearest first.
pub record Place : Type 0 where
  pub before : List Seg
  pub after : List Seg

unfoldable pub back_to_p : ℕ → List Seg → List Seg → Place
back_to_p start [] a = record { before = []; after = a }
back_to_p start (p ∷ b) a =
    let further = back_to_p start b (p ∷ a) in
    if ltb start p.endseq then further else record { before = p ∷ b; after = a }

-- `q = head_; while (q && q->startseq_ < end) q = q->next_`: the nodes passed, and those from `q`.
unfoldable pub upto_q : ℕ → List Seg → List Seg
upto_q end [] = []
upto_q end (x ∷ xs) = if ltb x.startseq end then x ∷ upto_q end xs else []

unfoldable pub from_q : ℕ → List Seg → List Seg
from_q end [] = []
from_q end (x ∷ xs) = if ltb x.startseq end then from_q end xs else x ∷ xs

-- Is `q` among these nodes?
unfoldable pub has_q : ℕ → List Seg → Bool
has_q end [] = false
has_q end (x ∷ xs) = leb end x.startseq || has_q end xs

-- The loop that kills what is completely overlapped, over the nodes from `p` up to `q`. `exact` is
-- what `add` returns at once when a node is the new block.
pub record Sweep : Type 0 where
  pub kept : List Seg
  pub altered : Bool
  pub exact : Option ℕ
  pub block : New
  pub queue : Rq

-- A node is killed: the block takes over its flags and count, and its bytes leave the total.
abbrev pub take_over : New → Seg → New
take_over w n = record w { tiflags = bit_or w.tiflags n.pflags; initcnt = w.initcnt + n.cnt }

unfoldable pub kill : Seg → Rq → Rq
unfolding release
kill n q = release n (record q { total = q.total - (n.endseq - n.startseq) })

unfoldable pub sweep : List Seg → New → Rq → Sweep
unfolding kill
sweep [] w q = record { kept = []; altered = false; exact = none; block = w; queue = q }
sweep (r ∷ rs) w q =
    let hit = bit_or r.pflags w.tiflags in
    let killed = sweep rs (take_over w r) (kill r q) in
    let passed = sweep rs w q in
    if w.start == r.startseq && w.end == r.endseq
    then record {
      kept = record r { pflags = hit } ∷ rs;
      altered = false;
      exact = some hit;
      block = w;
      queue = q;
    }
    else if leb w.start r.startseq && leb r.endseq w.end
    then record killed { altered = true }
    else record passed { kept = r ∷ passed.kept }

-- The nodes that the sweep visits before the nodes between: `p` itself.
unfoldable pub first_of_p : List Seg → List Seg
first_of_p [] = []
first_of_p (p ∷ b) = p ∷ []

unfoldable pub rest_of_p : List Seg → List Seg
rest_of_p [] = []
rest_of_p (p ∷ b) = b

-- What follows the sweep; `again` is `goto again2`.
unfoldable pub swept : (New → Rq → Outcome) → Place → Sweep → Outcome
unfolding merge endfast upto_q from_q first_of_p rest_of_p
swept again pl s =
    let b = rest_of_p pl.before in
    let a = from_q s.block.end pl.after in
    let q = record s.queue { fifo = zip_up b (s.kept ++ a) } in
    elim s.exact [
      | some f ↦ returns f q
      | none ↦
          if is_nil q.fifo
          then (if is_nil pl.before then endfast [] [] false s.block q else dangles)
          else if s.altered
          then again s.block q
          else merge pl.before (upto_q s.block.end pl.after) a s.block q
    ]

unfoldable pub search_from : (New → Rq → Outcome) → Place → New → Rq → Outcome
unfolding swept sweep upto_q has_q first_of_p
search_from again pl w q =
    if has_q w.end pl.before
    then crossed
    else swept again pl (sweep (first_of_p pl.before ++ upto_q w.end pl.after) w q)

-- The fast paths: behind `tail_`, and in front of `head_`. The FIFO is `h ∷ t`, and `z ∷ b` is the
-- same reversed.
unfoldable pub placed : (New → Rq → Outcome) → Seg → List Seg → Seg → List Seg → New → Rq → Outcome
unfolding endfast search_from back_to_p
placed again h t z b w q =
    if leb z.endseq w.start
    then endfast (z ∷ b) [] (w.start == z.endseq) w q
    else if leb w.end h.startseq
    then endfast [] (h ∷ t) (w.end == h.startseq) w q
    else search_from again (back_to_p w.start (z ∷ b) []) w q

unfoldable pub placed_in : (New → Rq → Outcome) → List Seg → List Seg → New → Rq → Outcome
unfolding placed
placed_in again (h ∷ t) (z ∷ b) w q = placed again h t z b w q
placed_in again _ _ w q = endfast [] [] false w q

-- The label `again2`. A round that comes back has removed a node, so `length` rounds suffice.
unfoldable pub again2 : ℕ → New → Rq → Outcome
unfolding placed_in rev_onto
again2 zero w q = out_of_fuel
again2 (suc fuel) w q = placed_in (again2 fuel) q.fifo (rev_onto [] q.fifo) w q

-- The first segment of all.
unfoldable pub first : New → Rq → Outcome
unfolding new_seg advance
first w q =
    let (addr, pool) = newseginfo q.pool in
    if is_nil q.lifo
    then returns w.tiflags (record {
      fifo = new_seg addr w ∷ [];
      lifo = addr ∷ [];
      total = w.end - w.start;
      rcv_nxt = advance w.start w.end q.rcv_nxt;
      pool = pool;
    })
    else aborts

unfoldable pub add : ℕ → ℕ → ℕ → ℕ → Rq → Outcome
unfolding first again2 empty newseginfo
add start end tiflags rqflags q =
    let w : New = record {
      start = start;
      end = end;
      tiflags = tiflags;
      rqflags = rqflags;
      initcnt = 1;
    } in
    if ltb end start
    then aborts
    else if empty q
    then first w q
    else again2 (suc (length q.fifo)) w q
