-- ===== src/Rq/Defs.antt =====
-- The segment store of rq.h, its allocation, `clear`, `clearto`, `gensack` and `nexthole`.
-- The doubly linked FIFO is the list of its nodes from `head_` on; the LIFO is the list of the
-- nodes' addresses from `top_` on. `hint_` is written by the source and never decides anything.
use tcpincast.Base.{
  ℕ, zero, suc, ◌+◌, ◌-◌, Bool, ◌&&◌, Option, none, some, List, [], ◌∷◌, ◌==◌, if◌then◌else◌, ℤ,
  pos, pos_part, leb_ℤ, ltb_ℤ, minus_one, bit_or, is_nil,
}

-- `struct seginfo`, at address `addr`.
pub record Seg : Type 0 where
  pub addr : ℕ
  pub startseq : ℕ
  pub endseq : ℕ
  pub pflags : ℕ
  pub rqflags : ℕ
  pub cnt : ℕ

-- The static free list, and the address that `new seginfo` gives next.
pub record Pool : Type 0 where
  pub freelist : List ℕ
  pub fresh : ℕ

unfoldable pub take_free : List ℕ → Pool → ℕ × Pool
take_free [] p = (p.fresh, record p { fresh = suc p.fresh })
take_free (a ∷ rest) p = (a, record p { freelist = rest })

unfoldable pub newseginfo : Pool → ℕ × Pool
unfolding take_free
newseginfo p = take_free p.freelist p

unfoldable pub deleteseginfo : ℕ → Pool → Pool
deleteseginfo a p = record p { freelist = a ∷ p.freelist }

-- `class ReassemblyQueue`. `rcv_nxt` is the sequence number of the owner that `rcv_nxt_` refers to.
pub record Rq : Type 0 where
  pub fifo : List Seg
  pub lifo : List ℕ
  pub total : ℕ
  pub rcv_nxt : ℤ
  pub pool : Pool

unfoldable pub empty : Rq → Bool
empty q = is_nil q.fifo

unfoldable pub last_end : ℤ → List Seg → ℤ
last_end d [] = d
last_end d (x ∷ xs) = last_end (pos x.endseq) xs

unfoldable pub maxseq : Rq → ℤ
unfolding last_end
maxseq q = last_end minus_one q.fifo

unfoldable pub first_start : List Seg → ℤ
first_start [] = minus_one
first_start (x ∷ xs) = pos x.startseq

unfoldable pub minseq : Rq → ℤ
unfolding first_start
minseq q = first_start q.fifo

-- `sremove`: the address leaves the LIFO.
unfoldable pub sremove : ℕ → List ℕ → List ℕ
sremove a [] = []
sremove a (x ∷ xs) = if x == a then xs else x ∷ sremove a xs

-- `sremove(p)` and `deleteseginfo(p)` for a node whose FIFO links the caller drops.
unfoldable pub release : Seg → Rq → Rq
unfolding sremove deleteseginfo
release p q = record q { lifo = sremove p.addr q.lifo; pool = deleteseginfo p.addr q.pool }

-- `cnts`: the number of blocks from a node on, and of bytes in them.
unfoldable pub cnts : List Seg → ℕ × ℕ
cnts [] = (0, 0)
cnts (p ∷ ps) = let (blks, bytes) = cnts ps in (suc blks, p.endseq - p.startseq + bytes)

unfoldable pub free_all : List Seg → Pool → Pool
free_all [] p = p
free_all (x ∷ xs) p = free_all xs (deleteseginfo x.addr p)

unfoldable pub clear : Rq → Rq
unfolding free_all deleteseginfo
clear q = record q { fifo = []; lifo = []; total = 0; pool = free_all q.fifo q.pool }

unfoldable pub init : ℤ → Rq → Rq
unfolding clear
init rcvnxt q = clear (record q { rcv_nxt = rcvnxt })

-- The block that `clearto` trims in the middle, when `seq` lies inside it.
unfoldable pub trim : ℤ → Seg → List Seg → ℕ → Rq → ℕ × Rq
trim seq p rest flag q =
    if leb_ℤ (pos p.startseq) seq && ltb_ℤ seq (pos p.endseq)
    then (
      bit_or flag p.pflags,
      record q {
        fifo = record p { startseq = pos_part seq } ∷ rest;
        total = q.total - (pos_part seq - p.startseq);
      },
    )
    else (flag, record q { fifo = p ∷ rest })

-- The loop of `clearto` from the node `p`, which is `head_`: `fremove(p)` leaves the rest.
unfoldable pub clearto_from : ℤ → List Seg → ℕ → Rq → ℕ × Rq
clearto_from seq [] flag q = (flag, record q { fifo = [] })
clearto_from seq (p ∷ rest) flag q =
    let next =
      clearto_from seq rest (bit_or flag p.pflags)
        (release p (record q { total = q.total - (p.endseq - p.startseq) })) in
    if leb_ℤ (pos p.endseq) seq then next else trim seq p rest flag q

unfoldable pub clearto : ℤ → Rq → ℕ × Rq
unfolding clearto_from trim release
clearto seq q = clearto_from seq q.fifo 0 q

unfoldable pub cleartonxt : Rq → ℕ × Rq
unfolding clearto
cleartonxt q = clearto q.rcv_nxt q

-- What a LIFO entry points at.
unfoldable pub node : ℕ → List Seg → Option Seg
node a [] = none
node a (x ∷ xs) = if x.addr == a then some x else node a xs

-- The blocks that the loop of `gensack` writes, left edge first; `none` is a read through an
-- address that no node has.
unfoldable pub sack_blocks : ℕ → List ℕ → List Seg → Option (List (ℕ × ℕ))
sack_blocks zero addrs fifo = some []
sack_blocks (suc n) [] fifo = some []
sack_blocks (suc n) (a ∷ addrs) fifo = elim (node a fifo) [
  | none ↦ none
  | some p ↦ elim (sack_blocks n addrs fifo) [
    | none ↦ none
    | some bs ↦ some ((p.startseq, p.endseq) ∷ bs)
  ]
]

-- The number of blocks that `gensack` returns is the length of the list.
unfoldable pub gensack : ℕ → Rq → Option (List (ℕ × ℕ))
unfolding sack_blocks node
gensack maxsblock q = sack_blocks maxsblock q.lifo q.fifo

-- What `nexthole` returns and fills in: the hole, `nxtcnt` and `nxtbytes`.
pub record Hole : Type 0 where
  pub seq : ℤ
  pub nxtcnt : ℤ
  pub nxtbytes : ℤ

unfoldable pub no_counts : ℤ → Hole
no_counts s = record { seq = s; nxtcnt = minus_one; nxtbytes = minus_one }

unfoldable pub with_counts : ℤ → List Seg → Hole
unfolding no_counts cnts
with_counts s ps =
    let (blks, bytes) = cnts ps in record { seq = s; nxtcnt = pos blks; nxtbytes = pos bytes }

-- `if (p->next_) cnts(p->next_, …)`.
unfoldable pub after_block : ℤ → List Seg → Hole
unfolding no_counts with_counts
after_block s [] = no_counts s
after_block s (p ∷ ps) = with_counts s (p ∷ ps)

unfoldable pub nexthole_from : ℤ → List Seg → Hole
unfolding no_counts with_counts after_block
nexthole_from seq [] = no_counts minus_one
nexthole_from seq (p ∷ ps) =
    if ltb_ℤ seq (pos p.startseq)
    then with_counts seq (p ∷ ps)
    else if leb_ℤ (pos p.startseq) seq && leb_ℤ seq (pos p.endseq)
    then after_block (pos p.endseq) ps
    else nexthole_from seq ps

unfoldable pub nexthole : ℤ → Rq → Hole
unfolding nexthole_from
nexthole seq q = nexthole_from seq q.fifo
