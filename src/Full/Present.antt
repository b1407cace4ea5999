-- ===== src/Full/Present.antt =====
-- What `reass` of tcp/tcp-full.cc makes of the reassembly queue.
use tcpincast.Base.{
  ℕ, ◌<◌, arith, ℤ, pos, negsuc, leb_ℤ, ltb_ℤ, eq_ℤ, ◌≡◌, refl, ◌∙◌, sym, Bool, not, true, false,
  ◌&&◌, ◌||◌, Bool-cases, inl, inr, ap₂, List, [], ◌∷◌,
}
use tcpincast.Rq.Defs.{Rq, Seg, clearto, clearto_from, cleartonxt, trim, release}
use tcpincast.Rq.Coalesce.{Outcome, returns, aborts, dangles, crossed, out_of_fuel}
use tcpincast.Rq.Ranges.{ranges, covers, Sep, width}
use tcpincast.Rq.Round.{IsValid}
use tcpincast.Rq.Cover.{Lands, Gains, add-Gains, in_block}
use tcpincast.Rq.Trim.{Leaves, clearto-Leaves}
use tcpincast.Full.Data.{syn_received, havercvdsyn, is_state, bits, Segment, Conn, rcv_nxt}
use tcpincast.Full.Reass.{Reassembled, collected, fails, reass, on_added, presented, end_of, set_rq}

within : (k n : ℕ) (b : Bool) → b ≡ (leb_ℤ (negsuc n) (pos k) && b)
within k n b = ground arith

-- The bytes that wait in the queue, from where the application has what came before.
pub record Holds {D : Type 0} (start end : ℕ) (fills : Bool) (before after : Conn D) : Type 0 where
  pub only_queue : after ≡ set_rq after.rq before
  pub sep : Sep (ranges after.rq.fifo)
  pub counted : after.rq.total ≡ width (ranges after.rq.fifo)
  pub waits :
      (n : ℕ)
      → covers n (ranges after.rq.fifo)
        ≡ (not fills || leb_ℤ (rcv_nxt after) (pos n))
          && (in_block n (start, end) || covers n (ranges before.rq.fifo))

abbrev pub Presents : {D : Type 0} → ℕ → ℕ → Bool → Conn D → Reassembled D → Type 0
Presents start end fills c (collected flags e) = Holds start end fills c e
Presents start end fills c (fails o) = ⊥

clearto_from-negative :
    (n : ℕ) (xs : List Seg) (flag : ℕ) (q : Rq)
    → ((clearto_from (negsuc n) xs flag q).1.fifo ≡ xs)
      × ((clearto_from (negsuc n) xs flag q).1.total ≡ q.total)
unfolding clearto_from trim
clearto_from-negative n [] flag q = (refl, refl)
clearto_from-negative n (p ∷ rest) flag q =
    let ends : leb_ℤ (pos p.endseq) (negsuc n) ≡ false = ground arith in
    let starts : leb_ℤ (pos p.startseq) (negsuc n) ≡ false = ground arith in
    rw (ends, starts) (refl, refl)

-- A number below zero leaves all of the queue.
clearto-Leaves_all :
    (n : ℕ) (q : Rq) → IsValid q → Leaves (negsuc n) (ranges q.fifo) (clearto (negsuc n) q)
unfolding clearto
clearto-Leaves_all n q v =
    let c = clearto_from-negative n q.fifo 0 q in
    rw (c.0, c.1) (v.sep, v.total, λ k. within k n (covers k (ranges q.fifo)))

clearto-Leaves_from : (seq : ℤ) (q : Rq) → IsValid q → Leaves seq (ranges q.fifo) (clearto seq q)
clearto-Leaves_from (pos n) q v = clearto-Leaves n q v
clearto-Leaves_from (negsuc n) q v = clearto-Leaves_all n q v

clearto_from-rcv_nxt :
    (seq : ℤ) (xs : List Seg) (flag : ℕ) (q : Rq)
    → (clearto_from seq xs flag q).1.rcv_nxt ≡ q.rcv_nxt
unfolding clearto_from trim release
clearto_from-rcv_nxt seq [] flag q = refl
clearto_from-rcv_nxt seq (p ∷ rest) flag q = elim (Bool-cases (leb_ℤ (pos p.endseq) seq)) [
  | inl e ↦ rw e (clearto_from-rcv_nxt seq rest _ _)
  | inr e ↦ elim (Bool-cases (leb_ℤ (pos p.startseq) seq && ltb_ℤ seq (pos p.endseq))) [
    | inl f ↦ rw (e, f) refl
    | inr f ↦ rw (e, f) refl
  ]
]

module _ {D : Type 0} where
  -- What waits after `add`, when nothing is presented.
  waiting :
      (start end : ℕ) (q : Rq) (c : Conn D)
      → Gains (start, end) c.rq q
      → Holds start end false c (set_rq q c)
  waiting start end q c g = record {
    only_queue = refl;
    sep = g.0.sep;
    counted = g.0.total;
    waits = g.1;
  }

  presented_rest :
      (start end : ℕ) (q : Rq) (c : Conn D)
      → Gains (start, end) c.rq q
      → Holds start end true c (set_rq (cleartonxt q).1 c)
  unfolding cleartonxt clearto
  presented_rest start end q c g =
      let l = clearto-Leaves_from q.rcv_nxt q g.0 in
      let kept = clearto_from-rcv_nxt q.rcv_nxt q.fifo 0 q in
      record {
        only_queue = refl;
        sep = l.0;
        counted = l.1;
        waits = λ n. l.2 n ∙ ap₂ (λ r b. leb_ℤ r (pos n) && b) (sym kept) (g.1 n);
      }

  presented-Presents :
      (start end : ℕ) (fills has_data : Bool) (flags : ℕ) (q : Rq) (c : Conn D)
      → havercvdsyn c.state ≡ true
      → is_state c.state syn_received ≡ false
      → Gains (start, end) c.rq q
      → Presents start end fills c (presented fills has_data flags q c)
  unfolding presented
  presented-Presents start end false has_data flags q c syn est g = rw syn (waiting start end q c g)
  presented-Presents start end true has_data flags q c syn est g =
      rw (syn, est) (presented_rest start end q c g)

  on_added-Presents :
      (start end : ℕ) (fills has_data : Bool) (c : Conn D) (o : Outcome)
      → havercvdsyn c.state ≡ true
      → is_state c.state syn_received ≡ false
      → Lands (Gains (start, end) c.rq) o
      → Presents start end fills c (on_added fills has_data c o)
  unfolding on_added
  on_added-Presents start end fills has_data c (returns flags q) syn est g =
      presented-Presents start end fills has_data flags q c syn est g
  on_added-Presents start end fills has_data c aborts syn est g = g
  on_added-Presents start end fills has_data c dangles syn est g = g
  on_added-Presents start end fills has_data c crossed syn est g = g
  on_added-Presents start end fills has_data c out_of_fuel syn est g = g

  -- Once the connection is established, `reass` of a segment with data returns and changes only the
  -- queue, which was valid. A byte then waits in the queue if the segment or the queue had it, and, where the
  -- segment is the next one, it is not before `rcv_nxt_`; `total_` counts the bytes that wait.
  pub reass-Presents :
      (start end : ℕ) (pkt : Segment D) (c : Conn D)
      → pkt.seqno ≡ pos start
      → end_of pkt ≡ pos end
      → start < end
      → havercvdsyn c.state ≡ true
      → is_state c.state syn_received ≡ false
      → IsValid c.rq
      → Presents start end (eq_ℤ (pos start) (rcv_nxt c)) c (reass pkt c)
  unfolding reass
  reass-Presents start end pkt c s e some_data syn est v =
      let long : eq_ℤ (pos start) (pos end) ≡ false = ground arith in
      rw (e, s, long)
        (on_added-Presents start end (eq_ℤ (pos start) (rcv_nxt c)) (ltb_ℤ (pos start) (pos end)) c
          _ syn est (add-Gains start end (bits pkt.flags) 0 c.rq some_data v))
