-- ===== src/Full/Reass.antt =====
-- tcp/tcp-full.cc, what a segment with data does: reass, and the processing of data and of a FIN in
-- `recv` after the label `step6`.
use tcpincast.Base.{
  ℕ, bit_or, ℤ, pos, pos_part, ◌+ℤ◌, ◌-ℤ◌, ltb_ℤ, leb_ℤ, eq_ℤ, Bool, true, false, not, ◌&&◌, ◌||◌,
  if◌then◌else◌,
}
use tcpincast.Rq.Defs.{Rq, empty, cleartonxt}
use tcpincast.Rq.Coalesce.{Outcome, returns, aborts}
use tcpincast.Rq.Add.{add}
use tcpincast.Tcp.Slowdown.{has}
use tcpincast.Full.Data.{
  State, closed, syn_received, established, close_wait, fin_wait_1, closing, fin_wait_2,
  havercvdsyn, is_state, Flags, bits, Segment, Conn, rcv_nxt, ahbytes,
}
use tcpincast.Full.Packet.{need_send}
use tcpincast.Full.Send.{newstate, cancel_timers}

-- `TCPS_HAVERCVDFIN`.
unfoldable pub havercvdfin : State → Bool
havercvdfin closing = true
havercvdfin closed = true
havercvdfin close_wait = true
havercvdfin _ = false

-- How `reass` ends: with flags, or where the queue's `add` or the program stops.
pub data Reassembled (D : Type 0) : Type 0 where
  collected : ℕ → Conn D → Reassembled D
  fails : Outcome → Reassembled D

-- The state after the peer's FIN.
unfoldable pub on_fin : State → State
on_fin syn_received = close_wait
on_fin established = close_wait
on_fin fin_wait_1 = closing
on_fin fin_wait_2 = closed
on_fin s = s

-- A packet after the duplicate data at its front is cut off, with the flags that count from here
-- on, the length of the data that is left, and whether the whole packet was duplicate.
pub record Trimmed (D : Type 0) : Type 0 where
  pub segment : Segment D
  pub tiflags : Flags
  pub datalen : ℤ
  pub duplicate : Bool

-- The connection after the data of a segment: the flags that count from here on, what the
-- application is given, and whether an output is due.
pub record Taken (D : Type 0) : Type 0 where
  pub conn : Conn D
  pub fin : Bool
  pub delivered : ℤ
  pub needoutput : Bool

-- How the data of a segment is taken: as above, or the queue or the program stops.
pub data Took (D : Type 0) : Type 0 where
  took : Taken D → Took D
  stops : Outcome → Took D

module _ {D : Type 0} where
  abbrev pub set_rq : Rq → Conn D → Conn D
  set_rq q c = record c { rq = q }

  -- The number after the last byte of a segment.
  abbrev pub end_of : Segment D → ℤ
  end_of pkt = pkt.seqno +ℤ pkt.size -ℤ pkt.hlen

  -- What `reass` presents after `add`: nothing while no SYN has come, for a segment that leaves a
  -- hole, and for data before the handshake is over; else the flags of all that is in order now.
  unfoldable pub presented : Bool → Bool → ℕ → Rq → Conn D → Reassembled D
  presented fillshole has_data flags q c =
      if not (havercvdsyn c.state) || not fillshole
      then collected 0 (set_rq q c)
      else (if is_state c.state syn_received && has_data
          then collected 0 (set_rq q c)
          else collected (bit_or flags (cleartonxt q).0) (set_rq (cleartonxt q).1 c))

  unfoldable pub on_added : Bool → Bool → Conn D → Outcome → Reassembled D
  on_added fillshole has_data c (returns flags q) = presented fillshole has_data flags q c
  on_added fillshole has_data c o = fails o

  -- A segment of no length that is not a FIN is an error of the caller: `abort()`.
  unfoldable pub reass : Segment D → Conn D → Reassembled D
  reass pkt c =
      if eq_ℤ pkt.seqno (end_of pkt) && not pkt.flags.fin
      then fails aborts
      else on_added (eq_ℤ pkt.seqno (rcv_nxt c)) (ltb_ℤ pkt.seqno (end_of pkt)) c
          (add (pos_part pkt.seqno) (pos_part (end_of pkt)) (bits pkt.flags) 0 c.rq)

  -- A SYN in front of the data is passed over.
  unfoldable pub without_syn : Flags → Segment D → Segment D
  without_syn tiflags pkt =
      if tiflags.syn
      then record pkt { seqno = pkt.seqno +ℤ pos 1; size = pkt.size -ℤ pos 1 }
      else pkt

  -- Of a packet of duplicate data only the acknowledgment is left.
  unfoldable pub trim_from : ℤ → Flags → ℤ → Segment D → Trimmed D
  trim_from todrop tiflags datalen pkt =
      let whole = ltb_ℤ datalen todrop || (eq_ℤ todrop datalen && not tiflags.fin) in
      let cut = if whole then datalen else todrop in
      record {
        segment = record pkt { seqno = pkt.seqno +ℤ cut; size = pkt.size -ℤ cut };
        tiflags = record tiflags { syn = false; fin = tiflags.fin && not whole };
        datalen = datalen -ℤ cut;
        duplicate = whole;
      }

  -- The front of a segment that is below `rcv_nxt_` is cut off.
  unfoldable pub trim_duplicate : Segment D → Flags → ℤ → Conn D → Trimmed D
  trim_duplicate pkt tiflags datalen c =
      let todrop = rcv_nxt c -ℤ pkt.seqno in
      if ltb_ℤ (pos 0) todrop && (tiflags.syn || ltb_ℤ (pos 0) datalen)
      then trim_from (if tiflags.syn then todrop -ℤ pos 1 else todrop) tiflags datalen
          (without_syn tiflags pkt)
      else record { segment = pkt; tiflags = tiflags; datalen = datalen; duplicate = false }

  -- A packet that is duplicate as a whole is answered.
  abbrev pub answer_duplicate : Trimmed D → Conn D → Conn D
  answer_duplicate t c = record c { acknow = c.acknow || t.duplicate }

  -- The timestamp that is echoed: of a segment at or before the last acknowledgment, which is
  -- `AHBYTES` behind where acknowledgments are held.
  unfoldable pub record_stamp : D → Segment D → Conn D → Conn D
  record_stamp now pkt c =
      let edge = if c.is_ha then c.last_ack_sent +ℤ ahbytes else c.last_ack_sent in
      if c.tcp.rtt.ts_option && not pkt.no_ts && leb_ℤ pkt.seqno edge
      then record c { recent_age = now; recent = pkt.ts }
      else c

  abbrev advanced : ℤ → Conn D → Conn D
  advanced n c = set_rq (record c.rq { rcv_nxt = rcv_nxt c +ℤ n }) c

  -- The next segment, with nothing in the queue: `rcv_nxt_` advances over it.
  unfoldable pub take_next : Segment D → ℤ → Conn D → Taken D
  take_next pkt datalen c =
      let moved = record (advanced datalen c) { delack = true } in
      record {
        conn = moved;
        fin = pkt.flags.fin;
        delivered = datalen;
        needoutput = need_send moved;
      }

  -- Any other segment goes through the queue and is acknowledged at once.
  unfoldable pub take_reassembled : Bool → ℤ → Reassembled D → Took D
  take_reassembled needoutput old (fails o) = stops o
  take_reassembled needoutput old (collected flags c) =
      let moved = record c { acknow = true } in
      took record {
        conn = moved;
        fin = has flags 1;
        delivered = if ltb_ℤ old (rcv_nxt c) then rcv_nxt c -ℤ old else pos 0;
        needoutput = if has flags 8 then need_send moved else needoutput;
      }

  -- From the label `step6` to the FIN. No data is taken once the peer has finished.
  unfoldable pub take_data : Segment D → Flags → ℤ → Bool → Conn D → Took D
  take_data pkt tiflags datalen needoutput c =
      if (ltb_ℤ (pos 0) datalen || tiflags.fin) && not (havercvdfin c.state)
      then (if eq_ℤ pkt.seqno (rcv_nxt c) && empty c.rq
          then took (take_next pkt datalen c)
          else take_reassembled needoutput (rcv_nxt c) (reass pkt c))
      else took record { conn = c; fin = false; delivered = pos 0; needoutput = needoutput }

  unfoldable pub take_fin : Bool → Conn D → Conn D
  take_fin fin c =
      let counted =
        if havercvdfin c.state then c else record (advanced (pos 1) c) { acknow = true } in
      let entered = newstate (on_fin c.state) counted in
      if fin then (if is_state c.state fin_wait_2 then cancel_timers entered else entered) else c
