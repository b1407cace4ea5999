-- ===== src/Full/Sack.antt =====
-- tcp/tcp-full.cc, SackFullTcpAgent: what it hears in SACK blocks, what it sends next, and what an
-- acknowledgment clears. Its queue `sq_` has a reference to `sack_min_`, which is `sq.rcv_nxt`.
use tcpincast.Base.{
  ℕ, suc, zero, ℤ, pos, minus_one, ◌+ℤ◌, ◌-ℤ◌, ◌*ℤ◌, ltb_ℤ, leb_ℤ, eq_ℤ, leb, Bool, false, not,
  ◌&&◌, ◌||◌, ◌==◌, if◌then◌else◌, Option, none, some, List, [], ◌∷◌, length,
}
use tcpincast.Tcp.Double.{Double}
use tcpincast.Rq.Defs.{Rq, Hole, empty, clear, cleartonxt, nexthole, gensack}
use tcpincast.Rq.Coalesce.{Outcome, returns}
use tcpincast.Rq.Add.{add}
use tcpincast.Scoreboard.Shim.{and_then}
use tcpincast.Full.Data.{established, is_state, Conn}
use tcpincast.Full.Packet.{headersize, build_options}
use tcpincast.Full.Send.{sent, send_allowed}
use tcpincast.Full.Reset.{reset}

pub record SackConn (D : Type 0) : Type 0 where
  pub base : Conn D
  pub sq : Rq
  pub h_seqno : ℤ
  pub clear_on_timeout : Bool
  pub sack_option_size : ℤ
  pub sack_block_size : ℤ
  pub max_sack_blocks : ℕ
  pub sack_rtx_bthresh : ℤ
  pub sack_rtx_cthresh : ℤ
  pub sack_rtx_threshmode : ℕ

-- The blocks that `process_sack` adds: those that are not empty, and of a FIN all.
unfoldable pub add_legal : Bool → List (ℕ × ℕ) → Rq → Outcome
add_legal fin [] q = returns 0 q
add_legal fin (b ∷ bs) q =
    let rest = add_legal fin bs in
    if not fin && leb b.1 b.0 then rest q else and_then rest (add b.0 b.1 0 0 q)

module _ {D : Type 0} where
  abbrev pub sack_min : SackConn D → ℤ
  sack_min s = s.sq.rcv_nxt

  -- The queue after the blocks of a header; a `SackFullTcpAgent` may be told to ignore them.
  unfoldable pub process_sack : Bool → List (ℕ × ℕ) → SackConn D → Outcome
  process_sack fin blocks s =
      if s.max_sack_blocks == 0 then returns 0 s.sq else add_legal fin blocks s.sq

  -- What is acknowledged leaves the queue.
  unfoldable pub clear_acked : SackConn D → SackConn D
  clear_acked s =
      let acked = s.base.tcp.highest_ack in
      if not (empty s.sq) && ltb_ℤ (sack_min s) acked
      then record s { sq = (cleartonxt (record s.sq { rcv_nxt = acked })).1 }
      else s

  unfoldable pub raise_h_seqno : SackConn D → SackConn D
  raise_h_seqno s =
      if ltb_ℤ s.h_seqno s.base.tcp.highest_ack
      then record s { h_seqno = s.base.tcp.highest_ack }
      else s

  unfoldable pub pack_action : SackConn D → SackConn D
  pack_action s =
      let cleared = clear_acked s in
      raise_h_seqno (record cleared {
        base = record cleared.base { pipe = cleared.base.pipe -ℤ cleared.base.maxseg };
      })

  unfoldable pub ack_action : SackConn D → SackConn D
  ack_action s =
      let cleared =
        clear_acked (record s { base = record s.base { fastrecov = false; pipectrl = false } }) in
      raise_h_seqno (record cleared { base = record cleared.base { dupacks = pos 0 } })

  -- Whether enough lies beyond a hole to send it again.
  unfoldable pub is_due : SackConn D → Hole → Bool
  is_due s hole =
      let counted = leb_ℤ s.sack_rtx_cthresh hole.nxtcnt in
      let long = leb_ℤ s.sack_rtx_bthresh hole.nxtbytes in
      s.sack_rtx_threshmode == 0
      || (s.sack_rtx_threshmode == 1 && counted)
      || (s.sack_rtx_threshmode == 2 && long)
      || (s.sack_rtx_threshmode == 3 && (counted || long))
      || (s.sack_rtx_threshmode == 4 && (counted && long))

  abbrev pub jumped : ℤ → SackConn D → SackConn D
  jumped seq s = if ltb_ℤ s.h_seqno seq then record s { h_seqno = seq } else s

  abbrev pub next_new : SackConn D → Option (ℤ × SackConn D)
  next_new s = some (s.base.tcp.t_seqno, s)

  -- The loop over the holes from `seq` on. The fuel counts its rounds.
  unfoldable pub next_hole : ℕ → ℤ → SackConn D → Option (ℤ × SackConn D)
  next_hole zero seq s = none
  next_hole (suc fuel) seq s =
      let hole = nexthole seq s.sq in
      let rest = next_hole fuel (hole.seq +ℤ s.base.maxseg) s in
      if not (ltb_ℤ (pos 0) hole.seq)
      then next_new s
      else (if is_due s hole
          then some (hole.seq, jumped hole.seq s)
          else (if leb_ℤ hole.nxtcnt (pos 0) then next_new s else rest))

  unfoldable pub nxt_tseq : ℕ → SackConn D → Option (ℤ × SackConn D)
  nxt_tseq fuel s =
      if ltb_ℤ s.base.tcp.highest_ack s.base.tcp.recover
      then next_hole fuel s.h_seqno s
      else next_new s

  unfoldable pub sent_sack : ℤ → ℤ → SackConn D → SackConn D
  sent_sack seq amt s = record s {
    h_seqno = if eq_ℤ seq s.h_seqno then s.h_seqno +ℤ amt else s.h_seqno;
    base = sent seq amt s.base;
  }

  abbrev pub restarted : SackConn D → Option (Conn D) → Option (SackConn D)
  restarted s none = none
  restarted s (some c) = some (record s { base = c })

  unfoldable pub with_blocks : SackConn D → ℕ → ℤ → ℤ
  with_blocks s n total = total +ℤ (pos n *ℤ s.sack_block_size +ℤ s.sack_option_size)

module _ {D : Type 0} ⦃d : Double D⦄ where
  open d use {to_int}

  unfoldable pub reset_sack : D → SackConn D → Option (SackConn D)
  reset_sack boot s =
      let cleared = record s {
        sq = record (clear s.sq) { rcv_nxt = minus_one };
        h_seqno = minus_one;
      } in
      restarted cleared (reset boot s.base)

  unfoldable pub hdrsize : ℕ → SackConn D → ℤ
  hdrsize n s = let total = headersize s.base in if n == 0 then total else with_blocks s n total

  -- The blocks of the receiver's side, and the length of the options with them.
  unfoldable pub sack_options : D → SackConn D → Option (List (ℕ × ℕ)) → Option (List (ℕ × ℕ) × ℤ)
  sack_options now s none = none
  sack_options now s (some blocks) =
      some (blocks, with_blocks s (length blocks) (build_options s.base now).length)

  unfoldable pub build_options_sack : D → SackConn D → Option (List (ℕ × ℕ) × ℤ)
  build_options_sack now s =
      if empty s.base.rq
      then some ([], (build_options s.base now).length)
      else sack_options now s (gensack s.max_sack_blocks s.base.rq)

  -- In recovery the number of bytes in flight limits what is sent, and the peer's window.
  unfoldable pub send_allowed_sack : SackConn D → ℤ → Bool
  send_allowed_sack s seq =
      let c = s.base in
      let topawin = c.tcp.highest_ack +ℤ to_int c.tcp.window.wnd *ℤ c.maxseg in
      if not c.pipectrl
      then send_allowed c seq
      else (if leb_ℤ topawin seq
          then false
          else (if not (is_state c.state established) && ltb_ℤ c.curseq seq
              then false
              else ltb_ℤ c.pipe (to_int c.tcp.window.cwnd *ℤ c.maxseg)))
