-- ===== src/Full/Handshake.antt =====
-- tcp/tcp-full.cc, `recv` in the states LISTEN and SYN_SENT, with its label `trimthenstep6`.
use tcpincast.Base.{
  ℤ, pos, ◌+ℤ◌, ◌-ℤ◌, ltb_ℤ, leb_ℤ, eq_ℤ, Bool, true, false, not, ◌&&◌, ◌||◌, ◌==◌, if◌then◌else◌,
  Option, none, some,
}
use tcpincast.Tcp.Double.{Double}
use tcpincast.Tcp.Open.{initial_window}
use tcpincast.Rq.Coalesce.{aborts}
use tcpincast.Full.Data.{syn_received, normal, Segment, Conn, rcv_nxt}
use tcpincast.Full.Packet.{th_ack, sendpacket}
use tcpincast.Full.Depart.{set_rtx_timer}
use tcpincast.Full.Send.{newstate}
use tcpincast.Full.Ack.{set_cwnd, set_t_seqno}
use tcpincast.Full.Arrive.{
  Scene, Arrival, Frame, Verdict, halts, drop, of_option, dooptions, dropwithreset, step6,
}
use tcpincast.Full.Process.{process_ack}
use tcpincast.Full.Slow.{accepted}

unfoldable pub rcvseqinit : ℤ → ℤ → ℤ
rcvseqinit seq dlen = seq +ℤ dlen +ℤ pos 1

module _ {D : Type 0} where
  -- The number of the peer's SYN, and of what comes after the packet.
  unfoldable pub synchronized : Frame D → Conn D → Conn D
  synchronized p c = record c {
    irs = p.segment.seqno;
    rq = record c.rq { rcv_nxt = rcvseqinit p.segment.seqno p.datalen };
  }

  -- The bits ECE and CWR of a SYN offer ECN.
  unfoldable pub offered : Segment D → Conn D → Conn D
  offered pkt c = if c.ecn && pkt.ecnecho && pkt.cong_action then record c { ect = true } else c

  -- ECE without CWR of a SYN/ACK accepts it.
  unfoldable pub granted : Arrival D → Conn D → Conn D
  granted a c =
      if c.ecn && a.segment.ecnecho && not a.segment.cong_action
      then record c { ect = true; recent_ce = c.recent_ce || a.ce }
      else c

  -- An agent without a flow identifier takes that of the peer.
  abbrev pub adopts_flow : Arrival D → Conn D → Conn D
  adopts_flow a c = if eq_ℤ c.fid (pos 0) then record c { fid = a.flowid } else c

  -- The SYN is passed over.
  abbrev pub past_syn : Frame D → Frame D
  past_syn p = record p { segment = record p.segment { seqno = p.segment.seqno +ℤ pos 1 } }

  -- Data is acknowledged later, a bare SYN/ACK at once.
  unfoldable pub answers_later : ℤ → Conn D → Conn D
  answers_later datalen c =
      if ltb_ℤ (pos 0) datalen then record c { delack = true } else record c { acknow = true }

  -- The bit SYN is cleared where the application has closed already.
  unfoldable pub without_open : Bool → Frame D → Frame D
  without_open closes p =
      if closes then record p { tiflags = record p.tiflags { syn = false } } else p

  -- A SYN/ACK packet that `ecn_syn_wait_` does not accept.
  unfoldable pub refuses_mark : Arrival D → Frame D → Conn D → Bool
  refuses_mark a p c =
      p.tiflags.ack
      && c.ecn
      && p.segment.ecnecho
      && not p.segment.cong_action
      && c.ecn_syn_wait == 2
      && a.ce

module _ {D : Type 0} ⦃d : Double D⦄ where
  -- From the label `trimthenstep6` on.
  unfoldable pub trim_then_step6 : Scene D → Frame D → Conn D → Verdict D
  trim_then_step6 sc p c =
      if p.tiflags.ack then process_ack sc (past_syn p) c else step6 sc (past_syn p) false c

  abbrev pub opens_passive : Scene D → Arrival D → Frame D → Conn D → Conn D
  opens_passive sc a p c =
      let met = synchronized p (dooptions sc.now p.segment c) in
      newstate syn_received
        (adopts_flow a (offered p.segment (record (set_t_seqno met.iss met) { acknow = true })))

  unfoldable pub in_listen : Scene D → Arrival D → Frame D → Conn D → Verdict D
  in_listen sc a p c =
      if p.tiflags.ack
      then dropwithreset sc.now p c
      else (if not p.tiflags.syn then drop c else trim_then_step6 sc p (opens_passive sc a p c))

  -- The marked SYN/ACK packet is answered, and nothing is learnt from it.
  abbrev pub echo_mark : Scene D → Conn D → Verdict D
  echo_mark sc c =
      drop (
        sendpacket sc.now c.tcp.t_seqno (rcv_nxt c) (record th_ack { ece = true }) (pos 0) normal c)

  -- The acknowledgment of the SYN: a packet without data answers it.
  unfoldable pub established_now : Scene D → Frame D → Conn D → Conn D
  established_now sc p c =
      let joined = accepted (answers_later p.datalen c) in
      sendpacket sc.now joined.tcp.t_seqno (rcv_nxt joined) th_ack (pos 0) normal joined

  unfoldable pub connected : Scene D → Frame D → Option D → Conn D → Verdict D
  connected sc p none c = halts aborts
  connected sc p (some x) c =
      let opened = record (set_cwnd x c) {
        tcp = record (set_cwnd x c).tcp { highest_ack = p.segment.ackno };
      } in
      trim_then_step6 sc (without_open c.needfin p) (established_now sc p opened)

  -- Both sides opened at once: the SYN is sent again with an acknowledgment.
  abbrev pub crossed : Frame D → Conn D → Conn D
  crossed p c =
      let offer = offered p.segment c in
      set_t_seqno (offer.tcp.t_seqno -ℤ pos 1)
        (newstate syn_received (record offer { acknow = true; rtx_timer = none }))

  unfoldable pub synced : Scene D → Arrival D → Frame D → Conn D → Verdict D
  synced sc a p c =
      if p.tiflags.ack
      then connected sc p (initial_window c.tcp.window) (granted a c)
      else trim_then_step6 sc p (crossed p c)

  unfoldable pub in_syn_sent : Scene D → Arrival D → Frame D → Conn D → Verdict D
  in_syn_sent sc a p c =
      if p.tiflags.ack && (leb_ℤ p.segment.ackno c.iss || ltb_ℤ c.tcp.maxseq p.segment.ackno)
      then dropwithreset sc.now p c
      else (if not p.tiflags.syn
          then drop c
          else (if refuses_mark a p c
              then of_option (echo_mark sc) (set_rtx_timer (sc.timers 0) c)
              else synced sc a p (synchronized p c)))
