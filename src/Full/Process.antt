-- ===== src/Full/Process.antt =====
-- tcp/tcp-full.cc, `recv`: the processing of an acknowledgment, from the case ESTABLISHED of the second
-- switch on, with its label `process_ACK`.
use tcpincast.Base.{
  ◌+◌, ℤ, pos, ◌+ℤ◌, ◌-ℤ◌, ltb_ℤ, leb_ℤ, eq_ℤ, Bool, false, not, ◌&&◌, ◌||◌, leb, if◌then◌else◌,
  Option, none, some, ◌∷◌,
}
use tcpincast.Tcp.Double.{Double}
use tcpincast.Tcp.Agent.{Window}
use tcpincast.Tcp.Timer.{of_nat}
use tcpincast.Tcp.Open.{opencwnd}
use tcpincast.Tcp.Slowdown.{ecn}
use tcpincast.Rq.Coalesce.{aborts}
use tcpincast.Full.Data.{
  State, closed, established, fin_wait_1, closing, last_ack, fin_wait_2, number, is_state,
  is_pending, for_dupack, finish, Segment, Conn, rcv_nxt,
}
use tcpincast.Full.Depart.{set_rtx_timer}
use tcpincast.Full.Send.{newstate, cancel_timers, send_much}
use tcpincast.Full.Ack.{pack, pack_action, ack_action, newack, dupack_action}
use tcpincast.Full.Timers.{timeout_action}
use tcpincast.Full.Reset.{reset}
use tcpincast.Full.Arrive.{
  Scene, Arrival, Frame, Verdict, runs, halts, drop, of_option, note_ce, oldack, extra_ack,
  dropafterack, step6,
}

module _ {D : Type 0} where
  abbrev pub set_window : Window D → Conn D → Conn D
  set_window w c = record c { tcp = record c.tcp { window = w } }

  -- A packet that left the network.
  unfoldable pub note_left : ℤ → Segment D → Conn D → Conn D
  note_left datalen pkt c =
      if c.fastrecov && (eq_ℤ datalen (pos 0) || ltb_ℤ c.tcp.highest_ack pkt.ackno)
      then record c { pipe = c.pipe -ℤ c.maxseg }
      else c

  -- The peer acknowledges one byte: a client that holds acknowledgments asks to send again.
  unfoldable pub is_request : Frame D → Conn D → Bool
  is_request p c =
      c.is_ha
      && leb 4 (number c.state)
      && eq_ℤ p.datalen (pos 0)
      && eq_ℤ p.segment.ackno (c.tcp.highest_ack +ℤ pos 1)
      && not p.tiflags.fin
      && not p.tiflags.syn

  abbrev pub count_request : Conn D → Conn D
  count_request c = record c { nrexmit = c.nrexmit + 1 }

  -- An old acknowledgment comes with data.
  unfoldable pub with_data : Conn D → Conn D
  with_data c = if c.dupack_reset then record c { dupacks = pos 0; fastrecov = false } else c

  -- Whether the acknowledgment may open the window.
  unfoldable pub may_open : Bool → Segment D → Conn D → Bool
  may_open partial pkt c =
      (not c.tcp.window.delay_growth || ltb_ℤ (pos 0) (rcv_nxt c))
      && is_state c.last_state established
      && (not partial || c.open_cwnd_on_pack)
      && (not c.ect || not pkt.ecnecho)

  -- The FIN of this side is acknowledged.
  unfoldable pub fin_acked : ℤ → Conn D → Bool
  fin_acked ackno c = leb 6 (number c.state) && eq_ℤ ackno c.tcp.maxseq

module _ {D : Type 0} ⦃d : Double D⦄ where
  open d use {below}

  abbrev pub reused : Option (Conn D) → Verdict D
  reused none = halts aborts
  reused (some c) = drop c

  -- The states of a connection that closes, after its FIN is acknowledged.
  unfoldable pub on_closing : Scene D → Frame D → Bool → State → Conn D → Verdict D
  on_closing sc p needoutput fin_wait_1 c = step6 sc p false (cancel_timers (newstate fin_wait_2 c))
  on_closing sc p needoutput closing c = step6 sc p needoutput (cancel_timers (newstate closed c))
  on_closing sc p needoutput last_ack c =
      reused (reset sc.boot (record (newstate closed c) { notices = finish ∷ c.notices }))
  on_closing sc p needoutput s c = step6 sc p needoutput c

  unfoldable pub acked_fin : Scene D → Frame D → Conn D → Verdict D
  acked_fin sc p c =
      let needoutput = eq_ℤ p.segment.ackno c.tcp.maxseq in
      if fin_acked p.segment.ackno c
      then on_closing sc p needoutput c.state c
      else step6 sc p needoutput c

  abbrev pub opened : Scene D → Frame D → Conn D → Option (Window D) → Verdict D
  opened sc p c none = halts aborts
  opened sc p c (some w) = acked_fin sc p (set_window w c)

  -- After the ECN echo. The first test asks for a number that `newack` has made too high.
  unfoldable pub after_echo : Scene D → Frame D → Bool → Conn D → Verdict D
  after_echo sc p partial c =
      let needoutput = eq_ℤ p.segment.ackno c.tcp.maxseq in
      if eq_ℤ p.segment.ackno (c.tcp.highest_ack +ℤ pos 1)
      then step6 sc p needoutput c
      else (if may_open partial p.segment c
          then opened sc p c (opencwnd c.tcp.window c.tcp.rtt)
          else acked_fin sc p c)

  unfoldable pub echoed : D → Frame D → Conn D → Option (Conn D)
  echoed u p c =
      let cut = record c { tcp = ecn c.tcp.highest_ack c.tcp } in
      if p.segment.ecnecho && not p.tiflags.syn
      then (if below cut.tcp.window.cwnd (of_nat 1) then set_rtx_timer u cut else some cut)
      else some c

  abbrev pub settled : Segment D → Conn D → Conn D
  settled pkt c = if pack pkt c then pack_action c else ack_action c

  unfoldable pub acknowledged : Scene D → Frame D → Conn D → Verdict D
  acknowledged sc p c =
      of_option (after_echo sc p (pack p.segment c)) (echoed (sc.timers 1) p (settled p.segment c))

  -- From the label `process_ACK` on.
  unfoldable pub process_ack : Scene D → Frame D → Conn D → Verdict D
  process_ack sc p c =
      if ltb_ℤ c.tcp.maxseq p.segment.ackno
      then dropafterack sc c
      else of_option (acknowledged sc p) (newack sc.now (sc.timers 0) p.segment c)

  -- The retransmission that the peer asks for: `rtxreq_action`.
  unfoldable pub rtxreq_action : Scene D → Conn D → Verdict D
  rtxreq_action sc c =
      runs (timeout_action sc.fuel sc.now (sc.timers 0) sc.draws sc.wait (count_request c))

  -- An acknowledgment of nothing new.
  unfoldable pub old_ack : Scene D → Frame D → Conn D → Verdict D
  old_ack sc p c =
      let counted = record c { dupacks = c.dupacks +ℤ pos 1 } in
      if eq_ℤ p.datalen (pos 0) && (not c.dupseg_fix || not p.duplicate)
      then (if not (is_pending c.rtx_timer) || ltb_ℤ p.segment.ackno c.tcp.highest_ack
          then step6 sc p false (oldack c)
          else (if eq_ℤ counted.dupacks c.tcprexmtthresh
              then of_option drop (dupack_action sc.now (sc.timers 0) counted)
              else (if ltb_ℤ c.tcprexmtthresh counted.dupacks
                  then runs (
                      send_much sc.fuel sc.now sc.draws sc.wait false for_dupack c.maxburst
                        (extra_ack counted))
                  else step6 sc p false counted)))
      else step6 sc p false (with_data c)

  -- The cases ESTABLISHED to LAST_ACK. What `process_sack` does here is a warning.
  unfoldable pub take_ack : Scene D → Arrival D → Frame D → Conn D → Verdict D
  take_ack sc a p c =
      let noted = note_left p.datalen p.segment (note_ce a c) in
      let asked = record noted { tcp = record noted.tcp { highest_ack = p.segment.ackno } } in
      if p.segment.rtxreq_option
      then rtxreq_action sc noted
      else (if is_request p noted
          then rtxreq_action sc asked
          else (if leb_ℤ p.segment.ackno c.tcp.highest_ack
              then old_ack sc p noted
              else process_ack sc p noted))
