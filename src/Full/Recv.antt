-- ===== src/Full/Recv.antt =====
-- tcp/tcp-full.cc: `FullTcpAgent::recv`, with header prediction.
use tcpincast.Base.{ℤ, pos, ◌+ℤ◌, ◌-ℤ◌, ltb_ℤ, eq_ℤ, Bool, true, false, not, ◌&&◌, if◌then◌else◌}
use tcpincast.Tcp.Double.{Double}
use tcpincast.Rq.Defs.{empty}
use tcpincast.Full.Data.{State, closed, listen, syn_sent, is_state, Segment, Conn, rcv_nxt}
use tcpincast.Full.Packet.{need_send}
use tcpincast.Full.Ack.{newack, predict_ok}
use tcpincast.Full.Reass.{record_stamp}
use tcpincast.Full.Arrive.{
  Scene, Arrival, Frame, Verdict, runs, drop, of_option, note_ce, tell, dooptions, start_delack,
  dropafterack, sends,
}
use tcpincast.Full.Slow.{slow_path}
use tcpincast.Full.Handshake.{in_listen, in_syn_sent}

module _ {D : Type 0} where
  -- The packet as it comes.
  abbrev pub frame : Segment D → Frame D
  frame pkt = record {
    segment = pkt;
    tiflags = pkt.flags;
    datalen = pkt.size -ℤ pkt.hlen;
    duplicate = false;
  }

  -- The next data, with nothing in the queue: the application is given it.
  unfoldable pub take_predicted : ℤ → Conn D → Conn D
  take_predicted datalen c =
      tell datalen (record c { rq = record c.rq { rcv_nxt = rcv_nxt c +ℤ datalen }; delack = true })

module _ {D : Type 0} ⦃d : Double D⦄ where
  open d use {at_most}

  -- An acknowledgment of something new, but not of everything, that does not open the window.
  unfoldable pub is_plain_ack : Segment D → Conn D → Bool
  is_plain_ack pkt c =
      ltb_ℤ c.tcp.highest_ack pkt.ackno
      && ltb_ℤ pkt.ackno c.tcp.maxseq
      && at_most c.tcp.window.wnd c.tcp.window.cwnd
      && not c.fastrecov

  unfoldable pub fast_ack : Scene D → Segment D → Conn D → Verdict D
  fast_ack sc pkt c = of_option (λ e. runs (sends sc false e)) (newack sc.now (sc.timers 0) pkt c)

  unfoldable pub fast_data : Scene D → ℤ → Conn D → Verdict D
  fast_data sc datalen c =
      let taken = take_predicted datalen c in
      if need_send taken then runs (sends sc true taken) else drop taken

  -- Header prediction, where the packet is the expected one; else the slow path is taken.
  unfoldable pub predicted : Scene D → Arrival D → Frame D → Conn D → Verdict D
  predicted sc a p c =
      let noted = note_ce a (record_stamp sc.now p.segment c) in
      if eq_ℤ p.datalen (pos 0)
      then (if is_plain_ack p.segment noted
          then fast_ack sc p.segment noted
          else slow_path sc a p noted)
      else (if eq_ℤ p.segment.ackno noted.tcp.highest_ack && empty noted.rq
          then fast_data sc p.datalen noted
          else slow_path sc a p noted)

  -- The first switch.
  unfoldable pub dispatched : Scene D → Arrival D → Frame D → State → Conn D → Verdict D
  dispatched sc a p listen c = in_listen sc a p c
  dispatched sc a p syn_sent c = in_syn_sent sc a p c
  dispatched sc a p s c = slow_path sc a p c

  unfoldable pub not_closed : Scene D → Arrival D → Conn D → Verdict D
  not_closed sc a c =
      let opted = if is_state c.state listen then c else dooptions sc.now a.segment c in
      let ready = start_delack sc.now opted in
      if not ready.nopredict && predict_ok a.segment ready
      then predicted sc a (frame a.segment) ready
      else dispatched sc a (frame a.segment) ready.state ready

  -- A closed connection answers a FIN, and hears nothing else.
  unfoldable pub recv : Scene D → Arrival D → Conn D → Verdict D
  recv sc a c =
      let begun = record c { last_state = c.state } in
      if is_state c.state closed
      then (if a.segment.flags.fin then dropafterack sc begun else drop begun)
      else not_closed sc a begun
