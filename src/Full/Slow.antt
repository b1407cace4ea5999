-- ===== src/Full/Slow.antt =====
-- tcp/tcp-full.cc, `recv` in the states other than LISTEN and SYN_SENT: the timestamp's age, the data
-- that came before, the flags, and the case SYN_RECEIVED of the second switch.
use mathlib.Core.Option
use tcpincast.Base.{
  ℕ, ltb_ℤ, Bool, true, false, not, ◌&&◌, ◌||◌, ◌==◌, ltb, if◌then◌else◌, Option, none, some,
}
use tcpincast.Tcp.Double.{Double}
use tcpincast.Tcp.Timer.{of_nat}
use tcpincast.Tcp.Open.{initial_window}
use tcpincast.Rq.Coalesce.{aborts}
use tcpincast.Full.Data.{
  State, closed, listen, syn_sent, syn_received, established, fin_wait_1, last_ack, is_state,
  normal, Segment, Conn,
}
use tcpincast.Full.Plan.{Out}
use tcpincast.Full.Output.{foutput}
use tcpincast.Full.Send.{exits, newstate}
use tcpincast.Full.Ack.{set_cwnd}
use tcpincast.Full.Reass.{Trimmed, trim_duplicate, answer_duplicate, record_stamp}
use tcpincast.Full.Arrive.{
  Scene, Arrival, Frame, Verdict, runs, halts, drop, dropafterack, dropwithreset, step6,
}
use tcpincast.Full.Process.{take_ack}

-- `TCP_PAWS_IDLE`.
abbrev pub tcp_paws_idle : ℕ
tcp_paws_idle = 2073600

module _ {D : Type 0} where
  abbrev pub frame_of : Trimmed D → Frame D
  frame_of t = record {
    segment = t.segment;
    tiflags = t.tiflags;
    datalen = t.datalen;
    duplicate = t.duplicate;
  }

  -- The three-way handshake is over; a close that the application asked for is under way.
  unfoldable pub accepted : Conn D → Conn D
  accepted c =
      if c.needfin
      then newstate fin_wait_1 (record c { needfin = false })
      else newstate established c

  -- The SYN/ACK packet was marked.
  unfoldable pub is_marked : Segment D → Conn D → Bool
  is_marked pkt c = c.ecn && c.ect && c.ecn_syn && pkt.ecnecho

module _ {D : Type 0} ⦃d : Double D⦄ where
  open d use {minus, below, equal}

  -- A timestamp before the one that is echoed, and whether that one is too old to count.
  unfoldable pub is_stale : Segment D → Conn D → Bool
  is_stale pkt c =
      c.tcp.rtt.ts_option
      && not pkt.no_ts
      && not (equal c.recent (of_nat 0))
      && below pkt.ts c.recent

  unfoldable pub outdated : D → Conn D → Bool
  outdated now c = below (of_nat tcp_paws_idle) (minus now c.recent_age)

  -- The window of a passive opener.
  unfoldable pub first_window : Segment D → Conn D → Option (Conn D)
  first_window pkt c =
      if is_marked pkt c && ltb c.ecn_syn_wait 2
      then some (
          if c.ecn_syn_wait == 1
          then record (set_cwnd (of_nat 1) c) {
            tcp = record (set_cwnd (of_nat 1) c).tcp { rtt = record c.tcp.rtt { use_rtt = true } };
          }
          else set_cwnd (of_nat 2) c)
      else Option.map (λ x. set_cwnd x c) (initial_window c.tcp.window)

  abbrev pub one_packet : Conn D → Conn D
  one_packet c = record c {
    tcp = record c.tcp {
      window = record c.tcp.window { wnd_init_option = 1; wnd_init = of_nat 1 };
    };
  }

  abbrev pub retried : Option (Out D) → Verdict D
  retried none = runs exits
  retried (some o) = drop (one_packet o.conn)

  -- The marked SYN/ACK packet is sent again, without the mark.
  unfoldable pub retry_syn : Scene D → Conn D → Verdict D
  retry_syn sc c = retried (
      foutput sc.now (sc.timers 0) c.iss normal
        (record c { rtx_timer = none; ecn_syn_next = false }))

  abbrev pub entered : Scene D → Arrival D → Frame D → Option (Conn D) → Verdict D
  entered sc a p none = halts aborts
  entered sc a p (some c) = take_ack sc a p (accepted c)

  -- The acknowledgment of the SYN/ACK packet.
  unfoldable pub complete : Scene D → Arrival D → Frame D → Conn D → Verdict D
  complete sc a p c =
      if ltb_ℤ p.segment.ackno c.tcp.highest_ack || ltb_ℤ c.tcp.maxseq p.segment.ackno
      then dropwithreset sc.now p c
      else (if is_marked p.segment c && c.ecn_syn_wait == 2
          then retry_syn sc c
          else entered sc a p (first_window p.segment c))

  -- The second switch.
  unfoldable pub by_state : Scene D → Arrival D → Frame D → State → Conn D → Verdict D
  by_state sc a p syn_received c = complete sc a p c
  by_state sc a p closed c = step6 sc p false c
  by_state sc a p listen c = step6 sc p false c
  by_state sc a p syn_sent c = step6 sc p false c
  by_state sc a p s c = take_ack sc a p c

  -- The flags of what is left of the packet.
  unfoldable pub on_flags : Scene D → Arrival D → Frame D → Conn D → Verdict D
  on_flags sc a p c =
      if p.tiflags.syn
      then dropwithreset sc.now p c
      else (if p.tiflags.ack then by_state sc a p c.state c else drop c)

  unfoldable pub trimmed : Scene D → Arrival D → Trimmed D → Conn D → Verdict D
  trimmed sc a t c =
      on_flags sc a (frame_of t) (record_stamp sc.now t.segment (answer_duplicate t c))

  unfoldable pub in_window : Scene D → Arrival D → Frame D → Conn D → Verdict D
  in_window sc a p c = trimmed sc a (trim_duplicate p.segment p.tiflags p.datalen c) c

  unfoldable pub slow_path : Scene D → Arrival D → Frame D → Conn D → Verdict D
  slow_path sc a p c =
      if is_state c.state last_ack && p.tiflags.fin
      then drop c
      else (if is_stale p.segment c
          then (if outdated sc.now c
              then in_window sc a p (record c { recent = of_nat 0 })
              else dropafterack sc c)
          else in_window sc a p c)
