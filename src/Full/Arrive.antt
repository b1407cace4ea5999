-- ===== src/Full/Arrive.antt =====
-- tcp/tcp-full.cc, `recv`: what a packet brings, how the call ends, dooptions, oldack, extra_ack, and
-- the labels `step6`, `dropafterack` and `dropwithreset`.
use tcpincast.Base.{
  ℕ, ℤ, pos, ◌+ℤ◌, ◌-ℤ◌, leb_ℤ, eq_ℤ, Bool, true, false, not, ◌&&◌, ◌||◌, if◌then◌else◌, Option,
  none, some, ◌∷◌,
}
use tcpincast.Tcp.Double.{Double}
use tcpincast.Tcp.Timer.{of_nat}
use tcpincast.Rq.Coalesce.{Outcome}
use tcpincast.Full.Data.{
  closed, close_wait, is_state, is_pending, Flags, normal, Segment, received, finish, Conn,
}
use tcpincast.Full.Packet.{no_flags, th_ack, sendpacket}
use tcpincast.Full.Send.{Run, done, exits, out_of_fuel, send_much, usrclosed}
use tcpincast.Full.Ack.{set_cwnd}
use tcpincast.Full.Reass.{Took, took, stops, take_data, take_fin}

-- A packet that arrives, with the bits of its flags header that FullTcpAgent does not set, and its
-- flow identifier.
pub record Arrival (D : Type 0) : Type 0 where
  pub segment : Segment D
  pub ce : Bool
  pub cwr : Bool
  pub flowid : ℤ

-- The surroundings of a call: the clock, passes for the loops, and the random numbers. `timers i` is
-- for the i-th timer that is set outside of `send_much`; `draws` and `wait` are for `send_much`, and
-- `close_draws` and `last_wait` for that of `usrclosed`.
pub record Scene (D : Type 0) : Type 0 where
  pub fuel : ℕ
  pub now : D
  pub boot : D
  pub timers : ℕ → D
  pub draws : ℕ → D
  pub wait : D
  pub close_draws : ℕ → D
  pub last_wait : D

-- A packet on its way through `recv`: with its front cut off, the flags that still count, the length
-- of its data, and whether all of it was duplicate.
pub record Frame (D : Type 0) : Type 0 where
  pub segment : Segment D
  pub tiflags : Flags
  pub datalen : ℤ
  pub duplicate : Bool

-- How `recv` ends: like a call that sends, or where the queue or `abort()` stops the program.
pub data Verdict (D : Type 0) : Type 0 where
  runs : Run D → Verdict D
  halts : Outcome → Verdict D

module _ {D : Type 0} where
  -- A packet is dropped, or its processing is over.
  abbrev pub drop : Conn D → Verdict D
  drop c = runs (done c)

  abbrev pub and_then : Run D → (Conn D → Run D) → Run D
  and_then (done c) f = f c
  and_then exits f = exits
  and_then out_of_fuel f = out_of_fuel

  abbrev pub of_option : (Conn D → Verdict D) → Option (Conn D) → Verdict D
  of_option f none = runs exits
  of_option f (some c) = f c

  -- `recvBytes`.
  unfoldable pub tell : ℤ → Conn D → Conn D
  tell n c = if eq_ℤ n (pos 0) then c else record c { notices = received n ∷ c.notices }

  -- ECN echoes go on until the peer reports its cut.
  unfoldable pub note_ce : Arrival D → Conn D → Conn D
  note_ce a c =
      if c.ecn && a.ce && a.segment.ect
      then record c { recent_ce = true }
      else (if c.ecn && a.cwr then record c { recent_ce = false } else c)

  abbrev pub oldack : Conn D → Conn D
  oldack c = record c { dupacks = pos 0 }

  abbrev pub tell_done : Conn D → Conn D
  tell_done c = if is_state c.state closed then record c { notices = finish ∷ c.notices } else c

module _ {D : Type 0} ⦃d : Double D⦄ where
  open d use {of_int, to_int, plus, minus, times, over, below}

  unfoldable pub extra_ack : Conn D → Conn D
  extra_ack c = if c.reno_fastrecov then set_cwnd (plus c.tcp.window.cwnd (of_nat 1)) c else c

  -- The timestamp of a SYN; -1 is that of a peer without the option.
  unfoldable pub dooptions : D → Segment D → Conn D → Conn D
  dooptions now pkt c =
      if c.tcp.rtt.ts_option && not pkt.no_ts && not (below pkt.ts (of_nat 0)) && pkt.flags.syn
      then record c { recent = pkt.ts; recent_age = now }
      else c

  -- The timer of delayed acknowledgments fires at multiples of its interval.
  unfoldable pub start_delack : D → Conn D → Conn D
  start_delack now c =
      let last = of_int (to_int (over now c.delack_interval)) in
      if below (of_nat 0) c.delack_interval && not (is_pending c.delack_timer)
      then record c {
        delack_timer = some (minus (times c.delack_interval (plus last (of_nat 1))) now);
      }
      else c

  abbrev pub sends : Scene D → Bool → Conn D → Run D
  sends sc force c = send_much sc.fuel sc.now sc.draws sc.wait force normal c.maxburst c

  unfoldable pub dropafterack : Scene D → Conn D → Verdict D
  dropafterack sc c = runs (sends sc true (record c { acknow = true }))

  -- There are no RST packets: an acknowledgment, or a packet without flags, is sent in its place.
  unfoldable pub dropwithreset : D → Frame D → Conn D → Verdict D
  dropwithreset now p c =
      let next = p.segment.seqno +ℤ p.datalen in
      if p.tiflags.ack
      then drop (sendpacket now p.segment.ackno (pos 0) no_flags (pos 0) normal c)
      else drop (
          sendpacket now (pos 0) (if p.tiflags.syn then next -ℤ pos 1 else next) th_ack (pos 0)
            normal c)

  -- What is sent in the end.
  unfoldable pub answered : Scene D → Bool → Conn D → Run D
  answered sc needoutput c =
      if needoutput || c.acknow
      then sends sc true c
      else (if leb_ℤ c.tcp.highest_ack c.curseq || c.infinite_send
          then sends sc false c
          else done c)

  -- A passive closer closes once all that it sent is acknowledged.
  unfoldable pub closes : Scene D → Conn D → Run D
  closes sc c =
      if not c.halfclose && is_state c.state close_wait && eq_ℤ c.tcp.highest_ack c.tcp.maxseq
      then usrclosed sc.fuel sc.now sc.close_draws sc.last_wait c
      else done c

  unfoldable pub ended : Scene D → Bool → Conn D → Run D
  ended sc needoutput c =
      and_then (and_then (answered sc needoutput c) (closes sc)) (λ e. done (tell_done e))

  unfoldable pub after_data : Scene D → Took D → Verdict D
  after_data sc (stops o) = halts o
  after_data sc (took t) = runs (ended sc t.needoutput (take_fin t.fin (tell t.delivered t.conn)))

  -- From the label `step6` on.
  unfoldable pub step6 : Scene D → Frame D → Bool → Conn D → Verdict D
  step6 sc p needoutput c = after_data sc (take_data p.segment p.tiflags p.datalen needoutput c)
