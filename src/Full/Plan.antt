-- ===== src/Full/Plan.antt =====
-- tcp/tcp-full.cc, `foutput` up to its label `send`: how much may be sent and whether it is worth it.
use tcpincast.Base.{
  ℤ, pos, ◌+ℤ◌, ◌-ℤ◌, ◌*ℤ◌, ltb_ℤ, eq_ℤ, min_ℤ, Bool, false, not, ◌&&◌, ◌||◌, if◌then◌else◌, ◌∷◌,
}
use tcpincast.Tcp.Double.{Double}
use tcpincast.Tcp.Agent.{close_cwnd_init}
use tcpincast.Tcp.Timer.{of_nat}
use tcpincast.Tcp.Open.{window}
use tcpincast.Tcp.Slowdown.{slow}
use tcpincast.Full.Data.{Flags, Reason, Conn, tcp_maxseq, idle, bufferempty}
use tcpincast.Full.Packet.{outflags, headersize, need_send}

-- What `foutput` has settled when it comes to the label `send`.
pub record Plan : Type 0 where
  pub seqno : ℤ
  pub reason : Reason
  pub datalen : ℤ
  pub is_retransmit : Bool
  pub quiet : Bool
  pub emptying : Bool
  pub pflags : Flags

-- The connection after a call that may send, and the sequence numbers that it sent.
pub record Out (D : Type 0) : Type 0 where
  pub conn : Conn D
  pub amount : ℤ

unfoldable pub clamp : ℤ → ℤ → ℤ
clamp maxseg n = if ltb_ℤ n (pos 0) then pos 0 else (if ltb_ℤ maxseg n then maxseg else n)

module _ {D : Type 0} where
  -- The bytes that the application has given and that are not acknowledged.
  unfoldable pub buffered_bytes : Conn D → ℤ
  buffered_bytes c =
      if c.infinite_send
      then tcp_maxseq
      else (if ltb_ℤ c.tcp.highest_ack (pos 0)
          then c.curseq -ℤ c.iss
          else c.curseq -ℤ c.tcp.highest_ack +ℤ pos 1)

  unfoldable pub offset : Conn D → ℤ → ℤ
  offset c seqno =
      if ltb_ℤ c.tcp.highest_ack (pos 0) then seqno -ℤ c.iss else seqno -ℤ c.tcp.highest_ack

  -- A server of a client that holds acknowledgments sends whole segments.
  unfoldable pub roll_up : Conn D → ℤ → ℤ → ℤ
  roll_up c seqno n =
      if c.is_ha
        && ltb_ℤ n c.maxseg
        && not (eq_ℤ n (pos 0))
        && ltb_ℤ c.maxseg (buffered_bytes c -ℤ offset c seqno)
      then c.maxseg
      else n

  -- The flags of the state, with PUSH where the buffer is emptied and without FIN where it is not.
  unfoldable pub planned_flags : Conn D → Bool → Bool → Flags
  planned_flags c emptying bare_syn =
      let base = outflags c.state in
      record base { push = emptying || (c.infinite_send && bare_syn); fin = emptying && base.fin }

module _ {D : Type 0} ⦃d : Double D⦄ where
  open d use {of_int, minus, plus, times, over, below, at_most, fmod, to_int}

  unfoldable pub set_maxseg : Conn D → Conn D
  set_maxseg c =
      if eq_ℤ c.maxseg (pos 0)
      then record c { maxseg = c.tcp.window.size -ℤ headersize c }
      else record c {
        tcp = record c.tcp { window = record c.tcp.window { size = c.maxseg +ℤ headersize c } };
      }

  -- `datalen`, from what is buffered, the window and where the segment begins.
  unfoldable pub data_length : Conn D → ℤ → ℤ
  data_length c seqno =
      let room =
        if c.pipectrl
        then buffered_bytes c
        else min_ℤ (buffered_bytes c) (window c.tcp *ℤ c.maxseg) in
      if eq_ℤ seqno c.iss && not c.data_on_syn
      then pos 0
      else roll_up c seqno (clamp c.maxseg (room -ℤ offset c seqno))

  -- Whether the connection was idle for more than a timeout.
  unfoldable pub idle_restart : D → Conn D → Bool
  idle_restart now c =
      let r = c.tcp.rtt in
      let tao = minus now c.last_send_time in
      let tickoff = fmod (plus c.last_send_time r.boot_time) r.tick in
      let rounded = times (of_int (to_int (over (plus tao tickoff) r.tick))) r.tick in
      if below c.last_send_time (of_int (pos 0))
      then false
      else below r.t_rtxcur (if r.ts_option then tao else rounded)

  -- The application hears of an empty buffer; the window of an idle connection starts over.
  unfoldable pub tell_empty : ℤ → Conn D → Conn D
  tell_empty seqno c =
      if c.signal_on_empty && eq_ℤ (buffered_bytes c) (pos 0) && not (eq_ℤ seqno c.iss)
      then record c { signal_on_empty = false; notices = bufferempty ∷ c.notices }
      else c

  unfoldable pub restart : D → Plan → Conn D → Conn D
  restart now plan c =
      if c.slow_start_restart && plan.quiet && ltb_ℤ (pos 0) plan.datalen && idle_restart now c
      then record c { tcp = slow close_cwnd_init c.tcp }
      else c

  unfoldable pub tell_idle : Plan → Conn D → Conn D
  tell_idle plan c =
      if plan.emptying && not (eq_ℤ plan.seqno c.iss)
      then record c {
        notices = idle ∷ c.notices;
        needclose = c.needclose || (c.close_on_empty && plan.quiet);
      }
      else c

  unfoldable pub planned : ℤ → Reason → Conn D → Plan
  planned seqno reason c =
      let n = data_length c seqno in
      let bare_syn = eq_ℤ seqno c.iss && eq_ℤ n (pos 0) in
      let emptying = not c.infinite_send && (ltb_ℤ c.curseq (seqno +ℤ n) || bare_syn) in
      record {
        seqno = seqno;
        reason = reason;
        datalen = n;
        is_retransmit = ltb_ℤ seqno c.tcp.maxseq;
        quiet = eq_ℤ c.tcp.highest_ack c.tcp.maxseq;
        emptying = emptying;
        pflags = planned_flags c emptying bare_syn;
      }

  -- The sender's silly window avoidance, and the duty to answer.
  unfoldable pub worth_sending : Plan → Conn D → Bool
  worth_sending plan c =
      let n = plan.datalen in
      (ltb_ℤ (pos 0) n
        && (eq_ℤ n c.maxseg
            || ((plan.quiet || c.nodelay) && plan.emptying)
            || (plan.is_retransmit && not c.is_ha)
            || at_most (over (times c.tcp.window.wnd (of_int c.maxseg)) (of_nat 2)) (of_int n)))
      || need_send c
      || c.acknow
      || c.needclose
      || plan.pflags.syn
      || plan.pflags.fin
