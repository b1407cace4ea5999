-- ===== src/Full/Ack.antt =====
-- tcp/tcp-full.cc, what an acknowledgment does: pack, pack_action, newack, predict_ok,
-- fast_retransmit and dupack_action. `now` is the clock, `u` the random number of a timeout.
use tcpincast.Base.{
  ℕ, suc, ◌+◌, ◌-◌, ◌*◌, ◌/◌, ℤ, pos, negsuc, pos_part, negate, ◌+ℤ◌, ◌-ℤ◌, ◌==◌, ltb_ℤ, leb_ℤ,
  eq_ℤ, Bool, true, false, not, ◌&&◌, ◌||◌, if◌then◌else◌, Option, none, some,
}
use tcpincast.Tcp.Double.{Double}
use tcpincast.Tcp.Agent.{
  Action, dupack_taken, is_dupack, is_ecn, close_cwnd_half, close_ssthresh_half,
}
use tcpincast.Tcp.Timer.{rtt_update}
use tcpincast.Tcp.Slowdown.{slow}
use tcpincast.Full.Data.{established, is_state, for_dupack, Segment, Conn, rcv_nxt, ahbytes}
use tcpincast.Full.Plan.{Out}
use tcpincast.Full.Depart.{set_rtx_timer}
use tcpincast.Full.Output.{foutput}

-- `ceil((double)n / m) * m`. The quotient of two `int`s in a double does not round to an integer
-- that it is not, so that this is the arithmetic of the integers; `m` is positive.
unfoldable pub round_up : ℤ → ℕ → ℤ
round_up (pos n) m = pos ((n + m - 1) / m * m)
round_up (negsuc n) m = negate (pos (suc n / m * m))

module _ {D : Type 0} where
  abbrev pub set_action : Action → Conn D → Conn D
  set_action a c = record c {
    tcp = record c.tcp { window = record c.tcp.window { last_cwnd_action = a } };
  }

  abbrev pub set_recover : ℤ → Conn D → Conn D
  set_recover n c = record c { tcp = record c.tcp { recover = n } }

  abbrev pub set_t_seqno : ℤ → Conn D → Conn D
  set_t_seqno n c = record c { tcp = record c.tcp { t_seqno = n } }

  abbrev pub set_cwnd : D → Conn D → Conn D
  set_cwnd x c = record c { tcp = record c.tcp { window = record c.tcp.window { cwnd = x } } }

  -- The first byte of the next whole segment.
  abbrev pub segment_start : Conn D → ℤ
  segment_start c = round_up (c.tcp.highest_ack -ℤ pos 1) (pos_part c.maxseg) +ℤ pos 1

  -- A partial acknowledgment.
  unfoldable pub pack : Segment D → Conn D → Bool
  pack pkt c = c.fastrecov && leb_ℤ c.tcp.highest_ack pkt.ackno && ltb_ℤ pkt.ackno c.tcp.recover

  -- The timer after an acknowledgment of everything, or of something new.
  abbrev pub raise_highest : ℤ → Conn D → Conn D
  raise_highest ackno c =
      if ltb_ℤ c.tcp.highest_ack ackno
      then record c { tcp = record c.tcp { highest_ack = ackno } }
      else c

  -- `t_seqno_` is not below what is acknowledged; a server of a client that holds acknowledgments
  -- goes back to a segment's first byte.
  unfoldable pub catch_up : Conn D → Conn D
  catch_up c = if ltb_ℤ c.tcp.t_seqno c.tcp.highest_ack then set_t_seqno c.tcp.highest_ack c else c

  unfoldable pub go_back : Conn D → Conn D
  go_back c =
      if c.is_ha && ltb_ℤ c.tcp.t_seqno (c.tcp.highest_ack +ℤ ahbytes)
      then set_t_seqno (segment_start c) c
      else c

  unfoldable pub moved_on : ℤ → Conn D → Conn D
  moved_on ackno c = go_back (catch_up (raise_highest ackno c))

  -- The backoff ends, unless an ECN echo holds at a window of one segment. `dc_backoff_` stays.
  unfoldable pub end_backoff : Segment D → Conn D → Conn D
  end_backoff pkt c =
      if not c.ect || not c.tcp.window.ecn_backoff || not pkt.ecnecho
      then record c {
        tcp = record c.tcp {
          rtt = record c.tcp.rtt { t_backoff = 1 };
          window = record c.tcp.window { ecn_backoff = false };
        };
      }
      else c

module _ {D : Type 0} ⦃d : Double D⦄ where
  open d use {of_int, plus, minus, below, at_most}

  unfoldable pub pack_action : Conn D → Conn D
  pack_action c =
      let limit = of_int c.tcp.window.ssthresh in
      let deflates = c.reno_fastrecov && c.fastrecov && below limit c.tcp.window.cwnd in
      record (if deflates then set_cwnd limit c else c) { fastrecov = false; dupacks = pos 0 }

  abbrev pub ack_action : Conn D → Conn D
  ack_action c = pack_action c

  abbrev sample_rtt : D → D → Conn D → Conn D
  sample_rtt now tao c = record c { tcp = record c.tcp { rtt = rtt_update c.tcp.rtt tao now } }

  -- With timestamps every acknowledgment is a sample.
  unfoldable pub take_stamp : D → Segment D → Conn D → Conn D
  take_stamp now pkt c =
      let sampled =
        sample_rtt now (minus now pkt.ts_echo) (record c { recent_age = now; recent = pkt.ts }) in
      if c.tcp.rtt.ts_option
      then (if c.ts_reset_rto then end_backoff pkt sampled else sampled)
      else c

  -- The acknowledgment of the segment that is timed.
  unfoldable pub end_timing : D → Segment D → Conn D → Conn D
  end_timing now pkt c =
      let ended = record (end_backoff pkt c) { rtt_active = false } in
      if c.rtt_active && ltb_ℤ c.rtt_seq pkt.ackno
      then (if c.tcp.rtt.ts_option then ended else sample_rtt now (minus now c.rtt_ts) ended)
      else c

  unfoldable pub measure : D → Segment D → Conn D → Conn D
  measure now pkt c = if pkt.no_ts then c else end_timing now pkt (take_stamp now pkt c)

  unfoldable pub retime : D → ℤ → Conn D → Option (Conn D)
  retime u ackno c =
      if eq_ℤ ackno c.tcp.maxseq
      then some (record c { rtx_timer = none })
      else (if ltb_ℤ c.tcp.highest_ack ackno then set_rtx_timer u c else some c)

  abbrev pub measured : D → Segment D → Option (Conn D) → Option (Conn D)
  measured now pkt none = none
  measured now pkt (some c) = some (measure now pkt (moved_on pkt.ackno c))

  unfoldable pub newack : D → D → Segment D → Conn D → Option (Conn D)
  newack now u pkt c = measured now pkt (retime u pkt.ackno c)

  -- Header prediction: the packet is the next one and asks for nothing unusual.
  unfoldable pub predict_ok : Segment D → Conn D → Bool
  predict_ok pkt c =
      let stamped = not c.tcp.rtt.ts_option || pkt.no_ts || at_most c.recent pkt.ts in
      let plain = not pkt.flags.syn && not pkt.flags.fin && pkt.flags.ack in
      is_state c.state established
      && plain
      && not c.needfin
      && stamped
      && eq_ℤ pkt.seqno (rcv_nxt c)
      && eq_ℤ c.tcp.t_seqno c.tcp.maxseq
      && (not c.ecn || not pkt.ecnecho)
      && pkt.sa_length == 0

  -- The segment at `seq`, or the one that begins where a holding client's data ends.
  unfoldable pub fast_retransmit : D → D → ℤ → Conn D → Option (Out D)
  fast_retransmit now u seq c =
      let target = if c.is_ha then c.tcp.maxseq -ℤ ahbytes else c.tcp.maxseq in
      let noted = set_action dupack_taken (set_recover target c) in
      foutput now u (if c.is_ha then segment_start c else seq) for_dupack noted

  abbrev pub conn_of : Option (Out D) → Option (Conn D)
  conn_of none = none
  conn_of (some o) = some o.conn

  abbrev pub slow_conn : ℕ → Conn D → Conn D
  slow_conn how c = record c { tcp = slow how c.tcp }

  abbrev pub untimed : Conn D → Conn D
  untimed c = record c { rtx_timer = none; rtt_active = false }

  -- `cwnd_ = double(ssthresh_) + double(dupacks_)`.
  abbrev pub inflated : Option (Conn D) → Option (Conn D)
  inflated none = none
  inflated (some c) = some (set_cwnd (plus (of_int c.tcp.window.ssthresh) (of_int c.dupacks)) c)

  abbrev pub full_reno_action : D → D → Conn D → Option (Conn D)
  full_reno_action now u c =
      let cut = untimed (slow_conn (close_ssthresh_half + close_cwnd_half) c) in
      inflated (conn_of (fast_retransmit now u c.tcp.highest_ack (set_recover c.tcp.maxseq cut)))

  unfoldable pub dupack_action : D → D → Conn D → Option (Conn D)
  dupack_action now u c =
      let began = record c { fastrecov = true; rtxbytes = pos 0 } in
      let last = c.tcp.window.last_cwnd_action in
      let may_cut =
        ltb_ℤ c.tcp.recover c.tcp.highest_ack
        || (not c.bug_fix && not c.ecn)
        || is_dupack last
        || eq_ℤ c.tcp.highest_ack (pos 0) in
      if may_cut
      then full_reno_action now u began
      else (if c.ecn && is_ecn last
          then conn_of
              (fast_retransmit now u c.tcp.highest_ack (untimed (slow_conn close_cwnd_half began)))
          else (if c.bug_fix then some began else full_reno_action now u began))
