-- ===== src/Full/Depart.antt =====
-- tcp/tcp-full.cc, `foutput` from its label `send` on: the packet and the state that it leaves.
use tcpincast.Base.{
  ℤ, pos, ◌+ℤ◌, ltb_ℤ, eq_ℤ, Bool, true, false, not, ◌&&◌, ◌||◌, if◌then◌else◌, Option, none, some,
}
use tcpincast.Tcp.Double.{Double}
use tcpincast.Tcp.Timer.{Rto, rtt_timeout}
use tcpincast.Full.Data.{opens, is_pending, Flags, Conn, fin_wait_1}
use tcpincast.Full.Packet.{sendpacket, ack_to_send}
use tcpincast.Full.Plan.{Plan, Out}

abbrev pub one_if : Bool → ℤ
one_if b = if b then pos 1 else pos 0

-- `datalen + syn + fin`.
unfoldable pub reliable : Flags → Plan → ℤ
reliable p plan = plan.datalen +ℤ one_if p.syn +ℤ one_if p.fin

module _ {D : Type 0} where
  -- The ECN bits, and whether CWR was set for a reaction that is not reported yet.
  unfoldable pub reports : Conn D → Flags → Bool → Bool
  reports c p is_retransmit =
      not (c.ecn && p.syn && p.ack)
      && c.ecn
      && c.ect
      && c.tcp.window.cong_action
      && (not is_retransmit || c.set_cwr_on_retransmit)

  unfoldable pub ecn_flags : Conn D → Flags → Bool → Flags
  ecn_flags c p is_retransmit =
      if c.ecn && p.syn
      then record p { ece = true; cwr = not p.ack || reports c p is_retransmit }
      else record p { cwr = p.cwr || reports c p is_retransmit }

  abbrev pub set_cong_action : Bool → Conn D → Conn D
  set_cong_action b c = record c {
    tcp = record c.tcp { window = record c.tcp.window { cong_action = b } };
  }

  -- `TF_NEEDCLOSE`: the FIN goes with the data.
  abbrev pub closes_now : Conn D → Bool
  closes_now c = c.needclose && opens c.state

  -- The flags of the packet, at the label `send`.
  unfoldable pub final_flags : Conn D → Plan → Flags
  final_flags c plan =
      let p = ecn_flags c plan.pflags plan.is_retransmit in
      let pending = c.tcp.window.cong_action && not (reports c plan.pflags plan.is_retransmit) in
      record p {
        cwr = p.cwr || (ltb_ℤ (pos 0) plan.datalen && pending && not plan.is_retransmit);
        ece = p.ece || (c.ecn && c.ect && c.recent_ce);
        fin = p.fin || closes_now c;
      }

  -- What changes before the packet is built.
  unfoldable pub prepared : Conn D → Plan → Conn D
  prepared c plan =
      let next = if closes_now c then fin_wait_1 else c.state in
      let pending = c.tcp.window.cong_action && not (reports c plan.pflags plan.is_retransmit) in
      record (set_cong_action pending c) { needclose = false; state = next }

  -- The report of a cut is over once new data went out.
  unfoldable pub settle_report : ℤ → Plan → Conn D → Conn D
  settle_report amount plan c =
      if c.tcp.window.cong_action && ltb_ℤ (pos 0) amount && not plan.is_retransmit
      then set_cong_action false c
      else c

  -- `maxseq_`, and the segment that is timed.
  unfoldable pub advance_maxseq : D → ℤ → ℤ → Conn D → Conn D
  advance_maxseq now seqno amount c =
      let timed = not c.tcp.rtt.ts_option && not c.rtt_active in
      if ltb_ℤ c.tcp.maxseq (seqno +ℤ amount)
      then record c {
        tcp = record c.tcp { maxseq = seqno +ℤ amount };
        rtt_active = c.rtt_active || timed;
        rtt_seq = if timed then seqno else c.rtt_seq;
        rtt_ts = if timed then now else c.rtt_ts;
      }
      else c

module _ {D : Type 0} ⦃d : Double D⦄ where
  abbrev started : Conn D → Option (Rto D) → Option (Conn D)
  started c none = none
  started c (some t) =
      some (record c { tcp = record c.tcp { rtt = t.after }; rtx_timer = some t.rto })

  unfoldable pub set_rtx_timer : D → Conn D → Option (Conn D)
  set_rtx_timer u c = started c (rtt_timeout c.tcp.rtt u)

  abbrev pub amount_of : ℤ → Option (Conn D) → Option (Out D)
  amount_of n none = none
  amount_of n (some c) = some (record { conn = c; amount = n })

  -- The retransmission timer runs while something is out.
  unfoldable pub watch : D → ℤ → Conn D → Option (Out D)
  watch u amount c = amount_of amount (
      if not (is_pending c.rtx_timer) && not (eq_ℤ amount (pos 0))
      then set_rtx_timer u c
      else some c)

  -- The packet goes out.
  unfoldable pub emitted : D → Plan → Conn D → Conn D
  emitted now plan c =
      let p = final_flags c plan in
      let ready = prepared c plan in
      record (sendpacket now plan.seqno (ack_to_send ready p.syn p.fin) p plan.datalen plan.reason
        ready) { acknow = false; delack = false }

  -- From the label `send` on.
  unfoldable pub depart : D → D → Plan → Conn D → Option (Out D)
  depart now u plan c =
      let amount = reliable (final_flags c plan) plan in
      watch u amount
        (advance_maxseq now plan.seqno amount (settle_report amount plan (emitted now plan c)))
