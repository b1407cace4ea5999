-- ===== src/Full/Packet.antt =====
-- tcp/tcp-full.cc, one packet: outflags, headersize, build_options, sendpacket, need_send, the number
-- that an acknowledgment carries, and request_retransmission. `now` is the scheduler's clock.
use tcpincast.Base.{
  ◌+◌, ℤ, pos, minus_one, ◌+ℤ◌, ◌-ℤ◌, ◌*ℤ◌, ltb_ℤ, leb_ℤ, Bool, true, false, not, ◌&&◌, ◌||◌,
  if◌then◌else◌, ◌∷◌,
}
use tcpincast.Tcp.Double.{Double}
use tcpincast.Full.Data.{
  State, closed, listen, syn_sent, syn_received, fin_wait_1, closing, last_ack, Flags, Reason,
  for_ha, for_rtxreq, is_retransmission, is_rtxreq, is_holding, Segment, Conn, rcv_nxt, ahbytes,
}

abbrev pub no_flags : Flags
no_flags = record { fin = false; syn = false; push = false; ack = false; ece = false; cwr = false }

abbrev pub th_ack : Flags
th_ack = record no_flags { ack = true }

-- The table `tcp_outflags`.
unfoldable pub outflags : State → Flags
outflags closed = th_ack
outflags listen = no_flags
outflags syn_sent = record no_flags { syn = true }
outflags syn_received = record no_flags { syn = true; ack = true }
outflags fin_wait_1 = record no_flags { fin = true; ack = true }
outflags closing = record no_flags { fin = true; ack = true }
outflags last_ack = record no_flags { fin = true; ack = true }
outflags _ = th_ack

-- The timestamps of a header and what they add to its length.
pub record Stamps (D : Type 0) : Type 0 where
  pub ts : D
  pub ts_echo : D
  pub length : ℤ

module _ {D : Type 0} where
  -- What `foutput` acknowledges: while a client that holds acknowledgments lacks bytes of the unit
  -- it asked for, `AHBYTES` less than it has, but no less than it acknowledged before.
  unfoldable pub ack_to_send : Conn D → Bool → Bool → ℤ
  ack_to_send c syn fin =
      let held = rcv_nxt c -ℤ ahbytes in
      if not syn && not fin && c.is_ha && ltb_ℤ (rcv_nxt c) c.sru_bytes
      then (if ltb_ℤ held c.highest_ack_sent then c.highest_ack_sent else held)
      else rcv_nxt c

  -- As many segments as the application asked to wait for are not acknowledged.
  unfoldable pub need_send : Conn D → Bool
  need_send c =
      let spa =
        if ltb_ℤ (pos 0) c.spa_thresh && ltb_ℤ (rcv_nxt c -ℤ c.irs) c.spa_thresh
        then pos 1
        else c.segs_per_ack in
      c.acknow || leb_ℤ (spa *ℤ c.maxseg) (rcv_nxt c -ℤ c.last_ack_sent)

module _ {D : Type 0} ⦃d : Double D⦄ where
  open d use {of_int, minus, below, equal}

  unfoldable pub headersize : Conn D → ℤ
  headersize c =
      if c.tcp.rtt.ts_option
      then c.tcpip_base_hdr_size +ℤ c.ts_option_size
      else c.tcpip_base_hdr_size

  unfoldable pub build_options : Conn D → D → Stamps D
  build_options c now =
      if c.tcp.rtt.ts_option
      then record { ts = now; ts_echo = c.recent; length = c.ts_option_size }
      else record { ts = of_int minus_one; ts_echo = of_int minus_one; length = pos 0 }

  -- The echo that an acknowledgment released late carries: `dcrto_` ago at most.
  unfoldable pub echoed : Conn D → D → Reason → D
  echoed c now reason =
      if is_holding reason
        && c.tcp.rtt.ts_option
        && not (equal c.recent (of_int (pos 0)))
        && below c.tcp.rtt.dcrto (minus now c.recent)
      then minus now c.tcp.rtt.dcrto
      else (build_options c now).ts_echo

  -- The bit `ECT` of the packet.
  unfoldable pub sets_ect : Conn D → Flags → ℤ → Bool
  sets_ect c flags datalen =
      if (ltb_ℤ (pos 0) datalen && c.ecn)
        || (c.ecn && c.ecn_syn && c.ecn_syn_next && flags.syn && flags.ack)
      then c.ect
      else false

  -- The packet that `sendpacket` builds. The header's flags are those given: an `ECE` that is added
  -- here reaches only `ecnecho`.
  unfoldable pub packet : Conn D → D → ℤ → ℤ → Flags → ℤ → Reason → Segment D
  packet c now seqno ackno flags datalen reason =
      let hlen = c.tcpip_base_hdr_size +ℤ (build_options c now).length in
      record {
        seqno = seqno;
        ackno = ackno;
        flags = flags;
        reason = reason;
        hlen = hlen;
        size = datalen +ℤ hlen;
        sa_length = 0;
        ts = (build_options c now).ts;
        ts_echo = echoed c now reason;
        rtxreq_option = is_rtxreq reason;
        ect = sets_ect c flags datalen;
        ecnecho = flags.ece || (c.ecn && c.ect && c.recent_ce);
        cong_action = flags.cwr;
        no_ts = false;
      }

  -- The statistics of what is sent.
  unfoldable pub count_packet : D → ℤ → Conn D → Conn D
  count_packet now datalen c =
      if leb_ℤ datalen (pos 0) then record c { nackpack = c.nackpack + 1 } else record c {
        ndatapack = c.ndatapack + 1;
        ndatabytes = c.ndatabytes +ℤ datalen;
        last_send_time = now;
      }

  unfoldable pub count_rexmit : Reason → ℤ → Conn D → Conn D
  count_rexmit reason datalen c =
      if is_retransmission reason
      then record c { nrexmitpack = c.nrexmitpack + 1; nrexmitbytes = c.nrexmitbytes +ℤ datalen }
      else c

  unfoldable pub sendpacket : D → ℤ → ℤ → Flags → ℤ → Reason → Conn D → Conn D
  sendpacket now seqno ackno flags datalen reason c =
      let counted = count_rexmit reason datalen (count_packet now datalen c) in
      record counted {
        last_ack_sent = ackno;
        highest_ack_sent = ackno;
        wire = packet c now seqno ackno flags datalen reason ∷ c.wire;
      }

  -- The client asks the server to send again: it acknowledges one byte of what it holds, or sends
  -- its last acknowledgment with the option.
  unfoldable pub request_retransmission : D → Conn D → Conn D
  request_retransmission now c =
      if c.is_ha
      then (if ltb_ℤ c.highest_ack_sent (rcv_nxt c -ℤ pos 1)
          then sendpacket now c.tcp.t_seqno (c.highest_ack_sent +ℤ pos 1) th_ack (pos 0) for_ha c
          else c)
      else (if c.is_rtxreq
          then sendpacket now c.tcp.t_seqno c.highest_ack_sent th_ack (pos 0) for_rtxreq c
          else c)
