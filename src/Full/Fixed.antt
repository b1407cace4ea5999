-- ===== src/Full/Fixed.antt =====
-- What `foutput` of tcp/tcp-full.cc leaves as it was, whatever it sends.
use tcpincast.Base.{
  ℕ, ℤ, pos, ltb_ℤ, leb_ℤ, eq_ℤ, ◌∷◌, ◌+ℤ◌, ◌≡◌, refl, ◌∙◌, ap, Bool, not, ◌&&◌, Bool-cases,
  Option-cases, ◌⊎◌, inl, inr, List, none, some,
}
use tcpincast.Tcp.Double.{Double}
use tcpincast.Rq.Defs.{Rq}
use tcpincast.Tcp.Agent.{Rtt}
use tcpincast.Tcp.Timer.{rtt_timeout}
use tcpincast.Full.Data.{State, is_pending, Conn, Reason, Segment, Flags, is_retransmission}
use tcpincast.Full.Packet.{sendpacket, count_packet, count_rexmit, ack_to_send, packet}
use tcpincast.Full.Plan.{
  Plan, Out, set_maxseg, buffered_bytes, idle_restart, tell_idle, restart, tell_empty,
}
use tcpincast.Full.Depart.{
  final_flags, prepared, settle_report, advance_maxseq, set_rtx_timer, watch, emitted,
}
use tcpincast.Full.Output.{after_plan}

-- The variables that no output changes.
pub record Fixed : Type 0 where
  pub rq : Rq
  pub curseq : ℤ
  pub t_seqno : ℤ
  pub highest_ack : ℤ
  pub iss : ℤ
  pub sru_bytes : ℤ
  pub infinite_send : Bool
  pub is_ha : Bool
  pub maxburst : ℕ

abbrev pub fixed : {D : Type 0} → Conn D → Fixed
fixed c = record {
  rq = c.rq;
  curseq = c.curseq;
  t_seqno = c.tcp.t_seqno;
  highest_ack = c.tcp.highest_ack;
  iss = c.iss;
  sru_bytes = c.sru_bytes;
  infinite_send = c.infinite_send;
  is_ha = c.is_ha;
  maxburst = c.maxburst;
}

-- With what was acknowledged and what went out.
pub record Seen (D : Type 0) : Type 0 where
  pub same : Fixed
  pub highest_ack_sent : ℤ
  pub wire : List (Segment D)
  pub rtt : Rtt D
  pub state : State

abbrev pub seen : {D : Type 0} → Conn D → Seen D
seen c = record {
  same = fixed c;
  highest_ack_sent = c.highest_ack_sent;
  wire = c.wire;
  rtt = c.tcp.rtt;
  state = c.state;
}

module _ {D : Type 0} ⦃d : Double D⦄ where
  set_maxseg-seen : (c : Conn D) → seen (set_maxseg c) ≡ seen c
  unfolding set_maxseg
  set_maxseg-seen c = elim (Bool-cases (eq_ℤ c.maxseg (pos 0))) [
    | inl e ↦ rw e refl
    | inr e ↦ rw e refl
  ]

  tell_empty-seen : (seqno : ℤ) (c : Conn D) → seen (tell_empty seqno c) ≡ seen c
  unfolding tell_empty
  tell_empty-seen seqno c =
      elim (Bool-cases
        (c.signal_on_empty && eq_ℤ (buffered_bytes c) (pos 0) && not (eq_ℤ seqno c.iss))) [
          | inl e ↦ rw e refl
          | inr e ↦ rw e refl
        ]

  restart-seen : (now : D) (plan : Plan) (c : Conn D) → seen (restart now plan c) ≡ seen c
  unfolding restart
  restart-seen now plan c =
      elim (Bool-cases
        (c.slow_start_restart && plan.quiet && ltb_ℤ (pos 0) plan.datalen && idle_restart now c)) [
          | inl e ↦ rw e refl
          | inr e ↦ rw e refl
        ]

  tell_idle-seen : (plan : Plan) (c : Conn D) → seen (tell_idle plan c) ≡ seen c
  unfolding tell_idle
  tell_idle-seen plan c = elim (Bool-cases (plan.emptying && not (eq_ℤ plan.seqno c.iss))) [
    | inl e ↦ rw e refl
    | inr e ↦ rw e refl
  ]

  pub ready-seen :
      (now : D) (plan : Plan) (c : Conn D) → seen (after_plan now plan (set_maxseg c)) ≡ seen c
  ready-seen now plan c =
      let told = tell_empty plan.seqno (set_maxseg c) in
      tell_idle-seen plan (restart now plan told)
      ∙ restart-seen now plan told
      ∙ tell_empty-seen plan.seqno (set_maxseg c)
      ∙ set_maxseg-seen c

  pub settle_report-seen :
      (n : ℤ) (plan : Plan) (c : Conn D) → seen (settle_report n plan c) ≡ seen c
  unfolding settle_report
  settle_report-seen n plan c =
      elim (Bool-cases (c.tcp.window.cong_action && ltb_ℤ (pos 0) n && not plan.is_retransmit)) [
        | inl e ↦ rw e refl
        | inr e ↦ rw e refl
      ]

  pub advance_maxseq-seen :
      (now : D) (seqno n : ℤ) (c : Conn D) → seen (advance_maxseq now seqno n c) ≡ seen c
  unfolding advance_maxseq
  advance_maxseq-seen now seqno n c = elim (Bool-cases (ltb_ℤ c.tcp.maxseq (seqno +ℤ n))) [
    | inl e ↦ rw e refl
    | inr e ↦ rw e refl
  ]

  count_packet-seen : (now : D) (n : ℤ) (c : Conn D) → seen (count_packet now n c) ≡ seen c
  unfolding count_packet
  count_packet-seen now n c = elim (Bool-cases (leb_ℤ n (pos 0))) [
    | inl e ↦ rw e refl
    | inr e ↦ rw e refl
  ]

  count_rexmit-seen : (why : Reason) (n : ℤ) (c : Conn D) → seen (count_rexmit why n c) ≡ seen c
  unfolding count_rexmit
  count_rexmit-seen why n c = elim (Bool-cases (is_retransmission why)) [
    | inl e ↦ rw e refl
    | inr e ↦ rw e refl
  ]

  -- A connection seen after a packet went out.
  abbrev pub seen_after : State → Conn D → Segment D → Seen D
  seen_after s c p = record (seen c) { state = s; highest_ack_sent = p.ackno; wire = p ∷ c.wire }

  pub sendpacket-seen :
      (now : D) (seqno ackno : ℤ) (p : Flags) (n : ℤ) (why : Reason) (c : Conn D)
      → seen (sendpacket now seqno ackno p n why c)
        ≡ seen_after c.state c (packet c now seqno ackno p n why)
  unfolding sendpacket packet
  sendpacket-seen now seqno ackno p n why c =
      ap
        (λ (s : Seen D). record {
          same = s.same;
          highest_ack_sent = ackno;
          wire = packet c now seqno ackno p n why ∷ c.wire;
          rtt = s.rtt;
          state = s.state;
        })
        (count_rexmit-seen why n (count_packet now n c) ∙ count_packet-seen now n c)

  -- What goes out at the label `send`.
  unfoldable pub departing : D → Plan → Conn D → Segment D
  departing now plan c =
      let p = final_flags c plan in
      let ready = prepared c plan in
      packet ready now plan.seqno (ack_to_send ready p.syn p.fin) p plan.datalen plan.reason

  pub emitted-seen :
      (now : D) (plan : Plan) (c : Conn D)
      → seen (emitted now plan c) ≡ seen_after (prepared c plan).state c (departing now plan c)
  unfolding emitted departing prepared
  emitted-seen now plan c =
      sendpacket-seen now plan.seqno
        (ack_to_send (prepared c plan) (final_flags c plan).syn (final_flags c plan).fin)
        (final_flags c plan) plan.datalen plan.reason (prepared c plan)

  -- `watch` exits only where the timeout does; else it returns, and changes only the timer.
  pub watch-ends :
      (u : D) (n : ℤ) (c : Conn D)
      → ((watch u n c ≡ none) × (rtt_timeout c.tcp.rtt u ≡ none))
        ⊎ ((o : Out D) × (watch u n c ≡ some o)
            × (fixed o.conn ≡ fixed c)
            × (o.conn.highest_ack_sent ≡ c.highest_ack_sent)
            × (o.conn.wire ≡ c.wire)
            × (o.conn.state ≡ c.state))
  unfolding watch set_rtx_timer
  watch-ends u n c = elim (Bool-cases (not (is_pending c.rtx_timer) && not (eq_ℤ n (pos 0)))) [
    | inl e ↦ elim (Option-cases (rtt_timeout c.tcp.rtt u)) [
      | inl h ↦ rw (e, h) (inl (refl, refl))
      | inr h ↦ rw (e, h.1) (inr (_, refl, refl, refl, refl, refl))
    ]
    | inr e ↦ rw e (inr (_, refl, refl, refl, refl, refl))
  ]
