-- ===== src/Full/Held.antt =====
-- Held acknowledgments in tcp/tcp-full.cc: what `foutput` and `request_retransmission` acknowledge.
use tcpincast.Base.{
  arith, subst, true, ℤ, pos, ltb_ℤ, ◌-ℤ◌, ◌≡◌, ◌⊎◌, refl, ◌∙◌, sym, ap, Bool, not, ◌&&◌,
  if◌then◌else◌, Bool-cases, inl, inr, Option, none, some, ◌∷◌,
}
use tcpincast.Tcp.Double.{Double}
use tcpincast.Tcp.Timer.{rtt_timeout}
use tcpincast.Full.Data.{State, opens, fin_wait_1, Conn, Reason, Segment, ahbytes}
use tcpincast.Full.Packet.{packet, ack_to_send}
use tcpincast.Full.Plan.{Plan, Out, set_maxseg, planned, worth_sending}
use tcpincast.Full.Depart.{
  closes_now, final_flags, prepared, settle_report, advance_maxseq, emitted, depart, reliable,
}
use tcpincast.Full.Output.{foutput, after_plan}
use tcpincast.Full.Fixed.{
  Seen, seen, fixed, seen_after, departing, ready-seen, emitted-seen, settle_report-seen,
  advance_maxseq-seen, watch-ends,
}

-- A packet went out and its acknowledgment, the one that `ack_to_send` gives, was noted.
pub record Sends {D : Type 0} (c e : Conn D) : Type 0 where
  pub segment : Segment D
  pub went : e.wire ≡ segment ∷ c.wire
  pub noted : e.highest_ack_sent ≡ segment.ackno
  pub chosen : segment.ackno ≡ ack_to_send c segment.flags.syn segment.flags.fin

-- Nothing went out.
abbrev pub Rests : {D : Type 0} → Conn D → Conn D → Type 0
Rests c e = (e.wire ≡ c.wire) × (e.highest_ack_sent ≡ c.highest_ack_sent)

-- The connection stays in its state, or the FIN that it sends with its last data is noted.
abbrev pub Enters : State → State → Type 0
Enters s t = (t ≡ s) ⊎ ((opens s ≡ true) × (t ≡ fin_wait_1))

-- An output that returns: the variables it may not write are as they were, and either nothing or
-- one packet went out.
pub record Returns {D : Type 0} (c : Conn D) (called : Option (Out D)) : Type 0 where
  pub out : Out D
  pub equals : called ≡ some out
  pub untouched : fixed out.conn ≡ fixed c
  pub effect : Rests c out.conn ⊎ Sends c out.conn
  pub next_state : Enters c.state out.conn.state

closes_opens : (a b : Bool) → a && b ≡ true → b ≡ true
closes_opens a b h = ground arith

module _ {D : Type 0} ⦃d : Double D⦄ where
  departing-chosen :
      (now : D) (plan : Plan) (c : Conn D)
      → (departing now plan c).ackno
        ≡ ack_to_send c (departing now plan c).flags.syn (departing now plan c).flags.fin
  unfolding departing prepared ack_to_send packet
  departing-chosen now plan c = refl

  ack_to_send-seen :
      (c e : Conn D) (syn fin : Bool)
      → seen e ≡ seen c
      → ack_to_send e syn fin ≡ ack_to_send c syn fin
  unfolding ack_to_send
  ack_to_send-seen c e syn fin h =
      ap
        (λ (s : Seen D).
          if not syn && not fin && s.same.is_ha && ltb_ℤ s.same.rq.rcv_nxt s.same.sru_bytes
          then (if ltb_ℤ (s.same.rq.rcv_nxt -ℤ ahbytes) s.highest_ack_sent
              then s.highest_ack_sent
              else s.same.rq.rcv_nxt -ℤ ahbytes)
          else s.same.rq.rcv_nxt)
        h

  effect-seen : (c e f : Conn D) → seen e ≡ seen c → Rests e f ⊎ Sends e f → Rests c f ⊎ Sends c f
  effect-seen c e f h (inl r) = inl (r.0 ∙ ap (λ s. s.wire) h, r.1 ∙ ap (λ s. s.highest_ack_sent) h)
  effect-seen c e f h (inr s) = inr record {
    segment = s.segment;
    went = s.went ∙ ap (λ x. s.segment ∷ x.wire) h;
    noted = s.noted;
    chosen = s.chosen ∙ ack_to_send-seen c e s.segment.flags.syn s.segment.flags.fin h;
  }

  Returns-seen :
      (c e : Conn D) (called : Option (Out D))
      → seen e ≡ seen c
      → Returns e called
      → Returns c called
  Returns-seen c e called h r = record {
    out = r.out;
    equals = r.equals;
    untouched = r.untouched ∙ ap (λ s. s.same) h;
    effect = effect-seen c e r.out.conn h r.effect;
    next_state = subst (λ x. Enters x r.out.conn.state) (ap (λ x. x.state) h) r.next_state;
  }

  pub Ends : D → Conn D → Option (Out D) → Type 0
  Ends u c called = ((called ≡ none) × (rtt_timeout c.tcp.rtt u ≡ none)) ⊎ Returns c called

  Ends-seen :
      (u : D) (c e : Conn D) (called : Option (Out D))
      → seen e ≡ seen c
      → Ends u e called
      → Ends u c called
  unfolding Ends
  Ends-seen u c e called h (inl x) = inl (x.0, ap (λ s. rtt_timeout s.rtt u) (sym h) ∙ x.1)
  Ends-seen u c e called h (inr r) = inr (Returns-seen c e called h r)

  prepared-Enters : (c : Conn D) (plan : Plan) → Enters c.state (prepared c plan).state
  unfolding prepared
  prepared-Enters c plan = elim (Bool-cases (closes_now c)) [
    | inl e ↦ rw e (inr (closes_opens c.needclose (opens c.state) e, refl))
    | inr e ↦ rw e (inl refl)
  ]

  depart-Ends : (now u : D) (plan : Plan) (c : Conn D) → Ends u c (depart now u plan c)
  unfolding depart Ends
  depart-Ends now u plan c =
      let amount = reliable (final_flags c plan) plan in
      let settled = settle_report amount plan (emitted now plan c) in
      let last = advance_maxseq now plan.seqno amount settled in
      let steps : seen last ≡ seen_after (prepared c plan).state c (departing now plan c) =
        advance_maxseq-seen now plan.seqno amount settled
        ∙ settle_report-seen amount plan (emitted now plan c)
        ∙ emitted-seen now plan c in
      elim (watch-ends u amount last) [
        | inl x ↦ inl (x.0, ap (λ s. rtt_timeout s.rtt u) (sym steps) ∙ x.1)
        | inr w ↦ inr record {
          out = w.0;
          equals = w.1;
          untouched = w.2 ∙ ap (λ s. s.same) steps;
          effect = inr record {
            segment = departing now plan c;
            went = w.4 ∙ ap (λ s. s.wire) steps;
            noted = w.3 ∙ ap (λ s. s.highest_ack_sent) steps;
            chosen = departing-chosen now plan c;
          };
          next_state =
              subst (Enters c.state) (sym (w.5 ∙ ap (λ s. s.state) steps)) (prepared-Enters c plan);
        }
      ]

  -- `foutput` exits only where the timeout cannot be computed. Else it returns, leaves what an
  -- output may not write, and sends nothing, or one packet, which carries the acknowledgment that
  -- `ack_to_send` gives, and notes it. It stays in its state, or enters FIN_WAIT_1 from SYN_SENT,
  -- SYN_RECEIVED, ESTABLISHED or LISTEN.
  pub foutput-Ends :
      (now u : D) (seqno : ℤ) (why : Reason) (c : Conn D)
      → ((foutput now u seqno why c ≡ none) × (rtt_timeout c.tcp.rtt u ≡ none))
        ⊎ Returns c (foutput now u seqno why c)
  unfolding foutput Ends
  foutput-Ends now u seqno why c =
      let sized = set_maxseg c in
      let plan = planned seqno why sized in
      let ready = after_plan now plan sized in
      let same = ready-seen now plan c in
      elim (Bool-cases (worth_sending plan ready)) [
        | inl e ↦ rw e (Ends-seen u c ready _ same (depart-Ends now u plan ready))
        | inr e ↦ rw e (
            inr record {
              out = record { conn = ready; amount = pos 0 };
              equals = refl;
              untouched = ap (λ s. s.same) same;
              effect = inl (ap (λ s. s.wire) same, ap (λ s. s.highest_ack_sent) same);
              next_state = inl (ap (λ s. s.state) same);
            })
      ]
