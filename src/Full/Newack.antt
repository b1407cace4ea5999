-- ===== src/Full/Newack.antt =====
-- `newack` of tcp/tcp-full.cc: where sending goes on after an acknowledgment.
use tcpincast.Base.{
  ℤ, ◌+ℤ◌, ltb_ℤ, eq_ℤ, ◌≤ℤ◌, arith, ◌≡◌, ◌⊎◌, refl, ◌∙◌, sym, subst, ap, Bool, not, true, false,
  ◌&&◌, ◌||◌, if◌then◌else◌, Bool-cases, Option-cases, inl, inr, Option, none, some,
}
use tcpincast.Tcp.Double.{Double}
use tcpincast.Tcp.Timer.{rtt_timeout}
use tcpincast.Full.Data.{ahbytes, Conn, Segment}
use tcpincast.Full.Depart.{set_rtx_timer}
use tcpincast.Full.Ack.{
  raise_highest, moved_on, go_back, catch_up, measure, end_timing, take_stamp, end_backoff, retime,
  newack,
}

-- The sequence numbers, which no measurement of the round-trip time changes.
pub record Numbers : Type 0 where
  pub highest : ℤ
  pub next : ℤ
  pub top : ℤ

abbrev pub numbers : {D : Type 0} → Conn D → Numbers
numbers c = record { highest = c.tcp.highest_ack; next = c.tcp.t_seqno; top = c.tcp.maxseq }

-- What an acknowledgment makes of them, without held acknowledgments.
abbrev raised_to : ℤ → Numbers → Numbers
raised_to ackno n = record n { highest = if ltb_ℤ n.highest ackno then ackno else n.highest }

abbrev caught_up : Numbers → Numbers
caught_up n = record n { next = if ltb_ℤ n.next n.highest then n.highest else n.next }

abbrev pub advance : ℤ → Numbers → Numbers
advance ackno n = caught_up (raised_to ackno n)

-- Nothing that was acknowledged is taken back, or sent before what is to be sent next.
pub record Progresses (ackno : ℤ) (n m : Numbers) : Type 0 where
  pub keeps : n.highest ≤ℤ m.highest
  pub reaches : ackno ≤ℤ m.highest
  pub exact : (m.highest ≡ ackno) ⊎ (m.highest ≡ n.highest)
  pub follows : m.highest ≤ℤ m.next
  pub top_kept : m.top ≡ n.top

advance-Progresses : (ackno : ℤ) (n : Numbers) → Progresses ackno n (advance ackno n)
advance-Progresses ackno n = record {
  keeps = ground arith;
  reaches = ground arith;
  exact = ground arith;
  follows = ground arith;
  top_kept = refl;
}

module _ {D : Type 0} where
  numbers-if :
      (b : Bool) (x y c : Conn D)
      → numbers x ≡ numbers c
      → numbers y ≡ numbers c
      → numbers (if b then x else y) ≡ numbers c
  numbers-if true x y c h g = h
  numbers-if false x y c h g = g

  end_backoff-numbers : (pkt : Segment D) (c : Conn D) → numbers (end_backoff pkt c) ≡ numbers c
  unfolding end_backoff
  end_backoff-numbers pkt c =
      elim (Bool-cases (not c.ect || not c.tcp.window.ecn_backoff || not pkt.ecnecho)) [
        | inl e ↦ rw e refl
        | inr e ↦ rw e refl
      ]

  -- The number and the mode, which are all that decides where sending goes on.
  raised : (n : ℤ) (c : Conn D) → numbers (raise_highest n c) ≡ raised_to n (numbers c)
  raised n c = elim (Bool-cases (ltb_ℤ c.tcp.highest_ack n)) [
    | inl e ↦ rw e refl
    | inr e ↦ rw e refl
  ]

  raised-is_ha : (n : ℤ) (c : Conn D) → (raise_highest n c).is_ha ≡ c.is_ha
  raised-is_ha n c = elim (Bool-cases (ltb_ℤ c.tcp.highest_ack n)) [
    | inl e ↦ rw e refl
    | inr e ↦ rw e refl
  ]

  catch_up-numbers : (c : Conn D) → numbers (catch_up c) ≡ caught_up (numbers c)
  unfolding catch_up
  catch_up-numbers c = elim (Bool-cases (ltb_ℤ c.tcp.t_seqno c.tcp.highest_ack)) [
    | inl e ↦ rw e refl
    | inr e ↦ rw e refl
  ]

  catch_up-is_ha : (c : Conn D) → (catch_up c).is_ha ≡ c.is_ha
  unfolding catch_up
  catch_up-is_ha c = elim (Bool-cases (ltb_ℤ c.tcp.t_seqno c.tcp.highest_ack)) [
    | inl e ↦ rw e refl
    | inr e ↦ rw e refl
  ]

  go_back-numbers : (c : Conn D) → c.is_ha ≡ false → numbers (go_back c) ≡ numbers c
  unfolding go_back
  go_back-numbers c plain =
      elim (Bool-cases (c.is_ha && ltb_ℤ c.tcp.t_seqno (c.tcp.highest_ack +ℤ ahbytes))) [
        | inl e ↦ absurd (ground (arith, e, plain))
        | inr e ↦ rw e refl
      ]

  moved_on-numbers :
      (ackno : ℤ) (c : Conn D)
      → c.is_ha ≡ false
      → numbers (moved_on ackno c) ≡ advance ackno (numbers c)
  unfolding moved_on
  moved_on-numbers ackno c plain =
      let r = raise_highest ackno c in
      go_back-numbers (catch_up r) (catch_up-is_ha r ∙ raised-is_ha ackno c ∙ plain)
      ∙ catch_up-numbers r
      ∙ ap caught_up (raised ackno c)

module _ {D : Type 0} ⦃d : Double D⦄ where
  take_stamp-numbers :
      (now : D) (pkt : Segment D) (c : Conn D) → numbers (take_stamp now pkt c) ≡ numbers c
  unfolding take_stamp
  take_stamp-numbers now pkt c = elim (Bool-cases c.tcp.rtt.ts_option) [
    | inl e ↦ elim (Bool-cases c.ts_reset_rto) [
      | inl f ↦ rw (e, f) (end_backoff-numbers pkt _)
      | inr f ↦ rw (e, f) refl
    ]
    | inr e ↦ rw e refl
  ]

  end_timing-numbers :
      (now : D) (pkt : Segment D) (c : Conn D) → numbers (end_timing now pkt c) ≡ numbers c
  unfolding end_timing
  end_timing-numbers now pkt c = elim (Bool-cases (c.rtt_active && ltb_ℤ c.rtt_seq pkt.ackno)) [
    | inl e ↦ elim (Bool-cases c.tcp.rtt.ts_option) [
      | inl f ↦ rw (e, f) (end_backoff-numbers pkt _)
      | inr f ↦ rw (e, f) (end_backoff-numbers pkt _)
    ]
    | inr e ↦ rw e refl
  ]

  measure-numbers :
      (now : D) (pkt : Segment D) (c : Conn D) → numbers (measure now pkt c) ≡ numbers c
  unfolding measure
  measure-numbers now pkt c =
      numbers-if pkt.no_ts c (end_timing now pkt (take_stamp now pkt c)) c refl
        (end_timing-numbers now pkt (take_stamp now pkt c) ∙ take_stamp-numbers now pkt c)

  abbrev Retimed : D → Conn D → Option (Conn D) → Type 0
  Retimed u c called =
      ((called ≡ none) × (rtt_timeout c.tcp.rtt u ≡ none))
      ⊎ ((e : Conn D) × (called ≡ some e) × (numbers e ≡ numbers c) × (e.is_ha ≡ c.is_ha))

  retime-Retimed : (u : D) (ackno : ℤ) (c : Conn D) → Retimed u c (retime u ackno c)
  unfolding retime set_rtx_timer
  retime-Retimed u ackno c = elim (Bool-cases (eq_ℤ ackno c.tcp.maxseq)) [
    | inl e ↦ rw e (inr (_, refl, refl, refl))
    | inr e ↦ elim (Bool-cases (ltb_ℤ c.tcp.highest_ack ackno)) [
      | inl f ↦ elim (Option-cases (rtt_timeout c.tcp.rtt u)) [
        | inl h ↦ rw (e, f, h) (inl (refl, refl))
        | inr h ↦ rw (e, f, h.1) (inr (_, refl, refl, refl))
      ]
      | inr f ↦ rw (e, f) (inr (_, refl, refl, refl))
    ]
  ]

  -- Without held acknowledgments, `newack` exits only where the timeout cannot be computed. Else
  -- `highest_ack_` is what it was or the packet's number, whichever is higher, `t_seqno_` is not
  -- below it, and `maxseq_` is as it was.
  pub newack-Progresses :
      (now u : D) (pkt : Segment D) (c : Conn D)
      → c.is_ha ≡ false
      → ((newack now u pkt c ≡ none) × (rtt_timeout c.tcp.rtt u ≡ none))
        ⊎ ((e : Conn D) × (newack now u pkt c ≡ some e)
            × Progresses pkt.ackno (numbers c) (numbers e))
  unfolding newack
  newack-Progresses now u pkt c plain = elim (retime-Retimed u pkt.ackno c) [
    | inl x ↦ inl (rw x.0 refl, x.1)
    | inr r ↦
        let e = r.0 in
        let n : numbers (measure now pkt (moved_on pkt.ackno e)) ≡ advance pkt.ackno (numbers c) =
          measure-numbers now pkt (moved_on pkt.ackno e)
          ∙ moved_on-numbers pkt.ackno e (r.3 ∙ plain)
          ∙ ap (advance pkt.ackno) r.2 in
        inr (
          measure now pkt (moved_on pkt.ackno e),
          rw r.1 refl,
          subst (Progresses pkt.ackno (numbers c)) (sym n)
              (advance-Progresses pkt.ackno (numbers c)),
        )
  ]
