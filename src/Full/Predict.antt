-- ===== src/Full/Predict.antt =====
-- Header prediction in `recv` of tcp/tcp-full.cc, for a segment with data: what it saves and what it
-- does not change.
use tcpincast.Base.{
  arith, pos, ◌≡◌, refl, ◌∙◌, sym, ap, Bool, true, false, not, ◌&&◌, ◌||◌, if◌then◌else◌, ltb_ℤ,
  leb_ℤ, eq_ℤ, subst, inl, inr,
}
use tcpincast.Tcp.Double.{Double}
use tcpincast.Rq.Defs.{empty}
use tcpincast.Full.Data.{
  State, closed, established, close_wait, last_ack, is_state, opens, normal, Segment, Conn, rcv_nxt,
}
use tcpincast.Full.Packet.{need_send}
use tcpincast.Full.Send.{done}
use tcpincast.Full.Held.{Enters}
use tcpincast.Full.Pass.{Ended-map, Follows}
use tcpincast.Full.Loop.{Unlimited, send_much-Keeps}
use tcpincast.Full.Ack.{predict_ok}
use tcpincast.Full.Reass.{record_stamp, take_data, take_next, take_fin, took, havercvdfin}
use tcpincast.Full.Arrive.{
  Scene, Arrival, Frame, runs, note_ce, tell, and_then, sends, answered, closes, ended, tell_done,
  after_data, step6,
}
use tcpincast.Full.Process.{
  note_left, is_request, with_data, old_ack, process_ack, rtxreq_action, take_ack,
}
use tcpincast.Full.Slow.{is_stale, by_state, on_flags, trimmed, in_window, slow_path}
use tcpincast.Full.Recv.{frame, take_predicted, fast_data, predicted}
use tcpincast.Full.Expected.{
  IsOrdered, if_true, if_not, long_data, marked, stamped, noted-facts, untrimmed, unanswered,
  and_then-done, and_then_assoc, weaken, no_request, need_send-tell, state-tell, not_finished,
  expected, is_established, fresh, last_ack_not,
}

module _ {D : Type 0} ⦃d : Double D⦄ (sc : Scene D) (a : Arrival D) where
  -- An acknowledgment of nothing new that comes with data: on to the data.
  old_ack-data :
      (p : Frame D) (c : Conn D)
      → ltb_ℤ (pos 0) p.datalen ≡ true
      → c.dupack_reset ≡ false
      → old_ack sc p c ≡ step6 sc p false c
  unfolding old_ack with_data
  old_ack-data p c long kept =
      if_not (eq_ℤ p.datalen (pos 0) && (not c.dupseg_fix || not p.duplicate)) _ _
        (ground (arith, long))
      ∙ ap (step6 sc p false) (if_not c.dupack_reset _ c kept)

  take_ack-data :
      (p : Frame D) (c : Conn D)
      → ltb_ℤ (pos 0) p.datalen ≡ true
      → p.segment.rtxreq_option ≡ false
      → eq_ℤ p.segment.ackno c.tcp.highest_ack ≡ true
      → (note_ce a c).tcp.highest_ack ≡ c.tcp.highest_ack
      → (note_ce a c).dupack_reset ≡ false
      → take_ack sc a p c ≡ step6 sc p false (note_ce a c)
  unfolding take_ack note_left
  take_ack-data p c long plain same high kept =
      let e = note_ce a c in
      let asked =
        λ (x : Conn D). record x { tcp = record x.tcp { highest_ack = p.segment.ackno } } in
      let rest = λ (x : Conn D).
        if leb_ℤ p.segment.ackno c.tcp.highest_ack then old_ack sc p x else process_ack sc p x in
      let goes = λ (x : Conn D). if is_request p x then rtxreq_action sc (asked x) else rest x in
      let all = λ (x : Conn D). if p.segment.rtxreq_option then rtxreq_action sc x else goes x in
      ap all (
        if_not (e.fastrecov && (eq_ℤ p.datalen (pos 0) || ltb_ℤ e.tcp.highest_ack p.segment.ackno))
          _ e (ground (arith, long, same, high)))
      ∙ if_not p.segment.rtxreq_option (rtxreq_action sc e) (goes e) plain
      ∙ if_not (is_request p e) (rtxreq_action sc (asked e)) (rest e) (no_request p e long)
      ∙ if_true (leb_ℤ p.segment.ackno c.tcp.highest_ack) (old_ack sc p e) (process_ack sc p e)
          (ground (arith, same))
      ∙ old_ack-data p e long kept

  -- A connection that was established neither closes nor is closed when it has sent.
  stays_in :
      (s : State)
      → Enters established s
      → (is_state s close_wait ≡ false) × (is_state s closed ≡ false)
  unfolding is_state opens
  stays_in s (inl h) = rw h (refl, refl)
  stays_in s (inr h) = rw h.1 (refl, refl)

  stays :
      (e : Conn D)
      → Enters established e.state
      → and_then (closes sc e) (λ x. done (tell_done x)) ≡ done e
  unfolding closes
  stays e h =
      let apart = stays_in e.state h in
      ap (λ r. and_then r (λ x. done (tell_done x)))
        (if_not
          (not e.halfclose && is_state e.state close_wait && eq_ℤ e.tcp.highest_ack e.tcp.maxseq) _
          (done e) (ground (arith, apart.0)))
      ∙ ap done (if_not (is_state e.state closed) _ e apart.1)

  answered-sends : (b : Bool) (c : Conn D) → b ≡ true → answered sc b c ≡ sends sc true c
  unfolding answered
  answered-sends b c due = if_true (b || c.acknow) (sends sc true c) _ (ground (arith, due))

  -- What is sent when an acknowledgment is due.
  ended-sends :
      (b : Bool) (c : Conn D) → b ≡ true → c.state ≡ established → ended sc b c ≡ sends sc true c
  unfolding ended
  ended-sends b c due open_ =
      let r = sends sc true c in
      let last = λ (x : Conn D). done (tell_done x) in
      ap (λ x. and_then (and_then x (closes sc)) last) (answered-sends b c due)
      ∙ and_then_assoc (closes sc) last r
      ∙ and_then-done (λ e. and_then (closes sc e) last) r
          (Ended-map Unit (Follows c) (λ e. and_then (closes sc e) last ≡ done e)
            (λ e follows. stays e (subst (λ s. Enters s e.state) open_ follows.enters)) r
            (weaken (Unlimited sc.fuel c.maxburst) (Follows c) r
              (send_much-Keeps sc.fuel sc.now sc.draws sc.wait true normal c.maxburst c)))

  -- The expected segment, from the data on.
  next_data :
      (p : Frame D) (c : Conn D)
      → ltb_ℤ (pos 0) p.datalen ≡ true
      → p.segment.flags.fin ≡ false
      → c.state ≡ established
      → eq_ℤ p.segment.seqno (rcv_nxt c) ≡ true
      → empty c.rq ≡ true
      → need_send (take_predicted p.datalen c) ≡ true
      → step6 sc p false c ≡ runs (sends sc true (take_predicted p.datalen c))
  unfolding step6 after_data take_data take_next take_predicted take_fin
  next_data p c long plain at next none due =
      let moved = (take_next p.segment p.datalen c).conn in
      let told = tell p.datalen moved in
      let goes = λ (b : Bool). runs (ended sc (need_send moved) (take_fin b told)) in
      ap (after_data sc) (
        if_true ((ltb_ℤ (pos 0) p.datalen || p.tiflags.fin) && not (havercvdfin c.state)) _ _
          (ground (arith, long, not_finished c.state at))
        ∙ if_true (eq_ℤ p.segment.seqno (rcv_nxt c) && empty c.rq)
            (took (take_next p.segment p.datalen c)) _ (ground (arith, next, none)))
      ∙ ap goes plain
      ∙ ap runs (
          ended-sends (need_send moved) told (sym (need_send-tell p.datalen moved) ∙ due)
            (state-tell p.datalen moved ∙ at))

  by_state-established :
      (p : Frame D) (s : State) (c : Conn D)
      → s ≡ established
      → by_state sc a p s c ≡ take_ack sc a p c
  unfolding by_state
  by_state-established p s c h = ap (λ s. by_state sc a p s c) h

  -- The expected segment comes to the acknowledgment as it is.
  slow_path-expected :
      ⦃law : IsOrdered D⦄ (pkt : Segment D) (c : Conn D)
      → predict_ok pkt c ≡ true
      → slow_path sc a (frame pkt) c ≡ take_ack sc a (frame pkt) (record_stamp sc.now pkt c)
  unfolding slow_path in_window trimmed on_flags
  slow_path-expected pkt c ok =
      let x = expected pkt c ok in
      let at = is_established c.state x.0 in
      let p = frame pkt in
      let e = record_stamp sc.now pkt c in
      if_not (is_state c.state last_ack && pkt.flags.fin) _ _
        (ground (arith, last_ack_not c.state at))
      ∙ if_not (is_stale pkt c) _ (in_window sc a p c) (fresh pkt c x.4)
      ∙ ap (λ t. trimmed sc a t c) (untrimmed pkt pkt.flags p.datalen c x.5)
      ∙ ap (λ y. on_flags sc a p (record_stamp sc.now pkt y))
          (unanswered
            (record { segment = pkt; tiflags = pkt.flags; datalen = p.datalen; duplicate = false })
            c refl)
      ∙ if_not pkt.flags.syn _ _ x.1
      ∙ if_true pkt.flags.ack (by_state sc a p e.state e) _ x.3
      ∙ by_state-established p e.state e (ap (λ f. f.state) (stamped sc.now pkt c) ∙ at)

  -- A predicted segment with data, which acknowledges nothing new and finds the queue empty, leaves
  -- the connection, what is sent and what is told as the slow path does, where it makes an
  -- acknowledgment due, does not ask for a retransmission, and the count of duplicate
  -- acknowledgments is not reset by data; for doubles of which none is both at most and above
  -- another.
  pub predicted-slow_path :
      ⦃law : IsOrdered D⦄ (pkt : Segment D) (c : Conn D)
      → predict_ok pkt c ≡ true
      → ltb_ℤ (pos 0) (frame pkt).datalen ≡ true
      → pkt.rtxreq_option ≡ false
      → c.dupack_reset ≡ false
      → eq_ℤ pkt.ackno c.tcp.highest_ack ≡ true
      → empty c.rq ≡ true
      → need_send (take_predicted (frame pkt).datalen (note_ce a (record_stamp sc.now pkt c)))
        ≡ true
      → predicted sc a (frame pkt) c ≡ slow_path sc a (frame pkt) c
  unfolding predicted fast_data
  predicted-slow_path pkt c ok long plain resets same none due =
      let x = expected pkt c ok in
      let p = frame pkt in
      let e = record_stamp sc.now pkt c in
      let n = note_ce a e in
      let seen = noted-facts sc.now a pkt c in
      let first = stamped sc.now pkt c in
      let highest = ap (λ f. f.highest) seen in
      let queue = ap (λ f. f.rq) seen in
      let kept = ap (λ f. f.resets) seen ∙ resets in
      let at = ap (λ f. f.state) seen ∙ is_established c.state x.0 in
      let next = ap (λ f. eq_ℤ pkt.seqno f.rq.rcv_nxt) seen ∙ x.5 in
      let none_seen = ap empty queue ∙ none in
      let sent = runs (sends sc true (take_predicted p.datalen n)) in
      if_not (eq_ℤ p.datalen (pos 0)) _ _ (long_data p.datalen long)
      ∙ if_true (eq_ℤ pkt.ackno n.tcp.highest_ack && empty n.rq) _ _
          (ground (arith, same, highest, none_seen))
      ∙ if_true (need_send (take_predicted p.datalen n)) sent _ due
      ∙ sym (
          slow_path-expected pkt c ok
          ∙ take_ack-data p e long plain (ap (eq_ℤ pkt.ackno) (ap (λ f. f.highest) first) ∙ same)
              (ap (λ f. f.highest) (marked a e)) kept
          ∙ next_data p n long x.2 at next none_seen due)
