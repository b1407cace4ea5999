-- ===== src/Full/Teardown.antt =====
-- How a connection ends in `recv` of tcp/tcp-full.cc: from the acknowledgment of this side's FIN on.
use mathlib.Core.Option
use tcpincast.Base.{
  ℕ, ℤ, pos, ltb_ℤ, leb_ℤ, eq_ℤ, leb, ◌≡◌, refl, ◌∙◌, sym, ap, subst, Bool, true, false, not, ◌&&◌,
  ◌||◌, some, Bool-cases, Option-cases, inl, inr, arith,
}
use tcpincast.Tcp.Double.{Double}
use tcpincast.Rq.Defs.{empty}
use tcpincast.Full.Data.{
  State, closed, listen, syn_sent, syn_received, established, close_wait, fin_wait_1, closing,
  last_ack, fin_wait_2, number, is_state, normal, Conn, rcv_nxt,
}
use tcpincast.Full.Packet.{need_send}
use tcpincast.Full.Send.{Run, done, exits, out_of_fuel, newstate, cancel_timers}
use tcpincast.Full.Pass.{Ended, Ended-map, Follows, Enters-settled}
use tcpincast.Full.Loop.{Unlimited, send_much-Keeps}
use tcpincast.Full.Expected.{if_true, if_not}
use tcpincast.Full.Reset.{reset, full_cleared}
use tcpincast.Tcp.Reset.{reset_sender}
use tcpincast.Full.Reass.{Taken, take_data, take_next, take_fin, on_fin, took, havercvdfin}
use tcpincast.Full.Arrive.{
  Scene, Frame, Verdict, and_then, sends, answered, closes, ended, tell_done, tell, after_data,
  step6,
}
use tcpincast.Full.Process.{fin_acked, on_closing, acked_fin}
use tcpincast.Full.Farewell.{
  Closes, Closing, acked_of, again, closer, closer-acked, closer-same, closer-then, first,
  on_fin-view, second, unseen, view, view-settled,
}

module _ {D : Type 0} where
  Ended-then :
      (X : Type 0) (P Q : Conn D → Type 0) (f : Conn D → Run D) (r : Run D)
      → Ended X P r
      → ((e : Conn D) → P e → Ended X Q (f e))
      → Ended X Q (and_then r f)
  Ended-then X P Q f (done c) h g = g c h
  Ended-then X P Q f exits h g = tt
  Ended-then X P Q f out_of_fuel h g = h

  tell-same :
      (n : ℤ) (c : Conn D) → ((tell n c).state ≡ c.state) × ((tell n c).maxburst ≡ c.maxburst)
  unfolding tell
  tell-same n c = elim (Bool-cases (eq_ℤ n (pos 0))) [
    | inl e ↦ rw e (refl, refl)
    | inr e ↦ rw e (refl, refl)
  ]

  take_fin-same :
      (c : Conn D)
      → ((take_fin true c).state ≡ on_fin c.state) × ((take_fin true c).maxburst ≡ c.maxburst)
  unfolding take_fin cancel_timers
  take_fin-same c = elim (Bool-cases (havercvdfin c.state)) [
    | inl e ↦ elim (Bool-cases (is_state c.state fin_wait_2)) [
      | inl f ↦ rw (e, f) (refl, refl)
      | inr f ↦ rw (e, f) (refl, refl)
    ]
    | inr e ↦ elim (Bool-cases (is_state c.state fin_wait_2)) [
      | inl f ↦ rw (e, f) (refl, refl)
      | inr f ↦ rw (e, f) (refl, refl)
    ]
  ]

  take_fin-view :
      (fin : Bool) (v : Closing) (c : Conn D)
      → view c.state ≡ some v
      → (view (take_fin fin c).state ≡ some (closer false fin v))
        × ((take_fin fin c).maxburst ≡ c.maxburst)
  unfolding take_fin
  take_fin-view false v c h = (h ∙ ap some (sym (closer-same false v refl)), refl)
  take_fin-view true v c h =
      let same = take_fin-same c in (ap view same.0 ∙ on_fin-view c.state v h, same.1)

module _ {D : Type 0} ⦃d : Double D⦄ (sc : Scene D) where
  abbrev Leaves : ℕ → Closing → Run D → Type 0
  Leaves b v r = Ended (Unlimited sc.fuel b) (λ e. view e.state ≡ some v) r

  sends-view :
      (force : Bool) (v : Closing) (c : Conn D)
      → view c.state ≡ some v
      → Leaves c.maxburst v (sends sc force c)
  sends-view force v c h =
      Ended-map (Unlimited sc.fuel c.maxburst) (Follows c) (λ e. view e.state ≡ some v)
        (λ e f. ap view (Enters-settled c.state e.state f.enters (view-settled c.state v h).0) ∙ h)
        (sends sc force c)
        (send_much-Keeps sc.fuel sc.now sc.draws sc.wait force normal c.maxburst c)

  answered-view :
      (needoutput : Bool) (v : Closing) (c : Conn D)
      → view c.state ≡ some v
      → Leaves c.maxburst v (answered sc needoutput c)
  unfolding answered
  answered-view needoutput v c h = elim (Bool-cases (needoutput || c.acknow)) [
    | inl e ↦ rw e (sends-view true v c h)
    | inr e ↦ elim (Bool-cases (leb_ℤ c.tcp.highest_ack c.curseq || c.infinite_send)) [
      | inl f ↦ rw (e, f) (sends-view false v c h)
      | inr f ↦ rw (e, f) h
    ]
  ]

  closes-done : (v : Closing) (c : Conn D) → view c.state ≡ some v → closes sc c ≡ done c
  unfolding closes
  closes-done v c h =
      let apart = (view-settled c.state v h).1 in
      if_not (not c.halfclose && is_state c.state close_wait && eq_ℤ c.tcp.highest_ack c.tcp.maxseq)
        _ (done c) (ground (arith, apart))

  tell_done-view :
      (v : Closing) (c : Conn D) → view c.state ≡ some v → view (tell_done c).state ≡ some v
  tell_done-view v c h = elim (Bool-cases (is_state c.state closed)) [
    | inl e ↦ rw e h
    | inr e ↦ rw e h
  ]

  ended-view :
      (needoutput : Bool) (v : Closing) (b : ℕ) (c : Conn D)
      → c.maxburst ≡ b
      → view c.state ≡ some v
      → Leaves b v (ended sc needoutput c)
  unfolding ended
  ended-view needoutput v b c m h =
      let X = Unlimited sc.fuel b in
      let P = λ (e : Conn D). view e.state ≡ some v in
      Ended-then X P P (λ e. done (tell_done e)) (and_then (answered sc needoutput c) (closes sc))
        (Ended-then X P P (closes sc) (answered sc needoutput c)
          (subst (λ n. Leaves n v (answered sc needoutput c)) m (answered-view needoutput v c h))
          (λ e k. subst (λ r. Ended X P r) (sym (closes-done v e k)) k))
        (λ e k. tell_done-view v e k)

  -- The data of the next segment, and its FIN.
  step6-view :
      (p : Frame D) (needoutput : Bool) (v : Closing) (s : State) (c : Conn D)
      → view c.state ≡ some v
      → eq_ℤ p.segment.seqno (rcv_nxt c) ≡ true
      → empty c.rq ≡ true
      → p.segment.flags.fin ≡ p.tiflags.fin
      → Closes sc.fuel c.maxburst s (closer false p.tiflags.fin v) (step6 sc p needoutput c)
  unfolding step6 after_data take_data take_next
  step6-view p needoutput v s c h next nothing same =
      let pkt = p.segment in
      let n = p.datalen in
      let fin = p.tiflags.fin in
      let takes = (ltb_ℤ (pos 0) n || fin) && not (havercvdfin c.state) in
      let moved = (take_next pkt n c).conn in
      let whole : Verdict D → Type 0 = λ x. Closes sc.fuel c.maxburst s (closer false fin v) x in
      elim (Bool-cases takes) [
        | inl e ↦
            let told = tell-same n moved in
            let t = take_fin-view pkt.flags.fin v (tell n moved) (ap view told.0 ∙ h) in
            subst (λ x. whole (after_data sc x))
              (sym (
                if_true takes _ _ e
                ∙ if_true (eq_ℤ pkt.seqno (rcv_nxt c) && empty c.rq) (took (take_next pkt n c)) _
                    (ground (arith, next, nothing))))
              (ended-view (need_send moved) (closer false fin v) c.maxburst
                (take_fin pkt.flags.fin (tell n moved)) (t.1 ∙ told.1)
                (t.0 ∙ ap (λ x. some (closer false x v)) same))
        | inr e ↦
            let kept : Taken D = record {
              conn = c;
              fin = false;
              delivered = pos 0;
              needoutput = needoutput;
            } in
            let told = tell-same (pos 0) c in
            let t = take_fin-view false v (tell (pos 0) c) (ap view told.0 ∙ h) in
            subst (λ x. whole (after_data sc x)) (sym (if_not takes _ (took kept) e))
              (ended-view needoutput (closer false fin v) c.maxburst
                (take_fin false (tell (pos 0) c)) (t.1 ∙ told.1)
                (t.0
                  ∙ ap some (
                      closer-same false v refl
                      ∙ sym (closer-same fin v (again (ltb_ℤ (pos 0) n) fin v c h e)))))
      ]

  on_closing-view :
      (p : Frame D) (needoutput : Bool) (v : Closing) (t : State) (c : Conn D)
      → c.state ≡ t
      → leb 6 (number t) ≡ true
      → view t ≡ some v
      → eq_ℤ p.segment.seqno (rcv_nxt c) ≡ true
      → empty c.rq ≡ true
      → p.segment.flags.fin ≡ p.tiflags.fin
      → Closes sc.fuel c.maxburst t (closer true p.tiflags.fin v) (on_closing sc p needoutput t c)
  unfolding on_closing view number reset full_cleared cancel_timers
  on_closing-view p n v fin_wait_1 c at late h next nothing same =
      let after = cancel_timers (newstate fin_wait_2 c) in
      subst (λ w. Closes sc.fuel c.maxburst fin_wait_1 w (step6 sc p false after))
        (closer-then p.tiflags.fin v)
        (step6-view p false (closer true false v) fin_wait_1 after
          (ap (Option.map (closer true false)) h) next nothing same)
  on_closing-view p n v closing c at late h next nothing same =
      let after = cancel_timers (newstate closed c) in
      subst (λ w. Closes sc.fuel c.maxburst closing w (step6 sc p n after))
        (closer-then p.tiflags.fin v)
        (step6-view p n (closer true false v) closing after (ap (Option.map (closer true false)) h)
          next nothing same)
  on_closing-view p n v last_ack c at late h next nothing same =
      let t = record c.tcp { window = record c.tcp.window { syn = true } } in
      elim (Option-cases (reset_sender sc.boot t)) [
        | inl e ↦ rw e refl
        | inr e ↦ rw e.1 (ap (Option.map (closer true p.tiflags.fin)) h)
      ]
  on_closing-view p n v fin_wait_2 c at late h next nothing same =
      subst (λ w. Closes sc.fuel c.maxburst fin_wait_2 w (step6 sc p n c))
        (closer-acked p.tiflags.fin v (sym (ap acked_of h)))
        (step6-view p n v fin_wait_2 c (ap view at ∙ h) next nothing same)
  on_closing-view p n v closed c at late h next nothing same = cc
  on_closing-view p n v listen c at late h next nothing same = cc
  on_closing-view p n v syn_sent c at late h next nothing same = cc
  on_closing-view p n v syn_received c at late h next nothing same = cc
  on_closing-view p n v established c at late h next nothing same = cc
  on_closing-view p n v close_wait c at late h next nothing same = cc

  -- A connection that has sent its FIN, with an empty queue, takes the next segment in order, whose
  -- FIN has not been cut off: `acked_fin` sees the acknowledgment and then the rest. Where the call
  -- returns, the state says just this: the FIN is acknowledged if it was or the segment acknowledges
  -- all that was sent, and the peer has finished if it had or the segment has a FIN. Else the program
  -- exits in what is sent, or, in LAST_ACK, it stops in `reset`; and the passes of the model run out
  -- only where bursts have no limit within them.
  pub acked_fin-Closes :
      (p : Frame D) (v : Closing) (c : Conn D)
      → view c.state ≡ some v
      → eq_ℤ p.segment.seqno (rcv_nxt c) ≡ true
      → empty c.rq ≡ true
      → p.segment.flags.fin ≡ p.tiflags.fin
      → Closes sc.fuel c.maxburst c.state
          (closer (eq_ℤ p.segment.ackno c.tcp.maxseq) p.tiflags.fin v)
          (acked_fin sc p c)
  unfolding acked_fin fin_acked
  acked_fin-Closes p v c h next nothing same =
      let acks = eq_ℤ p.segment.ackno c.tcp.maxseq in
      let fin = p.tiflags.fin in
      let whole : Bool → Verdict D → Type 0 =
        λ b x. Closes sc.fuel c.maxburst c.state (closer b fin v) x in
      let later = step6-view p acks v c.state c h next nothing same in
      elim (Bool-cases (leb 6 (number c.state) && acks)) [
        | inl e ↦
            subst (λ b. whole b (acked_fin sc p c)) (sym (second _ acks e))
              (subst (whole true)
                (sym (if_true (leb 6 (number c.state) && acks) _ (step6 sc p acks c) e))
                (on_closing-view p acks v c.state c refl (first _ acks e) h next nothing same))
        | inr e ↦
            subst (whole acks)
              (sym (if_not (leb 6 (number c.state) && acks) (on_closing sc p acks c.state c) _ e))
              (subst (λ w. Closes sc.fuel c.maxburst c.state w (step6 sc p acks c))
                (unseen fin acks c.state v h e) later)
      ]
