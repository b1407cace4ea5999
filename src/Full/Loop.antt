-- ===== src/Full/Loop.antt =====
-- The loop of `send_much` in tcp/tcp-full.cc: that it ends, and what it keeps.
use tcpincast.Base.{
  ℕ, zero, suc, ◌+◌, ◌≤◌, ◌<◌, arith, pos, leb_ℤ, ◌≡◌, ◌⊎◌, Bool, not, false, ◌&&◌, Bool-cases, inl,
  inr, Option, none,
}
use tcpincast.Tcp.Double.{Double}
use tcpincast.Tcp.Timer.{rtt_timeout}
use tcpincast.Full.Data.{is_pending, Conn, Reason}
use tcpincast.Full.Plan.{Out}
use tcpincast.Full.Send.{
  Run, done, exits, out_of_fuel, sent, ends_burst, counted_amount, send_allowed, postpones,
  after_output, send_loop, send_much,
}
use tcpincast.Full.Fixed.{fixed}
use tcpincast.Full.Held.{foutput-Ends, Returns}
use tcpincast.Full.Pass.{
  Enough, Follows, Stops, Ended, Enough-after, Enough-first, Follows-postponed, Follows-refl,
  Follows-then, may_send, Returns-Follows, sent-Follows, Ended-map, unsent,
}

-- The fuel counts only where the burst has no limit within it.
abbrev pub Unlimited : ℕ → ℕ → Type 0
Unlimited fuel maxburst = ¬ ((0 < maxburst) × (maxburst ≤ fuel))

module _ {D : Type 0} ⦃d : Double D⦄ where
  -- What a pass does after `foutput`, when the passes that follow end.
  after_output-Ended :
      (X : Type 0) (u : D) (maxburst n : ℕ) (again : Conn D → Run D) (c : Conn D)
      (called : Option (Out D))
      → ((called ≡ none) × (rtt_timeout c.tcp.rtt u ≡ none)) ⊎ Returns c called
      → ((o : Out D)
          → fixed o.conn ≡ fixed c
          → leb_ℤ o.amount (pos 0) ≡ false
          → ends_burst (sent c.tcp.t_seqno (counted_amount o) o.conn) maxburst n ≡ false
          → Ended X
              (Follows (sent c.tcp.t_seqno (counted_amount o) o.conn))
              (again (sent c.tcp.t_seqno (counted_amount o) o.conn)))
      → Ended X (Follows c) (after_output c.tcp.t_seqno maxburst n again called)
  unfolding after_output
  after_output-Ended X u maxburst n again c called (inl x) ih = rw x.0 tt
  after_output-Ended X u maxburst n again c called (inr r) ih =
      let o = r.out in
      let moved = sent c.tcp.t_seqno (counted_amount o) o.conn in
      let first = Returns-Follows c called r in
      let after = Follows-then first (sent-Follows c.tcp.t_seqno (counted_amount o) o.conn) in
      elim (Bool-cases (leb_ℤ o.amount (pos 0))) [
        | inl e ↦ rw (r.equals, e) first
        | inr e ↦ elim (Bool-cases (ends_burst moved maxburst n)) [
          | inl f ↦ rw (r.equals, e, f) after
          | inr f ↦
              rw (r.equals, e, f)
                (Ended-map X (Follows moved) (Follows c) (λ e. Follows-then after) (again moved)
                  (ih o r.untouched e f))
        ]
      ]

  -- Whatever the fuel, a pass that returns keeps what a pass keeps.
  send_loop-Keeps :
      (fuel : ℕ) (now : D) (draws : ℕ → D) (wait : D) (why : Reason) (maxburst : ℕ) (force : Bool)
      (n : ℕ) (c : Conn D)
      → Ended Unit (Follows c) (send_loop fuel now draws wait why maxburst force n c)
  unfolding send_loop
  send_loop-Keeps zero now draws wait why maxburst force n c = tt
  send_loop-Keeps (suc fuel) now draws wait why maxburst force n c =
      elim (Bool-cases (not force && not (send_allowed c c.tcp.t_seqno))) [
        | inl e ↦ rw e (Follows-refl c)
        | inr e ↦ elim (Bool-cases (not force && postpones c)) [
          | inl f ↦ rw (e, f) (Follows-postponed c wait)
          | inr f ↦
              rw (e, f)
                (after_output-Ended Unit (draws n) maxburst n _ c _
                  (foutput-Ends now (draws n) c.tcp.t_seqno why c)
                  (λ o same positive goes.
                    send_loop-Keeps fuel now draws wait why maxburst false (n + 1) _))
        ]
      ]

  send_loop-Stops :
      (fuel : ℕ) (now : D) (draws : ℕ → D) (wait : D) (why : Reason) (maxburst : ℕ) (force : Bool)
      (n : ℕ) (c : Conn D)
      → Enough fuel force maxburst n c
      → Stops (Follows c) (send_loop fuel now draws wait why maxburst force n c)
  unfolding send_loop Enough
  send_loop-Stops zero now draws wait why maxburst force n c enough =
      absurd (ground (arith, enough))
  send_loop-Stops (suc fuel) now draws wait why maxburst force n c enough =
      elim (Bool-cases (not force && not (send_allowed c c.tcp.t_seqno))) [
        | inl e ↦ rw e (Follows-refl c)
        | inr e ↦ elim (Bool-cases (not force && postpones c)) [
          | inl f ↦ rw (e, f) (Follows-postponed c wait)
          | inr f ↦
              rw (e, f)
                (after_output-Ended ⊥ (draws n) maxburst n _ c _
                  (foutput-Ends now (draws n) c.tcp.t_seqno why c)
                  (λ o same positive goes.
                    send_loop-Stops fuel now draws wait why maxburst false (n + 1) _ (
                      Enough-after fuel maxburst n force c o same positive goes
                        (may_send force (send_allowed c c.tcp.t_seqno) e) enough)))
        ]
      ]

  -- Where the data of the application is finite, or a limit of packets is given, `send_much` ends
  -- after a pass for each byte that is not sent and two more, or after as many passes as the limit
  -- says: it returns or the program exits. It changes neither the data, nor the reassembly queue,
  -- nor a state in which no FIN goes with the data; and what it acknowledges is neither below what
  -- was acknowledged nor beyond what has come, where that held before.
  pub send_much-Stops :
      (fuel : ℕ) (now : D) (draws : ℕ → D) (wait : D) (force : Bool) (why : Reason) (maxburst : ℕ)
      (c : Conn D)
      → ((c.infinite_send ≡ false) × (unsent c + 2 ≤ fuel)) ⊎ ((0 < maxburst) × (maxburst ≤ fuel))
      → Stops (Follows c) (send_much fuel now draws wait force why maxburst c)
  unfolding send_much
  send_much-Stops fuel now draws wait force why maxburst c enough =
      elim (Bool-cases (not force && is_pending c.delsnd_timer)) [
        | inl e ↦ rw e (Follows-refl c)
        | inr e ↦ rw e (
            send_loop-Stops fuel now draws wait why maxburst force 0 c
              (Enough-first fuel force maxburst c enough))
      ]

  limited :
      (fuel b : ℕ) (P : Conn D → Type 0) (r : Run D)
      → Ended Unit P r
      → ((0 < b) × (b ≤ fuel) → Stops P r)
      → Ended (Unlimited fuel b) P r
  limited fuel b P (done c) keeps stops = keeps
  limited fuel b P exits keeps stops = tt
  limited fuel b P out_of_fuel keeps stops = stops

  -- With any fuel, `send_much` keeps what a pass keeps, and ends within a limit of packets.
  pub send_much-Keeps :
      (fuel : ℕ) (now : D) (draws : ℕ → D) (wait : D) (force : Bool) (why : Reason) (maxburst : ℕ)
      (c : Conn D)
      → Ended
          (Unlimited fuel maxburst)
          (Follows c)
          (send_much fuel now draws wait force why maxburst c)
  unfolding send_much
  send_much-Keeps fuel now draws wait force why maxburst c =
      elim (Bool-cases (not force && is_pending c.delsnd_timer)) [
        | inl e ↦ rw e (Follows-refl c)
        | inr e ↦ rw e (
            limited fuel maxburst (Follows c) (send_loop fuel now draws wait why maxburst force 0 c)
              (send_loop-Keeps fuel now draws wait why maxburst force 0 c)
              (λ h.
                send_loop-Stops fuel now draws wait why maxburst force 0 c
                  (Enough-first fuel force maxburst c (inr h))))
      ]
