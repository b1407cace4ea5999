-- ===== src/Full/Closing.antt =====
-- The close by the application in tcp/tcp-full.cc: the state that `usrclosed` leaves.
use tcpincast.Base.{ℕ, ◌+◌, ◌≤◌, ◌<◌, ◌≡◌, ◌⊎◌, refl, ◌∙◌, true, false, inl, inr, sym}
use tcpincast.Tcp.Double.{Double}
use tcpincast.Full.Data.{
  State, closed, listen, syn_sent, syn_received, established, close_wait, fin_wait_1, closing,
  last_ack, fin_wait_2, Conn, normal, opens,
}
use tcpincast.Full.Send.{
  Close, ends, sends_fin, refuses, on_close, close_with, no_more_data, usrclosed, send_much,
}
use tcpincast.Full.Pass.{Follows, Stops, unsent, Ended-map, Enters-settled}
use tcpincast.Full.Loop.{send_much-Stops}

-- The state after a close, as the diagram of RFC 793 has it; from SYN_SENT the connection closes.
unfoldable pub after_close : State → State
after_close syn_received = fin_wait_1
after_close established = fin_wait_1
after_close close_wait = last_ack
after_close last_ack = last_ack
after_close fin_wait_1 = fin_wait_1
after_close fin_wait_2 = fin_wait_2
after_close closing = closing
after_close _ = closed

abbrev Leads : State → Close → Type 0
Leads s ends = after_close s ≡ closed
Leads s (sends_fin t) = (after_close s ≡ t) × (opens t ≡ false)
Leads s refuses = after_close s ≡ s

on_close-Leads : (s : State) → Leads s (on_close s)
unfolding on_close after_close opens
on_close-Leads closed = refl
on_close-Leads listen = refl
on_close-Leads syn_sent = (refl, refl)
on_close-Leads syn_received = (refl, refl)
on_close-Leads established = (refl, refl)
on_close-Leads close_wait = (refl, refl)
on_close-Leads fin_wait_1 = refl
on_close-Leads closing = refl
on_close-Leads last_ack = (refl, refl)
on_close-Leads fin_wait_2 = refl

abbrev Suffices : {D : Type 0} → ℕ → Conn D → Type 0
Suffices fuel c = (unsent c + 2 ≤ fuel) ⊎ ((0 < c.maxburst) × (c.maxburst ≤ fuel))

module _ {D : Type 0} ⦃d : Double D⦄ where
  finite-Suffices :
      (fuel : ℕ) (c : Conn D)
      → c.infinite_send ≡ false
      → Suffices fuel c
      → ((c.infinite_send ≡ false) × (unsent c + 2 ≤ fuel))
        ⊎ ((0 < c.maxburst) × (c.maxburst ≤ fuel))
  finite-Suffices fuel c h (inl x) = inl (h, x)
  finite-Suffices fuel c h (inr x) = inr x

  close_with-Stops :
      (fuel : ℕ) (now : D) (draws : ℕ → D) (wait : D) (s : State) (k : Close) (c : Conn D)
      → Leads s k
      → c.state ≡ s
      → c.infinite_send ≡ false
      → Suffices fuel c
      → Stops
          (λ e. e.state ≡ after_close s)
          (close_with (λ e. send_much fuel now draws wait true normal c.maxburst e) k c)
  unfolding close_with
  close_with-Stops fuel now draws wait s ends c leads here finite enough = sym leads
  close_with-Stops fuel now draws wait s (sends_fin t) c leads here finite enough =
      let fin = record c { state = t; needfin = true } in
      Ended-map ⊥ (Follows fin) (λ e. e.state ≡ after_close s)
        (λ e f. Enters-settled t e.state f.enters leads.1 ∙ sym leads.0)
        (send_much fuel now draws wait true normal c.maxburst fin)
        (send_much-Stops fuel now draws wait true normal c.maxburst fin
          (finite-Suffices fuel fin finite enough))
  close_with-Stops fuel now draws wait s refuses c leads here finite enough = here ∙ sym leads

  -- With passes enough for what is not sent or for the limit of packets, `usrclosed` ends, by
  -- returning or by `exit(1)`, and the connection it returns is in the state of the diagram:
  -- FIN_WAIT_1 from SYN_RECEIVED and ESTABLISHED, LAST_ACK from CLOSE_WAIT, CLOSED from CLOSED,
  -- LISTEN and SYN_SENT, and else the state it was in.
  pub usrclosed-Stops :
      (fuel : ℕ) (now : D) (draws : ℕ → D) (wait : D) (c : Conn D)
      → (unsent (no_more_data c) + 2 ≤ fuel) ⊎ ((0 < c.maxburst) × (c.maxburst ≤ fuel))
      → Stops (λ e. e.state ≡ after_close c.state) (usrclosed fuel now draws wait c)
  unfolding usrclosed no_more_data
  usrclosed-Stops fuel now draws wait c enough =
      close_with-Stops fuel now draws wait c.state (on_close c.state) (no_more_data c)
        (on_close-Leads c.state) refl refl enough
