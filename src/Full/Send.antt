-- ===== src/Full/Send.antt =====
-- tcp/tcp-full.cc, the loop that sends and the calls of the application: sent, send_allowed,
-- send_much, connect, listen, usrclosed and cancel_timers. The i-th pass of the loop draws `draws i`;
-- `wait` is what `Random::uniform(overhead_)` returns.
use tcpincast.Base.{
  ℕ, zero, suc, ◌+◌, ℤ, pos, ◌+ℤ◌, ◌-ℤ◌, ◌*ℤ◌, ltb_ℤ, leb_ℤ, eq_ℤ, Bool, true, false, not, ◌&&◌,
  ◌||◌, if◌then◌else◌, leb, ◌==◌, ◌∷◌, Option, none, some,
}
use tcpincast.Tcp.Double.{Double}
use tcpincast.Tcp.Open.{window}
use tcpincast.Full.Data.{
  State, closed, listen, syn_sent, syn_received, established, close_wait, fin_wait_1, closing,
  last_ack, fin_wait_2, Reason, normal, Conn, finish, is_pending,
}
use tcpincast.Full.Packet.{outflags}
use tcpincast.Full.Plan.{Out}
use tcpincast.Full.Output.{foutput}

-- How a call that sends ends: with a connection, by `exit(1)`, or with the model's fuel used up.
pub data Run (D : Type 0) : Type 0 where
  done : Conn D → Run D
  exits : Run D
  out_of_fuel : Run D

-- What `usrclosed` does on the state: the state that it enters, and whether a FIN is to be sent.
pub data Close : Type 0 where
  ends : Close
  sends_fin : State → Close
  refuses : Close

unfoldable pub on_close : State → Close
on_close closed = ends
on_close listen = ends
on_close syn_sent = sends_fin closed
on_close last_ack = sends_fin last_ack
on_close syn_received = sends_fin fin_wait_1
on_close established = sends_fin fin_wait_1
on_close close_wait = sends_fin last_ack
on_close fin_wait_1 = refuses
on_close fin_wait_2 = refuses
on_close closing = refuses

module _ {D : Type 0} where
  -- The virtual `sent`.
  unfoldable pub sent : ℤ → ℤ → Conn D → Conn D
  sent seq amt c = record c {
    tcp = record c.tcp {
      t_seqno = if eq_ℤ seq c.tcp.t_seqno then c.tcp.t_seqno +ℤ amt else c.tcp.t_seqno;
    };
    pipe = c.pipe +ℤ amt;
    rtxbytes = if ltb_ℤ seq c.tcp.maxseq then c.rtxbytes +ℤ amt else c.rtxbytes;
  }

  abbrev pub newstate : State → Conn D → Conn D
  newstate s c = record c { state = s }

  -- The timers that are modelled: the burst timer and the hold-ack timer are never set.
  unfoldable pub cancel_timers : Conn D → Conn D
  cancel_timers c = record c { rtx_timer = none; delsnd_timer = none; delack_timer = none }

  unfoldable pub passive_open : Conn D → Conn D
  passive_open c = record (newstate listen c) { is_ack_type = true }

  -- SYN and FIN are sent alone.
  abbrev pub ends_burst : Conn D → ℕ → ℕ → Bool
  ends_burst c maxburst n =
      let p = outflags c.state in p.syn || p.fin || (not (maxburst == 0) && leb maxburst (n + 1))

  -- The amount by which `send_much` moves on: a FIN is not counted.
  abbrev pub counted_amount : Out D → ℤ
  counted_amount o = if (outflags o.conn.state).fin then o.amount -ℤ pos 1 else o.amount

module _ {D : Type 0} ⦃d : Double D⦄ where
  open d use {of_int, equal}

  -- The end of what may be sent: of the window, or of the data.
  unfoldable pub topwin : Conn D → ℤ
  topwin c =
      let win = window c.tcp *ℤ c.maxseg in
      if ltb_ℤ (c.tcp.highest_ack +ℤ win) c.curseq || c.infinite_send
      then c.tcp.highest_ack +ℤ win
      else c.curseq

  unfoldable pub send_allowed : Conn D → ℤ → Bool
  send_allowed c seq = ltb_ℤ seq (topwin c)

  -- The delayed sending that `overhead_` asks for.
  abbrev pub postpones : Conn D → Bool
  postpones c = not (equal c.overhead (of_int (pos 0))) && not (is_pending c.delsnd_timer)

  -- What a pass does with the outcome of `foutput`; `again` is the rest of the loop.
  unfoldable pub after_output : ℤ → ℕ → ℕ → (Conn D → Run D) → Option (Out D) → Run D
  after_output seq maxburst n again none = exits
  after_output seq maxburst n again (some o) =
      let moved = sent seq (counted_amount o) o.conn in
      let rest = again moved in
      if leb_ℤ o.amount (pos 0)
      then done o.conn
      else (if ends_burst moved maxburst n then done moved else rest)

  unfoldable pub send_loop : ℕ → D → (ℕ → D) → D → Reason → ℕ → Bool → ℕ → Conn D → Run D
  send_loop zero now draws wait reason maxburst force n c = out_of_fuel
  send_loop (suc fuel) now draws wait reason maxburst force n c =
      let next =
        after_output c.tcp.t_seqno maxburst n
          (send_loop fuel now draws wait reason maxburst false (n + 1))
          (foutput now (draws n) c.tcp.t_seqno reason c) in
      if not force && not (send_allowed c c.tcp.t_seqno)
      then done c
      else (if not force && postpones c then done (record c { delsnd_timer = some wait }) else next)

  unfoldable pub send_much : ℕ → D → (ℕ → D) → D → Bool → Reason → ℕ → Conn D → Run D
  send_much fuel now draws wait force reason maxburst c =
      if not force && is_pending c.delsnd_timer
      then done c
      else send_loop fuel now draws wait reason maxburst force 0 c

  abbrev pub sent_first : ℤ → Option (Out D) → Run D
  sent_first seq none = exits
  sent_first seq (some o) = done (sent seq o.amount o.conn)

  -- The active open.
  unfoldable pub connect : D → D → Conn D → Run D
  connect now u c = sent_first c.iss (foutput now u c.iss normal (newstate syn_sent c))

  -- `curseq_ = maxseq_ - 1`: no more data.
  unfoldable pub no_more_data : Conn D → Conn D
  no_more_data c = record c { curseq = c.tcp.maxseq -ℤ pos 1; infinite_send = false }

  unfoldable pub close_with : (Conn D → Run D) → Close → Conn D → Run D
  close_with send ends c =
      done (record (newstate closed (cancel_timers c)) { notices = finish ∷ c.notices })
  close_with send (sends_fin s) c = send (record c { state = s; needfin = true })
  close_with send refuses c = done c

  unfoldable pub usrclosed : ℕ → D → (ℕ → D) → D → Conn D → Run D
  usrclosed fuel now draws wait c =
      close_with (λ e. send_much fuel now draws wait true normal c.maxburst e) (on_close c.state)
        (no_more_data c)
