-- ===== src/Full/Reset.antt =====
-- tcp/tcp-full.cc: `FullTcpAgent::reset`, and what the application asks to send: advance_bytes,
-- advanceby and sendmsg. `none` stands for `abort()`.
use mathlib.Core.Option
use tcpincast.Base.{
  ℕ, ℤ, pos, minus_one, ◌+ℤ◌, ◌*ℤ◌, ltb_ℤ, leb_ℤ, eq_ℤ, pos_part, ◌/◌, true, false, if◌then◌else◌,
  Option, none, some,
}
use tcpincast.Tcp.Double.{Double}
use tcpincast.Tcp.Agent.{Sender}
use tcpincast.Tcp.Timer.{rtt_init}
use tcpincast.Tcp.Reset.{reset_sender}
use tcpincast.Rq.Defs.{clear}
use tcpincast.Full.Data.{State, closed, listen, syn_sent, syn_received, established, normal, Conn}
use tcpincast.Full.Send.{Run, done, cancel_timers, connect, send_much}

-- How a call ends that may also `abort()`.
pub data Advanced (D : Type 0) : Type 0 where
  runs : Run D → Advanced D
  aborts : Advanced D

-- The flags of `sendmsg`.
pub data Ending : Type 0 where
  goes_on msg_eof dat_eof : Ending

unfoldable pub note_ending : {D : Type 0} → Ending → Conn D → Conn D
note_ending goes_on c = c
note_ending msg_eof c = record c { close_on_empty = true }
note_ending dat_eof c = record c { signal_on_empty = true }

module _ {D : Type 0} ⦃d : Double D⦄ where
  open d use {of_int}

  -- The variables of TcpAgent that `reset` of TcpAgent clears, and its counters.
  abbrev base_cleared : Conn D → Sender D → Conn D
  base_cleared c s = record (cancel_timers c) {
    tcp = s;
    rtt_seq = minus_one;
    dupacks = pos 0;
    curseq = pos 0;
    ndatapack = 0;
    ndatabytes = pos 0;
    nackpack = 0;
    nrexmitbytes = pos 0;
    nrexmit = 0;
    nrexmitpack = 0;
  }

  -- `recent_` and `recent_age_`.
  abbrev first_stamp : Conn D → D
  first_stamp c = if c.tcp.rtt.ts_option then of_int (pos 0) else of_int minus_one

  -- The rest of `FullTcpAgent::reset`.
  unfoldable pub full_cleared : Conn D → Conn D
  full_cleared c = record c {
    tcp = record c.tcp { rtt = rtt_init c.tcp.rtt; t_seqno = c.iss; maxseq = minus_one };
    rq = record (clear c.rq) { rcv_nxt = minus_one };
    last_ack_sent = minus_one;
    pipe = pos 0;
    rtxbytes = pos 0;
    acknow = false;
    delack = false;
    needfin = false;
    needclose = false;
    irs = minus_one;
    last_send_time = of_int minus_one;
    highest_ack_sent = minus_one;
    recent = first_stamp c;
    recent_age = first_stamp c;
    fastrecov = false;
    close_on_empty = false;
    ecn_syn_next = c.ecn_syn;
  }

  -- `set_initial_window` of FullTcpAgent sets `syn_` first.
  unfoldable pub reset : D → Conn D → Option (Conn D)
  reset boot c =
      let with_syn : Sender D = record c.tcp { window = record c.tcp.window { syn = true } } in
      Option.map (λ s. full_cleared (base_cleared c s)) (reset_sender boot with_syn)

  abbrev pub opened : D → D → ℤ → Option (Conn D) → Advanced D
  opened now u nb none = aborts
  opened now u nb (some c) = runs (connect now u (record c { curseq = c.iss +ℤ nb }))

  abbrev pub queued : ℤ → Conn D → Conn D
  queued nb c = record c { curseq = (if ltb_ℤ c.curseq c.iss then c.iss else c.curseq) +ℤ nb }

  -- What a state allows; a connection that is closing takes no more data.
  unfoldable pub advance_in : State → ℕ → D → D → D → (ℕ → D) → D → ℤ → Conn D → Advanced D
  advance_in closed fuel now boot u draws wait nb c = opened now u nb (reset boot c)
  advance_in listen fuel now boot u draws wait nb c = opened now u nb (reset boot c)
  advance_in established fuel now boot u draws wait nb c =
      runs (send_much fuel now draws wait false normal c.maxburst (queued nb c))
  advance_in syn_sent fuel now boot u draws wait nb c = runs (done (queued nb c))
  advance_in syn_received fuel now boot u draws wait nb c = runs (done (queued nb c))
  advance_in _ fuel now boot u draws wait nb c = runs (done c)

  unfoldable pub advance_bytes : ℕ → D → D → D → (ℕ → D) → D → ℤ → Conn D → Advanced D
  unfolding advance_in
  advance_bytes fuel now boot u draws wait nb c = advance_in c.state fuel now boot u draws wait nb c

  -- `np` packets; a huge number is taken for a number of bytes. `maxseg_` is positive.
  unfoldable pub advanceby : ℕ → D → D → D → (ℕ → D) → D → ℤ → Conn D → Advanced D
  advanceby fuel now boot u draws wait np c =
      let packets =
        if leb_ℤ (pos 268435456) np then pos (pos_part np / pos_part c.maxseg) else np in
      advance_bytes fuel now boot u draws wait (packets *ℤ c.maxseg) c

  -- `nbytes` of -1 asks to send for ever.
  unfoldable pub sendmsg : ℕ → D → D → D → (ℕ → D) → D → ℤ → Ending → Conn D → Advanced D
  sendmsg fuel now boot u draws wait nbytes e c =
      let noted = note_ending e c in
      if eq_ℤ nbytes minus_one
      then advance_bytes fuel now boot u draws wait (pos 0) (record noted { infinite_send = true })
      else advance_bytes fuel now boot u draws wait nbytes noted
