-- ===== src/Full/Asked.antt =====
-- What the application asks FullTcpAgent of tcp/tcp-full.cc to send, where no connection is open.
use tcpincast.Base.{ℤ, minus_one, ◌+ℤ◌, ◌≡◌, true, none, []}
use tcpincast.Tcp.Double.{Double}
use tcpincast.Tcp.Open.{set_initial_window}
use tcpincast.Full.Data.{syn_sent, Conn}
use tcpincast.Full.Held.{Enters}
use tcpincast.Full.Fixed.{Fixed}
use tcpincast.Full.Pass.{Stops}
use tcpincast.Full.Reset.{Advanced, runs, aborts}

-- A connection that starts over with `nb` bytes to send: nothing has come, nothing is acknowledged,
-- and the data is all that is asked for.
pub record Starts {D : Type 0} (nb : ℤ) (c e : Conn D) : Type 0 where
  pub none_waits : (e.rq.fifo ≡ []) × (e.rq.lifo ≡ []) × (e.rq.total ≡ 0)
  pub none_came : e.rq.rcv_nxt ≡ minus_one
  pub none_acked : e.tcp.highest_ack ≡ minus_one
  pub ends : e.curseq ≡ c.iss +ℤ nb
  pub enters : Enters syn_sent e.state

-- The call returns so, or exits; `Y` is for `abort()`.
abbrev pub Opens : {D : Type 0} → Type 0 → ℤ → Conn D → Advanced D → Type 0
Opens Y nb c (runs r) = Stops (Starts nb c) r
Opens Y nb c aborts = Y

module _ {D : Type 0} ⦃d : Double D⦄ where
  -- The option of the initial window is none that is known.
  abbrev pub Windowless : Conn D → Type 0
  Windowless c = set_initial_window (record c.tcp.window { syn = true }) ≡ none

  -- The connection as the SYN finds it.
  abbrev Blank : ℤ → Conn D → Fixed → Type 0
  Blank nb c f =
      ((f.rq.fifo ≡ []) × (f.rq.lifo ≡ []) × (f.rq.total ≡ 0))
      × (f.rq.rcv_nxt ≡ minus_one)
      × (f.highest_ack ≡ minus_one)
      × (f.curseq ≡ c.iss +ℤ nb)
