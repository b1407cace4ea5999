-- ===== src/Full/Timers.antt =====
-- tcp/tcp-full.cc, what a timer does: reset_rtx_timer, timeout_action, timeout and rtxreq_action.
use tcpincast.Base.{
  ℕ, ◌+◌, pos, ◌-ℤ◌, ltb_ℤ, eq_ℤ, true, false, ◌&&◌, if◌then◌else◌, Option, none, some,
}
use tcpincast.Tcp.Double.{Double}
use tcpincast.Tcp.Agent.{
  timeout_taken, is_ecn, close_ssthresh_half, close_cwnd_restart, close_cwnd_one,
}
use tcpincast.Tcp.Timer.{of_nat, rtt_backoff}
use tcpincast.Full.Data.{listen, is_state, Reason, normal, for_sack, Conn, ahbytes}
use tcpincast.Full.Depart.{set_rtx_timer}
use tcpincast.Full.Send.{Run, done, exits, out_of_fuel, send_much, cancel_timers}
use tcpincast.Full.Ack.{set_action, set_recover, set_t_seqno, set_cwnd, segment_start, slow_conn}

pub data Timer : Type 0 where
  rtx delsnd delack holdack other : Timer

-- `PF_TIMEOUT` is passed as the reason; its value, 4, is that of `REASON_SACK`.
abbrev pub pf_timeout : Reason
pf_timeout = for_sack

module _ {D : Type 0} ⦃d : Double D⦄ where
  open d use {below}

  abbrev pub stop_timing : Option (Conn D) → Option (Conn D)
  stop_timing none = none
  stop_timing (some c) = some (record c { rtt_active = false })

  -- The timeout is backed off, except when all is acknowledged and `restart_bugfix_` is set.
  unfoldable pub reset_rtx_timer : D → Conn D → Option (Conn D)
  reset_rtx_timer u c =
      let backed = record c { tcp = record c.tcp { rtt = rtt_backoff c.tcp.rtt } } in
      stop_timing (
        set_rtx_timer u
          (if eq_ℤ c.tcp.highest_ack c.tcp.maxseq && c.restart_bugfix then c else backed))

  -- The window after a timeout: after an ECN cut only `cwnd_` falls.
  unfoldable pub cut_window : Conn D → Conn D
  cut_window c =
      let raised = if below c.tcp.window.cwnd (of_nat 1) then set_cwnd (of_nat 1) c else c in
      if is_ecn c.tcp.window.last_cwnd_action
      then slow_conn close_cwnd_one raised
      else set_action timeout_taken (slow_conn (close_ssthresh_half + close_cwnd_restart) raised)

  -- Where sending goes on.
  unfoldable pub rewound : Conn D → Conn D
  rewound c =
      let start =
        if c.is_ha && ltb_ℤ (pos 1) c.tcp.highest_ack
        then segment_start c
        else (if ltb_ℤ c.tcp.highest_ack (pos 0) then c.iss else c.tcp.highest_ack) in
      record (set_t_seqno start c) { fastrecov = false; dupacks = pos 0 }

  -- Then `send` is called, where the timer could be set.
  abbrev pub resume : (Conn D → Run D) → Option (Conn D) → Run D
  resume send none = exits
  resume send (some c) = send (rewound c)

  unfoldable pub timeout_action : ℕ → D → D → (ℕ → D) → D → Conn D → Run D
  timeout_action fuel now u draws wait c =
      let target = if c.is_ha then c.tcp.maxseq -ℤ ahbytes else c.tcp.maxseq in
      let noted = set_recover target c in
      if c.is_ack_type
      then done noted
      else (if ltb_ℤ c.sru_bytes c.tcp.highest_ack
          then done (cancel_timers noted)
          else resume (λ e. send_much fuel now draws wait true pf_timeout e.maxburst e)
              (reset_rtx_timer u (cut_window noted)))

  abbrev then_delack : Run D → Run D
  then_delack (done c) = done (record c { delack_timer = some c.delack_interval })
  then_delack exits = exits
  then_delack out_of_fuel = out_of_fuel

  unfoldable pub timeout : Timer → ℕ → D → D → (ℕ → D) → D → Conn D → Run D
  timeout tno fuel now u draws wait c = if is_state c.state listen then done c else on_timer tno
    where
      on_timer : Timer → Run D
      on_timer rtx = timeout_action fuel now u draws wait (record c { nrexmit = c.nrexmit + 1 })
      on_timer delsnd = send_much fuel now draws wait true pf_timeout c.maxburst c
      on_timer delack = then_delack (
          if c.delack
          then send_much fuel now draws wait true normal 0
              (record c { delack = false; acknow = true })
          else done c)
      on_timer holdack = done c
      on_timer other = done c
