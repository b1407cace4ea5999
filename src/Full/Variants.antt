-- ===== src/Full/Variants.antt =====
-- The variants of FullTcpAgent in tcp/tcp-full.cc that send as it does: TahoeFullTcpAgent and
-- NewRenoFullTcpAgent; and TcpIAFullAgent of tcp/tcp-ia-full.cc.
use tcpincast.Base.{
  ℕ, ◌+◌, ℤ, pos, pos_part, minus_one, ◌-ℤ◌, ltb_ℤ, leb_ℤ, eq_ℤ, leb, true, false, not, ◌&&◌, ◌||◌,
  ◌==◌, if◌then◌else◌, Option, none, some,
}
use tcpincast.Tcp.Double.{Double}
use tcpincast.Tcp.Agent.{dupack_taken, is_ecn, close_ssthresh_half, close_cwnd_one}
use tcpincast.Tcp.Timer.{of_nat}
use tcpincast.Full.Data.{syn_received, is_state, number, normal, Conn, ahbytes}
use tcpincast.Full.Depart.{set_rtx_timer}
use tcpincast.Full.Send.{Run, done, exits, send_much}
use tcpincast.Full.Ack.{
  set_action, set_recover, set_t_seqno, set_cwnd, slow_conn, ack_action, fast_retransmit, conn_of,
}

pub record NewRenoConn (D : Type 0) : Type 0 where
  pub base : Conn D
  pub save_maxburst : ℤ
  pub recov_maxburst : ℕ

pub record IaConn (D : Type 0) : Type 0 where
  pub base : Conn D
  pub advwnd_ia : D

module _ {D : Type 0} where
  -- During recovery the number of packets that an acknowledgment sends has another limit.
  unfoldable pub limit_burst : NewRenoConn D → NewRenoConn D
  limit_burst r =
      if ltb_ℤ r.save_maxburst (pos 0)
      then record r {
        save_maxburst = pos r.base.maxburst;
        base = record r.base { maxburst = r.recov_maxburst };
      }
      else r

  unfoldable pub restore_burst : NewRenoConn D → NewRenoConn D
  restore_burst r =
      if leb_ℤ (pos 0) r.save_maxburst
      then record r {
        base = record r.base { maxburst = pos_part r.save_maxburst };
        save_maxburst = minus_one;
      }
      else r

module _ {D : Type 0} ⦃d : Double D⦄ where
  open d use {of_int}

  abbrev pub deflated : NewRenoConn D → Option (Conn D) → Option (NewRenoConn D)
  deflated r none = none
  deflated r (some c) =
      some (limit_burst (record r { base = set_cwnd (of_int c.tcp.window.ssthresh) c }))

  -- A partial acknowledgment: the next hole is sent, and recovery goes on.
  unfoldable pub pack_action_newreno : D → D → NewRenoConn D → Option (NewRenoConn D)
  pack_action_newreno now u r =
      deflated r (conn_of (fast_retransmit now u r.base.tcp.highest_ack r.base))

  unfoldable pub ack_action_newreno : NewRenoConn D → NewRenoConn D
  ack_action_newreno r =
      let restored = restore_burst r in record restored { base = ack_action restored.base }

  -- Back to what is acknowledged.
  abbrev pub back : Option (Conn D) → Option (Conn D)
  back none = none
  back (some c) = some (set_t_seqno c.tcp.highest_ack (record c { rtt_active = false }))

  abbrev pub run_of : (Conn D → Run D) → Option (Conn D) → Run D
  run_of f none = exits
  run_of f (some c) = f c

  abbrev pub full_tahoe_action : ℕ → D → D → (ℕ → D) → D → Conn D → Run D
  full_tahoe_action fuel now u draws wait c =
      let target = if c.is_ha then c.tcp.maxseq -ℤ ahbytes else c.tcp.maxseq in
      let noted = set_action dupack_taken (set_recover target c) in
      run_of (send_much fuel now draws wait false normal 0)
        (back (set_rtx_timer u (slow_conn (close_ssthresh_half + close_cwnd_one) noted)))

  unfoldable pub dupack_action_tahoe : ℕ → D → D → (ℕ → D) → D → Conn D → Run D
  dupack_action_tahoe fuel now u draws wait c =
      let began = record c { fastrecov = true; rtxbytes = pos 0 } in
      let may_cut =
        ltb_ℤ c.tcp.recover c.tcp.highest_ack
        || (not c.bug_fix && not c.ecn)
        || eq_ℤ c.tcp.highest_ack (pos 0) in
      if may_cut
      then full_tahoe_action fuel now u draws wait began
      else (if c.ecn && is_ecn c.tcp.window.last_cwnd_action
          then run_of done
              (back (set_rtx_timer u (slow_conn close_cwnd_one (set_action dupack_taken began))))
          else (if c.bug_fix then done began else full_tahoe_action fuel now u draws wait began))

  -- The window that the command `active` gives: none, or that of the script.
  abbrev pub set_wnd : D → IaConn D → IaConn D
  set_wnd x a = record a {
    base = record a.base {
      tcp = record a.base.tcp { window = record a.base.tcp.window { wnd = x } };
    };
  }

  abbrev pub announced : ℕ → D → (ℕ → D) → D → IaConn D → Run D
  announced fuel now draws wait a =
      let c = a.base in
      if leb 4 (number c.state) || is_state c.state syn_received
      then send_much fuel now draws wait true normal c.maxburst (record c { acknow = true })
      else done c

  -- The command `active`; `none` is the error that is reported to the script.
  unfoldable pub active : ℤ → ℕ → D → (ℕ → D) → D → IaConn D → Option (Run D)
  active (pos n) fuel now draws wait a =
      if n == 0
      then some (announced fuel now draws wait (set_wnd (of_nat 0) a))
      else (if n == 1 then some (announced fuel now draws wait (set_wnd a.advwnd_ia a)) else none)
  active n fuel now draws wait a = none
