-- ===== src/Tcp/Reset.antt =====
-- tcp/tcp.cc: `TcpAgent::reset`, on the variables that are modelled. `boot` is what
-- `Random::uniform(tcp_tick_)` returns, and `none` stands for the `abort()` of the initial window.
use mathlib.Core.Option
use tcpincast.Base.{ℤ, pos, minus_one, ◌*ℤ◌, ltb_ℤ, true, ◌&&◌, ◌==◌, if◌then◌else◌, Option}
use tcpincast.Tcp.Double.{Double}
use tcpincast.Tcp.Agent.{Window, Hstcp, Sender, no_action}
use tcpincast.Tcp.Timer.{rtt_init, of_nat}
use tcpincast.Tcp.Open.{set_initial_window}

module _ {D : Type 0} ⦃d : Double D⦄ where
  open d use {of_int, to_int, plus, minus, times, over, log}

  -- The parameters of HighSpeed TCP.
  unfoldable pub reset_hstcp : Window D → Hstcp D
  reset_hstcp w =
      let low : D = of_int w.low_window in
      let half : D = over (of_nat 1) (of_nat 2) in
      let low_p : D = over (over (of_nat 3) (of_nat 2)) (of_int (w.low_window *ℤ w.low_window)) in
      let high_low_win : D = minus (log (of_int w.high_window)) (log low) in
      let high_low_p : D = minus (log w.high_p) (log low_p) in
      record w.hstcp {
        low_p = low_p;
        dec1 = minus half (over (times (log low) (minus w.high_decrease half)) high_low_win);
        dec2 = over (minus w.high_decrease half) high_low_win;
        p1 = minus (log low_p) (over (times (log low) high_low_p) high_low_win);
        p2 = over high_low_p high_low_win;
      }

  abbrev capped_ssthresh : Window D → ℤ
  capped_ssthresh w =
      let whole = to_int w.wnd in
      if ltb_ℤ (pos 0) w.max_ssthresh && ltb_ℤ w.max_ssthresh whole then w.max_ssthresh else whole

  unfoldable pub reset_window : Window D → Window D
  reset_window w = record w {
    ssthresh = capped_ssthresh w;
    wnd_restart = of_nat 1;
    awnd = over w.wnd_init (of_nat 2);
    last_cwnd_action = no_action;
    first_decrease = true;
    necnresponses = 0;
    ncwndcuts = 0;
    ncwndcuts1 = 0;
    hstcp = if w.wnd_option == 8 then reset_hstcp w else w.hstcp;
    w_used = if w.qoption then pos 0 else w.w_used;
  }

  abbrev cleared : D → Sender D → Window D → Sender D
  cleared boot s w = record s {
    window = reset_window w;
    rtt = record (rtt_init s.rtt) { boot_time = boot };
    highest_ack = minus_one;
    prev_highest_ack = if s.control_increase then minus_one else s.prev_highest_ack;
    maxseq = minus_one;
    t_seqno = pos 0;
    recover = pos 0;
  }

  unfoldable pub reset_sender : D → Sender D → Option (Sender D)
  reset_sender boot s = Option.map (cleared boot s) (set_initial_window s.window)
