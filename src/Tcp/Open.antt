-- ===== src/Tcp/Open.antt =====
-- How tcp/tcp.cc measures and opens the congestion window: window, windowd, opencwnd and what they
-- call, and the initial window. `none` stands for `abort()`.
use mathlib.Core.Option
use tcpincast.Base.{
  ℕ, ◌+◌, ℤ, pos, ◌+ℤ◌, ◌-ℤ◌, ltb_ℤ, leb_ℤ, eq_ℤ, shift_right, not, ◌&&◌, ◌||◌, ◌==◌, if◌then◌else◌,
  Option, none, some,
}
use tcpincast.Tcp.Double.{Double}
use tcpincast.Tcp.Agent.{Rtt, Window, Hstcp, Sender, is_none, is_timeout}
use tcpincast.Tcp.Timer.{of_nat}

-- `recover_ + num - (int)highest_ack_`.
abbrev force_wnd : {D : Type 0} → Sender D → ℤ → ℤ
force_wnd s num = s.recover +ℤ num -ℤ s.highest_ack

module _ {D : Type 0} ⦃d : Double D⦄ where
  open d use {of_int, to_int, plus, times, minus, over, below, at_most, log, exp, pow}

  -- Two more segments while F-RTO waits for its second acknowledgment.
  unfoldable pub window : Sender D → ℤ
  window s =
      let w = s.window in
      if eq_ℤ w.frto (pos 2)
      then (if below (of_int (force_wnd s (pos 2))) w.wnd
          then force_wnd s (pos 2)
          else to_int w.wnd)
      else (if below w.cwnd w.wnd then to_int w.cwnd else to_int w.wnd)

  unfoldable pub windowd : Window D → D
  windowd w = if below w.cwnd w.wnd then w.cwnd else w.wnd

  unfoldable pub limited_slow_start : D → ℤ → D → D
  limited_slow_start cwnd max_ssthresh increment =
      let round = to_int (over cwnd (over (of_int max_ssthresh) (of_nat 2))) in
      let limit = if ltb_ℤ (pos 0) round then over (of_nat 1) (of_int round) else of_nat 0 in
      if leb_ℤ max_ssthresh (pos 0)
      then increment
      else (if below increment limit then limit else increment)

  unfoldable pub decrease_param : Window D → D
  decrease_param w = plus w.hstcp.dec1 (times (log w.cwnd) w.hstcp.dec2)

  -- What `increase_param` returns and the cache that it leaves.
  unfoldable pub increase_param : Window D → D × Hstcp D
  increase_param w =
      let h = w.hstcp in
      let p = exp (plus h.p1 (times (log w.cwnd) h.p2)) in
      let increase =
        over (times (times w.cwnd w.cwnd) p)
          (minus (over (of_nat 1) (decrease_param w)) (over (of_nat 1) (of_nat 2))) in
      if at_most w.cwnd (of_int w.low_window)
      then (over (of_nat 1) w.cwnd, h)
      else (if at_most h.cwnd_last w.cwnd && below w.cwnd (plus h.cwnd_last (of_int w.cwnd_range))
          then (over h.increase_last w.cwnd, h)
          else (over increase w.cwnd, record h { cwnd_last = w.cwnd; increase_last = increase }))

  -- The increment, limited in the slow start of a large window.
  abbrev limited : Window D → D → D
  limited w increment =
      if (is_none w.last_cwnd_action || is_timeout w.last_cwnd_action)
        && ltb_ℤ (pos 0) w.max_ssthresh
      then limited_slow_start w.cwnd w.max_ssthresh increment
      else increment

  abbrev pub add_cwnd : Window D → D → Window D
  add_cwnd w increment = record w { cwnd = plus w.cwnd increment }

  -- Cases 2 to 5: the fraction of a segment that is owed.
  unfoldable pub add_fraction : Window D → D → Window D
  add_fraction w f =
      let owed = plus f w.fcnt in
      if below w.cwnd owed
      then record w { fcnt = of_nat 0; cwnd = plus w.cwnd (of_nat 1) }
      else record w { fcnt = owed }

  -- `(t_srtt_ >> T_SRTT_BITS) * tcp_tick_`.
  abbrev smoothed : Rtt D → D
  smoothed r = times (of_int (shift_right r.t_srtt r.srtt_bits)) r.tick

  abbrev count_up : Window D → Window D
  count_up w =
      if at_most w.cwnd (of_nat (w.count + 1))
      then record w { count = 0; cwnd = plus w.cwnd (of_nat 1) }
      else record w { count = w.count + 1 }

  abbrev high_speed_growth : Window D → Window D
  high_speed_growth w =
      let grown = increase_param w in add_cwnd (record w { hstcp = grown.1 }) (limited w grown.0)

  -- The switch on `wnd_option_`.
  unfoldable pub linear_growth : Window D → Rtt D → ℕ → Option (Window D)
  linear_growth w r option =
      let rtt = smoothed r in
      if option == 0
      then some (count_up w)
      else (if option == 1
          then some (add_cwnd w (limited w (over w.increase_num w.cwnd)))
          else (if option == 2
              then some (add_fraction w (times (times rtt rtt) w.wnd_const))
              else (if option == 3
                  then some (add_fraction w (times (times w.awnd w.awnd) w.wnd_const))
                  else (if option == 4
                      then some (add_fraction w (times w.awnd w.wnd_const))
                      else (if option == 5
                          then some (add_fraction w (times rtt w.wnd_const))
                          else (if option == 6
                              then some (
                                  add_cwnd w
                                    (over w.increase_num (times w.cwnd (pow w.cwnd w.k_parameter))))
                              else (if option == 8 then some (high_speed_growth w) else none)))))))

  -- `maxcwnd_`, when it is set, is the limit.
  unfoldable pub cap_cwnd : Window D → Window D
  cap_cwnd w =
      if not (eq_ℤ w.maxcwnd (pos 0)) && ltb_ℤ w.maxcwnd (to_int w.cwnd)
      then record w { cwnd = of_int w.maxcwnd }
      else w

  unfoldable pub opencwnd : Window D → Rtt D → Option (Window D)
  opencwnd w r =
      if below w.cwnd (of_int w.ssthresh)
      then some (cap_cwnd (add_cwnd w (of_nat 1)))
      else Option.map cap_cwnd (linear_growth w r w.wnd_option)

  unfoldable pub initial_window : Window D → Option D
  initial_window w =
      if not (eq_ℤ w.qs_cwnd (pos 0))
      then some (of_int w.qs_cwnd)
      else (if w.wnd_init_option == 1
          then some w.wnd_init
          else (if w.wnd_init_option == 2
              then some (
                  of_nat (
                    if leb_ℤ w.size (pos 1095)
                    then 4
                    else (if ltb_ℤ w.size (pos 2190) then 3 else 2)))
              else none))

  unfoldable pub set_initial_window : Window D → Option (Window D)
  set_initial_window w =
      if w.syn && w.delay_growth
      then some (record w { cwnd = of_nat 10; syn_connects = 0 })
      else Option.map (λ x. record w { cwnd = x }) (initial_window w)
