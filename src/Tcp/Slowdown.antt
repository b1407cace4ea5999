-- ===== src/Tcp/Slowdown.antt =====
-- How tcp/tcp.cc closes the congestion window: slowdown, ecn and spurious_timeout. `slowdown` calls
-- the virtual window() and windowd(); their values are the arguments `win` and `wind`.
use tcpincast.Base.{
  ℕ, ◌+◌, ◌/◌, bit_and, ℤ, pos, negsuc, suc, ◌-ℤ◌, ltb_ℤ, negate, Bool, true, false, not, ◌&&◌,
  ◌||◌, ◌==◌, if◌then◌else◌,
}
use tcpincast.Tcp.Double.{Double}
use tcpincast.Tcp.Agent.{
  Window, Sender, ecn_taken, is_timeout, close_ssthresh_half, close_cwnd_half, close_cwnd_restart,
  close_cwnd_init, close_cwnd_one, three_quarter_ssthresh, close_cwnd_half_way, cwnd_half_with_min,
  tcp_idle, no_outstanding_data,
}
use tcpincast.Tcp.Timer.{of_nat, rtt_backoff}
use tcpincast.Tcp.Open.{window, windowd, decrease_param}

-- `how & bits`.
abbrev pub has : ℕ → ℕ → Bool
has how bits = not (bit_and how bits == 0)

-- `window() / 2`, which C rounds toward zero.
unfoldable pub halve : ℤ → ℤ
halve (pos n) = pos (n / 2)
halve (negsuc n) = negate (pos (suc n / 2))

-- `CLOSE_CWND_HALF | CLOSE_CWND_RESTART | CLOSE_CWND_INIT | CLOSE_CWND_ONE`.
abbrev pub closes_cwnd : ℕ → Bool
closes_cwnd how = has how (close_cwnd_half + close_cwnd_restart + close_cwnd_init + close_cwnd_one)

-- `if (ssthresh_ < 2) ssthresh_ = 2`.
abbrev pub two_at_least : ℤ → ℤ
two_at_least a = if ltb_ℤ a (pos 2) then pos 2 else a

-- `halfwin`, `decreasewin`, `win` and the `decrease_num_` that their computation leaves.
pub record Cuts (D : Type 0) : Type 0 where
  pub halfwin : D
  pub decreasewin : D
  pub win : D
  pub decrease_num : D

module _ {D : Type 0} ⦃d : Double D⦄ where
  open d use {of_int, to_int, plus, minus, times, over, below, equal, pow}

  abbrev pub is_high_speed : Window D → Bool
  is_high_speed w = w.wnd_option == 8 && below (of_int w.low_window) w.cwnd

  abbrev pub in_slow_start : Window D → Bool
  in_slow_start w = below w.cwnd (of_int w.ssthresh)

  -- The binomial decrease: `win - (1.0 - decrease_num_) * pow(win, l_parameter_)`.
  abbrev binomial : Window D → D → D
  binomial w win = minus win (times (minus (of_nat 1) w.decrease_num) (pow win w.l_parameter))

  -- `decreasewin` before it is rounded: the high-speed decrease is of windowd() in both cases.
  unfoldable pub decreased : Window D → D → D → D
  decreased w win wind =
      if w.wnd_option == 6
      then binomial w win
      else (if is_high_speed w
          then minus wind (times (decrease_param w) wind)
          else times w.decrease_num win)

  unfoldable pub cuts : Window D → ℤ → D → Cuts D
  cuts w win wind =
      let factor =
        if not (w.wnd_option == 6) && is_high_speed w then decrease_param w else w.decrease_num in
      if w.precision_reduce
      then record {
        halfwin = over wind (of_nat 2);
        decreasewin = decreased w wind wind;
        win = wind;
        decrease_num = factor;
      }
      else record {
        halfwin = of_int (halve win);
        decreasewin = of_int (to_int (decreased w (of_int win) wind));
        win = of_int win;
        decrease_num = factor;
      }

  -- `3*cwnd_/4`.
  abbrev three_quarters : D → D
  three_quarters cwnd = over (times (of_nat 3) cwnd) (of_nat 4)

  unfoldable pub cut_ssthresh : ℕ → Window D → Cuts D → ℤ
  cut_ssthresh how w c =
      if has how close_ssthresh_half
      then (if w.first_decrease || in_slow_start w || is_timeout w.last_cwnd_action
          then to_int c.halfwin
          else to_int c.decreasewin)
      else (if has how three_quarter_ssthresh && below (of_int w.ssthresh) (three_quarters w.cwnd)
          then to_int (three_quarters w.cwnd)
          else w.ssthresh)

  abbrev one_at_least : D → D
  one_at_least x = if below x (of_nat 1) then of_nat 1 else x

  unfoldable pub cut_cwnd : ℕ → Window D → Cuts D → D
  cut_cwnd how w c =
      if has how close_cwnd_half
      then (if w.first_decrease
            || in_slow_start w
            || equal c.decrease_num (over (of_nat 1) (of_nat 2))
          then c.halfwin
          else c.decreasewin)
      else (if has how cwnd_half_with_min
          then one_at_least c.decreasewin
          else (if has how close_cwnd_restart
              then of_int (to_int w.wnd_restart)
              else (if has how close_cwnd_init
                  then of_int (to_int w.wnd_init)
                  else (if has how close_cwnd_one
                      then of_nat 1
                      else (if has how close_cwnd_half_way
                          then one_at_least (
                              plus (of_int w.w_used)
                                (times c.decrease_num (minus c.win (of_int w.w_used))))
                          else w.cwnd)))))

  unfoldable pub slowdown : ℕ → ℤ → D → Window D → Window D
  slowdown how win wind w =
      let c = cuts w win wind in
      record w {
        ncwndcuts = w.ncwndcuts + 1;
        ncwndcuts1 =
            if not (has how tcp_idle) && not (has how no_outstanding_data)
            then w.ncwndcuts1 + 1
            else w.ncwndcuts1;
        decrease_num = c.decrease_num;
        ssthresh = two_at_least (cut_ssthresh how w c);
        cwnd = cut_cwnd how w c;
        cong_action = w.cong_action || closes_cwnd how;
        fcnt = of_nat 0;
        count = 0;
        first_decrease = false;
      }

  -- `slowdown` with the window of `TcpAgent` itself.
  abbrev pub slow : ℕ → Sender D → Sender D
  slow how s = record s { window = slowdown how (window s) (windowd s.window) s.window }

  -- The reaction of a window of one segment: the timer is backed off from the second time on.
  unfoldable pub ecn_pressure : Sender D → Sender D
  ecn_pressure s =
      let w = s.window in
      if d.at_most w.cwnd (of_nat 1)
      then (if w.ecn_backoff
          then record s { rtt = rtt_backoff s.rtt }
          else record s { window = record w { ecn_backoff = true } })
      else record s { window = record w { ecn_backoff = false } }

  abbrev pub note_ecn : Sender D → Sender D
  note_ecn s = record s {
    recover = s.maxseq;
    window = record s.window { last_cwnd_action = ecn_taken };
  }

  abbrev pub count_response : Sender D → Sender D
  count_response s = record s {
    window = record s.window { necnresponses = s.window.necnresponses + 1 };
  }

  unfoldable pub ecn : ℤ → Sender D → Sender D
  ecn seqno s =
      if ltb_ℤ s.recover seqno || is_timeout s.window.last_cwnd_action
      then count_response (slow (close_cwnd_half + close_ssthresh_half) (ecn_pressure (note_ecn s)))
      else s

  -- `spurious_response_`: 2 and 3 are the reduced responses, all else reverts fully.
  unfoldable pub spurious_cwnd : Sender D → D
  spurious_cwnd s =
      let w = s.window in
      if w.spurious_response == 2
      then of_int w.ssthresh
      else (if w.spurious_response == 3 then of_nat 1 else of_int (s.t_seqno -ℤ s.prev_highest_ack))

  unfoldable pub spurious_timeout : Sender D → Sender D
  spurious_timeout s = record s {
    window = record s.window { frto = pos 0; cwnd = spurious_cwnd s; ssthresh = s.pipe_prev };
    recover = s.highest_ack -ℤ pos 1;
  }
