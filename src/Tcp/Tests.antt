-- ===== src/Tcp/Tests.antt =====
-- The senders' theorems at concrete inputs. The whole numbers stand for the doubles.
use tcpincast.Base.{
  ◌/◌, arith, ℤ, pos, pos_part, ◌+ℤ◌, ◌-ℤ◌, ◌*ℤ◌, ◌≤ℤ◌, ltb_ℤ, leb_ℤ, eq_ℤ, ◌≡◌, refl, true, false,
  ◌||◌, some, leb, ◌==◌,
}
use tcpincast.Tcp.Double.{Double, IsIrreflexive}
use tcpincast.Tcp.Agent.{Rtt, Window, Sender, no_action}
use tcpincast.Tcp.Timer.{rtt_timeout, rtt_update, Rto, cut_to, corrected, draft}
use tcpincast.Tcp.Timeout.{
  timeouts, timeouts-BackedOff, AllBackedOff, rtt_update-IsSampled, IsSampled, rtt_timeout_lem,
}
use tcpincast.Tcp.Open.{opencwnd}
use tcpincast.Tcp.Slowdown.{ecn}
use tcpincast.Tcp.Cut.{IsExact, ecn-once, opencwnd-is_some, opencwnd-Capped, is_some}

instance abbrev pub whole : Double ℤ
whole = record {
  of_int = λ n. n;
  to_int = λ n. n;
  plus = λ a b. a +ℤ b;
  minus = λ a b. a -ℤ b;
  times = λ a b. a *ℤ b;
  over = λ a b. pos (pos_part a / pos_part b);
  below = ltb_ℤ;
  at_most = leb_ℤ;
  equal = eq_ℤ;
  fmod = λ a b. pos 0;
  pow = λ a b. a;
  log = λ a. a;
  exp = λ a. a;
}

instance abbrev pub whole-IsIrreflexive : IsIrreflexive ℤ
whole-IsIrreflexive = record { not_below = λ x. ground arith }

instance abbrev whole-IsExact : IsExact ℤ
whole-IsExact = record { exact = λ n h. refl }

-- A timer that was backed off twice.
abbrev pub timer : Rtt ℤ
timer = record {
  t_rtt = pos 3;
  t_srtt = pos 20;
  t_rttvar = pos 6;
  t_backoff = 4;
  dc_backoff = 3;
  t_rtxcur = pos 5;
  use_rtt = true;
  srtt_bits = 3;
  rttvar_bits = 2;
  rttvar_exp = 2;
  srtt_init = pos 0;
  rttvar_init = pos 12;
  rtxcur_init = pos 6;
  maxrto = pos 60;
  minrto = pos 2;
  dcrto = pos 4;
  maxbackoff = 64;
  bo_type = 3;
  is_randomrto = false;
  rfc2988 = true;
  ts_option = true;
  tick = pos 1;
  boot_time = pos 0;
}

abbrev pub open_window : Window ℤ
open_window = record {
  cwnd = pos 8;
  ssthresh = pos 4;
  wnd = pos 20;
  wnd_option = 1;
  wnd_init = pos 2;
  wnd_init_option = 1;
  wnd_restart = pos 1;
  wnd_const = pos 4;
  awnd = pos 8;
  fcnt = pos 0;
  count = 3;
  increase_num = pos 8;
  decrease_num = pos 1;
  k_parameter = pos 0;
  l_parameter = pos 1;
  maxcwnd = pos 8;
  max_ssthresh = pos 0;
  low_window = pos 38;
  high_window = pos 83000;
  high_p = pos 0;
  high_decrease = pos 0;
  qoption = false;
  cwnd_range = pos 1;
  hstcp = record {
    low_p = pos 0;
    dec1 = pos 0;
    dec2 = pos 0;
    p1 = pos 0;
    p2 = pos 0;
    cwnd_last = pos 0;
    increase_last = pos 0;
  };
  first_decrease = true;
  precision_reduce = false;
  last_cwnd_action = no_action;
  cong_action = false;
  w_used = pos 0;
  frto = pos 0;
  qs_cwnd = pos 0;
  size = pos 1000;
  syn = true;
  delay_growth = false;
  syn_connects = 0;
  spurious_response = 1;
  ncwndcuts = 0;
  ncwndcuts1 = 0;
  necnresponses = 0;
  ecn_backoff = false;
}

abbrev pub sender : Sender ℤ
sender = record {
  window = open_window;
  rtt = timer;
  highest_ack = pos 10;
  prev_highest_ack = pos 9;
  maxseq = pos 18;
  t_seqno = pos 19;
  recover = pos 5;
  pipe_prev = pos 4;
  control_increase = false;
}

timeouts-BackedOff_example : AllBackedOff timer 5 (timeouts (λ i. pos 0) 5 timer)
timeouts-BackedOff_example = timeouts-BackedOff (λ i. pos 0) 5 timer (omega arith)

rtt_update-IsSampled_example :
    IsSampled (rtt_update timer (pos 7) (pos 100))
    × ((rtt_update timer (pos 7) (pos 100)).t_backoff ≡ timer.t_backoff)
    × ((rtt_update timer (pos 7) (pos 100)).dc_backoff ≡ timer.dc_backoff)
rtt_update-IsSampled_example = rtt_update-IsSampled timer (pos 7) (pos 100)

drafted :
    ltb_ℤ (cut_to timer.maxrto (corrected timer (draft timer (pos 0)).timeout)) (pos 0) ≡ false
unfolding corrected draft tcpincast.Tcp.Timer.rto_dc tcpincast.Tcp.Timer.base_rto ◌*ℤ◌
drafted = refl

rtt_timeout_lem_example :
    (got : Rto ℤ) × (rtt_timeout timer (pos 0) ≡ some got)
    × (ltb_ℤ got.rto timer.minrto ≡ false)
    × (got.after.use_rtt ≡ false)
rtt_timeout_lem_example = rtt_timeout_lem timer (pos 0) drafted

ecn-once_example : ecn (pos 15) (ecn (pos 12) sender) ≡ ecn (pos 12) sender
ecn-once_example = ecn-once (pos 12) (pos 15) sender refl (omega arith)

opencwnd-is_some_example :
    is_some (opencwnd open_window timer) ≡ ltb_ℤ (pos 8) (pos 4) || (leb 1 6 || 1 == 8)
opencwnd-is_some_example = opencwnd-is_some open_window timer

grown : opencwnd open_window timer ≡ some open_window
unfolding opencwnd tcpincast.Tcp.Open.linear_growth tcpincast.Tcp.Open.cap_cwnd ◌+ℤ◌
grown = refl

opencwnd-Capped_example : pos 8 ≤ℤ pos 8
opencwnd-Capped_example = opencwnd-Capped open_window timer open_window grown refl refl
