-- ===== src/Tcp/Agent.antt =====
-- The data of `TcpAgent`. A C `int` that serves as a truth value is a Bool; sequence numbers and
-- windows may be negative, counters are not.
use tcpincast.Base.{ℕ, ℤ, Bool, true, false}

-- `last_cwnd_action_`, which is 0 at first.
pub data Action : Type 0 where
  no_action dupack_taken timeout_taken ecn_taken exited : Action

abbrev pub is_timeout : Action → Bool
is_timeout timeout_taken = true
is_timeout _ = false

abbrev pub is_ecn : Action → Bool
is_ecn ecn_taken = true
is_ecn _ = false

abbrev pub is_dupack : Action → Bool
is_dupack dupack_taken = true
is_dupack _ = false

abbrev pub is_none : Action → Bool
is_none no_action = true
is_none _ = false

-- The bits of `how` in `slowdown`.
abbrev pub close_ssthresh_half : ℕ
close_ssthresh_half = 1

abbrev pub close_cwnd_half : ℕ
close_cwnd_half = 2

abbrev pub close_cwnd_restart : ℕ
close_cwnd_restart = 4

abbrev pub close_cwnd_init : ℕ
close_cwnd_init = 8

abbrev pub close_cwnd_one : ℕ
close_cwnd_one = 16

abbrev pub three_quarter_ssthresh : ℕ
three_quarter_ssthresh = 128

abbrev pub close_cwnd_half_way : ℕ
close_cwnd_half_way = 256

abbrev pub cwnd_half_with_min : ℕ
cwnd_half_with_min = 512

abbrev pub tcp_idle : ℕ
tcp_idle = 1024

abbrev pub no_outstanding_data : ℕ
no_outstanding_data = 2048

-- `struct hstcp`.
pub record Hstcp (D : Type 0) : Type 0 where
  pub low_p : D
  pub dec1 : D
  pub dec2 : D
  pub p1 : D
  pub p2 : D
  pub cwnd_last : D
  pub increase_last : D

-- The round-trip time estimate and the timeout. `tick` is `tcp_tick_`.
pub record Rtt (D : Type 0) : Type 0 where
  pub t_rtt : ℤ
  pub t_srtt : ℤ
  pub t_rttvar : ℤ
  pub t_backoff : ℕ
  pub dc_backoff : ℕ
  pub t_rtxcur : D
  pub use_rtt : Bool
  pub srtt_bits : ℕ
  pub rttvar_bits : ℕ
  pub rttvar_exp : ℕ
  pub srtt_init : ℤ
  pub rttvar_init : ℤ
  pub rtxcur_init : D
  pub maxrto : D
  pub minrto : D
  pub dcrto : D
  pub maxbackoff : ℕ
  pub bo_type : ℕ
  pub is_randomrto : Bool
  pub rfc2988 : Bool
  pub ts_option : Bool
  pub tick : D
  pub boot_time : D

-- The congestion window.
pub record Window (D : Type 0) : Type 0 where
  pub cwnd : D
  pub ssthresh : ℤ
  pub wnd : D
  pub wnd_option : ℕ
  pub wnd_init : D
  pub wnd_init_option : ℕ
  pub wnd_restart : D
  pub wnd_const : D
  pub awnd : D
  pub fcnt : D
  pub count : ℕ
  pub increase_num : D
  pub decrease_num : D
  pub k_parameter : D
  pub l_parameter : D
  pub maxcwnd : ℤ
  pub max_ssthresh : ℤ
  pub low_window : ℤ
  pub high_window : ℤ
  pub high_p : D
  pub high_decrease : D
  pub qoption : Bool
  pub cwnd_range : ℤ
  pub hstcp : Hstcp D
  pub first_decrease : Bool
  pub precision_reduce : Bool
  pub last_cwnd_action : Action
  pub cong_action : Bool
  pub w_used : ℤ
  pub frto : ℤ
  pub qs_cwnd : ℤ
  pub size : ℤ
  pub syn : Bool
  pub delay_growth : Bool
  pub syn_connects : ℕ
  pub spurious_response : ℕ
  pub ncwndcuts : ℕ
  pub ncwndcuts1 : ℕ
  pub necnresponses : ℕ
  pub ecn_backoff : Bool

-- What the operations on the window read of the connection: sequence numbers of packets.
pub record Sender (D : Type 0) : Type 0 where
  pub window : Window D
  pub rtt : Rtt D
  pub highest_ack : ℤ
  pub prev_highest_ack : ℤ
  pub maxseq : ℤ
  pub t_seqno : ℤ
  pub recover : ℤ
  pub pipe_prev : ℤ
  pub control_increase : Bool
