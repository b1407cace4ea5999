-- ===== src/Full/Data.antt =====
-- The data of tcp/tcp-full.h: the connection states, the flags, a packet's TCP header, and the
-- variables of a FullTcpAgent.
use tcpincast.Base.{
  ◌&&◌, ℕ, ◌+◌, Bool, true, false, List, Option, none, some, ℤ, pos, ltb, if◌then◌else◌, ◌==◌,
}
use tcpincast.Rq.Defs.{Rq}
use tcpincast.Tcp.Agent.{Sender}

pub data State : Type 0 where
  closed listen syn_sent syn_received established close_wait : State
  fin_wait_1 closing last_ack fin_wait_2 : State

-- The value of `TCPS_CLOSED` and so on.
unfoldable pub number : State → ℕ
number closed = 0
number listen = 1
number syn_sent = 2
number syn_received = 3
number established = 4
number close_wait = 5
number fin_wait_1 = 6
number closing = 7
number last_ack = 8
number fin_wait_2 = 9

unfoldable pub havercvdsyn : State → Bool
unfolding number
havercvdsyn s = ltb 2 (number s)

unfoldable pub is_state : State → State → Bool
unfolding number
is_state s t = number s == number t

-- The header flags `TH_FIN`, `TH_SYN`, `TH_PUSH`, `TH_ACK`, `TH_ECE` and `TH_CWR`.
pub record Flags : Type 0 where
  pub fin : Bool
  pub syn : Bool
  pub push : Bool
  pub ack : Bool
  pub ece : Bool
  pub cwr : Bool

-- The states in which a FIN goes with the data that empties the buffer.
unfoldable pub opens : State → Bool
unfolding number
opens s = ltb (number s) 5 && ltb 0 (number s)

abbrev bit : ℕ → Bool → ℕ
bit n b = if b then n else 0

-- The flags as the number that the header carries.
unfoldable pub bits : Flags → ℕ
bits p = bit 1 p.fin + bit 2 p.syn + bit 8 p.push + bit 16 p.ack + bit 64 p.ece + bit 128 p.cwr

pub data Reason : Type 0 where
  normal for_timeout for_dupack for_rbp for_sack for_rtxreq for_ha : Reason

abbrev pub is_retransmission : Reason → Bool
is_retransmission for_timeout = true
is_retransmission for_dupack = true
is_retransmission for_sack = true
is_retransmission _ = false

abbrev pub is_rtxreq : Reason → Bool
is_rtxreq for_rtxreq = true
is_rtxreq _ = false

abbrev pub is_holding : Reason → Bool
is_holding for_ha = true
is_holding _ = false

-- A packet: its TCP header, its size, and the ECN bits of its flags header.
pub record Segment (D : Type 0) : Type 0 where
  pub seqno : ℤ
  pub ackno : ℤ
  pub flags : Flags
  pub reason : Reason
  pub hlen : ℤ
  pub size : ℤ
  pub sa_length : ℕ
  pub ts : D
  pub ts_echo : D
  pub rtxreq_option : Bool
  pub ect : Bool
  pub ecnecho : Bool
  pub cong_action : Bool
  pub no_ts : Bool

-- The calls of Tcl procedures: `done_data`, the end of the data (`idle()`), and `done`; and the
-- bytes that the application is given (`recvBytes`).
pub data Notice : Type 0 where
  bufferempty idle finish : Notice
  received : ℤ → Notice

-- `AHBYTES`, the bytes whose acknowledgment is held.
abbrev pub ahbytes : ℤ
ahbytes = pos 1000

abbrev pub tcp_maxseq : ℤ
tcp_maxseq = pos 1073741824

-- A FullTcpAgent. `tcp` is what it inherits of the sender; `rcv_nxt_` is `rq.rcv_nxt`, to which the
-- queue's constructor gets a reference. `flags_` is the four fields from `acknow` on; `wire` is what
-- was given to `send`, the last packet first, and `notices` the calls out of the agent.
pub record Conn (D : Type 0) : Type 0 where
  pub tcp : Sender D
  pub state : State
  pub last_state : State
  pub acknow : Bool
  pub delack : Bool
  pub needfin : Bool
  pub needclose : Bool
  pub curseq : ℤ
  pub iss : ℤ
  pub irs : ℤ
  pub rq : Rq
  pub last_ack_sent : ℤ
  pub highest_ack_sent : ℤ
  pub maxseg : ℤ
  pub segs_per_ack : ℤ
  pub spa_thresh : ℤ
  pub sru_bytes : ℤ
  pub tcpip_base_hdr_size : ℤ
  pub ts_option_size : ℤ
  pub pipe : ℤ
  pub rtxbytes : ℤ
  pub dupacks : ℤ
  pub tcprexmtthresh : ℤ
  pub dupseg_fix : Bool
  pub dupack_reset : Bool
  pub open_cwnd_on_pack : Bool
  pub halfclose : Bool
  pub nopredict : Bool
  pub fid : ℤ
  pub pipectrl : Bool
  pub nodelay : Bool
  pub data_on_syn : Bool
  pub fastrecov : Bool
  pub reno_fastrecov : Bool
  pub slow_start_restart : Bool
  pub restart_bugfix : Bool
  pub close_on_empty : Bool
  pub signal_on_empty : Bool
  pub infinite_send : Bool
  pub is_ha : Bool
  pub is_rtxreq : Bool
  pub ecn : Bool
  pub ect : Bool
  pub ecn_syn : Bool
  pub ecn_syn_next : Bool
  pub ecn_syn_wait : ℕ
  pub recent_ce : Bool
  pub set_cwr_on_retransmit : Bool
  pub ts_reset_rto : Bool
  pub recent : D
  pub recent_age : D
  pub last_send_time : D
  pub rtt_active : Bool
  pub rtt_seq : ℤ
  pub rtt_ts : D
  pub rtx_timer : Option D
  pub delsnd_timer : Option D
  pub delack_timer : Option D
  pub delack_interval : D
  pub overhead : D
  pub maxburst : ℕ
  pub bug_fix : Bool
  pub is_ack_type : Bool
  pub nrexmit : ℕ
  pub nackpack : ℕ
  pub ndatapack : ℕ
  pub ndatabytes : ℤ
  pub nrexmitpack : ℕ
  pub nrexmitbytes : ℤ
  pub wire : List (Segment D)
  pub notices : List Notice

-- `rcv_nxt_`.
abbrev pub rcv_nxt : {D : Type 0} → Conn D → ℤ
rcv_nxt c = c.rq.rcv_nxt

-- `status() == TIMER_PENDING` of a timer.
abbrev pub is_pending : {D : Type 0} → Option D → Bool
is_pending none = false
is_pending (some x) = true
