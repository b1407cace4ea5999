-- ===== src/Full/Tests.antt =====
-- The theorems of FullTcpAgent at concrete inputs: a client that has received 5000 bytes of the
-- 20000 that it asked for and has acknowledged 4000 of them. Whole numbers stand for the doubles.
use tcpincast.Base.{
  ◌<◌, ◌+◌, ◌≤◌, arith, ℤ, pos, ◌+ℤ◌, ◌-ℤ◌, ◌≤ℤ◌, ◌≡◌, ◌⊎◌, refl, inl, true, false, some, none, [],
}
use tcpincast.Rq.Defs.{Rq}
use tcpincast.Rq.Round.{IsValid}
use tcpincast.Full.Data.{havercvdsyn, is_state, syn_received}
use tcpincast.Full.Reass.{reass, end_of}
use tcpincast.Full.Present.{Presents, reass-Presents}
use tcpincast.Base.{◌∷◌}
use tcpincast.Tcp.Timer.{rtt_timeout}
use tcpincast.Tcp.Tests.{whole, sender}
use tcpincast.Full.Data.{Conn, Segment, established, normal}
use tcpincast.Full.Packet.{ack_to_send, th_ack}
use tcpincast.Full.Output.{foutput}
use tcpincast.Full.Held.{Returns, foutput-Ends}
use tcpincast.Full.Fixed.{fixed}
use tcpincast.Full.Holding.{requests, requests-release, ack_to_send-bounds}
use tcpincast.Full.Pass.{Follows, Stops, unsent}
use tcpincast.Full.Loop.{send_much-Stops}
use tcpincast.Full.Send.{send_much, usrclosed, no_more_data}
use tcpincast.Full.Closing.{after_close, usrclosed-Stops}
use tcpincast.Full.Ack.{newack}
use tcpincast.Full.Newack.{Progresses, numbers, newack-Progresses}

abbrev queue : Rq
queue = record {
  fifo = [];
  lifo = [];
  total = 0;
  rcv_nxt = pos 5000;
  pool = record { freelist = []; fresh = 0 };
}

abbrev pub client : Conn ℤ
client = record {
  tcp = sender;
  state = established;
  last_state = established;
  acknow = false;
  delack = false;
  needfin = false;
  needclose = false;
  curseq = pos 21;
  iss = pos 0;
  irs = pos 0;
  rq = queue;
  last_ack_sent = pos 4000;
  highest_ack_sent = pos 4000;
  maxseg = pos 10;
  segs_per_ack = pos 1;
  spa_thresh = pos 0;
  sru_bytes = pos 20000;
  tcpip_base_hdr_size = pos 40;
  ts_option_size = pos 10;
  pipe = pos 0;
  rtxbytes = pos 0;
  dupacks = pos 0;
  tcprexmtthresh = pos 3;
  dupseg_fix = true;
  dupack_reset = false;
  open_cwnd_on_pack = true;
  halfclose = false;
  nopredict = false;
  fid = pos 1;
  pipectrl = false;
  nodelay = false;
  data_on_syn = false;
  fastrecov = false;
  reno_fastrecov = true;
  slow_start_restart = false;
  restart_bugfix = true;
  close_on_empty = false;
  signal_on_empty = false;
  infinite_send = false;
  is_ha = true;
  is_rtxreq = false;
  ecn = false;
  ect = false;
  ecn_syn = false;
  ecn_syn_next = false;
  ecn_syn_wait = 0;
  recent_ce = false;
  set_cwr_on_retransmit = true;
  ts_reset_rto = false;
  recent = pos 7;
  recent_age = pos 7;
  last_send_time = pos 7;
  rtt_active = false;
  rtt_seq = pos 0;
  rtt_ts = pos 0;
  rtx_timer = none;
  delsnd_timer = none;
  delack_timer = none;
  delack_interval = pos 1;
  overhead = pos 0;
  maxburst = 0;
  bug_fix = true;
  is_ack_type = true;
  nrexmit = 0;
  nackpack = 0;
  ndatapack = 0;
  ndatabytes = pos 0;
  nrexmitpack = 0;
  nrexmitbytes = pos 0;
  wire = [];
  notices = [];
}

foutput-Ends_example :
    ((foutput (pos 9) (pos 0) (pos 19) normal client ≡ none)
      × (rtt_timeout client.tcp.rtt (pos 0) ≡ none))
    ⊎ Returns client (foutput (pos 9) (pos 0) (pos 19) normal client)
foutput-Ends_example = foutput-Ends (pos 9) (pos 0) (pos 19) normal client

ack_to_send-bounds_example :
    (pos 4000 ≤ℤ ack_to_send client false false) × (ack_to_send client false false ≤ℤ pos 5000)
ack_to_send-bounds_example = ack_to_send-bounds client false false (omega arith)

run_ack_to_send : ack_to_send client false false ≡ pos 4000
unfolding ack_to_send ◌-ℤ◌
run_ack_to_send = refl

room : pos 4000 +ℤ pos 301 ≤ℤ pos 5000
unfolding ◌+ℤ◌
room = omega arith

requests-release_example :
    (fixed (requests 300 (pos 9) client) ≡ fixed client)
    × ((requests 300 (pos 9) client).highest_ack_sent ≡ pos 4000 +ℤ pos 300)
requests-release_example = requests-release 300 (pos 9) client refl room

left : unsent client + 2 ≤ 4
unfolding ◌-ℤ◌
left = omega arith

send_much-Stops_example :
    Stops (Follows client) (send_much 4 (pos 9) (λ i. pos 0) (pos 0) true normal 0 client)
send_much-Stops_example =
    send_much-Stops 4 (pos 9) (λ i. pos 0) (pos 0) true normal 0 client (inl (refl, left))

-- An acknowledgment of the number 15, from a peer that does not hold any.
abbrev acked : Segment ℤ
acked = record {
  seqno = pos 5000;
  ackno = pos 15;
  flags = th_ack;
  reason = normal;
  hlen = pos 40;
  size = pos 40;
  sa_length = 0;
  ts = pos 8;
  ts_echo = pos 7;
  rtxreq_option = false;
  ect = false;
  ecnecho = false;
  cong_action = false;
  no_ts = false;
}

abbrev plain : Conn ℤ
plain = record client { is_ha = false }

newack-Progresses_example :
    ((newack (pos 9) (pos 0) acked plain ≡ none) × (rtt_timeout plain.tcp.rtt (pos 0) ≡ none))
    ⊎ ((e : Conn ℤ) × (newack (pos 9) (pos 0) acked plain ≡ some e)
        × Progresses (pos 15) (numbers plain) (numbers e))
newack-Progresses_example = newack-Progresses (pos 9) (pos 0) acked plain refl

-- The queue holds the bytes 6000 to 7000, and the segment 5000 to 6000 comes.
abbrev waiting : Conn ℤ
waiting = record client {
  rq = record {
    fifo =
        record { addr = 0; startseq = 6000; endseq = 7000; pflags = 16; rqflags = 0; cnt = 1 } ∷ [];
    lifo = 0 ∷ [];
    total = 1000;
    rcv_nxt = pos 5000;
    pool = record { freelist = []; fresh = 1 };
  };
}

waiting-IsValid : IsValid waiting.rq
waiting-IsValid = record { sep = omega arith; total = refl; stacked = λ e. cc }

abbrev next_data : Segment ℤ
next_data = record acked { size = pos 1040 }

next_end : end_of next_data ≡ pos 6000
unfolding ◌+ℤ◌ ◌-ℤ◌
next_end = refl

established_syn : havercvdsyn established ≡ true
unfolding havercvdsyn
established_syn = refl

established_over : is_state established syn_received ≡ false
unfolding is_state
established_over = refl

reass-Presents_example : Presents 5000 6000 true waiting (reass next_data waiting)
reass-Presents_example =
    reass-Presents 5000 6000 next_data waiting refl next_end (omega arith) established_syn
      established_over waiting-IsValid

-- Of the segment 4500 to 5540 only the bytes from 5000 on are new.
abbrev overlapping : Segment ℤ
overlapping = record next_data { seqno = pos 4500 }

all_sent : (unsent (no_more_data client) + 2 ≤ 2) ⊎ ((0 < 0) × (0 ≤ 2))
unfolding no_more_data ◌-ℤ◌
all_sent = inl (omega arith)

usrclosed-Stops_example :
    Stops (λ e. e.state ≡ after_close established) (usrclosed 2 (pos 9) (λ i. pos 0) (pos 0) client)
usrclosed-Stops_example = usrclosed-Stops 2 (pos 9) (λ i. pos 0) (pos 0) client all_sent
