-- ===== src/Sink/Tests.antt =====
-- The sink on concrete states.
use tcpincast.Base.{
  ◌+◌, ◌≡◌, refl, arith, [], true, false, none, some, pos, ◌==◌, if◌then◌else◌, ◌⊎◌,
}
use tcpincast.Sink.Acker.{Acker, Delivery, deliver, widen}
use tcpincast.Sink.Window.{Delivers, deliver-Delivers}
use tcpincast.Sink.Widen.{HasRoom, widen-HasRoom}
use tcpincast.Sink.Stack.{new_stack}
use tcpincast.Sink.Agent.{Sink, Packet, delay_or_ack, timeout}
use tcpincast.Sink.Delay.{Waits, Acked, Delayed, delay_or_ack-Acked, timeout-Acked}

-- Packets 5 and 6 wait for packet 4, which has just come; packet 7 has not.
abbrev window : Acker
window = record {
  next = 4;
  maxseen = 6;
  size = 64;
  ecn_unacked = 0;
  ts_to_echo = 0;
  is_dup = false;
  last_ack_sent = pos 3;
  seen = λ i. if i == 4 then 40 else if i == 5 then 50 else if i == 6 then 60 else 0;
}

abbrev edge : Delivery
edge = record { bytes = 0; next = 4 }

deliver-Delivers_example :
    (d' : Delivery) × (deliver 65 window edge ≡ some d') × Delivers window edge d'
deliver-Delivers_example = deliver-Delivers 65 window edge 7 refl (omega arith) (omega arith)

run_deliver : deliver 65 window edge ≡ some (record { bytes = 150; next = 7 })
unfolding deliver
run_deliver = refl

widen-HasRoom_example :
    (a' : Acker) × (widen (200 + 2) 200 window ≡ some a') × HasRoom 200 window a'
widen-HasRoom_example = widen-HasRoom 200 window (omega arith) (omega arith)

abbrev segment : Packet
segment = record {
  seqno = 3;
  size = 1000;
  ts = 7;
  flowid = 1;
  ect = false;
  ce = false;
  cong_action = false;
  ecnecho = false;
}

abbrev waiting : Sink
waiting = record {
  sacker = record { acker = window; base_nblocks = 3; dsacks = false; sf = new_stack 3 };
  sacks = false;
  ts_echo_bugfix = false;
  ts_echo_rfc1323 = false;
  rfc2581_immediate_ack = true;
  syn_immediate_ack = false;
  ecn_syn = false;
  save = some segment;
  bytes = 0;
  lastreset = 0;
  pending = true;
}

delay_or_ack-Acked_example :
    (Waits segment waiting × Delayed segment (delay_or_ack 9 segment waiting))
    ⊎ ((Waits segment waiting → ⊥) × Acked waiting (delay_or_ack 9 segment waiting))
delay_or_ack-Acked_example = delay_or_ack-Acked 9 segment waiting refl

timeout-Acked_example :
    ((some segment ≡ none) × (timeout 9 waiting ≡ some (record waiting { pending = false }, [])))
    ⊎ (((p : Packet) × (some segment ≡ some p)) × Acked waiting (timeout 9 waiting))
timeout-Acked_example = timeout-Acked 9 waiting refl
