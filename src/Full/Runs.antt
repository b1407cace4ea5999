-- ===== src/Full/Runs.antt =====
-- The theorems on `recv` of FullTcpAgent at concrete inputs. Whole numbers stand for the doubles.
use tcpincast.Base.{◌-ℤ◌, ℤ, pos, ◌*ℤ◌, ◌+ℤ◌, arith, ◌≡◌, refl, true, false}
use tcpincast.Tcp.Tests.{whole}
use tcpincast.Full.Data.{closed, fin_wait_1, established, Conn, normal}
use tcpincast.Full.Packet.{th_ack}
use tcpincast.Full.Arrive.{Scene, Arrival, Frame}
use tcpincast.Full.Recv.{recv, frame, predicted}
use tcpincast.Full.Slow.{slow_path}
use tcpincast.Full.Expected.{IsOrdered}
use tcpincast.Full.Predict.{predicted-slow_path}
use tcpincast.Full.Farewell.{view, closer, Closes}
use tcpincast.Full.Teardown.{acked_fin-Closes}
use tcpincast.Full.Process.{acked_fin}
use tcpincast.Full.Tests.{client}

abbrev pub scene : Scene ℤ
scene = record {
  fuel = 3;
  now = pos 9;
  boot = pos 0;
  timers = λ i. pos 0;
  draws = λ i. pos 0;
  wait = pos 0;
  close_draws = λ i. pos 0;
  last_wait = pos 0;
}

-- The peer's FIN, in order.
abbrev pub last_packet : Arrival ℤ
last_packet = record {
  segment = record {
    seqno = pos 5000;
    ackno = pos 10;
    flags = record th_ack { fin = true };
    reason = normal;
    hlen = pos 40;
    size = pos 40;
    sa_length = 0;
    ts = pos 8;
    ts_echo = pos 7;
    rtxreq_option = false;
    ect = false;
    ecnecho = false;
    cong_action = false;
    no_ts = true;
  };
  ce = false;
  cwr = false;
  flowid = pos 1;
}

abbrev pub careful : Conn ℤ
careful = record client { maxburst = 2 }

-- This side's FIN is out, and the peer's FIN comes with the acknowledgment of it.
abbrev finishing : Conn ℤ
finishing = record careful { state = fin_wait_1 }

abbrev last_frame : Frame ℤ
last_frame = frame (record last_packet.segment { ackno = pos 18 })

acked_fin-Closes_example :
    Closes 3 2 fin_wait_1
      (closer true true (record { acked = false; heard = false }))
      (acked_fin scene last_frame finishing)
unfolding view tcpincast.Rq.Defs.empty
acked_fin-Closes_example =
    acked_fin-Closes scene last_frame (record { acked = false; heard = false }) finishing refl refl
      refl refl

abbrev fresh : Conn ℤ
fresh = record careful { state = closed }

instance abbrev whole-IsOrdered : IsOrdered ℤ
whole-IsOrdered = record { not_above = λ x y h. ground (arith, h) }

-- The next ten bytes, and a client that has nothing of its own outstanding.
abbrev next_ten : Arrival ℤ
next_ten = record last_packet {
  segment = record last_packet.segment { flags = th_ack; size = pos 50 };
}

abbrev settled : Conn ℤ
settled = record careful { tcp = record careful.tcp { t_seqno = pos 18 } }

predicted-slow_path_example :
    predicted scene next_ten (frame next_ten.segment) settled
    ≡ slow_path scene next_ten (frame next_ten.segment) settled
unfolding tcpincast.Full.Ack.predict_ok tcpincast.Full.Recv.take_predicted
    tcpincast.Full.Packet.need_send tcpincast.Full.Data.is_state tcpincast.Full.Data.number
    tcpincast.Rq.Defs.empty tcpincast.Full.Arrive.tell tcpincast.Full.Arrive.note_ce
    tcpincast.Full.Reass.record_stamp ◌*ℤ◌ ◌-ℤ◌ ◌+ℤ◌
predicted-slow_path_example =
    predicted-slow_path scene next_ten next_ten.segment settled refl refl refl refl refl refl refl
