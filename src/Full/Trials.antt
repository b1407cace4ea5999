-- ===== src/Full/Trials.antt =====
-- The theorems on the variants of FullTcpAgent at concrete inputs. Whole numbers stand for the
-- doubles.
use tcpincast.Base.{arith, refl, ℤ, pos, minus_one, true, false, [], ◌∷◌}
use tcpincast.Rq.Defs.{Rq}
use tcpincast.Rq.Round.{IsValid}
use tcpincast.Rq.Cover.{Lands}
use tcpincast.Scoreboard.Received.{GainsAll}
use tcpincast.Tcp.Tests.{whole}
use tcpincast.Full.Tests.{client}
use tcpincast.Full.Sack.{SackConn, process_sack, pack_action, ack_action}
use tcpincast.Full.Heard.{process_sack-GainsAll}
use tcpincast.Full.Forgets.{Forgets, pack_action-Forgets}
use tcpincast.Full.Variants.{NewRenoConn, ack_action_newreno}
use tcpincast.Full.Burst.{Each, Limited, Free, packs, newreno-burst}

-- The peer has bytes 15 to 17.
abbrev heard : Rq
heard = record {
  fifo = record { addr = 0; startseq = 15; endseq = 18; pflags = 0; rqflags = 0; cnt = 1 } ∷ [];
  lifo = 0 ∷ [];
  total = 3;
  rcv_nxt = pos 9;
  pool = record { freelist = []; fresh = 1 };
}

heard-IsValid : IsValid heard
heard-IsValid = record { sep = (omega arith, tt, tt); total = refl; stacked = λ h. cc }

abbrev recovering : SackConn ℤ
recovering = record {
  base = record client { tcp = record client.tcp { recover = pos 18 } };
  sq = heard;
  h_seqno = pos 10;
  clear_on_timeout = true;
  sack_option_size = pos 2;
  sack_block_size = pos 8;
  max_sack_blocks = 3;
  sack_rtx_bthresh = pos 1;
  sack_rtx_cthresh = pos 1;
  sack_rtx_threshmode = 3;
}

process_sack-GainsAll_example :
    Lands
      (GainsAll ((20, 30) ∷ (40, 35) ∷ []) heard)
      (process_sack false ((20, 30) ∷ (40, 35) ∷ []) recovering)
process_sack-GainsAll_example =
    process_sack-GainsAll ((20, 30) ∷ (40, 35) ∷ []) recovering refl heard-IsValid

pack_action-Forgets_example :
    Forgets 10 recovering (pack_action recovering) × Forgets 10 recovering (ack_action recovering)
pack_action-Forgets_example = pack_action-Forgets 10 recovering refl heard-IsValid

abbrev bursting : NewRenoConn ℤ
bursting = record {
  base = record client { maxburst = 4 };
  save_maxburst = minus_one;
  recov_maxburst = 2;
}

newreno-burst_example :
    Each
      (λ e. Limited 4 2 e × Free 4 2 (ack_action_newreno e))
      (packs ((pos 9, pos 0) ∷ (pos 10, pos 0) ∷ []) bursting)
newreno-burst_example = newreno-burst 4 (pos 9, pos 0) ((pos 10, pos 0) ∷ []) bursting refl refl
