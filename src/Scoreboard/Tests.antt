-- ===== src/Scoreboard/Tests.antt =====
-- Both scoreboards on concrete states.
use tcpincast.Base.{if◌then◌else◌, ◌≡◌, refl, arith, [], ◌∷◌, false, pos, ◌==◌, minus_one}
use tcpincast.Rq.Tests.{two, two-IsValid}
use tcpincast.Rq.Cover.{Lands}
use tcpincast.Scoreboard.Shim.{ScoreBoardRq, add_blocks, get_next_retran, mark_retran}
use tcpincast.Scoreboard.Received.{GainsAll, Agree, add_blocks-GainsAll, add_blocks-same}
use tcpincast.Scoreboard.Once.{IsAfter, get_next_retran-IsAfter}
use tcpincast.Scoreboard.Retran.{Picks, get_next_retran-Picks}
use tcpincast.Scoreboard.Ring
use tcpincast.Scoreboard.Ring.{ScoreBoard, Node, Call, gives, left, get_next_unacked}
use tcpincast.Scoreboard.Again.{get_next_retran_rh-IsAfter}
use tcpincast.Scoreboard.Halving.{ScoreBoardRh, first_seq}
use tcpincast.Scoreboard.Resend.{mark_retran_rh, get_next_retran_rh}
use tcpincast.Scoreboard.Choice.{
  ripe, get_next_retran_rh-IsFirst, IsFirst, due, missing, get_next_retran-IsFirst,
  get_next_unacked-IsFirst,
}

add_blocks-GainsAll_example :
    Lands (GainsAll ((2, 4) ∷ (11, 15) ∷ []) two) (add_blocks ((2, 4) ∷ (11, 15) ∷ []) two)
add_blocks-GainsAll_example =
    add_blocks-GainsAll ((2, 4) ∷ (11, 15) ∷ []) two (omega arith, (omega arith, tt)) two-IsValid

add_blocks-same_example :
    Agree (add_blocks ((6, 7) ∷ (7, 8) ∷ []) two) (add_blocks ((6, 8) ∷ []) two)
add_blocks-same_example =
    add_blocks-same ((6, 7) ∷ (7, 8) ∷ []) ((6, 8) ∷ []) two (omega arith, (omega arith, tt))
      (omega arith, tt) (λ n. ground arith) two-IsValid

abbrev shim : ScoreBoardRq
shim = record { h_seqno = minus_one; changed = false; rq = two }

get_next_retran-Picks_example : Picks 2 shim (get_next_retran shim)
get_next_retran-Picks_example = get_next_retran-Picks shim 2 two-IsValid refl

get_next_retran-IsAfter_example :
    IsAfter 2 (get_next_retran (mark_retran (pos 2) (get_next_retran shim).1)).0
unfolding get_next_retran
get_next_retran-IsAfter_example = get_next_retran-IsAfter shim 2 2 two-IsValid refl refl

-- Packets 3 to 6, of which 4 has been reported.
abbrev board : ScoreBoard
board = record {
  first = 3;
  length = 4;
  sbsize = 8;
  changed = 0;
  sbn = λ i. record {
    seq_no = i;
    ack_flag = false;
    sack_flag = i == 4;
    retran = i == 3;
    snd_nxt = 0;
  };
}

get_next_retran-IsFirst_example : IsFirst (due board) (left board) 4 (Ring.get_next_retran board)
get_next_retran-IsFirst_example = get_next_retran-IsFirst board

get_next_unacked-IsFirst_example : IsFirst (missing board) 4 3 (get_next_unacked 4 board)
get_next_unacked-IsFirst_example = get_next_unacked-IsFirst board 4 (omega arith) (omega arith)

run_retran : Ring.get_next_retran board ≡ pos 5
unfolding Ring.get_next_retran
run_retran = refl

-- Packets 3 to 6 of a rate-halving board: 3 has been reported missing twice, 5 three times.
abbrev rh_board : ScoreBoardRh
rh_board = record {
  first = 3;
  length = 4;
  retran_occured = 0;
  retran_sacked = 0;
  numdupacks = 3;
  sbn = λ i. record {
    seq_no = i;
    ack_flag = false;
    sack_flag = i == 4;
    retran = false;
    snd_nxt = 0;
    sack_cnt = if i == 3 then 2 else 3;
    rh_id = 0;
  };
}

get_next_retran_rh-IsFirst_example :
    IsFirst (ripe rh_board) (first_seq rh_board) 4 (get_next_retran_rh rh_board)
get_next_retran_rh-IsFirst_example = get_next_retran_rh-IsFirst rh_board

get_next_retran_rh-IsAfter_example : IsAfter 5 (get_next_retran_rh (mark_retran_rh 5 20 1 rh_board))
unfolding get_next_retran_rh
get_next_retran_rh-IsAfter_example = get_next_retran_rh-IsAfter rh_board 5 20 1 (omega arith) refl

run_retran_rh : get_next_retran_rh rh_board ≡ pos 5
unfolding get_next_retran_rh
run_retran_rh = refl
