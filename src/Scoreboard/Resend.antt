-- ===== src/Scoreboard/Resend.antt =====
-- `class ScoreBoardRH`: what is lost and what is sent again.
use tcpincast.Base.{
  ℕ, zero, suc, ◌+◌, Bool, true, false, not, ◌&&◌, ◌==◌, ltb, leb, if◌then◌else◌, ℤ, pos, minus_one,
  sub_ℕ,
}
use tcpincast.Scoreboard.Ring.{Call, gives, exits, out_of_fuel}
use tcpincast.Scoreboard.Halving.{
  ScoreBoardRh, hole_at, write_hole, first_seq, is_hole, grow_right_side,
}

unfoldable pub clear_score_board_rh : ScoreBoardRh → ScoreBoardRh
clear_score_board_rh s = record s { length = 0 }

unfoldable pub retran_rh_from : ℕ → ℕ → ScoreBoardRh → ℤ
retran_rh_from zero i s = minus_one
retran_rh_from (suc n) i s =
    let x = hole_at i s in
    let later = retran_rh_from n (i + 1) s in
    if is_hole x && not x.retran && leb s.numdupacks x.sack_cnt then pos i else later

unfoldable pub get_next_retran_rh : ScoreBoardRh → ℤ
unfolding retran_rh_from
get_next_retran_rh s = retran_rh_from s.length (first_seq s) s

unfoldable pub mark_retran_rh : ℕ → ℕ → ℕ → ScoreBoardRh → ScoreBoardRh
mark_retran_rh seqno snd_nxt rh_id s =
    record (write_hole seqno
      (record (hole_at seqno s) { retran = true; snd_nxt = snd_nxt; rh_id = rh_id }) s) {
        retran_occured = rh_id;
      }

-- `GetFack`; `i` is `last_ack + 1`.
unfoldable pub get_fack : ℕ → ScoreBoardRh → ℤ
get_fack i s = if ltb 0 s.length then sub_ℕ (first_seq s + s.length) 1 else sub_ℕ i 1

unfoldable pub new_holes_from : ℕ → ℕ → ScoreBoardRh → ℕ
new_holes_from zero i s = 0
new_holes_from (suc n) i s =
    let x = hole_at i s in
    let rest = new_holes_from n (i + 1) s in
    if is_hole x && (x.sack_cnt == 1) then suc rest else rest

unfoldable pub get_new_holes : ScoreBoardRh → ℕ
unfolding new_holes_from
get_new_holes s = new_holes_from s.length (first_seq s) s

-- A timeout: every hole is to be sent again.
unfoldable pub due_again : ℕ → ℕ → ScoreBoardRh → ScoreBoardRh
due_again zero i s = s
due_again (suc n) i s =
    let x = hole_at i s in
    let due : ScoreBoardRh =
      write_hole i (record x { retran = false; snd_nxt = 0; sack_cnt = s.numdupacks }) s in
    due_again n (i + 1) (if is_hole x then due else s)

-- A first segment that was reported but not acknowledged is a renege.
unfoldable pub renege : ScoreBoardRh → ScoreBoardRh
renege s =
    let i = first_seq s in
    let x = hole_at i s in
    if not x.ack_flag && x.sack_flag
    then write_hole i
        (record x { sack_flag = false; retran = false; snd_nxt = 0; sack_cnt = s.numdupacks }) s
    else s

unfoldable pub timeout_score_board : ℕ → ScoreBoardRh → Call ScoreBoardRh
unfolding grow_right_side due_again renege
timeout_score_board snd_nxt s =
    if s.length == 0 then gives s else elim (grow_right_side snd_nxt s) [
      | gives s' ↦ gives (renege (due_again s'.length (first_seq s') s'))
      | exits ↦ exits
      | out_of_fuel ↦ out_of_fuel
    ]

unfoldable pub retran_sacked : ℕ → ScoreBoardRh → Bool
retran_sacked rh_id s = s.retran_sacked == rh_id

unfoldable pub retran_occurred : ℕ → ScoreBoardRh → Bool
retran_occurred rh_id s = s.retran_occured == rh_id
