-- ===== src/Scoreboard/Shim.antt =====
-- `class ScoreBoardRQ`: the scoreboard over a reassembly queue. `sack_min` is the `rcv_nxt_` that
-- the queue refers to.
use tcpincast.Base.{
  ℕ, Bool, true, false, not, ◌&&◌, ◌||◌, List, [], ◌∷◌, ◌==◌, if◌then◌else◌, ℤ, pos, leb_ℤ, ltb_ℤ,
  add_ℕ, minus_one,
}
use tcpincast.Rq.Defs
use tcpincast.Rq.Defs.{Rq, Hole}
use tcpincast.Rq.Coalesce.{Outcome, returns, aborts, dangles, crossed, out_of_fuel}
use tcpincast.Rq.Add.{add}

pub record ScoreBoardRq : Type 0 where
  pub h_seqno : ℤ
  pub changed : Bool
  pub rq : Rq

abbrev pub sack_min : ScoreBoardRq → ℤ
sack_min s = s.rq.rcv_nxt

unfoldable pub clear_score_board : ScoreBoardRq → ScoreBoardRq
unfolding Defs.clear
clear_score_board s = record s { rq = Defs.clear s.rq; h_seqno = minus_one }

-- `GetNextRetran`: the sequence number, or -1.
unfoldable pub next_from : Hole → ScoreBoardRq → ℤ × ScoreBoardRq
next_from h s =
    if ltb_ℤ (pos 0) h.seq && ltb_ℤ (pos 0) h.nxtcnt
    then (h.seq, record s { h_seqno = if ltb_ℤ s.h_seqno h.seq then h.seq else s.h_seqno })
    else (minus_one, s)

unfoldable pub get_next_retran : ScoreBoardRq → ℤ × ScoreBoardRq
unfolding next_from Defs.nexthole
get_next_retran s =
    let h = if ltb_ℤ s.h_seqno (sack_min s) then sack_min s else s.h_seqno in
    next_from (Defs.nexthole h s.rq) (record s { h_seqno = h })

-- What follows a call of `add` that returns.
unfoldable pub and_then : (Rq → Outcome) → Outcome → Outcome
and_then f (returns x q) = f q
and_then f aborts = aborts
and_then f dangles = dangles
and_then f crossed = crossed
and_then f out_of_fuel = out_of_fuel

-- `rq_.add` for each SACK block of the header. An `add` that does not return ends the loop.
unfoldable pub add_blocks : List (ℕ × ℕ) → Rq → Outcome
unfolding add and_then
add_blocks [] q = returns 0 q
add_blocks ((l, r) ∷ bs) q = and_then (add_blocks bs) (add l r 0 0 q)

-- The left edge moves to one beyond `last_ack`.
unfoldable pub move_left : ℤ → ScoreBoardRq → ScoreBoardRq
unfolding Defs.cleartonxt Defs.empty
move_left last_ack s =
    let moved = record s.rq { rcv_nxt = add_ℕ last_ack 1 } in
    if leb_ℤ (sack_min s) last_ack
    then (if Defs.empty moved
        then record s { rq = moved; changed = false }
        else record s { rq = (Defs.cleartonxt moved).1; changed = true })
    else record s { changed = false }

abbrev pub updated : ℕ → ScoreBoardRq → Outcome → Outcome × Bool
updated old s (returns f q) = (returns f q, s.changed || not (old == q.total))
updated old s aborts = (aborts, s.changed)
updated old s dangles = (dangles, s.changed)
updated old s crossed = (crossed, s.changed)
updated old s out_of_fuel = (out_of_fuel, s.changed)

-- `UpdateScoreBoard`: the queue, and the new `changed_`. The result is always 0.
unfoldable pub update_score_board : ℤ → List (ℕ × ℕ) → ScoreBoardRq → Outcome × Bool
unfolding move_left add_blocks
update_score_board last_ack blocks s =
    let s1 = move_left last_ack s in updated s.rq.total s1 (add_blocks blocks s1.rq)

unfoldable pub get_next_unacked : ℤ → ScoreBoardRq → ℤ
unfolding Defs.nexthole
get_next_unacked seqno s = (Defs.nexthole seqno s.rq).seq

-- Both forms of `MarkRetran`.
unfoldable pub mark_retran : ℤ → ScoreBoardRq → ScoreBoardRq
mark_retran seqno s = if leb_ℤ s.h_seqno seqno then record s { h_seqno = add_ℕ seqno 1 } else s
