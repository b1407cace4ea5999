-- ===== src/Scoreboard/Halving.antt =====
-- `class ScoreBoardRH`: the scoreboard of rate halving, an array of `sbsize` nodes that also counts
-- the reports of each hole. Packet numbers are not negative; `last_ack` is written as `i`, one more.
use tcpincast.Base.{
  ℕ, zero, suc, ◌+◌, ◌-◌, ◌%◌, Bool, true, false, not, ◌&&◌, List, [], ◌∷◌, ◌==◌, ltb, leb,
  if◌then◌else◌, is_nil, max,
}
use tcpincast.Scoreboard.Ring.{Call, gives, exits, out_of_fuel}

abbrev pub sbsize : ℕ
sbsize = 1024

pub record HoleNode : Type 0 where
  pub seq_no : ℕ
  pub ack_flag : Bool
  pub sack_flag : Bool
  pub retran : Bool
  pub snd_nxt : ℕ
  pub sack_cnt : ℕ
  pub rh_id : ℕ

pub record ScoreBoardRh : Type 0 where
  pub first : ℕ
  pub length : ℕ
  pub retran_occured : ℕ
  pub retran_sacked : ℕ
  pub numdupacks : ℕ
  pub sbn : ℕ → HoleNode

abbrev pub hole_at : ℕ → ScoreBoardRh → HoleNode
hole_at i s = s.sbn (i % sbsize)

abbrev pub write_hole : ℕ → HoleNode → ScoreBoardRh → ScoreBoardRh
write_hole i v s = record s { sbn = λ j. if j == i % sbsize then v else s.sbn j }

abbrev pub first_seq : ScoreBoardRh → ℕ
first_seq s = (hole_at s.first s).seq_no

abbrev pub last_of : ScoreBoardRh → ℕ
last_of s = (hole_at (s.first + s.length + sbsize - 1) s).seq_no

abbrev pub new_hole : ℕ → HoleNode
new_hole i = record {
  seq_no = i;
  ack_flag = false;
  sack_flag = false;
  retran = false;
  snd_nxt = 0;
  sack_cnt = 0;
  rh_id = 0;
}

abbrev pub is_hole : HoleNode → Bool
is_hole x = not x.ack_flag && not x.sack_flag

-- A new node at the right end; a full array ends the program.
unfoldable pub grow : ℕ → ScoreBoardRh → Call ScoreBoardRh
grow i s =
    if leb sbsize (s.length + 1)
    then exits
    else gives (record (write_hole i (new_hole i) s) { length = s.length + 1 })

unfoldable pub grow_upto : ℕ → ℕ → ScoreBoardRh → Call ScoreBoardRh
unfolding grow
grow_upto zero i s = gives s
grow_upto (suc n) i s = elim (grow i s) [
  | gives s' ↦ grow_upto n (i + 1) s'
  | exits ↦ exits
  | out_of_fuel ↦ out_of_fuel
]

-- New entries off the right side, up to `right`.
unfoldable pub grow_right_side : ℕ → ScoreBoardRh → Call ScoreBoardRh
unfolding grow_upto
grow_right_side right s =
    if ltb (last_of s) right then grow_upto (right - (last_of s + 1)) (last_of s + 1) s else gives s

-- A retransmission that has arrived.
abbrev pub arrived : HoleNode → HoleNode
arrived x = record x { retran = false; snd_nxt = if x.retran then 0 else x.snd_nxt }

-- The loop that moves the left edge, in `n` rounds from `i`; also counts `retran_decr`.
unfoldable pub advance_rh : ℕ → ℕ → ℕ → ℕ → ℕ → ScoreBoardRh → Call (ℕ × ScoreBoardRh)
advance_rh zero i last_ack rh_id decr s = gives (decr, s)
advance_rh (suc n) i last_ack rh_id decr s =
    let x = hole_at i s in
    let decr' = if x.retran then decr + 1 else decr in
    let moved : ScoreBoardRh =
      record (write_hole i (record (arrived x) { ack_flag = true; sack_flag = true }) s) {
        first = (s.first + 1) % sbsize;
        length = s.length - 1;
        retran_sacked = if x.retran then rh_id else s.retran_sacked;
      } in
    let next = advance_rh n (i + 1) last_ack rh_id decr' moved in
    let passed = advance_rh n (i + 1) last_ack rh_id decr s in
    if leb x.seq_no last_ack
    then (if (s.first == i % sbsize) && ltb 0 s.length
        then (if s.length == 1 then gives (decr', moved) else next)
        else exits)
    else passed

-- `if (SBN[first_].seq_no_ <= last_ack)`, where `i` is `last_ack + 1`.
unfoldable pub advance_edge : ℕ → ℕ → ScoreBoardRh → Call (ℕ × ScoreBoardRh)
unfolding advance_rh
advance_edge i rh_id s =
    if ltb (s.sbn s.first).seq_no i
    then advance_rh (i - first_seq s) (first_seq s) (i - 1) rh_id 0 s
    else gives (0, s)

-- The nodes that a block covers, in `n` rounds from `i`.
unfoldable pub cover_rh : ℕ → ℕ → ℕ → ℕ → ℕ → ℕ → ScoreBoardRh → ℕ × ScoreBoardRh
cover_rh zero i l r rh_id decr s = (decr, s)
cover_rh (suc n) i l r rh_id decr s =
    let x = hole_at i s in
    let decr' = if x.retran then decr + 1 else decr in
    let hit : ScoreBoardRh = record (write_hole i (record (arrived x) { sack_flag = true }) s) {
      retran_sacked = if x.retran then rh_id else s.retran_sacked;
    } in
    let passed = cover_rh n (i + 1) l r rh_id decr s in
    let marked = cover_rh n (i + 1) l r rh_id decr' hit in
    if leb l x.seq_no && ltb x.seq_no r then marked else passed

unfoldable pub take_sack : ℕ → ℕ → ℕ → ℕ → ScoreBoardRh → Call (ℕ × ScoreBoardRh)
unfolding grow_right_side cover_rh
take_sack l r rh_id decr s = elim (grow_right_side r s) [
  | gives s' ↦ gives (cover_rh (r - first_seq s') (first_seq s') l r rh_id decr s')
  | exits ↦ exits
  | out_of_fuel ↦ out_of_fuel
]

unfoldable pub take_sacks : List (ℕ × ℕ) → ℕ → ℕ → ScoreBoardRh → Call (ℕ × ScoreBoardRh)
unfolding take_sack
take_sacks [] rh_id decr s = gives (decr, s)
take_sacks ((l, r) ∷ bs) rh_id decr s = elim (take_sack l r rh_id decr s) [
  | gives (d, s') ↦ take_sacks bs rh_id d s'
  | exits ↦ exits
  | out_of_fuel ↦ out_of_fuel
]

-- `sack_max`: the highest right edge, at least 0.
unfoldable pub sack_max : List (ℕ × ℕ) → ℕ
sack_max [] = 0
sack_max ((l, r) ∷ bs) = max r (sack_max bs)

-- `sack_cnt_++` on holes that still exist, in `n` rounds from `i`.
unfoldable pub count_reports : ℕ → ℕ → ScoreBoardRh → ScoreBoardRh
count_reports zero i s = s
count_reports (suc n) i s =
    let x = hole_at i s in
    let counted : ScoreBoardRh = write_hole i (record x { sack_cnt = x.sack_cnt + 1 }) s in
    count_reports n (i + 1) (if is_hole x then counted else s)

-- The loop of `CheckSndNxt`.
unfoldable pub lost_from : ℕ → ℕ → ℕ → ℕ → ScoreBoardRh → ℕ × ScoreBoardRh
lost_from zero i top lost s = (lost, s)
lost_from (suc n) i top lost s =
    let x = hole_at i s in
    let again : ScoreBoardRh =
      write_hole i (record x { retran = false; snd_nxt = 0; sack_cnt = 1 }) s in
    let here = lost_from n (i + 1) top (lost + 1) again in
    let passed = lost_from n (i + 1) top lost s in
    if x.retran && ltb x.snd_nxt top then here else passed

unfoldable pub check_snd_nxt_rh : ℕ → ScoreBoardRh → ℕ × ScoreBoardRh
unfolding lost_from
check_snd_nxt_rh top s =
    if s.length == 0 then (0, s) else lost_from (top - first_seq s) (first_seq s) top 0 s

-- `if (length_ == 0)`: a new board. `first_` is a place in the array.
unfoldable pub create : ℕ → ScoreBoardRh → Call ScoreBoardRh
unfolding grow
create i s = if s.length == 0 then grow i (record s { first = i % sbsize }) else gives s

-- The end of `UpdateScoreBoard`: the reports are counted, and what is lost again.
unfoldable pub conclude : ℕ → ℕ → ScoreBoardRh → ℕ × ScoreBoardRh
unfolding count_reports check_snd_nxt_rh
conclude top decr s =
    let s1 = if s.length == 0 then s else count_reports (top - first_seq s) (first_seq s) s in
    let (lost, s2) = check_snd_nxt_rh top s1 in (decr + lost, s2)

-- After the board exists: the left edge, the blocks, the end.
unfoldable pub update_from : ℕ → List (ℕ × ℕ) → ℕ → ScoreBoardRh → Call (ℕ × ScoreBoardRh)
unfolding advance_edge take_sacks conclude sack_max
update_from i blocks rh_id s = elim (advance_edge i rh_id s) [
  | exits ↦ exits
  | out_of_fuel ↦ out_of_fuel
  | gives (decr, s1) ↦ elim (take_sacks blocks rh_id decr s1) [
    | exits ↦ exits
    | out_of_fuel ↦ out_of_fuel
    | gives (d, s2) ↦ gives (conclude (sack_max blocks) d s2)
  ]
]

unfoldable pub update_score_board_rh : ℕ → List (ℕ × ℕ) → ℕ → ScoreBoardRh → Call (ℕ × ScoreBoardRh)
unfolding create update_from
update_score_board_rh i blocks rh_id s =
    if is_nil blocks && (s.length == 0) then gives (0, s) else elim (create i s) [
      | gives s1 ↦ update_from i blocks rh_id s1
      | exits ↦ exits
      | out_of_fuel ↦ out_of_fuel
    ]
