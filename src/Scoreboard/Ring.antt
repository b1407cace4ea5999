-- ===== src/Scoreboard/Ring.antt =====
-- `class ScoreBoard`: the scoreboard of `length` packets from `first` on, in an array of `sbsize`
-- nodes where packet `i` has the place `i % sbsize`. Packet numbers are not negative.
use tcpincast.Base.{
  ℕ, zero, suc, ◌+◌, ◌-◌, ◌*◌, ◌%◌, Bool, true, false, not, ◌&&◌, ◌||◌, List, [], ◌∷◌, ◌==◌, ltb,
  leb, if◌then◌else◌, ℤ, pos, minus_one, add_ℕ, pos_part, leb_ℤ, is_nil,
}

pub record Node : Type 0 where
  pub seq_no : ℕ
  pub ack_flag : Bool
  pub sack_flag : Bool
  pub retran : Bool
  pub snd_nxt : ℕ

pub record ScoreBoard : Type 0 where
  pub first : ℕ
  pub length : ℕ
  pub sbsize : ℕ
  pub changed : ℕ
  pub sbn : ℕ → Node

-- `SBN[i % sbsize_]`.
abbrev pub at : ℕ → ScoreBoard → Node
at i s = s.sbn (i % s.sbsize)

abbrev pub put : (ℕ → Node) → ℕ → Node → ℕ → Node
put f i v j = if j == i then v else f j

abbrev pub store : ℕ → Node → ScoreBoard → ScoreBoard
store i v s = record s { sbn = put s.sbn (i % s.sbsize) v }

-- The packet number that the first node holds.
abbrev pub left : ScoreBoard → ℕ
left s = (at s.first s).seq_no

abbrev pub fresh : ℕ → Node
fresh i = record { seq_no = i; ack_flag = false; sack_flag = false; retran = false; snd_nxt = 0 }

-- What a call may do: give a result, fail an assertion and exit, or use up the model's fuel.
pub data Call {ℓ} (A : Type ℓ) : Type ℓ where
  gives : A → Call A
  exits out_of_fuel : Call A

unfoldable pub clear_score_board : ScoreBoard → ScoreBoard
clear_score_board s = record s { length = 0 }

-- `GetNextRetran`, and `GetNextUnacked`, in `n` rounds from `i`.
unfoldable pub retran_from : ℕ → ℕ → ScoreBoard → ℤ
retran_from zero i s = minus_one
retran_from (suc n) i s =
    let x = at i s in
    let later = retran_from n (i + 1) s in
    if not x.ack_flag && not x.sack_flag && not x.retran then pos i else later

unfoldable pub get_next_retran : ScoreBoard → ℤ
unfolding retran_from
get_next_retran s = retran_from s.length (left s) s

unfoldable pub unacked_from : ℕ → ℕ → ScoreBoard → ℤ
unacked_from zero i s = minus_one
unacked_from (suc n) i s =
    let x = at i s in
    let later = unacked_from n (i + 1) s in
    if not x.ack_flag && not x.sack_flag then pos i else later

unfoldable pub get_next_unacked : ℕ → ScoreBoard → ℤ
unfolding unacked_from
get_next_unacked seqno s =
    if s.length == 0
    then minus_one
    else if ltb seqno (left s) || leb (left s + s.length) seqno
    then minus_one
    else unacked_from (left s + s.length - seqno) seqno s

unfoldable pub mark_retran : ℕ → ScoreBoard → ScoreBoard
mark_retran seqno s = store seqno (record (at seqno s) { retran = true }) s

unfoldable pub mark_retran_at : ℕ → ℕ → ScoreBoard → ScoreBoard
mark_retran_at seqno snd_nxt s =
    store seqno (record (at seqno s) { retran = true; snd_nxt = snd_nxt }) s

-- The copying loop of `resizeSB`, from packet `i` on.
unfoldable pub copy : ℕ → ℕ → ℕ → ScoreBoard → (ℕ → Node) → ℕ → Node
copy zero i sz s f = f
copy (suc n) i sz s f = copy n (i + 1) sz s (put f (i % sz) (at i s))

-- The contents of the new array are not written by the source: `blank` is what it holds.
unfoldable pub resize_sb : (ℕ → Node) → ℕ → ScoreBoard → ScoreBoard
unfolding copy
resize_sb blank sz s = record s { sbn = copy (s.length + 1) (left s) sz s blank; sbsize = sz }

-- A node that is acknowledged; its retransmission is over.
unfoldable pub acked : Node → Node
acked x = record x {
  ack_flag = true;
  sack_flag = true;
  retran = false;
  snd_nxt = if x.retran then 0 else x.snd_nxt;
}

-- The loop that moves the left edge, in `n` rounds from `i`; also counts `retran_decr`.
unfoldable pub advance : ℕ → ℕ → ℕ → ℕ → ScoreBoard → Call (ℕ × ScoreBoard)
unfolding acked
advance zero i last_ack decr s = gives (decr, s)
advance (suc n) i last_ack decr s =
    let x = at i s in
    let decr' = if x.retran then decr + 1 else decr in
    let moved : ScoreBoard = record (store i (acked x) s) {
      first = s.first + 1;
      length = s.length - 1;
      changed = s.changed + 1;
    } in
    let next = advance n (i + 1) last_ack decr' moved in
    let passed = advance n (i + 1) last_ack decr s in
    if leb x.seq_no last_ack
    then (if s.first == i && ltb 0 s.length
        then (if s.length == 1 then gives (decr', moved) else next)
        else exits)
    else passed

unfoldable pub advance_left : ℤ → ScoreBoard → Call (ℕ × ScoreBoard)
unfolding advance
advance_left last_ack s =
    if ltb 0 s.length && leb_ℤ (pos (left s)) last_ack
    then advance (pos_part last_ack + 1 - left s) (left s) (pos_part last_ack) 0 s
    else gives (0, s)

-- A new node at the right end; a full array ends the program.
unfoldable pub append : ℕ → ScoreBoard → Call ScoreBoard
append i s =
    if leb s.sbsize (s.length + 1)
    then exits
    else gives (record (store i (fresh i) s) { length = s.length + 1; changed = s.changed + 1 })

-- `if (length_ == 0 && tcph->sa_length())`.
unfoldable pub start : ℕ → List (ℕ × ℕ) → ScoreBoard → Call ScoreBoard
unfolding append
start i blocks s =
    if s.length == 0 && not (is_nil blocks) then append i (record s { first = i }) else gives s

-- The packet number that the last node holds.
abbrev pub last_seq : ScoreBoard → ℕ
last_seq s = (at (s.first + s.length + s.sbsize - 1) s).seq_no

-- `while ((sack_right - last_ack) >= sbsize_ - 1) resizeSB(sbsize_ * 2)`; `i` is `last_ack + 1`.
unfoldable pub widen : (ℕ → Node) → ℕ → ℕ → ℕ → ScoreBoard → Call ScoreBoard
unfolding resize_sb
widen blank zero right i s = out_of_fuel
widen blank (suc fuel) right i s =
    let wider = widen blank fuel right i (resize_sb blank (s.sbsize * 2) s) in
    if leb (s.sbsize + i) (right + 2) then wider else gives s

unfoldable pub extend : ℕ → ℕ → ScoreBoard → Call ScoreBoard
unfolding append
extend zero i s = gives s
extend (suc n) i s = elim (append i s) [
  | gives s' ↦ extend n (i + 1) s'
  | exits ↦ exits
  | out_of_fuel ↦ out_of_fuel
]

-- The node is in the block: it is marked, and its retransmission is over.
unfoldable pub sacked : Node → Node
sacked x = record x { sack_flag = true; retran = false }

unfoldable pub cover : ℕ → ℕ → ℕ → ℕ → ℕ → ScoreBoard → ℕ × ScoreBoard
unfolding sacked
cover zero i l r decr s = (decr, s)
cover (suc n) i l r decr s =
    let x = at i s in
    let decr' = if x.retran then decr + 1 else decr in
    let count = if x.sack_flag then s.changed else s.changed + 1 in
    let hit : ScoreBoard = record (store i (sacked x) s) { changed = count } in
    let passed = cover n (i + 1) l r decr s in
    let marked = cover n (i + 1) l r decr' hit in
    if leb l x.seq_no && ltb x.seq_no r then marked else passed

-- New nodes off the right side, in an array that is wide enough.
unfoldable pub extend_right : (ℕ → Node) → ℕ → ℕ → ScoreBoard → Call ScoreBoard
unfolding widen extend
extend_right blank r i s =
    if ltb (last_seq s) r
    then elim (widen blank (r + 3) r i s) [
      | gives s' ↦ extend (r - (last_seq s' + 1)) (last_seq s' + 1) s'
      | exits ↦ exits
      | out_of_fuel ↦ out_of_fuel
    ]
    else gives s

-- One SACK block.
unfoldable pub take_block : (ℕ → Node) → ℕ → ℕ → ℕ → ℕ → ScoreBoard → Call (ℕ × ScoreBoard)
unfolding extend_right cover
take_block blank i l r decr s = elim (extend_right blank r i s) [
  | gives s' ↦ gives (cover (r - left s') (left s') l r decr s')
  | exits ↦ exits
  | out_of_fuel ↦ out_of_fuel
]

unfoldable pub take_blocks : (ℕ → Node) → ℕ → List (ℕ × ℕ) → ℕ → ScoreBoard → Call (ℕ × ScoreBoard)
unfolding take_block
take_blocks blank i [] decr s = gives (decr, s)
take_blocks blank i ((l, r) ∷ bs) decr s = elim (take_block blank i l r decr s) [
  | gives (d, s') ↦ take_blocks blank i bs d s'
  | exits ↦ exits
  | out_of_fuel ↦ out_of_fuel
]

-- `UpdateScoreBoard`, with `retran_decr`. `last_ack` may be -1.
unfoldable pub update_score_board :
    (ℕ → Node) → ℤ → List (ℕ × ℕ) → ScoreBoard → Call (ℕ × ScoreBoard)
unfolding advance_left start take_blocks
update_score_board blank last_ack blocks s =
    let i = pos_part (add_ℕ last_ack 1) in
    elim (advance_left last_ack (record s { changed = 0 })) [
      | exits ↦ exits
      | out_of_fuel ↦ out_of_fuel
      | gives (decr, s1) ↦ elim (start i blocks s1) [
        | gives s2 ↦ take_blocks blank i blocks decr s2
        | exits ↦ exits
        | out_of_fuel ↦ out_of_fuel
      ]
    ]

-- `CheckSndNxt` for one block, in `n` rounds from `i`: was a retransmission lost again?
unfoldable pub lost_again : ℕ → ℕ → ℕ → Bool → ScoreBoard → Bool × ScoreBoard
lost_again zero i r force s = (force, s)
lost_again (suc n) i r force s =
    let x = at i s in
    let passed = lost_again n (i + 1) r force s in
    let lost = lost_again n (i + 1) r true (store i (record x { retran = false; snd_nxt = 0 }) s) in
    if x.retran && ltb x.snd_nxt r then lost else passed

unfoldable pub check_snd_nxt : List (ℕ × ℕ) → Bool → ScoreBoard → Bool × ScoreBoard
unfolding lost_again
check_snd_nxt [] force s = (force, s)
check_snd_nxt ((l, r) ∷ bs) force s =
    let (f, s') = lost_again (r - left s) (left s) r force s in check_snd_nxt bs f s'
