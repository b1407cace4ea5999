-- ===== src/Sink/Sacker.antt =====
-- `Sacker::append_ack`: the SACK blocks of an acknowledgement.
use tcpincast.Base.{
  ℕ, zero, suc, ◌+◌, ◌-◌, Bool, ◌&&◌, ◌||◌, Option, none, some, List, [], ◌∷◌, ◌++◌, ◌==◌, ltb, leb,
  if◌then◌else◌, ℤ, pos, negsuc, leb_ℤ, ltb_ℤ, minus_one, length,
}
use tcpincast.Sink.Acker
use tcpincast.Sink.Acker.{Acker, slot}
use tcpincast.Sink.Stack
use tcpincast.Sink.Stack.{SackStack, Entry}

pub record Sacker : Type 0 where
  pub acker : Acker
  pub base_nblocks : ℕ
  pub dsacks : Bool
  pub sf : SackStack

-- `NSA`, the SACK blocks that a header has room for.
abbrev pub nsa : ℕ
nsa = 3

-- `configure`, with the sink's `max_sack_blocks_` and `generate_dsacks_`; and `trace`, when the
-- first of them has changed.
unfoldable pub configure : ℕ → Bool → Sacker → Sacker
unfolding Stack.new_stack
configure nblocks dsacks s =
    let n = if ltb nsa nblocks then nsa else nblocks in
    record s { base_nblocks = n; dsacks = dsacks; sf = Stack.new_stack n }

unfoldable pub trace : ℕ → Sacker → Sacker
unfolding configure
trace nblocks s = configure nblocks s.dsacks s

unfoldable pub reset : Sacker → Sacker
unfolding Acker.reset Stack.reset
reset s = record s { acker = Acker.reset s.acker; sf = Stack.reset s.sf }

-- `for (i = old_seqno; i <= maxseen_; i++)`: the first hole, or the packet after the last one.
unfoldable pub right_edge : ℕ → ℕ → Acker → ℕ
right_edge zero i a = a.maxseen + 1
right_edge (suc n) i a =
    let further = right_edge n (i + 1) a in if slot a i == 0 then i else further

-- `for (i = sack_right - 1; i > seqno; i--)` in `n` rounds from `i` down: -1 if there is no hole.
unfoldable pub left_edge : ℕ → ℕ → Acker → ℤ
left_edge zero i a = minus_one
left_edge (suc n) i a =
    let further = left_edge n (i - 1) a in if slot a i == 0 then pos (i + 1) else further

-- The block that holds the packet just received. A packet below the window has none, and 0 as edge.
unfoldable pub recent : ℕ → Acker → Entry
unfolding right_edge left_edge
recent old a =
    let right = right_edge (a.maxseen + 1 - old) old a in
    record {
      left = if ltb old a.next then pos 0 else left_edge (right - a.next) (right - 1) a;
      right = pos right;
    }

-- The blocks of the header so far, and the stack.
pub record Blocks : Type 0 where
  pub blocks : List Entry
  pub sf : SackStack

-- The loop over the stack: entry `k` is dropped if the newest block covers it, and sent if not.
unfoldable pub older : ℕ → ℕ → ℕ → ℕ → Entry → Blocks → Option Blocks
older zero nblocks maxseen k r b = none
older (suc fuel) nblocks maxseen k r b =
    let e = Stack.head k b.sf in
    let dropped = older fuel nblocks maxseen k r (record b { sf = Stack.pop k b.sf }) in
    let sent = older fuel nblocks maxseen (k + 1) r (record b { blocks = b.blocks ++ e ∷ [] }) in
    if leb nblocks (length b.blocks)
    then some b
    else if ltb_ℤ e.left (pos 0) || ltb_ℤ e.right (pos 0) || ltb_ℤ (pos (maxseen + 1)) e.right
    then some b
    else if leb_ℤ r.left e.left && leb_ℤ e.right r.right
    then dropped
    else sent

-- `sf_->push()` and the two writes, for a packet above the acknowledgement.
unfoldable pub remember : ℕ → Acker → Entry → Blocks → Blocks
remember old a r b = if leb a.next old then record b { sf = Stack.push r b.sf } else b

-- The branch that builds blocks, with the duplicate's block first.
unfoldable pub build : ℕ → Sacker → Option Blocks
unfolding recent older remember
build old s =
    let a = s.acker in
    let dsack : List Entry =
      if s.dsacks && a.is_dup then record { left = pos old; right = pos (old + 1) } ∷ [] else [] in
    let r = recent old a in
    let first = dsack ++ (if ltb old a.next then [] else r ∷ []) in
    if leb s.base_nblocks (length dsack)
    then some (record { blocks = dsack; sf = s.sf })
    else elim (older (s.base_nblocks + s.sf.cnt + 1) s.base_nblocks a.maxseen 0 r
        (record { blocks = first; sf = s.sf })) [ none ↦ none | some b ↦ some (remember old a r b) ]

-- `seqno >= maxseen_` is `next_ > maxseen_`.
unfoldable pub append_at : ℕ → Sacker → Option Blocks
unfolding build
append_at old s =
    if ltb s.acker.maxseen s.acker.next && ltb 0 s.sf.cnt
    then some (record { blocks = []; sf = Stack.reset s.sf })
    else if (leb s.acker.next s.acker.maxseen || s.acker.is_dup) && ltb 0 s.base_nblocks
    then build old s
    else some (record { blocks = []; sf = s.sf })

-- `old_seqno` may be negative, which is reported and adds no block.
unfoldable pub append_ack : ℤ → Sacker → Option Blocks
unfolding append_at
append_ack (pos old) s = append_at old s
append_ack (negsuc n) s = some (record { blocks = []; sf = s.sf })
