-- ===== src/Full/Holes.antt =====
-- `SackFullTcpAgent::nxt_tseq` of tcp/tcp-full.cc: the number that is sent next in recovery.
use tcpincast.Base.{
  ℕ, ◌≤◌, max, ℤ, pos, ltb_ℤ, ◌≡◌, true, false, ◌⊎◌, Option, none, some, List, [], ◌∷◌,
}
use tcpincast.Rq.Defs.{Hole}
use tcpincast.Rq.Ranges.{Range, ranges, covers}
use tcpincast.Rq.Gap.{above, count_of, bytes_of}
use tcpincast.Full.Sack.{SackConn, is_due, jumped, next_new}

-- The highest start of a range.
abbrev pub top : List Range → ℕ
top [] = 0
top (x ∷ xs) = max x.lo (top xs)

module _ {D : Type 0} where
  -- A hole that is sent again: not received, not below `low`, with enough beyond it; `h_seqno_`
  -- rises to it.
  pub record Fills (low : ℕ) (s : SackConn D) (seq : ℤ) (e : SackConn D) : Type 0 where
    pub place : ℕ
    pub found : Hole
    pub same : (seq ≡ pos place) × (found.seq ≡ pos place)
    pub from : low ≤ place
    pub free : covers place (ranges s.sq.fifo) ≡ false
    pub beyond :
        (found.nxtcnt ≡ count_of (above place (ranges s.sq.fifo)))
        × (found.nxtbytes ≡ bytes_of (above place (ranges s.sq.fifo)))
    pub due : is_due s found ≡ true
    pub noted : e ≡ jumped seq s

  -- New data, or a hole.
  abbrev pub Chooses : ℕ → SackConn D → Option (ℤ × SackConn D) → Type 0
  Chooses low s none = ⊥
  Chooses low s (some x) = ((x.0 ≡ s.base.tcp.t_seqno) × (x.1 ≡ s)) ⊎ Fills low s x.0 x.1

  -- New data outside of a recovery, new data or a hole within one.
  abbrev pub Answers : ℕ → SackConn D → Option (ℤ × SackConn D) → Type 0
  Answers low s o =
      ((ltb_ℤ s.base.tcp.highest_ack s.base.tcp.recover ≡ false) × (o ≡ next_new s))
      ⊎ ((ltb_ℤ s.base.tcp.highest_ack s.base.tcp.recover ≡ true) × Chooses low s o)
