-- ===== src/Full/Front.antt =====
-- What `recv` of tcp/tcp-full.cc cuts off the front of a segment.
use tcpincast.Base.{ℤ, pos, ◌-ℤ◌, ◌≤ℤ◌, ◌≡◌, ◌⊎◌, true}
use tcpincast.Full.Data.{Segment}
use tcpincast.Full.Reass.{Trimmed, end_of}

-- What is cut off is duplicate, and all that is duplicate is cut off: the end of the segment and the
-- relation of its length to its data stay, what is left begins at `rcv_nxt_` or after it, and is
-- nothing where the packet ended before.
pub record Trims {D : Type 0} (next : ℤ) (pkt : Segment D) (t : Trimmed D) : Type 0 where
  pub same_end : end_of t.segment ≡ end_of pkt
  pub same_length : t.datalen ≡ t.segment.size -ℤ t.segment.hlen
  pub fresh : (next ≤ℤ t.segment.seqno) ⊎ (t.datalen ≡ pos 0)
  pub duplicate_end : t.duplicate ≡ true → end_of pkt ≤ℤ next
