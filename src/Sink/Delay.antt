-- ===== src/Sink/Delay.antt =====
-- `DelAckSink`: when an acknowledgement waits, and when it is sent.
use tcpincast.Base.{
  ap, sub_ℕ, Option-cases, ℕ, ◌≡◌, refl, true, false, Option, none, some, List, [], ◌∷◌, arith,
  Bool-cases, inl, inr, ◌⊎◌, ◌≤◌, ◌<◌, pos,
}
use tcpincast.Sink.Acker
use tcpincast.Sink.Agent.{
  Sink, Packet, Ack, Output, send, acker_of, ack, may_delay, delay_or_ack, timeout, blocks_for,
  note_ecn, done_with,
}

-- One acknowledgement left, with the number of the last packet in order; nothing is saved, and the
-- timer does not run.
abbrev pub Acked : Sink → Option (Sink × List Output) → Type 0
Acked s none = ⊥
Acked s (some (s', o)) =
    (s'.save ≡ none)
    × (s'.pending ≡ false)
    × ((k : Ack) × (o ≡ send k ∷ []) × (k.seqno ≡ Acker.seqno (acker_of s)))

-- Nothing left: the packet is saved, and the timer runs.
abbrev pub Delayed : Packet → Option (Sink × List Output) → Type 0
Delayed p none = ⊥
Delayed p (some (s', o)) = (s'.save ≡ some p) × (s'.pending ≡ true) × (o ≡ [])

-- The packet may wait: none does, it is the last in order, and it is neither one that fills a gap,
-- where those are acknowledged at once, nor the first packet, where that is.
pub record Waits (p : Packet) (s : Sink) : Type 0 where
  pub idle : s.pending ≡ false
  pub last_in_order : Acker.seqno (acker_of s) ≡ pos p.seqno
  pub fills_no_gap : (s.rfc2581_immediate_ack ≡ false) ⊎ ((acker_of s).maxseen ≤ p.seqno)
  pub later_than_syn : (s.syn_immediate_ack ≡ false) ⊎ (0 < p.seqno)

note-next : (p : Packet) (sf : Option Packet) (a : Acker.Acker) → (note_ecn p sf a).next ≡ a.next
unfolding note_ecn Acker.update_ecn_unacked
note-next p sf a = ground arith

ack-Acked :
    (now : ℕ) (p : Packet) (s : Sink)
    → s.sacks ≡ false
    → s.pending ≡ false
    → Acked s (done_with (ack now p s))
unfolding ack blocks_for
ack-Acked now p s e f =
    rw e (refl, f, (_, refl, ap (λ n. sub_ℕ n 1) (note-next p s.save (acker_of s))))

may_delay-Waits : (p : Packet) (s : Sink) → may_delay p s ≡ true → Waits p s
unfolding may_delay
may_delay-Waits p s h = record {
  idle = ground (arith, h);
  last_in_order = ground (arith, h);
  fills_no_gap = elim (Bool-cases s.rfc2581_immediate_ack) [
    | inl e ↦ inr (ground (arith, h, e))
    | inr e ↦ inl e
  ];
  later_than_syn = elim (Bool-cases s.syn_immediate_ack) [
    | inl e ↦ inr (ground (arith, h, e))
    | inr e ↦ inl e
  ];
}

may_delay-not : (p : Packet) (s : Sink) → may_delay p s ≡ false → Waits p s → ⊥
unfolding may_delay
may_delay-not p s h w = ground (arith, h, w.idle, w.last_in_order, w.fills_no_gap, w.later_than_syn)

-- What is left of `DelAckSink::recv` after the window has moved, in a sink without SACK. If no
-- packet waits, this one is the last in order, fills no gap where RFC 2581 is followed, and is not
-- the first where that is acknowledged at once, then it is saved with the timer set, and nothing is
-- sent. Else one acknowledgement leaves, with the number of the last packet in order, nothing is
-- saved and the timer does not run.
pub delay_or_ack-Acked :
    (now : ℕ) (p : Packet) (s : Sink)
    → s.sacks ≡ false
    → (Waits p s × Delayed p (delay_or_ack now p s))
      ⊎ ((Waits p s → ⊥) × Acked s (delay_or_ack now p s))
unfolding delay_or_ack
delay_or_ack-Acked now p s e = elim (Bool-cases (may_delay p s)) [
  | inl h ↦ rw h (inl (may_delay-Waits p s h, (refl, refl, refl)))
  | inr h ↦
      rw h (inr (λ w. may_delay-not p s h w, ack-Acked now p (record s { pending = false }) e refl))
]

-- When the timer of a sink without SACK expires and no packet is saved, only the timer changes; if
-- one is, one acknowledgement leaves, with the number of the last packet in order, and nothing is
-- saved.
pub timeout-Acked :
    (now : ℕ) (s : Sink)
    → s.sacks ≡ false
    → ((s.save ≡ none) × (timeout now s ≡ some (record s { pending = false }, [])))
      ⊎ (((p : Packet) × (s.save ≡ some p)) × Acked s (timeout now s))
unfolding timeout
timeout-Acked now s e = elim (Option-cases s.save) [
  | inl h ↦ rw h (inl (refl, refl))
  | inr (p, h) ↦
      rw h (inr ((p, refl), ack-Acked now p (record s { save = some p; pending = false }) e refl))
]
