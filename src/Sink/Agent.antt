-- ===== src/Sink/Agent.antt =====
-- `TcpSink` and `DelAckSink`: what a data packet makes the receiver do. QuickStart is not modelled
-- (`qs_enabled_` is 0); tracing and Tcl commands are left out.
use tcpincast.Base.{
  ℕ, ◌+◌, Bool, true, false, not, ◌&&◌, ◌||◌, Option, none, some, List, [], ◌∷◌, ◌++◌, ◌==◌, ltb,
  if◌then◌else◌, ℤ, pos,
}
use tcpincast.Sink.Acker
use tcpincast.Sink.Acker.{Acker}
use tcpincast.Sink.Stack.{Entry}
use tcpincast.Sink.Sacker
use tcpincast.Sink.Sacker.{Sacker, Blocks}

-- The fields of a data packet that the sink reads.
pub record Packet : Type 0 where
  pub seqno : ℕ
  pub size : ℕ
  pub ts : ℕ
  pub flowid : ℕ
  pub ect : Bool
  pub ce : Bool
  pub cong_action : Bool
  pub ecnecho : Bool

-- The fields of an acknowledgement that it writes.
pub record Ack : Type 0 where
  pub seqno : ℤ
  pub ts : ℕ
  pub ts_echo : ℕ
  pub flowid : ℕ
  pub ecnecho : ℕ
  pub ect : Bool
  pub blocks : List Entry

-- What leaves the agent: bytes for the application, and packets.
pub data Output : Type 0 where
  recv_bytes : ℕ → Output
  send : Ack → Output

-- `sacks`: the acker is a `Sacker`. `pending`: the state of `delay_timer_`.
pub record Sink : Type 0 where
  pub sacker : Sacker
  pub sacks : Bool
  pub ts_echo_bugfix : Bool
  pub ts_echo_rfc1323 : Bool
  pub rfc2581_immediate_ack : Bool
  pub syn_immediate_ack : Bool
  pub ecn_syn : Bool
  pub save : Option Packet
  pub bytes : ℕ
  pub lastreset : ℕ
  pub pending : Bool

abbrev pub acker_of : Sink → Acker
acker_of s = s.sacker.acker

abbrev pub with_acker : Acker → Sink → Sink
with_acker a s = record s { sacker = record s.sacker { acker = a } }

-- A test of the packet that is saved, false if there is none.
abbrev pub saved : (Packet → Bool) → Option Packet → Bool
saved f none = false
saved f (some p) = f p

-- The two updates of `ecn_unacked_` in `ack`.
unfoldable pub note_ecn : Packet → Option Packet → Acker → Acker
unfolding Acker.update_ecn_unacked
note_ecn p sf a =
    let a1 =
      if saved (λ x. x.cong_action) sf || p.cong_action then Acker.update_ecn_unacked 0 a else a in
    if saved (λ x. x.ect && x.ce) sf || (p.ect && p.ce) then Acker.update_ecn_unacked 1 a1 else a1

-- A SYN that offers ECN.
unfoldable pub negotiates : Packet → Option Packet → Bool
negotiates p sf = (not p.ect && p.ecnecho) || saved (λ x. not x.ect && x.ecnecho) sf

unfoldable pub ecn_echo : Packet → Option Packet → Acker → ℕ
unfolding negotiates
ecn_echo p sf a =
    if negotiates p sf then 1 else if saved (λ x. x.ect) sf || p.ect then a.ecn_unacked else 0

-- `append_ack` of the acker that the sink was made with.
unfoldable pub blocks_for : Packet → Sink → Option Blocks
unfolding Sacker.append_ack
blocks_for p s =
    if s.sacks
    then Sacker.append_ack (pos p.seqno) s.sacker
    else some (record { blocks = []; sf = s.sacker.sf })

unfoldable pub ack : ℕ → Packet → Sink → Option (Sink × List Output)
unfolding note_ecn ecn_echo blocks_for
ack now p s =
    let a = note_ecn p s.save (acker_of s) in
    let s1 = with_acker a s in
    let seq = Acker.seqno a in
    elim (blocks_for p s1) [
      | none ↦ none
      | some b ↦ some (
        record s1 {
          sacker = record s1.sacker { acker = record a { last_ack_sent = seq }; sf = b.sf };
        },
        send (record {
          seqno = seq;
          ts = now;
          ts_echo = if s.ts_echo_bugfix then a.ts_to_echo else p.ts;
          flowid = p.flowid;
          ecnecho = ecn_echo p s.save a;
          ect = negotiates p s.save && s.ecn_syn;
          blocks = b.blocks;
        })
            ∷ [],
      )
    ]

-- The window moves, and the bytes go to the application.
unfoldable pub accept : Packet → Sink → Option (Sink × List Output)
unfolding Acker.update_ts Acker.update
accept p s =
    let a = Acker.update_ts p.seqno p.ts s.ts_echo_rfc1323 (acker_of s) in
    elim (Acker.update p.seqno p.size a) [
      | none ↦ none
      | some (n, a') ↦ some (
          if n == 0
          then (with_acker a' s, [])
          else (record (with_acker a' s) { bytes = s.bytes + n }, recv_bytes n ∷ []))
    ]

-- Outputs before those of a later step.
abbrev pub after : List Output → Option (Sink × List Output) → Option (Sink × List Output)
after o none = none
after o (some (s, o')) = some (s, o ++ o')

-- `TcpSink::recv`. A packet of an earlier incarnation is dropped.
unfoldable pub recv : ℕ → Packet → Sink → Option (Sink × List Output)
unfolding accept ack
recv now p s =
    if ltb p.ts s.lastreset
    then some (s, [])
    else elim (accept p s) [ none ↦ none | some (s1, o) ↦ after o (ack now p s1) ]

-- `acker_->reset()` is `Acker::reset`, which is not virtual: the stack of a `Sacker` stays.
unfoldable pub reset : ℕ → Sink → Sink
unfolding Acker.reset
reset now s = record (with_acker (Acker.reset (acker_of s)) s) { save = none; lastreset = now }

-- May the acknowledgement of this packet wait?
unfoldable pub may_delay : Packet → Sink → Bool
may_delay p s =
    let a = acker_of s in
    not s.pending
    && (p.seqno + 1 == a.next)
    && not (s.rfc2581_immediate_ack && ltb p.seqno a.maxseen)
    && not (s.syn_immediate_ack && (p.seqno == 0))

abbrev pub done_with : Option (Sink × List Output) → Option (Sink × List Output)
done_with none = none
done_with (some (s, o)) = some (record s { save = none }, o)

-- The rest of `DelAckSink::recv`: the packet is saved and the timer set, or both are done with.
unfoldable pub delay_or_ack : ℕ → Packet → Sink → Option (Sink × List Output)
unfolding may_delay ack
delay_or_ack now p s =
    if may_delay p s
    then some (record s { save = some p; pending = true }, [])
    else done_with (ack now p (record s { pending = false }))

unfoldable pub recv_delack : ℕ → Packet → Sink → Option (Sink × List Output)
unfolding accept delay_or_ack
recv_delack now p s =
    if ltb p.ts s.lastreset
    then some (s, [])
    else elim (accept p s) [ none ↦ none | some (s1, o) ↦ after o (delay_or_ack now p s1) ]

-- `DelAckSink::timeout`, after the timer has expired.
unfoldable pub timeout : ℕ → Sink → Option (Sink × List Output)
unfolding ack
timeout now s =
    let idle : Sink = record s { pending = false } in
    elim s.save [ none ↦ some (idle, []) | some p ↦ done_with (ack now p idle) ]

unfoldable pub reset_delack : ℕ → Sink → Sink
unfolding reset
reset_delack now s = reset now (record s { pending = false })
