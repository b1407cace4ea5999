-- ===== src/Sink/Acker.antt =====
-- `class Acker`: which packets have come, and how far the window moves. `seen_` is an array of
-- `size` slots, `size` being `wndmask_ + 1`, a power of two, so that `i & wndmask_` is `i % size`.
-- Packet numbers and byte counts are not negative; timestamps are counted in clock ticks.
use tcpincast.Base.{
  ℕ, zero, suc, ◌+◌, ◌-◌, ◌*◌, ◌%◌, Bool, false, not, ◌&&◌, ◌||◌, Option, none, some, ◌==◌, ltb,
  leb, if◌then◌else◌, ℤ, sub_ℕ, leb_ℤ, add_ℕ, pos,
}

pub record Acker : Type 0 where
  pub next : ℕ
  pub maxseen : ℕ
  pub size : ℕ
  pub ecn_unacked : ℕ
  pub seen : ℕ → ℕ
  pub ts_to_echo : ℕ
  pub is_dup : Bool
  pub last_ack_sent : ℤ

-- `seen_[i & wndmask_]`.
abbrev pub slot : Acker → ℕ → ℕ
slot a i = a.seen (i % a.size)

-- A write to one element of an array.
abbrev pub put : (ℕ → ℕ) → ℕ → ℕ → ℕ → ℕ
put f i v j = if j == i then v else f j

abbrev pub mark : ℕ → ℕ → Acker → Acker
mark i v a = record a { seen = put a.seen (i % a.size) v }

abbrev pub mws : ℕ
mws = 64

-- The constructor. `is_dup_` is not initialised by the source; `update` sets it before any read.
unfoldable pub new_acker : Acker
new_acker = record {
  next = 0;
  maxseen = 0;
  size = mws;
  ecn_unacked = 0;
  seen = λ _. 0;
  ts_to_echo = 0;
  is_dup = false;
  last_ack_sent = pos 0;
}

unfoldable pub reset : Acker → Acker
reset a = record a { next = 0; maxseen = 0; seen = λ _. 0 }

-- `Seqno()`: the last packet in order, -1 before the first.
abbrev pub seqno : Acker → ℤ
seqno a = sub_ℕ a.next 1

-- The copying loop of `resize_buffers`: `n` rounds from `i` on.
unfoldable pub copy : ℕ → ℕ → ℕ → Acker → (ℕ → ℕ) → ℕ → ℕ
copy zero i sz a f = f
copy (suc n) i sz a f = copy n (i + 1) sz a (put f (i % sz) (slot a i))

unfoldable pub resize_buffers : ℕ → Acker → Acker
unfolding copy
resize_buffers sz a = record a {
  seen = copy (a.maxseen + 2 - a.next) a.next sz a (λ _. 0);
  size = sz;
}

-- `while (seq + 1 - next_ >= wndmask_) resize_buffers((wndmask_ + 1) * 2)`; the difference may be
-- negative, so the test is written without it.
abbrev pub too_far : ℕ → Acker → Bool
too_far seq a = leb (a.next + (a.size - 1)) (seq + 1)

unfoldable pub widen : ℕ → ℕ → Acker → Option Acker
unfolding resize_buffers
widen zero seq a = none
widen (suc fuel) seq a =
    let wider = widen fuel seq (resize_buffers (a.size * 2) a) in
    if too_far seq a then wider else some a

-- `for (i = maxseen_ + 1; i < seq; ++i) seen_[i & wndmask_] = 0`.
unfoldable pub clear_gap : ℕ → ℕ → Acker → Acker
clear_gap zero i a = a
clear_gap (suc n) i a = clear_gap n (i + 1) (mark i 0 a)

-- The packet is the highest so far.
unfoldable pub extend : ℕ → ℕ → Acker → Acker
unfolding clear_gap
extend seq bytes a =
    let cleared = clear_gap (seq - (a.maxseen + 1)) (a.maxseen + 1) a in
    mark (seq + 1) 0 (mark seq bytes (record cleared { maxseen = seq }))

-- What `update` computes: the bytes to deliver, and the new state.
pub record Delivery : Type 0 where
  pub bytes : ℕ
  pub next : ℕ

-- `while (seen_[next & wndmask_]) { numToDeliver += …; ++next; }`
unfoldable pub deliver : ℕ → Acker → Delivery → Option Delivery
deliver zero a d = none
deliver (suc fuel) a d =
    let more = deliver fuel a (record { bytes = d.bytes + slot a d.next; next = d.next + 1 }) in
    if slot a d.next == 0 then some d else more

-- The block for a packet inside the window.
unfoldable pub fill : ℕ → ℕ → Bool → Acker → Option (ℕ × Acker)
unfolding deliver
fill seq bytes marked a =
    let dup = a.is_dup || (not (slot a seq == 0) && not marked) in
    let a' : Acker = record (mark seq bytes a) { is_dup = dup } in
    elim (deliver (a.size + 1) a' (record { bytes = 0; next = a.next })) [
      | none ↦ none
      | some d ↦ some (d.bytes, record a' { next = d.next })
    ]

-- `update` after the buffer is wide enough.
unfoldable pub receive : ℕ → ℕ → Acker → Option (ℕ × Acker)
unfolding extend fill
receive seq bytes a =
    let highest = ltb a.maxseen seq in
    let a1 = if highest then extend seq bytes a else a in
    let a2 : Acker = record a1 { is_dup = ltb seq a1.next } in
    if leb a2.next seq && leb seq a2.maxseen then fill seq bytes highest a2 else some (0, a2)

-- `none`: a loop has used up its fuel.
unfoldable pub update : ℕ → ℕ → Acker → Option (ℕ × Acker)
unfolding widen receive
update seq bytes a = elim (widen (seq + 2) seq a) [ none ↦ none | some a' ↦ receive seq bytes a' ]

-- `update_ts`: `last_ack_sent_ + 1` may be 0.
unfoldable pub update_ts : ℕ → ℕ → Bool → Acker → Acker
update_ts seq ts rfc1323 a =
    let expected = add_ℕ a.last_ack_sent 1 in
    if rfc1323 && (leb_ℤ (pos seq) expected && leb_ℤ expected (pos seq))
    then record a { ts_to_echo = ts }
    else if leb a.ts_to_echo ts && leb_ℤ (pos seq) expected
    then record a { ts_to_echo = ts }
    else a

unfoldable pub update_ecn_unacked : ℕ → Acker → Acker
update_ecn_unacked v a = record a { ecn_unacked = v }
