-- ===== src/Full/Expected.antt =====
-- The steps of `recv` in tcp/tcp-full.cc that the expected segment passes: timestamp, ECN, trimming.
use tcpincast.Base.{
  arith, ℤ, pos, ◌-ℤ◌, -ℤ_parts, ◌≡◌, refl, ◌∙◌, ap, Bool, true, false, not, ◌&&◌, ◌||◌,
  if◌then◌else◌, ltb_ℤ, eq_ℤ, Bool-cases, inl, inr,
}
use tcpincast.Tcp.Double.{Double}
use tcpincast.Rq.Defs.{Rq}
use tcpincast.Full.Data.{State, established, last_ack, is_state, Flags, Segment, Conn, rcv_nxt}
use tcpincast.Full.Packet.{need_send}
use tcpincast.Full.Send.{Run, done, exits, out_of_fuel}
use tcpincast.Full.Pass.{Ended}
use tcpincast.Full.Ack.{predict_ok}
use tcpincast.Full.Reass.{Trimmed, trim_duplicate, answer_duplicate, record_stamp, havercvdfin}
use tcpincast.Full.Arrive.{Arrival, Frame, note_ce, tell, and_then}
use tcpincast.Full.Process.{is_request}
use tcpincast.Full.Slow.{is_stale}

-- A law of the order of doubles.
pub record IsOrdered (D : Type 0) ⦃d : Double D⦄ : Type 0 where
  pub not_above : (x y : D) → d.at_most x y ≡ true → d.below y x ≡ false

pub if_true : {A : Type 0} (b : Bool) (x y : A) → b ≡ true → (if b then x else y) ≡ x
if_true true x y h = refl
if_true false x y h = cc

pub if_not : {A : Type 0} (b : Bool) (x y : A) → b ≡ false → (if b then x else y) ≡ y
if_not true x y h = cc
if_not false x y h = refl

pub or_false : (b : Bool) → b || false ≡ b
or_false true = refl
or_false false = refl

pub long_data : (n : ℤ) → ltb_ℤ (pos 0) n ≡ true → eq_ℤ n (pos 0) ≡ false
long_data n h = ground arith

-- What the steps before the data do not touch.
pub record Facts : Type 0 where
  pub state : State
  pub rq : Rq
  pub highest : ℤ
  pub resets : Bool

abbrev facts : {D : Type 0} → Conn D → Facts
facts c = record {
  state = c.state;
  rq = c.rq;
  highest = c.tcp.highest_ack;
  resets = c.dupack_reset;
}

module _ {D : Type 0} where
  facts-if :
      (b : Bool) (x y c : Conn D)
      → facts x ≡ facts c
      → facts y ≡ facts c
      → facts (if b then x else y) ≡ facts c
  facts-if true x y c h k = h
  facts-if false x y c h k = k

  pub marked : (a : Arrival D) (c : Conn D) → facts (note_ce a c) ≡ facts c
  unfolding note_ce
  marked a c =
      facts-if (c.ecn && a.ce && a.segment.ect) _ _ c refl
        (facts-if (c.ecn && a.cwr) _ c c refl refl)

  pub stamped : (now : D) (pkt : Segment D) (c : Conn D) → facts (record_stamp now pkt c) ≡ facts c
  unfolding record_stamp
  stamped now pkt c = facts-if _ _ c c refl refl

  pub noted-facts :
      (now : D) (a : Arrival D) (pkt : Segment D) (c : Conn D)
      → facts (note_ce a (record_stamp now pkt c)) ≡ facts c
  noted-facts now a pkt c = marked a (record_stamp now pkt c) ∙ stamped now pkt c

  pub untrimmed :
      (pkt : Segment D) (p : Flags) (n : ℤ) (c : Conn D)
      → eq_ℤ pkt.seqno (rcv_nxt c) ≡ true
      → trim_duplicate pkt p n c
        ≡ record { segment = pkt; tiflags = p; datalen = n; duplicate = false }
  unfolding trim_duplicate
  untrimmed pkt p n c e =
      if_not (ltb_ℤ (pos 0) (rcv_nxt c -ℤ pkt.seqno) && (p.syn || ltb_ℤ (pos 0) n)) _ _
        (ground (arith, e, -ℤ_parts (rcv_nxt c) pkt.seqno))

  pub unanswered : (t : Trimmed D) (c : Conn D) → t.duplicate ≡ false → answer_duplicate t c ≡ c
  unanswered t c e =
      ap (λ b. record c { acknow = c.acknow || b }) e
      ∙ ap (λ b. record c { acknow = b }) (or_false c.acknow)

  pub and_then-done :
      (f : Conn D → Run D) (r : Run D) → Ended Unit (λ e. f e ≡ done e) r → and_then r f ≡ r
  and_then-done f (done c) h = h
  and_then-done f exits h = refl
  and_then-done f out_of_fuel h = refl

  pub and_then_assoc :
      (f g : Conn D → Run D) (r : Run D)
      → and_then (and_then r f) g ≡ and_then r (λ e. and_then (f e) g)
  and_then_assoc f g (done c) = refl
  and_then_assoc f g exits = refl
  and_then_assoc f g out_of_fuel = refl

  pub weaken : (X : Type 0) (P : Conn D → Type 0) (r : Run D) → Ended X P r → Ended Unit P r
  weaken X P (done c) h = h
  weaken X P exits h = h
  weaken X P out_of_fuel h = tt

  pub no_request :
      (p : Frame D) (c : Conn D) → ltb_ℤ (pos 0) p.datalen ≡ true → is_request p c ≡ false
  unfolding is_request
  no_request p c long = ground (arith, long_data p.datalen long)

  pub need_send-tell : (n : ℤ) (c : Conn D) → need_send (tell n c) ≡ need_send c
  unfolding need_send tell
  need_send-tell n c = elim (Bool-cases (eq_ℤ n (pos 0))) [ inl e ↦ rw e refl | inr e ↦ rw e refl ]

  pub state-tell : (n : ℤ) (c : Conn D) → (tell n c).state ≡ c.state
  unfolding tell
  state-tell n c = elim (Bool-cases (eq_ℤ n (pos 0))) [ inl e ↦ rw e refl | inr e ↦ rw e refl ]

pub not_finished : (s : State) → s ≡ established → havercvdfin s ≡ false
unfolding havercvdfin
not_finished s h = rw h refl

pub is_established : (s : State) → is_state s established ≡ true → s ≡ established
unfolding is_state
is_established established h = refl
is_established _ h = cc

pub last_ack_not : (s : State) → s ≡ established → is_state s last_ack ≡ false
unfolding is_state
last_ack_not s h = rw h refl

module _ {D : Type 0} ⦃d : Double D⦄ where
  -- What the expected segment is like.
  pub expected :
      (pkt : Segment D) (c : Conn D)
      → predict_ok pkt c ≡ true
      → (is_state c.state established ≡ true)
        × (pkt.flags.syn ≡ false)
        × (pkt.flags.fin ≡ false)
        × (pkt.flags.ack ≡ true)
        × ((not c.tcp.rtt.ts_option || pkt.no_ts || d.at_most c.recent pkt.ts) ≡ true)
        × (eq_ℤ pkt.seqno (rcv_nxt c) ≡ true)
  unfolding predict_ok
  expected pkt c ok = ground (arith, ok)

  pub fresh :
      ⦃law : IsOrdered D⦄ (pkt : Segment D) (c : Conn D)
      → (not c.tcp.rtt.ts_option || pkt.no_ts || d.at_most c.recent pkt.ts) ≡ true
      → is_stale pkt c ≡ false
  unfolding is_stale
  fresh ⦃law⦄ pkt c stamped = elim (Bool-cases (d.at_most c.recent pkt.ts)) [
    | inl e ↦ ground (arith, stamped, law.not_above c.recent pkt.ts e)
    | inr e ↦ ground (arith, stamped, e)
  ]
