-- ===== src/Full/Holding.antt =====
-- Held acknowledgments in tcp/tcp-full.cc: the bounds of what is acknowledged, and their release.
use tcpincast.Base.{
  ℕ, zero, suc, ℤ, pos, ltb_ℤ, ◌≤ℤ◌, ◌+ℤ◌, ◌-ℤ◌, int_laws, arith, -ℤ_parts, +ℤ_parts, eq_of_parts,
  ◌≡◌, ◌⊎◌, refl, ◌∙◌, ap, Bool, true, false, if◌then◌else◌, inl, inr,
}
use tcpincast.Tcp.Double.{Double}
use tcpincast.Full.Data.{Conn, for_ha, rcv_nxt, ahbytes}
use tcpincast.Full.Packet.{packet, ack_to_send, request_retransmission, sendpacket, th_ack}
use tcpincast.Full.Fixed.{fixed, sendpacket-seen, seen}
use tcpincast.Full.Held.{Sends, Rests}

-- No byte is acknowledged that has not come.
abbrev pub HeldWithin : {D : Type 0} → Conn D → Type 0
HeldWithin c = c.highest_ack_sent ≤ℤ rcv_nxt c

-- No acknowledgment is taken back.
abbrev pub Rises : {D : Type 0} → Conn D → Conn D → Type 0
Rises c e = (c.highest_ack_sent ≤ℤ e.highest_ack_sent) × HeldWithin e

-- As many requests of the application as the number says.
unfoldable pub requests : {D : Type 0} ⦃d : Double D⦄ → ℕ → D → Conn D → Conn D
requests zero now c = c
requests (suc n) now c = request_retransmission now (requests n now c)

if_true {ℓ} : {A : Type ℓ} {x : A} (b : Bool) (y : A) → b ≡ true → (if b then x else y) ≡ x
if_true true y h = refl
if_true false y h = cc

sum_zero : (a : ℤ) → a ≡ a +ℤ pos 0
sum_zero a = omega (arith, eq_of_parts, +ℤ_parts a (pos 0))

sum_suc : (a : ℤ) (n : ℕ) → a +ℤ pos n +ℤ pos 1 ≡ a +ℤ pos (suc n)
sum_suc a n = omega int_laws

room_before : (a b : ℤ) (n : ℕ) → a +ℤ pos (suc (suc n)) ≤ℤ b → a +ℤ pos (suc n) ≤ℤ b
room_before a b n h = omega int_laws

room_now : (a b : ℤ) (n : ℕ) → a +ℤ pos (suc (suc n)) ≤ℤ b → ltb_ℤ (a +ℤ pos n) (b -ℤ pos 1) ≡ true
room_now a b n h =
    ground (arith, +ℤ_parts a (pos n), -ℤ_parts b (pos 1), +ℤ_parts a (pos (suc (suc n))))

module _ {D : Type 0} where
  -- Where the last acknowledgment is not beyond what has come, the one that is chosen next is not
  -- below it and not beyond what has come either.
  pub ack_to_send-bounds :
      (c : Conn D) (syn fin : Bool)
      → HeldWithin c
      → (c.highest_ack_sent ≤ℤ ack_to_send c syn fin) × (ack_to_send c syn fin ≤ℤ rcv_nxt c)
  unfolding ack_to_send
  ack_to_send-bounds c syn fin h = ground (arith, -ℤ_parts (rcv_nxt c) ahbytes)

  Rises-refl : (c : Conn D) → HeldWithin c → Rises c c
  Rises-refl c h = ground arith

  -- An output whose effect is known keeps the bounds.
  pub effect-Rises :
      (c e : Conn D) → fixed e ≡ fixed c → Rests c e ⊎ Sends c e → HeldWithin c → Rises c e
  effect-Rises c e same (inl r) h =
      let arrived : rcv_nxt e ≡ rcv_nxt c = ap (λ s. s.rq.rcv_nxt) same in
      rw (r.1, arrived) (Rises-refl c h)
  effect-Rises c e same (inr s) h =
      let arrived : rcv_nxt e ≡ rcv_nxt c = ap (λ s. s.rq.rcv_nxt) same in
      rw (s.noted ∙ s.chosen, arrived)
        (ack_to_send-bounds c s.segment.flags.syn s.segment.flags.fin h)

module _ {D : Type 0} ⦃d : Double D⦄ where
  request_retransmission_lem :
      (now : D) (c : Conn D)
      → c.is_ha ≡ true
      → ltb_ℤ c.highest_ack_sent (rcv_nxt c -ℤ pos 1) ≡ true
      → request_retransmission now c
        ≡ sendpacket now c.tcp.t_seqno (c.highest_ack_sent +ℤ pos 1) th_ack (pos 0) for_ha c
  unfolding request_retransmission
  request_retransmission_lem now c ha held =
      if_true c.is_ha _ ha ∙ if_true (ltb_ℤ c.highest_ack_sent (rcv_nxt c -ℤ pos 1)) c held

  request-seen :
      (now : D) (c : Conn D)
      → c.is_ha ≡ true
      → ltb_ℤ c.highest_ack_sent (rcv_nxt c -ℤ pos 1) ≡ true
      → (fixed (request_retransmission now c) ≡ fixed c)
        × ((request_retransmission now c).highest_ack_sent ≡ c.highest_ack_sent +ℤ pos 1)
  unfolding packet
  request-seen now c ha held =
      let s =
        ap seen (request_retransmission_lem now c ha held)
        ∙ sendpacket-seen now c.tcp.t_seqno (c.highest_ack_sent +ℤ pos 1) th_ack (pos 0) for_ha c in
      (ap (λ x. x.same) s, ap (λ x. x.highest_ack_sent) s)

  -- While a client holds the acknowledgments of more than n bytes, n requests acknowledge exactly n
  -- bytes more, and change neither the reassembly queue nor what is to be sent.
  pub requests-release :
      (n : ℕ) (now : D) (c : Conn D)
      → c.is_ha ≡ true
      → c.highest_ack_sent +ℤ pos (suc n) ≤ℤ rcv_nxt c
      → (fixed (requests n now c) ≡ fixed c)
        × ((requests n now c).highest_ack_sent ≡ c.highest_ack_sent +ℤ pos n)
  unfolding requests
  requests-release zero now c ha room = (refl, sum_zero c.highest_ack_sent)
  requests-release (suc n) now c ha room =
      let before =
        requests-release n now c ha (room_before c.highest_ack_sent (rcv_nxt c) n room) in
      let e = requests n now c in
      let arrived : rcv_nxt e ≡ rcv_nxt c = ap (λ s. s.rq.rcv_nxt) before.0 in
      let held : ltb_ℤ e.highest_ack_sent (rcv_nxt e -ℤ pos 1) ≡ true =
        rw (before.1, arrived) (room_now c.highest_ack_sent (rcv_nxt c) n room) in
      let once = request-seen now e (ap (λ s. s.is_ha) before.0 ∙ ha) held in
      (once.0 ∙ before.0, once.1 ∙ ap (λ x. x +ℤ pos 1) before.1 ∙ sum_suc c.highest_ack_sent n)
