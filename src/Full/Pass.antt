-- ===== src/Full/Pass.antt =====
-- One pass of the loop of `send_much` in tcp/tcp-full.cc: what it keeps, and how much less is left.
use tcpincast.Base.{
  ℕ, suc, ◌+◌, ◌≤◌, ◌<◌, arith, ℤ, pos, pos_part, ltb_ℤ, leb_ℤ, eq_ℤ, ◌≤ℤ◌, ◌+ℤ◌, ◌-ℤ◌, +ℤ_parts,
  -ℤ_parts, ◌≡◌, ◌⊎◌, refl, ◌∙◌, ap, sym, Bool, not, true, false, ◌&&◌, ◌||◌, leb, ◌==◌,
  if◌then◌else◌, Bool-cases, inl, inr, Option, some,
}
use tcpincast.Tcp.Double.{Double}
use tcpincast.Full.Data.{State, opens, Conn}
use tcpincast.Full.Packet.{outflags}
use tcpincast.Full.Plan.{Out}
use tcpincast.Full.Send.{
  Run, done, exits, out_of_fuel, sent, ends_burst, counted_amount, topwin, send_allowed,
}
use tcpincast.Full.Fixed.{fixed}
use tcpincast.Full.Held.{Enters, Returns}
use tcpincast.Full.Holding.{HeldWithin, Rises, effect-Rises}

-- The call ended with a connection that satisfies P, or with `exit(1)`, or X holds and the model
-- ran out of fuel.
abbrev pub Ended : {D : Type 0} → Type 0 → (Conn D → Type 0) → Run D → Type 0
Ended X P (done c) = P c
Ended X P exits = Unit {0}
Ended X P out_of_fuel = X

-- The call ended: with a connection that satisfies P, or with `exit(1)`.
abbrev pub Stops : {D : Type 0} → (Conn D → Type 0) → Run D → Type 0
Stops P r = Ended ⊥ P r

-- How far the data reaches beyond what is sent.
abbrev pub unsent : {D : Type 0} → Conn D → ℕ
unsent c = pos_part (c.curseq -ℤ c.tcp.t_seqno)

-- What a pass relies on and keeps.
pub record Follows {D : Type 0} (c e : Conn D) : Type 0 where
  pub same_data : e.curseq ≡ c.curseq
  pub same_burst : e.maxburst ≡ c.maxburst
  pub same_kind : e.infinite_send ≡ c.infinite_send
  pub same_queue : e.rq ≡ c.rq
  pub rises : HeldWithin c → Rises c e
  pub enters : Enters c.state e.state

-- Passes enough: one for each byte that is not sent, and one; or as many as a burst has left.
unfoldable pub Enough : {D : Type 0} → ℕ → Bool → ℕ → ℕ → Conn D → Type 0
Enough fuel force maxburst n c =
    ((c.infinite_send ≡ false) × (unsent c + (if force then 1 else 0) < fuel))
    ⊎ ((n < maxburst) × (maxburst ≤ n + fuel))

shrinks : (s t a : ℤ) → ltb_ℤ t s ≡ true → pos 1 ≤ℤ a → pos_part (s -ℤ (t +ℤ a)) < pos_part (s -ℤ t)
shrinks s t a below positive = ground (arith, -ℤ_parts s (t +ℤ a), +ℤ_parts t a, -ℤ_parts s t)

shrinks_not : (s t a : ℤ) → pos 1 ≤ℤ a → pos_part (s -ℤ (t +ℤ a)) ≤ pos_part (s -ℤ t)
shrinks_not s t a positive = ground (arith, -ℤ_parts s (t +ℤ a), +ℤ_parts t a, -ℤ_parts s t)

left_over :
    (s t a : ℤ) (force : Bool)
    → pos 1 ≤ℤ a
    → (force ≡ true) ⊎ (ltb_ℤ t s ≡ true)
    → suc (pos_part (s -ℤ (t +ℤ a))) ≤ pos_part (s -ℤ t) + (if force then 1 else 0)
left_over s t a true positive may = let less = shrinks_not s t a positive in omega (arith, less)
left_over s t a false positive (inl e) = cc
left_over s t a false positive (inr below) =
    let less = shrinks s t a below positive in omega (arith, less)

if_false : {A : Type 0} {y : A} (b : Bool) (x : A) → b ≡ false → (if b then x else y) ≡ y
if_false true x h = cc
if_false false x h = refl

or_false : (a b c : Bool) → a || b || c ≡ false → (b ≡ false) × (c ≡ false)
or_false a b c h = ground arith

pub may_send :
    (force allowed : Bool) → not force && not allowed ≡ false → (force ≡ true) ⊎ (allowed ≡ true)
may_send force allowed h = ground arith

pub Enters-then : (s t u : State) → Enters s t → Enters t u → Enters s u
Enters-then s t u (inl e) (inl f) = inl (f ∙ e)
Enters-then s t u (inl e) (inr g) = inr (ap opens (sym e) ∙ g.0, g.1)
Enters-then s t u (inr g) (inl f) = inr (g.0, f ∙ g.1)
Enters-then s t u (inr g) (inr k) = inr (g.0, k.1)

pub Enters-settled : (s t : State) → Enters s t → opens s ≡ false → t ≡ s
Enters-settled s t (inl e) h = e
Enters-settled s t (inr x) h = cc

module _ {D : Type 0} where
  pub Follows-then : {a b c : Conn D} → Follows a b → Follows b c → Follows a c
  Follows-then {a} {b} {c} f g = record {
    same_data = g.same_data ∙ f.same_data;
    same_burst = g.same_burst ∙ f.same_burst;
    same_kind = g.same_kind ∙ f.same_kind;
    same_queue = g.same_queue ∙ f.same_queue;
    rises = λ h.
        let first = f.rises h in
        let second = g.rises first.1 in (ground (arith, first.0, second.0), second.1);
    enters = Enters-then a.state b.state c.state f.enters g.enters;
  }

  pub sent-Follows : (seq amt : ℤ) (c : Conn D) → Follows c (sent seq amt c)
  unfolding sent
  sent-Follows seq amt c = record {
    same_data = refl;
    same_burst = refl;
    same_kind = refl;
    same_queue = refl;
    rises = λ h. ground arith;
    enters = inl refl;
  }

  sent-t_seqno :
      (amt : ℤ) (c : Conn D) (seq : ℤ)
      → c.tcp.t_seqno ≡ seq
      → (sent seq amt c).tcp.t_seqno ≡ seq +ℤ amt
  unfolding sent
  sent-t_seqno amt c seq h = elim (Bool-cases (eq_ℤ seq c.tcp.t_seqno)) [
    | inl e ↦ rw e (ap (λ t. t +ℤ amt) h)
    | inr e ↦ absurd (ground (arith, h, e))
  ]

  pub Returns-Follows :
      (c : Conn D) (called : Option (Out D)) (r : Returns c called) → Follows c r.out.conn
  Returns-Follows c called r = record {
    same_data = ap (λ s. s.curseq) r.untouched;
    same_burst = ap (λ s. s.maxburst) r.untouched;
    same_kind = ap (λ s. s.infinite_send) r.untouched;
    same_queue = ap (λ s. s.rq) r.untouched;
    rises = effect-Rises c r.out.conn r.untouched r.effect;
    enters = r.next_state;
  }

  pub Follows-refl : (c : Conn D) → Follows c c
  Follows-refl c = record {
    same_data = refl;
    same_burst = refl;
    same_kind = refl;
    same_queue = refl;
    rises = λ h. ground arith;
    enters = inl refl;
  }

  pub Follows-postponed :
      (c : Conn D) (wait : D) → Follows c (record c { delsnd_timer = some wait })
  Follows-postponed c wait = record {
    same_data = refl;
    same_burst = refl;
    same_kind = refl;
    same_queue = refl;
    rises = λ h. ground arith;
    enters = inl refl;
  }

  pub Enough-first :
      (fuel : ℕ) (force : Bool) (maxburst : ℕ) (c : Conn D)
      → ((c.infinite_send ≡ false) × (unsent c + 2 ≤ fuel)) ⊎ ((0 < maxburst) × (maxburst ≤ fuel))
      → Enough fuel force maxburst 0 c
  unfolding Enough
  Enough-first fuel force maxburst c (inl (finite, room)) = inl (finite, ground (arith, room))
  Enough-first fuel force maxburst c (inr burst) = inr (ground (arith, burst))

  -- A pass that goes on: less is left to be sent.
  unsent_after :
      (c o : Conn D) (amt : ℤ) (force : Bool)
      → fixed o ≡ fixed c
      → pos 1 ≤ℤ amt
      → (force ≡ true) ⊎ (ltb_ℤ c.tcp.t_seqno c.curseq ≡ true)
      → suc (unsent (sent c.tcp.t_seqno amt o)) ≤ unsent c + (if force then 1 else 0)
  unsent_after c o amt force same positive may =
      let kept : (sent c.tcp.t_seqno amt o).curseq ≡ c.curseq =
        (sent-Follows c.tcp.t_seqno amt o).same_data ∙ ap (λ s. s.curseq) same in
      let next = sent-t_seqno amt o c.tcp.t_seqno (ap (λ s. s.t_seqno) same) in
      rw (kept, next) (left_over c.curseq c.tcp.t_seqno amt force positive may)

  pub Ended-map :
      (X : Type 0) (P Q : Conn D → Type 0)
      → ((c : Conn D) → P c → Q c)
      → (r : Run D) → Ended X P r
      → Ended X Q r
  Ended-map X P Q f (done c) p = f c p
  Ended-map X P Q f exits p = p
  Ended-map X P Q f out_of_fuel p = p

  Enough-burst :
      (fuel : ℕ) (force : Bool) (maxburst n : ℕ) (c e : Conn D)
      → (n < maxburst) × (maxburst ≤ n + suc fuel)
      → (not (maxburst == 0) && leb maxburst (n + 1)) ≡ false
      → Enough fuel false maxburst (n + 1) e
  unfolding Enough
  Enough-burst fuel force maxburst n c e h last = inr (ground (arith, h, last))

module _ {D : Type 0} ⦃d : Double D⦄ where
  -- The data of a connection that may send reaches beyond what is sent.
  allowed_lem :
      (c : Conn D)
      → c.infinite_send ≡ false
      → send_allowed c c.tcp.t_seqno ≡ true
      → ltb_ℤ c.tcp.t_seqno c.curseq ≡ true
  unfolding send_allowed topwin
  allowed_lem c h allowed = ground (arith, h, allowed)

  -- A burst that goes on: neither SYN nor FIN is sent in this state, and packets are left.
  goes_on :
      (maxburst n : ℕ) (seq amt : ℤ) (c : Conn D)
      → ends_burst (sent seq amt c) maxburst n ≡ false
      → ((outflags c.state).fin ≡ false) × ((not (maxburst == 0) && leb maxburst (n + 1)) ≡ false)
  unfolding sent
  goes_on maxburst n seq amt c h =
      or_false (outflags c.state).syn (outflags c.state).fin
        (not (maxburst == 0) && leb maxburst (n + 1)) h

  pub Enough-after :
      (fuel maxburst n : ℕ) (force : Bool) (c : Conn D) (o : Out D)
      → fixed o.conn ≡ fixed c
      → leb_ℤ o.amount (pos 0) ≡ false
      → ends_burst (sent c.tcp.t_seqno (counted_amount o) o.conn) maxburst n ≡ false
      → (force ≡ true) ⊎ (send_allowed c c.tcp.t_seqno ≡ true)
      → Enough (suc fuel) force maxburst n c
      → Enough fuel false maxburst (n + 1) (sent c.tcp.t_seqno (counted_amount o) o.conn)
  unfolding Enough
  Enough-after fuel maxburst n force c o same positive goes may (inr burst) =
      let on = goes_on maxburst n c.tcp.t_seqno (counted_amount o) o.conn goes in
      inr (ground (arith, burst, on.1))
  Enough-after fuel maxburst n force c o same positive goes may (inl (finite, room)) =
      let f = sent-Follows c.tcp.t_seqno (counted_amount o) o.conn in
      let on = goes_on maxburst n c.tcp.t_seqno (counted_amount o) o.conn goes in
      let counted : counted_amount o ≡ o.amount =
        if_false (outflags o.conn.state).fin (o.amount -ℤ pos 1) on.0 in
      let one : pos 1 ≤ℤ counted_amount o = rw counted (ground (arith, positive)) in
      let below : (force ≡ true) ⊎ (ltb_ℤ c.tcp.t_seqno c.curseq ≡ true) = elim may [
        | inl h ↦ inl h
        | inr h ↦ inr (allowed_lem c finite h)
      ] in
      let left = unsent_after c o.conn (counted_amount o) force same one below in
      inl (f.same_kind ∙ ap (λ s. s.infinite_send) same ∙ finite, ground (arith, left, room))
