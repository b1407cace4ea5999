-- ===== src/Full/Forgets.antt =====
-- What an acknowledgment of something new does to the queue of a SackFullTcpAgent in
-- tcp/tcp-full.cc: pack_action and ack_action.
use tcpincast.Base.{
  ℕ, ℤ, pos, ltb_ℤ, leb_ℤ, ◌≡◌, refl, ap, ◌∙◌, sym, Bool, true, false, not, ◌&&◌, ◌||◌, arith,
  subst, Bool-cases, inl, inr, is_nil, List, [], ◌∷◌,
}
use tcpincast.Rq.Defs.{Seg, empty, cleartonxt}
use tcpincast.Rq.Ranges.{ranges, covers, width, Sep}
use tcpincast.Rq.Round.{IsValid}
use tcpincast.Rq.Trim.{clearto-Leaves}
use tcpincast.Full.Expected.{if_true, if_not}
use tcpincast.Full.Sack.{SackConn, sack_min, clear_acked, raise_h_seqno, pack_action, ack_action}

none_covered :
    (n : ℕ) (l : List Seg) (b : Bool)
    → is_nil l ≡ true
    → covers n (ranges l) ≡ (b && covers n (ranges l))
none_covered n [] b h = ground arith
none_covered n (x ∷ l) b h = cc

-- Where nothing is cleared: no byte is held, or none of them is below `a`.
untouched :
    (a n : ℕ) (l : List Seg) (low : ℤ)
    → not (is_nil l) && ltb_ℤ low (pos a) ≡ false
    → covers n (ranges l)
      ≡ ((leb_ℤ (pos a) (pos n) || not (ltb_ℤ low (pos a))) && covers n (ranges l))
untouched a n l low h = elim (Bool-cases (is_nil l)) [
  | inl none ↦ none_covered n l _ none
  | inr some_ ↦ ground (arith, h, some_)
]

all_below : (x y z w : Bool) → not w && y ≡ true → (x && z) ≡ ((x || not y) && z)
all_below x y z w h = ground arith

at_itself : (a : ℕ) → leb_ℤ (pos a) (pos a) ≡ true
at_itself a = ground arith

not_below : (a : ℕ) (h : ℤ) → ltb_ℤ h (pos a) ≡ false → leb_ℤ (pos a) h ≡ true
not_below a h e = ground arith

module _ {D : Type 0} where
  -- The queue holds the bytes of the old one from `a` on, or all of them where its left edge was
  -- there already, and counts them; nothing below what is acknowledged is sent next.
  pub record Forgets (a : ℕ) (s e : SackConn D) : Type 0 where
    pub sep : Sep (ranges e.sq.fifo)
    pub total : e.sq.total ≡ width (ranges e.sq.fifo)
    pub holds :
        (n : ℕ)
        → covers n (ranges e.sq.fifo) ≡ (
            (leb_ℤ (pos a) (pos n) || not (ltb_ℤ (sack_min s) (pos a)))
            && covers n (ranges s.sq.fifo))
    pub next : leb_ℤ (pos a) e.h_seqno ≡ true

  -- The queue alone.
  abbrev Cleared : ℕ → SackConn D → SackConn D → Type 0
  Cleared a s e =
      Sep (ranges e.sq.fifo)
      × (e.sq.total ≡ width (ranges e.sq.fifo))
      × ((n : ℕ)
          → covers n (ranges e.sq.fifo) ≡ (
              (leb_ℤ (pos a) (pos n) || not (ltb_ℤ (sack_min s) (pos a)))
              && covers n (ranges s.sq.fifo)))
      × (e.base ≡ s.base)

  clear_acked-Cleared :
      (a : ℕ) (s : SackConn D)
      → s.base.tcp.highest_ack ≡ pos a
      → IsValid s.sq
      → Cleared a s (clear_acked s)
  unfolding clear_acked cleartonxt empty
  clear_acked-Cleared a s at v =
      let acts = not (empty s.sq) && ltb_ℤ (sack_min s) s.base.tcp.highest_ack in
      let cut = λ (x : ℤ). record s { sq = (cleartonxt (record s.sq { rcv_nxt = x })).1 } in
      let same = ap (λ x. not (empty s.sq) && ltb_ℤ (sack_min s) x) at in
      elim (Bool-cases acts) [
        | inl e ↦
            let leaves =
              clearto-Leaves a (record s.sq { rcv_nxt = pos a })
                (record { sep = v.sep; total = v.total; stacked = v.stacked }) in
            subst (Cleared a s) (sym (if_true acts (cut s.base.tcp.highest_ack) s e ∙ ap cut at)) (
              leaves.0,
              leaves.1,
              λ n.
                  leaves.2 n
                  ∙ all_below (leb_ℤ (pos a) (pos n)) (ltb_ℤ (sack_min s) (pos a))
                      (covers n (ranges s.sq.fifo)) (empty s.sq) (sym same ∙ e),
              refl,
            )
        | inr e ↦
            subst (Cleared a s) (sym (if_not acts _ s e))
              (v.sep, v.total, λ n. untouched a n s.sq.fifo (sack_min s) (sym same ∙ e), refl)
      ]

  raise-Forgets :
      (a : ℕ) (s e : SackConn D)
      → e.base.tcp.highest_ack ≡ pos a
      → Sep (ranges e.sq.fifo)
      → e.sq.total ≡ width (ranges e.sq.fifo)
      → ((n : ℕ)
          → covers n (ranges e.sq.fifo) ≡ (
              (leb_ℤ (pos a) (pos n) || not (ltb_ℤ (sack_min s) (pos a)))
              && covers n (ranges s.sq.fifo)))
      → Forgets a s (raise_h_seqno e)
  unfolding raise_h_seqno
  raise-Forgets a s e at sep total holds =
      let high = e.base.tcp.highest_ack in
      elim (Bool-cases (ltb_ℤ e.h_seqno high)) [
        | inl b ↦
            subst (Forgets a s)
              (sym (if_true (ltb_ℤ e.h_seqno high) (record e { h_seqno = high }) e b))
              record {
                sep = sep;
                total = total;
                holds = holds;
                next = ap (leb_ℤ (pos a)) at ∙ at_itself a;
              }
        | inr b ↦ subst (Forgets a s) (sym (if_not (ltb_ℤ e.h_seqno high) _ e b)) record {
          sep = sep;
          total = total;
          holds = holds;
          next = not_below a e.h_seqno (ap (ltb_ℤ e.h_seqno) (sym at) ∙ b);
        }
      ]

  -- A partial or a full acknowledgment, up to `a`, of a connection whose queue is valid: of what the
  -- peer was heard to hold, just the bytes below `a` are forgotten, none where the queue's left edge
  -- is there already, and `h_seqno_` is not below `a`.
  pub pack_action-Forgets :
      (a : ℕ) (s : SackConn D)
      → s.base.tcp.highest_ack ≡ pos a
      → IsValid s.sq
      → Forgets a s (pack_action s) × Forgets a s (ack_action s)
  unfolding pack_action ack_action
  pack_action-Forgets a s at v =
      let partial = clear_acked-Cleared a s at v in
      let over = record s { base = record s.base { fastrecov = false; pipectrl = false } } in
      let full = clear_acked-Cleared a over at v in
      (
        raise-Forgets a s _ (ap (λ c. c.tcp.highest_ack) partial.3 ∙ at) partial.0 partial.1
            partial.2,
        raise-Forgets a s _ (ap (λ c. c.tcp.highest_ack) full.3 ∙ at) full.0 full.1 full.2,
      )
