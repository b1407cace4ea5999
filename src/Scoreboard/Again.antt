-- ===== src/Scoreboard/Again.antt =====
-- `ScoreBoardRH`: a packet that is marked as sent again is not chosen again.
use tcpincast.Base.{
  ℕ, ◌+◌, ◌%◌, ◌≤◌, ◌<◌, ◌≡◌, ◌≢◌, refl, ap, ◌∙◌, sym, subst, false, arith, Bool-cases, inl, inr, ℤ,
  pos, pos_part, neg_part, ◌==◌, ltb, ==→eq, eq→==, ne→==, ltb→lt, ltb→le,
}
use tcpincast.Scoreboard.Halving.{ScoreBoardRh, sbsize, first_seq}
use tcpincast.Scoreboard.Resend.{get_next_retran_rh, mark_retran_rh}
use tcpincast.Scoreboard.Choice.{IsFirst, ripe, get_next_retran_rh-IsFirst}
use tcpincast.Scoreboard.Once.{IsAfter}

-- Packets less than a board apart have places of their own.
apart : (i j : ℕ) → i < j → j < i + sbsize → i % sbsize ≢ j % sbsize
apart i j h k e = absurd (omega arith)

-- The marked packet is not ripe, and one at another place is as ripe as before.
marked-ripe :
    (n snd_nxt rh_id : ℕ) (s : ScoreBoardRh) → ripe (mark_retran_rh n snd_nxt rh_id s) n ≡ false
unfolding mark_retran_rh
marked-ripe n snd_nxt rh_id s = rw (eq→== (n % sbsize) (n % sbsize) refl) (ground arith)

other-ripe :
    (n m snd_nxt rh_id : ℕ) (s : ScoreBoardRh)
    → m % sbsize ≢ n % sbsize
    → ripe (mark_retran_rh n snd_nxt rh_id s) m ≡ ripe s m
unfolding mark_retran_rh
other-ripe n m snd_nxt rh_id s h = rw (ne→== (m % sbsize) (n % sbsize) h) refl

same-first :
    (n snd_nxt rh_id : ℕ) (s : ScoreBoardRh)
    → first_seq (mark_retran_rh n snd_nxt rh_id s) ≡ first_seq s
unfolding mark_retran_rh
same-first n snd_nxt rh_id s = elim (Bool-cases (s.first % sbsize == n % sbsize)) [
  | inl e ↦ rw (first_seq, e) (ap (λ i. (s.sbn i).seq_no) (sym (==→eq _ _ e)))
  | inr e ↦ rw (first_seq, e) refl
]

-- A packet that was not ripe, or that has just been marked, is not ripe afterwards.
not-ripe :
    (n j snd_nxt rh_id : ℕ) (s : ScoreBoardRh)
    → j ≤ n
    → n < j + sbsize
    → ((i : ℕ) → i < n → i ≡ j → ripe s i ≡ false)
    → ripe (mark_retran_rh n snd_nxt rh_id s) j ≡ false
not-ripe n j snd_nxt rh_id s h k f = elim (Bool-cases (ltb j n)) [
  | inl e ↦ let l = ltb→lt _ _ e in other-ripe n j snd_nxt rh_id s (apart j n l k) ∙ f j l refl
  | inr e ↦
      let same : j ≡ n = omega (arith, ltb→le _ _ e) in rw same (marked-ripe n snd_nxt rh_id s)
]

later :
    (s : ScoreBoardRh) (n snd_nxt rh_id len : ℕ) (r : ℤ)
    → len ≤ sbsize
    → IsFirst (ripe s) (first_seq s) len (pos n)
    → IsFirst (ripe (mark_retran_rh n snd_nxt rh_id s)) (first_seq s) len r
    → IsAfter n r
later s n snd_nxt rh_id len r h f (inr (e, g)) = inr e
later s n snd_nxt rh_id len r h (inr (e, g)) (inl x) = absurd (omega (arith, ap neg_part e))
later s n snd_nxt rh_id len r h (inl (n', e', l', k', t', b')) (inl (m, e, l, k, t, b)) =
    let same : n' ≡ n = ap pos_part (sym e') in
    inl (
      m,
      e,
      elim (Bool-cases (ltb n m)) [
        | inl c ↦ ltb→lt _ _ c
        | inr c ↦
            let z =
              not-ripe n m snd_nxt rh_id s (ltb→le _ _ c) (omega arith)
                (λ i j q. b' i (omega arith) (omega arith)) in
            absurd (ground (arith, t, z))
      ],
    )

-- On a board of no more packets than it has places, once the packet that `get_next_retran_rh` chose
-- is marked, the next choice is a later packet, or -1: none is chosen twice.
pub get_next_retran_rh-IsAfter :
    (s : ScoreBoardRh) (n snd_nxt rh_id : ℕ)
    → s.length ≤ sbsize
    → get_next_retran_rh s ≡ pos n
    → IsAfter n (get_next_retran_rh (mark_retran_rh n snd_nxt rh_id s))
unfolding mark_retran_rh
get_next_retran_rh-IsAfter s n snd_nxt rh_id h e =
    let s' = mark_retran_rh n snd_nxt rh_id s in
    later s n snd_nxt rh_id s.length (get_next_retran_rh s') h
      (subst (IsFirst (ripe s) (first_seq s) s.length) e (get_next_retran_rh-IsFirst s))
      (subst (λ i. IsFirst (ripe s') i s.length (get_next_retran_rh s'))
        (same-first n snd_nxt rh_id s) (get_next_retran_rh-IsFirst s'))
