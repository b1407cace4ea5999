-- ===== src/Scoreboard/Choice.antt =====
-- `ScoreBoard::GetNextRetran` and `GetNextUnacked` search the packets of the board in order.
use tcpincast.Base.{
  leb, ltb→lt, ltb→le, ℕ, zero, suc, ◌+◌, ◌-◌, ◌≤◌, ◌<◌, ◌≡◌, refl, Bool, true, false, not, ◌&&◌,
  arith, Bool-cases, inl, inr, ℤ, pos, minus_one, ◌⊎◌, ltb, le→ltb, lt→leb, ne→==,
}
use tcpincast.Scoreboard.Halving.{ScoreBoardRh, hole_at, is_hole, first_seq}
use tcpincast.Scoreboard.Resend.{retran_rh_from, get_next_retran_rh}
use tcpincast.Scoreboard.Ring.{
  ScoreBoard, at, left, retran_from, get_next_retran, unacked_from, get_next_unacked,
}

-- The result is the first packet of `i ≤ j < i + n` that passes the test, or -1 if none does.
abbrev pub IsFirst : (ℕ → Bool) → ℕ → ℕ → ℤ → Type 0
IsFirst f i n r =
    ((m : ℕ) × (r ≡ pos m)
      × (i ≤ m)
      × (m < i + n)
      × (f m ≡ true)
      × ((j : ℕ) → i ≤ j → j < m → f j ≡ false))
    ⊎ ((r ≡ minus_one) × ((j : ℕ) → i ≤ j → j < i + n → f j ≡ false))

-- The packet is neither acknowledged nor reported by a SACK block.
abbrev pub missing : ScoreBoard → ℕ → Bool
missing s i = not (at i s).ack_flag && not (at i s).sack_flag

abbrev pub due : ScoreBoard → ℕ → Bool
due s i = not (at i s).ack_flag && not (at i s).sack_flag && not (at i s).retran

-- The step of a search that passes over `i`.
IsFirst-skip :
    (f : ℕ → Bool) (i n : ℕ) (r : ℤ) → f i ≡ false → IsFirst f (i + 1) n r → IsFirst f i (suc n) r
IsFirst-skip f i n r h (inl (m, e, l, k, t, b)) = inl (
  m,
  e,
  omega arith,
  omega arith,
  t,
  λ j p q. elim (Bool-cases (ltb i j)) [
    | inl c ↦ b j (omega (arith, ltb→lt _ _ c)) q
    | inr c ↦ let same : j ≡ i = omega (arith, ltb→le _ _ c) in rw same h
  ],
)
IsFirst-skip f i n r h (inr (e, b)) = inr (
  e,
  λ j p q. elim (Bool-cases (ltb i j)) [
    | inl c ↦ b j (omega (arith, ltb→lt _ _ c)) (omega arith)
    | inr c ↦ let same : j ≡ i = omega (arith, ltb→le _ _ c) in rw same h
  ],
)

IsFirst-here : (f : ℕ → Bool) (i n : ℕ) → f i ≡ true → IsFirst f i (suc n) (pos i)
IsFirst-here f i n h = inl (i, refl, omega arith, omega arith, h, λ j p q. absurd (omega arith))

retran_from-IsFirst : (n i : ℕ) (s : ScoreBoard) → IsFirst (due s) i n (retran_from n i s)
unfolding retran_from
retran_from-IsFirst zero i s = inr (refl, λ j p q. absurd (omega arith))
retran_from-IsFirst (suc n) i s = elim (Bool-cases (due s i)) [
  | inl h ↦ rw h (IsFirst-here (due s) i n h)
  | inr h ↦ rw h (IsFirst-skip (due s) i n _ h (retran_from-IsFirst n (i + 1) s))
]

unacked_from-IsFirst : (n i : ℕ) (s : ScoreBoard) → IsFirst (missing s) i n (unacked_from n i s)
unfolding unacked_from
unacked_from-IsFirst zero i s = inr (refl, λ j p q. absurd (omega arith))
unacked_from-IsFirst (suc n) i s = elim (Bool-cases (missing s i)) [
  | inl h ↦ rw h (IsFirst-here (missing s) i n h)
  | inr h ↦ rw h (IsFirst-skip (missing s) i n _ h (unacked_from-IsFirst n (i + 1) s))
]

-- `get_next_retran` gives the first packet of the board, in order, that is neither acknowledged
-- nor reported nor sent again, or -1 if there is none.
pub get_next_retran-IsFirst :
    (s : ScoreBoard) → IsFirst (due s) (left s) s.length (get_next_retran s)
unfolding get_next_retran
get_next_retran-IsFirst s = retran_from-IsFirst s.length (left s) s

-- For a packet number on the board, `get_next_unacked` gives the first packet from it on that is
-- neither acknowledged nor reported, or -1 if there is none.
pub get_next_unacked-IsFirst :
    (s : ScoreBoard) (seqno : ℕ)
    → left s ≤ seqno
    → seqno < left s + s.length
    → IsFirst (missing s) seqno (left s + s.length - seqno) (get_next_unacked seqno s)
unfolding get_next_unacked
get_next_unacked-IsFirst s seqno h k =
    rw (ne→== s.length 0 (omega arith), le→ltb seqno (left s) h, lt→leb (left s + s.length) seqno k)
      (unacked_from-IsFirst (left s + s.length - seqno) seqno s)

-- The packet is a hole that enough acknowledgements have reported, and is not sent again yet.
abbrev pub ripe : ScoreBoardRh → ℕ → Bool
ripe s i = let x = hole_at i s in is_hole x && not x.retran && leb s.numdupacks x.sack_cnt

retran_rh_from-IsFirst : (n i : ℕ) (s : ScoreBoardRh) → IsFirst (ripe s) i n (retran_rh_from n i s)
unfolding retran_rh_from
retran_rh_from-IsFirst zero i s = inr (refl, λ j p q. absurd (omega arith))
retran_rh_from-IsFirst (suc n) i s = elim (Bool-cases (ripe s i)) [
  | inl h ↦ rw h (IsFirst-here (ripe s) i n h)
  | inr h ↦ rw h (IsFirst-skip (ripe s) i n _ h (retran_rh_from-IsFirst n (i + 1) s))
]

-- `get_next_retran_rh` gives the first packet of the board, in order, that is a hole reported by
-- `numdupacks` acknowledgements and not sent again, or -1 if there is none.
pub get_next_retran_rh-IsFirst :
    (s : ScoreBoardRh) → IsFirst (ripe s) (first_seq s) s.length (get_next_retran_rh s)
unfolding get_next_retran_rh
get_next_retran_rh-IsFirst s = retran_rh_from-IsFirst s.length (first_seq s) s
