-- ===== src/Scoreboard/Once.antt =====
-- `GetNextRetran` after `MarkRetran`: the search goes on behind the packet that was chosen.
use tcpincast.Base.{
  ℕ, ◌+◌, ◌-◌, ◌≤◌, ◌<◌, ◌≡◌, refl, ap, ◌∙◌, sym, subst, true, false, arith, Bool-cases, inl, inr,
  ◌⊎◌, ℤ, pos, minus_one, ltb_ℤ, leb_ℤ, pos_part, neg_part, add_ℕ, le→leb,
}
use tcpincast.Rq.Round.{IsValid}
use tcpincast.Scoreboard.Shim.{ScoreBoardRq, sack_min, get_next_retran, mark_retran}
use tcpincast.Scoreboard.Retran.{Picks, search_start, get_next_retran-Picks}

-- The search begins at `sack_min` or after.
start_ge : (s : ScoreBoardRq) → ltb_ℤ (search_start s) (sack_min s) ≡ false
start_ge s = elim (Bool-cases (ltb_ℤ s.h_seqno (sack_min s))) [
  | inl h ↦ rw h (ground arith)
  | inr h ↦ rw h h
]

below : (z : ℤ) (k n : ℕ) → ltb_ℤ (pos k) z ≡ false → k ≤ n → ltb_ℤ (pos (n + 1)) z ≡ false
below z k n h l = ground arith

add_one : (n : ℕ) → add_ℕ (pos n) 1 ≡ pos (n + 1)
add_one n =
    let same : n + 1 - 0 ≡ n + 1 = omega arith in rw (le→leb 0 (n + 1) (omega arith)) (ap pos same)

reached : (z : ℤ) (n : ℕ) → z ≡ pos n → leb_ℤ z (pos n) ≡ true
reached z n e = rw e (le→leb (n + 0) (n + 0) (omega arith))

marked :
    (s : ScoreBoardRq) (n : ℕ)
    → s.h_seqno ≡ pos n
    → mark_retran (pos n) s ≡ record s { h_seqno = pos (n + 1) }
unfolding mark_retran
marked s n e = rw (reached s.h_seqno n e) (ap (λ z. record s { h_seqno = z }) (add_one n))

-- Where the search begins once the packet `n` is marked.
marked_start :
    (s : ScoreBoardRq) (n k : ℕ)
    → s.h_seqno ≡ pos n
    → ltb_ℤ (pos k) (sack_min s) ≡ false
    → k ≤ n
    → search_start (mark_retran (pos n) s) ≡ pos (n + 1)
marked_start s n k e h l = ap search_start (marked s n e) ∙ rw (below (sack_min s) k n h l) refl

-- The result is a packet after `n`, or -1.
abbrev pub IsAfter : ℕ → ℤ → Type 0
IsAfter n r = ((m : ℕ) × (r ≡ pos m) × (n < m)) ⊎ (r ≡ minus_one)

-- What the search gives once the chosen packet is marked.
Picks-IsAfter :
    (n : ℕ) (s : ScoreBoardRq) (r : ℤ × ScoreBoardRq) → Picks (n + 1) s r → IsAfter n r.0
Picks-IsAfter n s r (q, inl (m, e, z, l, h)) = inl (m, e, omega (arith, l.0.from))
Picks-IsAfter n s r (q, inr (e, h, f)) = inr e

chosen-IsAfter :
    (s : ScoreBoardRq) (k n : ℕ) (r : ℤ × ScoreBoardRq)
    → IsValid s.rq
    → ltb_ℤ (pos k) (sack_min s) ≡ false
    → r.0 ≡ pos n
    → Picks k s r
    → IsAfter n (get_next_retran (mark_retran (pos n) r.1)).0
chosen-IsAfter s k n r v b e (q, inr (e', h, f)) = absurd (omega (arith, ap neg_part (sym e ∙ e')))
chosen-IsAfter s k n r v b e (q, inl (m, e', z, l, h)) =
    let same : m ≡ n = ap pos_part (sym e' ∙ e) in
    let at_n = h ∙ ap pos same in
    let s2 = mark_retran (pos n) r.1 in
    Picks-IsAfter n s2 (get_next_retran s2) (
      get_next_retran-Picks s2 (n + 1)
        (subst IsValid (sym (ap (λ (z : ScoreBoardRq). z.rq) (marked r.1 n at_n) ∙ q)) v)
        (marked_start r.1 n k at_n (rw q b) (omega (arith, l.0.from, same))))

-- Once the packet that `get_next_retran` chose over a valid queue is marked, the next choice is a
-- later packet, or -1: no packet is chosen twice.
pub get_next_retran-IsAfter :
    (s : ScoreBoardRq) (k n : ℕ)
    → IsValid s.rq
    → search_start s ≡ pos k
    → (get_next_retran s).0 ≡ pos n
    → IsAfter n (get_next_retran (mark_retran (pos n) (get_next_retran s).1)).0
get_next_retran-IsAfter s k n v e r =
    chosen-IsAfter s k n (get_next_retran s) v
      (subst (λ z. ltb_ℤ z (sack_min s) ≡ false) e (start_ge s)) r (get_next_retran-Picks s k v e)
