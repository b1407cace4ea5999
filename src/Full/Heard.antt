-- ===== src/Full/Heard.antt =====
-- `SackFullTcpAgent::process_sack` of tcp/tcp-full.cc: what a header's SACK blocks leave in `sq_`.
use tcpincast.Base.{
  ℕ, ◌≡◌, refl, ap, ◌∙◌, sym, false, true, ◌||◌, leb, List, [], ◌∷◌, arith, Bool-cases, inl, inr,
  ◌==◌, leb→lt,
}
use tcpincast.Rq.Defs.{Rq}
use tcpincast.Rq.Add.{add}
use tcpincast.Rq.Ranges.{ranges, covers}
use tcpincast.Rq.Round.{IsValid}
use tcpincast.Rq.Cover.{Lands, Lands-map, in_block, add-Gains}
use tcpincast.Scoreboard.Received.{in_blocks, GainsAll, then-Lands, or-swap}
use tcpincast.Full.Sack.{SackConn, add_legal, process_sack}

-- A block that ends where it begins, or before, holds no byte.
empty_block : (n : ℕ) (b : ℕ × ℕ) → leb b.1 b.0 ≡ true → in_block n b ≡ false
empty_block n b h = ground (arith, h)

add_legal-GainsAll :
    (bs : List (ℕ × ℕ)) (q : Rq) → IsValid q → Lands (GainsAll bs q) (add_legal false bs q)
unfolding add_legal
add_legal-GainsAll [] q v = (v, λ n. refl)
add_legal-GainsAll (b ∷ bs) q v = elim (Bool-cases (leb b.1 b.0)) [
  | inl e ↦ rw e (
      Lands-map (add_legal false bs q)
        (λ q2 h. (
          h.0,
          λ n.
              h.1 n
              ∙ ap (λ x. (x || in_blocks n bs) || covers n (ranges q.fifo))
                  (sym (empty_block n b e)),
        ))
        (add_legal-GainsAll bs q v))
  | inr e ↦ rw e (
      then-Lands _ (add_legal false bs) (add b.0 b.1 0 0 q)
        (λ q1 g.
          Lands-map (add_legal false bs q1)
            (λ q2 h. (
              h.0,
              λ n.
                  h.1 n
                  ∙ ap (λ c. in_blocks n bs || c) (g.1 n)
                  ∙ or-swap (in_block n b) (in_blocks n bs) (covers n (ranges q.fifo)),
            ))
            (add_legal-GainsAll bs q1 g.0))
        (add-Gains b.0 b.1 0 0 q (leb→lt _ _ e) v))
]

module _ {D : Type 0} where
  -- The blocks of a packet without a FIN, whatever they are, lead a valid queue to a valid one,
  -- which covers a byte just when one of the blocks or the old queue does, unless the agent is told
  -- to take no blocks.
  pub process_sack-GainsAll :
      (bs : List (ℕ × ℕ)) (s : SackConn D)
      → s.max_sack_blocks == 0 ≡ false
      → IsValid s.sq
      → Lands (GainsAll bs s.sq) (process_sack false bs s)
  unfolding process_sack
  process_sack-GainsAll bs s takes v = rw takes (add_legal-GainsAll bs s.sq v)
