-- ===== src/Rq/Tests.antt =====
-- The runs of the test `main` of rq.cc, with the blocks and counts that its comments expect.
use tcpincast.Base.{arith, ℕ, ◌≡◌, refl, List, [], ◌∷◌, Option, none, some, pos, map}
use tcpincast.Rq.Defs.{clearto, nexthole, Seg, Rq}
use tcpincast.Rq.Ranges.{ranges, insert_range}
use tcpincast.Rq.Place.{Holds}
use tcpincast.Rq.Round.{IsValid, add_inserts}
use tcpincast.Rq.Cover.{Lands, Gains, add-Gains}
use tcpincast.Rq.Trim.{Leaves, clearto-Leaves}
use tcpincast.Rq.Flags.{flags_upto, clearto-flags_upto}
use tcpincast.Rq.Gap.{Finds, nexthole-Finds}
use tcpincast.Rq.Coalesce.{returns}
use tcpincast.Rq.Add.{add}

abbrev fresh_queue : Rq
fresh_queue = record {
  fifo = [];
  lifo = [];
  total = 0;
  rcv_nxt = pos 1;
  pool = record { freelist = []; fresh = 100 };
}

-- Bytes 4, 5 and 8 to 11 have come.
abbrev pub two : Rq
two = record {
  fifo =
      record { addr = 1; startseq = 4; endseq = 6; pflags = 1; rqflags = 0; cnt = 1 }
      ∷ record { addr = 2; startseq = 8; endseq = 12; pflags = 2; rqflags = 0; cnt = 1 }
      ∷ [];
  lifo = 2 ∷ 1 ∷ [];
  total = 6;
  rcv_nxt = pos 2;
  pool = record { freelist = []; fresh = 3 };
}

pub two-IsValid : IsValid two
two-IsValid = record {
  sep = (omega arith, omega arith, (omega arith, tt, tt));
  total = refl;
  stacked = λ e. absurd (ground (arith, e));
}

add_inserts_example : Holds (insert_range 5 9 (ranges two.fifo)) (add 5 9 0 0 two)
add_inserts_example = add_inserts 5 9 0 0 two (omega arith) two-IsValid

add-Gains_example : Lands (Gains (6, 8) two) (add 6 8 0 0 two)
add-Gains_example = add-Gains 6 8 0 0 two (omega arith) two-IsValid

clearto-Leaves_example : Leaves (pos 9) (ranges two.fifo) (clearto (pos 9) two)
clearto-Leaves_example = clearto-Leaves 9 two two-IsValid

clearto-flags_upto_example : (clearto (pos 9) two).0 ≡ flags_upto 9 two.fifo 0
clearto-flags_upto_example = clearto-flags_upto 9 two two-IsValid

nexthole-Finds_example : Finds 5 (ranges two.fifo) (nexthole (pos 5) two)
nexthole-Finds_example = nexthole-Finds 5 two two-IsValid

-- `rq.add(s, e, 0, 0)` for each pair.
adds : List (ℕ × ℕ) → Rq → Option Rq
adds [] q = some q
adds ((s, e) ∷ r) q = elim (add s e 0 0 q) [ returns f q' ↦ adds r q' | _ ↦ none ]

dump : Option Rq → Option (List (ℕ × ℕ × ℕ))
dump none = none
dump (some q) = some (map (λ (x : Seg). (x.startseq, x.endseq, x.cnt)) q.fifo)

abbrev shown : List (ℕ × ℕ) → Option (List (ℕ × ℕ × ℕ))
shown l = dump (adds l fresh_queue)

run_d2 : shown ((2, 4) ∷ (6, 8) ∷ (1, 2) ∷ []) ≡ some ((1, 4, 2) ∷ (6, 8, 1) ∷ [])
unfolding dump adds add
run_d2 = refl

run_d4 : shown ((2, 4) ∷ (6, 8) ∷ (1, 2) ∷ (8, 10) ∷ (4, 6) ∷ []) ≡ some ((1, 10, 5) ∷ [])
unfolding dump adds add
run_d4 = refl

run_x4 :
    shown ((5, 10) ∷ (11, 20) ∷ (30, 40) ∷ (11, 20) ∷ (30, 50) ∷ (1, 10) ∷ [])
    ≡ some ((1, 10, 2) ∷ (11, 20, 1) ∷ (30, 50, 2) ∷ [])
unfolding dump adds add
run_x4 = refl

run_c2 : shown ((2, 4) ∷ (1, 3) ∷ []) ≡ some ((1, 4, 2) ∷ [])
unfolding dump adds add
run_c2 = refl

run_c4 : shown ((2, 4) ∷ (3, 7) ∷ []) ≡ some ((2, 7, 2) ∷ [])
unfolding dump adds add
run_c4 = refl

run_c5 : shown ((2, 4) ∷ (6, 8) ∷ (1, 9) ∷ []) ≡ some ((1, 9, 3) ∷ [])
unfolding dump adds add
run_c5 = refl

run_c7 :
    shown ((1, 2) ∷ (3, 5) ∷ (6, 8) ∷ (9, 10) ∷ (4, 7) ∷ [])
    ≡ some ((1, 2, 1) ∷ (3, 8, 3) ∷ (9, 10, 1) ∷ [])
unfolding dump adds add
run_c7 = refl

run_c8 :
    shown ((1, 2) ∷ (3, 5) ∷ (10, 12) ∷ (20, 30) ∷ (4, 8) ∷ [])
    ≡ some ((1, 2, 1) ∷ (3, 8, 2) ∷ (10, 12, 1) ∷ (20, 30, 1) ∷ [])
unfolding dump adds add
run_c8 = refl
