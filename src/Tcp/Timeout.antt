-- ===== src/Tcp/Timeout.antt =====
-- The bounds that tcp/tcp.cc keeps on the retransmission timer.
use tcpincast.Base.{
  ℕ, zero, suc, ◌+◌, ◌*◌, ◌^◌, ◌≤◌, min, arith, ◌≡◌, refl, ℤ, pos, negsuc, ◌*ℤ◌, ◌+ℤ◌, ◌≤ℤ◌,
  Bool-cases, ◌&&◌, inl, inr, some, none, subst, ◌∙◌, Option, Bool, ◌||◌, ◌==◌, ◌⊎◌, ltb, eq_ℤ,
  shift_left, ◌-◌, false,
}
use native.Mathlib.Nat.{one-le-mul, one-le-pow, two-pow-succ}
use tcpincast.Tcp.Double.{Double, IsIrreflexive}
use tcpincast.Tcp.Agent.{Rtt}
use tcpincast.Tcp.Timer.{
  of_nat, rtt_backoff, clobber, doubled_backoff, rtt_update, average, sample, current_rto,
  at_least_one, gap, variation, rtt_timeout, draft, corrected, two_ticks, Rto, rto_dc, base_rto,
  conclude_rto, raise_to, cut_to,
}

-- The averages of a connection that has a sample.
pub record IsSampled {D : Type 0} (r : Rtt D) : Type 0 where
  pub rtt_positive : pos 1 ≤ℤ r.t_rtt
  pub srtt_positive : pos 1 ≤ℤ r.t_srtt
  pub rttvar_positive : pos 1 ≤ℤ r.t_rttvar

-- What the timer is set to is of no concern here; `none` stands for `exit(1)`.
abbrev pub state_of : {D : Type 0} → Option (Rto D) → Option (Rtt D)
state_of none = none
state_of (some x) = some x.after

abbrev pub timeout_after : {D : Type 0} ⦃d : Double D⦄ → D → Option (Rtt D) → Option (Rtt D)
timeout_after u none = none
timeout_after u (some r) = state_of (rtt_timeout (rtt_backoff r) u)

-- As many timeouts in a row as the number says: each backs off, and the timer is set again, with
-- the random number `u i` in the i-th.
unfoldable pub timeouts : {D : Type 0} ⦃d : Double D⦄ → (ℕ → D) → ℕ → Rtt D → Option (Rtt D)
timeouts u zero r = some r
timeouts u (suc n) r = timeout_after (u n) (timeouts u n r)

-- The backoff is exponential or linear.
abbrev pub is_plain : {D : Type 0} → Rtt D → Bool
is_plain r = r.bo_type == 1 || r.bo_type == 2

abbrev pub BackedOff : {D : Type 0} → Rtt D → ℕ → Rtt D → Type 0
BackedOff r n s =
    (s.t_backoff ≡ min (2 ^ n * r.t_backoff) r.maxbackoff)
    × ((s.dc_backoff ≡ r.dc_backoff + n)
        ⊎ ((is_plain r ≡ false) × (1 ≤ s.dc_backoff) × (s.dc_backoff ≤ n)))
    × (s.maxbackoff ≡ r.maxbackoff)
    × (s.bo_type ≡ r.bo_type)

-- The state, where the timeouts return.
abbrev pub AllBackedOff : {D : Type 0} → Rtt D → ℕ → Option (Rtt D) → Type 0
AllBackedOff r n none = Unit {0}
AllBackedOff r n (some s) = BackedOff r n s

double_power : (n b : ℕ) → 2 ^ suc n * b ≡ 2 * (2 ^ n * b)
double_power n b = grind (arith, two-pow-succ)

-- The linear counter, over one more timeout.
counted :
    (s w t r n : ℕ) (plain : Bool)
    → (t ≡ r + n) ⊎ ((plain ≡ false) × (1 ≤ t) × (t ≤ n))
    → w ≡ t + 1
    → (s ≡ w) ⊎ ((plain ≡ false) × (s ≡ 1))
    → (s ≡ r + suc n) ⊎ ((plain ≡ false) × (1 ≤ s) × (s ≤ suc n))
counted s w t r n plain (inl a) b (inl c) = inl (omega (arith, a, b, c))
counted s w t r n plain (inr a) b (inl c) =
    inr (a.0, omega (arith, a, b, c), omega (arith, a, b, c))
counted s w t r n plain a b (inr c) = inr (c.0, omega (arith, c), omega (arith, c))

at_least_one_lem : (a : ℤ) → pos 1 ≤ℤ at_least_one a
at_least_one_lem a = ground arith

shift_left_lem : (a : ℤ) (k : ℕ) → pos 1 ≤ℤ a → pos 1 ≤ℤ shift_left a k
unfolding ◌*ℤ◌
shift_left_lem (pos n) k h =
    let positive : 1 ≤ n * 2 ^ k = one-le-mul (omega arith) (one-le-pow k 2 (omega arith)) in
    ground arith
shift_left_lem (negsuc n) k h = absurd (omega arith)

module _ {D : Type 0} ⦃d : Double D⦄ where
  clobber-counters :
      (r : Rtt D)
      → ((clobber r).t_backoff ≡ r.t_backoff)
        × ((clobber r).dc_backoff ≡ r.dc_backoff)
        × ((clobber r).maxbackoff ≡ r.maxbackoff)
        × ((clobber r).bo_type ≡ r.bo_type)
  unfolding clobber
  clobber-counters r = elim (Bool-cases (ltb 8 r.t_backoff)) [
    | inl e ↦ rw e (refl, refl, refl, refl)
    | inr e ↦ rw e (refl, refl, refl, refl)
  ]

  -- One backoff.
  abbrev Doubled : Rtt D → Rtt D → Type 0
  Doubled r s =
      (s.t_backoff ≡ min (2 * r.t_backoff) r.maxbackoff)
      × (s.dc_backoff ≡ r.dc_backoff + 1)
      × (s.maxbackoff ≡ r.maxbackoff)
      × (s.bo_type ≡ r.bo_type)

  rtt_backoff_lem : (r : Rtt D) → r.t_backoff ≤ r.maxbackoff → Doubled r (rtt_backoff r)
  unfolding rtt_backoff
  rtt_backoff_lem r h =
      let c = clobber-counters (doubled_backoff r) in
      (ground (arith, c.0, c.2, h), ground (arith, c.1), c.2, c.3)

  -- The linear counter starts again under RTOdc only.
  rto_dc-dc : (r : Rtt D) (u : D) → ((rto_dc r u).dc ≡ r.dc_backoff) ⊎ ((rto_dc r u).dc ≡ 1)
  unfolding rto_dc
  rto_dc-dc r u =
      elim (Bool-cases (
        d.below (d.times (base_rto r) (of_nat r.t_backoff))
          (d.times r.dcrto (of_nat r.dc_backoff)))) [
            | inl e ↦ rw e (inr refl)
            | inr e ↦ rw e (inl refl)
          ]

  draft-dc :
      (r : Rtt D) (u : D)
      → ((draft r u).dc ≡ r.dc_backoff) ⊎ ((is_plain r ≡ false) × ((draft r u).dc ≡ 1))
  unfolding draft
  draft-dc r u = elim (Bool-cases (r.bo_type == 1)) [
    | inl e ↦ rw e (inl refl)
    | inr e ↦ elim (Bool-cases (r.bo_type == 2)) [
      | inl f ↦ rw (e, f) (inl refl)
      | inr f ↦ rw (e, f) (elim (rto_dc-dc r u) [ inl g ↦ inl g | inr g ↦ inr (refl, g) ])
    ]
  ]

  -- What `rtt_timeout` leaves of the counters.
  abbrev Drafted : Rtt D → Option (Rtt D) → Type 0
  Drafted r none = Unit {0}
  Drafted r (some s) =
      (s.t_backoff ≡ r.t_backoff)
      × ((s.dc_backoff ≡ r.dc_backoff) ⊎ ((is_plain r ≡ false) × (s.dc_backoff ≡ 1)))
      × (s.maxbackoff ≡ r.maxbackoff)
      × (s.bo_type ≡ r.bo_type)

  conclude_rto-Drafted :
      (r : Rtt D) (dc : ℕ) (x : Option D)
      → (dc ≡ r.dc_backoff) ⊎ ((is_plain r ≡ false) × (dc ≡ 1))
      → Drafted r (state_of (conclude_rto r dc x))
  conclude_rto-Drafted r dc none h = tt
  conclude_rto-Drafted r dc (some x) h = (refl, h, refl, refl)

  rtt_timeout-Drafted : (r : Rtt D) (u : D) → Drafted r (state_of (rtt_timeout r u))
  unfolding rtt_timeout
  rtt_timeout-Drafted r u = conclude_rto-Drafted r (draft r u).dc _ (draft-dc r u)

  timeout_after-BackedOff :
      (r t : Rtt D) (n : ℕ) (o : Option (Rtt D))
      → BackedOff r n t
      → Doubled t (rtt_backoff t)
      → Drafted (rtt_backoff t) o
      → AllBackedOff r (suc n) o
  timeout_after-BackedOff r t n none b w f = tt
  timeout_after-BackedOff r t n (some s) b w f = (
    ground (arith, b.0, b.2, w.0, w.2, f.0, double_power n r.t_backoff),
    counted s.dc_backoff (rtt_backoff t).dc_backoff t.dc_backoff r.dc_backoff n (is_plain r) b.1 w.1
        (subst
          (λ k.
            (s.dc_backoff ≡ (rtt_backoff t).dc_backoff)
            ⊎ ((k == 1 || k == 2 ≡ false) × (s.dc_backoff ≡ 1)))
          (w.3 ∙ b.3) f.1),
    f.2 ∙ w.2 ∙ b.2,
    f.3 ∙ w.3 ∙ b.3,
  )

  step-BackedOff :
      (r : Rtt D) (u : D) (n : ℕ) (o : Option (Rtt D))
      → AllBackedOff r n o
      → AllBackedOff r (suc n) (timeout_after u o)
  step-BackedOff r u n none b = tt
  step-BackedOff r u n (some t) b =
      timeout_after-BackedOff r t n _ b (rtt_backoff_lem t (ground (arith, b.0, b.2)))
        (rtt_timeout-Drafted (rtt_backoff t) u)

  -- From a multiplier within its bound, after n timeouts in a row that return the multiplier is 2^n
  -- times what it was or the bound, whichever is smaller; the linear counter has grown by n, or,
  -- under RTOdc, has started again at 1 since, and is between 1 and n.
  pub timeouts-BackedOff :
      (u : ℕ → D) (n : ℕ) (r : Rtt D)
      → r.t_backoff ≤ r.maxbackoff
      → AllBackedOff r n (timeouts u n r)
  unfolding timeouts
  timeouts-BackedOff u zero r h = (ground (arith, h), inl (omega arith), refl, refl)
  timeouts-BackedOff u (suc n) r h =
      step-BackedOff r (u n) n (timeouts u n r) (timeouts-BackedOff u n r h)

  sample_lem : (r : Rtt D) (tao now : D) → pos 1 ≤ℤ sample r tao now
  unfolding sample
  sample_lem r tao now = ground arith

  average-IsSampled : (r : Rtt D) (rtt : ℤ) → pos 1 ≤ℤ rtt → IsSampled (average r rtt)
  unfolding average
  average-IsSampled r rtt h = elim (Bool-cases (eq_ℤ r.t_srtt (pos 0))) [
    | inl e ↦ rw e record {
      rtt_positive = h;
      srtt_positive = shift_left_lem rtt r.srtt_bits h;
      rttvar_positive = shift_left_lem rtt (r.rttvar_bits - 1) h;
    }
    | inr e ↦ rw e record {
      rtt_positive = h;
      srtt_positive = at_least_one_lem (r.t_srtt +ℤ gap rtt r.t_srtt r.srtt_bits);
      rttvar_positive =
          at_least_one_lem
            (r.t_rttvar +ℤ variation (gap rtt r.t_srtt r.srtt_bits) r.t_rttvar r.rttvar_bits);
    }
  ]

  average-counters :
      (r : Rtt D) (rtt : ℤ)
      → ((average r rtt).t_backoff ≡ r.t_backoff) × ((average r rtt).dc_backoff ≡ r.dc_backoff)
  unfolding average
  average-counters r rtt = elim (Bool-cases (eq_ℤ r.t_srtt (pos 0))) [
    | inl e ↦ rw e (refl, refl)
    | inr e ↦ rw e (refl, refl)
  ]

  -- Whatever the sample and the state before, after `rtt_update` the last sample and both averages
  -- are at least 1, and the backoffs are as they were.
  pub rtt_update-IsSampled :
      (r : Rtt D) (tao now : D)
      → IsSampled (rtt_update r tao now)
        × ((rtt_update r tao now).t_backoff ≡ r.t_backoff)
        × ((rtt_update r tao now).dc_backoff ≡ r.dc_backoff)
  unfolding rtt_update current_rto
  rtt_update-IsSampled r tao now =
      let s = average-IsSampled r (sample r tao now) (sample_lem r tao now) in
      let c = average-counters r (sample r tao now) in
      (
        record {
          rtt_positive = s.rtt_positive;
          srtt_positive = s.srtt_positive;
          rttvar_positive = s.rttvar_positive;
        },
        c.0,
        c.1,
      )

  raise_to_lem : ⦃i : IsIrreflexive D⦄ (floor x : D) → d.below (raise_to floor x) floor ≡ false
  raise_to_lem ⦃i = i⦄ floor x = elim (Bool-cases (d.below x floor)) [
    | inl e ↦ rw e (i.not_below floor)
    | inr e ↦ rw e e
  ]

  two_ticks_lem :
      (r : Rtt D) (x : D)
      → d.below x (d.of_int (pos 0)) ≡ false
      → (y : D) × (two_ticks r x ≡ some y)
  unfolding two_ticks
  two_ticks_lem r x h = elim (Bool-cases (d.below x (d.times (of_nat 2) r.tick))) [
    | inl e ↦ elim (Bool-cases (r.use_rtt && d.below x r.tick)) [
      | inl f ↦ rw (e, h, f) (_, refl)
      | inr f ↦ rw (e, h, f) (_, refl)
    ]
    | inr e ↦ rw e (_, refl)
  ]

  -- Unless what `maxrto_` cuts is negative, `rtt_timeout` returns; the timeout is not below
  -- `minrto_`, even where `maxrto_` is, and the call has cleared `use_rtt_`.
  pub rtt_timeout_lem :
      ⦃i : IsIrreflexive D⦄ (r : Rtt D) (u : D)
      → d.below (cut_to r.maxrto (corrected r (draft r u).timeout)) (d.of_int (pos 0)) ≡ false
      → (got : Rto D) × (rtt_timeout r u ≡ some got)
        × (d.below got.rto r.minrto ≡ false)
        × (got.after.use_rtt ≡ false)
  unfolding rtt_timeout
  rtt_timeout_lem r u h =
      let ticks = two_ticks_lem r (cut_to r.maxrto (corrected r (draft r u).timeout)) h in
      rw ticks.1 (_, refl, raise_to_lem r.minrto ticks.0, refl)
