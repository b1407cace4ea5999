-- ===== src/Tcp/Cut.antt =====
-- What tcp/tcp.cc guarantees when the congestion window is closed, and when it is opened.
use mathlib.Core.Option
use mathlib.Core.Option.{some-injective}
use tcpincast.Base.{
  ℕ, arith, ◌≡◌, refl, ap, ℤ, pos, ◌≤ℤ◌, negsuc, leb_ℤ, ltb_ℤ, eq_ℤ, not, Bool, true, false, ◌&&◌,
  ◌||◌, Bool-cases, inl, inr, Option, none, some, ◌==◌, if◌then◌else◌, ◌∙◌, leb, subst, sym,
}
use tcpincast.Tcp.Double.{Double}
use tcpincast.Tcp.Agent.{Rtt, Window, Sender, is_timeout}
use tcpincast.Tcp.Open.{opencwnd, cap_cwnd, linear_growth, add_cwnd}
use tcpincast.Tcp.Slowdown.{slowdown, ecn, ecn_pressure, note_ecn}

abbrev pub is_some {ℓ} : {A : Type ℓ} → Option A → Bool
is_some none = false
is_some (some a) = true

is_some-if {ℓ} :
    {A : Type ℓ} (b : Bool) (x : A) (rest : Option A)
    → is_some (if b then some x else rest) ≡ b || is_some rest
is_some-if true x rest = refl
is_some-if false x rest = refl

-- The cases of the switch on `wnd_option_`.
abbrev pub is_case : ℕ → Bool
is_case o =
    o == 0
    || (o == 1 || (o == 2 || (o == 3 || (o == 4 || (o == 5 || (o == 6 || (o == 8 || false)))))))

is_case_lem : (o : ℕ) → is_case o ≡ leb o 6 || o == 8
is_case_lem o = ground arith

-- The numbers that an `int` holds.
abbrev pub is_int : ℤ → Bool
is_int n = leb_ℤ (negsuc 2147483647) n && leb_ℤ n (pos 2147483647)

-- The conversion of an `int` of 32 bits to a double and back loses nothing, as a double has 53.
pub record IsExact (D : Type 0) ⦃d : Double D⦄ : Type 0 where
  pub exact : (n : ℤ) → is_int n ≡ true → d.to_int (d.of_int n) ≡ n

module _ {D : Type 0} ⦃d : Double D⦄ where
  ecn_pressure-keeps :
      (s : Sender D)
      → ((ecn_pressure s).recover ≡ s.recover)
        × ((ecn_pressure s).maxseq ≡ s.maxseq)
        × ((ecn_pressure s).window.last_cwnd_action ≡ s.window.last_cwnd_action)
  unfolding ecn_pressure
  ecn_pressure-keeps s = elim (Bool-cases (d.at_most s.window.cwnd (d.of_int (pos 1)))) [
    | inl e ↦ elim (Bool-cases s.window.ecn_backoff) [
      | inl f ↦ rw (e, f) (refl, refl, refl)
      | inr f ↦ rw (e, f) (refl, refl, refl)
    ]
    | inr e ↦ rw e (refl, refl, refl)
  ]

  abbrev Acts : ℤ → Sender D → Type 0
  Acts seqno s = ltb_ℤ s.recover seqno || is_timeout s.window.last_cwnd_action ≡ true

  ecn-Acts :
      (q : ℤ) (s : Sender D)
      → Acts q s
      → ((ecn q s).recover ≡ s.maxseq) × (is_timeout (ecn q s).window.last_cwnd_action ≡ false)
  unfolding ecn slowdown
  ecn-Acts q s acts =
      let reacts : ltb_ℤ s.recover q || is_timeout s.window.last_cwnd_action ≡ true = acts in
      let k = ecn_pressure-keeps (note_ecn s) in rw reacts (k.0, ap is_timeout k.2)

  ecn-rests :
      (q : ℤ) (s : Sender D)
      → q ≤ℤ s.recover
      → is_timeout s.window.last_cwnd_action ≡ false
      → ecn q s ≡ s
  unfolding ecn
  ecn-rests q s h quiet =
      let late : ltb_ℤ s.recover q ≡ false = ground arith in rw (late, quiet) refl

  -- Once the sender has reacted to a congestion indication, every further one for a packet sent
  -- before that reaction changes nothing.
  pub ecn-once :
      (first later : ℤ) (s : Sender D)
      → ltb_ℤ s.recover first || is_timeout s.window.last_cwnd_action ≡ true
      → later ≤ℤ s.maxseq
      → ecn later (ecn first s) ≡ ecn first s
  ecn-once first later s acts h =
      let a = ecn-Acts first s acts in
      ecn-rests later (ecn first s) (subst (λ r. later ≤ℤ r) (sym a.0) h) a.1

  linear_growth-is_some :
      (w : Window D) (r : Rtt D) (o : ℕ) → is_some (linear_growth w r o) ≡ leb o 6 || o == 8
  unfolding linear_growth
  linear_growth-is_some w r o =
      let chain : is_some (linear_growth w r o) ≡ is_case o = simp is_some-if in
      chain ∙ is_case_lem o

  is_some-map :
      (f : Window D → Window D) (o : Option (Window D)) → is_some (Option.map f o) ≡ is_some o
  is_some-map f none = refl
  is_some-map f (some w) = refl

  -- `opencwnd` returns exactly when the window is below the threshold or the option is one of 0 to
  -- 6 and 8; else it aborts.
  pub opencwnd-is_some :
      (w : Window D) (r : Rtt D)
      → is_some (opencwnd w r)
        ≡ d.below w.cwnd (d.of_int w.ssthresh) || (leb w.wnd_option 6 || w.wnd_option == 8)
  unfolding opencwnd
  opencwnd-is_some w r = elim (Bool-cases (d.below w.cwnd (d.of_int w.ssthresh))) [
    | inl e ↦ rw e refl
    | inr e ↦ rw e (
        is_some-map cap_cwnd (linear_growth w r w.wnd_option)
        ∙ linear_growth-is_some w r w.wnd_option)
  ]

  cap_cwnd_lem :
      ⦃i : IsExact D⦄ (w : Window D)
      → eq_ℤ w.maxcwnd (pos 0) ≡ false
      → is_int w.maxcwnd ≡ true
      → d.to_int (cap_cwnd w).cwnd ≤ℤ w.maxcwnd
  unfolding cap_cwnd
  cap_cwnd_lem ⦃i = i⦄ w h k = elim (Bool-cases (ltb_ℤ w.maxcwnd (d.to_int w.cwnd))) [
    | inl e ↦ rw (h, e, i.exact w.maxcwnd k) (omega arith)
    | inr e ↦ rw (h, e) (ground arith)
  ]

  cap_cwnd-maxcwnd : (w : Window D) → (cap_cwnd w).maxcwnd ≡ w.maxcwnd
  unfolding cap_cwnd
  cap_cwnd-maxcwnd w =
      elim (Bool-cases (not (eq_ℤ w.maxcwnd (pos 0)) && ltb_ℤ w.maxcwnd (d.to_int w.cwnd))) [
        | inl e ↦ rw e refl
        | inr e ↦ rw e refl
      ]

  Capped : Window D → Type 0
  Capped v = eq_ℤ v.maxcwnd (pos 0) ≡ false → is_int v.maxcwnd ≡ true → d.to_int v.cwnd ≤ℤ v.maxcwnd

  cap_cwnd-Capped : ⦃i : IsExact D⦄ (w : Window D) → Capped (cap_cwnd w)
  unfolding Capped
  cap_cwnd-Capped w h k =
      subst (λ m. d.to_int (cap_cwnd w).cwnd ≤ℤ m) (sym (cap_cwnd-maxcwnd w))
        (cap_cwnd_lem w (ap (λ m. eq_ℤ m (pos 0)) (sym (cap_cwnd-maxcwnd w)) ∙ h)
          (ap is_int (sym (cap_cwnd-maxcwnd w)) ∙ k))

  map-Capped :
      ⦃i : IsExact D⦄ (o : Option (Window D)) (v : Window D)
      → Option.map cap_cwnd o ≡ some v
      → Capped v
  map-Capped none v e = cc
  map-Capped (some w) v e = subst Capped (some-injective _ _ e) (cap_cwnd-Capped w)

  -- A window that `opencwnd` returns is within `maxcwnd_`, where that is set to a number of 32 bits,
  -- for doubles that hold such numbers exactly.
  pub opencwnd-Capped :
      ⦃i : IsExact D⦄ (w : Window D) (r : Rtt D) (v : Window D)
      → opencwnd w r ≡ some v
      → eq_ℤ v.maxcwnd (pos 0) ≡ false
      → is_int v.maxcwnd ≡ true
      → d.to_int v.cwnd ≤ℤ v.maxcwnd
  unfolding opencwnd Capped
  opencwnd-Capped w r v e = elim (Bool-cases (d.below w.cwnd (d.of_int w.ssthresh))) [
    | inl f ↦ map-Capped (some (add_cwnd w (d.of_int (pos 1)))) v (sym (rw f refl) ∙ e)
    | inr f ↦ map-Capped (linear_growth w r w.wnd_option) v (sym (rw f refl) ∙ e)
  ]
