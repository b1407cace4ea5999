-- ===== src/Full/Burst.antt =====
-- The limit of packets of a NewRenoFullTcpAgent in tcp/tcp-full.cc, over a recovery.
use tcpincast.Base.{
  ℕ, ℤ, pos, pos_part, minus_one, ltb_ℤ, leb_ℤ, ◌-ℤ◌, ◌≡◌, refl, ◌∙◌, ap, sym, subst, true, false,
  ◌&&◌, Option, none, some, List, [], ◌∷◌, Bool-cases, inl, inr, ◌⊎◌, if◌then◌else◌, arith,
}
use tcpincast.Tcp.Double.{Double}
use tcpincast.Full.Data.{Conn, for_dupack, ahbytes}
use tcpincast.Full.Held.{foutput-Ends}
use tcpincast.Full.Pass.{Returns-Follows}
use tcpincast.Tcp.Agent.{dupack_taken}
use tcpincast.Full.Ack.{
  set_action, set_recover, segment_start, fast_retransmit, conn_of, pack_action,
}
use tcpincast.Full.Expected.{if_true, if_not}
use tcpincast.Full.Variants.{
  NewRenoConn, limit_burst, restore_burst, deflated, pack_action_newreno, ack_action_newreno,
}

-- P holds of what is returned, if anything is.
abbrev pub Each : {A : Type 0} → (A → Type 0) → Option A → Type 0
Each P none = Unit {0}
Each P (some x) = P x

not_negative : (m : ℕ) → ltb_ℤ (pos m) (pos 0) ≡ false
not_negative m = ground arith

at_least_none : (m : ℕ) → leb_ℤ (pos 0) (pos m) ≡ true
at_least_none m = ground arith

abbrev after_pack : {A : Type 0} → (A → Option A) → Option A → Option A
after_pack f none = none
after_pack f (some x) = f x

Each-map :
    {A : Type 0} (P Q : A → Type 0) (o : Option A) → ((x : A) → P x → Q x) → Each P o → Each Q o
Each-map P Q none f h = tt
Each-map P Q (some x) f h = f x h

Each-after :
    {A : Type 0} (P Q : A → Type 0) (f : A → Option A) (o : Option A)
    → ((x : A) → P x → Each Q (f x))
    → Each P o
    → Each Q (after_pack f o)
Each-after P Q f none g h = tt
Each-after P Q f (some x) g h = g x h

module _ {D : Type 0} where
  -- Within a recovery: the limit `m` is kept aside, and that of recoveries is in force.
  abbrev pub Limited : ℕ → ℕ → NewRenoConn D → Type 0
  Limited m k r = (r.save_maxburst ≡ pos m) × (r.base.maxburst ≡ k) × (r.recov_maxburst ≡ k)

  -- Outside of one: the limit `m` is in force, and none is kept aside.
  abbrev pub Free : ℕ → ℕ → NewRenoConn D → Type 0
  Free m k r = (r.save_maxburst ≡ minus_one) × (r.base.maxburst ≡ m) × (r.recov_maxburst ≡ k)

  limit-Limited :
      (m k : ℕ) (r : NewRenoConn D) → Free m k r ⊎ Limited m k r → Limited m k (limit_burst r)
  unfolding limit_burst
  limit-Limited m k r (inl f) =
      subst (Limited m k)
        (sym (if_true (ltb_ℤ r.save_maxburst (pos 0)) _ r (ap (λ x. ltb_ℤ x (pos 0)) f.0)))
        (ap pos f.1, f.2, f.2)
  limit-Limited m k r (inr f) =
      subst (Limited m k)
        (sym (
          if_not (ltb_ℤ r.save_maxburst (pos 0)) _ r
            (ap (λ x. ltb_ℤ x (pos 0)) f.0 ∙ not_negative m)))
        f

  restore-Free :
      (m k : ℕ) (r : NewRenoConn D) → Free m k r ⊎ Limited m k r → Free m k (restore_burst r)
  unfolding restore_burst
  restore-Free m k r (inl f) =
      subst (Free m k) (sym (if_not (leb_ℤ (pos 0) r.save_maxburst) _ r (ap (leb_ℤ (pos 0)) f.0))) f
  restore-Free m k r (inr f) =
      subst (Free m k)
        (sym
          (if_true (leb_ℤ (pos 0) r.save_maxburst) _ r (ap (leb_ℤ (pos 0)) f.0 ∙ at_least_none m)))
        (refl, ap pos_part f.0, f.2)

module _ {D : Type 0} ⦃d : Double D⦄ where
  fast_retransmit-burst :
      (now u : D) (seq : ℤ) (c : Conn D)
      → Each (λ e. e.maxburst ≡ c.maxburst) (conn_of (fast_retransmit now u seq c))
  unfolding fast_retransmit
  fast_retransmit-burst now u seq c =
      let target = if c.is_ha then c.tcp.maxseq -ℤ ahbytes else c.tcp.maxseq in
      let noted = set_action dupack_taken (set_recover target c) in
      let from = if c.is_ha then segment_start c else seq in
      elim (foutput-Ends now u from for_dupack noted) [
        | inl x ↦ subst (λ o. Each (λ e. e.maxburst ≡ c.maxburst) (conn_of o)) (sym x.0) tt
        | inr r ↦
            subst (λ o. Each (λ e. e.maxburst ≡ c.maxburst) (conn_of o)) (sym r.equals)
              (Returns-Follows noted _ r).same_burst
      ]

  pack_action-burst : (c : Conn D) → (pack_action c).maxburst ≡ c.maxburst
  unfolding pack_action
  pack_action-burst c =
      elim (Bool-cases (
        c.reno_fastrecov
        && c.fastrecov
        && d.below (d.of_int c.tcp.window.ssthresh) c.tcp.window.cwnd)) [
          | inl e ↦ rw e refl
          | inr e ↦ rw e refl
        ]

  deflated-Limited :
      (m k : ℕ) (r : NewRenoConn D) (o : Option (Conn D))
      → Free m k r ⊎ Limited m k r
      → Each (λ e. e.maxburst ≡ r.base.maxburst) o
      → Each (Limited m k) (deflated r o)
  deflated-Limited m k r none h same = tt
  deflated-Limited m k r (some c) (inl f) same = limit-Limited m k _ (inl (f.0, same ∙ f.1, f.2))
  deflated-Limited m k r (some c) (inr f) same = limit-Limited m k _ (inr (f.0, same ∙ f.1, f.2))

  pack-Limited :
      (m k : ℕ) (now u : D) (r : NewRenoConn D)
      → Free m k r ⊎ Limited m k r
      → Each (Limited m k) (pack_action_newreno now u r)
  unfolding pack_action_newreno
  pack-Limited m k now u r h =
      deflated-Limited m k r _ h (fast_retransmit-burst now u r.base.tcp.highest_ack r.base)

  ack-Free :
      (m k : ℕ) (r : NewRenoConn D) → Free m k r ⊎ Limited m k r → Free m k (ack_action_newreno r)
  unfolding ack_action_newreno
  ack-Free m k r h =
      let f = restore-Free m k r h in (f.0, pack_action-burst (restore_burst r).base ∙ f.1, f.2)

  -- Partial acknowledgments, one after another, at these times and with these random numbers.
  unfoldable pub packs : List (D × D) → NewRenoConn D → Option (NewRenoConn D)
  packs [] r = some r
  packs (x ∷ xs) r = after_pack (packs xs) (pack_action_newreno x.0 x.1 r)

  packs-Limited :
      (m k : ℕ) (xs : List (D × D)) (r : NewRenoConn D)
      → Limited m k r
      → Each (Limited m k) (packs xs r)
  unfolding packs
  packs-Limited m k [] r h = h
  packs-Limited m k (x ∷ xs) r h =
      Each-after (Limited m k) (Limited m k) (packs xs) (pack_action_newreno x.0 x.1 r)
        (λ e f. packs-Limited m k xs e f) (pack-Limited m k x.0 x.1 r (inr h))

  -- From outside a recovery with the limit `m`: the limit within a recovery is `recov_maxburst_`
  -- from the first partial acknowledgment on, however many there are, and where they return, the
  -- full acknowledgment puts `m` in force again.
  pub newreno-burst :
      (m : ℕ) (x : D × D) (xs : List (D × D)) (r : NewRenoConn D)
      → r.save_maxburst ≡ minus_one
      → r.base.maxburst ≡ m
      → Each
          (λ e. Limited m r.recov_maxburst e × Free m r.recov_maxburst (ack_action_newreno e))
          (packs (x ∷ xs) r)
  unfolding packs
  newreno-burst m x xs r free at =
      let k = r.recov_maxburst in
      Each-after (Limited m k) (λ e. Limited m k e × Free m k (ack_action_newreno e)) (packs xs)
        (pack_action_newreno x.0 x.1 r)
        (λ e f.
          Each-map (Limited m k) (λ t. Limited m k t × Free m k (ack_action_newreno t)) (packs xs e)
            (λ t g. (g, ack-Free m k t (inr g))) (packs-Limited m k xs e f))
        (pack-Limited m k x.0 x.1 r (inl (free, at, refl)))
