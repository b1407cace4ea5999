-- ===== src/Sink/Window.antt =====
-- The loop of `Acker::update` that takes packets off the left edge of the window.
use tcpincast.Base.{
  ℕ, zero, suc, ◌+◌, ◌-◌, ◌≤◌, ◌<◌, ◌≡◌, ◌≢◌, refl, ◌∙◌, ap, some, arith, Bool-cases, inl, inr,
  ◌==◌, ltb, ==→eq, ==→ne, ltb→lt, ltb→le,
}
use tcpincast.Sink.Acker.{Acker, Delivery, slot, deliver}

-- The bytes of `n` packets from `i` on.
abbrev pub bytes_from : ℕ → ℕ → Acker → ℕ
bytes_from zero i a = 0
bytes_from (suc n) i a = slot a i + bytes_from n (i + 1) a

-- From `d` to `d'`: all packets before `d'.next` were there and are counted, and that one was not.
pub record Delivers (a : Acker) (d d' : Delivery) : Type 0 where
  pub onward : d.next ≤ d'.next
  pub missing : slot a d'.next ≡ 0
  pub there : (j : ℕ) → d.next ≤ j → j < d'.next → slot a j ≢ 0
  pub counted : d'.bytes ≡ d.bytes + bytes_from (d'.next - d.next) d.next a

one-more :
    (a : Acker) (d d' : Delivery)
    → slot a d.next ≢ 0
    → Delivers a (record { bytes = d.bytes + slot a d.next; next = d.next + 1 }) d'
    → Delivers a d d'
one-more a d d' h v = record {
  onward = omega (arith, v.onward);
  missing = v.missing;
  there = λ j p q. elim (Bool-cases (ltb d.next j)) [
    | inl e ↦ v.there j (omega (arith, ltb→lt _ _ e)) q
    | inr e ↦ let same : j ≡ d.next = omega (arith, ltb→le _ _ e) in rw same h
  ];
  counted =
      let n : d'.next - d.next ≡ suc (d'.next - (d.next + 1)) = omega (arith, v.onward) in
      rw n (omega (arith, v.counted));
}

past : (a : Acker) (i z : ℕ) → slot a i ≢ 0 → slot a z ≡ 0 → i ≤ z → i + 1 ≤ z
past a i z f h l = elim (Bool-cases (ltb i z)) [
  | inl e ↦ omega (arith, ltb→lt _ _ e)
  | inr e ↦ let same : i ≡ z = omega (arith, ltb→le _ _ e) in absurd (f (ap (slot a) same ∙ h))
]

-- The loop ends, with as much fuel as there are packets up to one that has not come, and delivers
-- exactly the bytes of the packets before the first such one.
pub deliver-Delivers :
    (fuel : ℕ) (a : Acker) (d : Delivery) (z : ℕ)
    → slot a z ≡ 0
    → d.next ≤ z
    → z < d.next + fuel
    → (d' : Delivery) × (deliver fuel a d ≡ some d') × Delivers a d d'
unfolding deliver
deliver-Delivers zero a d z h l k = absurd (omega arith)
deliver-Delivers (suc fuel) a d z h l k = elim (Bool-cases (slot a d.next == 0)) [
  | inl e ↦ (
    d,
    rw e refl,
    record {
      onward = omega arith;
      missing = ==→eq _ _ e;
      there = λ j p q. absurd (omega arith);
      counted = let n : d.next - d.next ≡ 0 = omega arith in rw n (omega arith);
    },
  )
  | inr e ↦
      let (d', f, v) =
        deliver-Delivers fuel a (record { bytes = d.bytes + slot a d.next; next = d.next + 1 }) z h
          (past a d.next z (==→ne _ _ e) h l) (omega arith) in
      (d', rw e f, one-more a d d' (==→ne _ _ e) v)
]
