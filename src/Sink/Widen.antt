-- ===== src/Sink/Widen.antt =====
-- The loop of `Acker::update` that doubles the buffer.
use tcpincast.Base.{
  ℕ, zero, suc, ◌+◌, ◌*◌, ◌≤◌, ◌<◌, ◌≡◌, ◌≢◌, refl, ◌∙◌, ap, sym, ==→eq, eq→==, eq→==, ◌==◌, ◌%◌,
  ◌-◌, ltb, ltb→lt, ltb→le, some, arith, Bool-cases, inl, inr, false, leb→le,
}
use native.Mathlib.Nat.{mod-add-mod, mod-eq_of_lt, mod-eq-sub-mod, mod-lt}
use native.Mathlib.Decide.{dec_lt}
use tcpincast.Sink.Acker.{Acker, too_far, widen, resize_buffers, slot, put, copy}

-- The packets of the window, and the one beyond it, have slots of their own.
abbrev pub Fits : Acker → Type 0
Fits a = a.maxseen + 2 ≤ a.next + a.size

-- `a'` is `a` with a buffer that has room for packet `seq`; what is noted of each packet from
-- `next` to the one after `maxseen` is as it was.
pub record HasRoom (seq : ℕ) (a a' : Acker) : Type 0 where
  pub room : too_far seq a' ≡ false
  pub next : a'.next ≡ a.next
  pub maxseen : a'.maxseen ≡ a.maxseen
  pub size : a.size ≤ a'.size
  pub seen : (i : ℕ) → a.next ≤ i → i < a.maxseen + 2 → slot a' i ≡ slot a i

-- Less than a round apart, two numbers have different places.
mod-apart : (i k sz : ℕ) → 0 < k → k < sz → (i + k) % sz ≢ i % sz
mod-apart i k sz h l e =
    let r = i % sz in
    let small : r < sz = mod-lt i {m = sz} (omega (arith, h, l)) in
    let same : (r + k) % sz ≡ r = mod-add-mod i sz k ∙ e in
    elim (dec_lt (r + k) sz) [
      | yes p ↦ omega (arith, h, same, mod-eq_of_lt p)
      | no p ↦ omega (
        arith,
        l,
        small,
        same,
        mod-eq-sub-mod {n = r + k} {m = sz} (omega (arith, p)),
        mod-eq_of_lt {n = r + k - sz} {m = sz} (omega (arith, small, l, p)),
      )
    ]

-- A write to the slot of another packet.
put_not : (f : ℕ → ℕ) (i j sz v : ℕ) → j < i → i < j + sz → put f (i % sz) v (j % sz) ≡ f (j % sz)
put_not f i j sz v h l = elim (Bool-cases (j % sz == i % sz)) [
  | inl e ↦
      let k = i - j in
      let there : j + k ≡ i = omega (arith, h) in
      absurd (
        mod-apart j k sz (omega (arith, h)) (omega (arith, h, l))
          (ap (λ x. x % sz) there ∙ sym (==→eq _ _ e)))
  | inr e ↦ rw e refl
]

put_self : (f : ℕ → ℕ) (i j sz v : ℕ) → i ≡ j → put f (i % sz) v (j % sz) ≡ v
put_self f i j sz v h = rw (h, eq→== (j % sz) (j % sz) refl) refl

copy_not :
    (n i j sz : ℕ) (a : Acker) (f : ℕ → ℕ)
    → j < i
    → i + n ≤ j + sz
    → copy n i sz a f (j % sz) ≡ f (j % sz)
unfolding copy
copy_not zero i j sz a f h l = refl
copy_not (suc n) i j sz a f h l =
    copy_not n (i + 1) j sz a (put f (i % sz) (slot a i)) (omega (arith, h)) (omega (arith, l))
    ∙ put_not f i j sz (slot a i) h (omega (arith, l))

-- The loop copies the packets from `i` on, where they fit.
copied :
    (n i j sz : ℕ) (a : Acker) (f : ℕ → ℕ)
    → i ≤ j
    → j < i + n
    → n ≤ sz
    → copy n i sz a f (j % sz) ≡ slot a j
unfolding copy
copied zero i j sz a f h l k = absurd (omega (arith, h, l))
copied (suc n) i j sz a f h l k = elim (Bool-cases (ltb i j)) [
  | inl e ↦
      let later = ltb→lt _ _ e in
      copied n (i + 1) j sz a (put f (i % sz) (slot a i)) (omega (arith, later)) (omega (arith, l))
        (omega (arith, k))
  | inr e ↦
      let same : i ≡ j = omega (arith, h, ltb→le _ _ e) in
      copy_not n (i + 1) j sz a (put f (i % sz) (slot a i)) (omega (arith, same))
        (omega (arith, same, k))
      ∙ put_self f i j sz (slot a i) same
      ∙ ap (slot a) same
]

HasRoom-resized :
    (seq sz : ℕ) (a a' : Acker)
    → a.size ≤ sz
    → Fits a
    → HasRoom seq (resize_buffers sz a) a'
    → HasRoom seq a a'
unfolding resize_buffers
HasRoom-resized seq sz a a' h fits v = record {
  room = v.room;
  next = v.next;
  maxseen = v.maxseen;
  size = omega (arith, v.size);
  seen = λ i low high.
      v.seen i low high
      ∙ copied (a.maxseen + 2 - a.next) a.next i sz a (λ _. 0) low (omega (arith, low, high))
          (omega (arith, fits, h));
}

widened :
    (fuel seq : ℕ) (a : Acker)
    → 2 ≤ a.size
    → Fits a
    → 0 < fuel
    → seq + 3 < a.size + fuel
    → (a' : Acker) × (widen fuel seq a ≡ some a') × HasRoom seq a a'
unfolding widen resize_buffers
widened zero seq a h fits f k = absurd (omega arith)
widened (suc fuel) seq a h fits f k = elim (Bool-cases (too_far seq a)) [
  | inl e ↦
      let t = leb→le _ _ e in
      let (a', g, v) =
        widened fuel seq (resize_buffers (a.size * 2) a) (omega arith) (omega (arith, fits))
          (omega (arith, t)) (omega (arith, t)) in
      (a', rw e g, HasRoom-resized seq (a.size * 2) a a' (omega arith) fits v)
  | inr e ↦ (
    a,
    rw e refl,
    record { room = e; next = refl; maxseen = refl; size = omega arith; seen = λ i low high. refl },
  )
]

-- From a buffer of two slots or more that holds the window, `seq + 2` rounds suffice: the buffer
-- that is reached has room for packet `seq`, is no smaller, and holds the same window.
pub widen-HasRoom :
    (seq : ℕ) (a : Acker)
    → 2 ≤ a.size
    → Fits a
    → (a' : Acker) × (widen (seq + 2) seq a ≡ some a') × HasRoom seq a a'
widen-HasRoom seq a h fits = widened (seq + 2) seq a h fits (omega arith) (omega arith)
