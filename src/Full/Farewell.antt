-- ===== src/Full/Farewell.antt =====
-- What a connection of tcp/tcp-full.cc that has sent its FIN still waits for, as its state says it.
use mathlib.Core.Option
use tcpincast.Base.{
  ℕ, leb, ◌≡◌, refl, sym, ap, ap₂, Bool, true, false, not, ◌&&◌, ◌||◌, Option, none, some, arith,
}
use tcpincast.Full.Data.{
  State, closed, listen, syn_sent, syn_received, established, close_wait, fin_wait_1, closing,
  last_ack, fin_wait_2, number, is_state, opens, Conn,
}
use tcpincast.Full.Pass.{Ended}
use tcpincast.Full.Loop.{Unlimited}
use tcpincast.Full.Expected.{or_false}
use tcpincast.Full.Reass.{on_fin, havercvdfin}
use tcpincast.Full.Arrive.{Verdict, runs, halts}

-- What a closing connection still waits for: whether its own FIN is acknowledged, and whether the
-- peer's FIN has come.
pub record Closing : Type 0 where
  pub acked : Bool
  pub heard : Bool

-- The states after this side has sent its FIN.
unfoldable pub view : State → Option Closing
view fin_wait_1 = some (record { acked = false; heard = false })
view fin_wait_2 = some (record { acked = true; heard = false })
view closing = some (record { acked = false; heard = true })
view last_ack = some (record { acked = false; heard = true })
view closed = some (record { acked = true; heard = true })
view _ = none

abbrev heard_of : Option Closing → Bool
heard_of none = false
heard_of (some v) = v.heard

abbrev pub acked_of : Option Closing → Bool
acked_of none = false
acked_of (some v) = v.acked

-- An acknowledgment of the FIN, and a FIN.
abbrev pub closer : Bool → Bool → Closing → Closing
closer acks fin v = record { acked = v.acked || acks; heard = v.heard || fin }

-- The state that a call leaves, where it returns. In LAST_ACK the program may stop, in `reset`.
module _ {D : Type 0} (fuel b : ℕ) (s : State) (v : Closing) where
  abbrev pub Closes : Verdict D → Type 0
  Closes (runs r) = Ended (Unlimited fuel b) (λ e. view e.state ≡ some v) r
  Closes (halts o) = s ≡ last_ack

pub view-settled :
    (s : State) (v : Closing)
    → view s ≡ some v
    → (opens s ≡ false) × (is_state s close_wait ≡ false)
unfolding view opens is_state
view-settled closed v h = (refl, refl)
view-settled listen v h = cc
view-settled syn_sent v h = cc
view-settled syn_received v h = cc
view-settled established v h = cc
view-settled close_wait v h = cc
view-settled fin_wait_1 v h = (refl, refl)
view-settled closing v h = (refl, refl)
view-settled last_ack v h = (refl, refl)
view-settled fin_wait_2 v h = (refl, refl)

pub finished : (s : State) (v : Closing) → view s ≡ some v → havercvdfin s ≡ true → v.heard ≡ true
unfolding view havercvdfin
finished closed v h k = sym (ap heard_of h)
finished listen v h k = cc
finished syn_sent v h k = cc
finished syn_received v h k = cc
finished established v h k = cc
finished close_wait v h k = cc
finished fin_wait_1 v h k = cc
finished closing v h k = sym (ap heard_of h)
finished last_ack v h k = cc
finished fin_wait_2 v h k = cc

-- The peer's FIN.
pub on_fin-view :
    (s : State) (v : Closing) → view s ≡ some v → view (on_fin s) ≡ some (closer false true v)
unfolding view on_fin
on_fin-view closed v h = ap (Option.map (closer false true)) h
on_fin-view listen v h = cc
on_fin-view syn_sent v h = cc
on_fin-view syn_received v h = cc
on_fin-view established v h = cc
on_fin-view close_wait v h = cc
on_fin-view fin_wait_1 v h = ap (Option.map (closer false true)) h
on_fin-view closing v h = ap (Option.map (closer false true)) h
on_fin-view last_ack v h = ap (Option.map (closer false true)) h
on_fin-view fin_wait_2 v h = ap (Option.map (closer false true)) h

-- A FIN that comes again changes nothing, nor does no FIN.
pub closer-same : (fin : Bool) (v : Closing) → not fin || v.heard ≡ true → closer false fin v ≡ v
closer-same fin v h =
    ap₂ (λ a b. record { acked = a; heard = b }) (or_false v.acked) (ground (arith, h))

pub closer-then :
    (fin : Bool) (v : Closing) → closer false fin (closer true false v) ≡ closer true fin v
closer-then fin v =
    ap₂ (λ a b. record { acked = a; heard = b }) (or_false (v.acked || true))
      (ap (λ x. x || fin) (or_false v.heard))

pub first : (a b : Bool) → a && b ≡ true → a ≡ true
first a b h = ground arith

pub second : (a b : Bool) → a && b ≡ true → b ≡ true
second a b h = ground arith

-- Where no acknowledgment counts: there is none, or the connection is closed.
early : (s : State) (v : Closing) → view s ≡ some v → leb 6 (number s) ≡ false → v.acked ≡ true
unfolding view number
early closed v h k = sym (ap acked_of h)
early listen v h k = cc
early syn_sent v h k = cc
early syn_received v h k = cc
early established v h k = cc
early close_wait v h k = cc
early fin_wait_1 v h k = cc
early closing v h k = cc
early last_ack v h k = cc
early fin_wait_2 v h k = cc

pub closer-acked :
    (fin : Bool) (v : Closing) → v.acked ≡ true → closer false fin v ≡ closer true fin v
closer-acked fin v h = ap₂ (λ a b. record { acked = a; heard = b }) (ground (arith, h)) refl

pub unseen :
    (fin acks : Bool) (s : State) (v : Closing)
    → view s ≡ some v
    → leb 6 (number s) && acks ≡ false
    → closer false fin v ≡ closer acks fin v
unseen fin false s v h e = refl
unseen fin true s v h e = closer-acked fin v (early s v h (ground (arith, e)))

pub again :
    {D : Type 0} (long fin : Bool) (v : Closing) (c : Conn D)
    → view c.state ≡ some v
    → (long || fin) && not (havercvdfin c.state) ≡ false
    → not fin || v.heard ≡ true
again long false v c h e = refl
again long true v c h e = finished c.state v h (ground (arith, e))
