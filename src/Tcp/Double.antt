-- ===== src/Tcp/Double.antt =====
-- What the senders do with a `double`. The arithmetic of the machine is a parameter; its laws are
-- hypotheses of the theorems that need them.
use tcpincast.Base.{ℤ, Bool, false, ◌≡◌}

-- `of_int` and `to_int` are C's conversions; `below` and `at_most` are `<` and `<=`.
pub record Double (D : Type 0) : Type 0 where
  pub of_int : ℤ → D
  pub to_int : D → ℤ
  pub plus : D → D → D
  pub minus : D → D → D
  pub times : D → D → D
  pub over : D → D → D
  pub below : D → D → Bool
  pub at_most : D → D → Bool
  pub equal : D → D → Bool
  pub fmod : D → D → D
  pub pow : D → D → D
  pub log : D → D
  pub exp : D → D

-- No number is below itself, which holds of NaN too.
pub record IsIrreflexive (D : Type 0) ⦃d : Double D⦄ : Type 0 where
  pub not_below : (x : D) → d.below x x ≡ false
