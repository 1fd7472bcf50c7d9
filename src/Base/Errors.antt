-- ===== src/Base/Errors.antt =====
-- A call that may raise: its value, or the exception.
pub data Result {ℓ κ} (E : Type ℓ) (A : Type κ) : Type (ℓ ⊔ κ) where
  ok : A → Result E A
  err : E → Result E A
