-- ===== src/Common/Result.antt =====
-- A Go `(value, error)`; an error is its text.
use hosting.Common.Text.{Bytes}

pub data Result {ℓ} (A : Type ℓ) : Type ℓ where
  ok : A → Result A
  err : Bytes → Result A
