-- ===== src/Base/Results.antt =====
-- What a function of the tools returns beside an error: the value, or the error that is not nil.
pub data Result (E A : Type 0) : Type 0 where
  ok : A → Result E A
  err : E → Result E A
