-- ===== src/Float.antt =====
-- Go's float64, of which the model uses the operations below. The type and the operations are a
-- parameter; `decimal m k` is the literal m / 10^k.
use chainplane.Prelude.{ℕ, String, Bool, Option}

pub record Float (F : Type 0) : Type 0 where
  pub decimal : ℕ → ℕ → F
  pub is_zero : F → Bool
  pub greater : F → F → Bool
  pub at_least : F → F → Bool
  pub minus : F → F → F
  pub times : F → F → F
  pub over : F → F → F
  -- strconv.FormatFloat(v, 'f', k, 64) and strconv.ParseFloat(s, 64)
  pub fixed : ℕ → F → String
  pub parse : String → Option F
  -- the verb %g
  pub show : F → String
  -- int64(v) of a value that is not negative
  pub whole : F → ℕ
