-- ===== src/Plotter/Floats.antt =====
-- The floating-point functions that app/services/plt_parser.py uses, as an argument.
use plt_converter.Prelude.{ℕ, Bool, Option, List}
use plt_converter.Seams.Arithmetic.{Arithmetic}

-- int(x): the pen that a number selects.
pub data Pen : Type 0 where
  pen below_zero : ℕ → Pen

pub record Floats (F : Type 0) : Type 0 where
  pub base : Arithmetic F
  -- float(token), `none` where it raises ValueError
  pub number : List ℕ → Option F
  pub is_finite : F → Bool
  pub is_integer : F → Bool
  pub truncate : F → Pen
  pub ceiling : F → ℕ
  pub floor : F → F
  pub round : F → F
  pub pi : F
  pub cos : F → F
  pub sin : F → F
  pub asin : F → F
  pub atan2 : F → F → F
  pub sqrt : F → F
  pub hypot : F → F → F
  pub radians : F → F
  pub degrees : F → F
