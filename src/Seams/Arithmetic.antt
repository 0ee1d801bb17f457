-- ===== src/Seams/Arithmetic.antt =====
-- The floating-point numbers of Python, as an argument: a type with the operations that the code uses.
use plt_converter.Prelude.{ℕ, Bool}

pub record Arithmetic (F : Type 0) : Type 0 where
  pub of_nat : ℕ → F
  -- A literal: its digits, and how many of them follow the point.
  pub decimal : ℕ → ℕ → F
  pub add : F → F → F
  pub sub : F → F → F
  pub mul : F → F → F
  pub div : F → F → F
  pub magnitude : F → F
  -- round(x, 4)
  pub round4 : F → F
  pub less : F → F → Bool
  pub same : F → F → Bool
