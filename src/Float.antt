-- ===== src/Float.antt =====
-- Rust's `f64`, as a type with the comparisons and the signs that the program uses. antt has no
-- floats, and no law of them is assumed: a comparison may be false both ways, as with NaN.
use pg_tsy_core_bootstrap.Prelude.{Bool}

pub record Float (F : Type 0) : Type 0 where
  pub zero : F
  pub one : F
  pub le : F → F → Bool
  pub lt : F → F → Bool
  pub eq : F → F → Bool
  pub neg : F → F
  pub abs : F → F
  pub is_finite : F → Bool
