-- ===== src/Decimal.antt =====
-- `rust_decimal::Decimal` is a third-party type: a type `Q` with an interface. A decimal stands for
-- a whole number of units of 10^-28, the finest that the type holds, and the crate compares decimals
-- by that number. What its rounding arithmetic promises is the record `IsLawful`.
use pg_tsy_core_bootstrap.Prelude.{
  Ord, sym, ◌∙◌, int_laws, ℕ, ◌+◌, ◌*◌, ◌^◌, ◌≤◌, ◌<◌, ◌≡◌, Bool, true, false, Option, some, arith,
  Ordering, if◌then◌else◌, ℤ, pos, pos_part, neg_part, ◌+ℤ◌, ◌-ℤ◌, neg_ℤ, ◌≤ℤ◌, ◌<ℤ◌, compare_ℤ,
}
use mathlib.Core.Path.{subst}

pub record Decimal (Q : Type 0) : Type 0 where
  pub units : Q → ℤ
  pub zero : Q
  pub add : Q → Q → Q
  pub sub : Q → Q → Q
  pub neg : Q → Q
  pub abs : Q → Q
  pub one : Q
  pub mul : Q → Q → Q
  pub div : Q → Q → Q
  pub checked_add : Q → Q → Option Q

-- A number of units that a mantissa of 96 bits at a scale of at most 28 holds without rounding.
abbrev pub Fits : ℤ → Type 0
Fits z = (m : ℕ) × (k : ℕ) × (m < 2 ^ 96) × (k ≤ 28) × (pos_part z + neg_part z ≡ m * 10 ^ k)

-- The documented arithmetic: exact where the exact result can be held.
pub record IsLawful {Q : Type 0} (d : Decimal Q) : Type 0 where
  pub units_zero : d.units d.zero ≡ pos 0
  pub units_neg : (a : Q) → d.units (d.neg a) ≡ neg_ℤ (d.units a)
  pub units_abs : (a : Q) → d.units (d.abs a) ≡ pos (pos_part (d.units a) + neg_part (d.units a))
  pub units_add :
      (a b : Q) → Fits (d.units a +ℤ d.units b) → d.units (d.add a b) ≡ d.units a +ℤ d.units b
  pub units_sub :
      (a b : Q) → Fits (d.units a -ℤ d.units b) → d.units (d.sub a b) ≡ d.units a -ℤ d.units b
  pub units_checked_add :
      (a b : Q)
      → Fits (d.units a +ℤ d.units b)
      → (c : Q) × (d.checked_add a b ≡ some c) × (d.units c ≡ d.units a +ℤ d.units b)

module _ {Q : Type 0} ⦃d : Decimal Q⦄ where
  open d use {units}

  abbrev pub lt : Q → Q → Bool
  lt a b = elim (compare_ℤ (units a) (units b)) [ Ordering.lt ↦ true | _ ↦ false ]

  abbrev pub le : Q → Q → Bool
  le a b = elim (compare_ℤ (units a) (units b)) [ Ordering.gt ↦ false | _ ↦ true ]

  abbrev pub same : Q → Q → Bool
  same a b = elim (compare_ℤ (units a) (units b)) [ Ordering.eq ↦ true | _ ↦ false ]

  abbrev pub is_zero : Q → Bool
  is_zero a = same a d.zero

  -- `Ord::min` and `Ord::max`, which prefer the first and the second of two equal values.
  abbrev pub min : Q → Q → Q
  min a b = if lt b a then b else a

  abbrev pub max : Q → Q → Q
  max a b = if lt b a then a else b

  -- The value as a statement.
  infix 50 ◌≼◌ ◌≺◌ ◌≈◌
  abbrev pub ◌≼◌ : Q → Q → Type 0
  a ≼ b = units a ≤ℤ units b

  abbrev pub ◌≺◌ : Q → Q → Type 0
  a ≺ b = units a <ℤ units b

  -- Numerically equal, as the crate's `==`.
  abbrev pub ◌≈◌ : Q → Q → Type 0
  a ≈ b = pos_part (units a) + neg_part (units b) ≡ pos_part (units b) + neg_part (units a)

  abbrev pub cmp_q : Q → Q → Ordering
  cmp_q a b = compare_ℤ (units a) (units b)

  pub cmp_q_refl : (a : Q) → cmp_q a a ≡ Ordering.eq
  cmp_q_refl a = ground arith

  pub ≼_trans : (a b c : Q) → a ≼ b → b ≼ c → a ≼ c
  ≼_trans a b c h k = omega arith

  pub min-le_left : (a b : Q) → min a b ≼ a
  min-le_left a b = ground arith

  pub min-le_right : (a b : Q) → min a b ≼ b
  min-le_right a b = ground arith

  -- A chain of minima lies below each of its members.
  pub min_chain :
      (a b c e : Q) → let m = min (min (min a b) c) e in (m ≼ a) × (m ≼ b) × (m ≼ c) × (m ≼ e)
  min_chain a b c e =
      let ab = min a b in
      let abc = min ab c in
      let m = min abc e in
      let to_abc = min-le_left abc e in
      let to_ab = ≼_trans m abc ab to_abc (min-le_left ab c) in
      (
        ≼_trans m ab a to_ab (min-le_left a b),
        ≼_trans m ab b to_ab (min-le_right a b),
        ≼_trans m abc c to_abc (min-le_right ab c),
        min-le_right abc e,
      )

  -- A decimal less an equal one is zero.
  pub units-sub_self : (a b : Q) → IsLawful d → a ≈ b → units (d.sub a b) ≡ pos 0
  units-sub_self a b lawful h =
      let exact : units a -ℤ units b ≡ pos 0 = omega int_laws in
      let nothing : Fits (pos 0) = (0, 0, omega arith, omega arith, omega arith) in
      lawful.units_sub a b (subst Fits (sym exact) nothing) ∙ exact

module _ {Q : Type 0} ⦃d : Decimal Q⦄ where
  pub cmp_q_left : (a b c : Q) → cmp_q a b ≡ Ordering.eq → cmp_q a c ≡ cmp_q b c
  cmp_q_left a b c h = ground arith

  pub cmp_q_right : (a b c : Q) → cmp_q b c ≡ Ordering.eq → cmp_q a b ≡ cmp_q a c
  cmp_q_right a b c h = ground arith

  pub cmp_q-lt_of_gt : (a b : Q) → cmp_q a b ≡ Ordering.gt → cmp_q b a ≡ Ordering.lt
  cmp_q-lt_of_gt a b h = ground arith

  pub cmp_q-gt_of_lt : (a b : Q) → cmp_q a b ≡ Ordering.lt → cmp_q b a ≡ Ordering.gt
  cmp_q-gt_of_lt a b h = ground arith

  pub cmp_q_trans :
      (a b c : Q) → cmp_q a b ≡ Ordering.lt → cmp_q b c ≡ Ordering.lt → cmp_q a c ≡ Ordering.lt
  cmp_q_trans a b c h k = ground arith

  -- Decimals as keys of a map.
  instance abbrev pub decimal_ord : Ord Q
  decimal_ord = record {
    cmp = cmp_q;
    cmp_refl = cmp_q_refl;
    cmp_eq_left = cmp_q_left;
    cmp_eq_right = cmp_q_right;
    lt_of_gt = cmp_q-lt_of_gt;
    gt_of_lt = cmp_q-gt_of_lt;
    lt_trans = cmp_q_trans;
  }
