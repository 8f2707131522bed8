-- ===== src/Prelude/TextOrder.antt =====
-- Texts as keys of a `BTreeMap`: Rust compares them by their characters' numbers.
use Prim.Native.Nat.{compare as compare_ℕ, Ordering}
use Prim.Native.Nat.Ordering.{lt, eq, gt}
use Prim.Native.Char.{Char, code}
use Prim.Native.String.compare
use Prim.Native.String.{String, compare, then}
use mathlib.Core.Path.{◌≡◌, ap}
use native.Mathlib.Omega.{arith}
use text.Mathlib.TextEquality.{path_by_compare}
use pg_tsy_core_bootstrap.Prelude.Maps.{Ord, same_key}
use pg_tsy_core_bootstrap.Prelude.Tests.{◌==◌, string_eq}

swap : Ordering → Ordering
swap lt = gt
swap eq = eq
swap gt = lt

compare-swap : (s t : String) → compare t s ≡ swap (compare s t)
unfolding swap
compare-swap String.[] String.[] = rw compare.nil-nil
compare-swap String.[] (String.◌∷◌ d t) = rw (compare.nil-cons, compare.cons-nil)
compare-swap (String.◌∷◌ c s) String.[] = rw (compare.nil-cons, compare.cons-nil)
compare-swap (String.◌∷◌ c s) (String.◌∷◌ d t) =
    simp compare.cons-cons (ground (arith, compare-swap s t))

compare_self : (s : String) → compare s s ≡ eq
compare_self String.[] = compare.nil-nil
compare_self (String.◌∷◌ c s) = simp compare.cons-cons (ground (arith, compare_self s))

compare_cons :
    (c d : Char) (s t : String)
    → compare (String.◌∷◌ c s) (String.◌∷◌ d t) ≡ then (compare_ℕ (code c) (code d)) (compare s t)
compare_cons c d s t = λ i. compare.cons-cons c d s t i

nil_ends : (c : Char) (s : String) → ¬ (compare (String.◌∷◌ c s) String.[] ≡ lt)
nil_ends c s h = cc (rw compare.cons-nil at h)

pub compare_trans : (s t u : String) → compare s t ≡ lt → compare t u ≡ lt → compare s u ≡ lt
compare_trans String.[] String.[] u h k = k
compare_trans String.[] (String.◌∷◌ d t) String.[] h k = absurd (nil_ends d t k)
compare_trans String.[] (String.◌∷◌ d t) (String.◌∷◌ e u) h k = λ i. compare.nil-cons e u i
compare_trans (String.◌∷◌ c s) String.[] u h k = absurd (nil_ends c s h)
compare_trans (String.◌∷◌ c s) (String.◌∷◌ d t) String.[] h k = absurd (nil_ends d t k)
compare_trans (String.◌∷◌ c s) (String.◌∷◌ d t) (String.◌∷◌ e u) h k = ground (
  arith,
  compare_cons c d s t,
  compare_cons d e t u,
  compare_cons c e s u,
  compare_trans s t u,
  path_by_compare s t,
  path_by_compare t u,
)

pub string_cmp_refl : (s : String) → compare s s ≡ eq
string_cmp_refl = compare_self

pub string_cmp_left : (a b c : String) → compare a b ≡ eq → compare a c ≡ compare b c
string_cmp_left a b c h = ap (λ x. compare x c) (path_by_compare a b h)

pub string_cmp_right : (a b c : String) → compare b c ≡ eq → compare a b ≡ compare a c
string_cmp_right a b c h = ap (compare a) (path_by_compare b c h)

pub string_lt_of_gt : (a b : String) → compare a b ≡ gt → compare b a ≡ lt
unfolding swap
string_lt_of_gt a b h = ground (arith, compare-swap a b)

pub string_gt_of_lt : (a b : String) → compare a b ≡ lt → compare b a ≡ gt
unfolding swap
string_gt_of_lt a b h = ground (arith, compare-swap a b)

instance abbrev pub string_ord : Ord String
string_ord = record {
  cmp = compare;
  cmp_refl = string_cmp_refl;
  cmp_eq_left = string_cmp_left;
  cmp_eq_right = string_cmp_right;
  lt_of_gt = string_lt_of_gt;
  gt_of_lt = string_gt_of_lt;
  lt_trans = compare_trans;
}

pub same_key_eq : (a b : String) → same_key b a ≡ (a == b)
same_key_eq a b = ground (arith, string_eq.beq_iff a b, path_by_compare b a, string_cmp_refl a)
