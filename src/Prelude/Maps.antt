-- ===== src/Prelude/Maps.antt =====
-- `BTreeMap`: an association list kept in ascending order of its keys.
use Prim.Native.Nat.{ℕ, compare, Ordering}
use Prim.Native.Nat.Ordering.{lt, eq, gt}
use mathlib.Core.Path.{◌≡◌, refl}
use mathlib.Core.List.{List, [], ◌∷◌}
use mathlib.Core.Bool.{Bool, true, false}
use mathlib.Core.Option.{Option, none, some}
use native.Mathlib.Omega.{arith}
use pg_tsy_core_bootstrap.Prelude.Tests.{if◌then◌else◌}
use pg_tsy_core_bootstrap.Prelude.Lists.{All}

-- What the map asks of a key's `cmp`. Keys that compare equal need not be the same value.
pub record Ord {ℓ} (K : Type ℓ) : Type ℓ where
  pub cmp : K → K → Ordering
  pub lt_trans : (i j k : K) → cmp i j ≡ lt → cmp j k ≡ lt → cmp i k ≡ lt
  pub gt_of_lt : (i j : K) → cmp i j ≡ lt → cmp j i ≡ gt
  pub lt_of_gt : (i j : K) → cmp i j ≡ gt → cmp j i ≡ lt
  pub cmp_eq_left : (i j k : K) → cmp i j ≡ eq → cmp i k ≡ cmp j k
  pub cmp_eq_right : (i j k : K) → cmp j k ≡ eq → cmp i j ≡ cmp i k
  pub cmp_refl : (i : K) → cmp i i ≡ eq

abbrev pub BTreeMap {ℓ κ} : Type ℓ → Type κ → Type (ℓ ⊔ κ)
BTreeMap K V = List (K × V)

abbrev pub is_eq : Ordering → Bool
is_eq eq = true
is_eq _ = false

abbrev pub same_key {ℓ} : {K : Type ℓ} ⦃o : Ord K⦄ → K → K → Bool
same_key ⦃o⦄ a b = is_eq (o.cmp a b)

module _ {ℓ κ} {K : Type ℓ} {V : Type κ} ⦃o : Ord K⦄ where
  unfoldable pub get : K → BTreeMap K V → Option V
  get k [] = none
  get k ((j, v) ∷ m) = if same_key k j then some v else get k m

  -- An equal key stays and its value is replaced.
  unfoldable pub insert : K → V → BTreeMap K V → BTreeMap K V
  insert k v [] = (k, v) ∷ []
  insert k v ((j, w) ∷ m) =
      let rest = insert k v m in
      elim (o.cmp k j) [ lt ↦ (k, v) ∷ (j, w) ∷ m | eq ↦ (j, v) ∷ m | gt ↦ (j, w) ∷ rest ]

  unfoldable pub remove : K → BTreeMap K V → BTreeMap K V
  remove k [] = []
  remove k ((j, w) ∷ m) = let rest = remove k m in if same_key k j then rest else (j, w) ∷ rest

  -- `keys().next()` and `keys().next_back()`.
  unfoldable pub first_key : BTreeMap K V → Option K
  first_key [] = none
  first_key ((k, v) ∷ m) = some k

  unfoldable pub last_key : BTreeMap K V → Option K
  last_key [] = none
  last_key ((k, v) ∷ []) = some k
  last_key ((k, v) ∷ e ∷ m) = last_key (e ∷ m)

  pub get-insert :
      (k j : K) (v : V) (m : BTreeMap K V)
      → get j (insert k v m) ≡ (if same_key j k then some v else get j m)
  unfolding get insert
  get-insert k j v [] = refl
  get-insert k j v ((i, w) ∷ m) = ground (
    arith,
    get-insert k j v m,
    o.cmp_eq_right j k i,
    o.cmp_eq_left j k i,
    o.lt_of_gt k i,
    o.gt_of_lt k i,
  )

  pub get-remove :
      (k j : K) (m : BTreeMap K V) → get j (remove k m) ≡ (if same_key j k then none else get j m)
  unfolding get remove
  get-remove k j [] = ground arith
  get-remove k j ((i, w) ∷ m) = ground (
    arith,
    get-remove k j m,
    o.cmp_eq_right j k i,
    o.cmp_eq_left j k i,
    o.cmp_eq_right k j i,
    o.cmp_eq_left k j i,
  )

  -- Every key of the map is above `b`.
  abbrev pub Above : K → BTreeMap K V → Type 0
  Above b m = All (λ e. o.cmp b e.0 ≡ lt) m

  abbrev pub IsAscending : BTreeMap K V → Type 0
  IsAscending [] = Unit
  IsAscending ((k, v) ∷ m) = Above k m × IsAscending m

  Above-trans : (a b : K) (m : BTreeMap K V) → o.cmp a b ≡ lt → Above b m → Above a m
  Above-trans a b [] h s = tt
  Above-trans a b ((k, v) ∷ m) h s = (o.lt_trans a b k h s.0, Above-trans a b m h s.1)

  insert-Above :
      (b k : K) (v : V) (m : BTreeMap K V) → o.cmp b k ≡ lt → Above b m → Above b (insert k v m)
  unfolding insert
  insert-Above b k v [] h s = (h, tt)
  insert-Above b k v ((j, w) ∷ m) h s = ground (arith, insert-Above b k v m)

  remove-Above : (b k : K) (m : BTreeMap K V) → Above b m → Above b (remove k m)
  unfolding remove
  remove-Above b k [] s = tt
  remove-Above b k ((j, w) ∷ m) s = ground (arith, remove-Above b k m)

  pub insert-IsAscending :
      (k : K) (v : V) (m : BTreeMap K V) → IsAscending m → IsAscending (insert k v m)
  unfolding insert
  insert-IsAscending k v [] s = (tt, tt)
  insert-IsAscending k v ((j, w) ∷ m) s =
      ground
        (arith, insert-IsAscending k v m, insert-Above j k v m, o.lt_of_gt k j, Above-trans k j m)

  pub remove-IsAscending : (k : K) (m : BTreeMap K V) → IsAscending m → IsAscending (remove k m)
  unfolding remove
  remove-IsAscending k [] s = tt
  remove-IsAscending k ((j, w) ∷ m) s = ground (arith, remove-IsAscending k m, remove-Above j k m)

-- The laws of `compare` on numbers, for keys that are compared by a number.
pub number_left : (a b c : ℕ) → compare a b ≡ eq → compare a c ≡ compare b c
number_left a b c h = ground arith

pub number_right : (a b c : ℕ) → compare b c ≡ eq → compare a b ≡ compare a c
number_right a b c h = ground arith

pub number_lt_of_gt : (a b : ℕ) → compare a b ≡ gt → compare b a ≡ lt
number_lt_of_gt a b h = ground arith

pub number_gt_of_lt : (a b : ℕ) → compare a b ≡ lt → compare b a ≡ gt
number_gt_of_lt a b h = ground arith

pub number_lt_trans : (a b c : ℕ) → compare a b ≡ lt → compare b c ≡ lt → compare a c ≡ lt
number_lt_trans a b c h k = ground arith
