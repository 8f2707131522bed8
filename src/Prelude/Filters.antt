-- ===== src/Prelude/Filters.antt =====
-- A map filtered by its values, where one entry is left.
use Prim.Native.Nat.{Ordering}
use mathlib.Core.Path.{◌≡◌}
use mathlib.Core.List.{[], ◌∷◌}
use mathlib.Core.Bool.{Bool, false}
use mathlib.Core.Option.{some}
use native.Mathlib.Omega.{arith}
use pg_tsy_core_bootstrap.Prelude.Lists.{filter}
use pg_tsy_core_bootstrap.Prelude.Maps.{Ord, BTreeMap, same_key, get, Above, IsAscending}

module _ {ℓ κ} {K : Type ℓ} {V : Type κ} ⦃o : Ord K⦄ (p : V → Bool) where
  get-Above :
      (b k : K) (v : V) (m : BTreeMap K V) → Above b m → get k m ≡ some v → o.cmp b k ≡ Ordering.lt
  unfolding get
  get-Above b k v [] above found = ground (arith, found)
  get-Above b k v ((j, w) ∷ m) above found = ground (arith, get-Above b k v m, o.cmp_eq_right b k j)

  -- A filter that leaves one entry leaves the entry that the map has at its key.
  pub get-sole :
      (k : K) (v : V) (m : BTreeMap K V)
      → IsAscending m
      → filter (λ (e : K × V). p e.1) m ≡ (k, v) ∷ []
      → get k m ≡ some v
  unfolding get
  get-sole k v [] ascending sole = ground (arith, sole)
  get-sole k v ((j, w) ∷ m) ascending sole = ground (
    arith,
    get-sole k v m,
    get-Above j k v m,
    o.cmp_refl k,
    o.cmp_eq_right j k j,
    o.cmp_refl j,
    o.gt_of_lt j k,
  )

  get-empty :
      (t : K) (y : V) (m : BTreeMap K V)
      → filter (λ (e : K × V). p e.1) m ≡ []
      → get t m ≡ some y
      → p y ≡ false
  unfolding get
  get-empty t y [] sole found = ground (arith, found)
  get-empty t y ((j, w) ∷ m) sole found = ground (arith, get-empty t y m)

  -- At every other key the map has nothing, or a value that the filter drops.
  pub get-other :
      (k t : K) (v y : V) (m : BTreeMap K V)
      → filter (λ (e : K × V). p e.1) m ≡ (k, v) ∷ []
      → same_key t k ≡ false
      → get t m ≡ some y
      → p y ≡ false
  unfolding get
  get-other k t v y [] sole differs found = ground (arith, sole)
  get-other k t v y ((j, w) ∷ m) sole differs found =
      ground (arith, get-other k t v y m, get-empty t y m)
