-- ===== src/Types/Keys.antt =====
-- `AssetKey` as a key of a `BTreeMap`: the derived order is by venue, then by asset.
use Prim.Native.Nat.{compare, Ordering}
use Prim.Native.Nat.Ordering.{lt, eq, gt}
use pg_tsy_core_bootstrap.Prelude.{
  ◌≡◌, arith, string_ord, string_eq, Ord, same_key, ◌==◌, number_left, number_right,
  number_lt_of_gt, number_gt_of_lt, number_lt_trans,
}
use pg_tsy_core_bootstrap.Types.Defs.{AssetKey, Venue, venue_code, asset_key_eq}

abbrev pub venue_cmp : Venue → Venue → Ordering
venue_cmp a b = compare (venue_code a) (venue_code b)

pub venue_cmp_refl : (a : Venue) → venue_cmp a a ≡ eq
venue_cmp_refl a = ground arith

-- The derived order of `Venue`.
instance abbrev pub venue_ord : Ord Venue
venue_ord = record {
  cmp = venue_cmp;
  cmp_refl = venue_cmp_refl;
  cmp_eq_left = λ a b c. number_left (venue_code a) (venue_code b) (venue_code c);
  cmp_eq_right = λ a b c. number_right (venue_code a) (venue_code b) (venue_code c);
  lt_of_gt = λ a b. number_lt_of_gt (venue_code a) (venue_code b);
  gt_of_lt = λ a b. number_gt_of_lt (venue_code a) (venue_code b);
  lt_trans = λ a b c. number_lt_trans (venue_code a) (venue_code b) (venue_code c);
}

abbrev pub lex : Ordering → Ordering → Ordering
lex eq second = second
lex first _ = first

abbrev pub key_cmp : AssetKey → AssetKey → Ordering
key_cmp a b =
    lex (compare (venue_code a.venue) (venue_code b.venue)) (string_ord.cmp a.asset b.asset)

pub key_cmp_refl : (a : AssetKey) → key_cmp a a ≡ eq
key_cmp_refl a = ground (arith, string_ord.cmp_refl a.asset)

pub key_cmp_left : (a b c : AssetKey) → key_cmp a b ≡ eq → key_cmp a c ≡ key_cmp b c
key_cmp_left a b c h = ground (arith, string_ord.cmp_eq_left a.asset b.asset c.asset)

pub key_cmp_right : (a b c : AssetKey) → key_cmp b c ≡ eq → key_cmp a b ≡ key_cmp a c
key_cmp_right a b c h = ground (arith, string_ord.cmp_eq_right a.asset b.asset c.asset)

pub key_lt_of_gt : (a b : AssetKey) → key_cmp a b ≡ gt → key_cmp b a ≡ lt
key_lt_of_gt a b h = ground (arith, string_ord.lt_of_gt a.asset b.asset)

pub key_gt_of_lt : (a b : AssetKey) → key_cmp a b ≡ lt → key_cmp b a ≡ gt
key_gt_of_lt a b h = ground (arith, string_ord.gt_of_lt a.asset b.asset)

pub key_lt_trans : (a b c : AssetKey) → key_cmp a b ≡ lt → key_cmp b c ≡ lt → key_cmp a c ≡ lt
key_lt_trans a b c h k = ground (arith, string_ord.lt_trans a.asset b.asset c.asset)

instance abbrev pub asset_key_ord : Ord AssetKey
asset_key_ord = record {
  cmp = key_cmp;
  cmp_refl = key_cmp_refl;
  cmp_eq_left = key_cmp_left;
  cmp_eq_right = key_cmp_right;
  lt_of_gt = key_lt_of_gt;
  gt_of_lt = key_gt_of_lt;
  lt_trans = key_lt_trans;
}

pub same_key_eq : (a b : AssetKey) → same_key a b ≡ (a == b)
same_key_eq a b = ground arith
