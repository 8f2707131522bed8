-- ===== src/Composite/Merge.antt =====
-- What the merge of the children's open orders keeps of each of them.
use Prim.Native.String.{◌++◌ as str_append}
use pg_tsy_core_bootstrap.Prelude.{
  Memᴰ, arith, String, true, Option, none, some, ok, List, [], ◌∷◌, BTreeMap, get, insert,
  get-insert, All, ◌≡◌, refl, string_eq, option_eq, ◌==◌, ==_refl, string_ord, same_key_eq,
  unwrap_or, ◌⊎◌, inl, inr, sym, ap, ◌∙◌, Bool-cases,
}
use pg_tsy_core_bootstrap.Decimal.{Decimal, cmp_q_refl, ◌≈◌}
use pg_tsy_core_bootstrap.Execution.{VenueOrderSnapshot, venue_state_eq}
use pg_tsy_core_bootstrap.Composite.{order_key, agree, merge_orders}

module _ {Q : Type 0} ⦃d : Decimal Q⦄ where
  -- The key of an order: its client id, or `venue:` and its venue id where it has none.
  abbrev pub key_text : VenueOrderSnapshot Q → String
  key_text order = unwrap_or order.client_order_id (str_append "venue:" order.venue_order_id)

  -- Two snapshots say the same of an order.
  pub record IsAgreed (a b : VenueOrderSnapshot Q) : Type 0 where
    pub same_asset : a.asset ≡ b.asset
    pub same_requested : a.requested_quantity ≈ b.requested_quantity
    pub same_filled : a.filled_quantity ≈ b.filled_quantity
    pub same_state : a.state ≡ b.state

  -- The map has, at the order's key, a snapshot that says the same of it.
  abbrev pub IsRepresented : BTreeMap String (VenueOrderSnapshot Q) → VenueOrderSnapshot Q → Type 0
  IsRepresented unique order =
      (kept : VenueOrderSnapshot Q) × (get (key_text order) unique ≡ some kept)
      × IsAgreed kept order

  -- The map holds, at their keys, what the map before held and some of the orders, and no more.
  abbrev pub IsFrom :
      List (VenueOrderSnapshot Q)
      → BTreeMap String (VenueOrderSnapshot Q)
      → BTreeMap String (VenueOrderSnapshot Q)
      → Type 0
  IsFrom orders unique merged =
      (key : String) (kept : VenueOrderSnapshot Q)
      → get key merged ≡ some kept
      → (get key unique ≡ some kept) ⊎ (Memᴰ kept orders × (key_text kept ≡ key))

  order_key-key_text : (order : VenueOrderSnapshot Q) → order_key order ≡ key_text order
  unfolding order_key
  order_key-key_text order = ground arith

  agree-IsAgreed : (a b : VenueOrderSnapshot Q) → agree a b ≡ true → IsAgreed a b
  unfolding agree
  agree-IsAgreed a b h = record {
    same_asset = ground (arith, string_eq.beq_iff a.asset b.asset);
    same_requested = ground arith;
    same_filled = ground arith;
    same_state = ground (arith, venue_state_eq.beq_iff a.state b.state);
  }

  IsAgreed-refl : (order : VenueOrderSnapshot Q) → IsAgreed order order
  IsAgreed-refl order = record {
    same_asset = refl;
    same_requested = ground (arith, cmp_q_refl order.requested_quantity);
    same_filled = ground (arith, cmp_q_refl order.filled_quantity);
    same_state = refl;
  }

  -- What the map had, it still has.
  kept_by_merge :
      (orders : List (VenueOrderSnapshot Q))
      (unique merged : BTreeMap String (VenueOrderSnapshot Q)) (key : String)
      (kept : VenueOrderSnapshot Q)
      → merge_orders orders unique ≡ ok merged
      → get key unique ≡ some kept
      → get key merged ≡ some kept
  unfolding merge_orders
  kept_by_merge [] unique merged key kept done had = ground (arith, done)
  kept_by_merge (order ∷ orders) unique merged key kept done had = ground (
    arith,
    kept_by_merge orders unique merged key kept,
    kept_by_merge orders (insert (order_key order) order unique) merged key kept,
    get-insert (order_key order) key order unique,
    same_key_eq (order_key order) key,
    string_eq.beq_iff (order_key order) key,
  )

  -- The map with which the loop goes on has the order.
  first_merged :
      (order : VenueOrderSnapshot Q) (orders : List (VenueOrderSnapshot Q))
      (unique merged : BTreeMap String (VenueOrderSnapshot Q))
      (found : Option (VenueOrderSnapshot Q))
      → get (order_key order) unique ≡ found
      → merge_orders (order ∷ orders) unique ≡ ok merged
      → (next : BTreeMap String (VenueOrderSnapshot Q)) × (merge_orders orders next ≡ ok merged)
        × IsRepresented next order
  unfolding merge_orders
  first_merged order orders unique merged none searched done = (
    insert (order_key order) order unique,
    ground (arith, searched, done),
    (
      order,
      ground (
        arith,
        order_key-key_text order,
        get-insert (order_key order) (order_key order) order unique,
        same_key_eq (order_key order) (order_key order),
        ==_refl (order_key order),
      ),
      IsAgreed-refl order,
    ),
  )
  first_merged order orders unique merged (some existing) searched done =
      let (rest, agreed) : (merge_orders orders unique ≡ ok merged)
          × (agree existing order ≡ true) =
        ground (arith, searched, done) in
      (
        unique,
        rest,
        (
          existing,
          ground (arith, order_key-key_text order, searched),
          agree-IsAgreed existing order agreed,
        ),
      )

  merged-All :
      (orders : List (VenueOrderSnapshot Q))
      (unique merged : BTreeMap String (VenueOrderSnapshot Q))
      → merge_orders orders unique ≡ ok merged
      → All (IsRepresented merged) orders
  unfolding merge_orders
  merged-All [] unique merged done = tt
  merged-All (order ∷ orders) unique merged done =
      let (next, rest, (kept, had, agreed)) =
        first_merged order orders unique merged (get (order_key order) unique) refl done in
      (
        (kept, kept_by_merge orders next merged (key_text order) kept rest had, agreed),
        merged-All orders next merged rest,
      )

  -- What an insertion adds to a map is the order, at its key.
  inserted-IsFrom :
      (order : VenueOrderSnapshot Q) (unique : BTreeMap String (VenueOrderSnapshot Q))
      (key : String) (kept : VenueOrderSnapshot Q)
      → get key (insert (order_key order) order unique) ≡ some kept
      → (get key unique ≡ some kept) ⊎ ((kept ≡ order) × (key_text kept ≡ key))
  inserted-IsFrom order unique key kept had = elim (Bool-cases (order_key order == key)) [
    | inl here ↦
        let found : order ≡ kept = ground (
          arith,
          had,
          get-insert (order_key order) key order unique,
          same_key_eq (order_key order) key,
        ) in
        inr (
          sym found,
          ap key_text (sym found)
              ∙ sym (order_key-key_text order)
              ∙ ground (arith, string_eq.beq_iff (order_key order) key),
        )
    | inr elsewhere ↦ inl (
        ground (
          arith,
          had,
          get-insert (order_key order) key order unique,
          same_key_eq (order_key order) key,
        ))
  ]

  more_IsFrom :
      (order : VenueOrderSnapshot Q) (orders : List (VenueOrderSnapshot Q))
      (unique merged : BTreeMap String (VenueOrderSnapshot Q))
      → IsFrom orders unique merged
      → IsFrom (order ∷ orders) unique merged
  more_IsFrom order orders unique merged h key kept had = elim (h key kept had) [
    | inl before ↦ inl before
    | inr (among, named) ↦ inr (Memᴰ.tail among, named)
  ]

  next_IsFrom :
      (order : VenueOrderSnapshot Q) (orders : List (VenueOrderSnapshot Q))
      (unique merged : BTreeMap String (VenueOrderSnapshot Q))
      → IsFrom orders (insert (order_key order) order unique) merged
      → IsFrom (order ∷ orders) unique merged
  next_IsFrom order orders unique merged h key kept had = elim (h key kept had) [
    | inr (among, named) ↦ inr (Memᴰ.tail among, named)
    | inl inserted ↦ elim (inserted-IsFrom order unique key kept inserted) [
      | inl before ↦ inl before
      | inr (same_order, named) ↦ inr (Memᴰ.head same_order, named)
    ]
  ]

  -- The loop goes on with the map as it is, or with the order put in.
  next_merged :
      (order : VenueOrderSnapshot Q) (orders : List (VenueOrderSnapshot Q))
      (unique merged : BTreeMap String (VenueOrderSnapshot Q))
      (found : Option (VenueOrderSnapshot Q))
      → get (order_key order) unique ≡ found
      → merge_orders (order ∷ orders) unique ≡ ok merged
      → (merge_orders orders unique ≡ ok merged)
        ⊎ (merge_orders orders (insert (order_key order) order unique) ≡ ok merged)
  unfolding merge_orders
  next_merged order orders unique merged none searched done = inr (ground (arith, searched, done))
  next_merged order orders unique merged (some existing) searched done =
      inl (ground (arith, searched, done))

  merged-IsFrom :
      (orders : List (VenueOrderSnapshot Q))
      (unique merged : BTreeMap String (VenueOrderSnapshot Q))
      → merge_orders orders unique ≡ ok merged
      → IsFrom orders unique merged
  unfolding merge_orders
  merged-IsFrom [] unique merged done = λ key kept had. inl (ground (arith, done, had))
  merged-IsFrom (order ∷ orders) unique merged done =
      elim (next_merged order orders unique merged (get (order_key order) unique) refl done) [
        | inl rest ↦
            more_IsFrom order orders unique merged (merged-IsFrom orders unique merged rest)
        | inr rest ↦
            next_IsFrom order orders unique merged
              (merged-IsFrom orders (insert (order_key order) order unique) merged rest)
      ]

  -- Where the orders of a child merge without a conflict: for every one of them the merged map has,
  -- at its client id or else at `venue:` and its venue id, a snapshot with its asset, quantities and
  -- state; what the map held before, it still holds; and every snapshot that it holds was in the map
  -- before or is one of these orders, at its own key.
  pub merge_orders-IsRepresented :
      (orders : List (VenueOrderSnapshot Q))
      (unique merged : BTreeMap String (VenueOrderSnapshot Q))
      → merge_orders orders unique ≡ ok merged
      → All (IsRepresented merged) orders
        × ((key : String) (kept : VenueOrderSnapshot Q)
            → get key unique ≡ some kept
            → get key merged ≡ some kept)
        × IsFrom orders unique merged
  merge_orders-IsRepresented orders unique merged done = (
    merged-All orders unique merged done,
    λ key kept had. kept_by_merge orders unique merged key kept done had,
    merged-IsFrom orders unique merged done,
  )
