-- ===== src/Matching/Coordinator.antt =====
-- `CompositeCoordinator`: the emulation of OCO, OUO and OTO links.
use pg_tsy_core_bootstrap.Prelude.{
  String, Option, none, some, List, [], ◌∷◌, ◌!=◌, string_eq, string_ord, BTreeMap, get, insert,
  unwrap_or, is_some_and, if◌then◌else◌,
}
use pg_tsy_core_bootstrap.Decimal.{Decimal, le, max}
use pg_tsy_core_bootstrap.Types.{Uuid, client_order_id}
use pg_tsy_core_bootstrap.Types.Advanced.{CompositeInstruction, AdvancedOrderIntent}

pub data CompositeAction (Q : Type 0) : Type 0 where
  cancel_peer : String → CompositeAction Q
  resize_peer : String → Q → CompositeAction Q
  activate_child : String → CompositeAction Q

-- `BTreeSet<String>`.
abbrev pub Names : Type 0
Names = BTreeMap String (Unit {0})

pub record CompositeCoordinator (Q : Type 0) : Type 0 where
  pub groups : BTreeMap String Names
  pub instruction_by_client : BTreeMap String CompositeInstruction
  pub quantity_by_client : BTreeMap String Q
  pub children_by_parent : BTreeMap String Names

-- The names under a key; a missing key has none.
abbrev pub names_of : String → BTreeMap String Names → Names
names_of key m = unwrap_or (get key m) []

-- `m.entry(key).or_default().insert(name)`.
unfoldable pub add_name : String → String → BTreeMap String Names → BTreeMap String Names
add_name key name m = insert key (insert name tt (names_of key m)) m

module _ {Q : Type 0} where
  -- The `match &order.composite` of `register`.
  abbrev pub link : CompositeInstruction → String → CompositeCoordinator Q → CompositeCoordinator Q
  link (CompositeInstruction.oco group_id) client_id self = record self {
    groups = add_name group_id client_id self.groups;
  }
  link (CompositeInstruction.ouo group_id) client_id self = record self {
    groups = add_name group_id client_id self.groups;
  }
  link (CompositeInstruction.oto parent) client_id self = record self {
    children_by_parent = add_name parent client_id self.children_by_parent;
  }
  link CompositeInstruction.single client_id self = self

  -- `default()`.
  abbrev pub no_orders : CompositeCoordinator Q
  no_orders = record {
    groups = [];
    instruction_by_client = [];
    quantity_by_client = [];
    children_by_parent = [];
  }

  unfoldable pub register :
      (Uuid → String) → AdvancedOrderIntent Q → CompositeCoordinator Q → CompositeCoordinator Q
  register simple order self =
      let client_id = client_order_id simple order.base in
      link order.composite client_id (record self {
        quantity_by_client = insert client_id order.base.quantity self.quantity_by_client;
        instruction_by_client = insert client_id order.composite self.instruction_by_client;
      })

  -- The peers in a group but the order itself.
  unfoldable pub cancel_peers : String → Names → List (CompositeAction Q)
  cancel_peers client_order_id [] = []
  cancel_peers client_order_id ((peer, _) ∷ peers) =
      let rest = cancel_peers client_order_id peers in
      if peer != client_order_id then CompositeAction.cancel_peer peer ∷ rest else rest

  unfoldable pub activate_children : Names → List (CompositeAction Q)
  activate_children [] = []
  activate_children ((child, _) ∷ children) =
      CompositeAction.activate_child child ∷ activate_children children

module _ {Q : Type 0} ⦃d : Decimal Q⦄ where
  abbrev pub resize_one :
      Option Q → String → Q → List (CompositeAction Q) → List (CompositeAction Q)
  resize_one none peer cumulative_filled rest = rest
  resize_one (some original) peer cumulative_filled rest =
      CompositeAction.resize_peer peer (max (d.sub original cumulative_filled) d.zero) ∷ rest

  -- The peers in a group but the order itself, each with its quantity less what was filled.
  unfoldable pub resize_peers :
      CompositeCoordinator Q → String → Q → Names → List (CompositeAction Q)
  resize_peers self client_order_id cumulative_filled [] = []
  resize_peers self client_order_id cumulative_filled ((peer, _) ∷ peers) =
      let rest = resize_peers self client_order_id cumulative_filled peers in
      if peer != client_order_id
      then resize_one (get peer self.quantity_by_client) peer cumulative_filled rest
      else rest

  -- The arm of `Single` and `Oto`.
  unfoldable pub complete_parent : CompositeCoordinator Q → String → Q → List (CompositeAction Q)
  complete_parent self client_order_id cumulative_filled =
      if is_some_and (get client_order_id self.quantity_by_client)
        (λ quantity. le quantity cumulative_filled)
      then activate_children (names_of client_order_id self.children_by_parent)
      else []

  abbrev pub fill_actions :
      CompositeInstruction → CompositeCoordinator Q → String → Q → List (CompositeAction Q)
  fill_actions (CompositeInstruction.oco group_id) self client_order_id cumulative_filled =
      cancel_peers client_order_id (names_of group_id self.groups)
  fill_actions (CompositeInstruction.ouo group_id) self client_order_id cumulative_filled =
      resize_peers self client_order_id cumulative_filled (names_of group_id self.groups)
  fill_actions _ self client_order_id cumulative_filled =
      complete_parent self client_order_id cumulative_filled

  abbrev pub known_actions :
      Option CompositeInstruction → CompositeCoordinator Q → String → Q → List (CompositeAction Q)
  known_actions none self client_order_id cumulative_filled = []
  known_actions (some instruction) self client_order_id cumulative_filled =
      fill_actions instruction self client_order_id cumulative_filled

  unfoldable pub on_fill : CompositeCoordinator Q → String → Q → List (CompositeAction Q)
  on_fill self client_order_id cumulative_filled =
      known_actions (get client_order_id self.instruction_by_client) self client_order_id
        cumulative_filled
