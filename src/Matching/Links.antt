-- ===== src/Matching/Links.antt =====
-- What the links of orders lead to when one of them is filled.
use pg_tsy_core_bootstrap.Prelude.{
  String, Bool, true, false, ◌&&◌, ◌||◌, some, [], ◌∷◌, ◌==◌, ◌!=◌, string_eq, string_ord, BTreeMap,
  get, insert, get-insert, is_some, is_some_and, if◌then◌else◌, any, All, ◌≡◌, ◌≢◌, ◌⊎◌, refl,
  arith, same_key,
}
use pg_tsy_core_bootstrap.Decimal.{Decimal, le, ◌≼◌}
use pg_tsy_core_bootstrap.Types.{Uuid, client_order_id}
use pg_tsy_core_bootstrap.Types.Advanced.{CompositeInstruction, AdvancedOrderIntent}
use pg_tsy_core_bootstrap.Matching.Coordinator.{
  CompositeAction, CompositeCoordinator, Names, names_of, add_name, register, cancel_peers,
  activate_children, resize_peers, complete_parent, on_fill,
}

module _ {Q : Type 0} where
  -- Is the cancellation, or the activation, of an order among the actions?
  abbrev pub is_cancel : String → CompositeAction Q → Bool
  is_cancel p (CompositeAction.cancel_peer q) = p == q
  is_cancel p _ = false

  abbrev pub is_activation : String → CompositeAction Q → Bool
  is_activation p (CompositeAction.activate_child q) = p == q
  is_activation p _ = false

abbrev pub has_name : String → Names → Bool
has_name p names = is_some (get p names)

module _ (Q : Type 0) where
  cancel_peers_lem :
      (client p : String) (names : Names)
      → any (is_cancel {Q = Q} p) (cancel_peers client names) ≡ (p != client && has_name p names)
  unfolding cancel_peers get
  cancel_peers_lem client p [] = ground arith
  cancel_peers_lem client p ((k, u) ∷ names) = ground (
    arith,
    cancel_peers_lem client p names,
    string_eq.beq_iff p k,
    string_eq.beq_iff k client,
    string_eq.beq_iff p client,
  )

  activate_children_lem :
      (p : String) (names : Names)
      → any (is_activation {Q = Q} p) (activate_children names) ≡ has_name p names
  unfolding activate_children get
  activate_children_lem p [] = refl
  activate_children_lem p ((k, u) ∷ names) = ground (arith, activate_children_lem p names)

same_iff : (a b : String) → same_key a b ≡ (a == b)
same_iff a b = ground arith

has_name-add_name :
    (key name p : String) (m : BTreeMap String Names)
    → has_name p (names_of key (add_name key name m)) ≡ (p == name || has_name p (names_of key m))
unfolding add_name
has_name-add_name key name p m = ground (
  arith,
  get-insert key key (insert name tt (names_of key m)) m,
  get-insert name p tt (names_of key m),
  same_iff key key,
  same_iff p name,
  string_eq.beq_iff key key,
)

module _ {Q : Type 0} ⦃d : Decimal Q⦄ where
  -- A fill of an order that is registered in an OCO group cancels a name exactly when it is
  -- another member of the group.
  pub on_fill_oco :
      (co : CompositeCoordinator Q) (client group : String) (cumulative : Q) (p : String)
      → get client co.instruction_by_client ≡ some (CompositeInstruction.oco group)
      → any (is_cancel p) (on_fill co client cumulative)
        ≡ (p != client && has_name p (names_of group co.groups))
  unfolding on_fill
  on_fill_oco co client group cumulative p h =
      rw (h, on_fill) (cancel_peers_lem Q client p (names_of group co.groups))

  -- A fill of a single order or a child activates a child of it exactly when the cumulative fill
  -- has reached the order's registered quantity and that child is registered under it.
  pub on_fill_oto :
      (co : CompositeCoordinator Q) (client parent : String) (cumulative : Q) (p : String)
      → (get client co.instruction_by_client ≡ some (CompositeInstruction.oto parent))
        ⊎ (get client co.instruction_by_client ≡ some CompositeInstruction.single)
      → any (is_activation p) (on_fill co client cumulative) ≡ (
          is_some_and (get client co.quantity_by_client) (λ quantity. le quantity cumulative)
          && has_name p (names_of client co.children_by_parent))
  unfolding on_fill complete_parent
  on_fill_oto co client parent cumulative p h =
      ground (arith, activate_children_lem Q p (names_of client co.children_by_parent))

  -- A resized peer is another member of the group and never gets a negative quantity.
  abbrev pub IsResize : String → CompositeAction Q → Type 0
  IsResize client (CompositeAction.resize_peer peer quantity) =
      (peer ≢ client) × (d.zero ≼ quantity)
  IsResize client _ = ⊥

  resize_peers-All :
      (co : CompositeCoordinator Q) (client : String) (cumulative : Q) (names : Names)
      → All (IsResize client) (resize_peers co client cumulative names)
  unfolding resize_peers
  resize_peers-All co client cumulative [] = tt
  resize_peers-All co client cumulative ((peer, u) ∷ names) =
      ground (arith, resize_peers-All co client cumulative names, string_eq.beq_iff peer client)

  -- A fill of an order that is registered in an OUO group only resizes other orders than itself,
  -- to quantities that are at least 0.
  pub on_fill_ouo :
      (co : CompositeCoordinator Q) (client group : String) (cumulative : Q)
      → get client co.instruction_by_client ≡ some (CompositeInstruction.ouo group)
      → All (IsResize client) (on_fill co client cumulative)
  unfolding on_fill
  on_fill_ouo co client group cumulative h =
      rw (h, on_fill) (resize_peers-All co client cumulative (names_of group co.groups))

  register_instruction :
      (simple : Uuid → String) (o : AdvancedOrderIntent Q) (co : CompositeCoordinator Q)
      (p : String)
      → get p (register simple o co).instruction_by_client ≡ (
          if same_key p (client_order_id simple o.base)
          then some o.composite
          else get p co.instruction_by_client)
  unfolding register
  register_instruction simple o co p =
      ground
        (arith, get-insert (client_order_id simple o.base) p o.composite co.instruction_by_client)

  register_member :
      (simple : Uuid → String) (o : AdvancedOrderIntent Q) (co : CompositeCoordinator Q)
      (group p : String)
      → o.composite ≡ CompositeInstruction.oco group
      → has_name p (names_of group (register simple o co).groups)
        ≡ (p == client_order_id simple o.base || has_name p (names_of group co.groups))
  unfolding register
  register_member simple o co group p h =
      rw (h, register) (has_name-add_name group (client_order_id simple o.base) p co.groups)

  -- After any two orders of one OCO group with different client ids are registered, one after the
  -- other, a fill of either cancels the other, whatever was registered before.
  pub register_oco_pair :
      (simple : Uuid → String) (a b : AdvancedOrderIntent Q) (group : String)
      (co : CompositeCoordinator Q) (cumulative : Q)
      → let ia = client_order_id simple a.base in
        let ib = client_order_id simple b.base in
        let co' = register simple b (register simple a co) in
        ia ≢ ib
        → a.composite ≡ CompositeInstruction.oco group
        → b.composite ≡ CompositeInstruction.oco group
        → (any (is_cancel ib) (on_fill co' ia cumulative) ≡ true)
          × (any (is_cancel ia) (on_fill co' ib cumulative) ≡ true)
  register_oco_pair simple a b group co cumulative n oa ob =
      let ia = client_order_id simple a.base in
      let ib = client_order_id simple b.base in
      let co1 = register simple a co in
      let co2 = register simple b co1 in
      ground (
        arith,
        on_fill_oco co2 ia group cumulative ib,
        on_fill_oco co2 ib group cumulative ia,
        register_instruction simple a co ia,
        register_instruction simple b co1 ia,
        register_instruction simple b co1 ib,
        register_member simple a co group ia oa,
        register_member simple b co1 group ia ob,
        register_member simple b co1 group ib ob,
        same_iff ia ia,
        same_iff ia ib,
        same_iff ib ib,
        string_eq.beq_iff ia ia,
        string_eq.beq_iff ia ib,
        string_eq.beq_iff ib ia,
        string_eq.beq_iff ib ib,
      )
