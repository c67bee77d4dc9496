-- ===== src/Access/Routes/Roles.antt =====
-- What the roles keep apart.
use esp32_rig.Base.{
  String, Bool, true, false, ◌≡◌, refl, none, List, arith, Bool-cases, inl, inr, ◌==◌,
}
use esp32_rig.Access.{Identity, is_admin, is_account}
use esp32_rig.Access.Routes.{
  HalfRoute, in_table, node_route, account_route, required_role, half_route, is_read, user_writes,
  allowed_user, allowed,
}

module _ (fullmatch : String → String → Bool) (i : Identity) (method path : String)
    (extra : List HalfRoute) where
  required_role-node :
      (method == "GET") ≡ false
      → node_route fullmatch method path ≡ true
      → required_role fullmatch method path ≡ "node"
  unfolding required_role
  required_role-node get route = ground arith

  required_role-admin :
      is_read method ≡ false
      → node_route fullmatch method path ≡ false
      → in_table fullmatch user_writes method path ≡ false
      → required_role fullmatch method path ≡ "admin"
  unfolding required_role
  required_role-admin read worker write = ground arith

  -- A call by which a worker reports is a node's alone: of the callers that are no guest, one may
  -- make it exactly if its role is `node`, an admin and whatever the halves declare included.
  pub allowed-node_route :
      (i.role == "guest") ≡ false
      → (method == "GET") ≡ false
      → node_route fullmatch method path ≡ true
      → allowed fullmatch i method path extra ≡ (i.role == "node")
  unfolding allowed
  allowed-node_route guest get route =
      let need = required_role-node get route in
      elim (Bool-cases (i.role == "node")) [
        | inl node ↦ rw (node, allowed) route
        | inr other ↦ rw (other, guest, need, allowed) refl
      ]

  -- A request that changes something is an admin's, unless one of the tables or a half says
  -- otherwise: of the callers that are no node and no guest, only an admin may make one that none of
  -- them names.
  pub allowed-undeclared :
      (i.role == "node") ≡ false
      → (i.role == "guest") ≡ false
      → is_read method ≡ false
      → node_route fullmatch method path ≡ false
      → in_table fullmatch user_writes method path ≡ false
      → account_route fullmatch method path ≡ false
      → half_route fullmatch extra method path ≡ none
      → allowed fullmatch i method path extra ≡ is_admin i
  unfolding allowed allowed_user
  allowed-undeclared node guest read worker write account half =
      let need = required_role-admin read worker write in
      elim (Bool-cases (is_admin i)) [
        | inl admin ↦ rw (node, guest, need, admin, allowed) refl
        | inr user ↦ elim (Bool-cases (is_account i)) [
          | inl person ↦
              rw (node, guest, need, user, person, account, half, allowed, allowed_user) refl
          | inr key ↦ rw (node, guest, need, user, key, half, need, allowed, allowed_user) refl
        ]
      ]
