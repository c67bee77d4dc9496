-- ===== src/Access/Routes.antt =====
-- api_keys.py: which routes each role may call.
pub mod Roles
use esp32_rig.Base.{
  String, Bool, true, false, not, ◌&&◌, ◌||◌, Option, none, some, List, [], ◌∷◌, any, first,
  if◌then◌else◌, ◌==◌,
}
use esp32_rig.Access.{Identity, is_admin, is_account}

-- A method and a pattern of the path.
abbrev pub Route : Type 0
Route = String × String

unfoldable pub guest_routes : List Route
guest_routes =
    ("GET", "/api/v1/whoami")
    ∷ ("GET", "/api/v1/sessions")
    ∷ ("POST", "/api/v1/sessions/revoke")
    ∷ []

unfoldable pub user_writes : List Route
user_writes =
    ("POST", "/api/v1/suites")
    ∷ ("POST", "/api/v1/health")
    ∷ ("POST", "/api/v1/sessions/revoke")
    ∷ ("POST", "/api/v1/inventory/refresh")
    ∷ ("POST", "/api/v1/artifacts")
    ∷ ("POST", "/api/v1/jobs/[0-9a-f]{32}/cancel")
    ∷ ("POST", "/api/v1/rigs/[a-z0-9][a-z0-9._-]{0,31}/webhooks")
    ∷ ("POST", "/api/v1/rigs/[a-z0-9][a-z0-9._-]{0,31}/webhooks/[0-9a-f]{1,16}")
    ∷ ("POST", "/api/v1/rigs/[a-z0-9][a-z0-9._-]{0,31}/webhooks/[0-9a-f]{1,16}/test")
    ∷ ("DELETE", "/api/v1/rigs/[a-z0-9][a-z0-9._-]{0,31}/webhooks/[0-9a-f]{1,16}")
    ∷ ("POST", "/api/v1/rigs/[a-z0-9][a-z0-9._-]{0,31}/visibility")
    ∷ []

unfoldable pub admin_reads : List String
admin_reads = "/api/v1/audit" ∷ "/api/v1/keys" ∷ []

unfoldable pub account_routes : List Route
account_routes =
    ("GET", "/api/v1/whoami")
    ∷ ("GET", "/api/v1/sessions")
    ∷ ("POST", "/api/v1/sessions/revoke")
    ∷ ("GET", "/api/v1/rigs")
    ∷ ("GET", "/api/v1/rigs/[a-z0-9][a-z0-9._-]{0,31}")
    ∷ ("GET", "/api/v1/rigs/[a-z0-9][a-z0-9._-]{0,31}/view")
    ∷ ("GET", "/api/v1/status")
    ∷ ("GET", "/api/v1/jobs")
    ∷ ("GET", "/api/v1/jobs/[0-9a-f]{32}")
    ∷ ("GET", "/api/v1/jobs/[0-9a-f]{32}/artifacts/[a-z0-9][a-z0-9_.:-]{0,80}")
    ∷ ("GET", "/api/v1/inventory")
    ∷ ("GET", "/api/v1/workers/[a-z0-9][a-z0-9._-]{0,31}/commands")
    ∷ ("GET", "/api/v1/inventory/[a-z0-9][a-z0-9._-]{0,31}/history")
    ∷ ("GET", "/api/v1/artifacts")
    ∷ ("GET", "/api/v1/artifacts/library")
    ∷ ("GET", "/api/v1/artifacts/[0-9a-f]{32}")
    ∷ ("GET", "/api/v1/artifacts/[0-9a-f]{32}/bundle")
    ∷ ("GET", "/api/v1/artifacts/[0-9a-f]{32}/files/[^\\x00-\\x1f\\x7f]+")
    ∷ ("POST", "/api/v1/rigs/[a-z0-9][a-z0-9._-]{0,31}/visibility")
    ∷ ("POST", "/api/v1/suites")
    ∷ ("POST", "/api/v1/jobs/[0-9a-f]{32}/cancel")
    ∷ ("GET", "/api/v1/rigs/[a-z0-9][a-z0-9._-]{0,31}/webhooks")
    ∷ ("POST", "/api/v1/rigs/[a-z0-9][a-z0-9._-]{0,31}/webhooks")
    ∷ ("POST", "/api/v1/rigs/[a-z0-9][a-z0-9._-]{0,31}/webhooks/[0-9a-f]{1,16}")
    ∷ ("POST", "/api/v1/rigs/[a-z0-9][a-z0-9._-]{0,31}/webhooks/[0-9a-f]{1,16}/test")
    ∷ ("DELETE", "/api/v1/rigs/[a-z0-9][a-z0-9._-]{0,31}/webhooks/[0-9a-f]{1,16}")
    ∷ ("POST", "/api/v1/rigs")
    ∷ ("PATCH", "/api/v1/rigs/[a-z0-9][a-z0-9._-]{0,31}")
    ∷ ("POST", "/api/v1/rigs/[a-z0-9][a-z0-9._-]{0,31}/join")
    ∷ ("DELETE", "/api/v1/rigs/[a-z0-9][a-z0-9._-]{0,31}")
    ∷ []

unfoldable pub public_routes : List Route
public_routes =
    ("GET", "/api/v1/join\\.sh") ∷ ("POST", "/api/v1/enroll") ∷ ("GET", "/api/v1/world") ∷ []

unfoldable pub node_routes : List Route
node_routes =
    ("POST", "/api/v1/workers/[a-z0-9][a-z0-9._-]{0,31}/(hello|heartbeat|lease)")
    ∷ ("POST", "/api/v1/workers/[a-z0-9][a-z0-9._-]{0,31}/commands/[0-9a-f]{32}(/start)?")
    ∷ (
      "POST",
      "/api/v1/workers/[a-z0-9][a-z0-9._-]{0,31}/history/(known|artifacts/[0-9a-f]{32}|jobs/[0-9a-f]{32}(/evidence|/log|/link)?)",
    )
    ∷ ("POST", "/api/v1/jobs/[0-9a-f]{32}/(stages|log|evidence|result)")
    ∷ ("GET", "/api/v1/artifacts/[0-9a-f]{32}/bundle")
    ∷ ("GET", "/api/v1/releases/[0-9a-f]{40}/bundle")
    ∷ ("GET", "/api/v1/releases/[0-9a-f]{40}/files/[A-Za-z0-9][A-Za-z0-9._-]{0,120}")
    ∷ ("GET", "/api/v1/releases/current")
    ∷ []

-- A route that a half of the service adds, and the audience that it is for.
pub record HalfRoute : Type 0 where
  pub method : String
  pub pattern : String
  pub audience : String

abbrev pub is_read : String → Bool
is_read method = method == "GET" || method == "HEAD"

module _ (fullmatch : String → String → Bool) where
  -- `any(verb == method and pattern.fullmatch(path) for verb, pattern in table)`
  abbrev pub in_table : List Route → String → String → Bool
  in_table table method path = any (λ r. r.0 == method && fullmatch r.1 path) table

  unfoldable pub public_route : String → String → Bool
  public_route = in_table public_routes

  unfoldable pub node_route : String → String → Bool
  node_route = in_table node_routes

  unfoldable pub account_route : String → String → Bool
  account_route = in_table account_routes

  unfoldable pub required_role : String → String → String
  required_role method path =
      if not (method == "GET") && node_route method path
      then "node"
      else if is_read method
      then (if any (λ p. fullmatch p path) admin_reads then "admin" else "user")
      else if in_table user_writes method path
      then "user"
      else "admin"

  unfoldable pub half_route : List HalfRoute → String → String → Option HalfRoute
  half_route extra method path = first (λ r. r.method == method && fullmatch r.pattern path) extra

  abbrev pub is_for : String → Option HalfRoute → Bool
  is_for audience declared = elim declared [ none ↦ false | some r ↦ r.audience == audience ]

  -- What a caller that is no node, no guest and no admin may do.
  unfoldable pub allowed_user : Identity → String → String → List HalfRoute → Bool
  allowed_user i method path extra =
      let declared = half_route extra method path in
      if is_account i
      then account_route method path || is_for "account" declared
      else elim declared [
        | some r ↦ r.audience == "account" || r.audience == "user"
        | none ↦ required_role method path == "user"
      ]

  unfoldable pub allowed : Identity → String → String → List HalfRoute → Bool
  allowed i method path extra =
      if i.role == "node"
      then node_route method path
      else if i.role == "guest"
      then in_table guest_routes method path
      else if required_role method path == "node"
      then false
      else if is_admin i
      then true
      else allowed_user i method path extra
