-- ===== src/Oidc/Front.antt =====
-- apps/server/src/features/oidc/feature.ts: the operations of the OIDC feature. What the stores keep is
-- one record, and what the operations only read another. The message of an error is its constructor.
-- `redirect` adds the code and the state to the redirect URI, by the URL library.
pub mod Gate
use server_central.Prelude.{
  ℕ, String, Bool, true, not, ◌&&◌, ◌||◌, List, [], Option, none, some, map, Result, ok, err, ◌>>=◌,
  ◌>>◌, ensure, if◌then◌else◌, ◌==◌, ◌===◌, is_empty, is_some, length, includes, find,
}
use server_central.Prelude.Text.Words.{split_spaces}
use server_central.Roles.{RoleStore}
use server_central.Auth.{AuthStore, UserInfo}
use server_central.Apps.{App, AppStore, get_app, slug_for}
use server_central.Oidc.Clients.{
  ClientStore, ClientError, OidcClient, AuthorizeParams, validate_request, issue_code, get_client,
  create_client, delete_client, list_clients,
}
use server_central.Oidc.Refresh
use server_central.Oidc.Refresh.{TokenStore, revoke_for_client, revoke_family, list_for_user}
use server_central.Oidc.Device.Code.{format_user_code}
use server_central.Oidc.Device.Store
use server_central.Oidc.Device.Store.{DeviceStore, DeviceRequest, find_pending, approved, denied}
use server_central.Oidc.Claims.{groups_for_client, known_app_permissions, some_text}

pub record Provider : Type 0 where
  pub clients : ClientStore
  pub refresh : TokenStore
  pub devices : DeviceStore

pub record Env : Type 0 where
  pub roles : RoleStore
  pub auth : AuthStore
  pub apps : AppStore
  pub primary_url : Option String

pub data FrontError : Type 0 where
  not_authenticated no_primary_url email_required no_access code_gone client_gone : FrontError
  refused : ClientError → FrontError

abbrev pub as_front : {A : Type 0} → Result ClientError A → Result FrontError A
as_front (err e) = err (refused e)
as_front (ok a) = ok a

-- `client.appId ? apps.get(client.appId) : null`
abbrev pub linked_app : Env → Option String → Option App
linked_app env none = none
linked_app env (some app_id) = if is_empty app_id then none else get_app env.apps app_id

-- `apps.slugFor(client.appId) ?? client.groupPrefix ?? null`
abbrev pub first_some : Option String → Option String → Option String
first_some none b = b
first_some (some a) b = some a

unfoldable pub effective_group_prefix : Env → OidcClient → Option String
effective_group_prefix env client = first_some (slug_for env.apps client.app_id) client.group_prefix

abbrev roles_of : Option App → List String
roles_of none = []
roles_of (some app) = app.roles

unfoldable pub declared_roles_for : Env → OidcClient → List String
unfolding get_app
declared_roles_for env client = roles_of (linked_app env client.app_id)

-- The gate of an app that asks for a role.
abbrev pub passes_gate : Env → UserInfo → Option App → Bool
passes_gate env user none = true
passes_gate env user (some app) =
    not app.require_role
    || not (
        length (
          groups_for_client user (some app.slug) (known_app_permissions env.roles env.auth)
            app.roles)
        == 0)

unfoldable pub assert_may_access :
    Env → UserInfo → OidcClient → (scope : String) → Result FrontError (Unit {0})
unfolding get_app
assert_may_access env user client scope = do
  ensure (not (includes (split_spaces scope) "email" && not (is_some (some_text user.email))))
      email_required
  ensure (passes_gate env user (linked_app env client.app_id)) no_access

unfoldable pub create_client_op :
    (is_url : String → Bool)
    → (hash : String → String) → Env
    → (uuid secret name : String) → List String
    → Option String
    → ℕ
    → Provider
    → Result FrontError (OidcClient × Provider)
create_client_op is_url hash env uuid secret name redirect_uris app_id now p = do
  ensure (is_some (some_text env.primary_url)) no_primary_url
  made ← as_front (create_client is_url hash uuid secret name redirect_uris app_id now p.clients)
  ok (made.0, record p { clients = made.1 })

unfoldable pub delete_client_op : String → Provider → Provider
delete_client_op client_id p = record p {
  clients = delete_client client_id p.clients;
  refresh = revoke_for_client client_id p.refresh;
}

unfoldable pub revoke_grant : String → Provider → Provider
revoke_grant family_id p = record p { refresh = revoke_family family_id p.refresh }

abbrev name_or : String → Option OidcClient → String
name_or fallback none = fallback
name_or fallback (some client) = client.name

-- `listGrants`: each grant with the name of its client.
unfoldable pub list_grants : String → Provider → List (Refresh.AppGrant × String)
list_grants user_id p =
    map
      (λ grant. (
        grant,
        name_or "(deleted client)" (find (λ c. c.id === grant.client_id) (list_clients p.clients)),
      ))
      (list_for_user user_id p.refresh)

unfoldable pub get_authorize_request :
    AuthorizeParams → Provider → Result FrontError (String × String)
get_authorize_request params p = do
  client ← as_front (validate_request params p.clients)
  ok (client.name, params.redirect_uri)

unfoldable pub complete_authorize :
    (redirect : (uri code state : String) → String)
    → Env
    → Option UserInfo
    → AuthorizeParams
    → (code : String) → ℕ
    → Provider
    → Result FrontError (String × Provider)
complete_authorize redirect env none params code now p = err not_authenticated
complete_authorize redirect env (some user) params code now p = do
  client ← as_front (validate_request params p.clients)
  assert_may_access env user client params.scope
  ok (
    redirect params.redirect_uri code params.state,
    record p {
      clients =
          issue_code code
            (record {
              user_id = user.id;
              client_id = client.id;
              redirect_uri = params.redirect_uri;
              scope = params.scope;
              code_challenge = params.code_challenge;
              nonce = params.nonce;
            })
            now p.clients;
    },
  )

-- What the confirming screen shows of a request.
pub record DeviceView : Type 0 where
  pub user_code : String
  pub app_name : String
  pub scope : String
  pub ip : Option String
  pub user_agent : Option String
  pub requested_at : ℕ
  pub expires_at : ℕ

abbrev view_of : ClientStore → Option (String × DeviceRequest) → Option DeviceView
view_of clients none = none
view_of clients (some (key, r)) = some (record {
  user_code = format_user_code r.user_code;
  app_name = name_or "(deleted client)" (get_client clients r.client_id);
  scope = r.scope;
  ip = r.ip;
  user_agent = r.user_agent;
  requested_at = r.created_at;
  expires_at = r.expires_at;
})

module _ (to_upper_case : String → String) where
  unfoldable pub get_device_request : String → ℕ → Provider → Option DeviceView × Provider
  get_device_request typed now p =
      let (found, devices) = find_pending to_upper_case typed now p.devices in
      (view_of p.clients found, record p { devices = devices })

  -- The answer, and the store: looking a code up drops the expired requests even when it then throws.
  approve_found :
      Env
      → UserInfo
      → (typed : String) → ℕ
      → Option (String × DeviceRequest)
      → Provider
      → Result FrontError (Unit {0}) × Provider
  approve_found env user typed now none p = (err code_gone, p)
  approve_found env user typed now (some (key, r)) p = elim (get_client p.clients r.client_id) [
    | none ↦ (err client_gone, p)
    | some client ↦ elim (assert_may_access env user client r.scope) [
      | err e ↦ (err e, p)
      | ok u ↦ (
        ok tt,
        record p { devices = (Store.resolve to_upper_case typed approved user.id now p.devices).1 },
      )
    ]
  ]

  unfoldable pub approve_device :
      Env → Option UserInfo → String → ℕ → Provider → Result FrontError (Unit {0}) × Provider
  unfolding approve_found
  approve_device env none typed now p = (err not_authenticated, p)
  approve_device env (some user) typed now p =
      let (found, devices) = find_pending to_upper_case typed now p.devices in
      approve_found env user typed now found (record p { devices = devices })

  unfoldable pub deny_device :
      Option UserInfo → String → ℕ → Provider → Result FrontError (Unit {0}) × Provider
  deny_device none typed now p = (err not_authenticated, p)
  deny_device (some user) typed now p = (
    ok tt,
    record p { devices = (Store.resolve to_upper_case typed denied user.id now p.devices).1 },
  )
