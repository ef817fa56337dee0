-- ===== src/Oidc/Endpoint/Tests.antt =====
-- The witnesses of the theorems on the OIDC provider, apps/server/src/features/oidc/feature.ts.
use server_central.Prelude.{
  String, Bool, true, false, [], ◌∷◌, Option, none, some, ◌≡◌, ◌≢◌, ◌↔◌, refl, if◌then◌else◌, ◌===◌,
  ok, All, starts_with, length, arith, includes, length16, find, filter, push_new,
}
use server_central.Prelude.Text.Words.{words, split_spaces}
use server_central.Prelude.Dict.{get, put, remove, values}
use server_central.Roles.{RoleStore}
use server_central.Auth.{AuthStore, UserRecord, UserInfo, to_user_info}
use server_central.Auth.Accounts.{get_user_by_id}
use server_central.Apps.{App, get_app}
use server_central.Oidc.Clients.{
  ClientRecord, OidcClient, AuthCode, AuthorizeParams, to_public, consume_code,
  verify_client_secret, validate_request, issue_code, get_client,
}
use server_central.Oidc.Refresh.{RefreshRecord}
use server_central.Oidc.Refresh.Revocation.{holds_any}
use server_central.Permission.Subject.{effective_permissions}
use server_central.Prelude.Text.Sort.{sort}
use server_central.Oidc.Device.Code.{normalize_user_code}
use server_central.Oidc.Device.Store
use server_central.Oidc.Device.Store.{DeviceRequest, pending, approved, find_pending}
use server_central.Oidc.Claims.{
  known_app_permissions, verify_pkce, groups_for_client, node_of, in_scope, build_access_token,
  has_scope,
}
use server_central.Oidc.Claims.Scoped.{groups_for_client-scoped}
use server_central.Oidc.Front.{
  Provider, Env, complete_authorize, assert_may_access, delete_client_op, approve_device,
}
use server_central.Oidc.Front.Gate.{
  told_groups, assert_may_access-groups, approve_device-Answered, Answered, has_email,
}
use server_central.Oidc.Endpoint.{
  failed, issued, TokenResponse, Credentials, Draws, token_response, id_token_for, code_grant,
  refresh_grant, start_chain,
}
use server_central.Oidc.Endpoint.Routes.{token}
use server_central.Oidc.Endpoint.Exchange.{code_grant-IsExchange, CodeExchange}
use server_central.Oidc.Endpoint.Once.{code_grant_twice, at_once, restarts}
use server_central.Oidc.Endpoint.Login.{code_grant-complete_authorize}
use server_central.Oidc.Endpoint.Stolen.{refresh_grant-stolen, token-delete_client_op, is_issued}

abbrev same : String → String
same s = s

abbrev verify : String → String → Bool
verify secret hash = secret === hash

abbrev ada : UserRecord
ada = record {
  id = "u1";
  username = "ada";
  password_hash = "";
  is_owner = true;
  role_ids = none;
  role = none;
  created_at = 0;
  system_user = none;
  extra_permissions = none;
  email = none;
}

abbrev no_roles : RoleStore
no_roles = record { roles = []; file = [] }

abbrev accounts : AuthStore
accounts = record {
  users = ("u1", ada) ∷ [];
  sessions = [];
  login_failures = [];
  users_file = [];
  sessions_file = [];
}

abbrev immich : App
immich = record {
  id = "a1";
  name = "Immich";
  slug = "immich";
  roles = "admin" ∷ [];
  require_role = true;
  created_at = 7;
}

abbrev env : Env
env = record {
  roles = no_roles;
  auth = accounts;
  apps = record { apps = ("a1", immich) ∷ []; file = [] };
  primary_url = some "https://sc";
}

abbrev client_record : ClientRecord
client_record = record {
  id = "c1";
  name = "Photos";
  redirect_uris = "https://app/cb" ∷ [];
  secret_hash = "s";
  created_at = 0;
  app_id = some "a1";
  group_prefix = none;
}

abbrev client : OidcClient
client = to_public client_record

abbrev code_record : AuthCode
code_record = record {
  user_id = "u1";
  client_id = "c1";
  redirect_uri = "https://app/cb";
  scope = "openid";
  code_challenge = "v";
  nonce = some "n";
  issued_at = 0;
  expires_at = 60000;
}

abbrev before : Provider
before = record {
  clients = record { clients = ("c1", client_record) ∷ []; codes = []; file = [] };
  refresh = record { tokens = []; file = [] };
  devices = [];
}

abbrev waiting : Provider
waiting = record before {
  clients = record {
    clients = ("c1", client_record) ∷ [];
    codes = ("k", code_record) ∷ [];
    file = [];
  };
}

abbrev body : String → Option String
body name =
    if name === "code"
    then some "k"
    else if name === "redirect_uri"
    then some "https://app/cb"
    else if name === "code_verifier"
    then some "v"
    else some "stolen"

abbrev creds : Credentials
creds = record { client_id = "c1"; client_secret = "s" }

abbrev draws : Draws
draws = record { uuid = "f"; minted = "m"; now = 1000 }

abbrev user : UserInfo
user = to_user_info no_roles ada

abbrev tokens : TokenResponse
tokens =
    token_response user client "openid" "https://sc" 1000
      (some
        (id_token_for verify same same env draws user client "openid" "https://sc" (some "n") 0))
      none

exchanged :
    code_grant verify same same env draws body (some creds) waiting ≡ (issued tokens, before)
unfolding code_grant start_chain has_scope consume_code verify_client_secret get_user_by_id get
    remove words includes verify_pkce
exchanged = refl

code_grant-IsExchange_example :
    CodeExchange verify same same env draws body (some creds) waiting tokens before
code_grant-IsExchange_example =
    code_grant-IsExchange verify same same env draws body (some creds) waiting before tokens
      exchanged

code_grant_twice_example :
    code_grant verify same same env draws body (some creds) before ≢ (issued tokens, before)
code_grant_twice_example =
    code_grant_twice verify same same (λ uri code state. uri) env env draws draws body body
      (some creds) (some creds) "k" waiting before before before tokens tokens refl exchanged
      (restarts refl at_once) refl

abbrev params : AuthorizeParams
params = record {
  client_id = "c1";
  redirect_uri = "https://app/cb";
  scope = "openid";
  state = "x";
  nonce = some "n";
  code_challenge = "v";
  code_challenge_method = "S256";
}

abbrev redirect : String → String → String → String
redirect uri code state = uri

confirmed :
    complete_authorize redirect env (some user) params "k" 0 before ≡ ok ("https://app/cb", waiting)
unfolding complete_authorize validate_request assert_may_access groups_for_client get_app get
    issue_code split_spaces includes put to_user_info known_app_permissions values
    effective_permissions starts_with
confirmed = refl

code_grant-complete_authorize_example :
    (t : TokenResponse) × ((code_grant verify same same env draws body (some creds) waiting).0
      ≡ issued t)
    × (t.access_token ≡ build_access_token user "https://sc" "c1" "openid" 1000)
    × (t.id_token
        ≡ some (
            id_token_for verify same same env draws user client "openid" "https://sc" (some "n") 0))
unfolding verify_client_secret get_user_by_id get to_user_info
code_grant-complete_authorize_example =
    code_grant-complete_authorize verify same same redirect env env user params "k" 0 before waiting
      "https://app/cb" draws body "v" "s" client user "https://sc" confirmed refl refl refl refl
      refl (omega arith) refl refl

abbrev token_record : RefreshRecord
token_record = record {
  family_id = "f";
  user_id = "u1";
  client_id = "c2";
  scope = "openid";
  issued_at = 0;
  expires_at = 5000;
  used_at = none;
}

abbrev with_token : Provider
with_token = record before {
  refresh = record { tokens = ("stolen", token_record) ∷ []; file = [] };
}

refresh_grant-stolen_example :
    let (answer, q) =
      refresh_grant verify same same env draws (λ name. some "stolen") (some creds) with_token in
    (answer ≡ failed 400 "invalid_grant") × (holds_any (λ x. x.family_id === "f") q.refresh ≡ false)
unfolding verify_client_secret get
refresh_grant-stolen_example =
    refresh_grant-stolen verify same same env draws (λ name. some "stolen") creds "stolen" client
      token_record with_token refl refl refl refl refl

token-delete_client_op_example :
    let q = delete_client_op "c1" waiting in
    (is_issued (token verify same same env draws body (some creds) q).0 ≡ false)
    × (holds_any (λ x. x.client_id === "c1") q.refresh ≡ false)
token-delete_client_op_example =
    token-delete_client_op verify same same env draws body creds waiting

groups_for_client-scoped_example :
    All
      (λ g. (in_scope (node_of (some "immich")) g ≡ true) × (starts_with g "app." ≡ true))
      (groups_for_client user
        (some "immich")
        ("app.immich.user" ∷ "app.wiki.user" ∷ [])
        ("admin" ∷ []))
groups_for_client-scoped_example =
    groups_for_client-scoped user (some "immich") ("app.immich.user" ∷ "app.wiki.user" ∷ [])
      ("admin" ∷ [])

assert_may_access-groups_example :
    assert_may_access env user client "openid" ≡ ok tt
    ↔ (has_email user "openid" ≡ true) × (length (told_groups env user client) ≢ 0)
unfolding get_app get
assert_may_access-groups_example =
    assert_may_access-groups env user client "openid" immich refl refl

abbrev pairing : DeviceRequest
pairing = record {
  device_code = "d";
  user_code = "BCDFGHJK";
  client_id = "c1";
  scope = "openid";
  ip = none;
  user_agent = none;
  created_at = 0;
  expires_at = 5000;
  status = pending;
  user_id = none;
  approved_at = none;
  last_polled_at = 0;
}

abbrev pairing_waits : Provider
pairing_waits = record before { devices = ("d", pairing) ∷ [] }

abbrev pairing_approved : Provider
pairing_approved = record before {
  devices =
      ("d", record pairing { status = approved; user_id = some "u1"; approved_at = some 9 }) ∷ [];
}

approved_run :
    approve_device same env (some user) "BCDFGHJK" 9 pairing_waits ≡ (ok tt, pairing_approved)
unfolding approve_device find_pending length16 normalize_user_code find Store.prune filter
    get_client get assert_may_access includes split_spaces groups_for_client to_user_info
    known_app_permissions values effective_permissions starts_with get_app Store.resolve put
    push_new sort
approved_run = refl

approve_device-Answered_example :
    Answered same env
      (some user)
      "BCDFGHJK"
      9
      pairing_waits
      (approve_device same env (some user) "BCDFGHJK" 9 pairing_waits)
approve_device-Answered_example =
    approve_device-Answered same env (some user) "BCDFGHJK" 9 pairing_waits
