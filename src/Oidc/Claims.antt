-- ===== src/Oidc/Claims.antt =====
-- apps/server/src/features/oidc/tokens.ts, and `knownAppPermissions` of apps/server/src/auth.ts: what a
-- client is told of a user. A token is its payload: signing is a library's, and so is the check of a
-- signature, `signed`, and the decoding of a payload, `decode`, which enter as arguments.
pub mod Scoped
use server_central.Prelude.{
  ℕ, ◌+◌, ◌*◌, ◌/◌, String, Bool, true, false, not, ◌&&◌, ◌||◌, List, [], ◌∷◌, ◌++◌, Option, none,
  some, map, if◌then◌else◌, ◌==◌, ◌===◌, ltb, is_empty, starts_with, includes, push_new, filter,
  length, or_else,
}
use server_central.Prelude.Text.Split.{◌+++◌, split}
use server_central.Prelude.Text.Sort.{sort}
use server_central.Prelude.Text.Words.{words}
use server_central.Prelude.Dict.{values}
use server_central.Permission.Defs.{RoleDef}
use server_central.Roles.{RoleStore}
use server_central.Auth.{AuthStore, UserRecord, UserInfo}

abbrev is_app_node : String → Bool
is_app_node node = starts_with node "app."

unfoldable pub role_nodes : List RoleDef → List String
role_nodes [] = []
role_nodes (r ∷ rs) = filter is_app_node r.permissions ++ role_nodes rs

unfoldable pub account_nodes : List UserRecord → List String
account_nodes [] = []
account_nodes (u ∷ us) = filter is_app_node (or_else u.extra_permissions []) ++ account_nodes us

-- The two loops add to one `Set`, which keeps the first of equal nodes.
unfoldable pub known_app_permissions : RoleStore → AuthStore → List String
unfolding role_nodes account_nodes sort push_new
known_app_permissions roles s =
    sort (push_new [] (role_nodes (values roles.roles) ++ account_nodes (values s.users)))

abbrev pub id_token_ttl_s : ℕ
id_token_ttl_s = 5 * 60

abbrev pub access_token_ttl_s : ℕ
access_token_ttl_s = 60 * 60

unfoldable pub verify_pkce :
    (sha256_base64url : String → String) → (verifier challenge : String) → Bool
verify_pkce sha256_base64url verifier challenge = sha256_base64url verifier === challenge

unfoldable pub has_scope : String → String → Bool
unfolding words includes
has_scope scope wanted = includes (words scope) wanted

-- `groupPrefix ? "app." + groupPrefix : null`
abbrev pub node_of : Option String → Option String
node_of none = none
node_of (some prefix) = if is_empty prefix then none else some ("app." +++ prefix)

abbrev pub in_scope : Option String → String → Bool
in_scope none p = starts_with p "app."
in_scope (some node) p = p === node || starts_with p (node +++ ".")

-- The owner's nodes: those in scope, and what the app's roles expand to.
abbrev expanded : String → List String → List String
expanded node [] = (node +++ ".admin") ∷ []
expanded node (r ∷ rs) = map (λ role. node +++ ("." +++ role)) (r ∷ rs)

abbrev add_roles : Option String → List String → List String → List String
add_roles none declared owned = owned
add_roles (some node) declared owned = push_new owned (expanded node declared)

unfoldable pub groups_for_client :
    UserInfo → Option String → (known declared : List String) → List String
unfolding filter push_new sort
groups_for_client user group_prefix known declared =
    if user.is_owner
    then sort (
        add_roles (node_of group_prefix) declared
          (push_new [] (filter (in_scope (node_of group_prefix)) (known ++ user.permissions))))
    else filter (in_scope (node_of group_prefix)) user.permissions

-- `email_verified` is true exactly where there is an `email`.
pub record Claims : Type 0 where
  pub sub : String
  pub preferred_username : Option String
  pub email : Option String
  pub groups : Option (List String)

abbrev pub some_text : Option String → Option String
some_text none = none
some_text (some s) = if is_empty s then none else some s

unfoldable pub scoped_claims :
    UserInfo → (scope : String) → Option String → (known declared : List String) → Claims
unfolding has_scope groups_for_client
scoped_claims user scope group_prefix known declared = record {
  sub = user.id;
  preferred_username = if has_scope scope "profile" then some user.username else none;
  email = if has_scope scope "email" then some_text user.email else none;
  groups =
      if has_scope scope "groups"
      then some (groups_for_client user group_prefix known declared)
      else none;
}

-- The payload of an ID token.
pub record IdToken : Type 0 where
  pub claims : Claims
  pub iss : String
  pub aud : String
  pub exp : ℕ
  pub iat : ℕ
  pub auth_time : ℕ
  pub nonce : Option String

pub record IdTokenOptions : Type 0 where
  pub issuer : String
  pub client_id : String
  pub nonce : Option String
  pub auth_time : ℕ
  pub scope : String
  pub group_prefix : Option String
  pub known : List String
  pub declared : List String

unfoldable pub build_id_token : UserInfo → IdTokenOptions → ℕ → IdToken
unfolding scoped_claims
build_id_token user opts now = record {
  claims = scoped_claims user opts.scope opts.group_prefix opts.known opts.declared;
  iss = opts.issuer;
  aud = opts.client_id;
  exp = now / 1000 + id_token_ttl_s;
  iat = now / 1000;
  auth_time = opts.auth_time;
  nonce = some_text opts.nonce;
}

-- The payload of an access token.
pub record AccessToken : Type 0 where
  pub iss : String
  pub sub : String
  pub aud : String
  pub scope : String
  pub exp : ℕ
  pub iat : ℕ

unfoldable pub build_access_token : UserInfo → (issuer client_id scope : String) → ℕ → AccessToken
build_access_token user issuer client_id scope now = record {
  iss = issuer;
  sub = user.id;
  aud = client_id;
  scope = scope;
  exp = now / 1000 + access_token_ttl_s;
  iat = now / 1000;
}

-- What a payload says, where it says it with a value of the right type.
pub record Payload : Type 0 where
  pub sub : Option String
  pub aud : Option String
  pub scope : Option String
  pub exp : Option ℕ

abbrev expired : ℕ → Option ℕ → Bool
expired now none = false
expired now (some exp) = ltb (exp * 1000) now

module _ (signed : String → String → Bool) (decode : String → Payload) where
  abbrev verify_parts : ℕ → List String → Option Payload
  verify_parts now (header ∷ payload ∷ signature ∷ []) =
      if signed (header +++ ("." +++ payload)) signature && not (expired now (decode payload).exp)
      then some (decode payload)
      else none
  verify_parts now _ = none

  unfoldable pub verify_jwt : String → ℕ → Option Payload
  unfolding split
  verify_jwt token now = verify_parts now (split b'.' token)
