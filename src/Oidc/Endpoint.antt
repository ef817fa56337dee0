-- ===== src/Oidc/Endpoint.antt =====
-- apps/server/src/features/oidc/feature.ts, `oidcHttpRoutes`: the endpoints that a client's backend
-- calls. `body` is what `URLSearchParams.get` finds in the body, `authorization` the header, and
-- `decode_base64` decodes the part of it after `Basic `. A response is an error with its status and code,
-- or what its JSON says. A request has one time and one set of random draws. The discovery documents
-- are left out.
mod Tests
pub mod Routes
pub mod Stolen
pub mod Login
pub mod Chain
pub mod Exchange
pub mod Once
use Prim.Native.String.{[], ◌∷◌}
use server_central.Prelude.{
  ℕ, zero, suc, ◌-◌, ◌/◌, String, Bool, true, false, not, ◌&&◌, ◌||◌, List, Option, none, some,
  Result, ok, err, if◌then◌else◌, ◌===◌, is_empty, is_some, includes, or_else, starts_with,
}
use server_central.Prelude.Text.Split.{cut_first, ◌+++◌}
use server_central.Prelude.Text.Words.{words}
use server_central.Auth.{AuthStore, UserInfo}
use server_central.Auth.Accounts.{get_user_by_id}
use server_central.Oidc.Clients.{
  ClientStore, OidcClient, AuthCode, verify_client_secret, consume_code, get_client,
}
use server_central.Oidc.Refresh.{
  TokenStore, Rotated, RefreshGrant, Holder, issue, rotate, revoke, revoke_family, granted, reused,
  unknown,
}
use server_central.Oidc.Device.Code.{format_user_code}
use server_central.Oidc.Device.Store
use server_central.Oidc.Device.Store.{
  DeviceStore, DeviceRequest, Params, PollResult, CapError, poll, request, collected,
  authorization_pending, slow_down, access_denied, expired_token, invalid_grant, poll_interval_s,
}
use server_central.Oidc.Claims.{
  Claims, IdToken, AccessToken, Payload, build_id_token, build_access_token, known_app_permissions,
  has_scope, scoped_claims, some_text, verify_pkce, verify_jwt,
}
use server_central.Oidc.Front.{Provider, Env, effective_group_prefix, declared_roles_for}

pub record TokenResponse : Type 0 where
  pub access_token : AccessToken
  pub scope : String
  pub id_token : Option IdToken
  pub refresh_token : Option String

pub record DeviceResponse : Type 0 where
  pub device_code : String
  pub user_code : String
  pub verification_uri : String
  pub interval : ℕ

pub data Response : Type 0 where
  failed : (status : ℕ) → (code : String) → Response
  issued : TokenResponse → Response
  started : DeviceResponse → Response
  user_info : Claims → Response
  revoked : Response

pub record Credentials : Type 0 where
  pub client_id : String
  pub client_secret : String

-- What one request draws, and its time.
pub record Draws : Type 0 where
  pub uuid : String
  pub minted : String
  pub now : ℕ

abbrev from_pair : Option (String × String) → Option Credentials
from_pair none = none
from_pair (some (id, secret)) = some (record { client_id = id; client_secret = secret })

abbrev from_body : Option String → Option String → Option Credentials
from_body (some id) (some secret) = some (record { client_id = id; client_secret = secret })
from_body _ _ = none

abbrev first_credentials : Option Credentials → Option Credentials → Option Credentials
first_credentials none b = b
first_credentials (some a) b = some a

-- `basic.slice(6)`
unfoldable pub drop_chars : ℕ → String → String
drop_chars zero s = s
drop_chars (suc n) [] = []
drop_chars (suc n) (c ∷ s) = drop_chars n s

module _ (decode_base64 : String → String) where
  abbrev basic_credentials : Option String → Option Credentials
  basic_credentials none = none
  basic_credentials (some header) =
      if starts_with header "Basic "
      then from_pair (cut_first b':' (decode_base64 (drop_chars 6 header)))
      else none

  unfoldable pub client_credentials :
      (authorization : Option String) → (body : String → Option String) → Option Credentials
  client_credentials authorization body =
      first_credentials (basic_credentials authorization)
        (from_body (some_text (body "client_id")) (some_text (body "client_secret")))

abbrev pub offline_access : String
offline_access = "offline_access"

abbrev no_id_token : Option IdToken
no_id_token = none

abbrev pub token_response :
    UserInfo
    → OidcClient
    → (scope issuer : String) → ℕ
    → Option IdToken
    → Option String
    → TokenResponse
token_response user client scope issuer now id_token refresh_token = record {
  access_token = build_access_token user issuer client.id scope now;
  scope = scope;
  id_token = id_token;
  refresh_token = refresh_token;
}

module _ (digest : String → String) (draws : Draws) where
  -- A chain of refresh tokens starts when the scope asks for it.
  unfoldable pub start_chain :
      UserInfo → OidcClient → (scope : String) → Provider → Option String × Provider
  unfolding has_scope
  start_chain user client scope p =
      if has_scope scope offline_access
      then (
        some draws.minted,
        record p {
          refresh =
              issue digest draws.uuid
                (record { user_id = user.id; client_id = client.id; scope = scope }) draws.minted
                draws.now p.refresh;
        },
      )
      else (none, p)

module _ (verify : String → String → Bool) (sha256_base64url digest : String → String) (env : Env)
    (draws : Draws) where
  abbrev pub id_token_for :
      UserInfo
      → OidcClient
      → (scope issuer : String) → (nonce : Option String) → (auth_time : ℕ) → IdToken
  id_token_for user client scope issuer nonce auth_time =
      build_id_token user
        (record {
          issuer = issuer;
          client_id = client.id;
          nonce = nonce;
          auth_time = auth_time;
          scope = scope;
          group_prefix = effective_group_prefix env client;
          known = known_app_permissions env.roles env.auth;
          declared = declared_roles_for env client;
        })
        draws.now

  -- The end of the code grant: the tokens, once user and issuer are there.
  pub code_tokens :
      OidcClient → AuthCode → Option UserInfo → Option String → Provider → Response × Provider
  unfolding start_chain
  code_tokens client grant none issuer p = (failed 400 "invalid_grant", p)
  code_tokens client grant (some user) none p = (failed 500 "server_error", p)
  code_tokens client grant (some user) (some issuer) p =
      let (refresh_token, left) = start_chain digest draws user client grant.scope p in
      (
        issued (
            token_response user client grant.scope issuer draws.now
              (some
                (id_token_for user client grant.scope issuer grant.nonce (grant.issued_at / 1000)))
              refresh_token),
        left,
      )

  pub redeem_code :
      OidcClient
      → (redirect_uri verifier : String) → Option AuthCode
      → Provider
      → Response × Provider
  unfolding code_tokens
  redeem_code client redirect_uri verifier none p = (failed 400 "invalid_grant", p)
  redeem_code client redirect_uri verifier (some grant) p =
      if not (grant.client_id === client.id) || not (grant.redirect_uri === redirect_uri)
      then (failed 400 "invalid_grant", p)
      else if not (verify_pkce sha256_base64url verifier grant.code_challenge)
      then (failed 400 "invalid_grant", p)
      else code_tokens client grant (get_user_by_id env.roles grant.user_id env.auth)
          (some_text env.primary_url) p

  pub exchange_code :
      (code redirect_uri verifier : String) → Option OidcClient → Provider → Response × Provider
  unfolding redeem_code
  exchange_code code redirect_uri verifier none p = (failed 401 "invalid_client", p)
  exchange_code code redirect_uri verifier (some client) p =
      let (grant, clients) = consume_code code draws.now p.clients in
      redeem_code client redirect_uri verifier grant (record p { clients = clients })

  pub code_request :
      Option String
      → Option String
      → Option String
      → Option Credentials
      → Provider
      → Response × Provider
  unfolding exchange_code
  code_request (some code) (some redirect_uri) (some verifier) (some creds) p =
      exchange_code code redirect_uri verifier
        (verify_client_secret verify creds.client_id creds.client_secret p.clients) p
  code_request _ _ _ _ p = (failed 400 "invalid_request", p)

  unfoldable pub code_grant :
      (body : String → Option String) → Option Credentials → Provider → Response × Provider
  unfolding code_request
  code_grant body creds p =
      code_request (some_text (body "code")) (some_text (body "redirect_uri"))
        (some_text (body "code_verifier")) creds p

  -- The refresh grant after the rotation.
  pub refresh_tokens :
      OidcClient
      → RefreshGrant
      → (next : String) → Option UserInfo
      → Option String
      → Provider
      → Response × Provider
  unfolding revoke_family
  refresh_tokens client grant next none issuer p =
      (failed 400 "invalid_grant", record p { refresh = revoke_family grant.family_id p.refresh })
  refresh_tokens client grant next (some user) none p = (failed 500 "server_error", p)
  refresh_tokens client grant next (some user) (some issuer) p =
      (issued (token_response user client grant.scope issuer draws.now none (some next)), p)

  pub use_rotated : OidcClient → Rotated → Provider → Response × Provider
  unfolding refresh_tokens
  use_rotated client unknown p = (failed 400 "invalid_grant", p)
  use_rotated client reused p = (failed 400 "invalid_grant", p)
  use_rotated client (granted grant next) p =
      if not (grant.client_id === client.id)
      then (
        failed 400 "invalid_grant",
        record p { refresh = revoke_family grant.family_id p.refresh },
      )
      else refresh_tokens client grant next (get_user_by_id env.roles grant.user_id env.auth)
          (some_text env.primary_url) p

  pub exchange_refresh : (presented : String) → Option OidcClient → Provider → Response × Provider
  unfolding use_rotated
  exchange_refresh presented none p = (failed 401 "invalid_client", p)
  exchange_refresh presented (some client) p =
      let (result, refresh) = rotate digest presented draws.minted draws.now p.refresh in
      use_rotated client result (record p { refresh = refresh })

  pub refresh_request : Option String → Option Credentials → Provider → Response × Provider
  unfolding exchange_refresh
  refresh_request (some presented) (some creds) p =
      exchange_refresh presented
        (verify_client_secret verify creds.client_id creds.client_secret p.clients) p
  refresh_request _ _ p = (failed 400 "invalid_request", p)

  unfoldable pub refresh_grant :
      (body : String → Option String) → Option Credentials → Provider → Response × Provider
  unfolding refresh_request
  refresh_grant body creds p = refresh_request (some_text (body "refresh_token")) creds p
