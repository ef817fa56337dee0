-- ===== src/Oidc/Endpoint/Routes.antt =====
-- apps/server/src/features/oidc/feature.ts: the device grant, the token endpoint that chooses a grant, and
-- the endpoints for device authorization, revocation and user information.
use server_central.Prelude.{
  ℕ, ◌/◌, String, Bool, false, Option, none, some, Result, ok, err, if◌then◌else◌, ◌===◌, is_some,
  or_else,
}
use server_central.Prelude.Text.Split.{◌+++◌}
use server_central.Auth.{UserInfo}
use server_central.Auth.Accounts.{get_user_by_id}
use server_central.Oidc.Clients.{OidcClient, verify_client_secret, get_client}
use server_central.Oidc.Refresh.{revoke}
use server_central.Oidc.Device.Code.{format_user_code}
use server_central.Oidc.Device.Store.{
  DeviceRequest, DeviceStore, PollResult, CapError, poll, request, collected, authorization_pending,
  slow_down, access_denied, expired_token, invalid_grant, poll_interval_s,
}
use server_central.Oidc.Claims.{
  Payload, known_app_permissions, scoped_claims, some_text, verify_jwt,
}
use server_central.Oidc.Front.{Provider, Env, effective_group_prefix, declared_roles_for}
use server_central.Oidc.Endpoint.{
  Response, failed, issued, started, user_info, revoked, Credentials, Draws, start_chain,
  token_response, id_token_for, code_grant, refresh_grant,
}

-- `body.get("grant_type") === name`
abbrev pub is_grant : Option String → String → Bool
is_grant none name = false
is_grant (some given) name = given === name

module _ (verify : String → String → Bool) (sha256_base64url digest : String → String) (env : Env)
    (draws : Draws) where
  -- The tokens for a device, once user and issuer are there.
  pub device_tokens :
      OidcClient
      → DeviceRequest
      → (approved_at : ℕ) → Option UserInfo
      → Option String
      → Provider
      → Response × Provider
  unfolding start_chain
  device_tokens client r approved_at none issuer p = (failed 400 "invalid_grant", p)
  device_tokens client r approved_at (some user) none p = (failed 500 "server_error", p)
  device_tokens client r approved_at (some user) (some issuer) p =
      let (refresh_token, left) = start_chain digest draws user client r.scope p in
      (
        issued (
            token_response user client r.scope issuer draws.now
              (some (
                id_token_for verify sha256_base64url digest env draws user client r.scope issuer
                  none (approved_at / 1000)))
              refresh_token),
        left,
      )

  pub use_poll : OidcClient → PollResult → Provider → Response × Provider
  unfolding device_tokens
  use_poll client authorization_pending p = (failed 400 "authorization_pending", p)
  use_poll client slow_down p = (failed 400 "slow_down", p)
  use_poll client access_denied p = (failed 400 "access_denied", p)
  use_poll client expired_token p = (failed 400 "expired_token", p)
  use_poll client invalid_grant p = (failed 400 "invalid_grant", p)
  use_poll client (collected r user_id approved_at) p =
      device_tokens client r approved_at (get_user_by_id env.roles user_id env.auth)
        (some_text env.primary_url) p

  unfoldable pub exchange_device :
      (device_code : String) → Option OidcClient → Provider → Response × Provider
  unfolding use_poll
  exchange_device device_code none p = (failed 401 "invalid_client", p)
  exchange_device device_code (some client) p =
      let (result, devices) = poll device_code client.id draws.now p.devices in
      use_poll client result (record p { devices = devices })

  unfoldable pub device_request :
      Option String → Option Credentials → Provider → Response × Provider
  unfolding exchange_device
  device_request (some device_code) (some creds) p =
      exchange_device device_code
        (verify_client_secret verify creds.client_id creds.client_secret p.clients) p
  device_request _ _ p = (failed 400 "invalid_request", p)

  unfoldable pub device_grant :
      (body : String → Option String) → Option Credentials → Provider → Response × Provider
  unfolding device_request
  device_grant body creds p = device_request (some_text (body "device_code")) creds p

  -- `/oidc/token`
  unfoldable pub token :
      (body : String → Option String) → Option Credentials → Provider → Response × Provider
  unfolding code_grant refresh_grant device_grant
  token body creds p =
      if is_grant (body "grant_type") "refresh_token"
      then refresh_grant verify sha256_base64url digest env draws body creds p
      else if is_grant (body "grant_type") "urn:ietf:params:oauth:grant-type:device_code"
      then device_grant body creds p
      else if is_grant (body "grant_type") "authorization_code"
      then code_grant verify sha256_base64url digest env draws body creds p
      else (failed 400 "unsupported_grant_type", p)

-- The answer to a device that asks for a code.
abbrev started_with :
    (issuer : String) → Result CapError DeviceRequest × DeviceStore → Provider → Response × Provider
started_with issuer (err e, devices) p = (failed 429 "slow_down", record p { devices = devices })
started_with issuer (ok r, devices) p = (
  started (record {
    device_code = r.device_code;
    user_code = format_user_code r.user_code;
    verification_uri = issuer +++ "/device";
    interval = poll_interval_s;
  }),
  record p { devices = devices },
)

module _ (verify : String → String → Bool) (env : Env) where
  request_for :
      (body : String → Option String)
      → (ip user_agent : Option String) → (device_code : String) → (draws : ℕ → ℕ → ℕ) → ℕ
      → (issuer : String) → Option OidcClient
      → Provider
      → Response × Provider
  request_for body ip user_agent device_code draws now issuer none p =
      (failed 401 "invalid_client", p)
  request_for body ip user_agent device_code draws now issuer (some client) p =
      started_with issuer
        (request
          (record {
            client_id = client.id;
            scope = or_else (some_text (body "scope")) "openid";
            ip = ip;
            user_agent = user_agent;
          })
          device_code draws now p.devices)
        p

  authorize_for :
      (body : String → Option String)
      → (ip user_agent : Option String) → (device_code : String) → (draws : ℕ → ℕ → ℕ) → ℕ
      → Option String
      → Option Credentials
      → Provider
      → Response × Provider
  unfolding request_for
  authorize_for body ip user_agent device_code draws now none creds p =
      (failed 500 "server_error", p)
  authorize_for body ip user_agent device_code draws now (some issuer) none p =
      (failed 400 "invalid_request", p)
  authorize_for body ip user_agent device_code draws now (some issuer) (some creds) p =
      request_for body ip user_agent device_code draws now issuer
        (verify_client_secret verify creds.client_id creds.client_secret p.clients) p

  -- `/oidc/device_authorization`
  unfoldable pub device_authorization :
      (body : String → Option String)
      → (ip user_agent : Option String) → Option Credentials
      → (device_code : String) → (draws : ℕ → ℕ → ℕ) → ℕ
      → Provider
      → Response × Provider
  unfolding authorize_for
  device_authorization body ip user_agent creds device_code draws now p =
      authorize_for body ip user_agent device_code draws now (some_text env.primary_url) creds p

abbrev is_client : (String → String → Bool) → Option Credentials → Provider → Bool
is_client verify none p = false
is_client verify (some creds) p =
    is_some (verify_client_secret verify creds.client_id creds.client_secret p.clients)

abbrev revoke_given : (String → String) → Option String → Provider → Provider
revoke_given digest none p = p
revoke_given digest (some token) p = record p { refresh = (revoke digest token p.refresh).1 }

-- `/oidc/revoke`
unfoldable pub revoke_endpoint :
    (verify : String → String → Bool)
    → (digest : String → String) → (body : String → Option String) → Option Credentials
    → Provider
    → Response × Provider
revoke_endpoint verify digest body creds p =
    if is_client verify creds p
    then (revoked, revoke_given digest (some_text (body "token")) p)
    else (failed 401 "invalid_client", p)

module _ (env : Env) where
  abbrev claims_for : Option UserInfo → Option OidcClient → (scope : String) → Response
  claims_for (some user) (some client) scope = user_info (
      scoped_claims user scope (effective_group_prefix env client)
        (known_app_permissions env.roles env.auth) (declared_roles_for env client))
  claims_for _ _ scope = failed 401 "invalid_token"

  abbrev user_of : Option String → Option UserInfo
  user_of none = none
  user_of (some sub) = get_user_by_id env.roles sub env.auth

  abbrev client_of : Option String → Provider → Option OidcClient
  client_of none p = none
  client_of (some aud) p = get_client p.clients aud

  abbrev describe : Option Payload → Provider → Response
  describe none p = failed 401 "invalid_token"
  describe (some payload) p =
      claims_for (user_of (some_text payload.sub)) (client_of (some_text payload.aud) p)
        (or_else payload.scope "")

  -- `/oidc/userinfo`; `token` is the bearer token.
  unfoldable pub userinfo :
      (signed : String → String → Bool)
      → (decode : String → Payload) → (token : Option String) → ℕ
      → Provider
      → Response
  unfolding verify_jwt
  userinfo signed decode none now p = failed 401 "invalid_token"
  userinfo signed decode (some token) now p = describe (verify_jwt signed decode token now) p
