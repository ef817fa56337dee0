-- ===== src/Oidc/Endpoint/Stolen.antt =====
-- What the endpoints of apps/server/src/features/oidc/feature.ts do with a refresh token in the wrong
-- hands, and for a client that is no longer registered.
use text.Mathlib.TextPositions.{eq_refl}
use server_central.Prelude.{
  String, Bool, true, false, Option, none, some, ◌≡◌, refl, ◌∙◌, ◌===◌, ltb, Bool-cases,
  Option-cases, inl, inr,
}
use server_central.Prelude.Dict.{get, get-remove}
use server_central.Oidc.Clients.{OidcClient, ClientStore, verify_client_secret, delete_client}
use server_central.Oidc.Refresh.{
  RefreshRecord, TokenStore, rotate, rotate_found, rotate_unspent, revoke_family, revoke_for_client,
}
use server_central.Oidc.Refresh.Revocation.{holds_any, delete_where-gone}
use server_central.Oidc.Claims.{some_text}
use server_central.Oidc.Front.{Provider, Env, delete_client_op}
use server_central.Oidc.Endpoint.{
  Response, failed, issued, Credentials, Draws, use_rotated, exchange_refresh, refresh_request,
  refresh_grant, code_grant, code_request, exchange_code,
}
use server_central.Oidc.Endpoint.Routes.{
  token, device_grant, device_request, exchange_device, is_grant,
}

revoke_family-gone :
    (family_id : String) (s : TokenStore)
    → holds_any (λ x. x.family_id === family_id) (revoke_family family_id s) ≡ false
unfolding revoke_family
revoke_family-gone family_id s = delete_where-gone (λ x. x.family_id === family_id) s

module _ (verify : String → String → Bool) (sha256_base64url digest : String → String) (env : Env)
    (draws : Draws) where
  exchange_stolen :
      (presented : String) (client : OidcClient) (rec : RefreshRecord) (p : Provider)
      → get p.refresh.tokens (digest presented) ≡ some rec
      → (rec.client_id === client.id) ≡ false
      → ltb rec.expires_at draws.now ≡ false
      → let (answer, q) =
          exchange_refresh verify sha256_base64url digest env draws presented (some client) p in
        (answer ≡ failed 400 "invalid_grant")
        × (holds_any (λ x. x.family_id === rec.family_id) q.refresh ≡ false)
  unfolding exchange_refresh use_rotated rotate rotate_found rotate_unspent
  exchange_stolen presented client rec p g other timely = elim (Option-cases rec.used_at) [
    | inr (used, u) ↦ rw (g, u) (refl, revoke_family-gone rec.family_id p.refresh)
    | inl u ↦ rw (g, u, timely, other) (refl, revoke_family-gone rec.family_id _)
  ]

-- A refresh token that another client presents, not expired, is refused, and the whole family it belongs
-- to is gone afterwards; the same when it was spent before.
pub refresh_grant-stolen :
    (verify : String → String → Bool) (sha256_base64url digest : String → String) (env : Env)
    (draws : Draws) (body : String → Option String) (creds : Credentials) (presented : String)
    (client : OidcClient) (rec : RefreshRecord) (p : Provider)
    → some_text (body "refresh_token") ≡ some presented
    → verify_client_secret verify creds.client_id creds.client_secret p.clients ≡ some client
    → get p.refresh.tokens (digest presented) ≡ some rec
    → (rec.client_id === client.id) ≡ false
    → ltb rec.expires_at draws.now ≡ false
    → let (answer, q) =
        refresh_grant verify sha256_base64url digest env draws body (some creds) p in
      (answer ≡ failed 400 "invalid_grant")
      × (holds_any (λ x. x.family_id === rec.family_id) q.refresh ≡ false)
unfolding refresh_grant refresh_request
refresh_grant-stolen verify sha digest env draws body creds presented client rec p h shown g other
      timely =
    rw (h, shown)
      (exchange_stolen verify sha digest env draws presented client rec p g other timely)

clients-delete_client :
    (client_id : String) (s : ClientStore)
    → get (delete_client client_id s).clients client_id ≡ none
unfolding delete_client
clients-delete_client client_id s = elim (Option-cases (get s.clients client_id)) [
  | inl e ↦ rw (e, delete_client) e
  | inr (rec, e) ↦
      rw (e, delete_client) (get-remove s.clients client_id client_id ∙ rw (eq_refl client_id) refl)
]

abbrev pub is_issued : Response → Bool
is_issued (issued t) = true
is_issued _ = false

module _ (verify : String → String → Bool) (sha256_base64url digest : String → String) (env : Env)
    (draws : Draws) (body : String → Option String) (creds : Credentials) (p : Provider) where
  refused_code :
      (code uri verifier : Option String)
      → verify_client_secret verify creds.client_id creds.client_secret p.clients ≡ none
      → is_issued
          (code_request verify sha256_base64url digest env draws code uri verifier (some creds) p).0
        ≡ false
  unfolding code_request exchange_code
  refused_code none uri verifier h = refl
  refused_code (some code) none verifier h = refl
  refused_code (some code) (some uri) none h = refl
  refused_code (some code) (some uri) (some verifier) h = rw h refl

  refused_refresh :
      (presented : Option String)
      → verify_client_secret verify creds.client_id creds.client_secret p.clients ≡ none
      → is_issued
          (refresh_request verify sha256_base64url digest env draws presented (some creds) p).0
        ≡ false
  unfolding refresh_request exchange_refresh
  refused_refresh none h = refl
  refused_refresh (some presented) h = rw h refl

  refused_device :
      (device_code : Option String)
      → verify_client_secret verify creds.client_id creds.client_secret p.clients ≡ none
      → is_issued
          (device_request verify sha256_base64url digest env draws device_code (some creds) p).0
        ≡ false
  unfolding device_request exchange_device
  refused_device none h = refl
  refused_device (some device_code) h = rw h refl

  -- Whatever grant is asked for, a client that does not show its secret gets no token.
  pub token_refused :
      verify_client_secret verify creds.client_id creds.client_secret p.clients ≡ none
      → is_issued (token verify sha256_base64url digest env draws body (some creds) p).0 ≡ false
  unfolding token code_grant refresh_grant device_grant
  token_refused h = elim (Bool-cases (is_grant (body "grant_type") "refresh_token")) [
    | inl e ↦ rw e (refused_refresh (some_text (body "refresh_token")) h)
    | inr e ↦
        elim (Bool-cases
          (is_grant (body "grant_type") "urn:ietf:params:oauth:grant-type:device_code")) [
            | inl f ↦ rw (e, f) (refused_device (some_text (body "device_code")) h)
            | inr f ↦ elim (Bool-cases (is_grant (body "grant_type") "authorization_code")) [
              | inl k ↦
                  rw (e, f, k)
                    (refused_code (some_text (body "code")) (some_text (body "redirect_uri"))
                      (some_text (body "code_verifier")) h)
              | inr k ↦ rw (e, f, k) refl
            ]
          ]
  ]

unknown_client_secret :
    (verify : String → String → Bool) (client_id secret : String) (s : ClientStore)
    → get s.clients client_id ≡ none
    → verify_client_secret verify client_id secret s ≡ none
unfolding verify_client_secret
unknown_client_secret verify client_id secret s e = rw (e, verify_client_secret) refl

-- Once a client is deleted, no grant gives it a token, and no refresh token issued to it is left.
pub token-delete_client_op :
    (verify : String → String → Bool) (sha256_base64url digest : String → String) (env : Env)
    (draws : Draws) (body : String → Option String) (creds : Credentials) (p : Provider)
    → let q = delete_client_op creds.client_id p in
      (is_issued (token verify sha256_base64url digest env draws body (some creds) q).0 ≡ false)
      × (holds_any (λ x. x.client_id === creds.client_id) q.refresh ≡ false)
unfolding delete_client_op revoke_for_client
token-delete_client_op verify sha digest env draws body creds p = (
  token_refused verify sha digest env draws body creds (delete_client_op creds.client_id p) (
      unknown_client_secret verify creds.client_id creds.client_secret
        (delete_client creds.client_id p.clients)
        (clients-delete_client creds.client_id p.clients)),
  delete_where-gone (λ x. x.client_id === creds.client_id) p.refresh,
)
