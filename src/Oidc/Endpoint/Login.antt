-- ===== src/Oidc/Endpoint/Login.antt =====
-- The two halves of a login of apps/server/src/features/oidc/feature.ts together: what the user confirms
-- in the browser, and the exchange that the client's backend makes.
use text.Mathlib.TextPositions.{eq_refl}
use server_central.Prelude.{
  ℕ, ◌+◌, ◌/◌, ◌≤◌, String, Bool, true, false, not, ◌&&◌, Option, none, some, ◌≡◌, refl, sym, ap,
  ◌∙◌, arith, if◌then◌else◌, ◌===◌, ltb, Option-cases, inl, inr, Ensures, ensured, Ensures-ensure,
  length, includes, is_empty, ◌==◌, Result, ok, err, ◌≢◌, >>=-eq-ok,
}
use server_central.Prelude.Dict.{get, get-put}
use server_central.Auth.{UserInfo}
use server_central.Auth.Accounts.{get_user_by_id}
use server_central.Oidc.Clients.{
  OidcClient, ClientStore, ClientRecord, AuthCode, AuthorizeParams, verify_client_secret,
  consume_code, issue_code, validate_request, validate_found, to_public, code_ttl_ms, ClientError,
  unknown_client,
}
use server_central.Oidc.Claims.{some_text, verify_pkce, build_access_token}
use server_central.Oidc.Front.{
  Provider, Env, FrontError, complete_authorize, assert_may_access, as_front,
}
use server_central.Oidc.Endpoint.{
  issued, TokenResponse, Credentials, Draws, start_chain, token_response, id_token_for, code_tokens,
  redeem_code, exchange_code, code_request, code_grant,
}

-- The state after a request was confirmed: a code waits, made for this request.
pub record Confirmed (env : Env) (user : UserInfo) (params : AuthorizeParams) (code : String)
    (now : ℕ) (p q : Provider) : Type 0 where
  pub client : OidcClient
  pub valid : validate_request params p.clients ≡ ok client
  pub admitted : assert_may_access env user client params.scope ≡ ok tt
  pub clients :
      q.clients
      ≡ issue_code code
          (record {
            user_id = user.id;
            client_id = client.id;
            redirect_uri = params.redirect_uri;
            scope = params.scope;
            code_challenge = params.code_challenge;
            nonce = params.nonce;
          })
          now
          p.clients
  pub refresh : q.refresh ≡ p.refresh
  pub devices : q.devices ≡ p.devices

as_front-ok : {A : Type 0} (r : Result ClientError A) {a : A} → as_front r ≡ ok a → r ≡ ok a
as_front-ok (err e) h = cc
as_front-ok (ok b) h = cc

ok_pair :
    {url other : String} {p q : Provider}
    → ◌≡◌ {A = Result FrontError (String × Provider)} (ok (url, p)) (ok (other, q))
    → p ≡ q
ok_pair h = cc

-- A confirmed request was one of a registered client, for a registered redirect URI and with a PKCE
-- challenge, by a user whom the app's gate admits; nothing changed but the code that was made for it.
pub complete_authorize-IsConfirmed :
    (redirect : String → String → String → String) (env : Env) (who : Option UserInfo)
    (params : AuthorizeParams) (code : String) (now : ℕ) (p q : Provider) (url : String)
    → complete_authorize redirect env who params code now p ≡ ok (url, q)
    → (user : UserInfo) × (who ≡ some user) × Confirmed env user params code now p q
unfolding complete_authorize
complete_authorize-IsConfirmed redirect env none params code now p q url e = cc
complete_authorize-IsConfirmed redirect env (some user) params code now p q url e =
    let (client, valid, rest) = >>=-eq-ok (as_front (validate_request params p.clients)) _ e in
    let (u, admitted, end) = >>=-eq-ok (assert_may_access env user client params.scope) _ rest in
    let same = ok_pair end in
    (
      user,
      refl,
      record {
        client = client;
        valid = as_front-ok (validate_request params p.clients) valid;
        admitted = admitted;
        clients = sym (ap (λ r. r.clients) same);
        refresh = sym (ap (λ r. r.refresh) same);
        devices = sym (ap (λ r. r.devices) same);
      },
    )

validate_found-client :
    (params : AuthorizeParams) (rec : ClientRecord)
    → Ensures (λ c. to_public rec ≡ c) (validate_found params rec)
unfolding validate_found
validate_found-client params rec =
    let P : OidcClient → Type 0 = λ c. to_public rec ≡ c in
    Ensures-ensure P (not (length rec.redirect_uris == 0)) _ _ λ a.
      Ensures-ensure P (includes rec.redirect_uris params.redirect_uri) _ _ λ b.
        Ensures-ensure P
          (params.code_challenge_method === "S256" && not (is_empty params.code_challenge)) _ _
          λ c. refl

shown_client :
    (b : Bool) (c shown : OidcClient) → (if b then some c else none) ≡ some shown → c ≡ shown
shown_client true c shown h = cc
shown_client false c shown h = cc

-- The client that made the request is the one that shows its secret under the same id.
validated_client :
    (verify : String → String → Bool) (params : AuthorizeParams) (secret : String) (s : ClientStore)
    (client shown : OidcClient)
    → validate_request params s ≡ ok client
    → verify_client_secret verify params.client_id secret s ≡ some shown
    → client ≡ shown
unfolding validate_request verify_client_secret
validated_client verify params secret s client shown e f =
    elim (Option-cases (get s.clients params.client_id)) [
      | inl g ↦ absurd (impossible (rw (g, validate_request) at e))
      | inr (rec, g) ↦
          sym (
            ensured (λ c. to_public rec ≡ c) (validate_found params rec)
              (validate_found-client params rec) (rw (g, validate_request) at e))
          ∙ shown_client (verify secret rec.secret_hash) (to_public rec) shown
              (rw (g, verify_client_secret) at f)
    ]
  where
    impossible : ◌≢◌ {A = Result ClientError OidcClient} (err unknown_client) (ok client)
    impossible h = cc

-- A code that waits is exchanged when everything about the request is right.
exchange_found :
    (verify : String → String → Bool) (sha256_base64url digest : String → String) (env : Env)
    (draws : Draws) (code redirect_uri verifier issuer : String) (client : OidcClient)
    (grant : AuthCode) (user : UserInfo) (p : Provider)
    → get p.clients.codes code ≡ some grant
    → ltb grant.expires_at draws.now ≡ false
    → (grant.client_id === client.id) ≡ true
    → (grant.redirect_uri === redirect_uri) ≡ true
    → (sha256_base64url verifier === grant.code_challenge) ≡ true
    → get_user_by_id env.roles grant.user_id env.auth ≡ some user
    → some_text env.primary_url ≡ some issuer
    → let left : Provider = record p { clients = (consume_code code draws.now p.clients).1 } in
      exchange_code verify sha256_base64url digest env draws code redirect_uri verifier
        (some client)
        p
      ≡ code_tokens verify sha256_base64url digest env draws client grant
          (some user)
          (some issuer)
          left
unfolding exchange_code redeem_code consume_code verify_pkce
exchange_found verify sha digest env draws code uri ver issuer client grant user p g timely own same
      pkce known primary =
    rw (g, timely, own, same, pkce, known, primary) refl

-- What a user confirmed the client can exchange: with its secret, the verifier of the challenge and
-- the same redirect URI, within the code's minute, while the account is there and the primary URL
-- set, it gets an access token and an ID token for this user and scope, with the nonce of the request.
pub code_grant-complete_authorize :
    (verify : String → String → Bool) (sha256_base64url digest : String → String)
    (redirect : String → String → String → String) (env later : Env) (who : UserInfo)
    (params : AuthorizeParams) (code : String) (now : ℕ) (p q : Provider) (url : String)
    (draws : Draws) (body : String → Option String) (verifier secret : String) (client : OidcClient)
    (user : UserInfo) (issuer : String)
    → complete_authorize redirect env (some who) params code now p ≡ ok (url, q)
    → some_text (body "code") ≡ some code
    → some_text (body "redirect_uri") ≡ some params.redirect_uri
    → some_text (body "code_verifier") ≡ some verifier
    → sha256_base64url verifier ≡ params.code_challenge
    → verify_client_secret verify params.client_id secret q.clients ≡ some client
    → draws.now ≤ now + code_ttl_ms
    → get_user_by_id later.roles who.id later.auth ≡ some user
    → some_text later.primary_url ≡ some issuer
    → let creds : Credentials = record { client_id = params.client_id; client_secret = secret } in
      (t : TokenResponse) × ((code_grant verify sha256_base64url digest later draws body
          (some creds)
          q).0
        ≡ issued t)
      × (t.access_token ≡ build_access_token user issuer client.id params.scope draws.now)
      × (t.id_token
          ≡ some (
              id_token_for verify sha256_base64url digest later draws user client params.scope
                issuer params.nonce
                (now / 1000)))
unfolding code_grant code_request code_tokens issue_code verify_client_secret
code_grant-complete_authorize verify sha digest redirect env later who params code now p q url draws
      body verifier secret client user issuer e hc hu hv pkce shown timely known primary =
    let (u, same, c) =
      complete_authorize-IsConfirmed redirect env (some who) params code now p q url e in
    let is_who : who ≡ u = cc in
    let shown_before : verify_client_secret verify params.client_id secret p.clients ≡ some client =
      rw c.clients at shown in
    let is_client =
      validated_client verify params secret p.clients c.client client c.valid shown_before in
    let grant : AuthCode = record {
      user_id = u.id;
      client_id = c.client.id;
      redirect_uri = params.redirect_uri;
      scope = params.scope;
      code_challenge = params.code_challenge;
      nonce = params.nonce;
      issued_at = now;
      expires_at = now + code_ttl_ms;
    } in
    let waits : get q.clients.codes code ≡ some grant =
      rw (c.clients, get-put p.clients.codes code code grant, eq_refl code) refl in
    let exchanged =
      exchange_found verify sha digest later draws code params.redirect_uri verifier issuer client
        grant user q waits (ground arith) (rw is_client (eq_refl client.id))
        (eq_refl params.redirect_uri) (rw pkce (eq_refl params.code_challenge))
        (rw (← is_who) known) primary in
    let left : Provider = record q { clients = (consume_code code draws.now q.clients).1 } in
    (
      token_response user client params.scope issuer draws.now
          (some (
            id_token_for verify sha digest later draws user client params.scope issuer params.nonce
              (now / 1000)))
          (start_chain digest draws user client params.scope left).0,
      rw (hc, hu, hv, shown) (ap (λ r. r.0) exchanged),
      refl,
      refl,
    )
