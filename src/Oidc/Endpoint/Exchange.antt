-- ===== src/Oidc/Endpoint/Exchange.antt =====
-- When the token endpoint of apps/server/src/features/oidc/feature.ts answers a code with tokens.
use text.Mathlib.TextEquality.{eq_iff}
use text.Mathlib.TextPositions.{eq_refl}
use server_central.Prelude.{
  ℕ, String, Bool, true, false, not, ◌||◌, Option, none, some, ◌≡◌, ◌≢◌, refl, subst, ap, arith,
  ◌/◌, ◌===◌, ltb, Bool-cases, Option-cases, inl, inr,
}
use server_central.Prelude.Dict.{get, get-remove}
use server_central.Auth.{UserInfo}
use server_central.Auth.Accounts.{get_user_by_id}
use server_central.Oidc.Clients.{OidcClient, AuthCode, verify_client_secret, consume_code, fresh}
use server_central.Oidc.Claims.{some_text, verify_pkce, build_access_token}
use server_central.Oidc.Front.{Provider, Env}
use server_central.Oidc.Endpoint.{
  Response, issued, TokenResponse, Credentials, Draws, code_tokens, token_response, id_token_for,
  redeem_code, exchange_code, code_request, code_grant,
}
use server_central.Oidc.Endpoint.Chain.{Chain, start_chain-clients, start_chain-Chain}

-- What holds of the tokens and the state, when tokens are issued.
abbrev pub WhenIssued : (TokenResponse → Provider → Type 0) → Response × Provider → Type 0
WhenIssued P (issued t, q) = P t q
WhenIssued P _ = Unit

pub when_issued :
    (P : TokenResponse → Provider → Type 0) (r : Response × Provider) (t : TokenResponse)
    (q : Provider)
    → WhenIssued P r
    → r ≡ (issued t, q)
    → P t q
when_issued P r t q h e = subst (WhenIssued P) e h

module _ (verify : String → String → Bool) (sha256_base64url digest : String → String) (env : Env)
    (draws : Draws) where
  -- The code is one that the authenticated client was given, still valid, for that redirect URI and
  -- that PKCE challenge; the tokens are for the user who confirmed; and the code is gone afterwards.
  pub record CodeExchange (body : String → Option String) (creds : Option Credentials)
      (p : Provider) (t : TokenResponse) (q : Provider) : Type 0 where
    pub code : String
    pub redirect_uri : String
    pub verifier : String
    pub credentials : Credentials
    pub client : OidcClient
    pub grant : AuthCode
    pub user : UserInfo
    pub issuer : String
    pub code_given : some_text (body "code") ≡ some code
    pub redirect_given : some_text (body "redirect_uri") ≡ some redirect_uri
    pub credentials_given : creds ≡ some credentials
    pub authenticated :
        verify_client_secret verify credentials.client_id credentials.client_secret p.clients
        ≡ some client
    pub found : get p.clients.codes code ≡ some grant
    pub in_time : ltb grant.expires_at draws.now ≡ false
    pub own : grant.client_id ≡ client.id
    pub same_redirect : grant.redirect_uri ≡ redirect_uri
    pub proved : verify_pkce sha256_base64url verifier grant.code_challenge ≡ true
    pub known : get_user_by_id env.roles grant.user_id env.auth ≡ some user
    pub verifier_given : some_text (body "code_verifier") ≡ some verifier
    pub issuer_given : some_text env.primary_url ≡ some issuer
    pub access_token :
        t.access_token ≡ build_access_token user issuer client.id grant.scope draws.now
    pub id_token :
        t.id_token
        ≡ some (
            id_token_for verify sha256_base64url digest env draws user client grant.scope issuer
              grant.nonce
              (grant.issued_at / 1000))
    pub scope : t.scope ≡ grant.scope
    pub refresh_token :
        Chain digest draws user client grant.scope t.refresh_token p.refresh q.refresh
    pub spent : get q.clients.codes code ≡ none

  -- What holds of the tokens that the end of the grant gives.
  record Tokens (client : OidcClient) (grant : AuthCode) (u : UserInfo) (i : String)
      (t : TokenResponse) (p q : Provider) : Type 0 where
    known : get_user_by_id env.roles grant.user_id env.auth ≡ some u
    primary : some_text env.primary_url ≡ some i
    given :
        t
        ≡ token_response u client grant.scope i draws.now
            (some (
              id_token_for verify sha256_base64url digest env draws u client grant.scope i
                grant.nonce
                (grant.issued_at / 1000)))
            t.refresh_token
    chained : Chain digest draws u client grant.scope t.refresh_token p.refresh q.refresh
    left : q.clients ≡ p.clients

  module _ (P : TokenResponse → Provider → Type 0) where
    code_tokens-issued :
        (client : OidcClient) (grant : AuthCode) (user : Option UserInfo) (issuer : Option String)
        (p : Provider)
        → get_user_by_id env.roles grant.user_id env.auth ≡ user
        → some_text env.primary_url ≡ issuer
        → ((u : UserInfo) (i : String) (t : TokenResponse) (q : Provider)
            → Tokens client grant u i t p q
            → P t q)
        → WhenIssued P
            (code_tokens verify sha256_base64url digest env draws client grant user issuer p)
    unfolding code_tokens
    code_tokens-issued client grant none issuer p eu ei k = tt
    code_tokens-issued client grant (some user) none p eu ei k = tt
    code_tokens-issued client grant (some user) (some issuer) p eu ei k =
        k user issuer _ _ (record {
          known = eu;
          primary = ei;
          given = refl;
          chained = start_chain-Chain digest draws user client grant.scope p;
          left = start_chain-clients digest draws user client grant.scope p;
        })

    redeem_code-issued :
        (client : OidcClient) (redirect_uri verifier : String) (found : Option AuthCode)
        (p : Provider)
        → ((grant : AuthCode) (u : UserInfo) (i : String) (t : TokenResponse) (q : Provider)
            → found ≡ some grant
            → grant.client_id ≡ client.id
            → grant.redirect_uri ≡ redirect_uri
            → verify_pkce sha256_base64url verifier grant.code_challenge ≡ true
            → Tokens client grant u i t p q
            → P t q)
        → WhenIssued P (
            redeem_code verify sha256_base64url digest env draws client redirect_uri verifier found
              p)
    unfolding redeem_code
    redeem_code-issued client redirect_uri verifier none p k = tt
    redeem_code-issued client redirect_uri verifier (some grant) p k =
        elim (Bool-cases
          (not (grant.client_id === client.id) || not (grant.redirect_uri === redirect_uri))) [
            | inl e ↦ rw (e, WhenIssued) tt
            | inr e ↦
                elim (Bool-cases (verify_pkce sha256_base64url verifier grant.code_challenge)) [
                  | inr f ↦ rw (e, f, WhenIssued) tt
                  | inl f ↦
                      rw (e, f)
                        (code_tokens-issued client grant
                          (get_user_by_id env.roles grant.user_id env.auth)
                          (some_text env.primary_url) p refl refl
                          λ u i t q given.
                            k grant u i t q refl
                              ((eq_iff grant.client_id client.id).0 (ground arith))
                              ((eq_iff grant.redirect_uri redirect_uri).0 (ground arith)) f given)
                ]
          ]

  fresh_some :
      (now : ℕ) (o : Option AuthCode) (grant : AuthCode)
      → fresh now o ≡ some grant
      → (o ≡ some grant) × (ltb grant.expires_at now ≡ false)
  fresh_some now none grant e = cc
  fresh_some now (some rec) grant e = elim (Bool-cases (ltb rec.expires_at now)) [
    | inl late ↦ absurd (impossible (rw late at e))
    | inr timely ↦
        let same : ◌≡◌ {A = Option AuthCode} (some rec) (some grant) = rw timely at e in
        (same, subst {A = AuthCode} (λ g. ltb g.expires_at now ≡ false) (inj same) timely)
  ]
    where
      impossible : ◌≢◌ {A = Option AuthCode} none (some grant)
      impossible h = cc

      inj : ◌≡◌ {A = Option AuthCode} (some rec) (some grant) → rec ≡ grant
      inj h = cc

  code_request-issued :
      (body : String → Option String) (creds : Option Credentials) (p : Provider)
      (code redirect_uri verifier : Option String)
      → some_text (body "code") ≡ code
      → some_text (body "redirect_uri") ≡ redirect_uri
      → some_text (body "code_verifier") ≡ verifier
      → WhenIssued
          (CodeExchange body creds p)
          (code_request verify sha256_base64url digest env draws code redirect_uri verifier creds p)
  unfolding code_request exchange_code consume_code
  code_request-issued body creds p none uri ver ec eu ev = tt
  code_request-issued body creds p (some code) none ver ec eu ev = tt
  code_request-issued body creds p (some code) (some uri) none ec eu ev = tt
  code_request-issued body none p (some code) (some uri) (some ver) ec eu ev = tt
  code_request-issued body (some c) p (some code) (some uri) (some ver) ec eu ev =
      elim (Option-cases (verify_client_secret verify c.client_id c.client_secret p.clients)) [
        | inl e ↦ rw (e, WhenIssued) tt
        | inr (client, e) ↦ rw e (
            redeem_code-issued (CodeExchange body (some c) p) client uri ver
              (fresh draws.now (get p.clients.codes code)) _
              λ grant u i t q found own same pkce given. record {
                code = code;
                redirect_uri = uri;
                verifier = ver;
                credentials = c;
                client = client;
                grant = grant;
                user = u;
                issuer = i;
                code_given = ec;
                redirect_given = eu;
                credentials_given = refl;
                authenticated = e;
                found = (fresh_some draws.now (get p.clients.codes code) grant found).0;
                in_time = (fresh_some draws.now (get p.clients.codes code) grant found).1;
                own = own;
                same_redirect = same;
                proved = pkce;
                known = given.known;
                verifier_given = ev;
                issuer_given = given.primary;
                access_token = ap (λ r. r.access_token) given.given;
                id_token = ap (λ r. r.id_token) given.given;
                scope = ap (λ r. r.scope) given.given;
                refresh_token = given.chained;
                spent = rw (given.left, get-remove p.clients.codes code code, eq_refl code) refl;
              })
      ]

-- Tokens are issued for a code only to the client that the code was given to and that shows its
-- secret, in time, for the redirect URI of the request, and to who sends the PKCE verifier. The access
-- token, the ID token and the refresh token, which is given just if the scope asks for it, are all for
-- the user who confirmed and for that client and scope; and the code is gone afterwards.
pub code_grant-IsExchange :
    (verify : String → String → Bool) (sha256_base64url digest : String → String) (env : Env)
    (draws : Draws) (body : String → Option String) (creds : Option Credentials) (p q : Provider)
    (t : TokenResponse)
    → code_grant verify sha256_base64url digest env draws body creds p ≡ (issued t, q)
    → CodeExchange verify sha256_base64url digest env draws body creds p t q
unfolding code_grant
code_grant-IsExchange verify sha digest env draws body creds p q t e =
    when_issued (CodeExchange verify sha digest env draws body creds p) _ t q
      (code_request-issued verify sha digest env draws body creds p (some_text (body "code"))
        (some_text (body "redirect_uri")) (some_text (body "code_verifier")) refl refl refl)
      e
