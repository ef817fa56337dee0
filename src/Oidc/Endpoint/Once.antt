-- ===== src/Oidc/Endpoint/Once.antt =====
-- A code of apps/server/src/features/oidc/feature.ts that was exchanged, over what may come after.
use server_central.Prelude.{
  ℕ, String, Bool, true, false, not, ◌||◌, Option, none, some, ok, err, Result, >>=-eq-ok, [],
  subst, ◌≡◌, ◌≢◌, refl, sym, ap, ◌∙◌, ◌===◌, Bool-cases, Option-cases, inl, inr, if◌then◌else◌,
}
use server_central.Prelude.Dict.{Dict, get, get-put, get-remove}
use server_central.Auth.{UserInfo}
use server_central.Oidc.Clients.{
  OidcClient, AuthCode, AuthorizeParams, validate_request, verify_client_secret, consume_code,
  issue_code, fresh,
}
use server_central.Oidc.Claims.{some_text, verify_pkce}
use server_central.Oidc.Front.{
  Provider, Env, FrontError, as_front, complete_authorize, assert_may_access,
}
use server_central.Oidc.Endpoint.{
  issued, TokenResponse, Credentials, Draws, code_tokens, redeem_code, exchange_code, code_request,
  code_grant,
}
use server_central.Oidc.Endpoint.Chain.{start_chain-clients}
use server_central.Oidc.Endpoint.Exchange.{code_grant-IsExchange}

none_either : (b : Bool) → ◌≡◌ {A = Option AuthCode} (if b then none else none) none
none_either true = refl
none_either false = refl

module _ (verify : String → String → Bool) (sha256_base64url digest : String → String) (env : Env)
    (draws : Draws) where
  code_tokens-clients :
      (client : OidcClient) (grant : AuthCode) (user : Option UserInfo) (issuer : Option String)
      (p : Provider)
      → (code_tokens verify sha256_base64url digest env draws client grant user issuer p).1.clients
        ≡ p.clients
  unfolding code_tokens
  code_tokens-clients client grant none issuer p = refl
  code_tokens-clients client grant (some user) none p = refl
  code_tokens-clients client grant (some user) (some issuer) p =
      start_chain-clients digest draws user client grant.scope p

  redeem_code-clients :
      (client : OidcClient) (redirect_uri verifier : String) (found : Option AuthCode)
      (p : Provider)
      → (redeem_code verify sha256_base64url digest env draws client redirect_uri verifier found
          p).1.clients
        ≡ p.clients
  unfolding redeem_code
  redeem_code-clients client redirect_uri verifier none p = refl
  redeem_code-clients client redirect_uri verifier (some grant) p =
      elim (Bool-cases
        (not (grant.client_id === client.id) || not (grant.redirect_uri === redirect_uri))) [
          | inl e ↦ rw e refl
          | inr e ↦ elim (Bool-cases (verify_pkce sha256_base64url verifier grant.code_challenge)) [
            | inr f ↦ rw (e, f) refl
            | inl f ↦ rw (e, f) (code_tokens-clients client grant _ _ p)
          ]
        ]

  code_request-absent :
      (code uri ver : Option String) (creds : Option Credentials) (p : Provider) (gone : String)
      → get p.clients.codes gone ≡ none
      → get
          (code_request verify sha256_base64url digest env draws code uri ver creds
            p).1.clients.codes
          gone
        ≡ none
  unfolding code_request exchange_code consume_code
  code_request-absent (some code) (some uri) (some ver) (some c) p gone h =
      elim (Option-cases (verify_client_secret verify c.client_id c.client_secret p.clients)) [
        | inl e ↦ rw e h
        | inr (client, e) ↦ rw e (
            ap (λ s. get s.codes gone)
              (redeem_code-clients client uri ver (fresh draws.now (get p.clients.codes code)) _)
            ∙ get-remove p.clients.codes code gone
            ∙ rw h (none_either (code === gone)))
      ]
  code_request-absent none uri ver creds p gone h = h
  code_request-absent (some code) none ver creds p gone h = h
  code_request-absent (some code) (some uri) none creds p gone h = h
  code_request-absent (some code) (some uri) (some ver) none p gone h = h

  code_grant-absent :
      (body : String → Option String) (creds : Option Credentials) (p : Provider) (gone : String)
      → get p.clients.codes gone ≡ none
      → get (code_grant verify sha256_base64url digest env draws body creds p).1.clients.codes gone
        ≡ none
  unfolding code_grant
  code_grant-absent body creds p gone h =
      code_request-absent (some_text (body "code")) (some_text (body "redirect_uri"))
        (some_text (body "code_verifier")) creds p gone h

complete_authorize-absent :
    (redirect : (uri code state : String) → String) (env : Env) (who : Option UserInfo)
    (params : AuthorizeParams) (drawn : String) (now : ℕ) (p q : Provider) (uri gone : String)
    → (drawn === gone) ≡ false
    → complete_authorize redirect env who params drawn now p ≡ ok (uri, q)
    → get p.clients.codes gone ≡ none
    → get q.clients.codes gone ≡ none
unfolding complete_authorize issue_code
complete_authorize-absent redirect env none params drawn now p q uri gone other e h = cc
complete_authorize-absent redirect env (some user) params drawn now p q uri gone other e h =
    let (client, valid, rest) = >>=-eq-ok (as_front (validate_request params p.clients)) _ e in
    let (u, admitted, done) = >>=-eq-ok (assert_may_access env user client params.scope) _ rest in
    ap (λ r. get (codes_of r) gone) (sym done) ∙ get-put p.clients.codes drawn gone _ ∙ rw other h
  where
    codes_of : Result FrontError (String × Provider) → Dict AuthCode
    codes_of (ok (uri, r)) = r.clients.codes
    codes_of (err e) = []

module _ (verify : String → String → Bool) (sha256_base64url digest : String → String)
    (redirect : (uri code state : String) → String) (gone : String) where
  -- What may happen after a code is exchanged, with other settings, accounts and draws each time: a
  -- request to exchange any code, a confirmation, which draws another code, a call that leaves the
  -- codes as they are, and a restart, which forgets them.
  pub data Later : Provider → Provider → Type 0 where
    at_once : {p : Provider} → Later p p
    exchanges :
        {p q : Provider} (env : Env) (draws : Draws) (body : String → Option String)
        (creds : Option Credentials)
        → Later p q
        → Later p (code_grant verify sha256_base64url digest env draws body creds q).1
    confirms :
        {p q r : Provider} (env : Env) (who : Option UserInfo) (params : AuthorizeParams)
        (drawn : String) (now : ℕ) (uri : String)
        → (drawn === gone) ≡ false
        → complete_authorize redirect env who params drawn now q ≡ ok (uri, r)
        → Later p q
        → Later p r
    leaves : {p q r : Provider} → r.clients.codes ≡ q.clients.codes → Later p q → Later p r
    restarts : {p q r : Provider} → r.clients.codes ≡ [] → Later p q → Later p r

  Later-absent :
      {p q : Provider}
      → Later p q
      → get p.clients.codes gone ≡ none
      → get q.clients.codes gone ≡ none
  unfolding get
  Later-absent at_once h = h
  Later-absent (exchanges {q} env draws body creds l) h =
      code_grant-absent verify sha256_base64url digest env draws body creds q gone
        (Later-absent l h)
  Later-absent (confirms {q} {r} env who params drawn now uri other e l) h =
      complete_authorize-absent redirect env who params drawn now q r uri gone other e
        (Later-absent l h)
  Later-absent (leaves same l) h = rw same (Later-absent l h)
  Later-absent (restarts empty l) h = rw empty refl

-- A code that was exchanged for tokens is never exchanged again, whoever asks and with whatever
-- request, after any sequence of exchanges, of confirmations that draw another code, of calls that
-- leave the codes as they are, and of restarts.
pub code_grant_twice :
    (verify : String → String → Bool) (sha256_base64url digest : String → String)
    (redirect : (uri code state : String) → String) (env later : Env) (draws again : Draws)
    (body other : String → Option String) (creds others : Option Credentials) (code : String)
    (p q r s : Provider) (t u : TokenResponse)
    → some_text (body "code") ≡ some code
    → code_grant verify sha256_base64url digest env draws body creds p ≡ (issued t, q)
    → Later verify sha256_base64url digest redirect code q r
    → some_text (other "code") ≡ some code
    → code_grant verify sha256_base64url digest later again other others r ≢ (issued u, s)
code_grant_twice verify sha digest redirect env later draws again body other creds others code p q r
      s t u asked e l same f =
    let one = code_grant-IsExchange verify sha digest env draws body creds p q t e in
    let two = code_grant-IsExchange verify sha digest later again other others r s u f in
    let left : get q.clients.codes code ≡ none =
      subst (λ c. get q.clients.codes c ≡ none) (text_inj (sym one.code_given ∙ asked)) one.spent in
    let kept : get r.clients.codes code ≡ none =
      Later-absent verify sha digest redirect code l left in
    let found : get r.clients.codes code ≡ some two.grant =
      subst (λ c. get r.clients.codes c ≡ some two.grant) (text_inj (sym two.code_given ∙ same))
        two.found in
    cc (kept, found)
  where
    text_inj : {a b : String} → ◌≡◌ {A = Option String} (some a) (some b) → a ≡ b
    text_inj h = cc
