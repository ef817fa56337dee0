-- ===== src/Oidc/Front/Gate.antt =====
-- The gate of apps/server/src/features/oidc/feature.ts that both front channels run.
use server_central.Prelude.{
  ℕ, String, true, not, ◌&&◌, Option, none, some, ◌≡◌, ◌≢◌, ◌↔◌, Bool, refl, ◌⊎◌, arith, Bool-cases,
  Option-cases, inl, inr, is_some, is_empty, includes, length, Result, ok, err, ensure, >>=-eq-ok,
  ensure-eq-ok, List,
}
use server_central.Prelude.Text.Words.{split_spaces}
use server_central.Prelude.Dict.{get, put}
use server_central.Auth.{UserInfo}
use server_central.Apps.{App, get_app, slug_for}
use server_central.Oidc.Clients.{OidcClient, get_client}
use server_central.Oidc.Device.Store.{DeviceRequest, find_pending, prune, approved}
use server_central.Oidc.Device.Store.Sound.{store-find_pending, resolve-pruned}
use server_central.Oidc.Claims.{groups_for_client, known_app_permissions, some_text}
use server_central.Oidc.Front.{
  Provider, Env, FrontError, linked_app, effective_group_prefix, declared_roles_for, passes_gate,
  assert_may_access, approve_device, approve_found, first_some, roles_of, email_required, no_access,
  code_gone, client_gone, not_authenticated,
}

-- What the client is told of the user's roles when it asks for them.
abbrev pub told_groups : Env → UserInfo → OidcClient → List String
told_groups env user client =
    groups_for_client user (effective_group_prefix env client)
      (known_app_permissions env.roles env.auth) (declared_roles_for env client)

linked_slug :
    (env : Env) (app_id prefix : Option String) (app : App)
    → linked_app env app_id ≡ some app
    → (first_some (slug_for env.apps app_id) prefix ≡ some app.slug)
      × (roles_of (linked_app env app_id) ≡ app.roles)
unfolding slug_for get_app
linked_slug env none prefix app e = cc
linked_slug env (some app_id) prefix app e = elim (Bool-cases (is_empty app_id)) [
  | inl blank ↦ absurd (impossible (rw blank at e))
  | inr named ↦
      let found : get env.apps.apps app_id ≡ some app = rw named at e in
      (rw (named, found) refl, rw (named, found) refl)
]
  where
    impossible : ◌≢◌ {A = Option App} none (some app)
    impossible h = cc

told-passes_gate :
    (env : Env) (user : UserInfo) (app : App)
    → app.require_role ≡ true
    → passes_gate env user (some app) ≡ true ↔ (
        length (
          groups_for_client user
            (some app.slug)
            (known_app_permissions env.roles env.auth)
            app.roles)
        ≢ 0)
told-passes_gate env user app r = ((λ g z. absurd (ground arith)), (λ n. ground arith))

-- The email that the scope asks for is there.
abbrev pub has_email : UserInfo → String → Bool
has_email user scope =
    not (includes (split_spaces scope) "email" && not (is_some (some_text user.email)))

-- A user passes the gate of an app that asks for a role exactly if the email that the scope asks for
-- is there and the `groups` claim would name at least one role of the app, also for the owner, whose
-- `*` is expanded; so the gate and the claim never disagree.
pub assert_may_access-groups :
    (env : Env) (user : UserInfo) (client : OidcClient) (scope : String) (app : App)
    → linked_app env client.app_id ≡ some app
    → app.require_role ≡ true
    → assert_may_access env user client scope ≡ ok tt
      ↔ (has_email user scope ≡ true) × (length (told_groups env user client) ≢ 0)
unfolding assert_may_access effective_group_prefix declared_roles_for
assert_may_access-groups env user client scope app e required =
    let (prefix, roles) = linked_slug env client.app_id client.group_prefix app e in
    let gate = told-passes_gate env user app required in
    rw (prefix, roles, e)
      (
        (λ passed.
            let (u, first, rest) =
              >>=-eq-ok (ensure (has_email user scope) email_required) _ passed in
            (ensure-eq-ok email_required first, gate.0 (ensure-eq-ok no_access rest))),
        (λ (mail, told). rw (mail, gate.1 told) refl),
      )

-- A device request is approved: the user is signed in, the request waits under the typed code, its
-- client is registered, and the user passes the gate. It is marked with the user, and of the rest of
-- the state only the requests that have expired are gone.
pub record Approval (to_upper_case : String → String) (env : Env) (who : Option UserInfo)
    (typed : String) (now : ℕ) (p q : Provider) : Type 0 where
  pub user : UserInfo
  pub key : String
  pub request : DeviceRequest
  pub client : OidcClient
  pub present : who ≡ some user
  pub waiting : (find_pending to_upper_case typed now p.devices).0 ≡ some (key, request)
  pub registered : get_client p.clients request.client_id ≡ some client
  pub admitted : assert_may_access env user client request.scope ≡ ok tt
  pub marked : q ≡ record p {
    devices =
        put
          (prune now p.devices)
          key
          (record request { status = approved; user_id = some user.id; approved_at = some now });
  }

-- Why one is not approved.
pub data Grounds (to_upper_case : String → String) (env : Env) (who : Option UserInfo)
    (typed : String) (now : ℕ) (p : Provider) : Type 0 where
  nobody : who ≡ none → Grounds to_upper_case env who typed now p
  nothing_waits :
      (find_pending to_upper_case typed now p.devices).0 ≡ none
      → Grounds to_upper_case env who typed now p
  unregistered :
      (key : String) (r : DeviceRequest)
      → (find_pending to_upper_case typed now p.devices).0 ≡ some (key, r)
      → get_client p.clients r.client_id ≡ none
      → Grounds to_upper_case env who typed now p
  not_admitted :
      (user : UserInfo) (key : String) (r : DeviceRequest) (client : OidcClient) (e : FrontError)
      → who ≡ some user
      → (find_pending to_upper_case typed now p.devices).0 ≡ some (key, r)
      → get_client p.clients r.client_id ≡ some client
      → assert_may_access env user client r.scope ≡ err e
      → Grounds to_upper_case env who typed now p

-- A device request is refused for a reason, and none is changed: at most the expired ones are gone.
pub record Refusal (to_upper_case : String → String) (env : Env) (who : Option UserInfo)
    (typed : String) (now : ℕ) (p q : Provider) : Type 0 where
  pub reason : Grounds to_upper_case env who typed now p
  pub kept : (q ≡ p) ⊎ (q ≡ record p { devices = prune now p.devices })

Result-cases : (r : Result FrontError (Unit {0})) → ((e : FrontError) × (r ≡ err e)) ⊎ (r ≡ ok tt)
Result-cases (err e) = inl (e, refl)
Result-cases (ok u) = inr refl

-- What an answer to the approval says, and what state it leaves.
abbrev pub Answered :
    (to_upper_case : String → String)
    → Env
    → Option UserInfo
    → String
    → ℕ
    → Provider
    → Result FrontError (Unit {0}) × Provider
    → Type 0
Answered f env who typed now p (result, q) =
    ((result ≡ ok tt) × Approval f env who typed now p q)
    ⊎ ((e : FrontError) × (result ≡ err e) × Refusal f env who typed now p q)

approve_found-Answered :
    (to_upper_case : String → String) (env : Env) (user : UserInfo) (typed : String) (now : ℕ)
    (p : Provider) (found : Option (String × DeviceRequest))
    → (find_pending to_upper_case typed now p.devices).0 ≡ found
    → Answered to_upper_case env (some user) typed now p (
        approve_found to_upper_case env user typed now found
          (record p { devices = prune now p.devices }))
unfolding approve_found
approve_found-Answered f env user typed now p none e =
    inr (code_gone, refl, record { reason = nothing_waits e; kept = inr refl })
approve_found-Answered f env user typed now p (some (key, r)) e =
    elim (Option-cases (get_client p.clients r.client_id)) [
      | inl gone ↦
          rw (gone, approve_found)
            (inr
              (client_gone, refl, record { reason = unregistered key r e gone; kept = inr refl }))
      | inr (client, there) ↦ elim (Result-cases (assert_may_access env user client r.scope)) [
        | inl (why, closed) ↦
            rw (there, closed, approve_found)
              (inr (
                why,
                refl,
                record {
                  reason = not_admitted user key r client why refl e there closed;
                  kept = inr refl;
                },
              ))
        | inr entry ↦
            rw (there, entry, approve_found)
              (inl (
                refl,
                record {
                  user = user;
                  key = key;
                  request = r;
                  client = client;
                  present = refl;
                  waiting = e;
                  registered = there;
                  admitted = entry;
                  marked = rw (resolve-pruned f typed approved user.id now p.devices key r e) refl;
                },
              ))
      ]
    ]

-- Approving a device request answers without an error only if the user is signed in, a request waits
-- under the typed code, its client is registered, and the user passes the gate of the browser flow;
-- just that request is then marked with that user. Else there is a reason to refuse, the answer is an
-- error, and no request is marked.
pub approve_device-Answered :
    (to_upper_case : String → String) (env : Env) (who : Option UserInfo) (typed : String) (now : ℕ)
    (p : Provider)
    → Answered to_upper_case env who typed now p (approve_device to_upper_case env who typed now p)
unfolding approve_device
approve_device-Answered f env none typed now p =
    inr (not_authenticated, refl, record { reason = nobody refl; kept = inl refl })
approve_device-Answered f env (some user) typed now p =
    rw (store-find_pending f typed now p.devices)
      (approve_found-Answered f env user typed now p (find_pending f typed now p.devices).0 refl)
