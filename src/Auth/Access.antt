-- ===== src/Auth/Access.antt =====
-- Who a bearer token stands for, and what a login gives.
use text.Mathlib.TextPositions.{eq_refl}
use server_central.Prelude.{
  ℕ, ◌-◌, ◌≤◌, String, Bool, true, false, Option, none, some, Result, ok, ◌≡◌, refl, sym, subst, ap,
  ◌↔◌, inl, inr, arith, Bool-cases, Option-cases, is_empty, eq_iff, find-test,
}
use server_central.Prelude.Dict.{Dict, get, put, remove, values, get-put, All-get}
use server_central.Prelude.Dict.Injective.{get-find-values}
use server_central.Roles.{RoleStore}
use server_central.Auth.{
  UserRecord, SessionRecord, AuthStore, UserInfo, session_ttl_ms, is_expired, to_user_info,
}
use server_central.Auth.Accounts.{normalize_username}
use server_central.Auth.Sessions.{create_session, authenticate, authenticate_session, recognise}
use server_central.Auth.Sessions.Same.{IsConsistent}
use server_central.Auth.Distinct.{Entry}
use server_central.Auth.Login.{login, login_checked, is_blocked, throttle_key, account_of}

some_inj : {A : Type 0} {a b : A} → ◌≡◌ {A = Option A} (some a) (some b) → a ≡ b
some_inj h = cc

ok_inj : {E A : Type 0} {a b : A} → ◌≡◌ {A = Result E A} (ok a) (ok b) → a ≡ b
ok_inj h = cc

get-put_self :
    (m : Dict SessionRecord) (k : String) (x : SessionRecord) → get (put m k x) k ≡ some x
get-put_self m k x = rw (get-put m k k x, eq_refl k)

-- The session and the account behind a token that is accepted as `u`.
pub record Backing (roles : RoleStore) (token : String) (now : ℕ) (s : AuthStore) (u : UserInfo)
    : Type 0 where
  pub session : SessionRecord
  pub account : UserRecord
  pub given : is_empty token ≡ false
  pub stored : get s.sessions token ≡ some session
  pub fresh : now - session.last_seen_at ≤ session_ttl_ms
  pub known : get s.users session.user_id ≡ some account
  pub shown : to_user_info roles account ≡ u

Backing-of :
    (roles : RoleStore) (token : String) (now : ℕ) (s : AuthStore) (u : UserInfo)
    → (authenticate roles (some token) now s).0 ≡ some u
    → Backing roles token now s u
unfolding authenticate authenticate_session recognise
Backing-of roles token now s u h = elim (Bool-cases (is_empty token)) [
  | inl e ↦ cc (rw e at h)
  | inr e ↦ elim (Option-cases (get s.sessions token)) [
    | inl g ↦ cc (rw (e, g) at h)
    | inr (x, g) ↦ elim (Bool-cases (is_expired now x)) [
      | inl old ↦ cc (rw (e, g, old, authenticate_session) at h)
      | inr new ↦ elim (Option-cases (get s.users x.user_id)) [
        | inl miss ↦ cc (rw (e, g, new, miss, authenticate_session) at h)
        | inr (rec, hit) ↦ record {
          session = x;
          account = rec;
          given = e;
          stored = g;
          fresh = ground arith;
          known = hit;
          shown = some_inj (rw (e, g, new, hit, authenticate_session) at h);
        }
      ]
    ]
  ]
]

accepted_of :
    (roles : RoleStore) (token : String) (now : ℕ) (s : AuthStore) (u : UserInfo)
    → Backing roles token now s u
    → (authenticate roles (some token) now s).0 ≡ some u
unfolding authenticate authenticate_session recognise
accepted_of roles token now s u b =
    let new : is_expired now b.session ≡ false = ground (arith, b.fresh) in
    rw (b.given, b.stored, new, b.known, b.shown, authenticate_session)

created_accepted :
    (roles : RoleStore) (token uuid : String) (rec : UserRecord) (ip agent : Option String)
    (now later : ℕ) (s : AuthStore)
    → is_empty token ≡ false
    → later - now ≤ session_ttl_ms
    → get s.users rec.id ≡ some rec
    → (authenticate roles (some token) later (create_session token uuid rec.id ip agent now s)).0
      ≡ some (to_user_info roles rec)
unfolding create_session
created_accepted roles token uuid rec ip agent now later s given fresh known =
    accepted_of roles token later (create_session token uuid rec.id ip agent now s)
      (to_user_info roles rec)
      (record {
        session = record {
          id = uuid;
          user_id = rec.id;
          created_at = now;
          last_seen_at = now;
          ip = ip;
          user_agent = agent;
        };
        account = rec;
        given = given;
        stored = get-put_self s.sessions token _;
        fresh = fresh;
        known = known;
        shown = refl;
      })

-- A token is accepted as a user exactly if it is not empty, it is the token of a session that was
-- last seen no more than 30 days ago, and the account of the session is there; the user is that
-- account with what it may do now.
pub authenticate_iff :
    (roles : RoleStore) (token : String) (now : ℕ) (s : AuthStore) (u : UserInfo)
    → ((authenticate roles (some token) now s).0 ≡ some u) ↔ Backing roles token now s u
authenticate_iff roles token now s u =
    (Backing-of roles token now s u, accepted_of roles token now s u)

module _ (lower : String → String) (verify : (password hash : String) → Bool) where
  -- What a successful login rests on, and what it gives.
  pub record Login (roles : RoleStore) (username password token : String) (later : ℕ)
      (s s' : AuthStore) (t : String) (u : UserInfo) : Type 0 where
    pub account : UserRecord
    pub named : account_of lower verify username s ≡ some account
    pub verified : verify password account.password_hash ≡ true
    pub own_name : account.username ≡ normalize_username lower username
    pub stored : get s.users account.id ≡ some account
    pub shown : u ≡ to_user_info roles account
    pub token_given : t ≡ token
    pub accepted : (authenticate roles (some t) later s').0 ≡ some u

  of_account :
      (roles : RoleStore) (username password token uuid key : String) (ip agent : Option String)
      (now later : ℕ) (s : AuthStore) (t : String) (u : UserInfo) (o : Option UserRecord)
      → IsConsistent s
      → is_empty token ≡ false
      → later - now ≤ session_ttl_ms
      → account_of lower verify username s ≡ o
      → (login_checked lower verify roles o password token uuid key ip agent now s).0 ≡ ok (t, u)
      → Login roles username password token later s
          (login_checked lower verify roles o password token uuid key ip agent now s).1
          t
          u
  unfolding login_checked create_session
  of_account roles username password token uuid key ip agent now later s t u none w given fresh
        found e =
      cc
  of_account roles username password token uuid key ip agent now later s t u (some rec) w given
        fresh found e =
      elim (Bool-cases (verify password rec.password_hash)) [
        | inr wrong ↦ cc (rw (wrong, login_checked) at e)
        | inl right ↦
            let (k, g) = get-find-values _ s.users rec w.users.keyed found in
            let known : get s.users rec.id ≡ some rec =
              subst (λ i. get s.users i ≡ some rec)
                (sym (All-get Entry s.users k rec w.users.entries g).0) g in
            let same : (token, to_user_info roles rec) ≡ (t, u) =
              ok_inj (rw (right, login_checked) at e) in
            rw (right, login_checked)
              (record {
                account = rec;
                named = found;
                verified = right;
                own_name = (eq_iff rec.username _).0 (find-test _ (values s.users) rec found);
                stored = known;
                shown = ap (λ p. p.1) (sym same);
                token_given = ap (λ p. p.0) (sym same);
                accepted =
                    subst
                      (λ p.
                        (authenticate roles (some p.0) later (
                          create_session token uuid rec.id ip agent now
                            (record s { login_failures = remove s.login_failures key }))).0
                        ≡ some p.1)
                      same
                      (created_accepted roles token uuid rec ip agent now later
                        (record s { login_failures = remove s.login_failures key }) given fresh
                        known);
              })
      ]

  -- In a consistent store, a login that succeeds and draws a token that is not empty was with the
  -- password of the account of that name, which is the account it shows; and in the state that it
  -- leaves, at any time up to 30 days later, the token that it gives is accepted as that account.
  pub login-IsAccepted :
      (roles : RoleStore) (username password token uuid : String) (ip agent : Option String)
      (now later : ℕ) (s : AuthStore) (t : String) (u : UserInfo)
      → IsConsistent s
      → is_empty token ≡ false
      → later - now ≤ session_ttl_ms
      → (login lower verify roles username password token uuid ip agent now s).0 ≡ ok (t, u)
      → Login roles username password token later s
          (login lower verify roles username password token uuid ip agent now s).1
          t
          u
  unfolding login
  login-IsAccepted roles username password token uuid ip agent now later s t u w given fresh e =
      elim (Bool-cases
        (is_blocked now (get s.login_failures (throttle_key lower verify username ip)))) [
          | inl blocked ↦ cc (rw (blocked, login) at e)
          | inr clear ↦
              rw (clear, login)
                (of_account roles username password token uuid
                  (throttle_key lower verify username ip) ip agent now later s t u
                  (account_of lower verify username s) w given fresh refl (rw (clear, login) at e))
        ]
