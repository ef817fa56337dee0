-- ===== src/Auth/Revoked.antt =====
-- Deleting an account and resetting its password: what is gone then, in the store of sessions and in
-- the store of refresh tokens, which apps/server/src/index.ts hooks to it.
use text.Mathlib.TextEquality.{eq_iff}
use text.Mathlib.TextPositions.{eq_refl}
use server_central.Prelude.{
  String, Bool, false, not, [], ◌∷◌, none, some, ok, ◌≡◌, refl, ◌⊎◌, inl, inr, arith, ◌===◌, leb,
  length16, any, filter, Ensures, Ensures-ensure, ensured, Bool-cases, Option-cases,
}
use server_central.Prelude.Dict.{Dict, get, remove, keep, values, get-keep, get-remove}
use server_central.Oidc.Refresh.{TokenStore, revoke_for_user}
use server_central.Oidc.Refresh.Revocation.{holds_any, delete_where-gone}
use server_central.Auth.{
  UserRecord, SessionRecord, AuthStore, owner_undeletable, own_account, password_too_short,
  persist_users,
}
use server_central.Auth.Sessions.{drop_sessions, delete_sessions_for_user}
use server_central.Auth.Sessions.Same.{drop_sessions-same}
use server_central.Auth.Accounts.{delete_user, admin_set_password}

-- Some session belongs to the account.
abbrev pub has_session : String → AuthStore → Bool
has_session user_id s = any (λ x. x.user_id === user_id) (values s.sessions)

kept_apart :
    (user_id : String) (m : Dict SessionRecord)
    → any (λ x. x.user_id === user_id) (values (keep (λ k x. not (x.user_id === user_id)) m))
      ≡ false
unfolding any values filter
kept_apart user_id [] = refl
kept_apart user_id ((k, x) ∷ m) = ground (arith, kept_apart user_id m)

drop_sessions-gone :
    (user_id : String) (s : AuthStore) → has_session user_id (drop_sessions user_id s) ≡ false
unfolding drop_sessions
drop_sessions-gone user_id s = elim (Bool-cases (has_session user_id s)) [
  | inl e ↦ rw (e, drop_sessions) (kept_apart user_id s.sessions)
  | inr e ↦ rw (e, drop_sessions) e
]

drop_sessions-keeps :
    (user_id token : String) (x : SessionRecord) (s : AuthStore)
    → get s.sessions token ≡ some x
    → (x.user_id === user_id) ≡ false
    → get (drop_sessions user_id s).sessions token ≡ some x
unfolding drop_sessions
drop_sessions-keeps user_id token x s g o = elim (Bool-cases (has_session user_id s)) [
  | inl e ↦
      rw (e, drop_sessions)
        (get-keep (λ k y. not (y.user_id === user_id)) s.sessions token x g (rw o))
  | inr e ↦ rw (e, drop_sessions) g
]

-- Nothing that was issued to the account works any more, and a session of another account is kept.
pub record IsRevoked (user_id token : String) (x : SessionRecord) (s' : AuthStore) (t' : TokenStore)
    : Type 0 where
  pub no_session : has_session user_id s' ≡ false
  pub no_token : holds_any (λ r. r.user_id === user_id) t' ≡ false
  pub others : (x.user_id ≡ user_id) ⊎ (get s'.sessions token ≡ some x)

dropped :
    (user_id token : String) (x : SessionRecord) (s : AuthStore) (t : TokenStore)
    → get s.sessions token ≡ some x
    → IsRevoked user_id token x (drop_sessions user_id s) (revoke_for_user user_id t)
unfolding revoke_for_user
dropped user_id token x s t g = record {
  no_session = drop_sessions-gone user_id s;
  no_token = delete_where-gone (λ r. r.user_id === user_id) t;
  others = elim (Bool-cases (x.user_id === user_id)) [
    | inl e ↦ inl ((eq_iff x.user_id user_id).0 e)
    | inr e ↦ inr (drop_sessions-keeps user_id token x s g e)
  ];
}

-- After a password is reset by an administrator the account has no session and no refresh token,
-- and a session of another account is kept.
pub admin_set_password-IsRevoked :
    (user_id password hashed token : String) (x : SessionRecord) (s : AuthStore) (t : TokenStore)
    {s' : AuthStore} {t' : TokenStore}
    → get s.sessions token ≡ some x
    → admin_set_password revoke_for_user user_id password hashed (s, t) ≡ ok (s', t')
    → IsRevoked user_id token x s' t'
unfolding admin_set_password delete_sessions_for_user
admin_set_password-IsRevoked user_id password hashed token x s t g =
    ensured Post (admin_set_password revoke_for_user user_id password hashed (s, t)) post
  where
    Post : AuthStore × TokenStore → Type 0
    Post p = IsRevoked user_id token x p.0 p.1

    post : Ensures Post (admin_set_password revoke_for_user user_id password hashed (s, t))
    post = elim (Option-cases (get s.users user_id)) [
      | inl miss ↦ rw (miss, admin_set_password) tt
      | inr (rec, hit) ↦
          rw (hit, admin_set_password)
            (Ensures-ensure Post (leb 8 (length16 password)) password_too_short _
              λ long. dropped user_id token x _ t g)
    ]

-- An account that is there and is deleted is gone with its sessions and its refresh tokens, and
-- was neither the owner's nor the caller's own; a session of another account is kept.
pub delete_user-IsRevoked :
    (user_id caller_id token : String) (x : SessionRecord) (rec : UserRecord) (s : AuthStore)
    (t : TokenStore) {s' : AuthStore} {t' : TokenStore}
    → get s.sessions token ≡ some x
    → get s.users user_id ≡ some rec
    → delete_user revoke_for_user user_id caller_id (s, t) ≡ ok (s', t')
    → IsRevoked user_id token x s' t'
      × (get s'.users user_id ≡ none)
      × (rec.is_owner ≡ false)
      × ((user_id === caller_id) ≡ false)
unfolding delete_user delete_sessions_for_user
delete_user-IsRevoked user_id caller_id token x rec s t g there =
    ensured Post (delete_user revoke_for_user user_id caller_id (s, t)) (
      rw (there, delete_user)
        (Ensures-ensure Post (not rec.is_owner) owner_undeletable _ λ free.
          Ensures-ensure Post (not (user_id === caller_id)) own_account _ λ other.
            (dropped user_id token x _ t g, gone, ground (arith, free), ground (arith, other))))
  where
    Post : AuthStore × TokenStore → Type 0
    Post p =
        IsRevoked user_id token x p.0 p.1
        × (get p.0.users user_id ≡ none)
        × (rec.is_owner ≡ false)
        × ((user_id === caller_id) ≡ false)

    gone :
        get
          (drop_sessions user_id
            (persist_users (record s { users = remove s.users user_id }))).users
          user_id
        ≡ none
    gone = rw (
      (drop_sessions-same user_id (persist_users (record s { users = remove s.users user_id }))).0,
      get-remove s.users user_id user_id,
      eq_refl user_id,
    )
